-- ===== src/Base/Cuts.antt =====
-- Reading a byte sequence field by field: each slice is what stands between two tails.
use Prim.Native.Nat.{ℕ, zero, suc, ◌+◌, ◌-◌, ◌*◌, ◌/◌, ◌%◌, ◌^◌, ◌≤◌, ◌<◌}
use mathlib.Core.Path.{◌≡◌, refl, sym, ap, ◌∙◌}
use mathlib.Core.Bool.{false}
use mathlib.Core.List.{[], ◌∷◌, ◌++◌, append_assoc, append-nil}
use native.Mathlib.Omega.{arith}
use native.Mathlib.Nat.{pow-suc}
use gitdb.Base.Lists.{
  length, take, drop, replicate, take-append, drop-append, take-append-drop, drop-drop,
  length-append,
}
use gitdb.Base.Bytes.{
  Bytes, AreBytes, any_nonzero, any_nonzero-eq_false, be, from_be, from_be-be, from_be_loop, slice,
  slice-eq_ok, byte_at, put_at, read_be, length-slice,
}
use gitdb.Base.Result.{ok, >>=-eq-ok}

pub AreBytes-drop : (n : ℕ) (xs : Bytes) → AreBytes xs → AreBytes (drop n xs)
AreBytes-drop zero xs h = h
AreBytes-drop (suc n) [] h = h
AreBytes-drop (suc n) (x ∷ xs) h = AreBytes-drop n xs h.1

pub AreBytes-take : (n : ℕ) (xs : Bytes) → AreBytes xs → AreBytes (take n xs)
AreBytes-take zero xs h = tt
AreBytes-take (suc n) [] h = h
AreBytes-take (suc n) (x ∷ xs) h = (h.0, AreBytes-take n xs h.1)

be-from_be_loop :
    (s : Bytes) (acc k j : ℕ)
    → AreBytes s
    → j ≡ k + length s
    → be j (from_be_loop acc s) ≡ be k acc ++ s
unfolding from_be_loop
be-from_be_loop [] acc k j h e = let e' : j ≡ k = omega arith in rw (e', append-nil)
be-from_be_loop (b ∷ bs) acc k j h e =
    be-from_be_loop bs (acc * 256 + b) (suc k) j h.1 (omega arith) ∙ step
  where
    step : be (suc k) (acc * 256 + b) ++ bs ≡ be k acc ++ b ∷ bs
    step =
        let quotient : (acc * 256 + b) / 256 ≡ acc = omega (arith, h.0) in
        let remainder : (acc * 256 + b) % 256 ≡ b = omega (arith, h.0) in
        unfold be in rw (quotient, remainder) (append_assoc (be k acc) (b ∷ []) bs)

-- Writing the number that was read gives the bytes back.
pub be-from_be : (s : Bytes) (n : ℕ) → AreBytes s → length s ≡ n → be n (from_be s) ≡ s
unfolding from_be be
be-from_be s n h e = be-from_be_loop s 0 0 n h (omega arith)

from_be_loop-lt :
    (s : Bytes) (acc k j : ℕ)
    → AreBytes s
    → acc < 256 ^ k
    → j ≡ k + length s
    → from_be_loop acc s < 256 ^ j
unfolding from_be_loop
from_be_loop-lt [] acc k j h lt e = let e' : j ≡ k = omega arith in rw e' lt
from_be_loop-lt (b ∷ bs) acc k j h lt e =
    from_be_loop-lt bs (acc * 256 + b) (suc k) j h.1 (omega (arith, h.0, pow-suc 256 k))
      (omega arith)

pub from_be-lt : (s : Bytes) (n : ℕ) → AreBytes s → length s ≡ n → from_be s < 256 ^ n
unfolding from_be
from_be-lt s n h e = from_be_loop-lt s 0 0 n h (omega arith) (omega arith)

drop-length : (xs : Bytes) (n : ℕ) → length xs ≤ n → drop n xs ≡ []
drop-length [] zero h = refl
drop-length [] (suc n) h = refl
drop-length (x ∷ xs) zero h = absurd (omega arith)
drop-length (x ∷ xs) (suc n) h = drop-length xs n (omega arith)

module _ {E : Type 0} where
  pub slice-AreBytes :
      (xs : Bytes) (from to : ℕ) {s : Bytes}
      → AreBytes xs
      → slice {E = E} xs from to ≡ ok s
      → AreBytes s
  unfolding slice
  slice-AreBytes xs from to h e =
      ground (arith, AreBytes-take (to - from) (drop from xs) (AreBytes-drop from xs h))

  pub slice-drop :
      (xs : Bytes) (from to : ℕ) {s : Bytes}
      → slice {E = E} xs from to ≡ ok s
      → drop from xs ≡ s ++ drop to xs
  unfolding slice
  slice-drop xs from to e =
      ground (arith, take-append-drop (to - from) (drop from xs), drop-drop (to - from) from to xs)

  -- A big-endian field that was read is what stands at its offset.
  pub read_be-drop :
      (n : ℕ) (xs : Bytes) (from : ℕ) {v : ℕ}
      → AreBytes xs
      → read_be {E = E} n xs from ≡ ok v
      → (drop from xs ≡ be n v ++ drop (from + n) xs) × (v < 256 ^ n)
  read_be-drop n xs from {v} h e =
      let (s, cut, value) = >>=-eq-ok (slice xs from (from + n)) _ e in
      let bytes = slice-AreBytes xs from (from + n) h cut in
      let same : from_be s ≡ v = cc in
      let size : length s ≡ n = omega (arith, length-slice xs from (from + n) cut) in
      (
        slice-drop xs from (from + n) cut
            ∙ ap (λ t. t ++ drop (from + n) xs) (cc (be-from_be s n bytes size)),
        rw same at (from_be-lt s n bytes size),
      )

  -- An open-ended slice without a nonzero byte is the zeros up to the end.
  pub zero_tail :
      (xs : Bytes) (from k : ℕ) {s : Bytes}
      → slice {E = E} xs from (length xs) ≡ ok s
      → any_nonzero s ≡ false
      → length xs ≡ from + k
      → drop from xs ≡ replicate k 0
  zero_tail xs from k {s} cut clear size =
      slice-drop xs from (length xs) cut
      ∙ ap (λ t. s ++ t) (drop-length xs (length xs) (omega arith))
      ∙ append-nil s
      ∙ any_nonzero-eq_false s clear
      ∙ ap (λ n. replicate n 0) fits
    where
      fits : length s ≡ k
      fits = omega (arith, length-slice xs from (length xs) cut)

  pub slice-eq_take :
      (xs : Bytes) (to : ℕ) {s : Bytes} → slice {E = E} xs 0 to ≡ ok s → s ≡ take to xs
  unfolding slice
  slice-eq_take xs to e =
      let whole : to - 0 ≡ to = omega arith in ground (arith, ap (λ n. take n xs) whole)

  pub byte_at-drop :
      (xs : Bytes) (i : ℕ) {b : ℕ} → byte_at {E = E} xs i ≡ ok b → drop i xs ≡ b ∷ drop (suc i) xs
  unfolding byte_at
  byte_at-drop [] i e = absurd (cc)
  byte_at-drop (x ∷ xs) zero e = let same : x ≡ _ = cc in ap (λ t. t ∷ xs) same
  byte_at-drop (x ∷ xs) (suc i) e = byte_at-drop xs i e

module _ {E : Type 0} where
  -- A slice along the seams of a concatenation.
  pub slice_middle :
      (xs ys zs : Bytes) (from to : ℕ)
      → length xs ≡ from
      → from + length ys ≡ to
      → slice {E = E} (xs ++ (ys ++ zs)) from to ≡ ok ys
  slice_middle xs ys zs from to h k =
      slice-eq_ok (xs ++ (ys ++ zs)) from to (omega arith)
        (omega (arith, length-append xs (ys ++ zs), length-append ys zs))
      ∙ ap (λ t. ok (take (to - from) t)) (drop-append from xs (ys ++ zs) h)
      ∙ ap ok (take-append (to - from) ys zs (omega arith))

  pub slice_end :
      (xs ys : Bytes) (from to : ℕ)
      → length xs ≡ from
      → from + length ys ≡ to
      → slice {E = E} (xs ++ ys) from to ≡ ok ys
  slice_end xs ys from to h k =
      ap (λ t. slice (xs ++ t) from to) (sym (append-nil ys)) ∙ slice_middle xs ys [] from to h k

module _ {E : Type 0} where
  pub slice_field :
      (xs s : Bytes) (from to : ℕ)
      → from ≤ to
      → to ≤ length xs
      → take (to - from) (drop from xs) ≡ s
      → slice {E = E} xs from to ≡ ok s
  slice_field xs s from to h k e = slice-eq_ok xs from to h k ∙ ap ok e

  -- Reading a field that holds the bytes of `v`.
  pub read_field :
      (n : ℕ) (xs : Bytes) (from v : ℕ)
      → from + n ≤ length xs
      → v < 256 ^ n
      → take n (drop from xs) ≡ be n v
      → read_be {E = E} n xs from ≡ ok v
  read_field n xs from v h fits e =
      let same : from + n - from ≡ n = omega arith in
      rw (
        slice_field xs (be n v) from (from + n) (omega arith) h (rw (same, e)),
        from_be-be n v fits,
      )

  pub byte_field :
      (xs : Bytes) (i b : ℕ) → take 1 (drop i xs) ≡ b ∷ [] → byte_at {E = E} xs i ≡ ok b
  unfolding byte_at
  byte_field [] zero b e = absurd (cc)
  byte_field [] (suc i) b e = absurd (cc)
  byte_field (x ∷ xs) zero b e = cc
  byte_field (x ∷ xs) (suc i) b e = byte_field xs i b e

-- Writing past a front part leaves it, and writing at the start of a part replaces its first bytes.
pub put_at-skip :
    (xs ys : Bytes) (n k offset : ℕ) (src : Bytes)
    → length xs ≡ n
    → offset ≡ n + k
    → put_at (xs ++ ys) offset src ≡ xs ++ put_at ys k src
unfolding put_at
put_at-skip [] ys n k offset src h e =
    let same : offset ≡ k = omega arith in
    ap (λ t. take t ys ++ (src ++ drop (t + length src) ys)) same
put_at-skip (x ∷ xs) ys n k zero src h e = absurd (omega arith)
put_at-skip (x ∷ xs) ys zero k (suc offset) src h e = absurd (omega arith)
put_at-skip (x ∷ xs) ys (suc n) k (suc offset) src h e =
    let next : suc offset + length src ≡ suc (offset + length src) = omega arith in
    rw next (ap (◌∷◌ x) (put_at-skip xs ys n k offset src (omega arith) (omega arith)))

pub put_at-front :
    (ys : Bytes) (n : ℕ) (src : Bytes) → length src ≡ n → put_at ys 0 src ≡ src ++ drop n ys
unfolding put_at
put_at-front ys n src h = let same : 0 + length src ≡ n = omega arith in rw same

-- Overwriting a part by one of the same length.
pub put_at-part :
    (xs old ys : Bytes) (offset : ℕ) (src : Bytes)
    → length xs ≡ offset
    → length old ≡ length src
    → put_at (xs ++ (old ++ ys)) offset src ≡ (xs ++ src) ++ ys
put_at-part xs old ys offset src h k =
    put_at-skip xs (old ++ ys) offset 0 offset src h (omega arith)
    ∙ ap (λ t. xs ++ t)
        (put_at-front (old ++ ys) (length src) src refl
          ∙ ap (λ t. src ++ t) (drop-append (length src) old ys k))
    ∙ sym (append_assoc xs src ys)

pub take-all : (xs : Bytes) (n : ℕ) → n ≡ length xs → take n xs ≡ xs
take-all xs n h = ap (take n) (sym (append-nil xs)) ∙ take-append n xs [] (sym h)
