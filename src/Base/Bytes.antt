-- ===== src/Base/Bytes.antt =====
-- Byte sequences, slices with Rust's bounds checks, and big-endian integers.
use Prim.Native.Nat.{ℕ, zero, suc, ◌+◌, ◌-◌, ◌*◌, ◌/◌, ◌%◌, ◌^◌, ◌≤◌, ◌<◌}
use mathlib.Core.Path.{◌≡◌, refl, ap}
use mathlib.Core.Logic.{◌↔◌}
use mathlib.Core.Bool.{Bool, true, false, ◌&&◌, ◌||◌, not}
use mathlib.Core.List.{List, [], ◌∷◌, ◌++◌}
use native.Mathlib.Omega.{arith}
use native.Mathlib.Nat.{pow-suc}
use gitdb.Base.Tests.{leb, ltb, ◌==◌, if◌then◌else◌}
use gitdb.Base.Lists.{length, take, drop, replicate, All, length-append, length-take, length-drop}
use gitdb.Base.Result.{Result, ok, panic, ◌>>=◌, IsSafe, IsSafe-ok, IsSafe-bind}

abbrev pub Bytes : Type 0
Bytes = List ℕ

abbrev pub IsByte : ℕ → Type 0
IsByte b = b < 256

abbrev pub AreBytes : Bytes → Type 0
AreBytes = All IsByte

-- `==` on byte slices
unfoldable pub bytes_eq : Bytes → Bytes → Bool
bytes_eq [] [] = true
bytes_eq (x ∷ xs) (y ∷ ys) = x == y && bytes_eq xs ys
bytes_eq _ _ = false

pub bytes_eq_iff : (xs ys : Bytes) → (bytes_eq xs ys ≡ true) ↔ (xs ≡ ys)
unfolding bytes_eq
bytes_eq_iff (x ∷ xs) (y ∷ ys) = ground (arith, bytes_eq_iff xs ys)
bytes_eq_iff _ _ = ground arith

pub bytes_eq_refl : (xs : Bytes) → bytes_eq xs xs ≡ true
bytes_eq_refl xs = (bytes_eq_iff xs xs).1 refl

-- `iter().any(|&byte| byte != 0)`
unfoldable pub any_nonzero : Bytes → Bool
any_nonzero [] = false
any_nonzero (b ∷ bs) = not (b == 0) || any_nonzero bs

pub any_nonzero-replicate : (n : ℕ) → any_nonzero (replicate n 0) ≡ false
unfolding any_nonzero
any_nonzero-replicate zero = refl
any_nonzero-replicate (suc n) = any_nonzero-replicate n

pub any_nonzero-eq_false : (bs : Bytes) → any_nonzero bs ≡ false → bs ≡ replicate (length bs) 0
unfolding any_nonzero
any_nonzero-eq_false [] h = refl
any_nonzero-eq_false (b ∷ bs) h = ground (arith, any_nonzero-eq_false bs)

-- `to_be_bytes` of an unsigned integer of `n` bytes, and `from_be_bytes`
unfoldable pub be : ℕ → ℕ → Bytes
be zero v = []
be (suc n) v = be n (v / 256) ++ v % 256 ∷ []

unfoldable pub from_be_loop : ℕ → Bytes → ℕ
from_be_loop acc [] = acc
from_be_loop acc (b ∷ bs) = from_be_loop (acc * 256 + b) bs

unfoldable pub from_be : Bytes → ℕ
unfolding from_be_loop
from_be = from_be_loop 0

from_be_loop-concat :
    (acc : ℕ) (xs : Bytes) (b : ℕ) → from_be_loop acc (xs ++ b ∷ []) ≡ from_be_loop acc xs * 256 + b
unfolding from_be_loop
from_be_loop-concat acc [] b = refl
from_be_loop-concat acc (x ∷ xs) b = from_be_loop-concat (acc * 256 + x) xs b

pub length-be : (n v : ℕ) → length (be n v) ≡ n
unfolding be
length-be zero v = refl
length-be (suc n) v =
    omega (arith, length-append (be n (v / 256)) (v % 256 ∷ []), length-be n (v / 256))

pub be-AreBytes : (n v : ℕ) → AreBytes (be n v)
unfolding be
be-AreBytes zero v = tt
be-AreBytes (suc n) v = All_concat (be n (v / 256)) (be-AreBytes n (v / 256)) (omega arith)
  where
    All_concat : (xs : Bytes) {b : ℕ} → AreBytes xs → b < 256 → AreBytes (xs ++ b ∷ [])
    All_concat [] h k = (k, tt)
    All_concat (x ∷ xs) h k = (h.0, All_concat xs h.1 k)

pub from_be-be : (n v : ℕ) → v < 256 ^ n → from_be (be n v) ≡ v
unfolding from_be be
from_be-be zero v h = omega arith
from_be-be (suc n) v h = omega (
  arith,
  from_be_loop-concat 0 (be n (v / 256)) (v % 256),
  from_be-be n (v / 256) (omega (arith, pow-suc 256 n, h)),
)

take-append_le {ℓ} :
    {A : Type ℓ} (n : ℕ) (xs ys : List A) → n ≤ length xs → take n (xs ++ ys) ≡ take n xs
take-append_le zero xs ys h = refl
take-append_le (suc n) [] ys h = absurd (omega arith)
take-append_le (suc n) (x ∷ xs) ys h = ap (◌∷◌ x) (take-append_le n xs ys (omega arith))

pub take-drop_append {ℓ} :
    {A : Type ℓ} (xs ys : List A) (from to : ℕ)
    → to ≤ length xs
    → take (to - from) (drop from (xs ++ ys)) ≡ take (to - from) (drop from xs)
take-drop_append xs ys zero to h = take-append_le (to - 0) xs ys (omega arith)
take-drop_append [] ys (suc from) to h = let e : to - suc from ≡ 0 = omega arith in rw e
take-drop_append (x ∷ xs) ys (suc from) zero h = let e : 0 - suc from ≡ 0 = omega arith in rw e
take-drop_append (x ∷ xs) ys (suc from) (suc to) h =
    let e : suc to - suc from ≡ to - from = omega arith in
    rw e (take-drop_append xs ys from to (omega arith))

-- `bytes[from..to]`
unfoldable pub slice : {E : Type 0} → Bytes → ℕ → ℕ → Result E Bytes
slice bytes from to =
    if leb from to && leb to (length bytes) then ok (take (to - from) (drop from bytes)) else panic

module _ {E : Type 0} where
  -- `uN::from_be_bytes(bytes[offset..offset + n].try_into().expect(..))`
  abbrev pub read_be : ℕ → Bytes → ℕ → Result E ℕ
  read_be n bytes offset = do s ← slice bytes offset (offset + n); ok (from_be s)

  -- `bytes[i]`
  unfoldable pub byte_at : Bytes → ℕ → Result E ℕ
  byte_at [] i = panic
  byte_at (b ∷ bs) zero = ok b
  byte_at (b ∷ bs) (suc i) = byte_at bs i

  pub byte_at-IsSafe : (bytes : Bytes) (i : ℕ) → i < length bytes → IsSafe (byte_at bytes i)
  unfolding byte_at
  byte_at-IsSafe [] i h = absurd (omega arith)
  byte_at-IsSafe (b ∷ bs) zero h = IsSafe-ok b
  byte_at-IsSafe (b ∷ bs) (suc i) h = byte_at-IsSafe bs i (omega arith)

  pub slice-eq_ok :
      (bytes : Bytes) (from to : ℕ)
      → from ≤ to
      → to ≤ length bytes
      → slice {E = E} bytes from to ≡ ok (take (to - from) (drop from bytes))
  unfolding slice
  slice-eq_ok bytes from to h k = ground arith

  -- A slice that ends inside the front part does not see the back part.
  pub slice-append :
      (xs ys : Bytes) (from to : ℕ)
      → to ≤ length xs
      → slice {E = E} (xs ++ ys) from to ≡ slice xs from to
  unfolding slice
  slice-append xs ys from to h =
      ground (arith, length-append xs ys, take-drop_append xs ys from to h)

  pub slice-IsSafe :
      (bytes : Bytes) (from to : ℕ)
      → from ≤ to
      → to ≤ length bytes
      → IsSafe (slice {E = E} bytes from to)
  slice-IsSafe bytes from to h k = rw (slice-eq_ok bytes from to h k) (IsSafe-ok _)

  pub length-slice :
      (bytes : Bytes) (from to : ℕ) {s : Bytes}
      → slice {E = E} bytes from to ≡ ok s
      → length s + from ≡ to
  unfolding slice
  length-slice bytes from to h =
      ground (arith, length-take (to - from) (drop from bytes), length-drop from bytes)

  pub read_be-IsSafe :
      (n : ℕ) (bytes : Bytes) (offset : ℕ)
      → offset + n ≤ length bytes
      → IsSafe (read_be n bytes offset)
  read_be-IsSafe n bytes offset h =
      IsSafe-bind _ _ (slice-IsSafe bytes offset (offset + n) (omega arith) h) (λ s _. IsSafe-ok _)

-- `bytes[offset..offset + src.len()].copy_from_slice(src)`, at an offset where that range is in
-- `bytes`
unfoldable pub put_at : Bytes → ℕ → Bytes → Bytes
put_at bytes offset src = take offset bytes ++ (src ++ drop (offset + length src) bytes)

-- A check of `AreBytes` on given bytes.
abbrev pub are_bytes : Bytes → Bool
are_bytes [] = true
are_bytes (b ∷ bs) = ltb b 256 && are_bytes bs

pub are_bytes-AreBytes : (xs : Bytes) → are_bytes xs ≡ true → AreBytes xs
are_bytes-AreBytes [] h = tt
are_bytes-AreBytes (b ∷ bs) h = (ground arith, are_bytes-AreBytes bs (ground arith))
