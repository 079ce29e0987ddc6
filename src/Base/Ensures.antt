-- ===== src/Base/Ensures.antt =====
-- Total correctness of a `do` block in `Result`: it returns a value with a property or an error,
-- and does not panic. One rule for each kind of step.
use Prim.Native.Nat.{ℕ, suc, ◌+◌, ◌≤◌}
use mathlib.Core.Path.{◌≡◌, refl, subst}
use mathlib.Core.Logic.{◌≢◌}
use mathlib.Core.Bool.{Bool, true, false}
use mathlib.Core.Option.{Option, none, some}
use gitdb.Base.Lists.{length}
use gitdb.Base.Bytes.{Bytes, slice, slice-IsSafe, read_be, read_be-IsSafe, byte_at, byte_at-IsSafe}
use gitdb.Base.Result.{Result, ok, err, panic, ◌>>=◌, ◌>>◌, reject_if, ok_or, IsSafe}

pub data Ensures {E A : Type 0} (P : A → Type 0) : Result E A → Type 0 where
  returns : (a : A) → P a → Ensures P (ok a)
  raises : (e : E) → Ensures P (err e)

module _ {E A : Type 0} {P : A → Type 0} where
  pub Ensures-ok : {m : Result E A} (a : A) → Ensures P m → m ≡ ok a → P a
  Ensures-ok a (returns b h) e = let same : b ≡ a = cc in subst P same h
  Ensures-ok a (raises x) e = absurd (cc)

  pub Ensures-ne-panic : {m : Result E A} → Ensures P m → m ≢ panic
  Ensures-ne-panic (returns b h) e = cc
  Ensures-ne-panic (raises x) e = cc

  pub ensure_step :
      {B : Type 0} (m : Result E B) {f : B → Result E A}
      → IsSafe m
      → ((b : B) → m ≡ ok b → Ensures P (f b))
      → Ensures P (m >>= f)
  ensure_step (ok b) s k = k b refl
  ensure_step (err e) s k = raises e
  ensure_step panic s k = absurd (s.no_panic refl)

  pub ensure_reject :
      (test : Bool) (e : E) {rest : Result E A}
      → (test ≡ false → Ensures P rest)
      → Ensures P (reject_if test e >> rest)
  ensure_reject true e k = raises e
  ensure_reject false e k = k refl

  pub ensure_some :
      {B : Type 0} (o : Option B) (e : E) {f : B → Result E A}
      → ((b : B) → o ≡ some b → Ensures P (f b))
      → Ensures P (ok_or o e >>= f)
  ensure_some none e k = raises e
  ensure_some (some b) e k = k b refl

  pub ensure_slice :
      (xs : Bytes) (from to : ℕ) {f : Bytes → Result E A}
      → from ≤ to
      → to ≤ length xs
      → ((s : Bytes) → slice {E = E} xs from to ≡ ok s → Ensures P (f s))
      → Ensures P (slice xs from to >>= f)
  ensure_slice xs from to h k next = ensure_step _ (slice-IsSafe xs from to h k) next

  pub ensure_read :
      (n : ℕ) (xs : Bytes) (from : ℕ) {f : ℕ → Result E A}
      → from + n ≤ length xs
      → ((v : ℕ) → read_be {E = E} n xs from ≡ ok v → Ensures P (f v))
      → Ensures P (read_be n xs from >>= f)
  ensure_read n xs from h next = ensure_step _ (read_be-IsSafe n xs from h) next

  pub ensure_byte :
      (xs : Bytes) (i : ℕ) {f : ℕ → Result E A}
      → suc i ≤ length xs
      → ((v : ℕ) → byte_at {E = E} xs i ≡ ok v → Ensures P (f v))
      → Ensures P (byte_at xs i >>= f)
  ensure_byte xs i h next = ensure_step _ (byte_at-IsSafe xs i h) next
