-- ===== src/Base/Result.antt =====
-- Rust's `Result<A, E>`, and the panic of an index, a slice or an `expect` out of range.
use mathlib.Core.Path.{◌≡◌, refl}
use mathlib.Core.Logic.{◌≢◌}
use mathlib.Core.Bool.{Bool, true, false}
use mathlib.Core.Option.{Option, none, some}

pub data Result {ℓ} (E : Type 0) (A : Type ℓ) : Type ℓ where
  panic : Result E A
  ok : A → Result E A
  err : E → Result E A

module _ {E : Type 0} where
  infixl 5 ◌>>=◌ ◌>>◌
  -- The operator `?`
  abbrev pub ◌>>=◌ {ℓ κ} : {A : Type ℓ} {B : Type κ} → Result E A → (A → Result E B) → Result E B
  panic >>= next = panic
  err e >>= next = err e
  ok a >>= next = next a

  abbrev pub ◌>>◌ {κ} :
      {B : Type κ} (first : Result E (Unit {0})) (then_do : Result E B) → Result E B
  first >> then_do = first >>= λ _. then_do

  -- `if test { return Err(e) }`
  abbrev pub reject_if : Bool → E → Result E (Unit {0})
  reject_if true e = err e
  reject_if false e = ok tt

  -- `.ok_or(e)?`
  abbrev pub ok_or {ℓ} : {A : Type ℓ} → Option A → E → Result E A
  ok_or none e = err e
  ok_or (some a) e = ok a

  -- A method on `&mut self` that builds the new state first: an error leaves the state as it was.
  abbrev pub committed : {S : Type 0} → S → Result E S → S × Result E (Unit {0})
  committed s (ok t) = (t, ok tt)
  committed s (err e) = (s, err e)
  committed s panic = (s, panic)

  -- A chain that returns has a first step that returns.
  pub >>=-eq-ok {κ ℓ} :
      {B : Type κ} {A : Type ℓ} (first : Result E A) (next : A → Result E B) {b : B}
      → (first >>= next) ≡ ok b
      → (a : A) × (first ≡ ok a) × (next a ≡ ok b)
  >>=-eq-ok panic next h = cc
  >>=-eq-ok (err e) next h = cc
  >>=-eq-ok (ok a) next h = (a, refl, h)

  -- `m` does not panic.
  pub record IsSafe {ℓ} {A : Type ℓ} (m : Result E A) : Type ℓ where
    pub no_panic : m ≢ panic

  pub IsSafe-ok {ℓ} : {A : Type ℓ} (a : A) → IsSafe (ok a)
  IsSafe-ok a = record { no_panic = λ h. cc }

  pub IsSafe-err {ℓ} : {A : Type ℓ} (e : E) → IsSafe {A = A} (err e)
  IsSafe-err e = record { no_panic = λ h. cc }

  pub IsSafe-reject_if : (b : Bool) (e : E) → IsSafe (reject_if b e)
  IsSafe-reject_if true e = IsSafe-err e
  IsSafe-reject_if false e = IsSafe-ok tt

  pub IsSafe-ok_or {ℓ} : {A : Type ℓ} (o : Option A) (e : E) → IsSafe (ok_or o e)
  IsSafe-ok_or none e = IsSafe-err e
  IsSafe-ok_or (some a) e = IsSafe-ok a

  pub IsSafe-bind {ℓ κ} :
      {A : Type ℓ} {B : Type κ} (m : Result E A) (f : A → Result E B)
      → IsSafe m
      → ((a : A) → m ≡ ok a → IsSafe (f a))
      → IsSafe (m >>= f)
  IsSafe-bind (ok a) f s k = k a refl
  IsSafe-bind (err e) f s k = IsSafe-err e
  IsSafe-bind panic f s k = absurd (s.no_panic refl)

pub ruleset safe_rules = (IsSafe-ok, IsSafe-err, IsSafe-reject_if, IsSafe-ok_or, IsSafe-bind)
