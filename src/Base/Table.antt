-- ===== src/Base/Table.antt =====
-- `HashMap`: an association list with at most one entry for a key. The order of entries carries no
-- meaning: what the program iterates over it sorts first. Keys are compared through `KeyEq`.
use Prim.Native.Nat.{ℕ}
use mathlib.Core.Path.{◌≡◌}
use mathlib.Core.Logic.{◌↔◌}
use mathlib.Core.Bool.{Bool, true, ◌&&◌}
use mathlib.Core.Option.{Option, none, some}
use mathlib.Core.List.{List, [], ◌∷◌}
use native.Mathlib.Omega.{arith}
use mathlib.Core.List.{Memᴰ}
use mathlib.Core.Logic.{inl, inr}
use gitdb.Base.Bytes.{Bytes, bytes_eq, bytes_eq_iff}
use gitdb.Base.Tests.{Bool-cases, ◌==◌ as nat_eq, ==_iff, if◌then◌else◌}

-- `PartialEq` of a key type
pub record KeyEq (K : Type 0) : Type 0 where
  pub same_key : (i j : K) → Bool
  pub same_iff : (i j : K) → (same_key i j ≡ true) ↔ (i ≡ j)

infix 50 ◌=?◌
abbrev pub ◌=?◌ : {K : Type 0} ⦃eq : KeyEq K⦄ (i j : K) → Bool
◌=?◌ ⦃eq⦄ i j = eq.same_key i j

instance abbrev pub nat_Eq : KeyEq ℕ
nat_Eq = record { same_key = nat_eq; same_iff = ==_iff }

instance abbrev pub bytes_Eq : KeyEq Bytes
bytes_Eq = record { same_key = bytes_eq; same_iff = bytes_eq_iff }

module _ {A B : Type 0} ⦃ea : KeyEq A⦄ ⦃eb : KeyEq B⦄ where
  pub pair_beq_iff : (p q : A × B) → ((p.0 =? q.0 && p.1 =? q.1) ≡ true) ↔ (p ≡ q)
  pair_beq_iff (a, b) (c, d) = ground (arith, ea.same_iff a c, eb.same_iff b d)

  instance abbrev pub pair_Eq : KeyEq (A × B)
  pair_Eq = record { same_key = λ p q. p.0 =? q.0 && p.1 =? q.1; same_iff = pair_beq_iff }

abbrev pub Table : Type 0 → Type 0 → Type 0
Table K V = List (K × V)

module _ {K V : Type 0} ⦃e : KeyEq K⦄ where
  -- `get`
  unfoldable pub get : K → Table K V → Option V
  get k [] = none
  get k ((j, v) ∷ m) = if j =? k then some v else get k m

  -- `remove`
  unfoldable pub remove : K → Table K V → Table K V
  remove k [] = []
  remove k ((j, v) ∷ m) = let rest = remove k m in if j =? k then rest else (j, v) ∷ rest

  -- `insert`, which replaces a value that is there
  unfoldable pub insert : K → V → Table K V → Table K V
  insert k v m = (k, v) ∷ remove k m

  pub get-remove :
      (k j : K) (m : Table K V) → get j (remove k m) ≡ (if k =? j then none else get j m)
  unfolding get remove
  get-remove k j [] = ground arith
  get-remove k j ((i, v) ∷ m) =
      ground (arith, e.same_iff i k, e.same_iff i j, e.same_iff k j, get-remove k j m)

  pub get-insert :
      (k j : K) (v : V) (m : Table K V)
      → get j (insert k v m) ≡ (if k =? j then some v else get j m)
  unfolding get insert
  get-insert k j v m = ground (arith, get-remove k j m)

  pub get-insert_self : (k : K) (v : V) (m : Table K V) → get k (insert k v m) ≡ some v
  get-insert_self k v m = ground (arith, get-insert k k v m, e.same_iff k k)

  pub get-mem : (k : K) (v : V) (m : Table K V) → get k m ≡ some v → Memᴰ (k, v) m
  unfolding get
  get-mem k v [] h = cc
  get-mem k v ((j, w) ∷ m) h = elim (Bool-cases (j =? k)) [
    | inl same ↦ Memᴰ.head (cc ((e.same_iff j k).0 same, some_value same))
    | inr other ↦ Memᴰ.tail (get-mem k v m (ground (arith, other, h)))
  ]
    where
      some_value : (j =? k) ≡ true → v ≡ w
      some_value same = ground (arith, same, h)
