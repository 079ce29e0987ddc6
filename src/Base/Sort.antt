-- ===== src/Base/Sort.antt =====
-- `sort_unstable_by`, as an insertion sort: on entries with different keys every sort gives this
-- list.
use mathlib.Core.Path.{refl, sym, subst}
use mathlib.Core.Bool.{Bool, true, false}
use mathlib.Core.List.{List, [], ◌∷◌, Memᴰ}
use gitdb.Base.Tests.{ltb, ◌==◌, if◌then◌else◌}
use gitdb.Base.Bytes.{Bytes}

-- `<` of byte strings, which compares the first bytes that differ
unfoldable pub bytes_before : Bytes → Bytes → Bool
bytes_before xs [] = false
bytes_before [] (y ∷ ys) = true
bytes_before (x ∷ xs) (y ∷ ys) = let rest = bytes_before xs ys in if x == y then rest else ltb x y

module _ {A : Type 0} (before : A → A → Bool) where
  unfoldable pub place : A → List A → List A
  place x [] = x ∷ []
  place x (y ∷ ys) = let rest = place x ys in if before y x then y ∷ rest else x ∷ y ∷ ys

  unfoldable pub sort : List A → List A
  unfolding place
  sort [] = []
  sort (x ∷ xs) = place x (sort xs)

  place-new : (x : A) (ys : List A) → Memᴰ x (place x ys)
  unfolding place
  place-new x [] = Memᴰ.head refl
  place-new x (y ∷ ys) =
      elim (before y x) as (λ b. Memᴰ x (if b then y ∷ place x ys else x ∷ y ∷ ys)) [
        | true ↦ Memᴰ.tail (place-new x ys)
        | false ↦ Memᴰ.head refl
      ]

  place-old : {z : A} (x : A) (ys : List A) → Memᴰ z ys → Memᴰ z (place x ys)
  unfolding place
  place-old x [] m = elim m [ ]
  place-old {z} x (y ∷ ys) (Memᴰ.head e) =
      elim (before y x) as (λ b. Memᴰ z (if b then y ∷ place x ys else x ∷ y ∷ ys)) [
        | true ↦ Memᴰ.head e
        | false ↦ Memᴰ.tail (Memᴰ.head e)
      ]
  place-old {z} x (y ∷ ys) (Memᴰ.tail m) =
      elim (before y x) as (λ b. Memᴰ z (if b then y ∷ place x ys else x ∷ y ∷ ys)) [
        | true ↦ Memᴰ.tail (place-old x ys m)
        | false ↦ Memᴰ.tail (Memᴰ.tail m)
      ]

  -- Sorting loses nothing.
  pub sort-keeps : {z : A} (xs : List A) → Memᴰ z xs → Memᴰ z (sort xs)
  unfolding sort
  sort-keeps [] m = elim m [ ]
  sort-keeps {z} (x ∷ xs) (Memᴰ.head e) =
      subst (λ t. Memᴰ t (place x (sort xs))) (sym e) (place-new x (sort xs))
  sort-keeps (x ∷ xs) (Memᴰ.tail m) = place-old x (sort xs) (sort-keeps xs m)
