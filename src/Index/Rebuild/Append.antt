-- ===== src/Index/Rebuild/Append.antt =====
-- `append_rebuilt_object_locations`: which entries it takes, and what the locations are afterwards.
use gitdb.Base.{
  true, false, ◌≡◌, refl, sym, ap, ◌∙◌, ◌↔◌, inl, inr, Bool-cases, arith, none, List, [], ◌∷◌,
}
use mathlib.Core.List.{Memᴰ}
use mathlib.Core.Path.{subst}
use gitdb.Base.Result.{ok}
use gitdb.Base.Table.{Table, ◌=?◌, get}
use gitdb.Core.{ContentId}
use gitdb.Index.{ObjectLocation, ObjectLocationEntry, InMemoryCatalog, content_id_Eq}
use gitdb.Index.Rebuild.{contains, check_new, append_rebuilt}

abbrev pub ids : List ObjectLocationEntry → List ContentId
ids [] = []
ids (entry ∷ entries) = entry.content_id ∷ ids entries

-- No content ID occurs twice.
pub data AreDistinct : List ContentId → Type 0 where
  nil : AreDistinct []
  cons :
      {x : ContentId} {xs : List ContentId}
      → (Memᴰ x xs → ⊥)
      → AreDistinct xs
      → AreDistinct (x ∷ xs)

-- The entries are new: distinct, with no location yet, and none of the IDs `seen`.
pub record AreNew (entries : List ObjectLocationEntry) (seen : List ContentId)
    (objects : Table ContentId ObjectLocation) : Type 0 where
  pub distinct : AreDistinct (ids entries)
  pub absent : (id : ContentId) → Memᴰ id (ids entries) → get id objects ≡ none
  pub unseen : (id : ContentId) → Memᴰ id (ids entries) → Memᴰ id seen → ⊥

contains-mem : (id : ContentId) (xs : List ContentId) → contains id xs ≡ true → Memᴰ id xs
unfolding contains
contains-mem id [] h = cc
contains-mem id (x ∷ xs) h = elim (Bool-cases (x =? id)) [
  | inl same ↦ Memᴰ.head (sym ((content_id_Eq.same_iff x id).0 same))
  | inr other ↦ Memᴰ.tail (contains-mem id xs (ground (arith, other, h)))
]

mem-contains : (id : ContentId) (xs : List ContentId) → Memᴰ id xs → contains id xs ≡ true
unfolding contains
mem-contains id [] m = elim m [ ]
mem-contains id (x ∷ xs) (Memᴰ.head e) = ground (arith, (content_id_Eq.same_iff x id).1 (sym e))
mem-contains id (x ∷ xs) (Memᴰ.tail m) = ground (arith, mem-contains id xs m)

check_new-first :
    (entry : ObjectLocationEntry) (entries : List ObjectLocationEntry) (seen : List ContentId)
    (objects : Table ContentId ObjectLocation)
    → (check_new (entry ∷ entries) seen objects ≡ ok tt) ↔ (
        (contains entry.content_id seen ≡ false)
        × (get entry.content_id objects ≡ none)
        × (check_new entries (entry.content_id ∷ seen) objects ≡ ok tt))
unfolding check_new
check_new-first entry entries seen objects = ground arith

pub check_new-AreNew :
    (entries : List ObjectLocationEntry) (seen : List ContentId)
    (objects : Table ContentId ObjectLocation)
    → check_new entries seen objects ≡ ok tt
    → AreNew entries seen objects
unfolding check_new
check_new-AreNew [] seen objects h = record {
  distinct = AreDistinct.nil;
  absent = λ id m. elim m [ ];
  unseen = λ id m n. elim m [ ];
}
check_new-AreNew (entry ∷ entries) seen objects h =
    let (fresh, free, rest) = (check_new-first entry entries seen objects).0 h in
    let a = check_new-AreNew entries (entry.content_id ∷ seen) objects rest in
    record {
      distinct = AreDistinct.cons (λ m. a.unseen entry.content_id m (Memᴰ.head refl)) a.distinct;
      absent = absent free a;
      unseen = unseen fresh a;
    }
  where
    absent :
        get entry.content_id objects ≡ none
        → AreNew entries (entry.content_id ∷ seen) objects
        → (id : ContentId) → Memᴰ id (entry.content_id ∷ ids entries)
        → get id objects ≡ none
    absent free a id (Memᴰ.head e) = ap (λ x. get x objects) e ∙ free
    absent free a id (Memᴰ.tail m) = a.absent id m

    unseen :
        contains entry.content_id seen ≡ false
        → AreNew entries (entry.content_id ∷ seen) objects
        → (id : ContentId) → Memᴰ id (entry.content_id ∷ ids entries)
        → Memᴰ id seen
        → ⊥
    unseen fresh a id (Memᴰ.head e) n = cc (mem-contains id seen n)
    unseen fresh a id (Memᴰ.tail m) n = a.unseen id m (Memᴰ.tail n)

AreNew-check_new :
    (entries : List ObjectLocationEntry) (seen : List ContentId)
    (objects : Table ContentId ObjectLocation)
    → AreNew entries seen objects
    → check_new entries seen objects ≡ ok tt
unfolding check_new
AreNew-check_new [] seen objects a = refl
AreNew-check_new (entry ∷ entries) seen objects a = (check_new-first entry entries seen objects).1 (
  not_seen,
  a.absent entry.content_id (Memᴰ.head refl),
  AreNew-check_new entries (entry.content_id ∷ seen) objects (record {
    distinct = later a.distinct;
    absent = λ id m. a.absent id (Memᴰ.tail m);
    unseen = unseen a.distinct;
  }),
)
  where
    not_seen : contains entry.content_id seen ≡ false
    not_seen = elim (Bool-cases (contains entry.content_id seen)) [
      | inl h ↦
          absurd (a.unseen entry.content_id (Memᴰ.head refl) (contains-mem entry.content_id seen h))
      | inr h ↦ h
    ]

    later : AreDistinct (entry.content_id ∷ ids entries) → AreDistinct (ids entries)
    later (AreDistinct.cons _ d) = d

    unseen :
        AreDistinct (entry.content_id ∷ ids entries)
        → (id : ContentId) → Memᴰ id (ids entries)
        → Memᴰ id (entry.content_id ∷ seen)
        → ⊥
    unseen (AreDistinct.cons first _) id m (Memᴰ.head e) =
        first (subst (λ x. Memᴰ x (ids entries)) e m)
    unseen _ id m (Memᴰ.tail n) = a.unseen id (Memᴰ.tail m) n

-- An append is taken exactly when a rebuild is under way, the entries have distinct content IDs,
-- and none of them has a location yet.
pub append_rebuilt_iff :
    (c : InMemoryCatalog) (entries : List ObjectLocationEntry)
    → ((append_rebuilt c entries).1 ≡ ok tt) ↔ (
        (c.rebuilding ≡ true)
        × AreDistinct (ids entries)
        × ((id : ContentId) → Memᴰ id (ids entries) → get id c.objects ≡ none))
unfolding append_rebuilt
append_rebuilt_iff c entries = (forward, back)
  where
    forward :
        (append_rebuilt c entries).1 ≡ ok tt
        → (c.rebuilding ≡ true)
          × AreDistinct (ids entries)
          × ((id : ContentId) → Memᴰ id (ids entries) → get id c.objects ≡ none)
    forward h =
        let a = check_new-AreNew entries [] c.objects (ground (arith, h)) in
        (ground (arith, h), a.distinct, a.absent)

    back :
        (c.rebuilding ≡ true)
          × AreDistinct (ids entries)
          × ((id : ContentId) → Memᴰ id (ids entries) → get id c.objects ≡ none)
        → (append_rebuilt c entries).1 ≡ ok tt
    back (busy, distinct, absent) =
        let new =
          AreNew-check_new entries [] c.objects
            (record { distinct = distinct; absent = absent; unseen = λ id m n. elim n [ ] }) in
        ground (arith, busy, new)
