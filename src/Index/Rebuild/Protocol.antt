-- ===== src/Index/Rebuild/Protocol.antt =====
-- The rebuild protocol of the in-memory catalog from `begin` to `finish`, as a step relation.
use gitdb.Base.{
  true, false, ◌≡◌, refl, sym, ap, ◌∙◌, ◌↔◌, ◌⊎◌, inl, inr, Bool-cases, arith, none, some, List, [],
  ◌∷◌, ◌++◌, if◌then◌else◌,
}
use mathlib.Core.List.{Memᴰ}
use mathlib.Core.List.Memᴰ
use mathlib.Core.Path.{subst}
use gitdb.Base.Result.{ok, err}
use gitdb.Base.Table.{Table, ◌=?◌, get, insert, get-insert, get-insert_self}
use gitdb.Core.{ContentId}
use gitdb.Index.{
  CatalogBatch, ObjectLocation, ObjectLocationEntry, InMemoryCatalog, content_id_Eq,
  rebuild_in_progress, object_location,
}
use gitdb.Index.Apply.{apply}
use gitdb.Index.Rebuild.{
  insert_entries, append_rebuilt, begin_rebuild, restart_rebuild, finish_rebuild,
}
use gitdb.Index.Rebuild.Append.{ids, AreDistinct, AreNew, check_new-AreNew}

abbrev pub entry_of : ContentId → ObjectLocation → ObjectLocationEntry
entry_of id l = record { content_id = id; location = l }

abbrev Located :
    Table ContentId ObjectLocation → List ObjectLocationEntry → ContentId → ObjectLocation → Type 0
Located objects entries id l = (get id objects ≡ some l) ⊎ Memᴰ (entry_of id l) entries

after_insert :
    (objects : Table ContentId ObjectLocation) (id j : ContentId) (l : ObjectLocation)
    → (j ≡ id) ⊎ (get j (insert id l objects) ≡ get j objects)
after_insert objects id j l = elim (Bool-cases (id =? j)) [
  | inl same ↦ inl (sym ((content_id_Eq.same_iff id j).0 same))
  | inr other ↦
      inr (get-insert id j l objects ∙ ap (λ b. if b then some l else get j objects) other)
]

member :
    (id : ContentId) (l : ObjectLocation) (entries : List ObjectLocationEntry)
    → Memᴰ (entry_of id l) entries
    → Memᴰ id (ids entries)
member id l [] m = elim m [ ]
member id l (x ∷ xs) (Memᴰ.head e) = Memᴰ.head (ap (λ t. t.content_id) e)
member id l (x ∷ xs) (Memᴰ.tail m) = Memᴰ.tail (member id l xs m)

insert_entries-back :
    (entries : List ObjectLocationEntry) (objects : Table ContentId ObjectLocation) (id : ContentId)
    (l : ObjectLocation)
    → get id (insert_entries entries objects) ≡ some l
    → Located objects entries id l
unfolding insert_entries
insert_entries-back [] objects id l h = inl h
insert_entries-back (entry ∷ entries) objects id l h =
    earlier (insert_entries-back entries (insert entry.content_id entry.location objects) id l h)
  where
    earlier :
        Located (insert entry.content_id entry.location objects) entries id l
        → Located objects (entry ∷ entries) id l
    earlier (inl e) = elim (after_insert objects entry.content_id id entry.location) [
      | inl same ↦ inr (Memᴰ.head (cc (get-insert_self entry.content_id entry.location objects)))
      | inr kept ↦ inl (sym kept ∙ e)
    ]
    earlier (inr m) = inr (Memᴰ.tail m)

insert_entries-forward :
    (entries : List ObjectLocationEntry) (objects : Table ContentId ObjectLocation) (id : ContentId)
    (l : ObjectLocation)
    → AreDistinct (ids entries)
    → ((j : ContentId) → Memᴰ j (ids entries) → get j objects ≡ none)
    → Located objects entries id l
    → get id (insert_entries entries objects) ≡ some l
unfolding insert_entries
insert_entries-forward [] objects id l distinct absent (inl e) = e
insert_entries-forward [] objects id l distinct absent (inr m) = elim m [ ]
insert_entries-forward (entry ∷ entries) objects id l (AreDistinct.cons first distinct) absent r =
    insert_entries-forward entries (insert entry.content_id entry.location objects) id l distinct
      still (later r)
  where
    still :
        (j : ContentId)
        → Memᴰ j (ids entries)
        → get j (insert entry.content_id entry.location objects) ≡ none
    still j m = elim (after_insert objects entry.content_id j entry.location) [
      | inl same ↦ absurd (first (subst (λ x. Memᴰ x (ids entries)) same m))
      | inr kept ↦ kept ∙ absent j (Memᴰ.tail m)
    ]

    later :
        Located objects (entry ∷ entries) id l
        → Located (insert entry.content_id entry.location objects) entries id l
    later (inl e) = elim (after_insert objects entry.content_id id entry.location) [
      | inl same ↦ cc (absent entry.content_id (Memᴰ.head refl))
      | inr kept ↦ inl (kept ∙ e)
    ]
    later (inr (Memᴰ.head e)) = inl (cc (get-insert_self entry.content_id entry.location objects))
    later (inr (Memᴰ.tail m)) = inr m

-- `Rebuilt c entries d`: a rebuild that began in `c` has brought the catalog to `d`, and since it
-- began, or last restarted, it has appended `entries`. A failed call leaves the catalog, so it is
-- no step.
pub data Rebuilt (c : InMemoryCatalog) : List ObjectLocationEntry → InMemoryCatalog → Type 0 where
  begun : {d : InMemoryCatalog} → begin_rebuild c ≡ (d, ok tt) → Rebuilt c [] d
  restarted :
      {entries : List ObjectLocationEntry} {d e : InMemoryCatalog}
      → Rebuilt c entries d
      → restart_rebuild d ≡ (e, ok tt)
      → Rebuilt c [] e
  appended :
      {entries : List ObjectLocationEntry} {d e : InMemoryCatalog} (more : List ObjectLocationEntry)
      → Rebuilt c entries d
      → append_rebuilt d more ≡ (e, ok tt)
      → Rebuilt c (entries ++ more) e

-- The invariant of a rebuild.
pub record IsRebuilding (c : InMemoryCatalog) (entries : List ObjectLocationEntry)
    (d : InMemoryCatalog) : Type 0 where
  pub began_idle : c.rebuilding ≡ false
  pub others_kept : d ≡ record c { objects = d.objects; rebuilding = true }
  pub located :
      (id : ContentId) (l : ObjectLocation)
      → (get id d.objects ≡ some l) ↔ Memᴰ (entry_of id l) entries

empty-located :
    (id : ContentId) (l : ObjectLocation) (objects : Table ContentId ObjectLocation)
    → objects ≡ []
    → (get id objects ≡ some l) ↔ Memᴰ (entry_of id l) []
unfolding get
empty-located id l objects h = (λ e. cc, λ m. elim m [ ])

-- What an append that is taken has checked and done.
record Appends (d e : InMemoryCatalog) (more : List ObjectLocationEntry) : Type 0 where
  busy : d.rebuilding ≡ true
  new : AreNew more [] d.objects
  made : e ≡ record d { objects = insert_entries more d.objects }

append-Appends :
    (d e : InMemoryCatalog) (more : List ObjectLocationEntry)
    → append_rebuilt d more ≡ (e, ok tt)
    → Appends d e more
unfolding append_rebuilt
append-Appends d e more h = record {
  busy = ground arith;
  new = check_new-AreNew more [] d.objects (ground arith);
  made = ground arith;
}

module _ (id : ContentId) (l : ObjectLocation) (objects : Table ContentId ObjectLocation)
    (entries more : List ObjectLocationEntry) where
  join :
      (get id objects ≡ some l → Memᴰ (entry_of id l) entries)
      → Located objects more id l
      → Memᴰ (entry_of id l) (entries ++ more)
  join f (inl e) = Memᴰ.append_left more (f e)
  join f (inr m) = Memᴰ.append_right entries m

  split :
      (Memᴰ (entry_of id l) entries → get id objects ≡ some l)
      → Memᴰ (entry_of id l) entries ⊎ Memᴰ (entry_of id l) more
      → Located objects more id l
  split f (inl m) = inl (f m)
  split f (inr m) = inr m

-- At every point of a rebuild the other families of the catalog are as they were when it began, and
-- the locations are exactly the entries appended since it began or last restarted.
pub Rebuilt-IsRebuilding :
    (c d : InMemoryCatalog) (entries : List ObjectLocationEntry)
    → Rebuilt c entries d
    → IsRebuilding c entries d
unfolding begin_rebuild restart_rebuild
Rebuilt-IsRebuilding c d _ (begun h) = record {
  began_idle = ground arith;
  others_kept = ground (arith, h);
  located = λ id l. empty-located id l d.objects (ground arith);
}
Rebuilt-IsRebuilding c d _ (restarted {entries = entries} {d = b} r h) =
    let before = Rebuilt-IsRebuilding c b entries r in
    record {
      began_idle = before.began_idle;
      others_kept = ground (arith, h, before.others_kept);
      located = λ id l. empty-located id l d.objects (ground (arith, h));
    }
Rebuilt-IsRebuilding c d _ (appended {entries = entries} {d = b} more r h) =
    let before = Rebuilt-IsRebuilding c b entries r in
    let a = append-Appends b d more h in
    record {
      began_idle = before.began_idle;
      others_kept =
          a.made
          ∙ ap {A = InMemoryCatalog} {B = InMemoryCatalog}
              (λ m. record m { objects = insert_entries more b.objects }) before.others_kept
          ∙ ap {B = InMemoryCatalog} (λ t. record c { objects = t; rebuilding = true })
              (sym (ap (λ m. m.objects) a.made));
      located = λ id l. (
        λ e.
            join id l b.objects entries more (before.located id l).0 (
              insert_entries-back more b.objects id l
                (ap (λ m. get id m.objects) (sym a.made) ∙ e)),
        λ m.
            ap (λ t. get id t.objects) a.made
            ∙ insert_entries-forward more b.objects id l a.new.distinct a.new.absent (
                split id l b.objects entries more (before.located id l).1
                  (Memᴰ.append_cases entries m)),
      );
    }

-- While a rebuild is under way no location can be read and no batch commits; finishing it makes the
-- appended entries the catalog's locations and changes nothing else.
pub rebuild_publishes :
    (c d : InMemoryCatalog) (entries : List ObjectLocationEntry)
    → Rebuilt c entries d
    → ((id : ContentId) → object_location d id ≡ none)
      × ((batch : CatalogBatch) → apply d batch ≡ (d, err rebuild_in_progress))
      × ((e : InMemoryCatalog) × (finish_rebuild d ≡ (e, ok tt))
          × (e ≡ record c { objects = e.objects })
          × ((id : ContentId) (l : ObjectLocation)
              → (object_location e id ≡ some l) ↔ Memᴰ (entry_of id l) entries))
unfolding object_location apply finish_rebuild
rebuild_publishes c d entries r =
    let i = Rebuilt-IsRebuilding c d entries r in
    let busy : d.rebuilding ≡ true = ap (λ m. m.rebuilding) i.others_kept in
    (
      (λ id. ground (arith, busy)),
      (λ batch. ground (arith, busy)),
      (
        record d { rebuilding = false },
        ground (arith, busy),
        ap {A = InMemoryCatalog} {B = InMemoryCatalog} (λ m. record m { rebuilding = false })
              i.others_kept
            ∙ ap {B = InMemoryCatalog} (λ t. record c { objects = d.objects; rebuilding = t })
                (sym i.began_idle),
        i.located,
      ),
    )
