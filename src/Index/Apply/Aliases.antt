-- ===== src/Index/Apply/Aliases.antt =====
-- Aliases under `apply`: which batches it commits, and that it never rebinds an alias.
use gitdb.Base.{
  ◌≡◌, ◌≢◌, refl, sym, ap, ◌∙◌, ◌⊎◌, inl, inr, Bool-cases, arith, Option, none, some, List, [], ◌∷◌,
  if◌then◌else◌,
}
use mathlib.Core.List.{Memᴰ}
use gitdb.Base.Result.{Result, ok, err, >>=-eq-ok, ◌>>=◌}
use gitdb.Base.Table.{
  Table, ◌=?◌, get, insert, get-insert, get-insert_self, bytes_Eq, nat_Eq, pair_Eq,
}
use gitdb.Core.{GitOid, ContentId}
use gitdb.Index.{
  RepoId, CatalogError, Operation, put_alias, alias_conflict, CatalogBatch, InMemoryCatalog,
  content_id_Eq, oid_Eq,
}
use gitdb.Index.Apply.{apply_operation, bind_alias, apply_operations}

abbrev pub AliasKey : Type 0
AliasKey = RepoId × GitOid

abbrev alias_put : Operation → Option (AliasKey × ContentId)
alias_put (put_alias repo oid id) = some ((repo, oid), id)
alias_put _ = none

-- The aliases that a batch asks for.
unfoldable pub alias_puts : CatalogBatch → List (AliasKey × ContentId)
alias_puts [] = []
alias_puts (o ∷ os) =
    let rest = alias_puts os in elim (alias_put o) [ some p ↦ p ∷ rest | none ↦ rest ]

-- Each alias that the batch asks for agrees with the catalog's and with the batch's others.
pub record AreConsistent (aliases : Table AliasKey ContentId) (puts : List (AliasKey × ContentId))
    : Type 0 where
  pub with_catalog :
      (k : AliasKey) (v w : ContentId) → Memᴰ (k, v) puts → get k aliases ≡ some w → w ≡ v
  pub with_batch : (k : AliasKey) (v w : ContentId) → Memᴰ (k, v) puts → Memᴰ (k, w) puts → w ≡ v

-- An operation that is no alias keeps the aliases.
keeps_aliases :
    (o : Operation) (c : InMemoryCatalog)
    → alias_put o ≡ none
    → (d : InMemoryCatalog) × (apply_operation o c ≡ ok d) × (d.aliases ≡ c.aliases)
unfolding apply_operation
keeps_aliases (put_alias repo oid id) c h = cc
keeps_aliases _ c h = (_, refl, refl)

module _ (aliases : Table AliasKey ContentId) (k : AliasKey) (v : ContentId)
    (puts : List (AliasKey × ContentId)) where
  put_at_key : (j : AliasKey) → j ≡ k → get j (insert k v aliases) ≡ some v
  put_at_key j h = ap (λ i. get i (insert k v aliases)) h ∙ get-insert_self k v aliases

  after_put : (j : AliasKey) → (j ≡ k) ⊎ (get j (insert k v aliases) ≡ get j aliases)
  after_put j = elim (Bool-cases (k =? j)) [
    | inl same ↦ inl (sym ((pair_Eq.same_iff k j).0 same))
    | inr other ↦
        inr (get-insert k j v aliases ∙ ap (λ b. if b then some v else get j aliases) other)
  ]

  -- The first request agrees with the catalog, the others agree with it in place.
  record SettlesFirst : Type 0 where
    first : (w : ContentId) → get k aliases ≡ some w → w ≡ v
    others : AreConsistent (insert k v aliases) puts

  settled : AreConsistent aliases ((k, v) ∷ puts) → SettlesFirst
  settled c = record {
    first = λ w. c.with_catalog k v w (Memᴰ.head refl);
    others = record {
      with_catalog = old;
      with_batch = λ j u w m n. c.with_batch j u w (Memᴰ.tail m) (Memᴰ.tail n);
    };
  }
    where
      old :
          (j : AliasKey) (u w : ContentId)
          → Memᴰ (j, u) puts
          → get j (insert k v aliases) ≡ some w
          → w ≡ u
      old j u w m h = elim (after_put j) [
        | inl same ↦ cc (
          put_at_key j same,
          c.with_batch j u v (Memᴰ.tail m) (Memᴰ.head (ap (λ i. (i, v)) same)),
        )
        | inr kept ↦ c.with_catalog j u w (Memᴰ.tail m) (sym kept ∙ h)
      ]

  in_order : SettlesFirst → AreConsistent aliases ((k, v) ∷ puts)
  in_order s = record { with_catalog = held; with_batch = agree }
    where
      held :
          (j : AliasKey) (u w : ContentId)
          → Memᴰ (j, u) ((k, v) ∷ puts)
          → get j aliases ≡ some w
          → w ≡ u
      held j u w (Memᴰ.head e) h =
          cc (s.first w (ap (λ i. get i aliases) (sym (ap (λ p. p.0) e)) ∙ h))
      held j u w (Memᴰ.tail m) h = elim (after_put j) [
        | inl same ↦ cc (
          s.first w (ap (λ i. get i aliases) (sym same) ∙ h),
          s.others.with_catalog j u v m (put_at_key j same),
        )
        | inr kept ↦ s.others.with_catalog j u w m (kept ∙ h)
      ]

      agree :
          (j : AliasKey) (u w : ContentId)
          → Memᴰ (j, u) ((k, v) ∷ puts)
          → Memᴰ (j, w) ((k, v) ∷ puts)
          → w ≡ u
      agree j u w (Memᴰ.head e) (Memᴰ.head f) = ap (λ p. p.1) f ∙ sym (ap (λ p. p.1) e)
      agree j u w (Memᴰ.head e) (Memᴰ.tail n) =
          cc (s.others.with_catalog j w v n (put_at_key j (ap (λ p. p.0) e)))
      agree j u w (Memᴰ.tail m) (Memᴰ.head f) =
          cc (s.others.with_catalog j u v m (put_at_key j (ap (λ p. p.0) f)))
      agree j u w (Memᴰ.tail m) (Memᴰ.tail n) = s.others.with_batch j u w m n

-- An alias operation succeeds when its key is free or has the same content.
pub record Settles (aliases : Table AliasKey ContentId) (k : AliasKey) (v : ContentId)
    : Type 0 where
  pub agrees : (w : ContentId) → get k aliases ≡ some w → w ≡ v

module _ (repo : RepoId) (oid : GitOid) (id : ContentId) (c : InMemoryCatalog) where
  abbrev pub bound : InMemoryCatalog
  bound = record c { aliases = insert (repo, oid) id c.aliases }

  pub bind-Settles :
      (held : Option ContentId) (d : InMemoryCatalog)
      → held ≡ get (repo, oid) c.aliases
      → bind_alias held repo oid id c ≡ ok d
      → Settles c.aliases (repo, oid) id × (d ≡ bound)
  unfolding bind_alias
  bind-Settles (some w) d e h = elim (Bool-cases (w =? id)) [
    | inl same ↦
        (record { agrees = λ v f. cc ((content_id_Eq.same_iff w id).0 same) }, ground arith)
    | inr other ↦ ground arith
  ]
  bind-Settles none d e h = (record { agrees = λ w f. cc }, cc)

  Settles-bind :
      (held : Option ContentId)
      → held ≡ get (repo, oid) c.aliases
      → Settles c.aliases (repo, oid) id
      → bind_alias held repo oid id c ≡ ok bound
  unfolding bind_alias
  Settles-bind (some w) e s = rw ((content_id_Eq.same_iff w id).1 (s.agrees w (sym e))) refl
  Settles-bind none e s = refl

pub operations-AreConsistent :
    (os : CatalogBatch) (c d : InMemoryCatalog)
    → apply_operations os c ≡ ok d
    → AreConsistent c.aliases (alias_puts os)
unfolding apply_operations apply_operation alias_puts
operations-AreConsistent [] c d h = record {
  with_catalog = λ k v w m e. elim m [ ];
  with_batch = λ k v w m n. elim m [ ];
}
operations-AreConsistent (put_alias repo oid id ∷ os) c d h =
    let (b, first, rest) =
      >>=-eq-ok (bind_alias (get (repo, oid) c.aliases) repo oid id c) (apply_operations os) h in
    let (s, e) = bind-Settles repo oid id c _ b refl first in
    in_order c.aliases (repo, oid) id (alias_puts os)
      (record {
        first = s.agrees;
        others =
            operations-AreConsistent os (bound repo oid id c) d
              (ap (apply_operations os) (sym e) ∙ rest);
      })
operations-AreConsistent (_ ∷ os) c d h = operations-AreConsistent os _ d h

pub AreConsistent-operations :
    (os : CatalogBatch) (c : InMemoryCatalog)
    → AreConsistent c.aliases (alias_puts os)
    → (d : InMemoryCatalog) × (apply_operations os c ≡ ok d)
unfolding apply_operations apply_operation alias_puts
AreConsistent-operations [] c a = (c, refl)
AreConsistent-operations (put_alias repo oid id ∷ os) c a =
    let s = settled c.aliases (repo, oid) id (alias_puts os) a in
    let first = Settles-bind repo oid id c _ refl (record { agrees = s.first }) in
    let (d, rest) = AreConsistent-operations os (bound repo oid id c) s.others in
    (d, ap (λ r. r >>= apply_operations os) first ∙ rest)
AreConsistent-operations (_ ∷ os) c a = AreConsistent-operations os _ a

pub bindings-forward :
    (os : CatalogBatch) (c d : InMemoryCatalog) (k : AliasKey) (v : ContentId)
    → apply_operations os c ≡ ok d
    → (get k c.aliases ≡ some v) ⊎ Memᴰ (k, v) (alias_puts os)
    → get k d.aliases ≡ some v
unfolding apply_operations apply_operation alias_puts
bindings-forward [] c d k v h (inl e) = cc
bindings-forward [] c d k v h (inr m) = elim m [ ]
bindings-forward (put_alias repo oid id ∷ os) c d k v h r =
    let (b, first, rest) =
      >>=-eq-ok (bind_alias (get (repo, oid) c.aliases) repo oid id c) (apply_operations os) h in
    let (s, e) = bind-Settles repo oid id c _ b refl first in
    bindings-forward os (bound repo oid id c) d k v (ap (apply_operations os) (sym e) ∙ rest)
      (bound_before s r)
  where
    bound_before :
        Settles c.aliases (repo, oid) id
        → (get k c.aliases ≡ some v) ⊎ Memᴰ (k, v) (((repo, oid), id) ∷ alias_puts os)
        → (get k (insert (repo, oid) id c.aliases) ≡ some v) ⊎ Memᴰ (k, v) (alias_puts os)
    bound_before s (inl e) = elim (after_put c.aliases (repo, oid) id (alias_puts os) k) [
      | inl same ↦ inl (
          put_at_key c.aliases (repo, oid) id (alias_puts os) k same
          ∙ ap some (sym (s.agrees v (ap (λ i. get i c.aliases) (sym same) ∙ e))))
      | inr kept ↦ inl (kept ∙ e)
    ]
    bound_before s (inr (Memᴰ.head e)) = inl (
        put_at_key c.aliases (repo, oid) id (alias_puts os) k (ap (λ p. p.0) e)
        ∙ ap some (sym (ap (λ p. p.1) e)))
    bound_before s (inr (Memᴰ.tail m)) = inr m
bindings-forward (_ ∷ os) c d k v h r = bindings-forward os _ d k v h r

-- A binding after one more request is an old one or requested.
pub unbind :
    (aliases : Table AliasKey ContentId) (j k : AliasKey) (id v : ContentId)
    (puts : List (AliasKey × ContentId))
    → (get k (insert j id aliases) ≡ some v) ⊎ Memᴰ (k, v) puts
    → (get k aliases ≡ some v) ⊎ Memᴰ (k, v) ((j, id) ∷ puts)
unbind aliases j k id v puts (inl e) = elim (after_put aliases j id puts k) [
  | inl same ↦ inr (Memᴰ.head (cc (put_at_key aliases j id puts k same)))
  | inr kept ↦ inl (sym kept ∙ e)
]
unbind aliases j k id v puts (inr m) = inr (Memᴰ.tail m)

pub bindings-back :
    (os : CatalogBatch) (c d : InMemoryCatalog) (k : AliasKey) (v : ContentId)
    → apply_operations os c ≡ ok d
    → get k d.aliases ≡ some v
    → (get k c.aliases ≡ some v) ⊎ Memᴰ (k, v) (alias_puts os)
unfolding apply_operations apply_operation alias_puts
bindings-back [] c d k v h g = inl (cc)
bindings-back (put_alias repo oid id ∷ os) c d k v h g =
    let (b, first, rest) =
      >>=-eq-ok (bind_alias (get (repo, oid) c.aliases) repo oid id c) (apply_operations os) h in
    let (s, e) = bind-Settles repo oid id c _ b refl first in
    unbind c.aliases (repo, oid) k id v (alias_puts os)
      (bindings-back os (bound repo oid id c) d k v (ap (apply_operations os) (sym e) ∙ rest) g)
bindings-back (_ ∷ os) c d k v h g = bindings-back os _ d k v h g

-- Why `apply` stops in its loop: two contents for one alias.
pub data ConflictIn (aliases : Table AliasKey ContentId) (puts : List (AliasKey × ContentId))
    : CatalogError → Type 0 where
  conflict :
      {repo : RepoId} {oid : GitOid} {existing requested : ContentId}
      → existing ≢ requested
      → Memᴰ ((repo, oid), requested) puts
      → (get (repo, oid) aliases ≡ some existing) ⊎ Memᴰ ((repo, oid), existing) puts
      → ConflictIn aliases puts (alias_conflict repo oid existing requested)

-- A run of the operations returns the new catalog or the error of a conflict.
abbrev pub Outcome :
    Table AliasKey ContentId
    → List (AliasKey × ContentId)
    → Result CatalogError InMemoryCatalog
    → Type 0
Outcome aliases puts m =
    ((d : InMemoryCatalog) × (m ≡ ok d))
    ⊎ ((e : CatalogError) × (m ≡ err e) × ConflictIn aliases puts e)

pub record Clash (repo : RepoId) (oid : GitOid) (id : ContentId) (c : InMemoryCatalog)
    (held : Option ContentId) : Type 0 where
  existing : ContentId
  is_held : held ≡ some existing
  differs : existing ≢ id
  fails : bind_alias held repo oid id c ≡ err (alias_conflict repo oid existing id)

bind-cases :
    (repo : RepoId) (oid : GitOid) (id : ContentId) (c : InMemoryCatalog) (held : Option ContentId)
    → (bind_alias held repo oid id c ≡ ok (bound repo oid id c)) ⊎ Clash repo oid id c held
unfolding bind_alias
bind-cases repo oid id c none = inl refl
bind-cases repo oid id c (some w) = elim (Bool-cases (w =? id)) [
  | inl same ↦ inl (ground (arith, same))
  | inr other ↦ inr (record {
    existing = w;
    is_held = refl;
    differs = λ h. ground (arith, other, (content_id_Eq.same_iff w id).1 h);
    fails = ground (arith, other);
  })
]

pub operations-Outcome :
    (os : CatalogBatch) (c : InMemoryCatalog)
    → Outcome c.aliases (alias_puts os) (apply_operations os c)
unfolding apply_operations apply_operation alias_puts
operations-Outcome [] c = inl (c, refl)
operations-Outcome (put_alias repo oid id ∷ os) c =
    elim (bind-cases repo oid id c (get (repo, oid) c.aliases)) [
      | inl same ↦ later same (operations-Outcome os (bound repo oid id c))
      | inr k ↦ inr (
        _,
        ap (λ r. r >>= apply_operations os) k.fails,
        conflict k.differs (Memᴰ.head refl) (inl k.is_held),
      )
    ]
  where
    Step : Result CatalogError InMemoryCatalog
    Step = bind_alias (get (repo, oid) c.aliases) repo oid id c

    later :
        Step ≡ ok (bound repo oid id c)
        → Outcome
            (bound repo oid id c).aliases
            (alias_puts os)
            (apply_operations os (bound repo oid id c))
        → Outcome c.aliases (((repo, oid), id) ∷ alias_puts os) (Step >>= apply_operations os)
    later same (inl (d, h)) = inl (d, ap (λ r. r >>= apply_operations os) same ∙ h)
    later same (inr (_, h, conflict ne m source)) = inr (
      _,
      ap (λ r. r >>= apply_operations os) same ∙ h,
      conflict ne (Memᴰ.tail m) (unbind c.aliases (repo, oid) _ id _ (alias_puts os) source),
    )
operations-Outcome (_ ∷ os) c = operations-Outcome os _
