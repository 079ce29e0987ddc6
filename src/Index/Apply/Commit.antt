-- ===== src/Index/Apply/Commit.antt =====
-- `apply` as one transaction of the in-memory catalog: which batches commit, and what a commit or a
-- failure leaves.
use gitdb.Base.{true, false, ◌≡◌, ◌↔◌, ◌⊎◌, inl, inr, Bool-cases, arith, some}
use mathlib.Core.List.{Memᴰ}
use gitdb.Base.Result.{ok, err}
use gitdb.Base.Table.{get, pair_Eq, bytes_Eq}
use gitdb.Core.{ContentId}
use gitdb.Index.{
  CatalogError, CatalogBatch, InMemoryCatalog, rebuild_in_progress, unsupported_operation,
  direct_rebuild_metadata_mutation, oid_Eq,
}
use gitdb.Index.Apply.{
  mutates_marker, reject_direct_rebuild_marker_mutation, apply_operations, apply,
}
use gitdb.Index.Apply.Aliases.{
  ConflictIn, conflict, Outcome, operations-Outcome, AliasKey, AreConsistent, alias_puts,
  operations-AreConsistent, AreConsistent-operations, bindings-forward, bindings-back,
}

-- The guards pass, and the operations run to `d`.
pub record Accepts (c : InMemoryCatalog) (batch : CatalogBatch) (d : InMemoryCatalog) : Type 0 where
  pub is_idle : c.rebuilding ≡ false
  pub no_marker : mutates_marker batch ≡ false
  pub ran : apply_operations batch c ≡ ok d

pub apply-Accepts :
    (c d : InMemoryCatalog) (batch : CatalogBatch) → apply c batch ≡ (d, ok tt) → Accepts c batch d
unfolding apply reject_direct_rebuild_marker_mutation
apply-Accepts c d batch h = record {
  is_idle = ground arith;
  no_marker = ground arith;
  ran = ground arith;
}

Accepts-apply :
    (c d : InMemoryCatalog) (batch : CatalogBatch) → Accepts c batch d → apply c batch ≡ (d, ok tt)
unfolding apply reject_direct_rebuild_marker_mutation
Accepts-apply c d batch a = ground (arith, a.is_idle, a.no_marker, a.ran)

-- A batch commits exactly when no rebuild is under way, it leaves the rebuild marker alone, and no
-- alias that it asks for contradicts the catalog or another of its aliases.
pub apply_commits_iff :
    (c : InMemoryCatalog) (batch : CatalogBatch)
    → ((d : InMemoryCatalog) × (apply c batch ≡ (d, ok tt))) ↔ (
        (c.rebuilding ≡ false)
        × (mutates_marker batch ≡ false)
        × AreConsistent c.aliases (alias_puts batch))
apply_commits_iff c batch = (forward, back)
  where
    forward :
        (d : InMemoryCatalog) × (apply c batch ≡ (d, ok tt))
        → (c.rebuilding ≡ false)
          × (mutates_marker batch ≡ false)
          × AreConsistent c.aliases (alias_puts batch)
    forward (d, h) =
        let a = apply-Accepts c d batch h in
        (a.is_idle, a.no_marker, operations-AreConsistent batch c d a.ran)

    back :
        (c.rebuilding ≡ false)
          × (mutates_marker batch ≡ false)
          × AreConsistent c.aliases (alias_puts batch)
        → (d : InMemoryCatalog) × (apply c batch ≡ (d, ok tt))
    back (is_idle, no_marker, consistent) =
        let (d, ran) = AreConsistent-operations batch c consistent in
        (
          d,
          Accepts-apply c d batch (record { is_idle = is_idle; no_marker = no_marker; ran = ran }),
        )

-- After a commit an alias names a content exactly when it did before or the batch asked for that.
pub apply_aliases :
    (c d : InMemoryCatalog) (batch : CatalogBatch) (k : AliasKey) (v : ContentId)
    → apply c batch ≡ (d, ok tt)
    → (get k d.aliases ≡ some v) ↔ ((get k c.aliases ≡ some v) ⊎ Memᴰ (k, v) (alias_puts batch))
apply_aliases c d batch k v h =
    let ran = (apply-Accepts c d batch h).ran in
    (bindings-back batch c d k v ran, bindings-forward batch c d k v ran)

-- What an error of `apply` says about the catalog and the batch.
pub Explains : InMemoryCatalog → CatalogBatch → CatalogError → Type 0
Explains c batch rebuild_in_progress = c.rebuilding ≡ true
Explains c batch (unsupported_operation direct_rebuild_metadata_mutation) =
    (c.rebuilding ≡ false) × (mutates_marker batch ≡ true)
Explains c batch e =
    (c.rebuilding ≡ false)
    × (mutates_marker batch ≡ false)
    × ConflictIn c.aliases (alias_puts batch) e

-- A batch that does not commit leaves the catalog as it was, and its error gives the reason: a
-- rebuild under way, else a write of the rebuild marker, else an alias for which two different
-- contents are named.
pub apply_failure :
    (c : InMemoryCatalog) (batch : CatalogBatch)
    → ((d : InMemoryCatalog) × (apply c batch ≡ (d, ok tt)))
      ⊎ ((e : CatalogError) × (apply c batch ≡ (c, err e)) × Explains c batch e)
unfolding apply Explains reject_direct_rebuild_marker_mutation
apply_failure c batch = elim (Bool-cases c.rebuilding) [
  | inl busy ↦ inr (rebuild_in_progress, ground (arith, busy), busy)
  | inr is_idle ↦ elim (Bool-cases (mutates_marker batch)) [
    | inl marker ↦ inr (
      unsupported_operation direct_rebuild_metadata_mutation,
      ground (arith, is_idle, marker),
      (is_idle, marker),
    )
    | inr no_marker ↦ ran is_idle no_marker (operations-Outcome batch c)
  ]
]
  where
    ran :
        c.rebuilding ≡ false
        → mutates_marker batch ≡ false
        → Outcome c.aliases (alias_puts batch) (apply_operations batch c)
        → ((d : InMemoryCatalog) × (apply c batch ≡ (d, ok tt)))
          ⊎ ((e : CatalogError) × (apply c batch ≡ (c, err e)) × Explains c batch e)
    ran is_idle no_marker (inl (d, h)) =
        inl (
          d,
          Accepts-apply c d batch (record { is_idle = is_idle; no_marker = no_marker; ran = h }),
        )
    ran is_idle no_marker (inr (e, h, k)) =
        inr (e, ground (arith, is_idle, no_marker, h), explain e k)
      where
        explain :
            (e : CatalogError) → ConflictIn c.aliases (alias_puts batch) e → Explains c batch e
        explain _ (conflict ne m source) = (is_idle, no_marker, conflict ne m source)
