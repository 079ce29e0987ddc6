-- ===== src/Index/Apply/Marker.antt =====
-- `apply` leaves the rebuild marker as it was.
use gitdb.Base.{◌≡◌, refl, ◌∙◌, [], ◌∷◌}
use gitdb.Base.Result.{ok, >>=-eq-ok}
use gitdb.Index.{Operation, put_alias, CatalogBatch, InMemoryCatalog}
use gitdb.Index.Apply.{apply_operation, apply_operations, apply}
use gitdb.Index.Apply.Aliases.{bind-Settles}
use gitdb.Index.Apply.Commit.{apply-Accepts}

rebuilding-step :
    (o : Operation) (c d : InMemoryCatalog)
    → apply_operation o c ≡ ok d
    → d.rebuilding ≡ c.rebuilding
unfolding apply_operation
rebuilding-step (put_alias repo oid id) c d h = cc ((bind-Settles repo oid id c _ d refl h).1)
rebuilding-step _ c d h = cc

rebuilding-operations :
    (os : CatalogBatch) (c d : InMemoryCatalog)
    → apply_operations os c ≡ ok d
    → d.rebuilding ≡ c.rebuilding
unfolding apply_operations
rebuilding-operations [] c d h = cc
rebuilding-operations (o ∷ os) c d h =
    let (b, first, rest) = >>=-eq-ok (apply_operation o c) (apply_operations os) h in
    rebuilding-operations os b d rest ∙ rebuilding-step o c b first

pub apply-rebuilding :
    (c d : InMemoryCatalog) (batch : CatalogBatch)
    → apply c batch ≡ (d, ok tt)
    → d.rebuilding ≡ c.rebuilding
apply-rebuilding c d batch h = rebuilding-operations batch c d (apply-Accepts c d batch h).ran
