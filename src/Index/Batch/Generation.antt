-- ===== src/Index/Batch/Generation.antt =====
-- The published generation is the one that readers see.
use gitdb.Base.{ℕ, ◌<◌, ◌^◌, ◌≡◌, refl, ap, ◌∙◌, arith, Option, some, [], ◌∷◌, ◌++◌}
use gitdb.Base.Bytes.{Bytes, be, length-be, from_be-be}
use gitdb.Base.Result.{ok}
use gitdb.Base.Table.{KeyEq, get, bytes_Eq}
use gitdb.Index.{Operation, CatalogBatch, InMemoryCatalog, put_meta, current_generation_meta_key}
use gitdb.Index.Apply.{apply}
use gitdb.Index.Apply.Lookups.{last_write, overwrite, meta_write, apply-LastWrites}
use gitdb.Index.Batch.{put_current_generation, current_generation, generation_value, meta}

last_write-snoc :
    {K V : Type 0} ⦃e : KeyEq K⦄ (write : Operation → Option (K × Option V)) (os : CatalogBatch)
    (o : Operation) (k : K) (old : Option V)
    → last_write write (os ++ o ∷ []) k old ≡ overwrite (write o) k (last_write write os k old)
unfolding last_write
last_write-snoc write [] o k old = refl
last_write-snoc write (x ∷ os) o k old = last_write-snoc write os o k (overwrite (write x) k old)

key_written :
    (g : ℕ) (old : Option Bytes)
    → overwrite
        (meta_write (put_meta current_generation_meta_key (be 4 g)))
        current_generation_meta_key
        old
      ≡ some (be 4 g)
unfolding overwrite
key_written g old =
    ground
      (arith, (bytes_Eq.same_iff current_generation_meta_key current_generation_meta_key).1 refl)

-- After a batch that ends by selecting a 32-bit generation commits, that is the current generation,
-- whatever else the batch wrote.
pub current_generation_lem :
    (c d : InMemoryCatalog) (batch : CatalogBatch) (g : ℕ)
    → g < 256 ^ 4
    → apply c (put_current_generation batch g) ≡ (d, ok tt)
    → current_generation d ≡ some g
unfolding current_generation put_current_generation generation_value meta
current_generation_lem c d batch g fits h =
    let l = apply-LastWrites c d (put_current_generation batch g) h in
    let held : get current_generation_meta_key d.metas ≡ some (be 4 g) =
      l.metas_written current_generation_meta_key
      ∙ last_write-snoc meta_write batch _ current_generation_meta_key _
      ∙ key_written g _ in
    ap generation_value held ∙ rw (length-be 4 g, from_be-be 4 g fits)
