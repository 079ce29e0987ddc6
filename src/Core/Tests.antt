-- ===== src/Core/Tests.antt =====
-- Runs of the object-ID theorems on samples.
use gitdb.Base.{◌≡◌, ◌≢◌, refl, [], ◌∷◌, ◌++◌, length, take, replicate}
use gitdb.Base.Bytes.{Bytes, are_bytes-AreBytes}
use gitdb.Base.Result.{ok, err}
use gitdb.Core.{tree, blob, sha1, sha256, oid_len, GitOid, new_oid, as_bytes}
use gitdb.Core.Hashing.{
  hasher_new, hasher_finish, oid_for_object, content_new, content_finalize, content_id_for_object,
}
use gitdb.Core.Samples.{first_bytes}
use gitdb.Core.Laws.{IsOid, oid_of, new_oid_lem, encode_canonical_injective}
use gitdb.Core.Streaming.{
  write_chunks, finish-write_chunks, update_chunks, content_preimage, finalize-update_chunks,
}

finish-write_chunks_example :
    hasher_finish (first_bytes 20) (first_bytes 32) (
      write_chunks
        (first_bytes 20)
        (first_bytes 32)
        (hasher_new (first_bytes 20) (first_bytes 32) sha1 blob 3)
        ((1 ∷ []) ∷ (2 ∷ 3 ∷ []) ∷ []))
    ≡ oid_for_object (first_bytes 20) (first_bytes 32) sha1 blob (1 ∷ 2 ∷ 3 ∷ [])
finish-write_chunks_example =
    finish-write_chunks (first_bytes 20) (first_bytes 32) sha1 blob ((1 ∷ []) ∷ (2 ∷ 3 ∷ []) ∷ [])

finalize-update_chunks_example :
    (content_finalize (first_bytes 32) (
        update_chunks
          (first_bytes 32)
          (content_new (first_bytes 32) tree 3)
          ((1 ∷ []) ∷ (2 ∷ 3 ∷ []) ∷ []))
      ≡ content_id_for_object (first_bytes 32) tree (1 ∷ 2 ∷ 3 ∷ []))
    × ((content_id_for_object (first_bytes 32) tree (1 ∷ 2 ∷ 3 ∷ [])).content_bytes
        ≡ take 32 (content_preimage tree 3 (1 ∷ 2 ∷ 3 ∷ []) ++ replicate 32 0))
finalize-update_chunks_example =
    finalize-update_chunks (first_bytes 32) tree ((1 ∷ []) ∷ (2 ∷ 3 ∷ []) ∷ [])

abbrev raw_oid : Bytes
raw_oid = replicate 20 7

new_oid_lem_example :
    (length raw_oid ≡ oid_len sha1
      → (g : GitOid) × (new_oid sha1 raw_oid ≡ ok g)
        × (as_bytes g ≡ raw_oid)
        × (g.algorithm ≡ sha1)
        × (g.len ≡ length raw_oid))
    × (length raw_oid ≢ oid_len sha1
        → new_oid sha1 raw_oid ≡ err (record { algorithm = sha1; actual = length raw_oid }))
new_oid_lem_example = new_oid_lem sha1 raw_oid

abbrev sample_oid : GitOid
sample_oid = oid_of sha256 (replicate 32 7)

sample_oid-IsOid : IsOid sample_oid
unfolding oid_len
sample_oid-IsOid = record {
  raw = replicate 32 7;
  raw_length = refl;
  made = refl;
  raw_AreBytes = are_bytes-AreBytes (replicate 32 7) refl;
}

encode_canonical_injective_example : sample_oid ≡ sample_oid
encode_canonical_injective_example =
    encode_canonical_injective sample_oid sample_oid sample_oid-IsOid sample_oid-IsOid refl
