-- ===== src/Core/Streaming.antt =====
-- The incremental hashers of crates/reflink-forest-core/src/lib.rs against their one-shot forms.
use gitdb.Base.{ℕ, ◌≡◌, sym, ap, ◌∙◌, List, [], ◌∷◌, ◌++◌, append_assoc, length}
use gitdb.Base.Bytes.{Bytes, be}
use gitdb.Core.{ObjectKind, HashAlgorithm, sha1, sha256, kind_tag}
use gitdb.Core.Hashing.{
  Digest, of_sha1, of_sha256, Hasher, hasher_new, hasher_write, hasher_finish, oid_for_object,
  content_id_domain, git_object_header, content_new, content_update, content_finalize,
  content_id_for_object,
}

abbrev pub joined : List Bytes → Bytes
joined [] = []
joined (c ∷ cs) = c ++ joined cs

module _ (sha1_digest sha256_digest : Digest) where
  -- `write_all` of each chunk in turn; one `write` takes the whole chunk
  unfoldable pub write_chunks :
      Hasher sha1_digest sha256_digest → List Bytes → Hasher sha1_digest sha256_digest
  write_chunks h [] = h
  write_chunks h (c ∷ cs) = write_chunks (hasher_write sha1_digest sha256_digest h c).0 cs

  write_chunks-sha1 :
      (cs : List Bytes) (a : HashAlgorithm) (s : sha1_digest.State)
      → write_chunks (record { algorithm = a; digest = of_sha1 s }) cs
        ≡ record { algorithm = a; digest = of_sha1 (sha1_digest.update s (joined cs)) }
  unfolding write_chunks hasher_write
  write_chunks-sha1 [] a s = rw sha1_digest.update_nil
  write_chunks-sha1 (c ∷ cs) a s =
      write_chunks-sha1 cs a (sha1_digest.update s c) ∙ rw sha1_digest.update_append

  write_chunks-sha256 :
      (cs : List Bytes) (a : HashAlgorithm) (s : sha256_digest.State)
      → write_chunks (record { algorithm = a; digest = of_sha256 s }) cs
        ≡ record { algorithm = a; digest = of_sha256 (sha256_digest.update s (joined cs)) }
  unfolding write_chunks hasher_write
  write_chunks-sha256 [] a s = rw sha256_digest.update_nil
  write_chunks-sha256 (c ∷ cs) a s =
      write_chunks-sha256 cs a (sha256_digest.update s c) ∙ rw sha256_digest.update_append

  -- However an object's payload is cut into chunks, the incremental hasher started with the payload's
  -- length ends in the object ID that the one-shot function computes.
  pub finish-write_chunks :
      (a : HashAlgorithm) (kind : ObjectKind) (cs : List Bytes)
      → hasher_finish sha1_digest sha256_digest
          (write_chunks (hasher_new sha1_digest sha256_digest a kind (length (joined cs))) cs)
        ≡ oid_for_object sha1_digest sha256_digest a kind (joined cs)
  unfolding hasher_new hasher_finish oid_for_object git_object_header
  finish-write_chunks sha1 kind cs = rw write_chunks-sha1
  finish-write_chunks sha256 kind cs = rw write_chunks-sha256

-- The bytes that a content ID is the hash of.
abbrev pub content_preimage : ObjectKind → ℕ → Bytes → Bytes
content_preimage kind raw_length payload =
    content_id_domain ++ (kind_tag kind ∷ (be 8 raw_length ++ payload))

module _ (sha256_digest : Digest) where
  unfoldable pub update_chunks : sha256_digest.State → List Bytes → sha256_digest.State
  update_chunks s [] = s
  update_chunks s (c ∷ cs) = update_chunks (content_update sha256_digest s c) cs

  pub update_chunks-joined :
      (cs : List Bytes) (s : sha256_digest.State)
      → update_chunks s cs ≡ sha256_digest.update s (joined cs)
  unfolding update_chunks content_update
  update_chunks-joined [] s = sym (sha256_digest.update_nil s)
  update_chunks-joined (c ∷ cs) s =
      update_chunks-joined cs (sha256_digest.update s c)
      ∙ sha256_digest.update_append s c (joined cs)

  pub content_new-preimage :
      (kind : ObjectKind) (n : ℕ) (payload : Bytes)
      → sha256_digest.update (content_new sha256_digest kind n) payload
        ≡ sha256_digest.update sha256_digest.init (content_preimage kind n payload)
  unfolding content_new
  content_new-preimage kind n payload = simp (sha256_digest.update_append, append_assoc)

  -- Any chunking of a payload gives the content ID of the one-shot function, which is the digest of
  -- domain, kind tag, big-endian length and payload.
  pub finalize-update_chunks :
      (kind : ObjectKind) (cs : List Bytes)
      → (content_finalize sha256_digest
            (update_chunks (content_new sha256_digest kind (length (joined cs))) cs)
          ≡ content_id_for_object sha256_digest kind (joined cs))
        × ((content_id_for_object sha256_digest kind (joined cs)).content_bytes
            ≡ sha256_digest.finalize (
                sha256_digest.update sha256_digest.init
                  (content_preimage kind (length (joined cs)) (joined cs))))
  unfolding content_id_for_object content_finalize content_update
  finalize-update_chunks kind cs = (
    rw update_chunks-joined,
    ap sha256_digest.finalize (content_new-preimage kind (length (joined cs)) (joined cs)),
  )
