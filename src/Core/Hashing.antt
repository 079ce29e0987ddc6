-- ===== src/Core/Hashing.antt =====
-- The streaming hashers of crates/reflink-forest-core/src/lib.rs over an abstract digest.
-- `sha1::Sha1` and `sha2::Sha256` are third-party code: their `Digest` interface is a parameter.
use gitdb.Base.{ℕ, zero, suc, ◌+◌, ◌/◌, ◌%◌, ◌≡◌, [], ◌∷◌, ◌++◌, if◌then◌else◌, ltb, length}
use gitdb.Base.Bytes.{Bytes, be}
use gitdb.Base.Result.{Result, ok, panic}
use gitdb.Core.{ObjectKind, commit, tree, blob, tag, HashAlgorithm, sha1, sha256}
use gitdb.Core.{kind_tag, InvalidGitOidLength, GitOid, new_oid, ContentId}

-- `Digest::new`, `Digest::update`, `Digest::finalize`. Updating twice hashes the concatenation,
-- and the output has a fixed length.
pub record Digest : Type 1 where
  pub State : Type 0
  pub init : State
  pub update : State → Bytes → State
  pub finalize : State → Bytes
  pub output_len : ℕ
  pub update_append : (s : State) (xs ys : Bytes) → update (update s xs) ys ≡ update s (xs ++ ys)
  pub update_nil : (s : State) → update s [] ≡ s
  pub finalize_len : (s : State) → length (finalize s) ≡ output_len

-- Rust's `to_string` of an unsigned integer: ASCII decimal, on fuel. A `u64` has at most 20 digits.
unfoldable pub decimal_loop : ℕ → ℕ → Bytes → Bytes
decimal_loop zero n out = out
decimal_loop (suc fuel) n out =
    let rest = decimal_loop fuel (n / 10) ((b'0' + n % 10) ∷ out) in
    if ltb n 10 then (b'0' + n) ∷ out else rest

unfoldable pub decimal : ℕ → Bytes
unfolding decimal_loop
decimal n = decimal_loop 20 n []

-- `git_object_kind_name`
unfoldable pub git_object_kind_name : ObjectKind → Bytes
git_object_kind_name commit = b'c' ∷ b'o' ∷ b'm' ∷ b'm' ∷ b'i' ∷ b't' ∷ []
git_object_kind_name tree = b't' ∷ b'r' ∷ b'e' ∷ b'e' ∷ []
git_object_kind_name blob = b'b' ∷ b'l' ∷ b'o' ∷ b'b' ∷ []
git_object_kind_name tag = b't' ∷ b'a' ∷ b'g' ∷ []

-- `git_object_header`
unfoldable pub git_object_header : ObjectKind → ℕ → Bytes
git_object_header kind raw_length =
    git_object_kind_name kind ++ (b' ' ∷ (decimal raw_length ++ 0 ∷ []))

-- "reflink-forest-object-v1\0"
abbrev pub content_id_domain : Bytes
content_id_domain =
    b'r' ∷ b'e' ∷ b'f' ∷ b'l' ∷ b'i' ∷ b'n' ∷ b'k' ∷ b'-' ∷ b'f' ∷ b'o' ∷ b'r' ∷ b'e' ∷ b's' ∷ b't'
    ∷ b'-' ∷ b'o' ∷ b'b' ∷ b'j' ∷ b'e' ∷ b'c' ∷ b't' ∷ b'-' ∷ b'v' ∷ b'1' ∷ 0 ∷ []

-- `expect("... digest has a fixed length")`
abbrev pub expect_oid : Result InvalidGitOidLength GitOid → Result ⊥ GitOid
expect_oid (ok oid) = ok oid
expect_oid _ = panic

-- `GitOidDigest`
pub data GitOidDigest (A B : Type 0) : Type 0 where
  of_sha1 : A → GitOidDigest A B
  of_sha256 : B → GitOidDigest A B

pub record GitOidHasher (A B : Type 0) : Type 0 where
  pub algorithm : HashAlgorithm
  pub digest : GitOidDigest A B

module _ (sha1_digest sha256_digest : Digest) where
  abbrev pub Hasher : Type 0
  Hasher = GitOidHasher sha1_digest.State sha256_digest.State

  start_digest : HashAlgorithm → GitOidDigest sha1_digest.State sha256_digest.State
  start_digest sha1 = of_sha1 sha1_digest.init
  start_digest sha256 = of_sha256 sha256_digest.init

  update_digest :
      GitOidDigest sha1_digest.State sha256_digest.State
      → Bytes
      → GitOidDigest sha1_digest.State sha256_digest.State
  update_digest (of_sha1 s) bytes = of_sha1 (sha1_digest.update s bytes)
  update_digest (of_sha256 s) bytes = of_sha256 (sha256_digest.update s bytes)

  finish_digest :
      HashAlgorithm → GitOidDigest sha1_digest.State sha256_digest.State → Result ⊥ GitOid
  finish_digest algorithm (of_sha1 s) = expect_oid (new_oid algorithm (sha1_digest.finalize s))
  finish_digest algorithm (of_sha256 s) = expect_oid (new_oid algorithm (sha256_digest.finalize s))

  -- `GitOidHasher::new`, `<GitOidHasher as Write>::write` and `GitOidHasher::finish`
  unfoldable pub hasher_new : HashAlgorithm → ObjectKind → ℕ → Hasher
  unfolding start_digest update_digest
  hasher_new algorithm kind raw_length = record {
    algorithm = algorithm;
    digest = update_digest (start_digest algorithm) (git_object_header kind raw_length);
  }

  unfoldable pub hasher_write : Hasher → Bytes → Hasher × ℕ
  unfolding update_digest
  hasher_write h bytes = (record h { digest = update_digest h.digest bytes }, length bytes)

  unfoldable pub hasher_finish : Hasher → Result ⊥ GitOid
  unfolding finish_digest
  hasher_finish h = finish_digest h.algorithm h.digest

  -- `GitOid::for_object`
  unfoldable pub oid_for_object : HashAlgorithm → ObjectKind → Bytes → Result ⊥ GitOid
  oid_for_object sha1 kind raw_payload =
      let header = git_object_kind_name kind ++ (b' ' ∷ (decimal (length raw_payload) ++ 0 ∷ [])) in
      let digest = sha1_digest.update (sha1_digest.update sha1_digest.init header) raw_payload in
      expect_oid (new_oid sha1 (sha1_digest.finalize digest))
  oid_for_object sha256 kind raw_payload =
      let header = git_object_kind_name kind ++ (b' ' ∷ (decimal (length raw_payload) ++ 0 ∷ [])) in
      let digest =
        sha256_digest.update (sha256_digest.update sha256_digest.init header) raw_payload in
      expect_oid (new_oid sha256 (sha256_digest.finalize digest))

module _ (sha256_digest : Digest) where
  abbrev pub ContentHasher : Type 0
  ContentHasher = sha256_digest.State

  -- `ContentHasher::new`, `update` and `finalize`
  unfoldable pub content_new : ObjectKind → ℕ → ContentHasher
  content_new kind raw_length =
      let domain = sha256_digest.update sha256_digest.init content_id_domain in
      let kinded = sha256_digest.update domain (kind_tag kind ∷ []) in
      sha256_digest.update kinded (be 8 raw_length)

  unfoldable pub content_update : ContentHasher → Bytes → ContentHasher
  content_update = sha256_digest.update

  unfoldable pub content_finalize : ContentHasher → ContentId
  content_finalize s = record { content_bytes = sha256_digest.finalize s }

  -- `ContentId::for_object`
  unfoldable pub content_id_for_object : ObjectKind → Bytes → ContentId
  content_id_for_object kind raw_payload =
      content_finalize (content_update (content_new kind (length raw_payload)) raw_payload)
