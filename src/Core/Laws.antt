-- ===== src/Core/Laws.antt =====
-- Tags and Git object IDs of crates/reflink-forest-core/src/lib.rs.
use gitdb.Base.{
  ℕ, ◌≡◌, ◌≢◌, ◌↔◌, refl, sym, ap, ap₂, ◌∙◌, arith, some, ◌∷◌, length, replicate, take-append,
}
use gitdb.Base.Bytes.{Bytes, AreBytes, put_at}
use gitdb.Base.Result.{ok, err}
use gitdb.Core.{
  ObjectKind, HashAlgorithm, kind_tag, kind_from_tag, algorithm_tag, algorithm_from_tag, oid_len,
  GitOid, new_oid, as_bytes, encode_canonical,
}

-- A tag byte decodes to an object kind exactly when it is that kind's tag.
pub kind_from_tag_iff : (t : ℕ) (k : ObjectKind) → (kind_from_tag t ≡ some k) ↔ (kind_tag k ≡ t)
unfolding kind_from_tag kind_tag
kind_from_tag_iff t k = ground arith

pub algorithm_from_tag_iff :
    (t : ℕ) (a : HashAlgorithm) → (algorithm_from_tag t ≡ some a) ↔ (algorithm_tag a ≡ t)
unfolding algorithm_from_tag algorithm_tag
algorithm_from_tag_iff t a = ground arith

-- The value that `GitOid::new` stores for bytes of the right length.
abbrev pub oid_of : HashAlgorithm → Bytes → GitOid
oid_of a raw = record { algorithm = a; len = oid_len a; bytes = put_at (replicate 32 0) 0 raw }

pub new_oid-eq_ok :
    (a : HashAlgorithm) (raw : Bytes) → length raw ≡ oid_len a → new_oid a raw ≡ ok (oid_of a raw)
unfolding new_oid
new_oid-eq_ok a raw h = ground arith

pub as_bytes-oid_of :
    (a : HashAlgorithm) (raw : Bytes) → length raw ≡ oid_len a → as_bytes (oid_of a raw) ≡ raw
unfolding as_bytes put_at
as_bytes-oid_of a raw h = take-append (oid_len a) raw _ h

-- `GitOid::new` accepts exactly the byte strings of the algorithm's length, keeps them, and its
-- error names the algorithm and the length that was given.
pub new_oid_lem :
    (a : HashAlgorithm) (raw : Bytes)
    → (length raw ≡ oid_len a
        → (g : GitOid) × (new_oid a raw ≡ ok g)
          × (as_bytes g ≡ raw)
          × (g.algorithm ≡ a)
          × (g.len ≡ length raw))
      × (length raw ≢ oid_len a
          → new_oid a raw ≡ err (record { algorithm = a; actual = length raw }))
new_oid_lem a raw = (
  (λ h. (oid_of a raw, new_oid-eq_ok a raw h, as_bytes-oid_of a raw h, refl, sym h)),
  (λ h. unfold new_oid in ground arith),
)

-- What `GitOid::new` returns for some bytes: every value of the type, since its fields are private.
pub record IsOid (g : GitOid) : Type 0 where
  pub raw : Bytes
  pub raw_length : length raw ≡ oid_len g.algorithm
  pub made : g ≡ oid_of g.algorithm raw
  pub raw_AreBytes : AreBytes raw

pub as_bytes-raw : {g : GitOid} (h : IsOid g) → as_bytes g ≡ h.raw
as_bytes-raw {g} h = ap as_bytes h.made ∙ as_bytes-oid_of g.algorithm h.raw h.raw_length

oid_head :
    {g : GitOid} → IsOid g → encode_canonical g ≡ algorithm_tag g.algorithm ∷ g.len ∷ as_bytes g
unfolding encode_canonical
oid_head h = refl

pub algorithm_tag_injective : (a b : HashAlgorithm) → algorithm_tag a ≡ algorithm_tag b → a ≡ b
unfolding algorithm_tag
algorithm_tag_injective a b h = ground arith

-- The canonical alias suffix determines the object ID.
pub encode_canonical_injective :
    (g h : GitOid) → IsOid g → IsOid h → encode_canonical g ≡ encode_canonical h → g ≡ h
unfolding encode_canonical
encode_canonical_injective g h vg vh e = vg.made ∙ ap₂ oid_of same_algorithm same_raw ∙ sym vh.made
  where
    same_algorithm : g.algorithm ≡ h.algorithm
    same_algorithm = algorithm_tag_injective g.algorithm h.algorithm (cc)

    same_raw : vg.raw ≡ vh.raw
    same_raw = cc (as_bytes-raw vg, as_bytes-raw vh)
