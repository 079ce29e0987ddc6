-- ===== src/Format/Record/Oid.antt =====
-- Git object IDs in 34 bytes: `encode_oid_fixed` and `decode_oid_fixed`.
use gitdb.Base.{
  ℕ, ◌+◌, ◌-◌, ◌≤◌, ◌≡◌, refl, ap, ◌∙◌, arith, not, [], ◌∷◌, ◌++◌, ◌==◌, ==_iff, ==_refl, length,
  drop, replicate, length-append,
}
use gitdb.Base.Bytes.{
  Bytes, AreBytes, any_nonzero, any_nonzero-replicate, length-slice, byte_at, put_at,
}
use gitdb.Base.Cuts.{slice-AreBytes, slice-drop, byte_at-drop, zero_tail, slice_middle, slice_end}
use gitdb.Base.Ensures.{Ensures, returns, ensure_reject, ensure_slice, ensure_byte, ensure_some}
use gitdb.Base.Result.{ok}
use gitdb.Core.{HashAlgorithm, sha1, sha256, algorithm_tag, algorithm_from_tag, oid_len, GitOid}
use gitdb.Core.Laws.{IsOid, oid_of, new_oid-eq_ok, as_bytes-raw, algorithm_from_tag_iff}
use gitdb.Format.{FormatError, invalid_oid_length, invalid_hash_algorithm}
use gitdb.Format.Record.{encode_oid_fixed, decode_oid_fixed}

-- Tag, length, the ID's bytes, and zeros up to 34 bytes.
abbrev pub oid_layout : HashAlgorithm → Bytes → Bytes
oid_layout a raw = algorithm_tag a ∷ oid_len a ∷ (raw ++ replicate (32 - oid_len a) 0)

drop_zeros :
    (a : HashAlgorithm) (x y : ℕ)
    → drop (2 + oid_len a) (x ∷ y ∷ replicate 32 0) ≡ replicate (32 - oid_len a) 0
unfolding oid_len
drop_zeros sha1 x y = refl
drop_zeros sha256 x y = refl

put_raw :
    (a : HashAlgorithm) (len : ℕ) (raw : Bytes)
    → length raw ≡ oid_len a
    → len ≡ oid_len a
    → put_at (algorithm_tag a ∷ len ∷ replicate 32 0) 2 raw ≡ oid_layout a raw
unfolding put_at
put_raw a len raw h e = rw (h, e, drop_zeros)

pub len-oid : {g : GitOid} → IsOid g → g.len ≡ oid_len g.algorithm
len-oid v = ap (λ (o : GitOid). o.len) v.made

pub encode_oid-layout :
    (g : GitOid) (v : IsOid g) → encode_oid_fixed g (replicate 34 0) ≡ oid_layout g.algorithm v.raw
unfolding encode_oid_fixed put_at
encode_oid-layout g v =
    ap (λ t. put_at (algorithm_tag g.algorithm ∷ g.len ∷ replicate 32 0) 2 t) (as_bytes-raw v)
    ∙ put_raw g.algorithm g.len v.raw v.raw_length (len-oid v)

pub oid_len-le : (a : HashAlgorithm) → oid_len a ≤ 32
unfolding oid_len
oid_len-le a = ground arith

-- What `decode_oid_fixed` has found in its 34 bytes.
abbrev pub OidRead : Bytes → GitOid → Type 0
OidRead bytes g = (v : IsOid g) × (bytes ≡ oid_layout g.algorithm v.raw)

pub decode_oid-Ensures :
    (bytes : Bytes)
    → length bytes ≡ 34
    → AreBytes bytes
    → Ensures (OidRead bytes) (decode_oid_fixed bytes)
unfolding decode_oid_fixed
decode_oid-Ensures bytes size in_bytes = ensure_byte bytes 0 (omega arith) λ tag tag_read.
    ensure_some (algorithm_from_tag tag) (invalid_hash_algorithm tag) λ a known.
      ensure_byte bytes 1 (omega arith) λ len len_read.
        ensure_reject (not (len == oid_len a)) invalid_oid_length λ right_len.
          let right : len ≡ oid_len a = (==_iff len (oid_len a)).0 (ground arith) in
          let short : len ≤ 32 = omega (arith, oid_len-le a) in
          ensure_slice bytes (2 + len) (length bytes) (omega arith) (omega arith) λ tail tail_cut.
            ensure_reject (any_nonzero tail) invalid_oid_length λ tail_zero.
              ensure_slice bytes 2 (2 + len) (omega arith) (omega arith) λ raw raw_cut.
                let raw_size : length raw ≡ oid_len a =
                  omega (arith, length-slice bytes 2 (2 + len) raw_cut) in
                rw (new_oid-eq_ok a raw raw_size) (
                  returns (oid_of a raw) (
                    record {
                      raw = raw;
                      raw_length = raw_size;
                      made = refl;
                      raw_AreBytes = slice-AreBytes bytes 2 (2 + len) in_bytes raw_cut;
                    },
                    cc (
                      byte_at-drop bytes 0 tag_read,
                      (algorithm_from_tag_iff tag a).0 known,
                      byte_at-drop bytes 1 len_read,
                      right,
                      slice-drop bytes 2 (2 + len) raw_cut,
                      zero_tail bytes (2 + len) (32 - len) tail_cut tail_zero (omega arith),
                    ),
                  ))

-- Reading the 34 bytes of an object ID gives it back.
pub decode_oid-layout :
    (a : HashAlgorithm) (raw : Bytes)
    → length raw ≡ oid_len a
    → decode_oid_fixed (oid_layout a raw) ≡ ok (oid_of a raw)
unfolding decode_oid_fixed byte_at
decode_oid-layout a raw h = rw (
  (algorithm_from_tag_iff (algorithm_tag a) a).1 refl,
  ==_refl (oid_len a),
  slice_end {E = FormatError} head zeros (2 + oid_len a) (length (oid_layout a raw)) (omega arith)
      (omega (arith, length-append raw zeros)),
  any_nonzero-replicate (32 - oid_len a),
  slice_middle {E = FormatError} (algorithm_tag a ∷ oid_len a ∷ []) raw zeros 2 (2 + oid_len a) refl
      (omega arith),
  new_oid-eq_ok a raw h,
)
  where
    head : Bytes
    head = algorithm_tag a ∷ oid_len a ∷ raw

    zeros : Bytes
    zeros = replicate (32 - oid_len a) 0
