-- ===== src/Store/Headers.antt =====
-- Reading the chunk header at the start of a file.
use gitdb.Base.{
  ◌≤◌, ◌≡◌, refl, sym, ap, ◌∙◌, arith, [], ◌++◌, append-nil, length, length-take, take, drop,
  take-append-drop,
}
use gitdb.Base.Bytes.{Bytes, AreBytes}
use gitdb.Base.Cuts.{AreBytes-take, take-all}
use mathlib.Core.Path.{subst}
use gitdb.Base.Result.{Result, panic, ok, err, >>=-eq-ok, IsSafe}
use gitdb.Format.{FormatError}
use gitdb.Format.Chunk.{ChunkHeader, encode_chunk_header, decode_chunk_header}
use gitdb.Format.Chunk.RoundTrip.{IsHeader, decode-encode, length-encode}
use gitdb.Format.Chunk.Canonical.{decode_chunk_header_iff, decode_chunk_header-ne-panic}
use gitdb.Store.{from_format, read_exact_at, read_exact_at_lem, read_exact_at-ok, read_chunk_header}

pub read_chunk_header_lem :
    (h : ChunkHeader) (rest : Bytes)
    → IsHeader h
    → read_chunk_header (encode_chunk_header h ++ rest) ≡ ok h
unfolding read_chunk_header
read_chunk_header_lem h rest v = rw (
  read_exact_at_lem [] (encode_chunk_header h) rest 0 64 refl (length-encode h),
  ap decode_chunk_header (sym (append-nil (encode_chunk_header h))) ∙ decode-encode h [] v,
)

pub from_format-ok {ℓ} :
    {A : Type ℓ} (d : Result FormatError A) {a : A} → from_format d ≡ ok a → d ≡ ok a
from_format-ok panic e = absurd (cc)
from_format-ok (err x) e = absurd (cc)
from_format-ok (ok b) e = cc e

-- A header that is read is the encoding of its value, and the file goes on behind it.
pub read_chunk_header-ok :
    (file : Bytes) (h : ChunkHeader)
    → AreBytes file
    → read_chunk_header file ≡ ok h
    → (file ≡ encode_chunk_header h ++ drop 64 file) × IsHeader h × (64 ≤ length file)
unfolding read_chunk_header
read_chunk_header-ok file h bytes_in e =
    let (bytes, read, decoded) = >>=-eq-ok (read_exact_at file 0 64) _ e in
    let (front, room) = read_exact_at-ok [] file bytes 0 64 refl read in
    let bytes_bytes : AreBytes bytes =
      subst AreBytes (sym front) (AreBytes-take 64 file bytes_in) in
    let (wrote, v) =
      (decode_chunk_header_iff bytes h bytes_bytes).0
        (from_format-ok (decode_chunk_header bytes) decoded) in
    let same : take 64 file ≡ encode_chunk_header h =
      sym front
      ∙ sym (take-all bytes 64 (omega (arith, ap length front, length-take 64 file, room)))
      ∙ wrote in
    (sym (take-append-drop 64 file) ∙ ap (λ t. t ++ drop 64 file) same, v, room)

pub read_chunk_header-IsSafe : (file : Bytes) → IsSafe (read_chunk_header file)
unfolding read_chunk_header read_exact_at
read_chunk_header-IsSafe file = record {
  no_panic = ground (arith, decode_chunk_header-ne-panic (take 64 file));
}
