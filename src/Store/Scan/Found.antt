-- ===== src/Store/Scan/Found.antt =====
-- One round of the record scan on arbitrary bytes.
use mathlib.Core.Path.{subst}
use gitdb.Base.{
  ℕ, ◌+◌, ◌-◌, ◌≤◌, ◌≡◌, sym, ap, ◌∙◌, arith, inl, inr, Bool, Option, none, some, ◌++◌, length,
  length-take, take, drop, take-append-drop, ltb, Bool-cases,
}
use gitdb.Base.Bytes.{Bytes, AreBytes}
use gitdb.Base.Cuts.{AreBytes-take, take-all}
use gitdb.Base.Result.{Result, panic, ok, err, >>=-eq-ok}
use gitdb.Format.{FormatError}
use gitdb.Format.Record.{ObjectRecord, decode_record, encoded_record_len_from_header, checked_sub}
use gitdb.Format.Record.Canonical.{decode_record_iff}
use gitdb.Format.Record.RoundTrip.{padded_of, encoded_of, encode-layout, length-encoded}
use gitdb.Store.{read_exact_at, read_exact_at-ok, max_recovery_record_bytes}
use gitdb.Store.Scan.{
  header_verdict, record_verdict, read_body, read_header_and_body, read_candidate,
}
use gitdb.Store.Scan.Candidate.{IsScannable, record_bytes}

-- What a round finds in a chunk.
pub record Found (suffix : Bytes) (end_at offset : ℕ) (encoded : Bytes) (r : ObjectRecord)
    : Type 0 where
  pub stored : IsScannable r
  pub is_record : encoded ≡ record_bytes r
  pub behind : Bytes
  pub stands : suffix ≡ encoded ++ behind
  pub inside : offset + padded_of r ≤ end_at

record_verdict-found :
    (strict : Bool) (bytes : Bytes) (d : Result FormatError (ObjectRecord × ℕ)) (encoded : Bytes)
    (r : ObjectRecord)
    → record_verdict strict bytes d ≡ ok (some (encoded, r))
    → (n : ℕ) × (d ≡ ok (r, n)) × (encoded ≡ bytes) × (n ≡ length bytes)
unfolding record_verdict
record_verdict-found strict bytes panic encoded r e = absurd (cc)
record_verdict-found strict bytes (err x) encoded r e = absurd (ground arith)
record_verdict-found strict bytes (ok (r', n)) encoded r e =
    (n, ground arith, ground arith, ground arith)

header_verdict-found :
    (strict : Bool) (remaining n : ℕ) (d : Result FormatError ℕ)
    → header_verdict strict remaining d ≡ ok (some n)
    → (n ≤ max_recovery_record_bytes) × (n ≤ remaining)
unfolding header_verdict
header_verdict-found strict remaining n panic e = absurd (cc)
header_verdict-found strict remaining n (err x) e = absurd (ground arith)
header_verdict-found strict remaining n (ok m) e = ground arith

body-Found :
    (strict : Bool) (pre suffix : Bytes) (end_at offset encoded_len : ℕ) (encoded : Bytes)
    (r : ObjectRecord)
    → AreBytes suffix
    → length pre ≡ offset
    → encoded_len ≤ max_recovery_record_bytes
    → offset + encoded_len ≤ end_at
    → read_body strict (pre ++ suffix) offset (some encoded_len) ≡ ok (some (encoded, r))
    → Found suffix end_at offset encoded r
unfolding read_body record_verdict
body-Found strict pre suffix end_at offset encoded_len encoded r bytes_in h small inside e =
    let (bytes, read, verdict) = >>=-eq-ok (read_exact_at (pre ++ suffix) offset encoded_len) _ e in
    let (n, decoded, same, whole) =
      record_verdict-found strict bytes (decode_record bytes) encoded r verdict in
    let (front, room) = read_exact_at-ok pre suffix bytes offset encoded_len h read in
    let bytes_bytes : AreBytes bytes =
      subst AreBytes (sym front) (AreBytes-take encoded_len suffix bytes_in) in
    let (valid, wrote, _) = (decode_record_iff bytes r n bytes_bytes).0 decoded in
    let full : take n bytes ≡ bytes = take-all bytes n whole in
    let size : length bytes ≡ encoded_len =
      omega (arith, ap length front, length-take encoded_len suffix, room) in
    let layout : bytes ≡ encoded_of r = cc (wrote, full, encode-layout r valid) in
    let fits : padded_of r ≡ encoded_len =
      omega (arith, ap length layout, (length-encoded r valid).0, size) in
    record {
      stored = record { valid = valid; fits = omega (arith, fits, small) };
      is_record = unfold record_bytes in cc (same, layout);
      behind = drop encoded_len suffix;
      stands =
          sym (take-append-drop encoded_len suffix)
          ∙ ap (λ t. t ++ drop encoded_len suffix) (cc (front, same));
      inside = omega (arith, fits, inside);
    }

judged-Found :
    (strict : Bool) (pre suffix : Bytes) (end_at offset : ℕ) (d : Result FormatError ℕ)
    (encoded_len : Option ℕ) (encoded : Bytes) (r : ObjectRecord)
    → AreBytes suffix
    → length pre ≡ offset
    → offset ≤ end_at
    → header_verdict strict (end_at - offset) d ≡ ok encoded_len
    → read_body strict (pre ++ suffix) offset encoded_len ≡ ok (some (encoded, r))
    → Found suffix end_at offset encoded r
unfolding read_body
judged-Found strict pre suffix end_at offset d none encoded r bytes_in h before verdict e =
    absurd (cc)
judged-Found strict pre suffix end_at offset d (some n) encoded r bytes_in h before verdict e =
    let (small, room) = header_verdict-found strict (end_at - offset) n d verdict in
    body-Found strict pre suffix end_at offset n encoded r bytes_in h small
      (omega (arith, room, before)) e

pub read_candidate-Found :
    (strict : Bool) (pre suffix : Bytes) (end_at offset : ℕ) (encoded : Bytes) (r : ObjectRecord)
    → AreBytes suffix
    → length pre ≡ offset
    → read_candidate strict (pre ++ suffix) end_at offset ≡ ok (some (encoded, r))
    → Found suffix end_at offset encoded r
unfolding read_candidate read_header_and_body checked_sub header_verdict
read_candidate-Found strict pre suffix end_at offset encoded r bytes_in h e =
    elim (Bool-cases (ltb end_at offset)) [
      | inl past ↦ absurd (ground (arith, past))
      | inr before ↦ elim (Bool-cases (ltb (end_at - offset) 128)) [
        | inl short ↦ absurd (ground (arith, before, short))
        | inr long ↦
            let inner : read_header_and_body strict (pre ++ suffix) offset (end_at - offset)
                ≡ ok (some (encoded, r)) =
              ground (arith, before, long, e) in
            let (header, _, judged) =
              >>=-eq-ok (read_exact_at (pre ++ suffix) offset 128) _ inner in
            let (encoded_len, verdict, body) =
              >>=-eq-ok
                (header_verdict strict (end_at - offset) (encoded_record_len_from_header header)) _
                judged in
            judged-Found strict pre suffix end_at offset (encoded_record_len_from_header header)
              encoded_len encoded r bytes_in h (ground (arith, before)) verdict body
      ]
    ]
