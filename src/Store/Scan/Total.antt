-- ===== src/Store/Scan/Total.antt =====
-- The record scan on arbitrary bytes: its fuel and its reads.
use gitdb.Base.{
  ℕ, zero, suc, ◌+◌, ◌-◌, ◌≤◌, ◌<◌, ◌≡◌, ◌≢◌, refl, sym, ap, ◌∙◌, arith, inl, inr, Bool, true,
  false, Option, none, some, ◌++◌, append_assoc, length, take, drop, take-append-drop, length-take,
  ltb, if◌then◌else◌, Bool-cases,
}
use mathlib.Core.Path.{subst}
use gitdb.Base.Bytes.{Bytes, AreBytes}
use gitdb.Base.Cuts.{AreBytes-take, AreBytes-drop}
use gitdb.Base.Result.{
  Result, panic, ok, err, >>=-eq-ok, IsSafe, IsSafe-ok, IsSafe-err, IsSafe-bind, IsSafe-ok_or,
  IsSafe-reject_if,
}
use gitdb.Core.Hashing.{Digest}
use gitdb.Format.{FormatError, checked_add, usize_try_from, align, truncated, length_overflow}
use gitdb.Format.Record.{
  ObjectRecord, decode_record, decode_record_metadata, encoded_record_len_from_header, checked_sub,
  checked_total,
}
use gitdb.Format.Record.Canonical.{align-IsSafe, usize_try_from-IsSafe, decode_record-ne-panic}
use gitdb.Format.Record.Accepted.{decode_record_metadata-ne-panic}
use gitdb.Format.Payload.Safe.{verify_object_record-IsSafe}
use gitdb.Format.Payload.{ZstdRead, CodecError, verify_object_record}
use gitdb.Store.{format, from_codec, offset_overflow, read_exact_at}
use gitdb.Store.Scan.{
  RecordScan, Visitor, advance, scan_loop, scan_records_with_visitor, scan_start, read_candidate,
  read_header_and_body, header_verdict, record_verdict, read_body,
}
use gitdb.Store.Scan.Candidate.{record_bytes}
use gitdb.Store.Scan.Step.{loop, go_on, loop_more, round-Next}

read_exact_at-IsSafe : (file : Bytes) (offset count : ℕ) → IsSafe (read_exact_at file offset count)
unfolding read_exact_at
read_exact_at-IsSafe file offset count = record { no_panic = ground arith }

read_exact_at-AreBytes :
    (file bytes : Bytes) (offset count : ℕ)
    → AreBytes file
    → read_exact_at file offset count ≡ ok bytes
    → AreBytes bytes
unfolding read_exact_at
read_exact_at-AreBytes file bytes offset count bytes_in e =
    ground (arith, AreBytes-take count (drop offset file) (AreBytes-drop offset file bytes_in))

len_from_header-IsSafe :
    (bytes : Bytes) → AreBytes bytes → IsSafe (encoded_record_len_from_header bytes)
unfolding encoded_record_len_from_header usize_try_from align checked_add
len_from_header-IsSafe bytes bytes_in =
    IsSafe-bind (decode_record_metadata bytes) _
      (record { no_panic = decode_record_metadata-ne-panic bytes bytes_in })
      (λ m _. IsSafe-bind _ _ (usize_try_from-IsSafe m.stored_length) (λ stored _.
        IsSafe-bind _ _ (IsSafe-ok_or (checked_total stored) length_overflow)
          (λ total _. align-IsSafe total)))

header_verdict-IsSafe :
    (strict : Bool) (remaining : ℕ) (d : Result FormatError ℕ)
    → IsSafe d
    → IsSafe (header_verdict strict remaining d)
unfolding header_verdict
header_verdict-IsSafe strict remaining panic s = absurd (s.no_panic refl)
header_verdict-IsSafe strict remaining (err e) s = record { no_panic = ground arith }
header_verdict-IsSafe strict remaining (ok n) s = record { no_panic = ground arith }

record_verdict-IsSafe :
    (strict : Bool) (bytes : Bytes) (d : Result FormatError (ObjectRecord × ℕ))
    → IsSafe d
    → IsSafe (record_verdict strict bytes d)
unfolding record_verdict
record_verdict-IsSafe strict bytes panic s = absurd (s.no_panic refl)
record_verdict-IsSafe strict bytes (err e) s = record { no_panic = ground arith }
record_verdict-IsSafe strict bytes (ok (r, n)) s = record { no_panic = ground arith }

read_body-IsSafe :
    (strict : Bool) (file : Bytes) (offset : ℕ) (encoded_len : Option ℕ)
    → AreBytes file
    → IsSafe (read_body strict file offset encoded_len)
unfolding read_body
read_body-IsSafe strict file offset none bytes_in = IsSafe-ok none
read_body-IsSafe strict file offset (some n) bytes_in =
    IsSafe-bind (read_exact_at file offset n) _ (read_exact_at-IsSafe file offset n) (λ bytes e.
      record_verdict-IsSafe strict bytes (decode_record bytes) (record {
        no_panic =
            decode_record-ne-panic bytes (read_exact_at-AreBytes file bytes offset n bytes_in e);
      }))

read_header_and_body-IsSafe :
    (strict : Bool) (file : Bytes) (offset remaining : ℕ)
    → AreBytes file
    → IsSafe (read_header_and_body strict file offset remaining)
unfolding read_header_and_body
read_header_and_body-IsSafe strict file offset remaining bytes_in =
    IsSafe-bind (read_exact_at file offset 128) _ (read_exact_at-IsSafe file offset 128)
      (λ header e.
        IsSafe-bind _ _
          (header_verdict-IsSafe strict remaining _ (
            len_from_header-IsSafe header
              (read_exact_at-AreBytes file header offset 128 bytes_in e)))
          (λ n _. read_body-IsSafe strict file offset n bytes_in))

read_candidate-IsSafe :
    (strict : Bool) (file : Bytes) (end_at offset : ℕ)
    → AreBytes file
    → IsSafe (read_candidate strict file end_at offset)
unfolding read_candidate checked_sub
read_candidate-IsSafe strict file end_at offset bytes_in = record {
  no_panic =
      ground (
        arith,
        (read_header_and_body-IsSafe strict file offset (end_at - offset) bytes_in).no_panic,
      );
}

from_codec-IsSafe : (d : Result CodecError (Unit {0})) → IsSafe d → IsSafe (from_codec d)
from_codec-IsSafe panic s = absurd (s.no_panic refl)
from_codec-IsSafe (err e) s = IsSafe-err _
from_codec-IsSafe (ok a) s = IsSafe-ok a

module _ (sha256_digest : Digest) (read_frame : Bytes → ZstdRead) {A : Type 0} (visitor : Visitor A)
    (visitor_IsSafe : (seen : A) (offset : ℕ) (r : ObjectRecord) (n : ℕ)
      → IsSafe (visitor seen offset r n))
    (strict : Bool) where
  verified-IsSafe :
      (strict : Bool) (r : ObjectRecord)
      → IsSafe
          (if strict then from_codec (verify_object_record sha256_digest read_frame r) else ok tt)
  verified-IsSafe true r =
      from_codec-IsSafe _ (verify_object_record-IsSafe sha256_digest read_frame r)
  verified-IsSafe false r = IsSafe-ok tt

  advance-IsSafe :
      (scan : RecordScan) (seen : A) (found : Option (Bytes × ObjectRecord))
      → IsSafe (advance sha256_digest read_frame visitor strict scan seen found)
  unfolding advance
  advance-IsSafe scan seen none = IsSafe-ok none
  advance-IsSafe scan seen (some (encoded, r)) = IsSafe-bind _ _ (verified-IsSafe strict r) (λ _ _.
      IsSafe-bind _ _ (visitor_IsSafe seen scan.scan_end r (length encoded)) (λ _ _.
        IsSafe-bind _ _ (IsSafe-ok_or (checked_add scan.scan_end (length encoded)) offset_overflow)
          (λ _ _.
            IsSafe-bind _ _ (IsSafe-ok_or (checked_add scan.records 1) offset_overflow)
              (λ _ _. IsSafe-ok _))))

  next-IsSafe :
      (file pre suffix : Bytes) (end_at fuel : ℕ) (scan : RecordScan) (seen : A)
      → ((pre1 suffix1 : Bytes) (scan1 : RecordScan) (seen1 : A)
          → file ≡ pre1 ++ suffix1
          → AreBytes suffix1
          → length pre1 ≡ scan1.scan_end
          → end_at < scan1.scan_end + fuel
          → scan1.scan_end ≤ end_at
          → IsSafe (loop sha256_digest read_frame visitor strict file end_at fuel scan1 seen1))
      → (found : Option (Bytes × ObjectRecord)) (o : Option (RecordScan × A)) → file ≡ pre ++ suffix
      → AreBytes suffix
      → length pre ≡ scan.scan_end
      → end_at < scan.scan_end + suc fuel
      → read_candidate strict file end_at scan.scan_end ≡ ok found
      → advance sha256_digest read_frame visitor strict scan seen found ≡ ok o
      → IsSafe (go_on sha256_digest read_frame visitor strict file end_at fuel scan seen o)
  next-IsSafe file pre suffix end_at fuel scan seen rounds found none cut bytes_in h enough read
        advanced =
      IsSafe-ok (scan, seen)
  next-IsSafe file pre suffix end_at fuel scan seen rounds found (some (scan1, seen1)) cut bytes_in
        h enough read advanced =
      let n =
        round-Next sha256_digest read_frame visitor strict file pre suffix end_at scan seen scan1
          seen1 found cut bytes_in h read advanced in
      rounds (pre ++ record_bytes n.r) n.behind scan1 seen1
        (cut ∙ ap (λ t. pre ++ t) n.cut ∙ sym (append_assoc pre (record_bytes n.r) n.behind))
        n.behind_bytes n.stands (omega (arith, enough, n.forward)) n.inside

  -- With more fuel than bytes left, the loop ends.
  pub scan_loop-IsSafe :
      (file pre suffix : Bytes) (end_at fuel : ℕ) (scan : RecordScan) (seen : A)
      → file ≡ pre ++ suffix
      → AreBytes file
      → AreBytes suffix
      → length pre ≡ scan.scan_end
      → end_at < scan.scan_end + fuel
      → scan.scan_end ≤ end_at
      → IsSafe (loop sha256_digest read_frame visitor strict file end_at fuel scan seen)
  unfolding scan_loop
  scan_loop-IsSafe file pre suffix end_at zero scan seen cut whole_bytes bytes_in h enough before =
      absurd (omega arith)
  scan_loop-IsSafe file pre suffix end_at (suc fuel) scan seen cut whole_bytes bytes_in h enough
        before =
      elim (Bool-cases (ltb scan.scan_end end_at)) [
        | inr at_end ↦ record { no_panic = ground (arith, at_end) }
        | inl more ↦
            subst IsSafe
              (sym
                (loop_more sha256_digest read_frame visitor strict file end_at fuel scan seen more))
              (IsSafe-bind _
                (go_on sha256_digest read_frame visitor strict file end_at fuel scan seen)
                (IsSafe-bind (read_candidate strict file end_at scan.scan_end) _
                  (read_candidate-IsSafe strict file end_at scan.scan_end whole_bytes)
                  (λ found _. advance-IsSafe scan seen found))
                (λ o step.
                  let (found, read, advanced) =
                    >>=-eq-ok (read_candidate strict file end_at scan.scan_end) _ step in
                  next-IsSafe file pre suffix end_at fuel scan seen
                    (λ pre1 suffix1 scan1 seen1 c b l f i.
                      scan_loop-IsSafe file pre1 suffix1 end_at fuel scan1 seen1 c whole_bytes b l f
                        i)
                    found o cut bytes_in h enough read advanced))
      ]

  -- The scan of any bytes up to an end within them returns a result or an error: its fuel is
  -- enough, and no index or slice is out of range.
  pub scan_records-IsSafe :
      (file : Bytes) (end_at : ℕ) (seen : A)
      → AreBytes file
      → end_at ≤ length file
      → scan_records_with_visitor sha256_digest read_frame visitor file end_at strict seen ≢ panic
  unfolding scan_records_with_visitor
  scan_records-IsSafe file end_at seen bytes_in inside =
      (IsSafe-bind _ _ (IsSafe-reject_if (ltb end_at 64) (format truncated)) (λ _ long.
        let long_enough : 64 ≤ end_at = ground (arith, long) in
        scan_loop-IsSafe file (take 64 file) (drop 64 file) end_at (suc end_at) scan_start seen
          (sym (take-append-drop 64 file)) bytes_in (AreBytes-drop 64 file bytes_in)
          (omega (arith, length-take 64 file, inside, long_enough)) (omega arith)
          long_enough)).no_panic
