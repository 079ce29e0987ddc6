-- ===== src/Store/Scan/Sound.antt =====
-- The record scan on arbitrary bytes: what it passes.
use gitdb.Base.{
  ℕ, zero, suc, ◌≤◌, ◌≡◌, ◌≢◌, refl, sym, ap, ◌∙◌, arith, inl, inr, Bool, true, Option, none, some,
  List, [], ◌∷◌, ◌++◌, append_assoc, length, All, ltb, Bool-cases,
}
use gitdb.Base.Bytes.{Bytes, AreBytes}
use gitdb.Base.Result.{Result, panic, ok, err, >>=-eq-ok, ok_or, reject_if}
use gitdb.Core.Hashing.{Digest}
use gitdb.Format.{FormatError, truncated}
use gitdb.Format.Record.{ObjectRecord, decode_record, encoded_record_len_from_header, checked_sub}
use gitdb.Format.Payload.{ZstdRead}
use gitdb.Store.{StoreError, format, offset_overflow, read_exact_at}
use gitdb.Store.Scan.{
  RecordScan, Visitor, advance, scan_loop, scan_records_with_visitor, scan_start, read_candidate,
  read_header_and_body, header_verdict, record_verdict, read_body,
}
use gitdb.Store.Scan.Candidate.{record_bytes}
use gitdb.Store.Scan.Step
use gitdb.Store.Scan.Step.{advance-taken, go_on, loop_more, round-Next}
use gitdb.Store.Scan.Rounds.{
  records_bytes, passed, passed-nil, passed_next, Acceptable, split_first,
}

-- A strict round does not break off.
verdict-ne-none :
    (bytes : Bytes) (d : Result FormatError (ObjectRecord × ℕ))
    → record_verdict true bytes d ≢ ok none
unfolding record_verdict
verdict-ne-none bytes panic e = cc
verdict-ne-none bytes (err x) e = cc
verdict-ne-none bytes (ok (r, n)) e = ground arith

header_verdict-ne-none :
    (remaining : ℕ) (d : Result FormatError ℕ) → header_verdict true remaining d ≢ ok none
unfolding header_verdict
header_verdict-ne-none remaining panic e = cc
header_verdict-ne-none remaining (err x) e = cc
header_verdict-ne-none remaining (ok n) e = ground arith

body-ne-none :
    (file : Bytes) (offset remaining : ℕ)
    → read_header_and_body true file offset remaining ≢ ok none
unfolding read_header_and_body
body-ne-none file offset remaining e =
    let (header, _, e1) = >>=-eq-ok (read_exact_at file offset 128) _ e in
    let (encoded_len, verdict, e2) =
      >>=-eq-ok (header_verdict true remaining (encoded_record_len_from_header header)) _ e1 in
    judged encoded_len (encoded_record_len_from_header header) verdict e2
  where
    judged :
        (encoded_len : Option ℕ) (d : Result FormatError ℕ)
        → header_verdict true remaining d ≡ ok encoded_len
        → read_body true file offset encoded_len ≢ ok none
    judged none d verdict e2 = header_verdict-ne-none remaining d verdict
    judged (some n) d verdict e2 =
        unfold read_body in
        let (bytes, _, e3) = >>=-eq-ok (read_exact_at file offset n) _ e2 in
        verdict-ne-none bytes (decode_record bytes) e3

read_candidate-ne-none :
    (file : Bytes) (end_at offset : ℕ) → read_candidate true file end_at offset ≢ ok none
unfolding read_candidate read_header_and_body checked_sub
read_candidate-ne-none file end_at offset e =
    let (remaining, _, e1) = >>=-eq-ok (ok_or (checked_sub end_at offset) offset_overflow) _ e in
    elim (Bool-cases (ltb remaining 128)) [
      | inl short ↦ absurd (ground (arith, short, e1))
      | inr long ↦ body-ne-none file offset remaining (ground (arith, long, e1))
    ]

-- What a scan with the result `scan'` has passed of the bytes behind its start.
pub record Scanned (acceptable : ObjectRecord → Type 0) (strict : Bool) (suffix : Bytes)
    (end_at : ℕ) (scan scan' : RecordScan) : Type 0 where
  pub rs : List ObjectRecord
  pub rest : Bytes
  pub layout : suffix ≡ records_bytes rs ++ rest
  pub accepted : All acceptable rs
  pub result : scan' ≡ passed scan rs
  pub ended : scan'.scan_end ≤ end_at
  pub complete : strict ≡ true → scan'.scan_end ≡ end_at

module _ {acceptable : ObjectRecord → Type 0} (strict : Bool) (suffix : Bytes) (end_at : ℕ)
    (scan scan' : RecordScan) where
  stopped-Scanned :
      scan' ≡ scan
      → scan.scan_end ≤ end_at
      → (strict ≡ true → scan.scan_end ≡ end_at)
      → Scanned acceptable strict suffix end_at scan scan'
  stopped-Scanned same before at_end = record {
    rs = [];
    rest = suffix;
    layout = unfold records_bytes in refl;
    accepted = tt;
    result = same ∙ passed-nil scan;
    ended = omega (arith, ap (λ s. s.scan_end) same, before);
    complete = λ h. ap (λ s. s.scan_end) same ∙ at_end h;
  }

  next-Scanned :
      (r : ObjectRecord) (behind : Bytes) (scan1 : RecordScan)
      → acceptable r
      → suffix ≡ record_bytes r ++ behind
      → scan1 ≡ passed scan (r ∷ [])
      → Scanned acceptable strict behind end_at scan1 scan'
      → Scanned acceptable strict suffix end_at scan scan'
  next-Scanned r behind scan1 a cut taken s = record {
    rs = r ∷ s.rs;
    rest = s.rest;
    layout = cut ∙ ap (λ t. record_bytes r ++ t) s.layout ∙ sym (split_first r s.rs s.rest);
    accepted = (a, s.accepted);
    result = s.result ∙ ap (λ t. passed t s.rs) taken ∙ passed_next scan r s.rs;
    ended = s.ended;
    complete = s.complete;
  }

module _ (sha256_digest : Digest) (read_frame : Bytes → ZstdRead) {A : Type 0} (visitor : Visitor A)
    (strict : Bool) where
  abbrev loop :
      (file : Bytes) (end_at fuel : ℕ) (scan : RecordScan) → A → Result StoreError (RecordScan × A)
  loop = Step.loop sha256_digest read_frame visitor strict

  abbrev ScanResult : Bytes → (end_at : ℕ) (scan scan' : RecordScan) → Type 0
  ScanResult = Scanned (Acceptable sha256_digest read_frame strict) strict

  broken-Scanned :
      (file suffix : Bytes) (end_at fuel : ℕ) (scan : RecordScan) (seen : A) (scan' : RecordScan)
      (seen' : A) (found : Option (Bytes × ObjectRecord))
      → scan.scan_end ≤ end_at
      → read_candidate strict file end_at scan.scan_end ≡ ok found
      → advance sha256_digest read_frame visitor strict scan seen found ≡ ok none
      → go_on sha256_digest read_frame visitor strict file end_at fuel scan seen none
        ≡ ok (scan', seen')
      → ScanResult suffix end_at scan scan'
  unfolding advance
  broken-Scanned file suffix end_at fuel scan seen scan' seen' none before read advanced same =
      stopped-Scanned strict suffix end_at scan scan' (cc same) before (λ is_strict. absurd (
        read_candidate-ne-none file end_at scan.scan_end
          (ap (λ b. read_candidate b file end_at scan.scan_end) (sym is_strict) ∙ read)))
  broken-Scanned file suffix end_at fuel scan seen scan' seen' (some (encoded, r)) before read
        advanced same =
      let (seen1, some_next, _) =
        advance-taken sha256_digest read_frame visitor strict scan seen encoded r none advanced in
      absurd (cc some_next)

  -- One round, on what the rounds behind it pass.
  round-Scanned :
      (file pre suffix : Bytes) (end_at fuel : ℕ) (scan : RecordScan) (seen : A)
      (scan' : RecordScan) (seen' : A)
      → ((pre1 suffix1 : Bytes) (scan1 : RecordScan) (seen1 : A)
          → file ≡ pre1 ++ suffix1
          → AreBytes suffix1
          → length pre1 ≡ scan1.scan_end
          → scan1.scan_end ≤ end_at
          → loop file end_at fuel scan1 seen1 ≡ ok (scan', seen')
          → ScanResult suffix1 end_at scan1 scan')
      → (found : Option (Bytes × ObjectRecord)) (o : Option (RecordScan × A)) → file ≡ pre ++ suffix
      → AreBytes suffix
      → length pre ≡ scan.scan_end
      → scan.scan_end ≤ end_at
      → read_candidate strict file end_at scan.scan_end ≡ ok found
      → advance sha256_digest read_frame visitor strict scan seen found ≡ ok o
      → go_on sha256_digest read_frame visitor strict file end_at fuel scan seen o
        ≡ ok (scan', seen')
      → ScanResult suffix end_at scan scan'
  round-Scanned file pre suffix end_at fuel scan seen scan' seen' ih found none cut bytes_in h
        before read advanced rest =
      broken-Scanned file suffix end_at fuel scan seen scan' seen' found before read advanced rest
  round-Scanned file pre suffix end_at fuel scan seen scan' seen' ih found (some (scan1, seen1)) cut
        bytes_in h before read advanced rest =
      let n =
        round-Next sha256_digest read_frame visitor strict file pre suffix end_at scan seen scan1
          seen1 found cut bytes_in h read advanced in
      next-Scanned strict suffix end_at scan scan' n.r n.behind scan1 n.accepted n.cut n.taken (
        ih (pre ++ record_bytes n.r) n.behind scan1 seen1
          (cut ∙ ap (λ t. pre ++ t) n.cut ∙ sym (append_assoc pre (record_bytes n.r) n.behind))
          n.behind_bytes n.stands n.inside rest)

  pub scan_loop-Scanned :
      (file pre suffix : Bytes) (end_at fuel : ℕ) (scan : RecordScan) (seen : A)
      (scan' : RecordScan) (seen' : A)
      → file ≡ pre ++ suffix
      → AreBytes suffix
      → length pre ≡ scan.scan_end
      → scan.scan_end ≤ end_at
      → loop file end_at fuel scan seen ≡ ok (scan', seen')
      → Scanned (Acceptable sha256_digest read_frame strict) strict suffix end_at scan scan'
  unfolding scan_loop
  scan_loop-Scanned file pre suffix end_at zero scan seen scan' seen' cut bytes_in h before e =
      absurd (cc)
  scan_loop-Scanned file pre suffix end_at (suc fuel) scan seen scan' seen' cut bytes_in h before
        e =
      elim (Bool-cases (ltb scan.scan_end end_at)) [
        | inr at_end ↦
            stopped-Scanned strict suffix end_at scan scan' (ground (arith, at_end, e)) before
              (λ _. ground (arith, at_end))
        | inl more ↦
            let (o, step, rest) =
              >>=-eq-ok _ (go_on sha256_digest read_frame visitor strict file end_at fuel scan seen)
                (sym (
                    loop_more sha256_digest read_frame visitor strict file end_at fuel scan seen
                      more)
                  ∙ e) in
            let (found, read, advanced) =
              >>=-eq-ok (read_candidate strict file end_at scan.scan_end) _ step in
            round-Scanned file pre suffix end_at fuel scan seen scan' seen'
              (λ pre1 suffix1 scan1 seen1.
                scan_loop-Scanned file pre1 suffix1 end_at fuel scan1 seen1 scan' seen')
              found o cut bytes_in h before read advanced rest
      ]

  -- What a scan that succeeds says of the bytes behind the chunk header.
  pub scan_records-Scanned :
      (file pre suffix : Bytes) (end_at : ℕ) (seen : A) (scan : RecordScan) (seen' : A)
      → file ≡ pre ++ suffix
      → AreBytes suffix
      → length pre ≡ 64
      → scan_records_with_visitor sha256_digest read_frame visitor file end_at strict seen
        ≡ ok (scan, seen')
      → ScanResult suffix end_at scan_start scan
  unfolding scan_records_with_visitor
  scan_records-Scanned file pre suffix end_at seen scan seen' cut bytes_in h e =
      let (_, long, ran) = >>=-eq-ok (reject_if (ltb end_at 64) (format truncated)) _ e in
      scan_loop-Scanned file pre suffix end_at (suc end_at) scan_start seen scan seen' cut bytes_in
        h (ground (arith, long)) ran
