-- ===== src/Store/Scan/Step.antt =====
-- One round of the record scan, as an equation of the loop, and what it has to say about the bytes
-- it passed.
use mathlib.Core.Path.{fun_ext, subst}
use gitdb.Base.{
  ℕ, suc, ◌+◌, ◌≤◌, ◌<◌, ◌≡◌, refl, sym, ap, ◌∙◌, arith, Bool, true, false, Option, none, some, [],
  ◌∷◌, ◌++◌, append-nil, length, length-append, drop, drop-append, ltb, if◌then◌else◌,
}
use gitdb.Base.Bytes.{Bytes, AreBytes}
use gitdb.Base.Cuts.{AreBytes-drop}
use gitdb.Base.Result.{Result, panic, ok, err, ◌>>=◌, >>=-eq-ok}
use gitdb.Core.Hashing.{Digest}
use gitdb.Format.{checked_add}
use gitdb.Format.Crc.{crc_update}
use gitdb.Format.Record.{ObjectRecord}
use gitdb.Format.Record.RoundTrip.{padded_of}
use gitdb.Format.Payload.{ZstdRead, CodecError, verify_object_record}
use gitdb.Store.{StoreError, from_codec}
use gitdb.Store.Scan.{RecordScan, Visitor, advance, scan_loop, read_candidate}
use gitdb.Store.Scan.Candidate.{record_bytes, length-record_bytes, padded_of-ge}
use gitdb.Store.Scan.Found.{read_candidate-Found}
use gitdb.Store.Scan.Rounds.{records_bytes, passed, Acceptable, passed_one_end}

strict-verified :
    (strict : Bool) (d : Result CodecError (Unit {0})) {u : Unit {0}}
    → (if strict then from_codec d else ok tt) ≡ ok u
    → strict ≡ true
    → d ≡ ok tt
strict-verified true panic e h = absurd (cc)
strict-verified true (err x) e h = absurd (cc)
strict-verified true (ok u) e h = refl
strict-verified false d e h = absurd (cc)

-- A round passes the encoding of one valid record, which starts where the round started.
pub record Next (acceptable : ObjectRecord → Type 0) (pre suffix : Bytes) (end_at : ℕ)
    (scan scan' : RecordScan) : Type 0 where
  pub r : ObjectRecord
  pub behind : Bytes
  pub accepted : acceptable r
  pub cut : suffix ≡ record_bytes r ++ behind
  pub behind_bytes : AreBytes behind
  pub taken : scan' ≡ passed scan (r ∷ [])
  pub stands : length (pre ++ record_bytes r) ≡ scan'.scan_end
  pub inside : scan'.scan_end ≤ end_at
  pub forward : scan.scan_end < scan'.scan_end

module _ (sha256_digest : Digest) (read_frame : Bytes → ZstdRead) {A : Type 0} (visitor : Visitor A)
    (strict : Bool) where
  pub advance-taken :
      (scan : RecordScan) (seen : A) (encoded : Bytes) (r : ObjectRecord)
      (o : Option (RecordScan × A))
      → advance sha256_digest read_frame visitor strict scan seen (some (encoded, r)) ≡ ok o
      → (seen' : A) × (o
          ≡ some (
            record {
              records = scan.records + 1;
              scan_end = scan.scan_end + length encoded;
              checksum = crc_update scan.checksum encoded;
            },
            seen',
          ))
        × (strict ≡ true → verify_object_record sha256_digest read_frame r ≡ ok tt)
  unfolding advance checked_add
  advance-taken scan seen encoded r o e =
      let (_, verified, e1) =
        >>=-eq-ok
          (if strict then from_codec (verify_object_record sha256_digest read_frame r) else ok tt) _
          e in
      let (seen', _, e2) = >>=-eq-ok (visitor seen scan.scan_end r (length encoded)) _ e1 in
      (seen', ground arith, strict-verified strict _ verified)

  taken_passed :
      (scan : RecordScan) (r : ObjectRecord) (encoded : Bytes)
      → encoded ≡ record_bytes r
      → record {
        records = scan.records + 1;
        scan_end = scan.scan_end + length encoded;
        checksum = crc_update scan.checksum encoded;
      }
        ≡ passed scan (r ∷ [])
  unfolding passed records_bytes
  taken_passed scan r encoded same = ground (arith, same, append-nil encoded)

  abbrev pub loop :
      (file : Bytes) (end_at fuel : ℕ) (scan : RecordScan) → A → Result StoreError (RecordScan × A)
  loop = scan_loop sha256_digest read_frame visitor strict

  abbrev pub go_on :
      (file : Bytes) (end_at fuel : ℕ) (scan : RecordScan)
      → A
      → Option (RecordScan × A)
      → Result StoreError (RecordScan × A)
  go_on file end_at fuel scan seen none = ok (scan, seen)
  go_on file end_at fuel scan seen (some (scan', seen')) = loop file end_at fuel scan' seen'

  pub loop_more :
      (file : Bytes) (end_at fuel : ℕ) (scan : RecordScan) (seen : A)
      → ltb scan.scan_end end_at ≡ true
      → loop file end_at (suc fuel) scan seen ≡ (
          read_candidate strict file end_at scan.scan_end
          >>= advance sha256_digest read_frame visitor strict scan seen
          >>= go_on file end_at fuel scan seen)
  unfolding scan_loop
  loop_more file end_at fuel scan seen more = rw more (
      ap
        (λ k.
          (read_candidate strict file end_at scan.scan_end
            >>= advance sha256_digest read_frame visitor strict scan seen
            >>= k))
        (fun_ext (λ o. elim o [ none ↦ refl | some p ↦ refl ])))

  pub round-Next :
      (file pre suffix : Bytes) (end_at : ℕ) (scan : RecordScan) (seen : A) (scan1 : RecordScan)
      (seen1 : A) (found : Option (Bytes × ObjectRecord))
      → file ≡ pre ++ suffix
      → AreBytes suffix
      → length pre ≡ scan.scan_end
      → read_candidate strict file end_at scan.scan_end ≡ ok found
      → advance sha256_digest read_frame visitor strict scan seen found ≡ ok (some (scan1, seen1))
      → Next (Acceptable sha256_digest read_frame strict) pre suffix end_at scan scan1
  unfolding advance
  round-Next file pre suffix end_at scan seen scan1 seen1 none cut bytes_in h read advanced =
      absurd (cc)
  round-Next file pre suffix end_at scan seen scan1 seen1 (some (encoded, r)) cut bytes_in h read
        advanced =
      let f =
        read_candidate-Found strict pre suffix end_at scan.scan_end encoded r bytes_in h
          (ap (λ t. read_candidate strict t end_at scan.scan_end) (sym cut) ∙ read) in
      let (seen2, same, verified) = advance-taken scan seen encoded r _ advanced in
      let size : length (record_bytes r) ≡ padded_of r = length-record_bytes r f.stored.valid in
      let cut_first : suffix ≡ record_bytes r ++ f.behind =
        f.stands ∙ ap (λ t. t ++ f.behind) f.is_record in
      let taken : scan1 ≡ passed scan (r ∷ []) =
        cc (same, taken_passed scan r encoded f.is_record) in
      let end_eq : scan1.scan_end ≡ scan.scan_end + length (record_bytes r) =
        ap (λ s. s.scan_end) taken ∙ passed_one_end scan r in
      record {
        r = r;
        behind = f.behind;
        accepted = (f.stored, verified);
        cut = cut_first;
        behind_bytes =
            subst AreBytes
              (ap (drop (length (record_bytes r))) cut_first
                ∙ drop-append (length (record_bytes r)) (record_bytes r) f.behind refl)
              (AreBytes-drop (length (record_bytes r)) suffix bytes_in);
        taken = taken;
        stands = length-append pre (record_bytes r) ∙ omega (arith, h, end_eq);
        inside = omega (arith, end_eq, size, f.inside);
        forward = omega (arith, end_eq, size, padded_of-ge r);
      }
