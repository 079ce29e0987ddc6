-- ===== src/Store/Scan/Whole.antt =====
-- The scan of a chunk of valid records, whole or cut off inside its last one.
use gitdb.Format.Record.RoundTrip.{IsRecord}
use gitdb.Base.{
  none, ap₂, ℕ, suc, ◌+◌, ◌-◌, ◌^◌, ◌≤◌, ◌<◌, ◌≡◌, refl, sym, ap, ◌∙◌, arith, Bool, false, List, [],
  ◌∷◌, ◌++◌, append_assoc, length, length-append, All, lt→ltb, le→ltb,
}
use gitdb.Base.Bytes.{Bytes}
use gitdb.Base.Result.{ok}
use gitdb.Core.Hashing.{Digest}
use gitdb.Format.Record.{ObjectRecord}
use gitdb.Format.Payload.{ZstdRead}
use gitdb.Store.Scan.{
  Visitor, advance, scan_loop, scan_records_with_visitor, scan_start, read_candidate,
}
use gitdb.Store.Scan.Candidate.{record_bytes, length-record_bytes, padded_of-ge}
use gitdb.Store.Scan.Rounds.{records_bytes, passed, visited, Acceptable, scan_loop-passed}

pub count-le :
    (accepted : ObjectRecord → Type 0)
    → ((r : ObjectRecord) → accepted r → IsRecord r)
    → (rs : List ObjectRecord) → All accepted rs
    → length rs ≤ length (records_bytes rs)
unfolding records_bytes
count-le accepted stored [] a = omega arith
count-le accepted stored (r ∷ rs) a = omega (
  arith,
  length-append (record_bytes r) (records_bytes rs),
  length-record_bytes r (stored r a.0),
  padded_of-ge r,
  count-le accepted stored rs a.1,
)

module _ (sha256_digest : Digest) (read_frame : Bytes → ZstdRead) {A : Type 0}
    (visit : A → (offset : ℕ) → ObjectRecord → (encoded_len : ℕ) → A) (strict : Bool) where
  abbrev visitor : Visitor A
  visitor seen offset r encoded_len = ok (visit seen offset r encoded_len)

  abbrev Good : List ObjectRecord → Type 0
  Good = All (Acceptable sha256_digest read_frame strict)

  -- The scan is the loop behind the records.
  scan_behind :
      (pre : Bytes) (rs : List ObjectRecord) (tail : Bytes) (end_at : ℕ) (seen : A)
      → Good rs
      → length pre ≡ 64
      → 64 + length (records_bytes rs) ≤ end_at
      → end_at < 2 ^ 64
      → scan_records_with_visitor sha256_digest read_frame visitor
          (pre ++ (records_bytes rs ++ tail))
          end_at
          strict
          seen
        ≡ scan_loop sha256_digest read_frame visitor strict
            (pre ++ (records_bytes rs ++ tail))
            end_at
            (suc (end_at - length rs))
            (passed scan_start rs)
            (visited visit seen 64 rs)
  unfolding scan_records_with_visitor
  scan_behind pre rs tail end_at seen good h inside small =
      let few = count-le (Acceptable sha256_digest read_frame strict) (λ r a. a.0.valid) rs good in
      let fuel : suc end_at ≡ length rs + suc (end_at - length rs) = omega (arith, few, inside) in
      rw (le→ltb end_at 64 (omega (arith, inside))) (
        ap
          (λ n.
            scan_loop sha256_digest read_frame visitor strict (pre ++ (records_bytes rs ++ tail))
              end_at n scan_start seen)
          fuel
        ∙ scan_loop-passed sha256_digest read_frame visit strict (pre ++ (records_bytes rs ++ tail))
            pre rs tail end_at (suc (end_at - length rs)) scan_start seen refl good h inside small
            (omega (arith, few, inside, small)))

  passed_end :
      (rs : List ObjectRecord) → (passed scan_start rs).scan_end ≡ 64 + length (records_bytes rs)
  unfolding passed
  passed_end rs = refl

  pub scan_whole :
      (pre : Bytes) (rs : List ObjectRecord) (tail : Bytes) (end_at : ℕ) (seen : A)
      → Good rs
      → length pre ≡ 64
      → 64 + length (records_bytes rs) ≡ end_at
      → end_at < 2 ^ 64
      → scan_records_with_visitor sha256_digest read_frame visitor
          (pre ++ (records_bytes rs ++ tail))
          end_at
          strict
          seen
        ≡ ok (passed scan_start rs, visited visit seen 64 rs)
  unfolding scan_loop
  scan_whole pre rs tail end_at seen good h ends small =
      scan_behind pre rs tail end_at seen good h (omega (arith, ends)) small
      ∙ rw (le→ltb (passed scan_start rs).scan_end end_at (omega (arith, passed_end rs, ends)))

  -- A recovery ends in front of bytes that hold no record within the bound.
  pub scan_stopped :
      (pre : Bytes) (rs : List ObjectRecord) (tail : Bytes) (end_at : ℕ) (seen : A)
      → Good rs
      → length pre ≡ 64
      → 64 + length (records_bytes rs) < end_at
      → end_at < 2 ^ 64
      → strict ≡ false
      → read_candidate false
          ((pre ++ records_bytes rs) ++ tail)
          end_at
          (64 + length (records_bytes rs))
        ≡ ok none
      → scan_records_with_visitor sha256_digest read_frame visitor
          (pre ++ (records_bytes rs ++ tail))
          end_at
          strict
          seen
        ≡ ok (passed scan_start rs, visited visit seen 64 rs)
  unfolding scan_loop advance
  scan_stopped pre rs tail end_at seen good h inside small lenient stops =
      scan_behind pre rs tail end_at seen good h (omega (arith, inside)) small
      ∙ rw (
        lt→ltb (passed scan_start rs).scan_end end_at (omega (arith, passed_end rs, inside)),
        lenient,
        ap₂ (λ t n. read_candidate false t end_at n)
              (sym (append_assoc pre (records_bytes rs) tail)) (passed_end rs)
            ∙ stops,
      )
