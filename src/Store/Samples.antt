-- ===== src/Store/Samples.antt =====
-- A record above the bound of the scan, for the tests.
use gitdb.Base.{ℕ, zero, suc, ◌*◌, ◌<◌, ◌≡◌, refl, ap, arith, [], ◌∷◌, length}
use gitdb.Base.Bytes.{Bytes, AreBytes}
use gitdb.Format.Payload.Samples.{stored_record, stored_record-IsRecord}
use gitdb.Format.Record.{ObjectRecord}
use gitdb.Format.Record.Layout.{IsMetadata, metadata_of}
use gitdb.Format.Record.RoundTrip.{IsRecord}
use gitdb.Store.{max_recovery_record_bytes}
use gitdb.Store.Scan.Candidate.{record_bytes, length-record_bytes}

unfoldable pub zeros : ℕ → Bytes
zeros zero = []
zeros (suc n) = 0 ∷ zeros n

pub length-zeros : (n : ℕ) → length (zeros n) ≡ n
unfolding zeros
length-zeros zero = refl
length-zeros (suc n) = ap suc (length-zeros n)

zeros-AreBytes : (n : ℕ) → AreBytes (zeros n)
unfolding zeros
zeros-AreBytes zero = tt
zeros-AreBytes (suc n) = (omega arith, zeros-AreBytes n)

-- A payload of 64 MiB
abbrev pub oversized_record : ObjectRecord
oversized_record = record stored_record { payload = zeros max_recovery_record_bytes }

oversized-IsMetadata :
    (n : ℕ) → n ≡ max_recovery_record_bytes → IsMetadata (metadata_of oversized_record n)
oversized-IsMetadata n same =
    let m = stored_record-IsRecord.metadata in
    record {
      flags_fits = m.flags_fits;
      raw_length_fits = m.raw_length_fits;
      stored_length_fits = omega (arith, same);
      content_size = m.content_size;
      content_AreBytes = m.content_AreBytes;
      oid_IsOid = m.oid_IsOid;
    }

pub oversized_record-IsRecord : IsRecord oversized_record
oversized_record-IsRecord = record {
  metadata = oversized-IsMetadata _ (length-zeros max_recovery_record_bytes);
  payload_AreBytes = zeros-AreBytes max_recovery_record_bytes;
  total_fits = omega (arith, length-zeros max_recovery_record_bytes);
}

-- The record's bytes are longer than the bound, and fewer than 2 ^ 30.
pub length-oversized_record :
    (max_recovery_record_bytes < length (record_bytes oversized_record))
    × (length (record_bytes oversized_record) < 1024 * 1024 * 1024)
length-oversized_record =
    let size = length-record_bytes oversized_record oversized_record-IsRecord in
    (
      omega (arith, size, length-zeros max_recovery_record_bytes),
      omega (arith, size, length-zeros max_recovery_record_bytes),
    )
