-- ===== src/Format/Payload/Samples.antt =====
-- A record whose payload verifies, for the tests.
use gitdb.Base.{◌≡◌, refl, arith, none, [], ◌∷◌, replicate}
use gitdb.Base.Bytes.{Bytes, be, are_bytes-AreBytes}
use gitdb.Base.Result.{ok}
use gitdb.Core.{kind_tag, oid_len, blob, sha1, GitOid}
use gitdb.Core.Hashing.{content_id_for_object, content_finalize, content_update, content_new}
use gitdb.Core.Laws.{IsOid, oid_of}
use gitdb.Core.Samples.{first_bytes}
use gitdb.Format.{raw}
use gitdb.Format.Payload.{ZstdRead, verify_object_record}
use gitdb.Format.Payload.Raw.{verify_raw_iff}
use gitdb.Format.Record.{ObjectRecord}
use gitdb.Format.Record.Layout.{IsMetadata, metadata_of}
use gitdb.Format.Record.RoundTrip.{IsRecord}

-- A decoder that reads each frame as its own bytes
abbrev pub plain_frame : Bytes → ZstdRead
plain_frame bytes = record { reads = bytes ∷ []; failure = none; behind = [] }

abbrev pub stored_oid : GitOid
stored_oid = oid_of sha1 (replicate 20 5)

stored_oid-IsOid : IsOid stored_oid
unfolding oid_len
stored_oid-IsOid = record {
  raw = replicate 20 5;
  raw_length = refl;
  made = refl;
  raw_AreBytes = are_bytes-AreBytes (replicate 20 5) refl;
}

abbrev pub stored_record : ObjectRecord
stored_record = record {
  kind = blob;
  codec = raw;
  flags = 0;
  raw_length = 2;
  content_id = content_id_for_object (first_bytes 32) blob (b'h' ∷ b'i' ∷ []);
  primary_oid = stored_oid;
  payload = b'h' ∷ b'i' ∷ [];
}

stored-IsMetadata : IsMetadata (metadata_of stored_record 2)
unfolding content_id_for_object content_finalize content_update content_new kind_tag be
stored-IsMetadata = record {
  flags_fits = omega arith;
  raw_length_fits = omega arith;
  stored_length_fits = omega arith;
  content_size = refl;
  content_AreBytes = are_bytes-AreBytes stored_record.content_id.content_bytes refl;
  oid_IsOid = stored_oid-IsOid;
}

pub stored_record-IsRecord : IsRecord stored_record
stored_record-IsRecord = record {
  metadata = stored-IsMetadata;
  payload_AreBytes = are_bytes-AreBytes (b'h' ∷ b'i' ∷ []) refl;
  total_fits = omega arith;
}

pub stored_record-verified : verify_object_record (first_bytes 32) plain_frame stored_record ≡ ok tt
stored_record-verified =
    (verify_raw_iff (first_bytes 32) plain_frame stored_record refl (omega arith)).1 (refl, refl)
