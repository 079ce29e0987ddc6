-- ===== src/Format/Payload/Raw.antt =====
-- Raw payloads: verification against the one-shot content ID, however the payload is read.
use gitdb.Base.{
  ℕ, zero, suc, ◌+◌, ◌^◌, ◌≤◌, ◌<◌, ◌≡◌, ◌↔◌, refl, sym, ap, ◌∙◌, arith, none, List, [], ◌∷◌, ◌++◌,
  append-nil, append_assoc, length, length-append, length-drop, take, drop, take-append-drop, All,
  ◌==◌, true,
}
use gitdb.Base.Bytes.{Bytes, bytes_eq_refl}
use gitdb.Base.Result.{Result, panic, ok, err, >>=-eq-ok}
use gitdb.Core.{ObjectKind, ContentId}
use gitdb.Core.Hashing.{
  Digest, content_new, content_update, content_finalize, content_id_for_object,
}
use gitdb.Core.Streaming.{joined}
use gitdb.Format.{raw, checked_add}
use gitdb.Format.Record.{ObjectRecord}
use gitdb.Format.Payload.{
  IoError, CodecError, after_write, ZstdRead, Validating, new_validating, write, finish,
  copy_decoded, copy_payload, cursor_reads, codec_stream_buffer_bytes,
  decode_object_payload_to_writer, decode_record_payload, verify_object_record,
}
use gitdb.Format.Payload.Validated.{decode_to_writer_ok}

abbrev NonEmpty : Bytes → Type 0
NonEmpty bytes = 0 < length bytes

-- A reader's successive results, none of them empty, that make up `payload`.
abbrev pub Reads : List Bytes → Bytes → Type 0
Reads reads payload = All NonEmpty reads × (joined reads ≡ payload)

cursor_reads-Reads :
    (size fuel : ℕ) (payload : Bytes)
    → 0 < size
    → length payload ≤ fuel
    → Reads (cursor_reads size fuel payload) payload
unfolding cursor_reads
cursor_reads-Reads size zero [] pos enough = (tt, refl)
cursor_reads-Reads size zero (b ∷ bytes) pos enough = absurd (omega arith)
cursor_reads-Reads size (suc fuel) [] pos enough = (tt, refl)
cursor_reads-Reads zero (suc fuel) (b ∷ bytes) pos enough = absurd (omega arith)
cursor_reads-Reads (suc size) (suc fuel) (b ∷ bytes) pos enough =
    let (full, whole) =
      cursor_reads-Reads (suc size) fuel (drop size bytes) pos
        (omega (arith, length-drop size bytes)) in
    (
      (omega arith, full),
      ap (λ t. b ∷ (take size bytes ++ t)) whole ∙ ap (◌∷◌ b) (take-append-drop size bytes),
    )

module _ (sha256_digest : Digest) where
  -- The writer after it has taken `bytes`.
  abbrev taken : Validating sha256_digest → Bytes → Validating sha256_digest
  taken w bytes = record w {
    output = w.output ++ bytes;
    written = w.written + length bytes;
    hasher = content_update sha256_digest w.hasher bytes;
  }

  write-taken :
      (w : Validating sha256_digest) (bytes : Bytes)
      → w.written + length bytes ≤ w.expected_length
      → w.expected_length < 2 ^ 64
      → write sha256_digest w bytes ≡ (taken w bytes, ok (length bytes))
  unfolding write checked_add
  write-taken w bytes fits small = ground arith

  taken-append :
      (w : Validating sha256_digest) (xs ys : Bytes) → taken (taken w xs) ys ≡ taken w (xs ++ ys)
  unfolding content_update
  taken-append w xs ys = ground (
    arith,
    append_assoc w.output xs ys,
    length-append xs ys,
    sha256_digest.update_append w.hasher xs ys,
  )

  taken-nil : (w : Validating sha256_digest) → w ≡ taken w []
  unfolding content_update
  taken-nil w = ground (arith, append-nil w.output, sha256_digest.update_nil w.hasher)

  copy-taken :
      (reads : List Bytes) (w : Validating sha256_digest)
      → All NonEmpty reads
      → w.written + length (joined reads) ≤ w.expected_length
      → w.expected_length < 2 ^ 64
      → copy_decoded sha256_digest reads none w ≡ (taken w (joined reads), ok tt)
  unfolding copy_decoded
  copy-taken [] w full fits small = ap (λ t. (t, ok tt)) (taken-nil w)
  copy-taken ([] ∷ reads) w full fits small = absurd (omega (arith, full.0))
  copy-taken ((b ∷ bytes) ∷ reads) w full fits small =
      let sizes : length (b ∷ bytes ++ joined reads) ≡ length (b ∷ bytes) + length (joined reads) =
        length-append (b ∷ bytes) (joined reads) in
      rw (write-taken w (b ∷ bytes) (omega (arith, sizes)) small) (
        copy-taken reads (taken w (b ∷ bytes)) full.1 (omega (arith, sizes)) small
        ∙ ap (λ t. (t, ok tt)) (taken-append w (b ∷ bytes) (joined reads)))

  written-taken :
      (w : Validating sha256_digest) (bytes : Bytes) {count : ℕ}
      → (write sha256_digest w bytes).1 ≡ ok count
      → (write sha256_digest w bytes).0 ≡ taken w bytes
  unfolding write checked_add
  written-taken w bytes e = ground arith

  after_write-ok :
      (w w' : Validating sha256_digest) (done : Result IoError ℕ)
      (next : Validating sha256_digest × Result CodecError (Unit {0}))
      → after_write sha256_digest w done next ≡ (w', ok tt)
      → (count : ℕ) × (done ≡ ok count) × (next ≡ (w', ok tt))
  after_write-ok w w' panic next e = absurd (cc)
  after_write-ok w w' (err f) next e = absurd (cc)
  after_write-ok w w' (ok count) next e = (count, refl, e)

  copied-taken :
      (reads : List Bytes) (w w' : Validating sha256_digest)
      → All NonEmpty reads
      → copy_decoded sha256_digest reads none w ≡ (w', ok tt)
      → w' ≡ taken w (joined reads)
  unfolding copy_decoded
  copied-taken [] w w' full e = ap (λ p. p.0) (sym e) ∙ taken-nil w
  copied-taken ([] ∷ reads) w w' full e = absurd (omega (arith, full.0))
  copied-taken ((b ∷ bytes) ∷ reads) w w' full e =
      let (count, wrote, rest) = after_write-ok _ w' _ _ e in
      copied-taken reads _ w' full.1 rest
      ∙ ap (λ t. taken t (joined reads)) (written-taken w (b ∷ bytes) wrote)
      ∙ taken-append w (b ∷ bytes) (joined reads)

  finish-taken :
      (kind : ObjectKind) (raw_length : ℕ) (expected : ContentId) (payload : Bytes)
      → length payload ≡ raw_length
      → content_id_for_object sha256_digest kind payload ≡ expected
      → finish sha256_digest (taken (new_validating sha256_digest kind raw_length) payload) expected
        ≡ ok tt
  unfolding finish new_validating content_id_for_object content_finalize
  finish-taken kind n expected payload size same =
      let ids : sha256_digest.finalize
            (content_update sha256_digest (content_new sha256_digest kind n) payload)
          ≡ expected.content_bytes =
        ground (arith, ap (λ c. c.content_bytes) same, size) in
      let counted : (0 + length payload == n) ≡ true = ground (arith, size) in
      rw (counted, ids, bytes_eq_refl expected.content_bytes)

module _ (sha256_digest : Digest) (read_frame : Bytes → ZstdRead) (kind : ObjectKind) where
  -- However a raw payload is cut into reads: decoding succeeds with `output` exactly when that is
  -- the whole payload, its length is the declared one, and the declared content ID is the one-shot
  -- ID of the payload.
  pub decode_raw_iff :
      (raw_length : ℕ) (expected : ContentId) (source : List Bytes) (payload output : Bytes)
      → raw_length < 2 ^ 64
      → Reads source payload
      → (decode_object_payload_to_writer sha256_digest read_frame kind raw raw_length expected
            source
          ≡ (output, ok tt))
        ↔ ((output ≡ payload)
            × (length payload ≡ raw_length)
            × (content_id_for_object sha256_digest kind payload ≡ expected))
  unfolding decode_object_payload_to_writer copy_payload new_validating
  decode_raw_iff n expected source payload output small (full, whole) = (forth, back)
    where
      w₀ : Validating sha256_digest
      w₀ = new_validating sha256_digest kind n

      forth :
          decode_object_payload_to_writer sha256_digest read_frame kind raw n expected source
            ≡ (output, ok tt)
          → (output ≡ payload)
            × (length payload ≡ n)
            × (content_id_for_object sha256_digest kind payload ≡ expected)
      forth e =
          let (tt, copied, finished) =
            >>=-eq-ok (copy_decoded sha256_digest source none w₀).1 _ (ap (λ p. p.1) e) in
          let last : (copy_decoded sha256_digest source none w₀).0
              ≡ taken sha256_digest w₀ (joined source) =
            copied-taken sha256_digest source w₀ _ full
              (ap (λ d. ((copy_decoded sha256_digest source none w₀).0, d)) copied) in
          let out : output ≡ payload = ap (λ p. p.0) (sym e) ∙ ap (λ w. w.output) last ∙ whole in
          let (size, same) =
            decode_to_writer_ok sha256_digest read_frame kind raw n expected source output e in
          (
            out,
            ap length (sym out) ∙ size,
            ap (content_id_for_object sha256_digest kind) (sym out) ∙ same,
          )

      back :
          (output ≡ payload)
            × (length payload ≡ n)
            × (content_id_for_object sha256_digest kind payload ≡ expected)
          → decode_object_payload_to_writer sha256_digest read_frame kind raw n expected source
            ≡ (output, ok tt)
      back (out, size, same) =
          let copied : copy_decoded sha256_digest source none w₀
              ≡ (taken sha256_digest w₀ payload, ok tt) =
            copy-taken sha256_digest source w₀ full (omega (arith, ap length whole, size)) small
            ∙ ap (λ t. (taken sha256_digest w₀ t, ok tt)) whole in
          rw (copied, finish-taken sha256_digest kind n expected payload size same)
            (ap (λ t. (t, ok tt)) (sym out))

module _ (sha256_digest : Digest) (read_frame : Bytes → ZstdRead) where
  -- A record stored with the raw codec verifies exactly when its payload has the declared length
  -- and the declared content ID.
  pub verify_raw_iff :
      (r : ObjectRecord)
      → r.codec ≡ raw
      → r.raw_length < 2 ^ 64
      → (verify_object_record sha256_digest read_frame r ≡ ok tt) ↔ (
          (length r.payload ≡ r.raw_length)
          × (content_id_for_object sha256_digest r.kind r.payload ≡ r.content_id))
  unfolding verify_object_record decode_record_payload
  verify_raw_iff r is_raw small = rw is_raw (
      (
        λ e. let (_, size, same) = (iff decoded.0).0 (ap (λ t. (decoded.0, t)) e) in (size, same),
        λ facts. ap (λ p. p.1) ((iff r.payload).1 (refl, facts.0, facts.1)),
      ))
    where
      reads : List Bytes
      reads = cursor_reads codec_stream_buffer_bytes (length r.payload) r.payload

      decoded : Bytes × Result CodecError (Unit {0})
      decoded =
          decode_object_payload_to_writer sha256_digest read_frame r.kind raw r.raw_length
            r.content_id reads

      iff :
          (output : Bytes)
          → (decoded ≡ (output, ok tt)) ↔ (
              (output ≡ r.payload)
              × (length r.payload ≡ r.raw_length)
              × (content_id_for_object sha256_digest r.kind r.payload ≡ r.content_id))
      iff output =
          decode_raw_iff sha256_digest read_frame r.kind r.raw_length r.content_id reads r.payload
            output small
            (cursor_reads-Reads codec_stream_buffer_bytes (length r.payload) r.payload (omega arith)
              (omega arith))
