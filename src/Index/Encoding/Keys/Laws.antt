-- ===== src/Index/Encoding/Keys/Laws.antt =====
-- Keys and generations of the catalog: round trips, and that pin keys of the two kinds are told
-- apart.
use gitdb.Base.{
  ℕ, ◌<◌, ◌^◌, ◌≡◌, ◌≢◌, ◌↔◌, refl, ap, ◌∙◌, arith, false, not, [], ◌∷◌, append-nil, ◌==◌, ==_iff,
  length,
}
use gitdb.Base.Bytes.{
  Bytes, AreBytes, be, from_be-be, slice, length-slice, read_be, byte_at, put_at,
}
use gitdb.Base.Cuts.{slice-drop, read_be-drop, byte_at-drop}
use gitdb.Base.Ensures.{
  Ensures, returns, Ensures-ok, Ensures-ne-panic, ensure_step, ensure_reject, ensure_read,
  ensure_byte, ensure_slice,
}
use gitdb.Base.Result.{ok, panic}
use gitdb.Index.{CatalogError, invalid_encoding, WorkspaceId, GcPinId}
use gitdb.Index.Encoding.{check_version}
use gitdb.Index.Encoding.Location.{check_version-IsSafe, check_version-eq_ok, drop_all}
use gitdb.Index.Encoding.Keys.{
  encode_workspace_key, decode_workspace_key, encode_gc_pin_key, decode_gc_pin_key,
  encode_opaque_key, decode_opaque_key, encode_current_generation_value,
  decode_current_generation_value,
}

-- Opaque keys, of any length: decoding accepts exactly the encodings, and does not panic.
pub decode_opaque_key_iff :
    (input key : Bytes)
    → (decode_opaque_key input ≢ panic)
      × ((decode_opaque_key input ≡ ok key) ↔ (input ≡ encode_opaque_key key))
unfolding decode_opaque_key encode_opaque_key check_version
decode_opaque_key_iff [] key = (λ h. cc, (λ h. cc, λ h. cc))
decode_opaque_key_iff (version ∷ value) key =
    (λ h. ground arith, (λ h. ground arith, λ h. ground arith))

record AcceptedValue (input : Bytes) (g : ℕ) : Type 0 where
  size : length input ≡ 5
  version : ℕ
  version_read : byte_at {E = CatalogError} input 0 ≡ ok version
  version_ok : check_version version ≡ ok tt
  generation : read_be {E = CatalogError} 4 input 1 ≡ ok g

value-Ensures :
    (input : Bytes) → Ensures (AcceptedValue input) (decode_current_generation_value input)
unfolding decode_current_generation_value
value-Ensures input = ensure_reject (not (length input == 5)) invalid_encoding λ sized.
    let size : length input ≡ 5 = ground arith in
    ensure_byte input 0 (omega arith) λ version version_read.
      ensure_step _ (check_version-IsSafe version) λ _ version_ok.
        ensure_read 4 input 1 (omega arith) λ g e1. returns _ (record {
          size = size;
          version = version;
          version_read = version_read;
          version_ok = version_ok;
          generation = e1;
        })

value_written :
    (g : ℕ)
    → g < 256 ^ 4
    → decode_current_generation_value (encode_current_generation_value g) ≡ ok g
unfolding encode_current_generation_value decode_current_generation_value slice byte_at put_at be
    check_version
value_written g h = rw (from_be-be 4 g h)

-- On any bytes, decoding a generation value does not panic, and it returns `g` exactly when the
-- bytes are the encoding of `g` and `g` fits 32 bits.
pub decode_current_generation_value_iff :
    (input : Bytes) (g : ℕ)
    → AreBytes input
    → (decode_current_generation_value input ≢ panic)
      × ((decode_current_generation_value input ≡ ok g)
          ↔ ((input ≡ encode_current_generation_value g) × (g < 256 ^ 4)))
unfolding encode_current_generation_value
decode_current_generation_value_iff input g bytes_in =
    (Ensures-ne-panic (value-Ensures input), (forth, back))
  where
    forth :
        decode_current_generation_value input ≡ ok g
        → (input ≡ encode_current_generation_value g) × (g < 256 ^ 4)
    forth e =
        let a = Ensures-ok g (value-Ensures input) e in
        let read = read_be-drop 4 input 1 bytes_in a.generation in
        (
          cc (
            byte_at-drop input 0 a.version_read,
            check_version-eq_ok a.version a.version_ok,
            read.0,
            drop_all 5 input a.size,
          ),
          read.1,
        )

    back :
        (input ≡ encode_current_generation_value g) × (g < 256 ^ 4)
        → decode_current_generation_value input ≡ ok g
    back (same, fits) = ap decode_current_generation_value same ∙ value_written g fits

record AcceptedPin (input : Bytes) (id : GcPinId) : Type 0 where
  size : length input ≡ 18
  version : ℕ
  version_read : byte_at {E = CatalogError} input 0 ≡ ok version
  version_ok : check_version version ≡ ok tt
  tag : ℕ
  tag_read : byte_at {E = CatalogError} input 1 ≡ ok tag
  tag_ok : not (tag == 1) ≡ false
  cut : slice {E = CatalogError} input 2 (length input) ≡ ok id

pin-Ensures : (input : Bytes) → Ensures (AcceptedPin input) (decode_gc_pin_key input)
unfolding decode_gc_pin_key
pin-Ensures input = ensure_reject (not (length input == 18)) invalid_encoding λ sized.
    let size : length input ≡ 18 = ground arith in
    ensure_byte input 0 (omega arith) λ version version_read.
      ensure_step _ (check_version-IsSafe version) λ _ version_ok.
        ensure_byte input 1 (omega arith) λ tag tag_read.
          ensure_reject (not (tag == 1)) invalid_encoding λ tag_ok.
            ensure_slice input 2 (length input) (omega arith) (omega arith) λ id cut.
              returns _ (record {
                size = size;
                version = version;
                version_read = version_read;
                version_ok = version_ok;
                tag = tag;
                tag_read = tag_read;
                tag_ok = tag_ok;
                cut = cut;
              })

record AcceptedId (input : Bytes) (id : WorkspaceId) : Type 0 where
  size : length input ≡ 17
  version : ℕ
  version_read : byte_at {E = CatalogError} input 0 ≡ ok version
  version_ok : check_version version ≡ ok tt
  cut : slice {E = CatalogError} input 1 (length input) ≡ ok id

id-Ensures : (input : Bytes) → Ensures (AcceptedId input) (decode_workspace_key input)
unfolding decode_workspace_key
id-Ensures input = ensure_reject (not (length input == 17)) invalid_encoding λ sized.
    let size : length input ≡ 17 = ground arith in
    ensure_byte input 0 (omega arith) λ version version_read.
      ensure_step _ (check_version-IsSafe version) λ _ version_ok.
        ensure_slice input 1 (length input) (omega arith) (omega arith) λ id cut.
          returns _ (record {
            size = size;
            version = version;
            version_read = version_read;
            version_ok = version_ok;
            cut = cut;
          })

id_written : (id : WorkspaceId) → length id ≡ 16 → encode_workspace_key id ≡ 1 ∷ id
unfolding encode_workspace_key
id_written id h = rw h (ap (λ t. 1 ∷ t) (append-nil id))

pin_written : (pin : GcPinId) → length pin ≡ 16 → encode_gc_pin_key pin ≡ 1 ∷ 1 ∷ pin
unfolding encode_gc_pin_key
pin_written pin h = rw h (ap (λ t. 1 ∷ 1 ∷ t) (append-nil pin))

module _ {input : Bytes} {id : WorkspaceId} (a : AcceptedId input id) where
  id_size : length id ≡ 16
  id_size = omega (arith, length-slice input 1 (length input) a.cut, a.size)

  id_encoded : input ≡ encode_workspace_key id
  id_encoded = cc (
    byte_at-drop input 0 a.version_read,
    check_version-eq_ok a.version a.version_ok,
    slice-drop input 1 (length input) a.cut,
    drop_all (length input) input refl,
    append-nil id,
    id_written id id_size,
  )

module _ {input : Bytes} {pin : GcPinId} (a : AcceptedPin input pin) where
  pin_size : length pin ≡ 16
  pin_size = omega (arith, length-slice input 2 (length input) a.cut, a.size)

  pin_encoded : input ≡ encode_gc_pin_key pin
  pin_encoded = cc (
    byte_at-drop input 0 a.version_read,
    check_version-eq_ok a.version a.version_ok,
    byte_at-drop input 1 a.tag_read,
    (==_iff a.tag 1).0 (ground (arith, a.tag_ok)),
    slice-drop input 2 (length input) a.cut,
    drop_all (length input) input refl,
    append-nil pin,
    pin_written pin pin_size,
  )

-- Both kinds of key stand in the `pins` family. No bytes decode both as the key of a workspace's
-- pin and as the key of an explicit pin, what decodes is the encoding of the ID, and neither
-- decoder panics.
pub pin_keys_lem :
    (input : Bytes)
    → (decode_workspace_key input ≢ panic)
      × (decode_gc_pin_key input ≢ panic)
      × ((id : WorkspaceId) (pin : GcPinId)
          → decode_workspace_key input ≡ ok id
          → decode_gc_pin_key input ≢ ok pin)
      × ((id : WorkspaceId)
          → decode_workspace_key input ≡ ok id
          → (input ≡ encode_workspace_key id) × (length id ≡ 16))
      × ((pin : GcPinId)
          → decode_gc_pin_key input ≡ ok pin
          → (input ≡ encode_gc_pin_key pin) × (length pin ≡ 16))
pin_keys_lem input = (
  Ensures-ne-panic (id-Ensures input),
  Ensures-ne-panic (pin-Ensures input),
  (λ id pin h k.
      let a = Ensures-ok id (id-Ensures input) h in
      let b = Ensures-ok pin (pin-Ensures input) k in omega (arith, a.size, b.size)),
  (λ id h. let a = Ensures-ok id (id-Ensures input) h in (id_encoded a, id_size a)),
  (λ pin h. let a = Ensures-ok pin (pin-Ensures input) h in (pin_encoded a, pin_size a)),
)
