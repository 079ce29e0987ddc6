-- ===== src/Index/Encoding/Tests.antt =====
-- Runs of the key and generation theorems on samples.
use gitdb.Base.{◌<◌, ◌^◌, ◌≡◌, ◌≢◌, ◌↔◌, refl, [], ◌∷◌, length, replicate}
use gitdb.Base.Bytes.{Bytes, are_bytes-AreBytes}
use gitdb.Base.Result.{ok, panic}
use gitdb.Index.{WorkspaceId, GcPinId}
use gitdb.Index.Encoding.Keys.{
  encode_workspace_key, decode_workspace_key, encode_gc_pin_key, decode_gc_pin_key,
  encode_current_generation_value, decode_current_generation_value,
}
use gitdb.Index.Encoding.Keys.Laws.{decode_current_generation_value_iff, pin_keys_lem}

abbrev generation_bytes : Bytes
generation_bytes = 1 ∷ 0 ∷ 0 ∷ 1 ∷ 2 ∷ []

decode_current_generation_value_iff_example :
    (decode_current_generation_value generation_bytes ≢ panic)
    × ((decode_current_generation_value generation_bytes ≡ ok 258)
        ↔ ((generation_bytes ≡ encode_current_generation_value 258) × (258 < 256 ^ 4)))
decode_current_generation_value_iff_example =
    decode_current_generation_value_iff generation_bytes 258
      (are_bytes-AreBytes generation_bytes refl)

abbrev pin_key : Bytes
pin_key = 1 ∷ 1 ∷ replicate 16 6

pin_keys_lem_example :
    (decode_workspace_key pin_key ≢ panic)
    × (decode_gc_pin_key pin_key ≢ panic)
    × ((id : WorkspaceId) (pin : GcPinId)
        → decode_workspace_key pin_key ≡ ok id
        → decode_gc_pin_key pin_key ≢ ok pin)
    × ((id : WorkspaceId)
        → decode_workspace_key pin_key ≡ ok id
        → (pin_key ≡ encode_workspace_key id) × (length id ≡ 16))
    × ((pin : GcPinId)
        → decode_gc_pin_key pin_key ≡ ok pin
        → (pin_key ≡ encode_gc_pin_key pin) × (length pin ≡ 16))
pin_keys_lem_example = pin_keys_lem pin_key
