-- ===== src/Codec/Ack.antt =====
-- PUBACK, PUBREC, PUBREL and PUBCOMP, crates/mqtt-packet/src/codec.rs, lines 387 to 457: one macro
-- for the four packets, whose argument is the first byte.
pub mod RoundTrip
use mqtt_async_embedded.Prelude.{
  ℕ, ◌+◌, Bool, true, false, not, ◌&&◌, ◌||◌, List, [], ◌∷◌, ltb, ◌==◌, if◌then◌else◌,
}
use mqtt_async_embedded.Exec.{Result, ok, Exec, pure, ◌>>=◌, ◌>>◌}
use mqtt_async_embedded.Wire.{Writer, put_byte, put_slice, when, to_be_bytes, get_byte}
use mqtt_async_embedded.Types.{
  MqttVersion, Property, AckKind, pub_ack, pub_rec, pub_rel, pub_comp, Ack,
}
use mqtt_async_embedded.Properties.{write_properties}
use mqtt_async_embedded.Codec.Frame.{is_v5, encode_frame, decode_frame, read_u16, properties_if}

-- The second argument of `impl_ack_packet!`.
abbrev pub ack_byte : AckKind → ℕ
ack_byte pub_ack = 0x40
ack_byte pub_rec = 0x50
ack_byte pub_rel = 0x62
ack_byte pub_comp = 0x70

-- `!self.properties.is_empty() || self.reason_code != 0`
abbrev pub has_reason : ℕ → List Property → Bool
has_reason reason [] = not (reason == 0)
has_reason reason (p ∷ ps) = true

-- The reason code and the properties, which PUBACK and its kin and DISCONNECT write alike.
unfoldable pub write_reason : ℕ → List Property → Exec Writer (Unit {0})
write_reason reason properties = put_byte reason >> write_properties properties

pub write_ack : MqttVersion → Ack → Exec Writer (Unit {0})
write_ack version p = do
  put_slice (to_be_bytes p.packet_id)
  when (is_v5 version && has_reason p.reason_code p.properties)
      (write_reason p.reason_code p.properties)

pub encode_ack : AckKind → MqttVersion → Ack → Exec (List ℕ) ℕ
encode_ack kind version p = encode_frame (ack_byte kind) (write_ack version p)

-- `if version == V5 && cursor < content_end { … }`, from `reason_code = 0` and no properties
pub read_reason : Bool → List ℕ → ℕ → Exec ℕ (ℕ × List Property)
read_reason has buf content_end cursor =
    if has && ltb cursor content_end
    then (do
      reason_code ← get_byte buf
      properties ← properties_if true buf content_end
      pure (reason_code, properties))
        cursor
    else (ok (0, []), cursor)

pub read_ack : MqttVersion → List ℕ → ℕ → Exec ℕ Ack
read_ack version buf content_end = do
  packet_id ← read_u16 buf content_end
  (reason_code, properties) ← read_reason (is_v5 version) buf content_end
  pure (record { packet_id = packet_id; reason_code = reason_code; properties = properties })

pub decode_ack : MqttVersion → List ℕ → Result Ack
decode_ack version buf = decode_frame (read_ack version) buf
