-- ===== src/Codec/Publish.antt =====
-- PUBLISH, crates/mqtt-packet/src/codec.rs, lines 280 to 385.
pub mod RoundTrip
pub mod Overrun
use mqtt_async_embedded.Prelude.{
  ℕ, ◌+◌, ◌-◌, ◌*◌, ◌/◌, bit_and, bit_or, Bool, true, false, not, ◌&&◌, Option, none, some, List,
  [], ◌∷◌, length, leb, ◌==◌, if◌then◌else◌,
}
use mqtt_async_embedded.Exec.{
  Result, ok, err, panic, Exec, pure, get, ◌>>=◌, ◌>>◌, incomplete_packet,
}
use mqtt_async_embedded.Wire.{Writer, put_slice, on_rest, when, to_be_bytes}
use mqtt_async_embedded.Fields.{slice, read_utf8_string, write_utf8_string}
use mqtt_async_embedded.Types.{
  QoS, at_most_once, at_least_once, exactly_once, qos_from, qos_code, MqttVersion, Publish,
}
use mqtt_async_embedded.Properties.{write_properties}
use mqtt_async_embedded.Codec.Frame.{is_v5, encode_frame, decode_frame, read_u16, properties_if}

-- `qos != QoS::AtMostOnce`
abbrev pub needs_id : QoS → Bool
needs_id at_most_once = false
needs_id at_least_once = true
needs_id exactly_once = true

-- `self.packet_id.unwrap_or(1)`
abbrev pub id_or_one : Option ℕ → ℕ
id_or_one none = 1
id_or_one (some pid) = pid

-- The first byte of the encoder.
unfoldable pub publish_header : Bool → QoS → Bool → ℕ
publish_header dup qos retain =
    let flags₁ = if dup then bit_or 0x30 0x08 else 0x30 in
    let flags₂ = bit_or flags₁ (qos_code qos * 2) in if retain then bit_or flags₂ 0x01 else flags₂

pub write_publish : MqttVersion → Publish → Exec Writer (Unit {0})
write_publish version p = do
  on_rest (write_utf8_string p.topic)
  when (needs_id p.qos) (put_slice (to_be_bytes (id_or_one p.packet_id)))
  when (is_v5 version) (write_properties p.properties)
  put_slice p.payload

pub encode_publish : MqttVersion → Publish → Exec (List ℕ) ℕ
encode_publish version p =
    encode_frame (publish_header p.dup p.qos p.retain) (write_publish version p)

-- What the decoder reads off the first byte.
abbrev pub header_dup : ℕ → Bool
header_dup header = not (bit_and header 0x08 == 0)

abbrev pub header_qos : ℕ → QoS
header_qos header = qos_from (bit_and (header / 2) 0x03)

abbrev pub header_retain : ℕ → Bool
header_retain header = not (bit_and header 0x01 == 0)

pub read_packet_id : Bool → List ℕ → ℕ → Exec ℕ (Option ℕ)
read_packet_id true buf content_end = do pid ← read_u16 buf content_end; pure (some pid)
read_packet_id false buf content_end = pure none

-- `&buf[cursor..content_end]`, which panics where the cursor has passed the end of the content.
pub read_payload : List ℕ → ℕ → Exec ℕ (List ℕ)
read_payload buf content_end cursor =
    if leb cursor content_end && leb content_end (length buf)
    then (ok (slice cursor (content_end - cursor) buf), cursor)
    else (panic, cursor)

-- The decoder behind the first byte, which gave `dup`, `qos` and `retain`.
pub read_publish : MqttVersion → Bool → QoS → Bool → List ℕ → ℕ → Exec ℕ Publish
read_publish version dup qos retain buf content_end = do
  topic ← read_utf8_string buf
  packet_id ← read_packet_id (needs_id qos) buf content_end
  properties ← properties_if (is_v5 version) buf content_end
  payload ← read_payload buf content_end
  pure (record {
    dup = dup;
    qos = qos;
    retain = retain;
    topic = topic;
    packet_id = packet_id;
    payload = payload;
    properties = properties;
  })

pub decode_publish : MqttVersion → List ℕ → Result Publish
decode_publish version [] = err incomplete_packet
decode_publish version (header ∷ bytes) =
    decode_frame
      (read_publish version (header_dup header) (header_qos header) (header_retain header))
      (header ∷ bytes)
