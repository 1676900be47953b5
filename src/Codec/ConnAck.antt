-- ===== src/Codec/ConnAck.antt =====
-- CONNACK, crates/mqtt-packet/src/codec.rs, lines 224 to 278.
pub mod RoundTrip
use mqtt_async_embedded.Prelude.{ℕ, ◌+◌, bit_and, Bool, not, List, ltb, ◌==◌, if◌then◌else◌}
use mqtt_async_embedded.Exec.{Result, Exec, pure, get, fail_if, ◌>>=◌, ◌>>◌, incomplete_packet}
use mqtt_async_embedded.Wire.{Writer, put_byte, when, index_byte}
use mqtt_async_embedded.Types.{MqttVersion, ConnAck}
use mqtt_async_embedded.Properties.{write_properties}
use mqtt_async_embedded.Codec.Frame.{is_v5, encode_frame, decode_frame, properties_if}

-- `if self.session_present { 0x01 } else { 0x00 }`
abbrev pub ack_flags : Bool → ℕ
ack_flags session_present = if session_present then 0x01 else 0x00

pub write_conn_ack : MqttVersion → ConnAck → Exec Writer (Unit {0})
write_conn_ack version p = do
  put_byte (ack_flags p.session_present)
  put_byte p.reason_code
  when (is_v5 version) (write_properties p.properties)

pub encode_conn_ack : MqttVersion → ConnAck → Exec (List ℕ) ℕ
encode_conn_ack version p = encode_frame 0x20 (write_conn_ack version p)

-- `if cursor + 2 > content_end { return Err(IncompletePacket) }`, then the first of two bytes
pub read_first_of_two : List ℕ → ℕ → Exec ℕ ℕ
read_first_of_two buf content_end = do
  cursor ← get
  fail_if (ltb content_end (cursor + 2)) incomplete_packet
  index_byte buf

pub read_conn_ack : MqttVersion → List ℕ → ℕ → Exec ℕ ConnAck
read_conn_ack version buf content_end = do
  flags ← read_first_of_two buf content_end
  reason_code ← index_byte buf
  properties ← properties_if (is_v5 version) buf content_end
  pure (record {
    session_present = not (bit_and flags 0x01 == 0);
    reason_code = reason_code;
    properties = properties;
  })

pub decode_conn_ack : MqttVersion → List ℕ → Result ConnAck
decode_conn_ack version buf = decode_frame (read_conn_ack version) buf
