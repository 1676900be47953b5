-- ===== src/Codec/SubReply.antt =====
-- SUBACK and UNSUBACK, crates/mqtt-packet/src/codec.rs, lines 534 to 601 and 673 to 740: the same
-- statements but for the first byte.
pub mod RoundTrip
use mqtt_async_embedded.Prelude.{ℕ, List, []}
use mqtt_async_embedded.Exec.{Result, Exec, pure, ◌>>=◌, ◌>>◌}
use mqtt_async_embedded.Wire.{Writer, put_byte, put_slice, when, to_be_bytes, get_byte}
use mqtt_async_embedded.Types.{MqttVersion, SubKind, sub_ack, unsub_ack, SubReply, capacity}
use mqtt_async_embedded.Properties.{write_properties}
use mqtt_async_embedded.Codec.Frame.{is_v5, encode_frame, decode_frame, read_u16, properties_if}
use mqtt_async_embedded.Codec.Batch.{write_batch, read_batch}

abbrev pub reply_byte : SubKind → ℕ
reply_byte sub_ack = 0x90
reply_byte unsub_ack = 0xb0

pub write_sub_reply : MqttVersion → SubReply → Exec Writer (Unit {0})
write_sub_reply version p = do
  put_slice (to_be_bytes p.packet_id)
  when (is_v5 version) (write_properties p.properties)
  write_batch put_byte p.reason_codes

pub encode_sub_reply : SubKind → MqttVersion → SubReply → Exec (List ℕ) ℕ
encode_sub_reply kind version p = encode_frame (reply_byte kind) (write_sub_reply version p)

pub read_sub_reply : MqttVersion → List ℕ → ℕ → Exec ℕ SubReply
read_sub_reply version buf content_end = do
  packet_id ← read_u16 buf content_end
  properties ← properties_if (is_v5 version) buf content_end
  reason_codes ← read_batch get_byte capacity [] buf content_end
  pure (record { packet_id = packet_id; reason_codes = reason_codes; properties = properties })

pub decode_sub_reply : MqttVersion → List ℕ → Result SubReply
decode_sub_reply version buf = decode_frame (read_sub_reply version) buf
