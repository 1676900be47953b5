-- ===== src/Codec/Unsubscribe.antt =====
-- UNSUBSCRIBE, crates/mqtt-packet/src/codec.rs, lines 603 to 671.
pub mod RoundTrip
use mqtt_async_embedded.Prelude.{ℕ, List, []}
use mqtt_async_embedded.Exec.{Result, Exec, pure, ◌>>=◌, ◌>>◌}
use mqtt_async_embedded.Wire.{Writer, put_slice, on_rest, when, to_be_bytes}
use mqtt_async_embedded.Fields.{read_utf8_string, write_utf8_string}
use mqtt_async_embedded.Types.{MqttVersion, Unsubscribe, capacity}
use mqtt_async_embedded.Properties.{write_properties}
use mqtt_async_embedded.Codec.Frame.{is_v5, encode_frame, decode_frame, read_u16, properties_if}
use mqtt_async_embedded.Codec.Batch.{write_batch, read_batch}

abbrev pub write_filter : List ℕ → Exec Writer (Unit {0})
write_filter topic = on_rest (write_utf8_string topic)

pub write_unsubscribe : MqttVersion → Unsubscribe → Exec Writer (Unit {0})
write_unsubscribe version p = do
  put_slice (to_be_bytes p.packet_id)
  when (is_v5 version) (write_properties p.properties)
  write_batch write_filter p.topics

pub encode_unsubscribe : MqttVersion → Unsubscribe → Exec (List ℕ) ℕ
encode_unsubscribe version p = encode_frame 0xa2 (write_unsubscribe version p)

pub read_unsubscribe : MqttVersion → List ℕ → ℕ → Exec ℕ Unsubscribe
read_unsubscribe version buf content_end = do
  packet_id ← read_u16 buf content_end
  properties ← properties_if (is_v5 version) buf content_end
  topics ← read_batch read_utf8_string capacity [] buf content_end
  pure (record { packet_id = packet_id; topics = topics; properties = properties })

pub decode_unsubscribe : MqttVersion → List ℕ → Result Unsubscribe
decode_unsubscribe version buf = decode_frame (read_unsubscribe version) buf
