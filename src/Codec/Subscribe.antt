-- ===== src/Codec/Subscribe.antt =====
-- SUBSCRIBE, crates/mqtt-packet/src/codec.rs, lines 459 to 532.
pub mod RoundTrip
use mqtt_async_embedded.Prelude.{ℕ, List, []}
use mqtt_async_embedded.Exec.{Result, Exec, pure, ◌>>=◌, ◌>>◌}
use mqtt_async_embedded.Wire.{Writer, put_byte, put_slice, on_rest, when, to_be_bytes, get_byte}
use mqtt_async_embedded.Fields.{read_utf8_string, write_utf8_string}
use mqtt_async_embedded.Types.{QoS, qos_from, qos_code, MqttVersion, Subscribe, capacity}
use mqtt_async_embedded.Properties.{write_properties}
use mqtt_async_embedded.Codec.Frame.{is_v5, encode_frame, decode_frame, read_u16, properties_if}
use mqtt_async_embedded.Codec.Batch.{write_batch, read_batch}

-- The body of `for (topic, qos) in &self.topics`.
pub write_topic : List ℕ × QoS → Exec Writer (Unit {0})
write_topic (topic, qos) = on_rest (write_utf8_string topic) >> put_byte (qos_code qos)

pub write_subscribe : MqttVersion → Subscribe → Exec Writer (Unit {0})
write_subscribe version p = do
  put_slice (to_be_bytes p.packet_id)
  when (is_v5 version) (write_properties p.properties)
  write_batch write_topic p.topics

pub encode_subscribe : MqttVersion → Subscribe → Exec (List ℕ) ℕ
encode_subscribe version p = encode_frame 0x82 (write_subscribe version p)

-- The body of the decoder's `while` loop, up to the `push`.
pub read_topic : List ℕ → Exec ℕ (List ℕ × QoS)
read_topic buf = do
  topic ← read_utf8_string buf
  qos_byte ← get_byte buf
  pure (topic, qos_from qos_byte)

pub read_subscribe : MqttVersion → List ℕ → ℕ → Exec ℕ Subscribe
read_subscribe version buf content_end = do
  packet_id ← read_u16 buf content_end
  properties ← properties_if (is_v5 version) buf content_end
  topics ← read_batch read_topic capacity [] buf content_end
  pure (record { packet_id = packet_id; topics = topics; properties = properties })

pub decode_subscribe : MqttVersion → List ℕ → Result Subscribe
decode_subscribe version buf = decode_frame (read_subscribe version) buf
