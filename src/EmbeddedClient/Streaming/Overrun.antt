-- ===== src/EmbeddedClient/Streaming/Overrun.antt =====
-- The 256 bytes of the variable header of a streamed message, where the topic leaves no room.
use mqtt_async_embedded.Prelude.{
  ℕ, ◌+◌, ◌%◌, ◌≤◌, ◌<◌, ◌≡◌, refl, true, some, List, ◌++◌, length, drop, replicate, length-append,
  length-drop, le→ltb, lt→ltb, arith,
}
use mqtt_async_embedded.Exec.{ok, panic}
use mqtt_async_embedded.Wire.{to_be_bytes}
use mqtt_async_embedded.Fields.{write_utf8_string}
use mqtt_async_embedded.Varint.Encoding.{usize_limit}
use mqtt_async_embedded.Types.{QoS, MqttVersion}
use mqtt_async_embedded.EmbeddedClient.{
  Platform, done, panics, MqttClient, send_bytes, packet_id_for, is_connected,
}
use mqtt_async_embedded.EmbeddedClient.Calls.{version_of}
use mqtt_async_embedded.EmbeddedClient.Streaming.{
  fixed_header, put_id, and_then, variable_header, variable_header_len, begin_stream_publish,
}

-- What `write_utf8_string` leaves of the 256 bytes.
topic_written :
    (topic : List ℕ)
    → length topic ≤ 254
    → (buf : List ℕ) × (write_utf8_string topic (replicate 256 0) ≡ (ok (2 + length topic), buf))
      × (length buf ≡ 256)
unfolding write_utf8_string
topic_written topic h =
    let short = le→ltb 65535 (length topic) (omega arith) in
    let room = le→ltb 256 (2 + length topic) (omega arith) in
    let rest : List ℕ = drop (2 + length topic) (replicate 256 0) in
    (
      to_be_bytes (length topic) ++ (topic ++ rest),
      rw (short, room) refl,
      omega (
        arith,
        length-append {0} topic rest,
        length-drop {A = ℕ} (2 + length topic) (replicate 256 0),
      ),
    )

variable_header_panics :
    (version : MqttVersion) (topic : List ℕ) (pid : ℕ)
    → 252 < length topic
    → length topic ≤ 254
    → variable_header version topic (some pid) ≡ panic
unfolding variable_header and_then put_id
variable_header_panics version topic pid low high =
    let (buf, written, size) = topic_written topic high in
    rw (written, lt→ltb (length buf) (2 + length topic + 2) (omega arith)) refl

-- A streamed message with a packet id and a topic of 253 or 254 bytes makes `begin_stream_publish`
-- panic, after the client has sent the fixed header: the id does not fit behind the topic.
pub begin_stream_publish_panics :
    {T E : Type 0} (p : Platform T E) (MAX_INFLIGHT : ℕ) (topic : List ℕ) (total : ℕ) (qos : QoS)
    (pid : ℕ) (header : List ℕ) (c tracked sent : MqttClient T)
    → is_connected c ≡ true
    → packet_id_for {T = T} {E = E} MAX_INFLIGHT qos c ≡ (done (some pid), tracked)
    → fixed_header qos ((variable_header_len (version_of c) topic (some pid) + total) % usize_limit)
      ≡ ok header
    → send_bytes p header tracked ≡ (done tt, sent)
    → 252 < length topic
    → length topic ≤ 254
    → begin_stream_publish p MAX_INFLIGHT topic total qos c ≡ (panics, sent)
unfolding begin_stream_publish
begin_stream_publish_panics p N topic total qos pid header c tracked sent up tracks fits goes low
      high =
    rw (up, tracks, fits, goes, variable_header_panics (version_of c) topic pid low high) refl
