-- ===== src/Codec/Subscribe/RoundTrip.antt =====
-- The wire form of SUBSCRIBE, and the lemmas on its encoder and its decoder.
use mqtt_async_embedded.Prelude.{
  ℕ, ◌+◌, ◌≤◌, ◌<◌, ◌≡◌, refl, ap, ◌∙◌, List, [], ◌∷◌, ◌++◌, length, arith, All,
}
use mqtt_async_embedded.Exec.{ok, >>=_ok}
use mqtt_async_embedded.Wire.{to_be_bytes, get_byte}
use mqtt_async_embedded.Wire.Writes.{
  Writes, Writes-seq, Writes-when, Writes-put_slice, Writes-put_byte, Guards-seq, Guards-put_slice,
}
use mqtt_async_embedded.Wire.Reads.{Reads, Reads-get_byte, Reads-bind}
use mqtt_async_embedded.Varint.Encoding.{varint_limit}
use mqtt_async_embedded.Utf8.{IsUtf8}
use mqtt_async_embedded.Fields.{u16_max}
use mqtt_async_embedded.Fields.RoundTrip.{prefixed, Writes-utf8_string, Reads-utf8_string}
use mqtt_async_embedded.Types.{
  QoS, at_most_once, at_least_once, exactly_once, qos_from, qos_code, MqttVersion, Subscribe,
  capacity,
}
use mqtt_async_embedded.Properties.RoundTrip.{ArePropertiesOk, Writes-properties}
use mqtt_async_embedded.Codec.Frame.{is_v5}
use mqtt_async_embedded.Codec.Frame.Encodes.{Encodes, Encodes-frame, frame}
use mqtt_async_embedded.Codec.Frame.Parses.{
  Parses-bind, Parses-map, Parses-u16, Parses-properties, kept, kept_bytes, Finishes-Parses,
  decode_frame_lem,
}
use mqtt_async_embedded.Codec.Batch.{batch_bytes, Writes-batch, IsItem, Parses-batch}
use mqtt_async_embedded.Codec.Subscribe.{
  write_topic, write_subscribe, encode_subscribe, read_topic, read_subscribe, decode_subscribe,
}

abbrev pub topic_bytes : List ℕ × QoS → List ℕ
topic_bytes t = prefixed t.0 ++ (qos_code t.1 ∷ [])

-- A topic filter that the wire can hold.
abbrev pub IsTopic : List ℕ → Type 0
IsTopic s = (length s ≤ u16_max) × IsUtf8 s

abbrev pub subscribe_content : MqttVersion → Subscribe → List ℕ
subscribe_content version p =
    to_be_bytes p.packet_id
    ++ (kept_bytes (is_v5 version) p.properties ++ batch_bytes topic_bytes p.topics)

pub record IsSubscribe (version : MqttVersion) (p : Subscribe) : Type 0 where
  pub few : length p.topics ≤ capacity
  pub topics_ok : All (λ (t : List ℕ × QoS). IsTopic t.0) p.topics
  pub properties_ok : ArePropertiesOk p.properties
  pub size : length (subscribe_content version p) < varint_limit

abbrev pub subscribe_received : MqttVersion → Subscribe → Subscribe
subscribe_received version p = record p { properties = kept (is_v5 version) p.properties }

topics_write :
    (topics : List (List ℕ × QoS))
    → All (λ (t : List ℕ × QoS). IsTopic t.0) topics
    → All (λ t. Writes (write_topic t) (topic_bytes t)) topics
unfolding write_topic
topics_write [] h = tt
topics_write ((topic, qos) ∷ topics) ((short, valid), hs) = (
  Writes-seq (Writes-utf8_string topic short) (Writes-put_byte (qos_code qos)),
  topics_write topics hs,
)

qos_from-qos_code : (qos : QoS) → qos_from (qos_code qos) ≡ qos
qos_from-qos_code at_most_once = refl
qos_from-qos_code at_least_once = refl
qos_from-qos_code exactly_once = refl

Reads-topic :
    (topic : List ℕ) (qos : QoS)
    → IsUtf8 topic
    → Reads read_topic (topic_bytes (topic, qos)) (topic, qos)
unfolding read_topic
Reads-topic topic qos valid = Reads-bind _ (Reads-utf8_string topic valid) (record {
  at = λ buf rest pos e.
      >>=_ok (get_byte buf) _ pos ((Reads-get_byte (qos_code qos)).at buf rest pos e)
      ∙ ap (λ q. (ok (topic, q), pos + 1)) (qos_from-qos_code qos);
})

topics_read :
    (topics : List (List ℕ × QoS))
    → All (λ (t : List ℕ × QoS). IsTopic t.0) topics
    → All (IsItem read_topic topic_bytes) topics
topics_read [] h = tt
topics_read ((topic, qos) ∷ topics) ((short, valid), hs) =
    (record { reads = Reads-topic topic qos valid; takes = omega arith }, topics_read topics hs)

module _ (version : MqttVersion) (p : Subscribe) (good : IsSubscribe version p) where
  pub Encodes-subscribe :
      Encodes
        (encode_subscribe version p)
        (frame 0x82 (subscribe_content version p))
        (5 + length (subscribe_content version p))
  unfolding encode_subscribe write_subscribe
  Encodes-subscribe =
      Encodes-frame 0x82
        (Writes-seq (Writes-put_slice (to_be_bytes p.packet_id)) (
          Writes-seq
            (Writes-when (is_v5 version)
              (Writes-properties p.properties (omega (arith, good.properties_ok.size))))
            (Writes-batch write_topic topic_bytes p.topics (topics_write p.topics good.topics_ok))))
        good.size (Guards-seq _ (Guards-put_slice _))

  pub decode_subscribe-frame :
      (rest : List ℕ)
      → decode_subscribe version (frame 0x82 (subscribe_content version p) ++ rest)
        ≡ ok (subscribe_received version p)
  unfolding decode_subscribe read_subscribe
  decode_subscribe-frame rest =
      decode_frame_lem 0x82 rest
        (Finishes-Parses (
          Parses-bind _ (Parses-u16 _ p.packet_id) (
            Parses-bind _ (Parses-properties (is_v5 version) _ p.properties good.properties_ok) (
              Parses-map _ (
                Parses-batch read_topic topic_bytes p.topics good.few
                  (topics_read p.topics good.topics_ok))))))
        good.size
