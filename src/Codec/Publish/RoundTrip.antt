-- ===== src/Codec/Publish/RoundTrip.antt =====
-- The wire form of PUBLISH, and the lemmas on its encoder and its decoder.
use mqtt_async_embedded.Prelude.{
  ℕ, ◌+◌, ◌/◌, ◌≤◌, ◌<◌, ◌≡◌, refl, ap, ◌∙◌, Bool, true, false, Option, none, some, List, [], ◌++◌,
  length, take, arith, le→leb, take-length-append, if◌then◌else◌,
}
use mqtt_async_embedded.Exec.{ok, pure, ◌>>=◌}
use mqtt_async_embedded.Wire.{to_be_bytes}
use mqtt_async_embedded.Wire.Writes.{
  Writes-seq, Writes-when, Writes-put_slice, Guards-seq, Guards-on_rest,
}
use mqtt_async_embedded.Varint.Encoding.{varint_limit}
use mqtt_async_embedded.Utf8.{IsUtf8}
use mqtt_async_embedded.Fields.{u16_max}
use mqtt_async_embedded.Fields.RoundTrip.{prefixed, Writes-utf8_string, Reads-utf8_string}
use mqtt_async_embedded.Types.{QoS, at_most_once, at_least_once, exactly_once, MqttVersion, Publish}
use mqtt_async_embedded.Properties.RoundTrip.{ArePropertiesOk, Writes-properties}
use mqtt_async_embedded.Codec.Frame.{is_v5}
use mqtt_async_embedded.Codec.Frame.Encodes.{Encodes, Encodes-frame, frame}
use mqtt_async_embedded.Codec.Frame.Parses.{
  Parses, Parses-Reads, Parses-bind, Parses-pure, Parses-u16, Parses-properties, kept, kept_bytes,
  Finishes, Finishes-bind, decode_frame_lem,
}
use mqtt_async_embedded.Codec.Publish.{
  needs_id, id_or_one, publish_header, write_publish, encode_publish, header_dup, header_qos,
  header_retain, read_packet_id, read_payload, read_publish, decode_publish,
}

abbrev pub id_bytes : QoS → Option ℕ → List ℕ
id_bytes qos pid = if needs_id qos then to_be_bytes (id_or_one pid) else []

abbrev pub publish_content : MqttVersion → Publish → List ℕ
publish_content version p =
    prefixed p.topic
    ++ (id_bytes p.qos p.packet_id ++ (kept_bytes (is_v5 version) p.properties ++ p.payload))

abbrev pub publish_frame : MqttVersion → Publish → List ℕ
publish_frame version p = frame (publish_header p.dup p.qos p.retain) (publish_content version p)

-- What the wire holds: a topic of at most 65535 bytes, good properties, and in all less than 2^28
-- bytes.
pub record IsPublish (version : MqttVersion) (p : Publish) : Type 0 where
  pub topic_short : length p.topic ≤ u16_max
  pub topic_utf8 : IsUtf8 p.topic
  pub properties_ok : ArePropertiesOk p.properties
  pub size : length (publish_content version p) < varint_limit

-- The packet that arrives: with its identifier if the level of service has one, and with its
-- properties if the version has them.
abbrev pub publish_received : MqttVersion → Publish → Publish
publish_received version p = record p {
  packet_id = if needs_id p.qos then some (id_or_one p.packet_id) else none;
  properties = kept (is_v5 version) p.properties;
}

module _ (version : MqttVersion) (p : Publish) (good : IsPublish version p) where
  pub Encodes-publish :
      Encodes
        (encode_publish version p)
        (publish_frame version p)
        (5 + length (publish_content version p))
  unfolding encode_publish write_publish
  Encodes-publish =
      Encodes-frame (publish_header p.dup p.qos p.retain)
        (Writes-seq (Writes-utf8_string p.topic good.topic_short) (
          Writes-seq (Writes-when (needs_id p.qos) (Writes-put_slice _)) (
            Writes-seq
              (Writes-when (is_v5 version)
                (Writes-properties p.properties (omega (arith, good.properties_ok.size))))
              (Writes-put_slice p.payload))))
        good.size (Guards-seq _ (Guards-on_rest _))

-- The three fields that the PUBLISH decoder reads from the first byte are those that the encoder put
-- there, and the packet type in it is 3.
pub header_bits :
    (dup : Bool) (qos : QoS) (retain : Bool)
    → (header_dup (publish_header dup qos retain) ≡ dup)
      × (header_qos (publish_header dup qos retain) ≡ qos)
      × (header_retain (publish_header dup qos retain) ≡ retain)
      × (publish_header dup qos retain / 16 ≡ 3)
unfolding publish_header
header_bits true at_most_once true = (refl, refl, refl, refl)
header_bits true at_most_once false = (refl, refl, refl, refl)
header_bits true at_least_once true = (refl, refl, refl, refl)
header_bits true at_least_once false = (refl, refl, refl, refl)
header_bits true exactly_once true = (refl, refl, refl, refl)
header_bits true exactly_once false = (refl, refl, refl, refl)
header_bits false at_most_once true = (refl, refl, refl, refl)
header_bits false at_most_once false = (refl, refl, refl, refl)
header_bits false at_least_once true = (refl, refl, refl, refl)
header_bits false at_least_once false = (refl, refl, refl, refl)
header_bits false exactly_once true = (refl, refl, refl, refl)
header_bits false exactly_once false = (refl, refl, refl, refl)

Parses-packet_id :
    (b : Bool) (after : ℕ) (pid : Option ℕ)
    → Parses
        (read_packet_id b)
        (if b then to_be_bytes (id_or_one pid) else [])
        after
        (if b then some (id_or_one pid) else none)
unfolding read_packet_id
Parses-packet_id true after pid = Parses-bind _ (Parses-u16 _ (id_or_one pid)) (Parses-pure _ _)
Parses-packet_id false after pid = Parses-pure after none

Finishes-payload :
    (payload : List ℕ) (f : List ℕ → Publish)
    → Finishes
        (λ buf content_end. read_payload buf content_end >>= λ l. pure (f l))
        payload
        (f payload)
unfolding read_payload ◌>>=◌
Finishes-payload payload f = record {
  at = λ buf rest pos content_end e h inside.
      rw (le→leb pos content_end (omega arith), le→leb content_end (length buf) inside, e)
        (ap (λ l. ok (f l))
          (ap (λ n. take n (payload ++ rest)) (omega arith) ∙ take-length-append payload rest));
}

module _ (version : MqttVersion) (p : Publish) (good : IsPublish version p) where
  Finishes-publish :
      Finishes
        (read_publish version p.dup p.qos p.retain)
        (publish_content version p)
        (publish_received version p)
  unfolding read_publish
  Finishes-publish = Finishes-bind _ (Parses-Reads _ (Reads-utf8_string p.topic good.topic_utf8)) (
      Finishes-bind _ (Parses-packet_id (needs_id p.qos) _ p.packet_id) (
        Finishes-bind _ (Parses-properties (is_v5 version) _ p.properties good.properties_ok)
          (Finishes-payload p.payload _)))

  -- The decoder gives the packet back from its frame, whatever bytes follow it.
  pub decode_publish-frame :
      (rest : List ℕ)
      → decode_publish version (publish_frame version p ++ rest) ≡ ok (publish_received version p)
  unfolding decode_publish
  decode_publish-frame rest =
      let (dup, qos, retain, kind) = header_bits p.dup p.qos p.retain in
      rw (dup, qos, retain)
        (decode_frame_lem (publish_header p.dup p.qos p.retain) rest Finishes-publish good.size)
