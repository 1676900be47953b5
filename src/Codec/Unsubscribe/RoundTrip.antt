-- ===== src/Codec/Unsubscribe/RoundTrip.antt =====
-- The wire form of UNSUBSCRIBE, and the lemmas on its encoder and its decoder.
use mqtt_async_embedded.Prelude.{ℕ, ◌+◌, ◌≤◌, ◌<◌, ◌≡◌, List, [], ◌∷◌, ◌++◌, length, arith, All}
use mqtt_async_embedded.Exec.{ok}
use mqtt_async_embedded.Wire.{to_be_bytes}
use mqtt_async_embedded.Wire.Writes.{
  Writes, Writes-seq, Writes-when, Writes-put_slice, Guards-seq, Guards-put_slice,
}
use mqtt_async_embedded.Varint.Encoding.{varint_limit}
use mqtt_async_embedded.Fields.{read_utf8_string}
use mqtt_async_embedded.Fields.RoundTrip.{prefixed, Writes-utf8_string, Reads-utf8_string}
use mqtt_async_embedded.Types.{MqttVersion, Unsubscribe, capacity}
use mqtt_async_embedded.Properties.RoundTrip.{ArePropertiesOk, Writes-properties}
use mqtt_async_embedded.Codec.Frame.{is_v5}
use mqtt_async_embedded.Codec.Frame.Encodes.{Encodes, Encodes-frame, frame}
use mqtt_async_embedded.Codec.Frame.Parses.{
  Parses-bind, Parses-map, Parses-u16, Parses-properties, kept, kept_bytes, Finishes-Parses,
  decode_frame_lem,
}
use mqtt_async_embedded.Codec.Batch.{batch_bytes, Writes-batch, IsItem, Parses-batch}
use mqtt_async_embedded.Codec.Subscribe.RoundTrip.{IsTopic}
use mqtt_async_embedded.Codec.Unsubscribe.{
  write_filter, write_unsubscribe, encode_unsubscribe, read_unsubscribe, decode_unsubscribe,
}

abbrev pub unsubscribe_content : MqttVersion → Unsubscribe → List ℕ
unsubscribe_content version p =
    to_be_bytes p.packet_id
    ++ (kept_bytes (is_v5 version) p.properties ++ batch_bytes prefixed p.topics)

pub record IsUnsubscribe (version : MqttVersion) (p : Unsubscribe) : Type 0 where
  pub few : length p.topics ≤ capacity
  pub topics_ok : All IsTopic p.topics
  pub properties_ok : ArePropertiesOk p.properties
  pub size : length (unsubscribe_content version p) < varint_limit

abbrev pub unsubscribe_received : MqttVersion → Unsubscribe → Unsubscribe
unsubscribe_received version p = record p { properties = kept (is_v5 version) p.properties }

filters_write :
    (topics : List (List ℕ))
    → All IsTopic topics
    → All (λ t. Writes (write_filter t) (prefixed t)) topics
filters_write [] h = tt
filters_write (topic ∷ topics) ((short, valid), hs) =
    (Writes-utf8_string topic short, filters_write topics hs)

filters_read :
    (topics : List (List ℕ)) → All IsTopic topics → All (IsItem read_utf8_string prefixed) topics
filters_read [] h = tt
filters_read (topic ∷ topics) ((short, valid), hs) =
    (record { reads = Reads-utf8_string topic valid; takes = omega arith }, filters_read topics hs)

module _ (version : MqttVersion) (p : Unsubscribe) (good : IsUnsubscribe version p) where
  pub Encodes-unsubscribe :
      Encodes
        (encode_unsubscribe version p)
        (frame 0xa2 (unsubscribe_content version p))
        (5 + length (unsubscribe_content version p))
  unfolding encode_unsubscribe write_unsubscribe
  Encodes-unsubscribe =
      Encodes-frame 0xa2
        (Writes-seq (Writes-put_slice (to_be_bytes p.packet_id)) (
          Writes-seq
            (Writes-when (is_v5 version)
              (Writes-properties p.properties (omega (arith, good.properties_ok.size))))
            (Writes-batch write_filter prefixed p.topics (filters_write p.topics good.topics_ok))))
        good.size (Guards-seq _ (Guards-put_slice _))

  pub decode_unsubscribe-frame :
      (rest : List ℕ)
      → decode_unsubscribe version (frame 0xa2 (unsubscribe_content version p) ++ rest)
        ≡ ok (unsubscribe_received version p)
  unfolding decode_unsubscribe read_unsubscribe
  decode_unsubscribe-frame rest =
      decode_frame_lem 0xa2 rest
        (Finishes-Parses (
          Parses-bind _ (Parses-u16 _ p.packet_id) (
            Parses-bind _ (Parses-properties (is_v5 version) _ p.properties good.properties_ok) (
              Parses-map _ (
                Parses-batch read_utf8_string prefixed p.topics good.few
                  (filters_read p.topics good.topics_ok))))))
        good.size
