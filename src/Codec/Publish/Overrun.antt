-- ===== src/Codec/Publish/Overrun.antt =====
-- PUBLISH whose topic runs past the end of its content, in a buffer that holds more bytes.
use mqtt_async_embedded.Prelude.{
  ℕ, ◌+◌, ◌<◌, ◌≡◌, refl, ap, ◌∙◌, Bool, false, List, ◌∷◌, ◌++◌, length, drop, arith, lt→leb,
  length-append, drop_behind,
}
use mqtt_async_embedded.Exec.{Result, panic, ◌>>=◌, >>=_ok}
use mqtt_async_embedded.Varint.Encoding.{varint, varint_limit}
use mqtt_async_embedded.Utf8.{IsUtf8}
use mqtt_async_embedded.Fields.{read_utf8_string}
use mqtt_async_embedded.Fields.RoundTrip.{prefixed, Reads-utf8_string}
use mqtt_async_embedded.Types.{MqttVersion, QoS, Publish}
use mqtt_async_embedded.Codec.Frame.Parses.{decode_frame_open, properties_if_end}
use mqtt_async_embedded.Codec.Frame.{is_v5, properties_if}
use mqtt_async_embedded.Codec.Publish.{
  needs_id, header_dup, header_qos, header_retain, read_packet_id, read_payload, read_publish,
  decode_publish,
}

-- A string at the cursor that ends past the content.
read_overrun :
    (version : MqttVersion) (dup retain : Bool) (qos : QoS) (buf s rest : List ℕ) (pos stop : ℕ)
    → needs_id qos ≡ false
    → IsUtf8 s
    → drop pos buf ≡ prefixed s ++ rest
    → stop < pos + length (prefixed s)
    → (read_publish version dup qos retain buf stop pos).0 ≡ panic
unfolding read_publish read_packet_id read_payload ◌>>=◌
read_overrun version dup retain qos buf s rest pos stop no_id valid e past =
    let behind : ℕ = pos + length (prefixed s) in
    ap (λ (r : Result Publish × ℕ). r.0)
      (>>=_ok (read_utf8_string buf) _ pos ((Reads-utf8_string s valid).at buf rest pos e))
    ∙ rw no_id (
        ap (λ (r : Result Publish × ℕ). r.0)
          (>>=_ok (properties_if (is_v5 version) buf stop) _ behind
            (properties_if_end (is_v5 version) buf stop behind (omega arith)))
        ∙ unfold ◌>>=◌ in rw (lt→leb behind stop past))

-- A PUBLISH of QoS 0 whose topic runs past the content that its length announces, in a buffer that
-- holds the whole topic, makes the decoder panic.
pub decode_publish_panics :
    (version : MqttVersion) (header n : ℕ) (topic rest : List ℕ)
    → needs_id (header_qos header) ≡ false
    → IsUtf8 topic
    → n < varint_limit
    → n < length (prefixed topic)
    → decode_publish version (header ∷ (varint n ++ (prefixed topic ++ rest))) ≡ panic
unfolding decode_publish
decode_publish_panics version header n topic rest no_id valid size past =
    let bytes : List ℕ = prefixed topic ++ rest in
    let buf : List ℕ = header ∷ (varint n ++ bytes) in
    decode_frame_open
      (read_publish version (header_dup header) (header_qos header) (header_retain header)) header n
      bytes size (omega (arith, length-append (prefixed topic) rest))
    ∙ read_overrun version (header_dup header) (header_retain header) (header_qos header) buf topic
        rest (1 + length (varint n)) (1 + length (varint n) + n) no_id valid
        (drop_behind 1 buf (varint n) bytes refl) (omega arith)
