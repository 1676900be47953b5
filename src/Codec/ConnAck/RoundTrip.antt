-- ===== src/Codec/ConnAck/RoundTrip.antt =====
-- The wire form of CONNACK, and the lemmas on its encoder and its decoder.
use mqtt_async_embedded.Prelude.{
  ℕ, ◌+◌, ◌≤◌, ◌<◌, ◌≡◌, refl, ap, ◌∙◌, bit_and, Bool, true, false, not, List, [], ◌∷◌, ◌++◌,
  length, ltb, ◌==◌, arith, le→ltb,
}
use mqtt_async_embedded.Exec.{ok, get-bind, fail_if-false}
use mqtt_async_embedded.Wire.Writes.{
  Writes-seq, Writes-when, Writes-put_byte, Guards-seq, Guards-put_byte,
}
use mqtt_async_embedded.Wire.Reads.{Reads-index_byte}
use mqtt_async_embedded.Varint.Encoding.{varint_limit}
use mqtt_async_embedded.Types.{MqttVersion, ConnAck}
use mqtt_async_embedded.Properties.RoundTrip.{ArePropertiesOk, Writes-properties}
use mqtt_async_embedded.Codec.Frame.{is_v5}
use mqtt_async_embedded.Codec.Frame.Encodes.{Encodes, Encodes-frame, frame}
use mqtt_async_embedded.Codec.Frame.Parses.{
  Parses, Parses-Reads, Parses-bind, Parses-map, Parses-properties, kept, kept_bytes,
  Finishes-Parses, decode_frame_lem,
}
use mqtt_async_embedded.Codec.ConnAck.{
  ack_flags, write_conn_ack, encode_conn_ack, read_first_of_two, read_conn_ack, decode_conn_ack,
}

abbrev pub conn_ack_content : MqttVersion → ConnAck → List ℕ
conn_ack_content version p =
    (ack_flags p.session_present ∷ [])
    ++ ((p.reason_code ∷ []) ++ kept_bytes (is_v5 version) p.properties)

pub record IsConnAck (version : MqttVersion) (p : ConnAck) : Type 0 where
  pub properties_ok : ArePropertiesOk p.properties
  pub size : length (conn_ack_content version p) < varint_limit

abbrev pub conn_ack_received : MqttVersion → ConnAck → ConnAck
conn_ack_received version p = record p { properties = kept (is_v5 version) p.properties }

Parses-first : (after b : ℕ) → 1 ≤ after → Parses read_first_of_two (b ∷ []) after b
unfolding read_first_of_two
Parses-first after b more = record {
  at = λ buf rest pos content_end e h.
      get-bind _ pos
      ∙ fail_if-false (ltb content_end (pos + 2)) _ _ pos
          (le→ltb content_end (pos + 2) (omega arith))
      ∙ (Reads-index_byte b).at buf rest pos e;
}

flag_bit : (b : Bool) → not (bit_and (ack_flags b) 0x01 == 0) ≡ b
flag_bit true = refl
flag_bit false = refl

module _ (version : MqttVersion) (p : ConnAck) (good : IsConnAck version p) where
  pub Encodes-conn_ack :
      Encodes
        (encode_conn_ack version p)
        (frame 0x20 (conn_ack_content version p))
        (5 + length (conn_ack_content version p))
  unfolding encode_conn_ack write_conn_ack
  Encodes-conn_ack =
      Encodes-frame 0x20
        (Writes-seq (Writes-put_byte (ack_flags p.session_present)) (
          Writes-seq (Writes-put_byte p.reason_code) (
            Writes-when (is_v5 version)
              (Writes-properties p.properties (omega (arith, good.properties_ok.size))))))
        good.size (Guards-seq _ (Guards-put_byte _))

  pub decode_conn_ack-frame :
      (rest : List ℕ)
      → decode_conn_ack version (frame 0x20 (conn_ack_content version p) ++ rest)
        ≡ ok (conn_ack_received version p)
  unfolding decode_conn_ack read_conn_ack
  decode_conn_ack-frame rest =
      decode_frame_lem 0x20 rest
        (Finishes-Parses (
          Parses-bind _ (Parses-first _ (ack_flags p.session_present) (omega arith)) (
            Parses-bind _ (Parses-Reads _ (Reads-index_byte p.reason_code)) (
              Parses-map _ (Parses-properties (is_v5 version) 0 p.properties good.properties_ok)))))
        good.size
      ∙ ap
          (λ b.
            ok (record p { session_present = b; properties = kept (is_v5 version) p.properties }))
          (flag_bit p.session_present)
