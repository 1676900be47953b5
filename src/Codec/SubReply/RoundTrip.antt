-- ===== src/Codec/SubReply/RoundTrip.antt =====
-- The wire forms of SUBACK and UNSUBACK, and the lemmas on their encoder and decoder.
use mqtt_async_embedded.Prelude.{ℕ, ◌+◌, ◌≤◌, ◌<◌, ◌≡◌, List, [], ◌∷◌, ◌++◌, length, arith, All}
use mqtt_async_embedded.Exec.{ok}
use mqtt_async_embedded.Wire.{to_be_bytes, put_byte, get_byte}
use mqtt_async_embedded.Wire.Writes.{
  Writes, Writes-seq, Writes-when, Writes-put_slice, Writes-put_byte, Guards-seq, Guards-put_slice,
}
use mqtt_async_embedded.Wire.Reads.{Reads-get_byte}
use mqtt_async_embedded.Varint.Encoding.{varint_limit}
use mqtt_async_embedded.Types.{MqttVersion, SubKind, SubReply, capacity}
use mqtt_async_embedded.Properties.RoundTrip.{ArePropertiesOk, Writes-properties}
use mqtt_async_embedded.Codec.Frame.{is_v5}
use mqtt_async_embedded.Codec.Frame.Encodes.{Encodes, Encodes-frame, frame}
use mqtt_async_embedded.Codec.Frame.Parses.{
  Parses-bind, Parses-map, Parses-u16, Parses-properties, kept, kept_bytes, Finishes-Parses,
  decode_frame_lem,
}
use mqtt_async_embedded.Codec.Batch.{batch_bytes, Writes-batch, IsItem, Parses-batch}
use mqtt_async_embedded.Codec.SubReply.{
  reply_byte, write_sub_reply, encode_sub_reply, read_sub_reply, decode_sub_reply,
}

abbrev pub code_bytes : ℕ → List ℕ
code_bytes code = code ∷ []

abbrev pub sub_reply_content : MqttVersion → SubReply → List ℕ
sub_reply_content version p =
    to_be_bytes p.packet_id
    ++ (kept_bytes (is_v5 version) p.properties ++ batch_bytes code_bytes p.reason_codes)

pub record IsSubReply (version : MqttVersion) (p : SubReply) : Type 0 where
  pub few : length p.reason_codes ≤ capacity
  pub properties_ok : ArePropertiesOk p.properties
  pub size : length (sub_reply_content version p) < varint_limit

abbrev pub sub_reply_received : MqttVersion → SubReply → SubReply
sub_reply_received version p = record p { properties = kept (is_v5 version) p.properties }

codes_write : (codes : List ℕ) → All (λ c. Writes (put_byte c) (code_bytes c)) codes
codes_write [] = tt
codes_write (c ∷ codes) = (Writes-put_byte c, codes_write codes)

codes_read : (codes : List ℕ) → All (IsItem get_byte code_bytes) codes
codes_read [] = tt
codes_read (c ∷ codes) =
    (record { reads = Reads-get_byte c; takes = omega arith }, codes_read codes)

module _ (kind : SubKind) (version : MqttVersion) (p : SubReply) (good : IsSubReply version p) where
  pub Encodes-sub_reply :
      Encodes
        (encode_sub_reply kind version p)
        (frame (reply_byte kind) (sub_reply_content version p))
        (5 + length (sub_reply_content version p))
  unfolding encode_sub_reply write_sub_reply
  Encodes-sub_reply =
      Encodes-frame (reply_byte kind)
        (Writes-seq (Writes-put_slice (to_be_bytes p.packet_id)) (
          Writes-seq
            (Writes-when (is_v5 version)
              (Writes-properties p.properties (omega (arith, good.properties_ok.size))))
            (Writes-batch put_byte code_bytes p.reason_codes (codes_write p.reason_codes))))
        good.size (Guards-seq _ (Guards-put_slice _))

  pub decode_sub_reply-frame :
      (rest : List ℕ)
      → decode_sub_reply version (frame (reply_byte kind) (sub_reply_content version p) ++ rest)
        ≡ ok (sub_reply_received version p)
  unfolding decode_sub_reply read_sub_reply
  decode_sub_reply-frame rest =
      decode_frame_lem (reply_byte kind) rest
        (Finishes-Parses (
          Parses-bind _ (Parses-u16 _ p.packet_id) (
            Parses-bind _ (Parses-properties (is_v5 version) _ p.properties good.properties_ok) (
              Parses-map _ (
                Parses-batch get_byte code_bytes p.reason_codes good.few
                  (codes_read p.reason_codes))))))
        good.size
