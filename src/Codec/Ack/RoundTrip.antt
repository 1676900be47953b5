-- ===== src/Codec/Ack/RoundTrip.antt =====
-- The wire form of an acknowledgement, and the lemmas on its encoder and its decoder.
use mqtt_async_embedded.Prelude.{
  ℕ, ◌+◌, ◌<◌, ◌≡◌, refl, ap, Bool, true, false, ◌&&◌, List, [], ◌∷◌, ◌++◌, length, arith, le→ltb,
  lt→ltb, sym, inl, inr, Bool-cases, if◌then◌else◌,
}
use mqtt_async_embedded.Exec.{ok, pure, ◌>>=◌}
use mqtt_async_embedded.Wire.{to_be_bytes, get_byte}
use mqtt_async_embedded.Wire.Writes.{
  Writes, Writes-seq, Writes-when, Writes-put_slice, Writes-put_byte, Guards-seq, Guards-put_slice,
}
use mqtt_async_embedded.Wire.Reads.{Reads-get_byte}
use mqtt_async_embedded.Varint.Encoding.{varint_limit}
use mqtt_async_embedded.Types.{MqttVersion, AckKind, Ack, Property}
use mqtt_async_embedded.Properties.RoundTrip.{ArePropertiesOk, properties_bytes, Writes-properties}
use mqtt_async_embedded.Codec.Frame.{is_v5, properties_if}
use mqtt_async_embedded.Codec.Frame.Encodes.{Encodes, Encodes-frame, frame}
use mqtt_async_embedded.Codec.Frame.Parses.{
  Parses, Parses-Reads, Parses-bind, Parses-map, Parses-u16, Parses-properties, Finishes-Parses,
  decode_frame_lem,
}
use mqtt_async_embedded.Codec.Ack.{
  ack_byte, has_reason, write_reason, write_ack, encode_ack, read_reason, read_ack, decode_ack,
}

-- The reason code and the properties on the wire: nothing, if the version has none or they say
-- nothing.
abbrev pub reason_bytes : Bool → ℕ → List Property → List ℕ
reason_bytes has reason ps =
    if has && has_reason reason ps then reason ∷ properties_bytes ps else []

-- What arrives of them.
abbrev pub reason_received : Bool → ℕ → List Property → ℕ × List Property
reason_received has reason ps = if has then (reason, ps) else (0, [])

pub Writes-reason :
    (reason : ℕ) (ps : List Property)
    → ArePropertiesOk ps
    → Writes (write_reason reason ps) (reason ∷ properties_bytes ps)
unfolding write_reason
Writes-reason reason ps h =
    Writes-seq (Writes-put_byte reason) (Writes-properties ps (omega (arith, h.size)))

spoken :
    (reason : ℕ) (ps : List Property)
    → ArePropertiesOk ps
    → Parses {A = ℕ × List Property}
        (λ buf content_end.
          get_byte buf >>= λ r. properties_if true buf content_end >>= λ l. pure (r, l))
        (reason ∷ properties_bytes ps)
        0
        (reason, ps)
spoken reason ps h =
    Parses-bind _ (Parses-Reads _ (Reads-get_byte reason))
      (Parses-map (λ l. (reason, l)) (Parses-properties true 0 ps h))

silent_pair : (reason : ℕ) (ps : List Property) → has_reason reason ps ≡ false → reason ≡ 0
silent_pair reason [] h = ground arith
silent_pair reason (p ∷ ps) h = cc

silent_nil : (reason : ℕ) (ps : List Property) → has_reason reason ps ≡ false → ps ≡ []
silent_nil reason [] h = refl
silent_nil reason (p ∷ ps) h = cc

pub Parses-reason :
    (has : Bool) (reason : ℕ) (ps : List Property)
    → ArePropertiesOk ps
    → Parses (read_reason has) (reason_bytes has reason ps) 0 (reason_received has reason ps)
unfolding read_reason
Parses-reason false reason ps h = record {
  at = λ buf rest pos content_end e p. ap (λ n. (ok (0, []), n)) (omega arith);
}
Parses-reason true reason ps h = elim (Bool-cases (has_reason reason ps)) [
  | inl e ↦ rw e (record {
    at = λ buf rest pos content_end there p.
        rw (lt→ltb pos content_end (omega arith))
          ((spoken reason ps h).at buf rest pos content_end there p);
  })
  | inr e ↦ rw e (record {
    at = λ buf rest pos content_end there p.
        rw (le→ltb pos content_end (omega arith))
          (λ i. (ok (sym (silent_pair reason ps e) i, sym (silent_nil reason ps e) i), stay pos i));
  })
]
  where
    stay : (pos : ℕ) → pos ≡ pos + 0
    stay pos = omega arith

abbrev pub ack_content : MqttVersion → Ack → List ℕ
ack_content version p =
    to_be_bytes p.packet_id ++ reason_bytes (is_v5 version) p.reason_code p.properties

pub record IsAck (version : MqttVersion) (p : Ack) : Type 0 where
  pub properties_ok : ArePropertiesOk p.properties
  pub size : length (ack_content version p) < varint_limit

-- Before version 5 an acknowledgement has no reason code and no properties.
abbrev pub ack_received : MqttVersion → Ack → Ack
ack_received version p =
    let r : ℕ × List Property = reason_received (is_v5 version) p.reason_code p.properties in
    record p { reason_code = r.0; properties = r.1 }

module _ (kind : AckKind) (version : MqttVersion) (p : Ack) (good : IsAck version p) where
  pub Encodes-ack :
      Encodes
        (encode_ack kind version p)
        (frame (ack_byte kind) (ack_content version p))
        (5 + length (ack_content version p))
  unfolding encode_ack write_ack
  Encodes-ack =
      Encodes-frame (ack_byte kind)
        (Writes-seq (Writes-put_slice _) (
          Writes-when (is_v5 version && has_reason p.reason_code p.properties)
            (Writes-reason p.reason_code p.properties good.properties_ok)))
        good.size (Guards-seq _ (Guards-put_slice _))

  pub decode_ack-frame :
      (rest : List ℕ)
      → decode_ack version (frame (ack_byte kind) (ack_content version p) ++ rest)
        ≡ ok (ack_received version p)
  unfolding decode_ack read_ack
  decode_ack-frame rest =
      decode_frame_lem (ack_byte kind) rest
        (Finishes-Parses (
          Parses-bind _ (Parses-u16 _ p.packet_id) (
            Parses-map _
              (Parses-reason (is_v5 version) p.reason_code p.properties good.properties_ok))))
        good.size
