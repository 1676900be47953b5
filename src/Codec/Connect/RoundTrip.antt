-- ===== src/Codec/Connect/RoundTrip.antt =====
-- The wire form of CONNECT, and the lemmas on its encoder and its decoder.
use mqtt_async_embedded.Prelude.{
  ℕ, ◌+◌, ◌≤◌, ◌<◌, ◌≡◌, refl, Bool, false, not, ◌&&◌, ◌||◌, Option, none, some, List, [], ◌∷◌,
  ◌++◌, length, arith, ◌==◌,
}
use mqtt_async_embedded.Exec.{ok}
use mqtt_async_embedded.Wire.{to_be_bytes}
use mqtt_async_embedded.Wire.Writes.{
  Writes, Writes-pure, Writes-seq, Writes-when, Writes-put_slice, Writes-put_byte, Guards-seq,
  Guards-on_rest,
}
use mqtt_async_embedded.Wire.Reads.{Reads-get_byte}
use mqtt_async_embedded.Varint.Encoding.{varint_limit}
use mqtt_async_embedded.Utf8.{IsUtf8, is_utf8}
use mqtt_async_embedded.Fields.{u16_max}
use mqtt_async_embedded.Fields.RoundTrip.{
  prefixed, Writes-utf8_string, Writes-binary_data, Reads-utf8_string, Reads-binary_data,
}
use mqtt_async_embedded.Types.{MqttVersion, v3_1_1, v3, v5, Will, Connect}
use mqtt_async_embedded.Properties.RoundTrip.{ArePropertiesOk, Writes-properties}
use mqtt_async_embedded.Codec.Frame.{is_v5}
use mqtt_async_embedded.Codec.Frame.Encodes.{Encodes, Encodes-frame, frame}
use mqtt_async_embedded.Codec.Frame.Parses.{
  Parses, Parses-Reads, Parses-bind, Parses-map, Parses-pure, Parses-u16, Parses-properties, kept,
  kept_bytes, Finishes-Parses, decode_frame_lem, Parses-check,
}
use mqtt_async_embedded.Codec.Subscribe.RoundTrip.{IsTopic}
use mqtt_async_embedded.Codec.Connect.{
  mqtt_name, mqisdp_name, protocol_level, same_string, is_some, will_kind, flags_of, write_will,
  write_optional, write_connect, encode_connect, has_bit, will_qos, read_will, read_optional,
  read_connect_fields, read_connect, decode_connect,
}
use mqtt_async_embedded.Codec.Connect.Flags.{qos_of, retain_of, connect_flags-ReadsFlags}

abbrev pub optional_bytes : Option (List ℕ) → List ℕ
optional_bytes none = []
optional_bytes (some s) = prefixed s

abbrev pub will_bytes : Bool → Option Will → List ℕ
will_bytes has none = []
will_bytes has (some w) = kept_bytes has w.properties ++ (prefixed w.topic ++ prefixed w.payload)

-- Behind the flags.
abbrev pub connect_fields : Bool → Connect → List ℕ
connect_fields has p =
    to_be_bytes p.keep_alive
    ++ (kept_bytes has p.properties
        ++ (prefixed p.client_id
            ++ (will_bytes has p.will ++ (optional_bytes p.username ++ optional_bytes p.password))))

abbrev pub connect_content : MqttVersion → Connect → List ℕ
connect_content version p =
    prefixed mqtt_name
    ++ ((protocol_level version ∷ []) ++ ((flags_of p ∷ []) ++ connect_fields (is_v5 version) p))

abbrev pub IsOptional : Option (List ℕ) → Type 0
IsOptional none = Unit {0}
IsOptional (some s) = IsTopic s

pub record IsWill (w : Will) : Type 0 where
  pub topic_ok : IsTopic w.topic
  pub payload_short : length w.payload ≤ u16_max
  pub will_properties_ok : ArePropertiesOk w.properties

abbrev pub IsOptionalWill : Option Will → Type 0
IsOptionalWill none = Unit {0}
IsOptionalWill (some w) = IsWill w

pub record IsConnect (version : MqttVersion) (p : Connect) : Type 0 where
  pub client_id_ok : IsTopic p.client_id
  pub username_ok : IsOptional p.username
  pub password_ok : IsOptional p.password
  pub will_ok : IsOptionalWill p.will
  pub properties_ok : ArePropertiesOk p.properties
  pub size : length (connect_content version p) < varint_limit

abbrev pub will_received : Bool → Option Will → Option Will
will_received has none = none
will_received has (some w) = some (record w { properties = kept has w.properties })

abbrev pub connect_received : MqttVersion → Connect → Connect
connect_received version p = record p {
  will = will_received (is_v5 version) p.will;
  properties = kept (is_v5 version) p.properties;
}

Writes-will :
    (version : MqttVersion) (will : Option Will)
    → IsOptionalWill will
    → Writes (write_will version will) (will_bytes (is_v5 version) will)
unfolding write_will
Writes-will version none h = Writes-pure
Writes-will version (some w) h =
    Writes-seq
      (Writes-when (is_v5 version)
        (Writes-properties w.properties (omega (arith, h.will_properties_ok.size))))
      (Writes-seq (Writes-utf8_string w.topic h.topic_ok.0)
        (Writes-binary_data w.payload h.payload_short))

Writes-optional :
    (s : Option (List ℕ)) → IsOptional s → Writes (write_optional s) (optional_bytes s)
unfolding write_optional
Writes-optional none h = Writes-pure
Writes-optional (some s) h = Writes-utf8_string s h.0

Parses-optional :
    (s : Option (List ℕ)) (after : ℕ)
    → IsOptional s
    → Parses (λ buf content_end. read_optional (is_some s) buf) (optional_bytes s) after s
unfolding read_optional
Parses-optional none after h = Parses-pure after none
Parses-optional (some s) after h = Parses-map some (Parses-Reads after (Reads-utf8_string s h.1))

Parses-will :
    (has : Bool) (will : Option Will) (after : ℕ)
    → IsOptionalWill will
    → Parses
        (read_will
          (is_some (will_kind will))
          has
          (qos_of (will_kind will))
          (retain_of (will_kind will)))
        (will_bytes has will)
        after
        (will_received has will)
unfolding read_will
Parses-will has none after h = Parses-pure after none
Parses-will has (some w) after h =
    Parses-bind _ (Parses-properties has _ w.properties h.will_properties_ok) (
      Parses-bind _ (Parses-Reads _ (Reads-utf8_string w.topic h.topic_ok.1))
        (Parses-map _ (Parses-Reads _ (Reads-binary_data w.payload))))

module _ (version : MqttVersion) (p : Connect) (good : IsConnect version p) where
  pub Encodes-connect :
      Encodes
        (encode_connect version p)
        (frame 0x10 (connect_content version p))
        (5 + length (connect_content version p))
  unfolding encode_connect write_connect
  Encodes-connect =
      Encodes-frame 0x10
        (Writes-seq (Writes-utf8_string mqtt_name (omega arith)) (
          Writes-seq (Writes-put_byte (protocol_level version)) (
            Writes-seq (Writes-put_byte (flags_of p)) (
              Writes-seq (Writes-put_slice (to_be_bytes p.keep_alive)) (
                Writes-seq
                  (Writes-when (is_v5 version)
                    (Writes-properties p.properties (omega (arith, good.properties_ok.size))))
                  (Writes-seq (Writes-utf8_string p.client_id good.client_id_ok.0) (
                    Writes-seq (Writes-will version p.will good.will_ok) (
                      Writes-seq (Writes-optional p.username good.username_ok)
                        (Writes-optional p.password good.password_ok)))))))))
        good.size (Guards-seq _ (Guards-on_rest _))

  Parses-fields :
      (has : Bool)
      → Parses
          (read_connect_fields has p.clean_session
            (is_some (will_kind p.will))
            (qos_of (will_kind p.will))
            (retain_of (will_kind p.will))
            (is_some p.password)
            (is_some p.username))
          (connect_fields has p)
          0
          (record p { will = will_received has p.will; properties = kept has p.properties })
  unfolding read_connect_fields
  Parses-fields has = Parses-bind _ (Parses-u16 _ p.keep_alive) (
      Parses-bind _ (Parses-properties has _ p.properties good.properties_ok) (
        Parses-bind _ (Parses-Reads _ (Reads-utf8_string p.client_id good.client_id_ok.1)) (
          Parses-bind _ (Parses-will has p.will _ good.will_ok) (
            Parses-bind _ (Parses-optional p.username _ good.username_ok)
              (Parses-map _ (Parses-optional p.password _ good.password_ok))))))

  Parses-flags :
      (has : Bool)
      → Parses
          (read_connect_fields has
            (has_bit 0x02 (flags_of p))
            (has_bit 0x04 (flags_of p))
            (will_qos (flags_of p))
            (has_bit 0x20 (flags_of p))
            (has_bit 0x40 (flags_of p))
            (has_bit 0x80 (flags_of p)))
          (connect_fields has p)
          0
          (record p { will = will_received has p.will; properties = kept has p.properties })
  Parses-flags has =
      let bits =
        connect_flags-ReadsFlags p.clean_session (will_kind p.will) (is_some p.password)
          (is_some p.username) in
      rw
        (
          bits.clean_bit, bits.will_bit, bits.qos_bits, bits.retain_bit, bits.password_bit,
          bits.username_bit,
        )
        (Parses-fields has)

has_level : (version : MqttVersion) → (is_v5 version || protocol_level version == 5) ≡ is_v5 version
has_level v3_1_1 = refl
has_level v3 = refl
has_level v5 = refl

name-IsUtf8 : IsUtf8 mqtt_name
unfolding is_utf8
name-IsUtf8 = refl

name_known :
    (not (same_string mqtt_name mqtt_name) && not (same_string mqtt_name mqisdp_name)) ≡ false
unfolding same_string
name_known = refl

module _ (version : MqttVersion) (p : Connect) (good : IsConnect version p) where
  -- The decoder gives the packet back from its frame, whatever bytes follow it.
  pub decode_connect-frame :
      (rest : List ℕ)
      → decode_connect version (frame 0x10 (connect_content version p) ++ rest)
        ≡ ok (connect_received version p)
  unfolding decode_connect read_connect
  decode_connect-frame rest =
      decode_frame_lem 0x10 rest
        (Finishes-Parses (
          Parses-bind _ (Parses-Reads _ (Reads-utf8_string mqtt_name name-IsUtf8)) (
            Parses-bind _ (Parses-Reads _ (Reads-get_byte (protocol_level version))) (
              Parses-check _ name_known (
                Parses-bind _ {cs = connect_fields (is_v5 version) p}
                  (Parses-Reads _ (Reads-get_byte (flags_of p)))
                  (rw (has_level version) (Parses-flags version p good (is_v5 version))))))))
        good.size
