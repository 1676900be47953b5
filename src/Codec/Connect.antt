-- ===== src/Codec/Connect.antt =====
-- CONNECT, crates/mqtt-packet/src/codec.rs, lines 27 to 222.
pub mod Flags
pub mod RoundTrip
use mqtt_async_embedded.Prelude.{
  ℕ, ◌+◌, ◌*◌, ◌/◌, bit_and, bit_or, Bool, true, false, not, ◌&&◌, ◌||◌, Option, none, some, List,
  [], ◌∷◌, ◌==◌, if◌then◌else◌,
}
use mqtt_async_embedded.Exec.{Result, Exec, pure, fail_if, ◌>>=◌, ◌>>◌, malformed_packet}
use mqtt_async_embedded.Wire.{Writer, put_byte, put_slice, on_rest, when, to_be_bytes, get_byte}
use mqtt_async_embedded.Fields.{
  read_utf8_string, read_binary_data, write_utf8_string, write_binary_data,
}
use mqtt_async_embedded.Types.{QoS, qos_from, qos_code, MqttVersion, v3_1_1, v3, v5, Will, Connect}
use mqtt_async_embedded.Properties.{write_properties}
use mqtt_async_embedded.Codec.Frame.{is_v5, encode_frame, decode_frame, read_u16, properties_if}

-- "MQTT" and "MQIsdp"
abbrev pub mqtt_name : List ℕ
mqtt_name = b'M' ∷ b'Q' ∷ b'T' ∷ b'T' ∷ []

abbrev pub mqisdp_name : List ℕ
mqisdp_name = b'M' ∷ b'Q' ∷ b'I' ∷ b's' ∷ b'd' ∷ b'p' ∷ []

-- The byte behind the protocol name.
abbrev pub protocol_level : MqttVersion → ℕ
protocol_level v3_1_1 = 0x04
protocol_level v3 = 0x04
protocol_level v5 = 0x05

-- `==` on strings
unfoldable pub same_string : List ℕ → List ℕ → Bool
same_string [] [] = true
same_string [] (y ∷ ys) = false
same_string (x ∷ xs) [] = false
same_string (x ∷ xs) (y ∷ ys) = x == y && same_string xs ys

abbrev pub is_some : {A : Type 0} → Option A → Bool
is_some none = false
is_some (some a) = true

-- `flags |= bits` under a test
abbrev pub or_if : Bool → ℕ → ℕ → ℕ
or_if b bits flags = if b then bit_or flags bits else flags

-- The flags of the will, by its level of service and `retain`.
unfoldable pub will_flags : Option (QoS × Bool) → ℕ → ℕ
will_flags none flags = flags
will_flags (some (qos, retain)) flags =
    or_if retain 0x20 (bit_or (bit_or flags 0x04) (qos_code qos * 8))

unfoldable pub connect_flags : Bool → Option (QoS × Bool) → Bool → Bool → ℕ
unfolding will_flags
connect_flags clean_session will has_password has_username =
    or_if has_username 0x80 (or_if has_password 0x40 (will_flags will (or_if clean_session 0x02 0)))

abbrev pub will_kind : Option Will → Option (QoS × Bool)
will_kind none = none
will_kind (some w) = some (w.qos, w.retain)

abbrev pub flags_of : Connect → ℕ
flags_of p =
    connect_flags p.clean_session (will_kind p.will) (is_some p.password) (is_some p.username)

-- `if let Some(ref will) = self.will { … }`
pub write_will : MqttVersion → Option Will → Exec Writer (Unit {0})
write_will version none = pure tt
write_will version (some w) = do
  when (is_v5 version) (write_properties w.properties)
  on_rest (write_utf8_string w.topic)
  on_rest (write_binary_data w.payload)

-- `if let Some(s) = s { cursor += write_utf8_string(…)? }`
pub write_optional : Option (List ℕ) → Exec Writer (Unit {0})
write_optional none = pure tt
write_optional (some s) = on_rest (write_utf8_string s)

pub write_connect : MqttVersion → Connect → Exec Writer (Unit {0})
write_connect version p = do
  on_rest (write_utf8_string mqtt_name)
  put_byte (protocol_level version)
  put_byte (flags_of p)
  put_slice (to_be_bytes p.keep_alive)
  when (is_v5 version) (write_properties p.properties)
  on_rest (write_utf8_string p.client_id)
  write_will version p.will
  write_optional p.username
  write_optional p.password

pub encode_connect : MqttVersion → Connect → Exec (List ℕ) ℕ
encode_connect version p = encode_frame 0x10 (write_connect version p)

-- `(flags & bit) != 0`
abbrev pub has_bit : ℕ → ℕ → Bool
has_bit bit flags = not (bit_and flags bit == 0)

abbrev pub will_qos : ℕ → QoS
will_qos flags = qos_from (bit_and (flags / 8) 0x03)

-- `let will = if will_flag { … Some(Will { … }) } else { None }`
pub read_will : Bool → Bool → QoS → Bool → List ℕ → ℕ → Exec ℕ (Option Will)
read_will false has_properties qos retain buf content_end = pure none
read_will true has_properties qos retain buf content_end = do
  will_props ← properties_if has_properties buf content_end
  topic ← read_utf8_string buf
  payload ← read_binary_data buf
  pure (
      some (record {
        topic = topic;
        payload = payload;
        qos = qos;
        retain = retain;
        properties = will_props;
      }))

pub read_optional : Bool → List ℕ → Exec ℕ (Option (List ℕ))
read_optional false buf = pure none
read_optional true buf = do s ← read_utf8_string buf; pure (some s)

-- The decoder behind the flags; `has_properties` is `version == V5 || protocol_level == 5`.
pub read_connect_fields :
    Bool → Bool → Bool → QoS → Bool → Bool → Bool → List ℕ → ℕ → Exec ℕ Connect
read_connect_fields has_properties clean_session will_flag qos retain password_flag username_flag
      buf content_end =
    do
      keep_alive ← read_u16 buf content_end
      properties ← properties_if has_properties buf content_end
      client_id ← read_utf8_string buf
      will ← read_will will_flag has_properties qos retain buf content_end
      username ← read_optional username_flag buf
      password ← read_optional password_flag buf
      pure (record {
        clean_session = clean_session;
        keep_alive = keep_alive;
        client_id = client_id;
        username = username;
        password = password;
        will = will;
        properties = properties;
      })

pub read_connect : MqttVersion → List ℕ → ℕ → Exec ℕ Connect
read_connect version buf content_end = do
  protocol_name ← read_utf8_string buf
  level ← get_byte buf
  fail_if (not (same_string protocol_name mqtt_name) && not (same_string protocol_name mqisdp_name))
      malformed_packet
  flags ← get_byte buf
  read_connect_fields (is_v5 version || level == 5) (has_bit 0x02 flags) (has_bit 0x04 flags)
      (will_qos flags) (has_bit 0x20 flags) (has_bit 0x40 flags) (has_bit 0x80 flags) buf
      content_end

pub decode_connect : MqttVersion → List ℕ → Result Connect
decode_connect version buf = decode_frame (read_connect version) buf
