-- ===== src/Codec/Disconnect.antt =====
-- PINGREQ, PINGRESP and DISCONNECT, crates/mqtt-packet/src/codec.rs, lines 742 to 819.
pub mod RoundTrip
pub mod SmallBuffer
use mqtt_async_embedded.Prelude.{
  ℕ, zero, Bool, ◌&&◌, List, [], ◌∷◌, length, set, ltb, if◌then◌else◌,
}
use mqtt_async_embedded.Exec.{Result, ok, err, Exec, pure, ◌>>=◌, buffer_too_small}
use mqtt_async_embedded.Wire.{Writer, when}
use mqtt_async_embedded.Types.{MqttVersion, Disconnect}
use mqtt_async_embedded.Codec.Frame.{is_v5, encode_frame, decode_frame}
use mqtt_async_embedded.Codec.Ack.{has_reason, write_reason, read_reason}

-- The two packets with no content: the first byte, and 0.
write_ping : ℕ → Exec (List ℕ) ℕ
write_ping first_byte buf =
    if ltb (length buf) 2
    then (err buffer_too_small, buf)
    else (ok 2, set (set buf 0 first_byte) 1 0)

pub encode_ping_req : Exec (List ℕ) ℕ
unfolding write_ping
encode_ping_req = write_ping 0xc0

pub encode_ping_resp : Exec (List ℕ) ℕ
unfolding write_ping
encode_ping_resp = write_ping 0xd0

pub write_disconnect : MqttVersion → Disconnect → Exec Writer (Unit {0})
write_disconnect version p =
    when (is_v5 version && has_reason p.reason_code p.properties)
      (write_reason p.reason_code p.properties)

pub encode_disconnect : MqttVersion → Disconnect → Exec (List ℕ) ℕ
encode_disconnect version p = encode_frame 0xe0 (write_disconnect version p)

pub read_disconnect : MqttVersion → List ℕ → ℕ → Exec ℕ Disconnect
read_disconnect version buf content_end = do
  (reason_code, properties) ← read_reason (is_v5 version) buf content_end
  pure (record { reason_code = reason_code; properties = properties })

pub decode_disconnect : MqttVersion → List ℕ → Result Disconnect
decode_disconnect version buf =
    if ltb 1 (length buf)
    then decode_frame (read_disconnect version) buf
    else ok (record { reason_code = 0; properties = [] })
