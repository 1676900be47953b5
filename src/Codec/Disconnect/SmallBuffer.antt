-- ===== src/Codec/Disconnect/SmallBuffer.antt =====
-- DISCONNECT with nothing to say in a buffer that is too small.
use mqtt_async_embedded.Prelude.{ℕ, ◌≤◌, ◌<◌, ◌≡◌, ◌&&◌, false, List, length}
use mqtt_async_embedded.Exec.{err, panic, buffer_too_small}
use mqtt_async_embedded.Types.{MqttVersion, Disconnect}
use mqtt_async_embedded.Codec.Frame.{is_v5}
use mqtt_async_embedded.Codec.Frame.Empty.{frame_empty_panics, frame_empty_short}
use mqtt_async_embedded.Codec.Ack.{has_reason}
use mqtt_async_embedded.Codec.Disconnect.{write_disconnect, encode_disconnect}

module _ (version : MqttVersion) (p : Disconnect)
    (silent : (is_v5 version && has_reason p.reason_code p.properties) ≡ false) (buf : List ℕ) where
  -- A DISCONNECT with no reason code and no properties to write panics in a buffer of two to four
  -- bytes.
  pub disconnect_panics :
      2 ≤ length buf → length buf ≤ 4 → (encode_disconnect version p buf).0 ≡ panic
  unfolding encode_disconnect write_disconnect
  disconnect_panics h k = rw silent (frame_empty_panics 0xe0 buf h k)

  pub disconnect_short : length buf < 2 → (encode_disconnect version p buf).0 ≡ err buffer_too_small
  unfolding encode_disconnect write_disconnect
  disconnect_short h = rw silent (frame_empty_short 0xe0 buf h)
