-- ===== src/Codec/Disconnect/RoundTrip.antt =====
-- The wire forms of PINGREQ, PINGRESP and DISCONNECT, and the lemmas on their codecs.
use mqtt_async_embedded.Prelude.{
  ℕ, ◌+◌, ◌≤◌, ◌<◌, ◌≡◌, refl, ◌&&◌, true, List, [], ◌∷◌, ◌++◌, length, arith, lt→ltb, le→ltb,
  length-append,
}
use mqtt_async_embedded.Exec.{ok, err, buffer_too_small}
use mqtt_async_embedded.Wire.Writes.{Writes, Writes-when, Guards, Guards-seq, Guards-put_byte}
use mqtt_async_embedded.Varint.Encoding.{varint, varint_limit, length-groups}
use mqtt_async_embedded.Types.{MqttVersion, Property, Disconnect}
use mqtt_async_embedded.Properties.RoundTrip.{ArePropertiesOk}
use mqtt_async_embedded.Codec.Frame.{is_v5}
use mqtt_async_embedded.Codec.Frame.Encodes.{Encodes, Encodes-frame, frame, frame_fits}
use mqtt_async_embedded.Codec.Frame.Parses.{Parses-map, Finishes-Parses, decode_frame_lem}
use mqtt_async_embedded.Codec.Ack.{has_reason, write_reason}
use mqtt_async_embedded.Codec.Ack.RoundTrip.{
  reason_bytes, reason_received, Writes-reason, Parses-reason,
}
use mqtt_async_embedded.Codec.Disconnect.{
  write_ping, encode_ping_req, encode_ping_resp, write_disconnect, encode_disconnect,
  read_disconnect, decode_disconnect,
}

module _ (first_byte : ℕ) where
  Encodes-ping : Encodes (write_ping first_byte) (first_byte ∷ 0 ∷ []) 2
  unfolding write_ping
  Encodes-ping = record { fits = fits; short = short }
    where
      fits :
          (buf : List ℕ)
          → 2 ≤ length buf
          → (junk : List ℕ) × (write_ping first_byte buf ≡ (ok 2, (first_byte ∷ 0 ∷ []) ++ junk))
            × (length ((first_byte ∷ 0 ∷ []) ++ junk) ≡ length buf)
      fits (a ∷ b ∷ room) h = (room, rw (le→ltb (length (a ∷ b ∷ room)) 2 (omega arith)) refl, refl)
      fits _ h = absurd (omega arith)

      short : (buf : List ℕ) → length buf < 2 → (write_ping first_byte buf).0 ≡ err buffer_too_small
      short buf h = rw (lt→ltb (length buf) 2 h)

pub Encodes-ping_req : Encodes encode_ping_req (0xc0 ∷ 0 ∷ []) 2
unfolding encode_ping_req
Encodes-ping_req = Encodes-ping 0xc0

pub Encodes-ping_resp : Encodes encode_ping_resp (0xd0 ∷ 0 ∷ []) 2
unfolding encode_ping_resp
Encodes-ping_resp = Encodes-ping 0xd0

abbrev pub disconnect_content : MqttVersion → Disconnect → List ℕ
disconnect_content version p = reason_bytes (is_v5 version) p.reason_code p.properties

pub record IsDisconnect (version : MqttVersion) (p : Disconnect) : Type 0 where
  pub properties_ok : ArePropertiesOk p.properties
  pub size : length (disconnect_content version p) < varint_limit

abbrev pub disconnect_received : MqttVersion → Disconnect → Disconnect
disconnect_received version p =
    let r : ℕ × List Property = reason_received (is_v5 version) p.reason_code p.properties in
    record { reason_code = r.0; properties = r.1 }

disconnect-Guards :
    (version : MqttVersion) (p : Disconnect)
    → (is_v5 version && has_reason p.reason_code p.properties) ≡ true
    → Guards (write_disconnect version p)
unfolding write_disconnect write_reason
disconnect-Guards version p says = rw says (Guards-seq _ (Guards-put_byte p.reason_code))

module _ (version : MqttVersion) (p : Disconnect) (good : IsDisconnect version p) where
  disconnect-Writes : Writes (write_disconnect version p) (disconnect_content version p)
  unfolding write_disconnect
  disconnect-Writes =
      Writes-when (is_v5 version && has_reason p.reason_code p.properties)
        (Writes-reason p.reason_code p.properties good.properties_ok)

  -- In a buffer with five bytes more than the content the encoder writes the frame.
  pub disconnect_fits :
      (buf : List ℕ)
      → 5 + length (disconnect_content version p) ≤ length buf
      → (junk : List ℕ) × (encode_disconnect version p buf ≡ (
        ok (length (frame 0xe0 (disconnect_content version p))),
        frame 0xe0 (disconnect_content version p) ++ junk,
      ))
        × (length (frame 0xe0 (disconnect_content version p) ++ junk) ≡ length buf)
  unfolding encode_disconnect
  disconnect_fits = frame_fits 0xe0 disconnect-Writes good.size

  -- With something to say, in buffers of every size.
  pub Encodes-disconnect :
      (is_v5 version && has_reason p.reason_code p.properties) ≡ true
      → Encodes
          (encode_disconnect version p)
          (frame 0xe0 (disconnect_content version p))
          (5 + length (disconnect_content version p))
  unfolding encode_disconnect
  Encodes-disconnect says =
      Encodes-frame 0xe0 disconnect-Writes good.size (disconnect-Guards version p says)

  pub decode_disconnect-frame :
      (rest : List ℕ)
      → decode_disconnect version (frame 0xe0 (disconnect_content version p) ++ rest)
        ≡ ok (disconnect_received version p)
  unfolding decode_disconnect read_disconnect
  decode_disconnect-frame rest =
      rw (lt→ltb 1 (length (frame 0xe0 (disconnect_content version p) ++ rest)) long) (
        decode_frame_lem 0xe0 rest
          (Finishes-Parses (
            Parses-map _
              (Parses-reason (is_v5 version) p.reason_code p.properties good.properties_ok)))
          good.size)
    where
      long : 1 < length (frame 0xe0 (disconnect_content version p) ++ rest)
      long = omega (
        arith,
        length-append
            (varint (length (disconnect_content version p)) ++ disconnect_content version p) rest,
        length-append (varint (length (disconnect_content version p)))
            (disconnect_content version p),
        length-groups 9 (length (disconnect_content version p)),
      )
