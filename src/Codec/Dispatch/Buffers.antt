-- ===== src/Codec/Dispatch/Buffers.antt =====
-- `encode` in buffers of every size.
use mqtt_async_embedded.Prelude.{
  ℕ, ◌+◌, ◌≤◌, ◌<◌, ◌≡◌, refl, sym, ap, ◌∙◌, true, ◌&&◌, some, List, [], ◌∷◌, ◌++◌, length, take,
  arith, append-nil, take-length-append, length-append, subst,
}
use mqtt_async_embedded.Exec.{ok, err, Exec, buffer_too_small}
use mqtt_async_embedded.Varint.Encoding.{groups}
use mqtt_async_embedded.Types.{
  MqttVersion, MqttPacket, connect, conn_ack, publish, ack, subscribe, sub_reply, unsubscribe,
  ping_req, ping_resp, disconnect,
}
use mqtt_async_embedded.Codec.Frame.{is_v5}
use mqtt_async_embedded.Codec.Frame.Encodes.{Encodes, frame}
use mqtt_async_embedded.Codec.Connect.RoundTrip.{Encodes-connect}
use mqtt_async_embedded.Codec.ConnAck.RoundTrip.{Encodes-conn_ack}
use mqtt_async_embedded.Codec.Publish.RoundTrip.{Encodes-publish}
use mqtt_async_embedded.Codec.Ack.{has_reason}
use mqtt_async_embedded.Codec.Ack.RoundTrip.{Encodes-ack}
use mqtt_async_embedded.Codec.Subscribe.RoundTrip.{Encodes-subscribe}
use mqtt_async_embedded.Codec.SubReply.RoundTrip.{Encodes-sub_reply}
use mqtt_async_embedded.Codec.Unsubscribe.RoundTrip.{Encodes-unsubscribe}
use mqtt_async_embedded.Codec.Disconnect.RoundTrip.{
  disconnect_fits, Encodes-ping_req, Encodes-ping_resp, Encodes-disconnect,
}
use mqtt_async_embedded.Codec.Dispatch.{encode, decode}
use mqtt_async_embedded.Codec.Dispatch.RoundTrip.{
  IsPacket, packet_content, packet_bytes, packet_received, decode-packet_bytes,
}

-- The size of buffer that an encoder asks for: its reserved four bytes count in full.
abbrev pub buffer_need : MqttVersion → MqttPacket → ℕ
buffer_need version ping_req = 2
buffer_need version ping_resp = 2
buffer_need version p = 5 + length (packet_content version p)

-- A packet other than a DISCONNECT that has no content.
abbrev pub SaysSomething : MqttVersion → MqttPacket → Type 0
SaysSomething version (disconnect p) =
    (is_v5 version && has_reason p.reason_code p.properties) ≡ true
SaysSomething version _ = Unit {0}

ping_bytes : (b : ℕ) → frame b [] ≡ b ∷ 0 ∷ []
unfolding groups
ping_bytes b = refl

ping-Encodes : (b : ℕ) (m : Exec (List ℕ) ℕ) → Encodes m (b ∷ 0 ∷ []) 2 → Encodes m (frame b []) 2
ping-Encodes b m = subst (λ bs. Encodes m bs 2) (sym (ping_bytes b))

-- What `encode` does in a buffer of any size.
pub encode-Encodes :
    (version : MqttVersion) (p : MqttPacket)
    → IsPacket version p
    → SaysSomething version p
    → Encodes (encode p version) (packet_bytes version p) (buffer_need version p)
unfolding encode packet_bytes
encode-Encodes version (connect p) good says = Encodes-connect version p good
encode-Encodes version (conn_ack p) good says = Encodes-conn_ack version p good
encode-Encodes version (publish p) good says = Encodes-publish version p good
encode-Encodes version (ack kind p) good says = Encodes-ack kind version p good
encode-Encodes version (subscribe p) good says = Encodes-subscribe version p good
encode-Encodes version (sub_reply kind p) good says = Encodes-sub_reply kind version p good
encode-Encodes version (unsubscribe p) good says = Encodes-unsubscribe version p good
encode-Encodes version ping_req good says = ping-Encodes 0xc0 _ Encodes-ping_req
encode-Encodes version ping_resp good says = ping-Encodes 0xd0 _ Encodes-ping_resp
encode-Encodes version (disconnect p) good says = Encodes-disconnect version p good says

-- In a buffer of the size that it asks for, `encode` writes the bytes of the packet at the front.
pub encode-packet_bytes :
    (version : MqttVersion) (p : MqttPacket) (buf : List ℕ)
    → IsPacket version p
    → buffer_need version p ≤ length buf
    → (junk : List ℕ) × (encode p version buf
        ≡ (ok (length (packet_bytes version p)), packet_bytes version p ++ junk))
      × (length (packet_bytes version p ++ junk) ≡ length buf)
encode-packet_bytes version (disconnect p) buf good h =
    unfold encode packet_bytes in disconnect_fits version p good buf h
encode-packet_bytes version (connect p) buf good h =
    (encode-Encodes version (connect p) good tt).fits buf h
encode-packet_bytes version (conn_ack p) buf good h =
    (encode-Encodes version (conn_ack p) good tt).fits buf h
encode-packet_bytes version (publish p) buf good h =
    (encode-Encodes version (publish p) good tt).fits buf h
encode-packet_bytes version (ack kind p) buf good h =
    (encode-Encodes version (ack kind p) good tt).fits buf h
encode-packet_bytes version (subscribe p) buf good h =
    (encode-Encodes version (subscribe p) good tt).fits buf h
encode-packet_bytes version (sub_reply kind p) buf good h =
    (encode-Encodes version (sub_reply kind p) good tt).fits buf h
encode-packet_bytes version (unsubscribe p) buf good h =
    (encode-Encodes version (unsubscribe p) good tt).fits buf h
encode-packet_bytes version ping_req buf good h =
    (encode-Encodes version ping_req good tt).fits buf h
encode-packet_bytes version ping_resp buf good h =
    (encode-Encodes version ping_resp good tt).fits buf h

-- What comes back from the bytes that `encode` says it wrote.
abbrev pub RoundTrips : MqttVersion → MqttPacket → List ℕ → Type 0
RoundTrips version p buf =
    (n : ℕ) × (buf' : List ℕ) × (encode p version buf ≡ (ok n, buf'))
    × (length buf' ≡ length buf)
    × (n ≤ length buf')
    × (decode version (take n buf') ≡ ok (some (packet_received version p)))

-- A packet that the wire can hold, encoded into a large enough buffer of any content, is decoded
-- from the bytes that the encoder reports; the buffer keeps its length.
pub decode-encode :
    (version : MqttVersion) (p : MqttPacket) (buf : List ℕ)
    → IsPacket version p
    → buffer_need version p ≤ length buf
    → RoundTrips version p buf
decode-encode version p buf good h =
    let bytes : List ℕ = packet_bytes version p in
    let (junk, written, size) = encode-packet_bytes version p buf good h in
    (
      length bytes,
      bytes ++ junk,
      written,
      size,
      omega (arith, length-append bytes junk),
      ap (decode version) (take-length-append bytes junk ∙ sym (append-nil bytes))
          ∙ decode-packet_bytes version p [] good,
    )

-- A packet that the wire can hold, other than a DISCONNECT with no content, gets `BufferTooSmall` in
-- a buffer that is smaller than its encoder asks for.
pub encode_too_small :
    (version : MqttVersion) (p : MqttPacket) (buf : List ℕ)
    → IsPacket version p
    → SaysSomething version p
    → length buf < buffer_need version p
    → (encode p version buf).0 ≡ err buffer_too_small
encode_too_small version p buf good says h = (encode-Encodes version p good says).short buf h
