-- ===== src/EmbeddedClient/Datagrams.antt =====
-- crates/mqtt-embedded/src/client.rs: `QuicMqttClient`, over a transport that is a parameter.
use mathlib.Core.Path.{ap₂}
use mqtt_async_embedded.Prelude.{
  ℕ, ◌+◌, ◌/◌, ◌≤◌, ◌≡◌, refl, ap, ◌∙◌, false, Option, none, some, List, ◌++◌, length, take, drop,
  replicate, ltb, ◌==◌, if◌then◌else◌, arith, length-append, length-drop, sym, take-length-append,
  append_assoc,
}
use mqtt_async_embedded.Exec.{Result, ok, err, panic, invalid_packet_type}
use mqtt_async_embedded.EmbeddedErrors.{MqttError, QuicErrorKind, ProtocolError, client_error_from}
use mqtt_async_embedded.Types.{MqttVersion, MqttPacket}
use mqtt_async_embedded.Fields.{write_utf8_string}
use mqtt_async_embedded.Fields.RoundTrip.{prefixed, write_utf8_string-prefixed}
use mqtt_async_embedded.Codec.Dispatch.{decode, decode_type}
use mqtt_async_embedded.EmbeddedClient.{
  NetResult, net_ok, net_err, Outcome, done, failed, panics, MqttOptions,
}
use mqtt_async_embedded.EmbeddedClient.Polling.{MqttEvent, event_publish}

pub record QuicTransport (Q E : Type 0) : Type 0 where
  pub send_datagram : List ℕ → Q → NetResult E (Unit {0}) × Q
  pub recv_datagram : List ℕ → Q → NetResult E ℕ × List ℕ × Q

pub record QuicMqttClient (Q : Type 0) : Type 0 where
  pub transport : Q
  pub options : MqttOptions
  pub rx_buf : List ℕ

-- `BUF_SIZE` is an argument.
unfoldable pub new_quic_client : {Q : Type 0} → ℕ → Q → MqttOptions → QuicMqttClient Q
new_quic_client size transport options = record {
  transport = transport;
  options = options;
  rx_buf = replicate size 0;
}

module _ {Q E : Type 0} (q : QuicTransport Q E) where
  abbrev pub after_datagram :
      NetResult E (Unit {0}) × Q → QuicMqttClient Q → Outcome E (Unit {0}) × QuicMqttClient Q
  after_datagram (net_ok u, t) c = (done tt, record c { transport = t })
  after_datagram (net_err e, t) c = (failed (MqttError.transport e), record c { transport = t })

  -- The statements behind `write_utf8_string`.
  abbrev pub send_behind :
      List ℕ → Result ℕ × List ℕ → QuicMqttClient Q → Outcome E (Unit {0}) × QuicMqttClient Q
  send_behind payload (ok cursor, buf) c =
      if ltb (length buf) (cursor + length payload)
      then (failed (MqttError.quic_error QuicErrorKind.datagram_too_large), c)
      else after_datagram
          (QuicTransport.send_datagram q
            (take (cursor + length payload)
              (take cursor buf ++ (payload ++ drop (cursor + length payload) buf)))
            (QuicMqttClient.transport c))
          c
  send_behind payload (err e, buf) c = (failed (client_error_from e), c)
  send_behind payload (panic, buf) c = (panics, c)

  unfoldable pub publish_datagram :
      List ℕ → List ℕ → QuicMqttClient Q → Outcome E (Unit {0}) × QuicMqttClient Q
  publish_datagram topic payload c =
      send_behind payload (write_utf8_string topic (replicate 1024 0)) c

  abbrev pub datagram_event : Result (Option MqttPacket) → Outcome E (Option MqttEvent)
  datagram_event (ok (some (MqttPacket.publish p))) = done (some (event_publish p))
  datagram_event (ok packet) = done none
  datagram_event (err e) = failed (client_error_from e)
  datagram_event panic = panics

  abbrev pub after_recv_datagram :
      NetResult E ℕ × List ℕ × Q
      → QuicMqttClient Q
      → Outcome E (Option MqttEvent) × QuicMqttClient Q
  after_recv_datagram (net_err e, buf, t) c =
      (failed (MqttError.transport e), record c { rx_buf = buf; transport = t })
  after_recv_datagram (net_ok n, buf, t) c = (
    if n == 0
        then done none
        else if ltb (length buf) n
        then panics
        else datagram_event (decode (MqttOptions.version (QuicMqttClient.options c)) (take n buf)),
    record c { rx_buf = buf; transport = t },
  )

  unfoldable pub recv_datagram : QuicMqttClient Q → Outcome E (Option MqttEvent) × QuicMqttClient Q
  recv_datagram c =
      after_recv_datagram
        (QuicTransport.recv_datagram q (QuicMqttClient.rx_buf c) (QuicMqttClient.transport c)) c

-- What `publish_datagram` sends begins with the length of the topic and not with the header of a
-- packet.
decode-datagram :
    (version : MqttVersion) (topic payload : List ℕ)
    → length topic ≤ 1022
    → decode version (prefixed topic ++ payload) ≡ err (invalid_packet_type 0)
unfolding decode decode_type
decode-datagram version topic payload short =
    let zero_type : length topic / 256 / 16 ≡ 0 = omega arith in rw zero_type refl

module _ {Q E : Type 0} (q : QuicTransport Q E) (topic payload : List ℕ)
    (room : 2 + length topic + length payload ≤ 1024) where
  abbrev datagram : List ℕ
  datagram = prefixed topic ++ payload

  -- The statements behind the reading of the topic send the datagram, whatever lay in the buffer.
  sends_datagram :
      (buf : List ℕ) (c : QuicMqttClient Q)
      → length buf ≡ 1024
      → send_behind q payload (write_utf8_string topic buf) c
        ≡ after_datagram q (QuicTransport.send_datagram q datagram (QuicMqttClient.transport c)) c
  sends_datagram buf c size =
      let cursor = length (prefixed topic) in
      let behind = drop cursor buf in
      let filled = prefixed topic ++ behind in
      let end = cursor + length payload in
      let long : length filled ≡ 1024 =
        omega (arith, length-append (prefixed topic) behind, length-drop cursor buf) in
      let fits : ltb (length filled) end ≡ false = ground (arith, long) in
      let whole : take end (prefixed topic ++ (payload ++ drop end filled)) ≡ datagram =
        ap₂ take (sym (length-append (prefixed topic) payload))
          (sym (append_assoc (prefixed topic) payload (drop end filled)))
        ∙ take-length-append datagram (drop end filled) in
      rw (write_utf8_string-prefixed topic buf (omega arith) (omega arith), fits)
        (ap
          (λ bytes.
            after_datagram q (QuicTransport.send_datagram q bytes (QuicMqttClient.transport c)) c)
          (ap (λ l. take end (l ++ (payload ++ drop end filled)))
              (take-length-append (prefixed topic) behind)
            ∙ whole))

  refused_datagram :
      (behind : List ℕ) (d : QuicMqttClient Q) (r : Q)
      → (after_recv_datagram q (net_ok (length datagram), datagram ++ behind, r) d).0
        ≡ failed (MqttError.protocol (ProtocolError.invalid_packet_type 0))
  unfolding client_error_from
  refused_datagram behind d r =
      let some_bytes : (length datagram == 0) ≡ false =
        ground (arith, length-append (prefixed topic) payload) in
      let within : ltb (length (datagram ++ behind)) (length datagram) ≡ false =
        ground (arith, length-append datagram behind) in
      rw
        (
          some_bytes,
          within,
          take-length-append datagram behind,
          decode-datagram (MqttOptions.version (QuicMqttClient.options d)) topic payload
              (omega arith),
        )
        refl

  -- A datagram of at most 1024 bytes that one client publishes and the transport takes is sent as the
  -- topic with its length and the payload; a client that receives these bytes answers that packet type
  -- 0 is invalid.
  pub recv_datagram-publish_datagram :
      (behind : List ℕ) (c d : QuicMqttClient Q) (t r : Q)
      → QuicTransport.send_datagram q (prefixed topic ++ payload) (QuicMqttClient.transport c)
        ≡ (net_ok tt, t)
      → QuicTransport.recv_datagram q (QuicMqttClient.rx_buf d) (QuicMqttClient.transport d)
        ≡ (net_ok (length (prefixed topic ++ payload)), (prefixed topic ++ payload) ++ behind, r)
      → (publish_datagram q topic payload c ≡ (done tt, record c { transport = t }))
        × ((recv_datagram q d).0
            ≡ failed (MqttError.protocol (ProtocolError.invalid_packet_type 0)))
  unfolding publish_datagram recv_datagram
  recv_datagram-publish_datagram behind c d t r sent received = (
    sends_datagram (replicate 1024 0) c refl ∙ ap (λ a. after_datagram q a c) sent,
    ap (λ a. (after_recv_datagram q a d).0) received ∙ refused_datagram behind d r,
  )
