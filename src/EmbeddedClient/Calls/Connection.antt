-- ===== src/EmbeddedClient/Calls/Connection.antt =====
-- The state of the connection after `connect`.
use mqtt_async_embedded.Prelude.{
  ℕ, ◌≡◌, refl, sym, false, Option, none, some, List, length, take, ltb, ◌==◌, Bool-cases, inl, inr,
}
use mqtt_async_embedded.Exec.{Result, ok, err, panic, Exec}
use mqtt_async_embedded.Types.{ConnAck, MqttPacket}
use mqtt_async_embedded.Codec.Connect.{encode_connect}
use mqtt_async_embedded.EmbeddedClient.{
  Platform, NetResult, net_ok, net_err, Outcome, done, failed, panics, is_done, connecting,
  MqttClient, Act, after, ◌>>=◌, ◌>>◌, is_connected, after_encode, encode_tx, after_send,
  after_recv, from_result, send_bytes, send_tx, recv_rx, touch_tx, touch_rx, transmit, decode_rx,
}
use mqtt_async_embedded.EmbeddedClient.Calls.{
  version_of, connect_packet, connect_reply, connect_read, connect,
}

-- The client is down, before and after an action.
abbrev pub StaysDown : {T E A : Type 0} → Act T E A → Type 0
StaysDown {T} m = (c : MqttClient T) → is_connected c ≡ false → is_connected (m c).1 ≡ false

-- From a client that is down, an action succeeds exactly if the client is up after it.
abbrev Settles : {T E A : Type 0} → Act T E A → Type 0
Settles {T} m = (c : MqttClient T) → is_connected c ≡ false → is_done (m c).0 ≡ is_connected (m c).1

module _ {T E A B : Type 0} where
  StaysDown-bind :
      (m : Act T E A) (f : A → Act T E B)
      → StaysDown m
      → ((a : A) → StaysDown (f a))
      → StaysDown (m >>= f)
  StaysDown-bind m f first rest c down = go (m c) (first c down)
    where
      go :
          (r : Outcome E A × MqttClient T)
          → is_connected r.1 ≡ false
          → is_connected (after r f).1 ≡ false
      go (done a, d) h = rest a d h
      go (failed e, d) h = h
      go (panics, d) h = h

  Settles-bind :
      (m : Act T E A) (f : A → Act T E B)
      → StaysDown m
      → ((a : A) → Settles (f a))
      → Settles (m >>= f)
  Settles-bind m f first rest c down = go (m c) (first c down)
    where
      go :
          (r : Outcome E A × MqttClient T)
          → is_connected r.1 ≡ false
          → is_done (after r f).0 ≡ is_connected (after r f).1
      go (done a, d) h = rest a d h
      go (failed e, d) h = sym h
      go (panics, d) h = sym h

module _ {T E : Type 0} (p : Platform T E) where
  StaysDown-encode_tx : (encoder : Exec (List ℕ) ℕ) → StaysDown {T = T} {E = E} (encode_tx encoder)
  unfolding encode_tx
  StaysDown-encode_tx encoder c down = go (encoder (MqttClient.tx_buffer c))
    where
      go : (r : Result ℕ × List ℕ) → is_connected (after_encode {T = T} {E = E} r c).1 ≡ false
      go (ok n, buf) = down
      go (err e, buf) = down
      go (panic, buf) = down

  StaysDown-send_tx : (n : ℕ) → StaysDown (send_tx p n)
  unfolding send_tx send_bytes
  StaysDown-send_tx n c down = elim (Bool-cases (ltb (length (MqttClient.tx_buffer c)) n)) [
    | inl short ↦ rw short down
    | inr long ↦
        rw long (go (Platform.send p (take n (MqttClient.tx_buffer c)) (MqttClient.transport c)))
  ]
    where
      go :
          (r : NetResult E (Unit {0}) × T) → is_connected (after_send {T = T} {E = E} r c).1 ≡ false
      go (net_ok u, t) = down
      go (net_err e, t) = down

  StaysDown-transmit : (encoder : Exec (List ℕ) ℕ) → StaysDown (transmit p encoder)
  unfolding transmit
  StaysDown-transmit encoder =
      StaysDown-bind (encode_tx encoder) (send_tx p) (StaysDown-encode_tx encoder) StaysDown-send_tx

  StaysDown-recv_rx : StaysDown (recv_rx p)
  unfolding recv_rx
  StaysDown-recv_rx c down = go (Platform.recv p (MqttClient.rx_buffer c) (MqttClient.transport c))
    where
      go :
          (r : NetResult E ℕ × List ℕ × T) → is_connected (after_recv {T = T} {E = E} r c).1 ≡ false
      go (net_ok n, buf, t) = down
      go (net_err e, buf, t) = down

  StaysDown-decode_rx : (n : ℕ) → StaysDown {T = T} {E = E} (decode_rx n)
  unfolding decode_rx
  StaysDown-decode_rx n c down = elim (Bool-cases (ltb (length (MqttClient.rx_buffer c)) n)) [
    | inl short ↦ rw short down
    | inr long ↦ rw long (go _)
  ]
    where
      go :
          (r : Result (Option MqttPacket))
          → is_connected (from_result {T = T} {E = E} r c).1 ≡ false
      go (ok a) = down
      go (err e) = down
      go panic = down

  Settles-connect_reply : (r : Option MqttPacket) → Settles (connect_reply p r)
  unfolding connect_reply
  Settles-connect_reply none c down = refl
  Settles-connect_reply (some (MqttPacket.conn_ack a)) c down =
      elim (Bool-cases (ConnAck.reason_code a == 0)) [
        | inl welcome ↦ rw welcome refl
        | inr turned_away ↦ rw turned_away refl
      ]
  Settles-connect_reply (some (MqttPacket.connect a)) c down = refl
  Settles-connect_reply (some (MqttPacket.publish a)) c down = refl
  Settles-connect_reply (some (MqttPacket.ack k a)) c down = refl
  Settles-connect_reply (some (MqttPacket.subscribe a)) c down = refl
  Settles-connect_reply (some (MqttPacket.sub_reply k a)) c down = refl
  Settles-connect_reply (some (MqttPacket.unsubscribe a)) c down = refl
  Settles-connect_reply (some MqttPacket.ping_req) c down = refl
  Settles-connect_reply (some MqttPacket.ping_resp) c down = refl
  Settles-connect_reply (some (MqttPacket.disconnect a)) c down = refl

  Settles-connect_read : (n : ℕ) → Settles (connect_read p n)
  unfolding connect_read
  Settles-connect_read n c down = elim (Bool-cases (n == 0)) [
    | inl empty ↦ rw empty refl
    | inr full ↦ rw full (
        Settles-bind (touch_rx p) (λ u. decode_rx n >>= connect_reply p) (λ d h. h)
          (λ u.
            Settles-bind (decode_rx n) (connect_reply p) (StaysDown-decode_rx n)
              Settles-connect_reply)
          c down)
  ]

  -- Whatever the platform answers and whatever state the client was in, `connect` answers `Ok`
  -- exactly if the client is connected after it.
  pub connect_settles : (c : MqttClient T) → is_done (connect p c).0 ≡ is_connected (connect p c).1
  unfolding connect
  connect_settles c =
      let encoder = encode_connect (version_of c) (connect_packet p (MqttClient.options c)) in
      let read = recv_rx p >>= connect_read p in
      Settles-bind (transmit p encoder) (λ u. touch_tx p >> read) (StaysDown-transmit encoder)
        (λ u.
          Settles-bind (touch_tx p) (λ w. read) (λ d h. h)
            (λ w. Settles-bind (recv_rx p) (connect_read p) StaysDown-recv_rx Settles-connect_read))
        (record c { state = connecting }) refl
