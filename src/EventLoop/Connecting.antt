-- ===== src/EventLoop/Connecting.antt =====
-- `connect_with_backoff`, `perform_connect_handshake` and `perform_session_data_recovery`.
use mqtt_async_embedded.Prelude.{
  ℕ, zero, suc, ◌+◌, ◌/◌, Bool, true, false, Option, none, some, List, [], ◌∷◌, length, take, ltb,
  leb, ◌==◌, if◌then◌else◌,
}
use mqtt_async_embedded.Exec.{Result, ok, panic}
use mqtt_async_embedded.Types.{
  QoS, Will, new_will, Connect, new_connect, ConnAck, MqttPacket, new_subscribe, add_topic,
}
use mqtt_async_embedded.Codec.Connect.{encode_connect}
use mqtt_async_embedded.Codec.Publish.{encode_publish}
use mqtt_async_embedded.Codec.Subscribe.{encode_subscribe}
use mqtt_async_embedded.Codec.Dispatch.{decode}
use mqtt_async_embedded.ClientTypes.{
  PublishMessage, ClientError, ClientResult, accepted, refused, ConnectionStatus,
}
use mqtt_async_embedded.Options.{ClientOptions, ReconnectPolicy, DataRecoveryPolicy}
use mqtt_async_embedded.Options.Backoff.{Floats, compute_delay}
use mqtt_async_embedded.EventLoop.{
  Network, Outcome, done, failed, panics, hangs, EventLoop, Unacked, Act, answer, fail, ◌>>=◌, ◌>>◌,
  ignoring, version_of, encode_tx, get_next_packet_id, send_status, write_tx, flush, touch_tx,
  when_encoded,
}
use mqtt_async_embedded.EventLoop.Sending.{publish_packet, send_publish_direct}
use mqtt_async_embedded.EventLoop.Reading.{invalid_response}

-- The will of the options as the will of a packet.
abbrev pub will_of : Option PublishMessage → Option Will
will_of none = none
will_of (some m) = some (
    new_will (PublishMessage.topic m) (PublishMessage.payload m) (PublishMessage.qos m)
      (PublishMessage.retain m))

-- `keep_alive.as_secs().min(65535) as u16`
abbrev pub keep_alive_secs : ClientOptions → ℕ
keep_alive_secs o =
    let secs = ClientOptions.keep_alive o / 1000 in if ltb secs 65535 then secs else 65535

unfoldable pub connect_packet : ClientOptions → Connect
connect_packet o =
    record (new_connect (ClientOptions.client_id o) (keep_alive_secs o)
      (ClientOptions.clean_session o)) {
        username = ClientOptions.username o;
        password = ClientOptions.password o;
        will = will_of (ClientOptions.will o);
      }

abbrev pub is_nil : {A : Type 0} → List A → Bool
is_nil [] = true
is_nil (x ∷ xs) = false

-- One round of the loop has connected the client, or the loop goes on.
pub data Round : Type 0 where
  settled again : Round

-- `if let Some(max) = max_retries && self.reconnect_attempt >= max`
abbrev pub past_limit : Option ℕ → ℕ → Bool
past_limit none attempt = false
past_limit (some max) attempt = leb max attempt

module _ {T : Type 0} where
  unfoldable pub set_transport : Bool → Act T (Unit {0})
  set_transport b s = (done tt, record s { has_transport = b })

  unfoldable pub reset_attempts : Act T (Unit {0})
  reset_attempts s = (done tt, record s { reconnect_attempt = 0 })

  unfoldable pub announce_delay : Option ℕ → Act T (Unit {0})
  announce_delay none = λ s. (panics, s)
  announce_delay (some delay) = λ s.
      if ltb 0 delay
      then send_status (ConnectionStatus.reconnecting (EventLoop.reconnect_attempt s) delay) s
      else (done tt, s)

  unfoldable pub give_up : ClientError → Act T Round
  give_up e s =
      if past_limit (ReconnectPolicy.max_retries (ClientOptions.reconnect (EventLoop.options s)))
        (EventLoop.reconnect_attempt s)
      then (failed e, s)
      else (done again, s)

module _ {T : Type 0} (n : Network T) where
  unfoldable pub handshake_reply : Result (Option MqttPacket) → Act T (Unit {0})
  handshake_reply (ok (some (MqttPacket.conn_ack a))) =
      if ConnAck.reason_code a == 0
      then answer tt
      else fail (ClientError.connection_refused (ConnAck.reason_code a))
  handshake_reply panic = λ s. (panics, s)
  handshake_reply _ = fail invalid_response

  -- The statements behind the read of the CONNACK.
  unfoldable pub handshake_read : Option (ClientResult ℕ) → Act T (Unit {0})
  handshake_read none = fail ClientError.timeout
  handshake_read (some (refused e)) = fail e
  handshake_read (some (accepted count)) = λ s.
      if count == 0
      then (failed invalid_response, s)
      else if ltb (length (EventLoop.rx_buf s)) count
      then (panics, s)
      else handshake_reply (decode (version_of s) (take count (EventLoop.rx_buf s))) s

  unfoldable pub read_conn_ack : Act T (Unit {0})
  read_conn_ack s =
      let (r, buf, net) = Network.read_in_time n (EventLoop.rx_buf s) (EventLoop.net s) in
      handshake_read r (record s { rx_buf = buf; net = net })

  unfoldable pub perform_connect_handshake : Act T (Unit {0})
  perform_connect_handshake s =
      (do
        len ← encode_tx (encode_connect (version_of s) (connect_packet (EventLoop.options s)))
        write_tx n len
        flush n
        read_conn_ack)
        s

  -- One message in flight is sent again, under its id and with DUP.
  unfoldable pub resend : ℕ × Unacked → Act T (Unit {0})
  resend (pid, u) s =
      when_encoded n
        (encode_publish (version_of s)
          (record (publish_packet (Unacked.message u) (some pid)) { dup = true }))
        (λ len. ignoring (write_tx n len)) s

  unfoldable pub resend_all : List (ℕ × Unacked) → Act T (Unit {0})
  resend_all [] = answer tt
  resend_all (e ∷ es) = resend e >> resend_all es

  unfoldable pub resubscribe : List ℕ × QoS → Act T (Unit {0})
  resubscribe (topic, qos) s =
      (do
        pid ← get_next_packet_id
        when_encoded n (encode_subscribe (version_of s) (add_topic topic qos (new_subscribe pid)).1)
            (λ len. ignoring (write_tx n len)))
        s

  unfoldable pub resubscribe_all : List (List ℕ × QoS) → Act T (Unit {0})
  resubscribe_all [] = answer tt
  resubscribe_all (e ∷ es) = resubscribe e >> resubscribe_all es

  -- `while let Some(msg) = self.offline_queue.pop_front()`; nothing in the loop puts a message back.
  unfoldable pub flush_queue : List PublishMessage → Act T (Unit {0})
  flush_queue [] s = (done tt, record s { offline_queue = [] })
  flush_queue (m ∷ ms) s =
      (ignoring (send_publish_direct n m none) >> flush_queue ms) (record s { offline_queue = ms })

  unfoldable pub recover_inflight : Act T (Unit {0})
  recover_inflight s =
      if DataRecoveryPolicy.resend_unacked_inflight (ClientOptions.recovery (EventLoop.options s))
      then (if is_nil (EventLoop.inflight_publishes s)
          then (done tt, s)
          else (resend_all (EventLoop.inflight_publishes s) >> ignoring (flush n)) s)
      else (done tt, s)

  unfoldable pub recover_subscriptions : Act T (Unit {0})
  recover_subscriptions s =
      if DataRecoveryPolicy.auto_resubscribe (ClientOptions.recovery (EventLoop.options s))
      then (if is_nil (EventLoop.active_subscriptions s)
          then (done tt, s)
          else (resubscribe_all (EventLoop.active_subscriptions s) >> ignoring (flush n)) s)
      else (done tt, s)

  unfoldable pub recover_queue : Act T (Unit {0})
  recover_queue s = flush_queue (EventLoop.offline_queue s) s

  -- A panic takes the transport along; otherwise it is put back at the end.
  unfoldable pub perform_session_data_recovery : Act T (Unit {0})
  perform_session_data_recovery s =
      if EventLoop.has_transport s
      then (do
        set_transport false
        recover_inflight
        recover_subscriptions
        recover_queue
        set_transport true)
          s
      else (failed ClientError.not_connected, s)

  unfoldable pub settle : Act T (Unit {0})
  settle = do
    set_transport true
    reset_attempts
    send_status ConnectionStatus.connected
    touch_tx n
    perform_session_data_recovery

  -- What follows the handshake, and the connection.
  abbrev pub after_handshake : Outcome (Unit {0}) × EventLoop T → Outcome Round × EventLoop T
  after_handshake (done u, s) = (settle >> answer settled) s
  after_handshake (failed e, s) = give_up e s
  after_handshake (panics, s) = (panics, s)
  after_handshake (hangs, s) = (hangs, s)

  abbrev pub after_connect : ClientResult (Unit {0}) → Act T Round
  after_connect (accepted u) s = after_handshake (perform_connect_handshake s)
  after_connect (refused e) s = give_up e s

  unfoldable pub open_transport : Act T Round
  open_transport s =
      let (r, net) =
        Network.connect n (ClientOptions.target (EventLoop.options s)) (EventLoop.net s) in
      after_connect r (record s { net = net })

  module _ {F : Type 0} (f : Floats F) where
    unfoldable pub connect_round : Act T Round
    connect_round s =
        (do
          announce_delay (
              compute_delay f (ClientOptions.reconnect (EventLoop.options s))
                (EventLoop.reconnect_attempt s + 1))
          send_status ConnectionStatus.connecting
          open_transport)
          (record s { reconnect_attempt = EventLoop.reconnect_attempt s + 1 })

    -- The loop, for so many rounds.
    unfoldable pub connect_with_backoff : ℕ → Act T (Unit {0})
    connect_with_backoff zero = λ s. (hangs, s)
    connect_with_backoff (suc rounds) =
        connect_round >>= λ r. elim r [ settled ↦ answer tt | again ↦ connect_with_backoff rounds ]
