-- ===== src/EventLoop/Invariant/Connecting.antt =====
-- The invariant over the connection and the recovery of the session.
use mqtt_async_embedded.Prelude.{
  ℕ, zero, suc, ◌+◌, refl, ◌∙◌, Option, none, some, Bool, true, false, List, [], ◌∷◌, length, ltb,
  ◌==◌, Bool-cases, inl, inr,
}
use mqtt_async_embedded.Exec.{Result, ok, panic}
use mqtt_async_embedded.Types.{QoS, ConnAck, MqttPacket}
use mqtt_async_embedded.Codec.Connect.{encode_connect}
use mqtt_async_embedded.ClientTypes.{
  PublishMessage, ClientError, ClientResult, accepted, refused, ConnectionStatus,
}
use mqtt_async_embedded.Options.{ClientOptions, ReconnectPolicy, DataRecoveryPolicy}
use mqtt_async_embedded.Options.Backoff.{Floats}
use mqtt_async_embedded.EventLoop.{
  Network, Outcome, done, failed, panics, hangs, EventLoop, Unacked, answer, ◌>>◌, ignoring,
  version_of, encode_tx, get_next_packet_id, send_status, write_tx, flush, touch_tx,
}
use mqtt_async_embedded.EventLoop.Sending.{send_publish_direct}
use mqtt_async_embedded.EventLoop.Connecting.{
  connect_packet, handshake_reply, handshake_read, read_conn_ack, perform_connect_handshake, resend,
  resend_all, resubscribe, resubscribe_all, flush_queue, is_nil, recover_inflight,
  recover_subscriptions, recover_queue, set_transport, perform_session_data_recovery, Round,
  settled, again, past_limit, reset_attempts, announce_delay, give_up, settle, after_handshake,
  after_connect, open_transport, connect_round, connect_with_backoff,
}
use mqtt_async_embedded.EventLoop.Invariant.{
  IsLoop, ReadsInside, Keeps, if-IsLoop, Keeps-bind, Keeps-seq, Keeps-if, Keeps-ignoring,
  same_parts, Keeps-encode_tx, Keeps-send_status, Keeps-get_next_packet_id, Keeps-write_tx,
  Keeps-flush, Keeps-touch_tx, Keeps-when_encoded,
}
use mqtt_async_embedded.EventLoop.Invariant.Sending.{Keeps-send_publish_direct}

module _ {T : Type 0} (size : ℕ) (n : Network T) where
  Keeps-handshake_reply : (r : Result (Option MqttPacket)) → Keeps size (handshake_reply n r)
  unfolding handshake_reply
  Keeps-handshake_reply (ok (some (MqttPacket.conn_ack a))) =
      Keeps-if size (ConnAck.reason_code a == 0) _ _ (λ s v. v) (λ s v. v)
  Keeps-handshake_reply panic = λ s v. v
  Keeps-handshake_reply _ = λ s v. v

  Keeps-handshake_read : (r : Option (ClientResult ℕ)) → Keeps size (handshake_read n r)
  unfolding handshake_read
  Keeps-handshake_read none = λ s v. v
  Keeps-handshake_read (some (refused e)) = λ s v. v
  Keeps-handshake_read (some (accepted count)) = λ s v. elim (Bool-cases (count == 0)) [
    | inl ended ↦ rw ended v
    | inr more ↦ elim (Bool-cases (ltb (length (EventLoop.rx_buf s)) count)) [
      | inl over ↦ rw (more, over) v
      | inr inside ↦ rw (more, inside) (Keeps-handshake_reply _ s v)
    ]
  ]

  Keeps-read_conn_ack : ReadsInside n → Keeps size (read_conn_ack n)
  unfolding read_conn_ack
  Keeps-read_conn_ack law s v =
      Keeps-handshake_read (Network.read_in_time n (EventLoop.rx_buf s) (EventLoop.net s)).0 _
        (record {
          id_positive = IsLoop.id_positive v;
          id_u16 = IsLoop.id_u16 v;
          table = IsLoop.table v;
          buffer =
              ReadsInside.keeps_buffer law (EventLoop.rx_buf s) (EventLoop.net s) ∙ IsLoop.buffer v;
          cursor = IsLoop.cursor v;
        })

  Keeps-perform_connect_handshake : ReadsInside n → Keeps size (perform_connect_handshake n)
  unfolding perform_connect_handshake
  Keeps-perform_connect_handshake law s v =
      let encoder = encode_connect (version_of s) (connect_packet (EventLoop.options s)) in
      Keeps-bind size (encode_tx {T = T} encoder) _ (Keeps-encode_tx size encoder)
        (λ len. Keeps-seq size (write_tx n len) _ (Keeps-write_tx size n len) (
          Keeps-seq size (flush n) (read_conn_ack n) (Keeps-flush size n)
            (Keeps-read_conn_ack law)))
        s v

  Keeps-ignored_write : (len : ℕ) → Keeps size (ignoring (write_tx n len))
  Keeps-ignored_write len = Keeps-ignoring size (write_tx n len) (Keeps-write_tx size n len)

  Keeps-ignored_flush : Keeps size (ignoring (flush n))
  Keeps-ignored_flush = Keeps-ignoring size (flush n) (Keeps-flush size n)

  Keeps-resend_all : (es : List (ℕ × Unacked)) → Keeps size (resend_all n es)
  unfolding resend_all resend
  Keeps-resend_all [] = λ s v. v
  Keeps-resend_all ((pid, u) ∷ es) =
      Keeps-seq size (resend n (pid, u)) (resend_all n es)
        (λ s v. Keeps-when_encoded size n _ _ Keeps-ignored_write s v) (Keeps-resend_all es)

  Keeps-resubscribe_all : (es : List (List ℕ × QoS)) → Keeps size (resubscribe_all n es)
  unfolding resubscribe_all resubscribe
  Keeps-resubscribe_all [] = λ s v. v
  Keeps-resubscribe_all ((topic, qos) ∷ es) =
      Keeps-seq size (resubscribe n (topic, qos)) (resubscribe_all n es)
        (λ s v.
          Keeps-bind size (get_next_packet_id {T = T}) _ (Keeps-get_next_packet_id size)
            (λ pid. Keeps-when_encoded size n _ _ Keeps-ignored_write) s v)
        (Keeps-resubscribe_all es)

  Keeps-flush_queue : (ms : List PublishMessage) → Keeps size (flush_queue n ms)
  unfolding flush_queue
  Keeps-flush_queue [] s v = same_parts size s _ refl refl refl refl v
  Keeps-flush_queue (m ∷ ms) s v =
      Keeps-seq size (ignoring (send_publish_direct n m none)) (flush_queue n ms)
        (Keeps-ignoring size (send_publish_direct n m none)
          (Keeps-send_publish_direct size n m none))
        (Keeps-flush_queue ms) _ (same_parts size s _ refl refl refl refl v)

  pub Keeps-set_transport : (b : Bool) → Keeps size (set_transport {T = T} b)
  unfolding set_transport
  Keeps-set_transport b s v = same_parts size s _ refl refl refl refl v

  Keeps-recover_inflight : Keeps size (recover_inflight n)
  unfolding recover_inflight
  Keeps-recover_inflight s v =
      if-IsLoop size
        (DataRecoveryPolicy.resend_unacked_inflight (ClientOptions.recovery (EventLoop.options s)))
        _ (done tt, s)
        (if-IsLoop size (is_nil (EventLoop.inflight_publishes s)) (done tt, s) _ v
          (Keeps-seq size (resend_all n (EventLoop.inflight_publishes s)) (ignoring (flush n))
            (Keeps-resend_all (EventLoop.inflight_publishes s)) Keeps-ignored_flush s v))
        v

  Keeps-recover_subscriptions : Keeps size (recover_subscriptions n)
  unfolding recover_subscriptions
  Keeps-recover_subscriptions s v =
      if-IsLoop size
        (DataRecoveryPolicy.auto_resubscribe (ClientOptions.recovery (EventLoop.options s))) _
        (done tt, s)
        (if-IsLoop size (is_nil (EventLoop.active_subscriptions s)) (done tt, s) _ v
          (Keeps-seq size (resubscribe_all n (EventLoop.active_subscriptions s))
            (ignoring (flush n)) (Keeps-resubscribe_all (EventLoop.active_subscriptions s))
            Keeps-ignored_flush s v))
        v

  pub Keeps-perform_session_data_recovery : Keeps size (perform_session_data_recovery n)
  unfolding perform_session_data_recovery recover_queue
  Keeps-perform_session_data_recovery s v =
      if-IsLoop size (EventLoop.has_transport s) _ (failed ClientError.not_connected, s)
        (Keeps-seq size (set_transport false) _ (Keeps-set_transport false)
          (Keeps-seq size (recover_inflight n) _ Keeps-recover_inflight (
            Keeps-seq size (recover_subscriptions n) _ Keeps-recover_subscriptions (
              Keeps-seq size (recover_queue n) (set_transport true)
                (λ d w. Keeps-flush_queue (EventLoop.offline_queue d) d w)
                (Keeps-set_transport true))))
          s v)
        v

  Keeps-announce_delay : (d : Option ℕ) → Keeps size (announce_delay {T = T} d)
  unfolding announce_delay
  Keeps-announce_delay none = λ s v. v
  Keeps-announce_delay (some delay) =
      λ s v. if-IsLoop size (ltb 0 delay) _ (done tt, s) (Keeps-send_status size _ s v) v

  Keeps-give_up : (e : ClientError) → Keeps size (give_up {T = T} e)
  unfolding give_up
  Keeps-give_up e s v =
      if-IsLoop size
        (past_limit (ReconnectPolicy.max_retries (ClientOptions.reconnect (EventLoop.options s)))
          (EventLoop.reconnect_attempt s))
        (failed e, s) (done again, s) v v

  Keeps-settle : Keeps size (settle n)
  unfolding settle reset_attempts
  Keeps-settle = Keeps-seq size (set_transport true) _ (Keeps-set_transport true) (
      Keeps-seq size reset_attempts
        (send_status ConnectionStatus.connected >> (touch_tx n >> perform_session_data_recovery n))
        (λ s v. same_parts size s _ refl refl refl refl v)
        (Keeps-seq size (send_status ConnectionStatus.connected) _
          (Keeps-send_status size ConnectionStatus.connected)
          (Keeps-seq size (touch_tx n) (perform_session_data_recovery n) (Keeps-touch_tx size n)
            Keeps-perform_session_data_recovery)))

  module _ (law : ReadsInside n) {F : Type 0} (f : Floats F) where
    after_handshake-IsLoop :
        (r : Outcome (Unit {0}) × EventLoop T)
        → IsLoop size r.1
        → IsLoop size (after_handshake n r).1
    after_handshake-IsLoop (done u, s) v =
        Keeps-seq size (settle n) (answer settled) Keeps-settle (λ d w. w) s v
    after_handshake-IsLoop (failed e, s) v = Keeps-give_up e s v
    after_handshake-IsLoop (panics, s) v = v
    after_handshake-IsLoop (hangs, s) v = v

    Keeps-after_connect : (r : ClientResult (Unit {0})) → Keeps size (after_connect n r)
    Keeps-after_connect (accepted u) s v =
        after_handshake-IsLoop (perform_connect_handshake n s)
          (Keeps-perform_connect_handshake law s v)
    Keeps-after_connect (refused e) s v = Keeps-give_up e s v

    Keeps-open_transport : Keeps size (open_transport n)
    unfolding open_transport
    Keeps-open_transport s v =
        Keeps-after_connect
          (Network.connect n (ClientOptions.target (EventLoop.options s)) (EventLoop.net s)).0 _
          (same_parts size s _ refl refl refl refl v)

    Keeps-connect_round : Keeps size (connect_round n f)
    unfolding connect_round
    Keeps-connect_round s v =
        Keeps-seq size (announce_delay _) _ (Keeps-announce_delay _)
          (Keeps-seq size (send_status ConnectionStatus.connecting) (open_transport n)
            (Keeps-send_status size ConnectionStatus.connecting) Keeps-open_transport)
          (record s { reconnect_attempt = EventLoop.reconnect_attempt s + 1 })
          (same_parts size s _ refl refl refl refl v)

    Keeps-next_round :
        (rounds : ℕ)
        → Keeps size (connect_with_backoff n f rounds)
        → (r : Round)
        → Keeps {T = T} {A = Unit {0}} size
            (elim r [ settled ↦ answer tt | again ↦ connect_with_backoff n f rounds ])
    Keeps-next_round rounds rest settled = λ s v. v
    Keeps-next_round rounds rest again = rest

    pub Keeps-connect_with_backoff : (rounds : ℕ) → Keeps size (connect_with_backoff n f rounds)
    unfolding connect_with_backoff
    Keeps-connect_with_backoff zero = λ s v. v
    Keeps-connect_with_backoff (suc rounds) =
        Keeps-bind size (connect_round n f) _ Keeps-connect_round
          (Keeps-next_round rounds (Keeps-connect_with_backoff rounds))
