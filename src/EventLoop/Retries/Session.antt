-- ===== src/EventLoop/Retries/Session.antt =====
-- The handshake and the recovery of the session come to an end, and count no attempt.
use mqtt_async_embedded.Prelude.{
  ℕ, refl, Bool, true, false, Option, none, some, length, take, ltb, ◌==◌, if◌then◌else◌,
}
use mqtt_async_embedded.Exec.{Result, ok, panic}
use mqtt_async_embedded.Types.{ConnAck, MqttPacket}
use mqtt_async_embedded.Codec.Connect.{encode_connect}
use mqtt_async_embedded.Codec.Dispatch.{decode}
use mqtt_async_embedded.ClientTypes.{ClientError, ClientResult, accepted, refused}
use mqtt_async_embedded.Options.{ClientOptions, DataRecoveryPolicy}
use mqtt_async_embedded.EventLoop.{
  Network, done, failed, panics, EventLoop, answer, fail, ignoring, version_of, encode_tx, write_tx,
  flush,
}
use mqtt_async_embedded.EventLoop.Connecting.{
  connect_packet, handshake_reply, handshake_read, read_conn_ack, perform_connect_handshake,
  resend_all, resubscribe_all, is_nil, recover_inflight, recover_subscriptions, recover_queue,
  set_transport, perform_session_data_recovery,
}
use mqtt_async_embedded.EventLoop.Retries.Endings.{
  IsCalm, still, Calm-further, Calm-after, IsCalm-seq, Calm-if, IsCalm-encode_tx,
  IsCalm-set_transport, IsCalm-write_tx, IsCalm-flush, IsCalm-ignored_flush, IsCalm-resend_all,
  IsCalm-resubscribe_all, IsCalm-flush_queue,
}

module _ {T : Type 0} (n : Network T) where
  IsCalm-handshake_reply : (r : Result (Option MqttPacket)) → IsCalm (handshake_reply n r)
  unfolding handshake_reply
  IsCalm-handshake_reply (ok (some (MqttPacket.conn_ack a))) =
      λ s. answered (ConnAck.reason_code a == 0) s
    where
      answered :
          (zero_code : Bool)
          → IsCalm {T = T} {A = Unit {0}} (
              if zero_code
              then answer tt
              else fail (ClientError.connection_refused (ConnAck.reason_code a)))
      answered true s = still s s (done tt) refl refl refl
      answered false s = still s s (failed _) refl refl refl
  IsCalm-handshake_reply panic = λ s. still s s panics refl refl refl
  IsCalm-handshake_reply _ = λ s. still s s (failed _) refl refl refl

  IsCalm-handshake_read : (r : Option (ClientResult ℕ)) → IsCalm (handshake_read n r)
  unfolding handshake_read
  IsCalm-handshake_read none = λ s. still s s (failed _) refl refl refl
  IsCalm-handshake_read (some (refused e)) = λ s. still s s (failed _) refl refl refl
  IsCalm-handshake_read (some (accepted count)) = λ s.
      Calm-if (count == 0) s _ _ (still s s (failed _) refl refl refl) (
        Calm-if (ltb (length (EventLoop.rx_buf s)) count) s _ _ (still s s panics refl refl refl)
          (IsCalm-handshake_reply (decode (version_of s) (take count (EventLoop.rx_buf s))) s))

  IsCalm-read_conn_ack : IsCalm (read_conn_ack n)
  unfolding read_conn_ack
  IsCalm-read_conn_ack s =
      Calm-further s _ _ refl refl
        (IsCalm-handshake_read (Network.read_in_time n (EventLoop.rx_buf s) (EventLoop.net s)).0 _)

  pub IsCalm-perform_connect_handshake : IsCalm (perform_connect_handshake n)
  unfolding perform_connect_handshake
  IsCalm-perform_connect_handshake s =
      let encoder = encode_connect (version_of s) (connect_packet (EventLoop.options s)) in
      Calm-after s (encode_tx encoder s) _ (IsCalm-encode_tx encoder s) (λ len.
        IsCalm-seq (write_tx n len) _ (IsCalm-write_tx n len)
          (IsCalm-seq (flush n) (read_conn_ack n) (IsCalm-flush n) IsCalm-read_conn_ack))

  IsCalm-recover_inflight : IsCalm (recover_inflight n)
  unfolding recover_inflight
  IsCalm-recover_inflight s =
      Calm-if
        (DataRecoveryPolicy.resend_unacked_inflight (ClientOptions.recovery (EventLoop.options s)))
        s _ _
        (Calm-if (is_nil (EventLoop.inflight_publishes s)) s _ _
          (still s s (done tt) refl refl refl)
          (IsCalm-seq (resend_all n (EventLoop.inflight_publishes s)) (ignoring (flush n))
            (IsCalm-resend_all n (EventLoop.inflight_publishes s)) (IsCalm-ignored_flush n) s))
        (still s s (done tt) refl refl refl)

  IsCalm-recover_subscriptions : IsCalm (recover_subscriptions n)
  unfolding recover_subscriptions
  IsCalm-recover_subscriptions s =
      Calm-if (DataRecoveryPolicy.auto_resubscribe (ClientOptions.recovery (EventLoop.options s))) s
        _ _
        (Calm-if (is_nil (EventLoop.active_subscriptions s)) s _ _
          (still s s (done tt) refl refl refl)
          (IsCalm-seq (resubscribe_all n (EventLoop.active_subscriptions s)) (ignoring (flush n))
            (IsCalm-resubscribe_all n (EventLoop.active_subscriptions s)) (IsCalm-ignored_flush n)
            s))
        (still s s (done tt) refl refl refl)

  pub IsCalm-perform_session_data_recovery : IsCalm (perform_session_data_recovery n)
  unfolding perform_session_data_recovery recover_queue
  IsCalm-perform_session_data_recovery s =
      Calm-if (EventLoop.has_transport s) s _ _
        (IsCalm-seq (set_transport false) _ (IsCalm-set_transport false)
          (IsCalm-seq (recover_inflight n) _ IsCalm-recover_inflight (
            IsCalm-seq (recover_subscriptions n) _ IsCalm-recover_subscriptions (
              IsCalm-seq (recover_queue n) (set_transport true)
                (λ d. IsCalm-flush_queue n (EventLoop.offline_queue d) d)
                (IsCalm-set_transport true))))
          s)
        (still s s (failed _) refl refl refl)
