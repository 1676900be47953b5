-- ===== src/EventLoop/Invariant/Sending.antt =====
-- The invariant over what is sent, the requests of the client included.
use mqtt_async_embedded.Prelude.{
  ℕ, refl, Option, none, some, List, [], ◌∷◌, length, take, drop, ltb, Bool-cases, inl, inr,
}
use mqtt_async_embedded.Exec.{Result, ok, err, panic, Exec}
use mqtt_async_embedded.Types.{
  QoS, at_most_once, at_least_once, exactly_once, new_publish, new_disconnect,
}
use mqtt_async_embedded.Codec.Publish.{encode_publish}
use mqtt_async_embedded.Codec.Disconnect.{encode_ping_req, encode_disconnect}
use mqtt_async_embedded.ClientTypes.{PublishMessage, ClientError, accepted, ConnectionStatus}
use mqtt_async_embedded.Maps.Laws.{insert-IsTable}
use mqtt_async_embedded.EventLoop.{
  Network, EventLoop, unit_answer, count_answer, Act, answer, fail, ◌>>◌, ignoring, encode_tx,
  get_next_packet_id, send_answer, send_status, write_tx, flush, touch_tx, transmit, when_encoded,
  version_of,
}
use mqtt_async_embedded.EventLoop.Sending.{
  publish_packet, note_unacked, tracked_id, packet_id_for, batch_id_for, send_publish_direct,
  place_result, place, send_rest, batch_loop, send_publish_batch_direct, send_ping, send_disconnect,
}
use mqtt_async_embedded.EventLoop.Requests.{
  ClientRequest, route, unroute, activate, deactivate, note_subscribe, note_unsubscribe,
  send_datagram, handle_client_request,
}
use mqtt_async_embedded.EventLoop.Invariant.{
  IsEntry, IsLoop, Keeps, Keeps-bind, Keeps-seq, Keeps-if, Keeps-ignoring, same_parts,
  id_after_range, Keeps-encode_tx, Keeps-send_answer, Keeps-send_status, Keeps-get_next_packet_id,
  Keeps-write_tx, Keeps-flush, Keeps-touch_tx, Keeps-transmit, Keeps-when_encoded,
}

module _ {T : Type 0} (size : ℕ) where
  Keeps-tracked_id : (m : PublishMessage) (k : Option ℕ) → Keeps size (tracked_id {T = T} m k)
  unfolding tracked_id get_next_packet_id note_unacked
  Keeps-tracked_id m k s v =
      let range = id_after_range (EventLoop.next_packet_id s) in
      record {
        id_positive = range.0;
        id_u16 = range.1;
        table =
            insert-IsTable IsEntry (EventLoop.next_packet_id s) _ (EventLoop.inflight_publishes s)
              (record { positive = IsLoop.id_positive v; u16 = IsLoop.id_u16 v; bears = refl })
              (IsLoop.table v);
        buffer = IsLoop.buffer v;
        cursor = IsLoop.cursor v;
      }

  Keeps-packet_id_for :
      (q : QoS) (m : PublishMessage) (k : Option ℕ) → Keeps size (packet_id_for {T = T} q m k)
  unfolding packet_id_for
  Keeps-packet_id_for at_most_once m k =
      Keeps-seq size (send_answer {T = T} k (unit_answer (accepted tt))) (answer none)
        (Keeps-send_answer size k (unit_answer (accepted tt))) (λ s v. v)
  Keeps-packet_id_for at_least_once m k = Keeps-tracked_id m k
  Keeps-packet_id_for exactly_once m k = Keeps-tracked_id m k

  Keeps-batch_id_for : (q : QoS) (m : PublishMessage) → Keeps size (batch_id_for {T = T} q m)
  unfolding batch_id_for
  Keeps-batch_id_for at_most_once m = λ s v. v
  Keeps-batch_id_for at_least_once m = Keeps-tracked_id m none
  Keeps-batch_id_for exactly_once m = Keeps-tracked_id m none

module _ {T : Type 0} (size : ℕ) (n : Network T) where
  pub Keeps-send_publish_direct :
      (m : PublishMessage) (k : Option ℕ) → Keeps size (send_publish_direct n m k)
  unfolding send_publish_direct
  Keeps-send_publish_direct m k s v =
      Keeps-bind size (packet_id_for {T = T} (PublishMessage.qos m) m k) _
        (Keeps-packet_id_for size (PublishMessage.qos m) m k) (λ pid. Keeps-transmit size n _) s v

  Keeps-place_result :
      (cursor sent : ℕ) (encoder : Exec (List ℕ) ℕ) (r : Result ℕ)
      → Keeps size (place_result n cursor sent encoder r)
  unfolding place_result
  Keeps-place_result cursor sent encoder (ok len) = λ s v. v
  Keeps-place_result cursor sent encoder (err e) =
      Keeps-if size (ltb 0 cursor) _ _
        (Keeps-seq size (write_tx n cursor) _ (Keeps-write_tx size n cursor)
          (Keeps-bind size (encode_tx encoder) _ (Keeps-encode_tx size encoder) (λ len d w. w)))
        (λ s v. v)
  Keeps-place_result cursor sent encoder panic = λ s v. v

  Keeps-place :
      (cursor sent : ℕ) (encoder : Exec (List ℕ) ℕ) → Keeps size (place n cursor sent encoder)
  unfolding place
  Keeps-place cursor sent encoder s v =
      elim (Bool-cases (ltb (length (EventLoop.tx_buf s)) cursor)) [
        | inl short ↦ rw short v
        | inr long ↦ rw long (
            Keeps-place_result cursor sent encoder (encoder (drop cursor (EventLoop.tx_buf s))).0 _
              (same_parts size s _ refl refl refl refl v))
      ]

  Keeps-send_rest : (at : ℕ × ℕ) → Keeps size (send_rest n at)
  unfolding send_rest
  Keeps-send_rest (cursor, sent) =
      Keeps-if size (ltb 0 cursor) _ _
        (Keeps-seq size (write_tx n cursor) (flush n >> (touch_tx n >> answer sent))
          (Keeps-write_tx size n cursor)
          (Keeps-seq size (flush n) (touch_tx n >> answer sent) (Keeps-flush size n)
            (Keeps-seq size (touch_tx n) (answer sent) (Keeps-touch_tx size n) (λ s v. v))))
        (λ s v. v)

  Keeps-batch_loop : (ms : List PublishMessage) (at : ℕ × ℕ) → Keeps size (batch_loop n ms at)
  unfolding batch_loop
  Keeps-batch_loop [] at = Keeps-send_rest at
  Keeps-batch_loop (m ∷ ms) (cursor, sent) = λ s v.
      Keeps-bind size (batch_id_for {T = T} (PublishMessage.qos m) m) _
        (Keeps-batch_id_for size (PublishMessage.qos m) m)
        (λ pid.
          Keeps-bind size
            (place n cursor sent (encode_publish (version_of s) (publish_packet m pid)))
            (batch_loop n ms) (Keeps-place cursor sent _) (λ at. Keeps-batch_loop ms at))
        s v

  pub Keeps-send_ping : Keeps size (send_ping n)
  unfolding send_ping
  Keeps-send_ping = Keeps-transmit size n encode_ping_req

  pub Keeps-send_disconnect : Keeps size (send_disconnect n)
  unfolding send_disconnect
  Keeps-send_disconnect s v =
      let encoder = encode_disconnect (version_of s) new_disconnect in
      let rest : ℕ → Act T (Unit {0}) = λ len. ignoring (write_tx n len) >> ignoring (flush n) in
      Keeps-seq size (when_encoded n encoder rest) (send_status ConnectionStatus.stopped)
        (Keeps-when_encoded size n encoder rest (λ len.
          Keeps-seq size (ignoring (write_tx n len)) (ignoring (flush n))
            (Keeps-ignoring size (write_tx n len) (Keeps-write_tx size n len))
            (Keeps-ignoring size (flush n) (Keeps-flush size n))))
        (Keeps-send_status size ConnectionStatus.stopped) s v

  Keeps-send_datagram : (k : Option ℕ) (len : ℕ) → Keeps size (send_datagram n k len)
  unfolding send_datagram
  Keeps-send_datagram k len s v = elim (Bool-cases (ltb (length (EventLoop.tx_buf s)) len)) [
    | inl short ↦ rw short v
    | inr long ↦ rw long (
        Keeps-send_answer size k
          (unit_answer
            (Network.send_datagram n (take len (EventLoop.tx_buf s)) (EventLoop.net s)).0)
          _ (same_parts size s _ refl refl refl refl v))
  ]

  Keeps-route : (topic : List ℕ) (stream : Option ℕ) → Keeps size (route {T = T} topic stream)
  unfolding route
  Keeps-route topic none s v = v
  Keeps-route topic (some stream) s v = same_parts size s _ refl refl refl refl v

  Keeps-unroute : (topic : List ℕ) → Keeps size (unroute {T = T} topic)
  unfolding unroute
  Keeps-unroute topic s v = same_parts size s _ refl refl refl refl v

  Keeps-activate : (topic : List ℕ) (qos : QoS) → Keeps size (activate {T = T} topic qos)
  unfolding activate
  Keeps-activate topic qos s v = same_parts size s _ refl refl refl refl v

  Keeps-deactivate : (topic : List ℕ) → Keeps size (deactivate {T = T} topic)
  unfolding deactivate
  Keeps-deactivate topic s v = same_parts size s _ refl refl refl refl v

  Keeps-note_subscribe : (pid resp : ℕ) → Keeps size (note_subscribe {T = T} pid resp)
  unfolding note_subscribe
  Keeps-note_subscribe pid resp s v = same_parts size s _ refl refl refl refl v

  Keeps-note_unsubscribe : (pid resp : ℕ) → Keeps size (note_unsubscribe {T = T} pid resp)
  unfolding note_unsubscribe
  Keeps-note_unsubscribe pid resp s v = same_parts size s _ refl refl refl refl v

  pub Keeps-handle_client_request : (r : ClientRequest) → Keeps size (handle_client_request n r)
  unfolding handle_client_request send_publish_batch_direct
  Keeps-handle_client_request (ClientRequest.publish m k) = Keeps-send_publish_direct m k
  Keeps-handle_client_request (ClientRequest.publish_batch ms k) =
      Keeps-bind size (batch_loop n ms (0, 0)) _ (Keeps-batch_loop ms (0, 0))
        (λ count. Keeps-send_answer size k (count_answer (accepted count)))
  Keeps-handle_client_request (ClientRequest.publish_datagram topic payload k) = λ s v.
      let encoder = encode_publish (version_of s) (new_publish topic payload at_most_once) in
      Keeps-bind size (encode_tx {T = T} encoder) (send_datagram n k) (Keeps-encode_tx size encoder)
        (Keeps-send_datagram k) s v
  Keeps-handle_client_request (ClientRequest.subscribe topic qos resp stream) = λ s v.
      Keeps-bind size (get_next_packet_id {T = T}) _ (Keeps-get_next_packet_id size)
        (λ pid. Keeps-seq size (route topic stream) _ (Keeps-route topic stream) (
          Keeps-seq size (activate topic qos) _ (Keeps-activate topic qos) (
            Keeps-seq size (transmit n _) (note_subscribe pid resp) (Keeps-transmit size n _)
              (Keeps-note_subscribe pid resp))))
        s v
  Keeps-handle_client_request (ClientRequest.unsubscribe topic resp) = λ s v.
      Keeps-bind size (get_next_packet_id {T = T}) _ (Keeps-get_next_packet_id size)
        (λ pid. Keeps-seq size (unroute topic) _ (Keeps-unroute topic) (
          Keeps-seq size (deactivate topic) _ (Keeps-deactivate topic) (
            Keeps-seq size (transmit n _) (note_unsubscribe pid resp) (Keeps-transmit size n _)
              (Keeps-note_unsubscribe pid resp))))
        s v
  Keeps-handle_client_request (ClientRequest.disconnect resp) =
      Keeps-seq size (send_disconnect n) _ Keeps-send_disconnect (
        Keeps-seq size (send_answer (some resp) (unit_answer (accepted tt)))
          (fail ClientError.client_closed)
          (Keeps-send_answer size (some resp) (unit_answer (accepted tt))) (λ s v. v))
