-- ===== src/EventLoop/Sending.antt =====
-- `send_publish`, `send_publish_direct`, `send_publish_batch_direct`, `send_ping` and
-- `send_disconnect`.
use mqtt_async_embedded.Prelude.{
  ℕ, ◌+◌, Option, none, some, List, [], ◌∷◌, ◌++◌, length, take, drop, ltb, ◌==◌, if◌then◌else◌,
}
use mqtt_async_embedded.Exec.{Result, ok, err, panic, Exec}
use mqtt_async_embedded.Types.{
  QoS, at_most_once, at_least_once, exactly_once, Publish, new_publish, new_disconnect,
}
use mqtt_async_embedded.Codec.Publish.{encode_publish}
use mqtt_async_embedded.Codec.Disconnect.{encode_ping_req, encode_disconnect}
use mqtt_async_embedded.ClientTypes.{
  PublishMessage, ConnectionStatus, ClientResult, accepted, refused,
}
use mqtt_async_embedded.Options.{ClientOptions}
use mqtt_async_embedded.OfflineQueue.{buffer_offline}
use mqtt_async_embedded.Maps
use mqtt_async_embedded.EventLoop.{
  Network, done, failed, panics, EventLoop, unit_answer, Act, answer, ◌>>=◌, ◌>>◌, ignoring,
  version_of, encode_tx, get_next_packet_id, send_answer, send_status, write_tx, flush, touch_tx,
  transmit, when_encoded,
}

-- The packet of a message.
unfoldable pub publish_packet : PublishMessage → Option ℕ → Publish
publish_packet m packet_id =
    record (new_publish (PublishMessage.topic m) (PublishMessage.payload m)
      (PublishMessage.qos m)) {
        packet_id = packet_id;
        retain = PublishMessage.retain m;
        dup = PublishMessage.dup m;
      }

module _ {T : Type 0} where
  -- `self.inflight_publishes.insert(pid, (message, ack_sender))`
  unfoldable pub note_unacked : ℕ → PublishMessage → Option ℕ → Act T (Unit {0})
  note_unacked pid m ack_sender s = (
    done tt,
    record s {
      inflight_publishes =
          Maps.insert ◌==◌ pid
            (record { message = record m { packet_id = some pid }; ack_sender = ack_sender })
            (EventLoop.inflight_publishes s);
    },
  )

  -- A new packet id, under which the message is in flight.
  unfoldable pub tracked_id : PublishMessage → Option ℕ → Act T (Option ℕ)
  tracked_id m ack_sender =
      get_next_packet_id >>= λ pid. note_unacked pid m ack_sender >> answer (some pid)

  unfoldable pub packet_id_for : QoS → PublishMessage → Option ℕ → Act T (Option ℕ)
  packet_id_for at_most_once m ack_sender =
      send_answer ack_sender (unit_answer (accepted tt)) >> answer none
  packet_id_for at_least_once m ack_sender = tracked_id m ack_sender
  packet_id_for exactly_once m ack_sender = tracked_id m ack_sender

  -- In a batch no caller waits for one message.
  unfoldable pub batch_id_for : QoS → PublishMessage → Act T (Option ℕ)
  batch_id_for at_most_once m = answer none
  batch_id_for at_least_once m = tracked_id m none
  batch_id_for exactly_once m = tracked_id m none

module _ {T : Type 0} (n : Network T) where
  unfoldable pub send_publish_direct : PublishMessage → Option ℕ → Act T (Unit {0})
  send_publish_direct m ack_sender s =
      (do
        packet_id ← packet_id_for (PublishMessage.qos m) m ack_sender
        transmit n (encode_publish (version_of s) (publish_packet m packet_id)))
        s

  -- The two logs of `send_publish` without a transport.
  abbrev pub buffered : Option ℕ → ClientResult (Unit {0}) × List PublishMessage → Act T (Unit {0})
  buffered ack_sender (accepted u, queue) s =
      send_answer ack_sender (unit_answer (accepted tt)) (record s { offline_queue = queue })
  buffered ack_sender (refused e, queue) s = (failed e, record s { offline_queue = queue })

  unfoldable pub send_publish : PublishMessage → Option ℕ → Act T (Unit {0})
  send_publish m ack_sender s =
      if EventLoop.has_transport s
      then send_publish_direct m ack_sender s
      else buffered ack_sender
          (buffer_offline (ClientOptions.offline_queue (EventLoop.options s)) m
            (EventLoop.offline_queue s))
          s

  -- The `match` on the result of the encoder: the cursor and the count behind the packet. An error
  -- at the start of the buffer passes the message over.
  unfoldable pub place_result : ℕ → ℕ → Exec (List ℕ) ℕ → Result ℕ → Act T (ℕ × ℕ)
  place_result cursor sent_count encoder (ok len) = answer (cursor + len, sent_count + 1)
  place_result cursor sent_count encoder (err e) =
      if ltb 0 cursor
      then write_tx n cursor >> (encode_tx encoder >>= λ len. answer (len, sent_count + 1))
      else answer (cursor, sent_count)
  place_result cursor sent_count encoder panic = λ s. (panics, s)

  -- `encode(&mut self.tx_buf[cursor..], …)`, and the `match`
  unfoldable pub place : ℕ → ℕ → Exec (List ℕ) ℕ → Act T (ℕ × ℕ)
  place cursor sent_count encoder s =
      if ltb (length (EventLoop.tx_buf s)) cursor
      then (panics, s)
      else (let (r, rest) = encoder (drop cursor (EventLoop.tx_buf s)) in
          place_result cursor sent_count encoder r
            (record s { tx_buf = take cursor (EventLoop.tx_buf s) ++ rest }))

  -- The statements behind the loop, and the loop.
  unfoldable pub send_rest : ℕ × ℕ → Act T ℕ
  send_rest (cursor, sent_count) =
      if ltb 0 cursor
      then write_tx n cursor >> (flush n >> (touch_tx n >> answer sent_count))
      else answer sent_count

  unfoldable pub batch_loop : List PublishMessage → ℕ × ℕ → Act T ℕ
  batch_loop [] at = send_rest at
  batch_loop (m ∷ ms) (cursor, sent_count) = λ s.
      (do
        packet_id ← batch_id_for (PublishMessage.qos m) m
        at ← place cursor sent_count (encode_publish (version_of s) (publish_packet m packet_id))
        batch_loop ms at)
        s

  unfoldable pub send_publish_batch_direct : List PublishMessage → Act T ℕ
  send_publish_batch_direct messages = batch_loop messages (0, 0)

  unfoldable pub send_ping : Act T (Unit {0})
  send_ping = transmit n encode_ping_req

  unfoldable pub send_disconnect : Act T (Unit {0})
  send_disconnect s =
      (do
        when_encoded n (encode_disconnect (version_of s) new_disconnect)
            (λ len. ignoring (write_tx n len) >> ignoring (flush n))
        send_status ConnectionStatus.stopped)
        s
