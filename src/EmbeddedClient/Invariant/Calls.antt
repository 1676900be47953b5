-- ===== src/EmbeddedClient/Invariant/Calls.antt =====
-- The invariant of the client over the calls that send.
use mqtt_async_embedded.Prelude.{
  ℕ, ◌+◌, refl, Option, none, some, List, [], ◌∷◌, length, ltb, ◌==◌, Bool-cases, inl, inr,
}
use mqtt_async_embedded.Exec.{PacketError, Result, ok, err, panic, Exec}
use mqtt_async_embedded.EmbeddedErrors.{MqttError, ProtocolError, connect_reason_from}
use mqtt_async_embedded.Types.{QoS, ConnAck, MqttPacket}
use mqtt_async_embedded.Codec.Connect.{encode_connect}
use mqtt_async_embedded.EmbeddedInflight.Laws.{perform, perform-IsTable, clear_call}
use mqtt_async_embedded.EmbeddedClient.{
  Platform, disconnected, connecting, connected, PublishMessage, MqttClient, answer, ◌>>=◌, ◌>>◌,
  set_state, send_tx, recv_rx, touch_tx, touch_rx, transmit, encode_tx, decode_rx,
  get_next_packet_id, packet_id_for, is_connected, from_result,
}
use mqtt_async_embedded.EmbeddedClient.Calls.{
  version_of, connect_packet, refuse_connect, clear_inflight, connect, connect_reply, connect_read,
  publish, place_result, place, send_rest, batch_loop, publish_batch, subscribe, unsubscribe,
  disconnect,
}
use mqtt_async_embedded.EmbeddedClient.Invariant.{
  IsClient, Keeps, Keeps-bind, Keeps-seq, Keeps-if, Keeps-when_connected, same_table, with_table,
  Keeps-from_result, Keeps-encode_tx, Keeps-send_tx, Keeps-recv_rx, Keeps-transmit, Keeps-touch_tx,
  Keeps-touch_rx, Keeps-decode_rx, Keeps-set_state, Keeps-get_next_packet_id, Keeps-packet_id_for,
}

module _ {T E : Type 0} (N : ℕ) (p : Platform T E) where
  Keeps-refuse_connect : (e : MqttError E) → Keeps N (refuse_connect p e)
  Keeps-refuse_connect e c v = same_table N c _ refl refl v

  Keeps-clear_inflight : Keeps N (clear_inflight p)
  Keeps-clear_inflight c v =
      with_table N c _
        (unfold perform in perform-IsTable N clear_call (MqttClient.inflight c) (IsClient.table v))
        v

  abbrev invalid : MqttError E
  invalid = MqttError.protocol ProtocolError.invalid_response

  Keeps-connect_reply : (r : Option MqttPacket) → Keeps N (connect_reply p r)
  unfolding connect_reply
  Keeps-connect_reply none = Keeps-refuse_connect invalid
  Keeps-connect_reply (some (MqttPacket.conn_ack a)) =
      Keeps-if N (ConnAck.reason_code a == 0) _ _
        (Keeps-seq N (set_state connected) (clear_inflight p) (Keeps-set_state N p connected)
          Keeps-clear_inflight)
        (Keeps-refuse_connect
          (MqttError.connection_refused (connect_reason_from (ConnAck.reason_code a))))
  Keeps-connect_reply (some (MqttPacket.connect a)) = Keeps-refuse_connect invalid
  Keeps-connect_reply (some (MqttPacket.publish a)) = Keeps-refuse_connect invalid
  Keeps-connect_reply (some (MqttPacket.ack k a)) = Keeps-refuse_connect invalid
  Keeps-connect_reply (some (MqttPacket.subscribe a)) = Keeps-refuse_connect invalid
  Keeps-connect_reply (some (MqttPacket.sub_reply k a)) = Keeps-refuse_connect invalid
  Keeps-connect_reply (some (MqttPacket.unsubscribe a)) = Keeps-refuse_connect invalid
  Keeps-connect_reply (some MqttPacket.ping_req) = Keeps-refuse_connect invalid
  Keeps-connect_reply (some MqttPacket.ping_resp) = Keeps-refuse_connect invalid
  Keeps-connect_reply (some (MqttPacket.disconnect a)) = Keeps-refuse_connect invalid

  Keeps-connect_read : (n : ℕ) → Keeps N (connect_read p n)
  unfolding connect_read
  Keeps-connect_read n = Keeps-if N (n == 0) _ _ (Keeps-refuse_connect MqttError.not_connected) (
      Keeps-seq N (touch_rx p) (decode_rx n >>= connect_reply p) (Keeps-touch_rx N p)
        (Keeps-bind N (decode_rx n) (connect_reply p) (Keeps-decode_rx N p n) Keeps-connect_reply))

  pub Keeps-connect : Keeps N (connect p)
  unfolding connect
  Keeps-connect c v =
      let encoder = encode_connect (version_of c) (connect_packet p (MqttClient.options c)) in
      let read = recv_rx p >>= connect_read p in
      Keeps-seq N (set_state {T = T} {E = E} connecting)
        (transmit p encoder >> (touch_tx p >> read)) (Keeps-set_state N p connecting)
        (Keeps-seq N (transmit p encoder) (touch_tx p >> read) (Keeps-transmit N p encoder) (
          Keeps-seq N (touch_tx p) read (Keeps-touch_tx N p)
            (Keeps-bind N (recv_rx p) (connect_read p) (Keeps-recv_rx N p) Keeps-connect_read)))
        c v

  pub Keeps-publish : (topic payload : List ℕ) (qos : QoS) → Keeps N (publish p N topic payload qos)
  unfolding publish
  Keeps-publish topic payload qos = Keeps-when_connected N _ (λ c v.
      Keeps-bind N (packet_id_for N qos) _ (Keeps-packet_id_for N p qos)
        (λ pid. Keeps-seq N (transmit p _) (touch_tx p) (Keeps-transmit N p _) (Keeps-touch_tx N p))
        c v)

  Keeps-place_result :
      (cursor : ℕ) (encoder : Exec (List ℕ) ℕ) (r : Result ℕ)
      → Keeps N (place_result p N cursor encoder r)
  unfolding place_result
  Keeps-place_result cursor encoder (ok n) = λ c v. v
  Keeps-place_result cursor encoder panic = λ c v. v
  Keeps-place_result cursor encoder (err PacketError.buffer_too_small) =
      Keeps-if N (ltb 0 cursor) _ _
        (Keeps-seq N (send_tx p cursor) (encode_tx encoder) (Keeps-send_tx N p cursor)
          (Keeps-encode_tx N p encoder))
        (λ c v. v)
  Keeps-place_result cursor encoder (err PacketError.incomplete_packet) = λ c v. v
  Keeps-place_result cursor encoder (err PacketError.malformed_packet) = λ c v. v
  Keeps-place_result cursor encoder (err (PacketError.invalid_packet_type t)) = λ c v. v
  Keeps-place_result cursor encoder (err PacketError.invalid_utf8_string) = λ c v. v
  Keeps-place_result cursor encoder (err PacketError.too_many_properties) = λ c v. v
  Keeps-place_result cursor encoder (err PacketError.batch_capacity_exceeded) = λ c v. v
  Keeps-place_result cursor encoder (err PacketError.payload_too_large) = λ c v. v
  Keeps-place_result cursor encoder (err PacketError.unsupported_qos) = λ c v. v

  Keeps-place : (cursor : ℕ) (encoder : Exec (List ℕ) ℕ) → Keeps N (place p N cursor encoder)
  unfolding place
  Keeps-place cursor encoder c v =
      elim (Bool-cases (ltb (length (MqttClient.tx_buffer c)) cursor)) [
        | inl short ↦ rw short v
        | inr long ↦ rw long (Keeps-place_result cursor encoder _ _ (same_table N c _ refl refl v))
      ]

  Keeps-send_rest : (cursor sent_count : ℕ) → Keeps N (send_rest p N cursor sent_count)
  unfolding send_rest
  Keeps-send_rest cursor sent_count =
      Keeps-if N (ltb 0 cursor) _ _
        (Keeps-seq N (send_tx p cursor) (touch_tx p >> answer sent_count) (Keeps-send_tx N p cursor)
          (Keeps-seq N (touch_tx p) (answer sent_count) (Keeps-touch_tx N p) (λ c v. v)))
        (λ c v. v)

  Keeps-batch_loop :
      (ms : List PublishMessage) (cursor sent_count : ℕ)
      → Keeps N (batch_loop p N ms cursor sent_count)
  unfolding batch_loop
  Keeps-batch_loop [] cursor sent_count c v = Keeps-send_rest cursor sent_count c v
  Keeps-batch_loop (m ∷ ms) cursor sent_count c v =
      Keeps-bind N (packet_id_for N (PublishMessage.qos m)) _
        (Keeps-packet_id_for N p (PublishMessage.qos m))
        (λ pid.
          Keeps-bind N (place p N cursor _) _ (Keeps-place cursor _)
            (λ cursor'. Keeps-batch_loop ms cursor' (sent_count + 1)))
        c v

  pub Keeps-publish_batch : (ms : List PublishMessage) → Keeps N (publish_batch p N ms)
  unfolding publish_batch
  Keeps-publish_batch ms = Keeps-when_connected N _ (Keeps-batch_loop ms 0 0)

  pub Keeps-subscribe : (topics : List (List ℕ × QoS)) → Keeps N (subscribe p topics)
  unfolding subscribe
  Keeps-subscribe topics = Keeps-when_connected N _ (λ c v.
      Keeps-bind N get_next_packet_id _ (Keeps-get_next_packet_id N p)
        (λ pid. Keeps-bind N (from_result _) _ (Keeps-from_result N p _) (λ sub.
          Keeps-seq N (transmit p _) (touch_tx p >> answer pid) (Keeps-transmit N p _)
            (Keeps-seq N (touch_tx p) (answer pid) (Keeps-touch_tx N p) (λ d w. w))))
        c v)

  pub Keeps-unsubscribe : (topics : List (List ℕ)) → Keeps N (unsubscribe p topics)
  unfolding unsubscribe
  Keeps-unsubscribe topics = Keeps-when_connected N _ (λ c v.
      Keeps-bind N get_next_packet_id _ (Keeps-get_next_packet_id N p)
        (λ pid. Keeps-bind N (from_result _) _ (Keeps-from_result N p _) (λ unsub.
          Keeps-seq N (transmit p _) (touch_tx p >> answer pid) (Keeps-transmit N p _)
            (Keeps-seq N (touch_tx p) (answer pid) (Keeps-touch_tx N p) (λ d w. w))))
        c v)

  pub Keeps-disconnect : Keeps N (disconnect p)
  unfolding disconnect
  Keeps-disconnect c v = elim (Bool-cases (is_connected c)) [
    | inl up ↦ rw up (
        Keeps-seq N (transmit p _) (set_state disconnected) (Keeps-transmit N p _)
          (Keeps-set_state N p disconnected) c v)
    | inr down ↦ rw down v
  ]
