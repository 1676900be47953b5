-- ===== src/EmbeddedClient/Calls.antt =====
-- crates/mqtt-embedded/src/client.rs: the calls that send (connect, publish, publish_batch,
-- subscribe, unsubscribe, disconnect). `MAX_INFLIGHT` is an argument where it is read.
pub mod Connection
use mqtt_async_embedded.Prelude.{
  ℕ, zero, suc, ◌+◌, ◌%◌, Bool, true, false, Option, none, some, List, [], ◌∷◌, ◌++◌, length, take,
  drop, ltb, ◌==◌, if◌then◌else◌,
}
use mqtt_async_embedded.Exec.{PacketError, Result, ok, err, panic, Exec, buffer_too_small}
use mqtt_async_embedded.EmbeddedErrors.{
  MqttError, ProtocolError, client_error_from, connect_reason_from,
}
use mqtt_async_embedded.Types.{
  MqttVersion, QoS, Connect, new_connect, ConnAck, Publish, new_publish, Subscribe, new_subscribe,
  add_topic, Unsubscribe, new_unsubscribe, add_unsubscribe_topic, new_disconnect, MqttPacket,
}
use mqtt_async_embedded.Codec.Connect.{encode_connect}
use mqtt_async_embedded.Codec.Publish.{encode_publish}
use mqtt_async_embedded.Codec.Subscribe.{encode_subscribe}
use mqtt_async_embedded.Codec.Unsubscribe.{encode_unsubscribe}
use mqtt_async_embedded.Codec.Disconnect.{encode_disconnect}
use mqtt_async_embedded.EmbeddedInflight
use mqtt_async_embedded.EmbeddedClient.{
  Platform, Outcome, done, failed, panics, disconnected, connecting, connected, PublishMessage,
  MqttOptions, MqttClient, Act, answer, fail, after, ◌>>=◌, ◌>>◌, set_state, is_connected,
  when_connected, after_encode, encode_tx, from_result, send_bytes, send_tx, recv_rx, touch_tx,
  touch_rx, transmit, decode_rx, get_next_packet_id, packet_id_for,
}

abbrev pub version_of : {T : Type 0} → MqttClient T → MqttVersion
version_of c = MqttOptions.version (MqttClient.options c)

-- `for &(t, q) in topics { sub.add_topic(t, q)?; }`
unfoldable pub add_topics : List (List ℕ × QoS) → Subscribe → Result Subscribe
add_topics [] sub = ok sub
add_topics ((t, q) ∷ topics) sub =
    let (added, sub') = add_topic t q sub in
    let rest = add_topics topics sub' in elim added [ ok u ↦ rest | err e ↦ err e | panic ↦ panic ]

unfoldable pub add_filters : List (List ℕ) → Unsubscribe → Result Unsubscribe
add_filters [] unsub = ok unsub
add_filters (t ∷ topics) unsub =
    let (added, unsub') = add_unsubscribe_topic t unsub in
    let rest = add_filters topics unsub' in
    elim added [ ok u ↦ rest | err e ↦ err e | panic ↦ panic ]

module _ {T E : Type 0} (p : Platform T E) where
  -- The packet that `connect` builds from the options.
  unfoldable pub connect_packet : MqttOptions → Connect
  connect_packet o =
      record (new_connect (MqttOptions.client_id o)
        (Platform.as_secs p (MqttOptions.keep_alive o) % 65536) (MqttOptions.clean_session o)) {
          username = MqttOptions.username o;
          password = MqttOptions.password o;
          will = MqttOptions.will o;
          properties = MqttOptions.properties o;
        }

  -- `self.inflight.clear()`
  abbrev pub clear_inflight : Act T E (Unit {0})
  clear_inflight c =
      (done tt, record c { inflight = EmbeddedInflight.clear (MqttClient.inflight c) })

  abbrev pub refuse_connect : MqttError E → Act T E (Unit {0})
  refuse_connect e = set_state disconnected >> fail e

  -- What the client makes of the reply to CONNECT.
  unfoldable pub connect_reply : Option MqttPacket → Act T E (Unit {0})
  connect_reply (some (MqttPacket.conn_ack a)) =
      if ConnAck.reason_code a == 0
      then set_state connected >> clear_inflight
      else refuse_connect
          (MqttError.connection_refused (connect_reason_from (ConnAck.reason_code a)))
  connect_reply _ = refuse_connect (MqttError.protocol ProtocolError.invalid_response)

  unfoldable pub connect_read : ℕ → Act T E (Unit {0})
  connect_read read_len =
      if read_len == 0
      then refuse_connect MqttError.not_connected
      else touch_rx p >> (decode_rx read_len >>= connect_reply)

  unfoldable pub connect : Act T E (Unit {0})
  connect c =
      (do
        set_state connecting
        transmit p (encode_connect (version_of c) (connect_packet (MqttClient.options c)))
        touch_tx p
        read_len ← recv_rx p
        connect_read read_len)
        c

  module _ (MAX_INFLIGHT : ℕ) where
    unfoldable pub publish : List ℕ → List ℕ → QoS → Act T E (Unit {0})
    publish topic payload qos = when_connected (λ c.
        (do
          packet_id ← packet_id_for MAX_INFLIGHT qos
          transmit p (
              encode_publish (version_of c)
                (record (new_publish topic payload qos) { packet_id = packet_id }))
          touch_tx p)
          c)

    -- `encode(&mut self.tx_buffer[cursor..], …)`
    abbrev pub encode_at : ℕ → Exec (List ℕ) ℕ → List ℕ → Result ℕ × List ℕ
    encode_at cursor encoder buf =
        let (r, rest) = encoder (drop cursor buf) in (r, take cursor buf ++ rest)

    -- The `match` on that result: the cursor behind the packet.
    unfoldable pub place_result : ℕ → Exec (List ℕ) ℕ → Result ℕ → Act T E ℕ
    place_result cursor encoder (ok n) = answer (cursor + n)
    place_result cursor encoder (err buffer_too_small) =
        if ltb 0 cursor
        then send_tx p cursor >> encode_tx encoder
        else fail MqttError.buffer_too_small
    place_result cursor encoder (err e) = fail (client_error_from e)
    place_result cursor encoder panic = λ c. (panics, c)

    unfoldable pub place : ℕ → Exec (List ℕ) ℕ → Act T E ℕ
    place cursor encoder c =
        if ltb (length (MqttClient.tx_buffer c)) cursor
        then (panics, c)
        else (let (r, buf) = encode_at cursor encoder (MqttClient.tx_buffer c) in
            place_result cursor encoder r (record c { tx_buffer = buf }))

    -- The statements behind the loop.
    unfoldable pub send_rest : ℕ → ℕ → Act T E ℕ
    send_rest cursor sent_count =
        if ltb 0 cursor
        then send_tx p cursor >> (touch_tx p >> answer sent_count)
        else answer sent_count

    unfoldable pub batch_loop : List PublishMessage → ℕ → ℕ → Act T E ℕ
    batch_loop [] cursor sent_count = send_rest cursor sent_count
    batch_loop (m ∷ ms) cursor sent_count = λ c.
        (do
          packet_id ← packet_id_for MAX_INFLIGHT (PublishMessage.qos m)
          cursor' ← place cursor (
              encode_publish (version_of c)
                (record (new_publish (PublishMessage.topic m) (PublishMessage.payload m)
                  (PublishMessage.qos m)) {
                    packet_id = packet_id;
                    retain = PublishMessage.retain m;
                  }))
          batch_loop ms cursor' (sent_count + 1))
          c

    unfoldable pub publish_batch : List PublishMessage → Act T E ℕ
    publish_batch messages = when_connected (batch_loop messages 0 0)

  unfoldable pub subscribe : List (List ℕ × QoS) → Act T E ℕ
  subscribe topics = when_connected (λ c.
      (do
        packet_id ← get_next_packet_id
        sub ← from_result (add_topics topics (new_subscribe packet_id))
        transmit p (encode_subscribe (version_of c) sub)
        touch_tx p
        answer packet_id)
        c)

  unfoldable pub unsubscribe : List (List ℕ) → Act T E ℕ
  unsubscribe topics = when_connected (λ c.
      (do
        packet_id ← get_next_packet_id
        unsub ← from_result (add_filters topics (new_unsubscribe packet_id))
        transmit p (encode_unsubscribe (version_of c) unsub)
        touch_tx p
        answer packet_id)
        c)

  unfoldable pub disconnect : Act T E (Unit {0})
  disconnect c =
      if is_connected c
      then (transmit p (encode_disconnect (version_of c) new_disconnect) >> set_state disconnected)
          c
      else (done tt, c)
