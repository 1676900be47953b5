-- ===== src/EmbeddedClient/Invariant/Events.antt =====
-- The invariant of the client over the calls that receive, and over streamed messages.
use mqtt_async_embedded.Prelude.{
  ℕ, ◌-◌, ◌/◌, refl, Option, none, some, List, [], ◌∷◌, length, ltb, leb, ◌==◌, Bool-cases, inl,
  inr,
}
use mqtt_async_embedded.Exec.{Result}
use mqtt_async_embedded.Types.{
  QoS, at_most_once, at_least_once, exactly_once, Publish, AckKind, pub_ack, pub_rec, pub_rel,
  pub_comp, Ack, MqttPacket,
}
use mqtt_async_embedded.Codec.Disconnect.{encode_ping_req}
use mqtt_async_embedded.Codec.Dispatch.{decode}
use mqtt_async_embedded.EmbeddedInflight.Laws.{
  perform, perform-IsTable, inbound_call, puback_call, pubrec_call, pubrel_call, pubcomp_call,
}
use mqtt_async_embedded.EmbeddedClient.{
  Platform, disconnected, MqttOptions, MqttClient, answer, ◌>>=◌, ◌>>◌, set_state, send_bytes,
  recv_rx, touch_tx, transmit, decode_rx, packet_id_for, from_result,
}
use mqtt_async_embedded.EmbeddedClient.Calls.{version_of}
use mqtt_async_embedded.EmbeddedClient.Polling.{
  MqttEvent, event_publish, event_ack, event_disconnect, send_ack, track_inbound,
  acknowledge_publish, settle, handle_packet, keep_alive, note_read, poll_read, poll, push_event,
  decode_frame_of, batch_frames, read_frames, poll_batch_read, poll_batch,
}
use mqtt_async_embedded.EmbeddedClient.Streaming.{variable_header, begin_stream_publish, new_writer}
use mqtt_async_embedded.EmbeddedClient.Invariant.{
  IsClient, Keeps, Keeps-bind, Keeps-seq, Keeps-if, Keeps-when_connected, same_table, with_table,
  Keeps-from_result, Keeps-send_bytes, Keeps-recv_rx, Keeps-transmit, Keeps-touch_tx,
  Keeps-decode_rx, Keeps-set_state, Keeps-packet_id_for,
}

module _ {T E : Type 0} (N : ℕ) (p : Platform T E) where
  Keeps-send_ack : (kind : AckKind) (pid : ℕ) → Keeps N (send_ack p N kind pid)
  unfolding send_ack
  Keeps-send_ack kind pid c v = Keeps-transmit N p _ c v

  Keeps-track_inbound : (pid : ℕ) → Keeps N (track_inbound p N pid)
  Keeps-track_inbound pid c v =
      with_table N c _
        (unfold perform in
          perform-IsTable N (inbound_call pid) (MqttClient.inflight c) (IsClient.table v))
        v

  Keeps-acknowledge_publish :
      (qos : QoS) (pid : Option ℕ) → Keeps N (acknowledge_publish p N qos pid)
  unfolding acknowledge_publish
  Keeps-acknowledge_publish at_most_once pid = λ c v. v
  Keeps-acknowledge_publish at_least_once none = λ c v. v
  Keeps-acknowledge_publish exactly_once none = λ c v. v
  Keeps-acknowledge_publish at_least_once (some pid) = Keeps-send_ack pub_ack pid
  Keeps-acknowledge_publish exactly_once (some pid) =
      Keeps-seq N (send_ack p N pub_rec pid) (track_inbound p N pid) (Keeps-send_ack pub_rec pid)
        (Keeps-track_inbound pid)

  Keeps-settle : (kind : AckKind) (pid : ℕ) → Keeps N (settle p N kind pid)
  unfolding settle perform
  Keeps-settle pub_ack pid c v =
      with_table N c _
        (perform-IsTable N (puback_call pid) (MqttClient.inflight c) (IsClient.table v)) v
  Keeps-settle pub_rec pid c v = Keeps-send_ack pub_rel pid _ (
      with_table N c _
        (perform-IsTable N (pubrec_call pid) (MqttClient.inflight c) (IsClient.table v)) v)
  Keeps-settle pub_rel pid c v = Keeps-send_ack pub_comp pid _ (
      with_table N c _
        (perform-IsTable N (pubrel_call pid) (MqttClient.inflight c) (IsClient.table v)) v)
  Keeps-settle pub_comp pid c v =
      with_table N c _
        (perform-IsTable N (pubcomp_call pid) (MqttClient.inflight c) (IsClient.table v)) v

  Keeps-handle_packet : (packet : Option MqttPacket) → Keeps N (handle_packet p N packet)
  unfolding handle_packet
  Keeps-handle_packet none = λ c v. v
  Keeps-handle_packet (some (MqttPacket.publish m)) =
      Keeps-seq N _ (answer (some (event_publish m)))
        (Keeps-acknowledge_publish (Publish.qos m) (Publish.packet_id m)) (λ c v. v)
  Keeps-handle_packet (some (MqttPacket.ack kind a)) =
      Keeps-seq N _ (answer (some (event_ack kind a))) (Keeps-settle kind (Ack.packet_id a))
        (λ c v. v)
  Keeps-handle_packet (some (MqttPacket.disconnect d)) =
      Keeps-seq N (set_state {T = T} {E = E} disconnected) (answer (some event_disconnect))
        (Keeps-set_state N p disconnected) (λ c v. v)
  Keeps-handle_packet (some (MqttPacket.sub_reply kind r)) = λ c v. v
  Keeps-handle_packet (some MqttPacket.ping_resp) = λ c v. v
  Keeps-handle_packet (some MqttPacket.ping_req) = λ c v. v
  Keeps-handle_packet (some (MqttPacket.connect a)) = λ c v. v
  Keeps-handle_packet (some (MqttPacket.conn_ack a)) = λ c v. v
  Keeps-handle_packet (some (MqttPacket.subscribe a)) = λ c v. v
  Keeps-handle_packet (some (MqttPacket.unsubscribe a)) = λ c v. v

  Keeps-keep_alive : (now : ℕ) → Keeps N (keep_alive p N now)
  unfolding keep_alive
  Keeps-keep_alive now c v = elim (Bool-cases (ltb now (MqttClient.last_tx_time c))) [
    | inl back ↦ rw back v
    | inr on ↦
        elim (Bool-cases (
          leb (MqttOptions.keep_alive (MqttClient.options c) / 2)
            (now - MqttClient.last_tx_time c))) [
              | inl due ↦
                  rw (on, due)
                    (Keeps-seq N (transmit p encode_ping_req) _ (Keeps-transmit N p encode_ping_req)
                      (λ d w. same_table N d _ refl refl w) c v)
              | inr idle ↦ rw (on, idle) v
            ]
  ]

  Keeps-note_read : (n : ℕ) → Keeps N (note_read p N n)
  Keeps-note_read n c v = same_table N c _ refl refl v

  Keeps-poll_read : (n : ℕ) → Keeps N (poll_read p N n)
  unfolding poll_read
  Keeps-poll_read n =
      Keeps-if N (n == 0) (answer none) _ (λ c v. v)
        (Keeps-seq N (note_read p N n) (decode_rx n >>= handle_packet p N) (Keeps-note_read n) (
          Keeps-bind N (decode_rx n) (handle_packet p N) (Keeps-decode_rx N p n)
            Keeps-handle_packet))

  pub Keeps-poll : Keeps N (poll p N)
  unfolding poll
  Keeps-poll = Keeps-when_connected N _ (λ c v.
      Keeps-seq N (keep_alive p N _) (recv_rx p >>= poll_read p N) (Keeps-keep_alive _)
        (Keeps-bind N (recv_rx p) (poll_read p N) (Keeps-recv_rx N p) Keeps-poll_read) c v)

  Keeps-decode_frame_of : (frame : Result (List ℕ)) → Keeps N (decode_frame_of p N frame)
  Keeps-decode_frame_of frame c v =
      Keeps-bind N (from_result frame) _ (Keeps-from_result N p frame)
        (λ bytes.
          Keeps-bind N (from_result (decode (version_of c) bytes)) (handle_packet p N)
            (Keeps-from_result N p _) Keeps-handle_packet)
        c v

  Keeps-batch_frames :
      (most : ℕ) (frames : List (Result (List ℕ))) (events : List MqttEvent)
      → Keeps N (batch_frames p N most frames events)
  unfolding batch_frames
  Keeps-batch_frames most [] events = λ c v. v
  Keeps-batch_frames most (frame ∷ frames) events =
      Keeps-bind N (decode_frame_of p N frame) _ (Keeps-decode_frame_of frame)
        (λ event. Keeps-batch_frames most frames (push_event p N most events event))

  Keeps-read_frames : (most n : ℕ) → Keeps N (read_frames p N most n)
  unfolding read_frames
  Keeps-read_frames most n c v = elim (Bool-cases (ltb (length (MqttClient.rx_buffer c)) n)) [
    | inl short ↦ rw short v
    | inr long ↦ rw long (Keeps-batch_frames most _ [] c v)
  ]

  Keeps-poll_batch_read : (most n : ℕ) → Keeps N (poll_batch_read p N most n)
  unfolding poll_batch_read
  Keeps-poll_batch_read most n =
      Keeps-if N (n == 0) (answer []) _ (λ c v. v)
        (Keeps-seq N (note_read p N n) (read_frames p N most n) (Keeps-note_read n)
          (Keeps-read_frames most n))

  pub Keeps-poll_batch : (most : ℕ) → Keeps N (poll_batch p N most)
  unfolding poll_batch
  Keeps-poll_batch most =
      Keeps-when_connected N _
        (Keeps-bind N (recv_rx p) _ (Keeps-recv_rx N p) (Keeps-poll_batch_read most))

  pub Keeps-begin_stream_publish :
      (topic : List ℕ) (total : ℕ) (qos : QoS) → Keeps N (begin_stream_publish p N topic total qos)
  unfolding begin_stream_publish
  Keeps-begin_stream_publish topic total qos = Keeps-when_connected N _ (λ c v.
      Keeps-bind N (packet_id_for N qos) _ (Keeps-packet_id_for N p qos)
        (λ pid. Keeps-bind N (from_result _) _ (Keeps-from_result N p _) (λ header.
          Keeps-seq N (send_bytes p header) _ (Keeps-send_bytes N p header) (
            Keeps-bind N (from_result (variable_header (version_of c) topic pid)) _
              (Keeps-from_result N p _)
              (λ rest.
                Keeps-seq N (send_bytes p rest) (touch_tx p >> answer (new_writer total))
                  (Keeps-send_bytes N p rest)
                  (Keeps-seq N (touch_tx p) (answer (new_writer total)) (Keeps-touch_tx N p)
                    (λ d w. w))))))
        c v)
