-- ===== src/EmbeddedClient/Polling.antt =====
-- crates/mqtt-embedded/src/client.rs, `poll` and `poll_batch`: the keep-alive, and the answer to a
-- packet that arrives. Both treat a packet alike, so the model has one `handle_packet`.
pub mod Replies
pub mod Ends
use mqtt_async_embedded.Prelude.{
  ℕ, suc, ◌+◌, ◌-◌, ◌/◌, Bool, true, false, Option, none, some, List, [], ◌∷◌, ◌++◌, length, take,
  ltb, leb, ◌==◌, if◌then◌else◌,
}
use mqtt_async_embedded.Exec.{Result, ok, err, panic}
use mqtt_async_embedded.EmbeddedErrors.{client_error_from}
use mqtt_async_embedded.Types.{
  QoS, at_most_once, at_least_once, exactly_once, Publish, AckKind, pub_ack, pub_rec, pub_rel,
  pub_comp, Ack, new_ack, SubKind, SubReply, MqttPacket,
}
use mqtt_async_embedded.Codec.Ack.{encode_ack}
use mqtt_async_embedded.Codec.Disconnect.{encode_ping_req}
use mqtt_async_embedded.Codec.Dispatch.{decode}
use mqtt_async_embedded.Frames.{new_iter, take_items}
use mqtt_async_embedded.EmbeddedInflight.{
  track_inbound_qos2, handle_puback, handle_pubrec, handle_pubrel, handle_pubcomp,
}
use mqtt_async_embedded.EmbeddedClient.{
  Platform, Outcome, done, failed, panics, disconnected, MqttOptions, MqttClient, Act, answer,
  after, ◌>>=◌, ◌>>◌, set_state, when_connected, from_result, send_bytes, send_tx, recv_rx,
  touch_rx, encode_tx, transmit, decode_rx,
}
use mqtt_async_embedded.EmbeddedClient.Calls.{version_of}

pub data MqttEvent : Type 0 where
  event_publish : Publish → MqttEvent
  event_ack : AckKind → Ack → MqttEvent
  event_reply : SubKind → SubReply → MqttEvent
  event_ping_resp event_disconnect : MqttEvent

module _ {T E : Type 0} (p : Platform T E) (MAX_INFLIGHT : ℕ) where
  unfoldable pub send_ack : AckKind → ℕ → Act T E (Unit {0})
  send_ack kind packet_id c = transmit p (encode_ack kind (version_of c) (new_ack packet_id)) c

  -- `let _ = self.inflight.track_inbound_qos2(pid)`
  abbrev pub track_inbound : ℕ → Act T E (Unit {0})
  track_inbound pid c = (
    done tt,
    record c { inflight = (track_inbound_qos2 MAX_INFLIGHT (MqttClient.inflight c) pid).1 },
  )

  -- The automatic acknowledgement of a PUBLISH.
  unfoldable pub acknowledge_publish : QoS → Option ℕ → Act T E (Unit {0})
  acknowledge_publish at_least_once (some pid) = send_ack pub_ack pid
  acknowledge_publish exactly_once (some pid) = send_ack pub_rec pid >> track_inbound pid
  acknowledge_publish at_least_once none = answer tt
  acknowledge_publish exactly_once none = answer tt
  acknowledge_publish at_most_once packet_id = answer tt

  -- What a PUBACK, PUBREC, PUBREL or PUBCOMP does to the table, and what is sent for it.
  unfoldable pub settle : AckKind → ℕ → Act T E (Unit {0})
  settle pub_ack pid c =
      (done tt, record c { inflight = (handle_puback (MqttClient.inflight c) pid).1 })
  settle pub_rec pid c =
      send_ack pub_rel pid (record c { inflight = (handle_pubrec (MqttClient.inflight c) pid).1 })
  settle pub_rel pid c =
      send_ack pub_comp pid (record c { inflight = (handle_pubrel (MqttClient.inflight c) pid).1 })
  settle pub_comp pid c =
      (done tt, record c { inflight = (handle_pubcomp (MqttClient.inflight c) pid).1 })

  -- The `match` on a packet: the event that is handed to the caller.
  unfoldable pub handle_packet : Option MqttPacket → Act T E (Option MqttEvent)
  handle_packet (some (MqttPacket.publish m)) =
      acknowledge_publish (Publish.qos m) (Publish.packet_id m) >> answer (some (event_publish m))
  handle_packet (some (MqttPacket.ack kind a)) =
      settle kind (Ack.packet_id a) >> answer (some (event_ack kind a))
  handle_packet (some (MqttPacket.sub_reply kind r)) = answer (some (event_reply kind r))
  handle_packet (some MqttPacket.ping_resp) = answer (some event_ping_resp)
  handle_packet (some (MqttPacket.disconnect d)) =
      set_state disconnected >> answer (some event_disconnect)
  handle_packet _ = answer none

  -- PINGREQ, once half of the keep-alive has passed since the last transmission. `duration_since`
  -- panics where the clock went back.
  unfoldable pub keep_alive : ℕ → Act T E (Unit {0})
  keep_alive now c =
      if ltb now (MqttClient.last_tx_time c)
      then (panics, c)
      else if leb (MqttOptions.keep_alive (MqttClient.options c) / 2)
          (now - MqttClient.last_tx_time c)
      then (transmit p encode_ping_req >> (λ c'. (done tt, record c' { last_tx_time = now }))) c
      else (done tt, c)

  -- `self.rx_len = n; self.last_rx_time = Instant::now()`
  abbrev pub note_read : ℕ → Act T E (Unit {0})
  note_read n c = touch_rx p (record c { rx_len = n })

  -- What follows the read of `n` bytes.
  unfoldable pub poll_read : ℕ → Act T E (Option MqttEvent)
  poll_read n = if n == 0 then answer none else note_read n >> (decode_rx n >>= handle_packet)

  unfoldable pub poll : Act T E (Option MqttEvent)
  poll =
      when_connected
        (λ c. (keep_alive (Platform.now p (MqttClient.transport c)) >> (recv_rx p >>= poll_read)) c)

  -- `let _ = events.push(event)`: a full vector stays as it is.
  abbrev pub push_event : ℕ → List MqttEvent → Option MqttEvent → List MqttEvent
  push_event MAX_EVENTS events none = events
  push_event MAX_EVENTS events (some e) =
      if ltb (length events) MAX_EVENTS then events ++ (e ∷ []) else events

  -- `decode(frame, self.options.version)?`
  abbrev pub decode_frame_of : Result (List ℕ) → Act T E (Option MqttEvent)
  decode_frame_of frame c =
      (from_result frame >>= λ bytes. from_result (decode (version_of c) bytes) >>= handle_packet) c

  -- The loop over the items of the iterator.
  unfoldable pub batch_frames :
      ℕ → List (Result (List ℕ)) → List MqttEvent → Act T E (List MqttEvent)
  batch_frames MAX_EVENTS [] events = answer events
  batch_frames MAX_EVENTS (frame ∷ frames) events = decode_frame_of frame >>= λ event.
      batch_frames MAX_EVENTS frames (push_event MAX_EVENTS events event)

  -- The iterator gives at most one frame for each byte that was read.
  unfoldable pub read_frames : ℕ → ℕ → Act T E (List MqttEvent)
  read_frames MAX_EVENTS n c =
      if ltb (length (MqttClient.rx_buffer c)) n
      then (panics, c)
      else batch_frames MAX_EVENTS (take_items n (new_iter (take n (MqttClient.rx_buffer c)))) [] c

  unfoldable pub poll_batch_read : ℕ → ℕ → Act T E (List MqttEvent)
  poll_batch_read MAX_EVENTS n =
      if n == 0 then answer [] else note_read n >> read_frames MAX_EVENTS n

  unfoldable pub poll_batch : ℕ → Act T E (List MqttEvent)
  poll_batch MAX_EVENTS = when_connected (recv_rx p >>= poll_batch_read MAX_EVENTS)
