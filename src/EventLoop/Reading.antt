-- ===== src/EventLoop/Reading.antt =====
-- The first branch of `drive_connection`: a read, the frames that it completes, and what is done for
-- each packet.
use mqtt_async_embedded.Prelude.{
  ℕ, zero, suc, ◌+◌, ◌-◌, Option, none, some, List, [], ◌∷◌, ◌++◌, length, take, drop, ltb, ◌==◌,
  if◌then◌else◌,
}
use mqtt_async_embedded.Exec.{Result, ok, err, panic}
use mqtt_async_embedded.EmbeddedErrors.{ProtocolError}
use mqtt_async_embedded.Types.{
  MqttVersion, QoS, at_most_once, at_least_once, exactly_once, Publish, pub_ack, Ack, new_ack,
  sub_ack, unsub_ack, SubReply, MqttPacket,
}
use mqtt_async_embedded.Codec.Ack.{encode_ack}
use mqtt_async_embedded.Codec.Dispatch.{decode}
use mqtt_async_embedded.Frames.{RawPacketFrameIter, new_iter, next}
use mqtt_async_embedded.ClientTypes.{PublishMessage, ClientError, accepted}
use mqtt_async_embedded.Router
use mqtt_async_embedded.Maps
use mqtt_async_embedded.EventLoop.{
  Network, done, failed, panics, hangs, EventLoop, Unacked, unit_answer, id_answer, Act, answer,
  fail, ◌>>=◌, ◌>>◌, version_of, send_answer, write_tx, flush, touch_tx, when_encoded, as_outcome,
}

pub data IncomingAction : Type 0 where
  publish : PublishMessage → IncomingAction
  pub_ack_of sub_ack_of unsub_ack_of : ℕ → IncomingAction
  ping_resp disconnect : IncomingAction

unfoldable pub owned_message : Publish → PublishMessage
owned_message p = record {
  topic = Publish.topic p;
  payload = Publish.payload p;
  qos = Publish.qos p;
  retain = Publish.retain p;
  dup = Publish.dup p;
  packet_id = Publish.packet_id p;
  user_properties = [];
}

unfoldable pub incoming_action : MqttPacket → Option IncomingAction
incoming_action (MqttPacket.publish p) = some (publish (owned_message p))
incoming_action (MqttPacket.ack pub_ack a) = some (pub_ack_of (Ack.packet_id a))
incoming_action (MqttPacket.sub_reply sub_ack r) = some (sub_ack_of (SubReply.packet_id r))
incoming_action (MqttPacket.sub_reply unsub_ack r) = some (unsub_ack_of (SubReply.packet_id r))
incoming_action MqttPacket.ping_resp = some ping_resp
incoming_action (MqttPacket.disconnect d) = some disconnect
incoming_action _ = none

-- What the loop over `iter.flatten()` makes of a read: the actions and the number of bytes of the
-- frames, or that a packet is malformed, that something panics, or that it does not end.
pub data ReadFrames : Type 0 where
  parsed : List IncomingAction → ℕ → ReadFrames
  bad_packet parse_panics parse_endless : ReadFrames

abbrev pub onto : Option IncomingAction → List IncomingAction → List IncomingAction
onto none actions = actions
onto (some a) actions = a ∷ actions

-- The actions of a packet, before those of the packets behind it.
abbrev pub with_packet : Option MqttPacket → List ℕ → ReadFrames → ReadFrames
with_packet none frame (parsed actions consumed) = parsed actions (length frame + consumed)
with_packet (some p) frame (parsed actions consumed) =
    parsed (onto (incoming_action p) actions) (length frame + consumed)
with_packet packet frame bad_packet = bad_packet
with_packet packet frame parse_panics = parse_panics
with_packet packet frame parse_endless = parse_endless

-- `decode(frame, version).map_err(…)?`
abbrev pub with_frame : Result (Option MqttPacket) → List ℕ → ReadFrames → ReadFrames
with_frame (ok packet) frame rest = with_packet packet frame rest
with_frame (err e) frame rest = bad_packet
with_frame panic frame rest = parse_panics

-- One round for each item of the iterator: `flatten` passes errors over.
abbrev pub with_item : MqttVersion → Option (Result (List ℕ)) → ReadFrames → ReadFrames
with_item version none rest = parsed [] 0
with_item version (some (ok frame)) rest = with_frame (decode version frame) frame rest
with_item version (some (err e)) rest = rest
with_item version (some panic) rest = parse_panics

unfoldable pub parse_frames : MqttVersion → ℕ → RawPacketFrameIter → ReadFrames
parse_frames version zero it = parse_endless
parse_frames version (suc rounds) it =
    with_item version (next it).0 (parse_frames version rounds (next it).1)

-- A loop that has not ended after one round more than there are bytes does not end.
abbrev pub parse_read : MqttVersion → List ℕ → ReadFrames
parse_read version bytes = parse_frames version (suc (length bytes)) (new_iter bytes)

abbrev pub invalid_response : ClientError
invalid_response = ClientError.protocol ProtocolError.invalid_response

-- `std::io::ErrorKind::UnexpectedEof`
abbrev pub unexpected_eof : ClientError
unexpected_eof = ClientError.io 0

module _ {T : Type 0} (n : Network T) where
  -- Each channel that the message goes to is noted with it.
  abbrev pub with_message : PublishMessage → List ℕ → List (ℕ × PublishMessage)
  with_message m [] = []
  with_message m (k ∷ ks) = (k, m) ∷ with_message m ks

  unfoldable pub dispatch : PublishMessage → Act T (Unit {0})
  dispatch m s =
      let (router, sent) =
        Router.dispatch (Network.is_closed n (EventLoop.net s)) m (EventLoop.router s) in
      (
        done tt,
        record s { router = router; delivered = EventLoop.delivered s ++ with_message m sent },
      )

  unfoldable pub send_pub_ack : QoS → Option ℕ → Act T (Unit {0})
  send_pub_ack at_least_once (some pid) = λ s.
      when_encoded n (encode_ack pub_ack (version_of s) (new_ack pid))
        (λ len. write_tx n len >> (flush n >> touch_tx n)) s
  send_pub_ack at_least_once none = answer tt
  send_pub_ack at_most_once packet_id = answer tt
  send_pub_ack exactly_once packet_id = answer tt

  -- `if let Some((_, Some(sender))) = self.inflight_publishes.remove(&packet_id)`
  abbrev pub sender_of : Option Unacked → Option ℕ
  sender_of none = none
  sender_of (some u) = Unacked.ack_sender u

  unfoldable pub settle_publish : ℕ → Act T (Unit {0})
  settle_publish pid s =
      send_answer (sender_of (Maps.find ◌==◌ pid (EventLoop.inflight_publishes s)))
        (unit_answer (accepted tt))
        (record s { inflight_publishes = Maps.remove ◌==◌ pid (EventLoop.inflight_publishes s) })

  unfoldable pub settle_subscribe : ℕ → Act T (Unit {0})
  settle_subscribe pid s =
      send_answer (Maps.find ◌==◌ pid (EventLoop.inflight_subscribes s)) (id_answer (accepted pid))
        (record s { inflight_subscribes = Maps.remove ◌==◌ pid (EventLoop.inflight_subscribes s) })

  unfoldable pub settle_unsubscribe : ℕ → Act T (Unit {0})
  settle_unsubscribe pid s =
      send_answer (Maps.find ◌==◌ pid (EventLoop.inflight_unsubscribes s))
        (id_answer (accepted pid))
        (record s {
          inflight_unsubscribes = Maps.remove ◌==◌ pid (EventLoop.inflight_unsubscribes s);
        })

  unfoldable pub perform_action : IncomingAction → Act T (Unit {0})
  perform_action (publish m) =
      send_pub_ack (PublishMessage.qos m) (PublishMessage.packet_id m) >> dispatch m
  perform_action (pub_ack_of pid) = settle_publish pid
  perform_action (sub_ack_of pid) = settle_subscribe pid
  perform_action (unsub_ack_of pid) = settle_unsubscribe pid
  perform_action ping_resp = answer tt
  perform_action disconnect = fail ClientError.not_connected

  unfoldable pub perform_actions : List IncomingAction → Act T (Unit {0})
  perform_actions [] = answer tt
  perform_actions (a ∷ actions) = perform_action a >> perform_actions actions

  -- `self.rx_buf.copy_within(consumed..rx_cursor, 0); rx_cursor -= consumed;`
  unfoldable pub discard : ℕ → Act T (Unit {0})
  discard consumed s =
      let kept = drop consumed (take (EventLoop.rx_cursor s) (EventLoop.rx_buf s)) in
      if ltb 0 consumed
      then (if ltb (EventLoop.rx_cursor s) consumed then (panics, s) else (
        done tt,
        record s {
          rx_buf = kept ++ drop (length kept) (EventLoop.rx_buf s);
          rx_cursor = EventLoop.rx_cursor s - consumed;
        },
      ))
      else (done tt, s)

  unfoldable pub handle_parsed : ReadFrames → Act T (Unit {0})
  handle_parsed (parsed actions consumed) = discard consumed >> perform_actions actions
  handle_parsed bad_packet = fail invalid_response
  handle_parsed parse_panics = λ s. (panics, s)
  handle_parsed parse_endless = λ s. (hangs, s)

  -- The statements behind the read of `count` bytes.
  unfoldable pub handle_read : ℕ → Act T (Unit {0})
  handle_read count s =
      let cursor = EventLoop.rx_cursor s + count in
      if count == 0
      then (failed unexpected_eof, s)
      else if ltb (length (EventLoop.rx_buf s)) cursor
      then (panics, record s { rx_cursor = cursor })
      else handle_parsed (parse_read (version_of s) (take cursor (EventLoop.rx_buf s)))
          (record s { rx_cursor = cursor })

  -- `transport.read(&mut self.rx_buf[rx_cursor..])`
  unfoldable pub read_rx : Act T ℕ
  read_rx s =
      if ltb (length (EventLoop.rx_buf s)) (EventLoop.rx_cursor s)
      then (panics, s)
      else (let (r, slice, net) =
            Network.read n (drop (EventLoop.rx_cursor s) (EventLoop.rx_buf s)) (EventLoop.net s) in
          (
            as_outcome r,
            record s {
              rx_buf = take (EventLoop.rx_cursor s) (EventLoop.rx_buf s) ++ slice;
              net = net;
            },
          ))

  unfoldable pub on_readable : Act T (Unit {0})
  on_readable = read_rx >>= handle_read
