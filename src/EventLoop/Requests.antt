-- ===== src/EventLoop/Requests.antt =====
-- `ClientRequest` (crates/mqtt-tokio/src/types.rs) and `handle_client_request`.
use mqtt_async_embedded.Prelude.{
  ℕ, Option, none, some, List, length, take, ltb, ◌==◌, if◌then◌else◌,
}
use mqtt_async_embedded.Bytes.{same_bytes}
use mqtt_async_embedded.Types.{
  QoS, at_most_once, new_publish, new_subscribe, add_topic, new_unsubscribe, add_unsubscribe_topic,
}
use mqtt_async_embedded.Codec.Publish.{encode_publish}
use mqtt_async_embedded.Codec.Subscribe.{encode_subscribe}
use mqtt_async_embedded.Codec.Unsubscribe.{encode_unsubscribe}
use mqtt_async_embedded.ClientTypes.{PublishMessage, ClientError, accepted}
use mqtt_async_embedded.Router
use mqtt_async_embedded.Maps
use mqtt_async_embedded.EventLoop.{
  Network, done, panics, EventLoop, unit_answer, count_answer, Act, fail, ◌>>=◌, ◌>>◌, version_of,
  encode_tx, get_next_packet_id, send_answer, transmit,
}
use mqtt_async_embedded.EventLoop.Sending.{
  send_publish_direct, send_publish_batch_direct, send_disconnect,
}

pub data ClientRequest : Type 0 where
  publish : PublishMessage → Option ℕ → ClientRequest
  publish_batch : List PublishMessage → Option ℕ → ClientRequest
  publish_datagram : List ℕ → List ℕ → Option ℕ → ClientRequest
  subscribe : List ℕ → QoS → ℕ → Option ℕ → ClientRequest
  unsubscribe : List ℕ → ℕ → ClientRequest
  disconnect : ℕ → ClientRequest

module _ {T : Type 0} where
  -- `if let Some(stream_tx) = stream_sender { let _ = self.router.insert(&topic, stream_tx); }`
  unfoldable pub route : List ℕ → Option ℕ → Act T (Unit {0})
  route topic none s = (done tt, s)
  route topic (some stream) s =
      (done tt, record s { router = (Router.insert topic stream (EventLoop.router s)).1 })

  unfoldable pub unroute : List ℕ → Act T (Unit {0})
  unroute topic s = (done tt, record s { router = (Router.remove topic (EventLoop.router s)).1 })

  unfoldable pub activate : List ℕ → QoS → Act T (Unit {0})
  activate topic qos s = (
    done tt,
    record s {
      active_subscriptions = Maps.insert same_bytes topic qos (EventLoop.active_subscriptions s);
    },
  )

  unfoldable pub deactivate : List ℕ → Act T (Unit {0})
  deactivate topic s = (
    done tt,
    record s {
      active_subscriptions = Maps.remove same_bytes topic (EventLoop.active_subscriptions s);
    },
  )

  unfoldable pub note_subscribe : ℕ → ℕ → Act T (Unit {0})
  note_subscribe pid resp s = (
    done tt,
    record s { inflight_subscribes = Maps.insert ◌==◌ pid resp (EventLoop.inflight_subscribes s) },
  )

  unfoldable pub note_unsubscribe : ℕ → ℕ → Act T (Unit {0})
  note_unsubscribe pid resp s = (
    done tt,
    record s {
      inflight_unsubscribes = Maps.insert ◌==◌ pid resp (EventLoop.inflight_unsubscribes s);
    },
  )

module _ {T : Type 0} (n : Network T) where
  -- `transport.send_datagram(&self.tx_buf[..len])`, and the answer to the caller
  unfoldable pub send_datagram : Option ℕ → ℕ → Act T (Unit {0})
  send_datagram ack_sender len s =
      if ltb (length (EventLoop.tx_buf s)) len
      then (panics, s)
      else (let (r, net) =
            Network.send_datagram n (take len (EventLoop.tx_buf s)) (EventLoop.net s) in
          send_answer ack_sender (unit_answer r) (record s { net = net }))

  unfoldable pub handle_client_request : ClientRequest → Act T (Unit {0})
  handle_client_request (publish message ack_sender) = send_publish_direct n message ack_sender
  handle_client_request (publish_batch messages ack_sender) =
      send_publish_batch_direct n messages >>= λ count.
      send_answer ack_sender (count_answer (accepted count))
  handle_client_request (publish_datagram topic payload ack_sender) = λ s.
      (encode_tx (encode_publish (version_of s) (new_publish topic payload at_most_once))
          >>= send_datagram ack_sender)
        s
  handle_client_request (subscribe topic qos resp_sender stream_sender) = λ s.
      (do
        pid ← get_next_packet_id
        route topic stream_sender
        activate topic qos
        transmit n (encode_subscribe (version_of s) (add_topic topic qos (new_subscribe pid)).1)
        note_subscribe pid resp_sender)
        s
  handle_client_request (unsubscribe topic resp_sender) = λ s.
      (do
        pid ← get_next_packet_id
        unroute topic
        deactivate topic
        transmit n (
            encode_unsubscribe (version_of s) (add_unsubscribe_topic topic (new_unsubscribe pid)).1)
        note_unsubscribe pid resp_sender)
        s
  handle_client_request (disconnect resp_sender) = do
    send_disconnect n
    send_answer (some resp_sender) (unit_answer (accepted tt))
    fail ClientError.client_closed
