-- ===== src/EventLoop.antt =====
-- crates/mqtt-tokio/src/eventloop.rs: the event loop of the tokio client. Its functions act on the
-- state of the loop; the network is an interface on a state of its own, which is a field here.
-- `written`, `answers`, `delivered` and `statuses` note what goes out: the bytes of each `write_all`,
-- the answers on the channels of the callers, the messages handed to the channels of subscriptions,
-- and the connection status. A channel is a number.
pub mod Sending
pub mod Requests
pub mod Reading
pub mod Connecting
pub mod Driving
pub mod Recovery
pub mod Retries
pub mod Rounds
pub mod Ends
pub mod Acknowledged
pub mod Streams
pub mod Unsettled
pub mod Dropped
pub mod Invariant
use mqtt_async_embedded.Prelude.{
  ℕ, zero, suc, ◌+◌, ◌%◌, Bool, true, false, Option, none, some, List, [], ◌∷◌, ◌++◌, length, take,
  replicate, ltb, ◌==◌, if◌then◌else◌,
}
use mqtt_async_embedded.Exec.{Result, ok, err, panic, Exec}
use mqtt_async_embedded.EmbeddedErrors.{ProtocolError}
use mqtt_async_embedded.Types.{QoS, MqttVersion}
use mqtt_async_embedded.ClientTypes.{
  PublishMessage, ClientError, ClientResult, accepted, refused, ConnectionStatus,
}
use mqtt_async_embedded.Options.{ClientOptions, TransportTarget}
use mqtt_async_embedded.Router.{TopicRouter, new_router}
use mqtt_async_embedded.EmbeddedClient.{id_after}

-- `transport.read(slice)` gives the slice after the read; `read_in_time` gives `none` when the time
-- is over. `connect` is `connect_transport`, which opens a socket.
pub record Network (T : Type 0) : Type 0 where
  pub connect : TransportTarget → T → ClientResult (Unit {0}) × T
  pub write_all : List ℕ → T → ClientResult (Unit {0}) × T
  pub flush : T → ClientResult (Unit {0}) × T
  pub read : List ℕ → T → ClientResult ℕ × List ℕ × T
  pub read_in_time : List ℕ → T → Option (ClientResult ℕ) × List ℕ × T
  pub send_datagram : List ℕ → T → ClientResult (Unit {0}) × T
  pub now : T → ℕ
  pub is_closed : T → ℕ → Bool

-- `Result<A, ClientError>`, the panic of a slice, and a loop that never ends
pub data Outcome (A : Type 0) : Type 0 where
  done : A → Outcome A
  failed : ClientError → Outcome A
  panics hangs : Outcome A

-- A message in flight, and the channel that waits for its acknowledgement.
pub record Unacked : Type 0 where
  pub message : PublishMessage
  pub ack_sender : Option ℕ

-- What is sent on a channel: `Result<(), _>`, `Result<usize, _>` or `Result<u16, _>`
pub data Answer : Type 0 where
  unit_answer : ClientResult (Unit {0}) → Answer
  count_answer : ClientResult ℕ → Answer
  id_answer : ClientResult ℕ → Answer

-- `has_transport` tells whether the transport is `Some`; `rx_cursor` is the variable of
-- `drive_connection`.
pub record EventLoop (T : Type 0) : Type 0 where
  pub options : ClientOptions
  pub router : TopicRouter
  pub has_transport : Bool
  pub offline_queue : List PublishMessage
  pub active_subscriptions : List (List ℕ × QoS)
  pub inflight_publishes : List (ℕ × Unacked)
  pub inflight_subscribes : List (ℕ × ℕ)
  pub inflight_unsubscribes : List (ℕ × ℕ)
  pub next_packet_id : ℕ
  pub rx_buf : List ℕ
  pub tx_buf : List ℕ
  pub rx_cursor : ℕ
  pub last_tx : ℕ
  pub reconnect_attempt : ℕ
  pub net : T
  pub written : List (List ℕ)
  pub answers : List (ℕ × Answer)
  pub delivered : List (ℕ × PublishMessage)
  pub statuses : List ConnectionStatus

unfoldable pub new_loop : {T : Type 0} → Network T → ClientOptions → T → EventLoop T
new_loop n options net = record {
  options = options;
  router = new_router;
  has_transport = false;
  offline_queue = [];
  active_subscriptions = [];
  inflight_publishes = [];
  inflight_subscribes = [];
  inflight_unsubscribes = [];
  next_packet_id = 1;
  rx_buf = replicate (ClientOptions.max_packet_size options) 0;
  tx_buf = replicate (ClientOptions.max_packet_size options) 0;
  rx_cursor = 0;
  last_tx = Network.now n net;
  reconnect_attempt = 0;
  net = net;
  written = [];
  answers = [];
  delivered = [];
  statuses = [];
}

abbrev pub Act : Type 0 → Type 0 → Type 0
Act T A = EventLoop T → Outcome A × EventLoop T

module _ {T A : Type 0} where
  abbrev pub answer : A → Act T A
  answer a s = (done a, s)

  abbrev pub fail : ClientError → Act T A
  fail e s = (failed e, s)

module _ {T A B : Type 0} where
  abbrev pub after : Outcome A × EventLoop T → (A → Act T B) → Outcome B × EventLoop T
  after (done a, s) f = f a s
  after (failed e, s) f = (failed e, s)
  after (panics, s) f = (panics, s)
  after (hangs, s) f = (hangs, s)

  infixl 5 ◌>>=◌ ◌>>◌
  abbrev pub ◌>>=◌ : Act T A → (A → Act T B) → Act T B
  ◌>>=◌ m f s = after (m s) f

  abbrev pub ◌>>◌ : Act T A → Act T B → Act T B
  ◌>>◌ m k s = after (m s) (λ _. k)

-- `let _ = m.await`
abbrev pub ignored : {T A : Type 0} → Outcome A × EventLoop T → Outcome (Unit {0}) × EventLoop T
ignored (done a, s) = (done tt, s)
ignored (failed e, s) = (done tt, s)
ignored (panics, s) = (panics, s)
ignored (hangs, s) = (hangs, s)

abbrev pub ignoring : {T A : Type 0} → Act T A → Act T (Unit {0})
ignoring m s = ignored (m s)

abbrev pub malformed : ClientError
malformed = ClientError.protocol ProtocolError.malformed_packet

abbrev pub version_of : {T : Type 0} → EventLoop T → MqttVersion
version_of s = ClientOptions.version (EventLoop.options s)

-- `encode(&mut self.tx_buf, …).map_err(|_| Protocol(MalformedPacket))?`
abbrev pub after_encode : {T : Type 0} → Result ℕ × List ℕ → Act T ℕ
after_encode (ok n, buf) s = (done n, record s { tx_buf = buf })
after_encode (err e, buf) s = (failed malformed, record s { tx_buf = buf })
after_encode (panic, buf) s = (panics, record s { tx_buf = buf })

unfoldable pub encode_tx : {T : Type 0} → Exec (List ℕ) ℕ → Act T ℕ
encode_tx encoder s = after_encode (encoder (EventLoop.tx_buf s)) s

abbrev pub as_outcome : {A : Type 0} → ClientResult A → Outcome A
as_outcome (accepted a) = done a
as_outcome (refused e) = failed e

unfoldable pub get_next_packet_id : {T : Type 0} → Act T ℕ
get_next_packet_id s = (
  done (EventLoop.next_packet_id s),
  record s { next_packet_id = id_after (EventLoop.next_packet_id s) },
)

-- `sender.send(result)`, where there is a sender
unfoldable pub send_answer : {T : Type 0} → Option ℕ → Answer → Act T (Unit {0})
send_answer none a s = (done tt, s)
send_answer (some k) a s = (done tt, record s { answers = EventLoop.answers s ++ ((k, a) ∷ []) })

-- `self.status_tx.send(status)`
unfoldable pub send_status : {T : Type 0} → ConnectionStatus → Act T (Unit {0})
send_status status s = (done tt, record s { statuses = EventLoop.statuses s ++ (status ∷ []) })

module _ {T : Type 0} (n : Network T) where
  -- `transport.write_all(bytes).await?`
  unfoldable pub write_bytes : List ℕ → Act T (Unit {0})
  write_bytes bytes s =
      let (r, net) = Network.write_all n bytes (EventLoop.net s) in
      (as_outcome r, record s { net = net; written = EventLoop.written s ++ (bytes ∷ []) })

  -- `transport.write_all(&self.tx_buf[..len]).await?`
  unfoldable pub write_tx : ℕ → Act T (Unit {0})
  write_tx len s =
      if ltb (length (EventLoop.tx_buf s)) len
      then (panics, s)
      else write_bytes (take len (EventLoop.tx_buf s)) s

  unfoldable pub flush : Act T (Unit {0})
  flush s =
      let (r, net) = Network.flush n (EventLoop.net s) in (as_outcome r, record s { net = net })

  -- `self.last_tx = Instant::now()`
  abbrev pub touch_tx : Act T (Unit {0})
  touch_tx s = (done tt, record s { last_tx = Network.now n (EventLoop.net s) })

  -- A packet is encoded, written and flushed, and the time is noted.
  unfoldable pub transmit : Exec (List ℕ) ℕ → Act T (Unit {0})
  transmit encoder = encode_tx encoder >>= λ len. write_tx len >> (flush >> touch_tx)

  -- `if let Ok(len) = packet.encode(…) { rest }`: the error of the encoder is passed over.
  abbrev pub if_encoded : (ℕ → Act T (Unit {0})) → Result ℕ × List ℕ → Act T (Unit {0})
  if_encoded rest (ok len, buf) s = rest len (record s { tx_buf = buf })
  if_encoded rest (err e, buf) s = (done tt, record s { tx_buf = buf })
  if_encoded rest (panic, buf) s = (panics, record s { tx_buf = buf })

  unfoldable pub when_encoded : Exec (List ℕ) ℕ → (ℕ → Act T (Unit {0})) → Act T (Unit {0})
  when_encoded encoder rest s = if_encoded rest (encoder (EventLoop.tx_buf s)) s
