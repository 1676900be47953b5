-- ===== src/Examples/Loops.antt =====
-- The event loop over a network that gives one byte at every read.
mod Reads
use mqtt_async_embedded.Prelude.{
  ℕ, ◌+◌, ◌*◌, ◌^◌, ◌≤◌, ◌≡◌, ◌≢◌, refl, true, false, none, some, List, [], ◌∷◌, ◌++◌, length,
  replicate, suc, ◌==◌, arith, All,
}
use mqtt_async_embedded.Types.{QoS, at_most_once, at_least_once, MqttPacket, pub_rec, new_ack}
use mqtt_async_embedded.Properties.{total_prop_len}
use mqtt_async_embedded.Properties.RoundTrip.{ArePropertiesOk}
use mqtt_async_embedded.ClientTypes.{PublishMessage, ClientError, ClientResult, accepted, refused}
use mqtt_async_embedded.Options.{ClientOptions, client_options}
use mqtt_async_embedded.Options.Backoff.{Floats}
use mqtt_async_embedded.Maps
use mqtt_async_embedded.Router.{new_router}
use mqtt_async_embedded.Frames.{new_iter}
use mqtt_async_embedded.Frames.Stream.{short, stream_bytes}
use mqtt_async_embedded.EventLoop.{Network, done, hangs, EventLoop, unit_answer, new_loop}
use mqtt_async_embedded.Varint.Encoding.{groups}
use mqtt_async_embedded.Codec.Dispatch.RoundTrip.{IsPacket, packet_bytes}
use mqtt_async_embedded.EventLoop.Sending.{send_publish_direct}
use mqtt_async_embedded.EventLoop.Requests.{ClientRequest}
use mqtt_async_embedded.EventLoop.Reading.{
  settle_publish, parse_frames, parse_read, parse_endless, perform_actions, handle_read, read_rx,
  on_readable,
}
use mqtt_async_embedded.EventLoop.Connecting.{connect_with_backoff}
use mqtt_async_embedded.EventLoop.Driving.{
  Event, readable, request, requests_closed, tick, goes_on, run,
}
use mqtt_async_embedded.EventLoop.Invariant.{IsLoop, ReadsInside}
use mqtt_async_embedded.EventLoop.Invariant.Runs.{run-IsLoop}
use mqtt_async_embedded.EventLoop.Acknowledged.{settle_publish-send_publish_direct}
use mqtt_async_embedded.EventLoop.Retries.{connect_with_backoff_ends}
use mqtt_async_embedded.EventLoop.Retries.Endings.{comes_to_an_end}
use mqtt_async_embedded.EventLoop.Rounds.{parse_read-rounds}
use mqtt_async_embedded.EventLoop.Streams.{
  HasRead, actions_of, left_with, arrived, handle_read-stream,
}
use mqtt_async_embedded.EventLoop.Unsettled.{handle_read-unsettled}
use mqtt_async_embedded.EventLoop.Dropped.{IsLeft, run-closed}

-- The state of the network counts the reads. The handshake gets a CONNACK.
abbrev one_byte : List ℕ → ℕ → ClientResult ℕ × List ℕ × ℕ
one_byte [] t = (accepted 0, [], t)
one_byte (b ∷ slice) t = (accepted 1, 0xd0 ∷ slice, t + 1)

abbrev accepting : List ℕ → ClientResult ℕ × List ℕ
accepting (a ∷ b ∷ c ∷ d ∷ buf) = (accepted 4, 0x20 ∷ 2 ∷ 0 ∷ 0 ∷ buf)
accepting buf = (accepted 0, buf)

abbrev pub network : Network ℕ
network = record {
  connect = λ target t. (accepted tt, t);
  write_all = λ bytes t. (accepted tt, t);
  flush = λ t. (accepted tt, t);
  read = one_byte;
  read_in_time = λ buf t. (some (accepting buf).0, (accepting buf).1, t);
  send_datagram = λ bytes t. (refused ClientError.not_connected, t);
  now = λ t. 40000 * t;
  is_closed = λ t k. false;
}

accepted_count : {m n : ℕ} → accepted m ≡ accepted n → m ≡ n
accepted_count e = cc

network-ReadsInside : ReadsInside network
network-ReadsInside = record {
  keeps_slice = keeps_slice;
  inside = inside;
  keeps_buffer = keeps_buffer;
}
  where
    keeps_slice : (slice : List ℕ) (t : ℕ) → length (one_byte slice t).1 ≡ length slice
    keeps_slice [] t = refl
    keeps_slice (b ∷ slice) t = refl

    inside :
        (slice : List ℕ) (t count : ℕ)
        → (one_byte slice t).0 ≡ accepted count
        → count ≤ length slice
    inside [] t count e = omega (arith, accepted_count e)
    inside (b ∷ slice) t count e = omega (arith, accepted_count e)

    keeps_buffer : (buf : List ℕ) (t : ℕ) → length (accepting buf).1 ≡ length buf
    keeps_buffer [] t = refl
    keeps_buffer (a ∷ []) t = refl
    keeps_buffer (a ∷ b ∷ []) t = refl
    keeps_buffer (a ∷ b ∷ c ∷ []) t = refl
    keeps_buffer (a ∷ b ∷ c ∷ d ∷ buf) t = refl

-- Floats whose numbers are whole.
abbrev floats : Floats ℕ
floats = record {
  of_bits = λ b. 2;
  of_duration = λ d. d;
  to_duration = λ x. some x;
  powi = λ x k. x ^ k;
  mul = λ x y. x * y;
  min = λ x y. x;
}

abbrev pub options : ClientOptions
options = record (client_options (99 ∷ []) (104 ∷ []) 1883) { max_packet_size = 64 }

abbrev pub note : QoS → PublishMessage
note qos = record {
  topic = 97 ∷ [];
  payload = 104 ∷ 105 ∷ [];
  qos = qos;
  retain = false;
  dup = false;
  packet_id = none;
  user_properties = [];
}

abbrev cycles : List (List Event)
cycles =
    (request (ClientRequest.publish (note at_least_once) (some 5))
      ∷ readable
      ∷ tick
      ∷ request (ClientRequest.disconnect 6)
      ∷ [])
    ∷ (requests_closed ∷ [])
    ∷ []

run-IsLoop_example : IsLoop 64 (run network floats 2 cycles (new_loop network options 0)).1
unfolding client_options
run-IsLoop_example = run-IsLoop network options 0 network-ReadsInside floats 2 cycles

-- A connected loop, with a message in flight, a subscription and a message in the queue.
abbrev pub online : EventLoop ℕ
online = record {
  options = options;
  router = new_router;
  has_transport = true;
  offline_queue = note at_least_once ∷ note at_most_once ∷ [];
  active_subscriptions = (97 ∷ [], at_least_once) ∷ [];
  inflight_publishes =
      (
        7,
        record {
          message = record (note at_least_once) { packet_id = some 7 };
          ack_sender = some 1;
        },
      )
      ∷ [];
  inflight_subscribes = [];
  inflight_unsubscribes = [];
  next_packet_id = 8;
  rx_buf = replicate 64 0;
  tx_buf = replicate 64 0;
  rx_cursor = 0;
  last_tx = 0;
  reconnect_attempt = 0;
  net = 0;
  written = [];
  answers = [];
  delivered = [];
  statuses = [];
}

pub no_properties : ArePropertiesOk []
unfolding total_prop_len
no_properties = record { few = omega arith; shapes = tt; size = omega arith }

connect_with_backoff_ends_example :
    comes_to_an_end
      (connect_with_backoff
        (record network { connect = λ target t. (refused ClientError.timeout, t) })
        floats
        3
        (record online {
          has_transport = false;
          options = record options {
            reconnect = record (ClientOptions.reconnect options) { max_retries = some 3 };
          };
        })).0
    ≡ true
connect_with_backoff_ends_example = connect_with_backoff_ends _ floats 3 2 _ refl (omega arith)

run-closed_example :
    ((run network floats 2 (replicate 3 (requests_closed ∷ [])) online).0 ≡ done goes_on)
    × IsLeft 3 online (run network floats 2 (replicate 3 (requests_closed ∷ [])) online).1
unfolding client_options
run-closed_example = run-closed network floats 2 3 online refl refl (omega arith)
