-- ===== src/Examples/Loops/Reads.antt =====
-- What the event loop does with a read.
use mqtt_async_embedded.Prelude.{
  ℕ, ◌+◌, ◌≡◌, ◌≢◌, ◌⊎◌, refl, none, some, List, [], ◌∷◌, ◌++◌, length, replicate, suc, ◌==◌, arith,
  All,
}
use mqtt_async_embedded.Types.{exactly_once, v3_1_1, MqttPacket, pub_rec, new_ack}
use mqtt_async_embedded.Properties.{total_prop_len}
use mqtt_async_embedded.ClientTypes.{accepted}
use mqtt_async_embedded.Options.{client_options}
use mqtt_async_embedded.Maps
use mqtt_async_embedded.Frames.{new_iter}
use mqtt_async_embedded.Frames.Stream.{short, stream_bytes}
use mqtt_async_embedded.EventLoop.{Network, EventLoop, unit_answer}
use mqtt_async_embedded.Varint.Encoding.{groups}
use mqtt_async_embedded.Codec.Dispatch.RoundTrip.{IsPacket, packet_bytes}
use mqtt_async_embedded.EventLoop.Sending.{send_publish_direct}
use mqtt_async_embedded.EventLoop.Reading.{
  settle_publish, parse_frames, parse_read, parse_endless, perform_actions, handle_read,
}
use mqtt_async_embedded.EventLoop.Invariant.{IsLoop}
use mqtt_async_embedded.EventLoop.Acknowledged.{settle_publish-send_publish_direct}
use mqtt_async_embedded.EventLoop.Ends.{Spins, parse_read_ends}
use mqtt_async_embedded.EventLoop.Streams.{
  HasRead, actions_of, left_with, arrived, handle_read-stream,
}
use mqtt_async_embedded.EventLoop.Unsettled.{handle_read-unsettled}
use mqtt_async_embedded.Examples.Loops.{network, note, online, no_properties}

-- A PINGRESP and a frame that is cut off.
abbrev a_read : List ℕ
a_read = 0xd0 ∷ 0 ∷ 0x30 ∷ 0x80 ∷ []

parse_read_ends_example :
    ((parse_read v3_1_1 a_read ≢ parse_endless)
      × ((more : ℕ)
          → parse_frames v3_1_1 (suc (length a_read) + more) (new_iter a_read)
            ≡ parse_read v3_1_1 a_read))
    ⊎ (Spins v3_1_1 (new_iter a_read)
        × ((rounds : ℕ) → parse_frames v3_1_1 rounds (new_iter a_read) ≡ parse_endless))
parse_read_ends_example = parse_read_ends v3_1_1 a_read

network_loop : IsLoop 64 online
unfolding Maps.find
network_loop = record {
  id_positive = omega arith;
  id_u16 = omega arith;
  table = (record { positive = omega arith; u16 = omega arith; bears = refl }, refl, tt);
  buffer = refl;
  cursor = omega arith;
}

-- The state behind a message of QoS 2 and its PUBACK.
abbrev acknowledged : EventLoop ℕ
acknowledged =
    (settle_publish network 8 (send_publish_direct network (note exactly_once) (some 4) online).1).1

settle_publish-send_publish_direct_example :
    (EventLoop.answers acknowledged ≡ (4, unit_answer (accepted tt)) ∷ [])
    × (Maps.find ◌==◌ 8 (EventLoop.inflight_publishes acknowledged) ≡ none)
    × ((j : ℕ)
        → j ≢ 8
        → Maps.find ◌==◌ j (EventLoop.inflight_publishes acknowledged)
          ≡ Maps.find ◌==◌ j (EventLoop.inflight_publishes online))
    × (EventLoop.answers (settle_publish network 8 acknowledged).1 ≡ EventLoop.answers acknowledged)
settle_publish-send_publish_direct_example =
    settle_publish-send_publish_direct network 64 online (note exactly_once) 4 network_loop
      (λ e. cc)

-- The first two bytes of a PUBLISH.
abbrev split_read : EventLoop ℕ
split_read = record online { rx_buf = 0x30 ∷ replicate 63 0x80; rx_cursor = 1 }

-- A network that leaves the buffer as it is.
abbrev still_network : Network ℕ
still_network = record network { read = λ slice t. (accepted 1, slice, t) }

-- A PUBREC, and the first byte of another packet.
abbrev pub_rec_of : MqttPacket
pub_rec_of = MqttPacket.ack pub_rec (new_ack 7)

abbrev pub_rec_read : EventLoop ℕ
pub_rec_read = record online { rx_buf = packet_bytes v3_1_1 pub_rec_of ++ (0x30 ∷ replicate 59 0) }

pub_rec_good : All (IsPacket v3_1_1) (pub_rec_of ∷ [])
unfolding new_ack total_prop_len
pub_rec_good = (record { properties_ok = no_properties; size = omega arith }, tt)

pub_rec_front :
    HasRead (stream_bytes v3_1_1 (pub_rec_of ∷ []) ++ (0x30 ∷ [])) (arrived 5 pub_rec_read)
unfolding stream_bytes packet_bytes groups new_ack
pub_rec_front = record { inside = omega arith; front = refl }

handle_read-stream_example :
    handle_read network 5 pub_rec_read
    ≡ perform_actions network
        (actions_of v3_1_1 (pub_rec_of ∷ []))
        (left_with (0x30 ∷ []) (arrived 5 pub_rec_read))
unfolding client_options
handle_read-stream_example =
    handle_read-stream network 5 (pub_rec_of ∷ []) (0x30 ∷ []) pub_rec_read (omega arith)
      pub_rec_front pub_rec_good (short (omega arith))

handle_read-unsettled_example :
    EventLoop.inflight_publishes (handle_read network 5 pub_rec_read).1
    ≡ EventLoop.inflight_publishes online
unfolding client_options
handle_read-unsettled_example =
    handle_read-unsettled network 5 (pub_rec_of ∷ []) (0x30 ∷ []) pub_rec_read (omega arith)
      pub_rec_front pub_rec_good (short (omega arith)) (refl, tt)
