-- ===== src/Examples/Clients.antt =====
-- The embedded client on a platform that notes what is sent and reads one message.
use mqtt_async_embedded.Prelude.{
  ℕ, ◌+◌, ◌≤◌, ◌<◌, ◌≡◌, ◌≢◌, refl, false, some, List, [], ◌∷◌, ◌++◌, length, replicate, ◌==◌,
  arith, All,
}
use mqtt_async_embedded.Exec.{ok}
use mqtt_async_embedded.Types.{
  at_least_once, exactly_once, v3_1_1, Publish, pub_ack, new_ack, MqttPacket,
}
use mqtt_async_embedded.Utf8.{is_utf8}
use mqtt_async_embedded.Properties.{total_prop_len}
use mqtt_async_embedded.Varint.Encoding.{groups}
use mqtt_async_embedded.Codec.Publish.RoundTrip.{IsPublish, publish_received}
use mqtt_async_embedded.Codec.Dispatch.RoundTrip.{packet_bytes}
use mqtt_async_embedded.Varint.Write.{Fills-varint}
use mqtt_async_embedded.Slots.{any}
use mqtt_async_embedded.EmbeddedInflight
use mqtt_async_embedded.EmbeddedInflight.{track, track_outbound}
use mqtt_async_embedded.Frames.{new_iter, take_items}
use mqtt_async_embedded.EmbeddedClient.{
  Platform, net_ok, done, failed, panics, is_done, MqttOptions, new_options, MqttClient, new_client,
  is_connected, connected, packet_id_for, tracked_id, get_next_packet_id, id_after, send_bytes,
}
use mqtt_async_embedded.EmbeddedErrors.{MqttError, ProtocolError}
use mqtt_async_embedded.EmbeddedClient.Datagrams.{
  QuicTransport, QuicMqttClient, new_quic_client, publish_datagram, recv_datagram,
  recv_datagram-publish_datagram,
}
use mqtt_async_embedded.EmbeddedClient.Calls.{connect}
use mqtt_async_embedded.EmbeddedClient.Calls.Connection.{connect_settles}
use mqtt_async_embedded.EmbeddedClient.Polling.{event_publish, batch_frames, poll_read}
use mqtt_async_embedded.EmbeddedClient.Polling.Replies.{poll_read-acknowledges}
use mqtt_async_embedded.EmbeddedClient.Polling.Ends.{batch_frames_ends}
use mqtt_async_embedded.EmbeddedClient.Streaming.{
  new_writer, total_length, fixed_header, variable_header_len, begin_stream_publish, finish,
}
use mqtt_async_embedded.EmbeddedClient.Streaming.Overrun.{begin_stream_publish_panics}
use mqtt_async_embedded.EmbeddedClient.Streaming.Chunks.{
  WriteCall, chunk, vectored, IsSized, write_all, write_all-finish,
}
use mqtt_async_embedded.EmbeddedClient.Invariant.{IsClient}
use mqtt_async_embedded.EmbeddedClient.Invariant.Runs.{
  ClientCall, call_connect, call_publish, call_poll, call_subscribe, after_calls,
  after_calls-IsClient,
}
use mqtt_async_embedded.EmbeddedClient.Invariant.Ids.{id_after_all, id_after_all-distinct}

-- A message of QoS 1 to the topic `a`.
abbrev hello : Publish
hello = record {
  dup = false;
  qos = at_least_once;
  retain = false;
  topic = 97 ∷ [];
  packet_id = some 300;
  payload = 104 ∷ 105 ∷ [];
  properties = [];
}

hello_properties : total_prop_len hello.properties ≡ 0
unfolding total_prop_len
hello_properties = refl

hello-IsPublish : IsPublish v3_1_1 hello
unfolding is_utf8
hello-IsPublish = record {
  topic_short = omega arith;
  topic_utf8 = refl;
  properties_ok = record { few = omega arith; shapes = tt; size = omega (arith, hello_properties) };
  size = omega arith;
}

-- The transport is the list of what was sent, the newest first. A read gives a CONNACK.
abbrev platform : Platform (List (List ℕ)) (Unit {0})
platform = record {
  send = λ bytes t. (net_ok tt, bytes ∷ t);
  recv = λ buf t. (net_ok 4, 0x20 ∷ 2 ∷ 0 ∷ 0 ∷ replicate 28 0, t);
  now = λ t. length t;
  as_secs = λ d. d;
}

abbrev options : MqttOptions
options = new_options 30 (99 ∷ []) (104 ∷ []) 1883

abbrev fresh : MqttClient (List (List ℕ))
fresh = new_client platform 64 [] options

abbrev online : MqttClient (List (List ℕ))
online = record fresh { state = connected }

connect_settles_example :
    is_done (connect platform fresh).0 ≡ is_connected (connect platform fresh).1
connect_settles_example = connect_settles platform fresh

abbrev calls : List ClientCall
calls =
    call_connect
    ∷ call_publish (97 ∷ []) (1 ∷ []) exactly_once
    ∷ call_subscribe ((97 ∷ [], at_least_once) ∷ [])
    ∷ call_poll
    ∷ call_publish (97 ∷ []) (2 ∷ []) at_least_once
    ∷ []

after_calls-IsClient_example : IsClient 4 (after_calls 4 platform calls fresh)
after_calls-IsClient_example = after_calls-IsClient 4 platform calls 64 [] options

id_after_all-distinct_example :
    (id_after_all 65534 65535 ≢ 65535)
    × (1 ≤ id_after_all 65534 65535)
    × (id_after_all 65534 65535 < 65536)
    × (id_after_all 65535 65535 ≡ 65535)
id_after_all-distinct_example =
    id_after_all-distinct 65534 65535 (omega arith) (omega arith) (omega arith) (omega arith)

-- The read buffer of a client holds the message and one more byte.
abbrev hello_read : MqttClient (List (List ℕ))
hello_read = record online {
  rx_buffer = packet_bytes v3_1_1 (MqttPacket.publish hello) ++ (0 ∷ []);
}

abbrev reply : List ℕ
reply = packet_bytes v3_1_1 (MqttPacket.ack pub_ack (new_ack 300))

poll_read-acknowledges_example :
    ((poll_read platform 4 10 hello_read).0
      ≡ done (some (event_publish (publish_received v3_1_1 hello))))
    × (MqttClient.transport (poll_read platform 4 10 hello_read).1 ≡ reply ∷ [])
unfolding new_client new_options packet_bytes groups
poll_read-acknowledges_example =
    poll_read-acknowledges platform 4 hello (0 ∷ []) 10 hello_read (reply ∷ []) hello-IsPublish refl
      (omega arith) (omega arith) refl (omega arith) refl

-- A PINGRESP and a frame that is cut off.
batch_frames_ends_example :
    batch_frames platform 4 8
      (take_items (4 + 3) (new_iter (0xd0 ∷ 0 ∷ 0x30 ∷ 0x80 ∷ [])))
      []
      online
    ≡ batch_frames platform 4 8 (take_items 4 (new_iter (0xd0 ∷ 0 ∷ 0x30 ∷ 0x80 ∷ []))) [] online
batch_frames_ends_example = batch_frames_ends platform 4 8 3 (0xd0 ∷ 0 ∷ 0x30 ∷ 0x80 ∷ []) [] online

abbrev pieces : List WriteCall
pieces =
    chunk (1 ∷ 2 ∷ [])
    ∷ chunk (3 ∷ 4 ∷ [])
    ∷ vectored ((5 ∷ []) ∷ (6 ∷ []) ∷ [])
    ∷ vectored ([] ∷ (7 ∷ []) ∷ [])
    ∷ []

pieces-AllSized : All IsSized pieces
unfolding total_length
pieces-AllSized = (omega arith, (omega arith, (omega arith, (omega arith, tt))))

write_all-finish_example :
    let (written, last) = write_all platform pieces (new_writer 3) online in
    (written ≤ 3) × (is_done (finish {E = Unit {0}} last) ≡ (written == 3))
write_all-finish_example = write_all-finish platform pieces 3 online pieces-AllSized

-- A topic of 253 bytes.
abbrev long_topic : List ℕ
long_topic = replicate 253 97

abbrev long_header : List ℕ
long_header = 0x32 ∷ 0x86 ∷ 2 ∷ []

abbrev tracked : MqttClient (List (List ℕ))
tracked = (packet_id_for {T = List (List ℕ)} {E = Unit {0}} 4 at_least_once online).1

abbrev header_sent : MqttClient (List (List ℕ))
header_sent = record tracked { transport = long_header ∷ [] }

id_given :
    packet_id_for {T = List (List ℕ)} {E = Unit {0}} 4 at_least_once online
    ≡ (done (some 1), tracked)
unfolding packet_id_for tracked_id get_next_packet_id id_after track_outbound new_client
    EmbeddedInflight.new track any
id_given = refl

header_given : fixed_header at_least_once 262 ≡ ok long_header
unfolding fixed_header groups
header_given =
    let written = (Fills-varint 262 (omega arith)).fits (replicate 15 0) (omega arith) in
    rw (written, fixed_header) (rw written refl)

header_goes : send_bytes platform long_header tracked ≡ (done tt, header_sent)
unfolding send_bytes packet_id_for tracked_id get_next_packet_id id_after new_client track_outbound
    track any EmbeddedInflight.new
header_goes = refl

begin_stream_publish_panics_example :
    begin_stream_publish platform 4 long_topic 5 at_least_once online ≡ (panics, header_sent)
unfolding new_client new_options variable_header_len
begin_stream_publish_panics_example =
    begin_stream_publish_panics platform 4 long_topic 5 at_least_once 1 long_header online tracked
      header_sent refl id_given header_given header_goes (omega arith) (omega arith)

-- A QUIC transport that holds one datagram.
abbrev quic : QuicTransport (List ℕ) (Unit {0})
quic = record {
  send_datagram = λ bytes t. (net_ok tt, bytes);
  recv_datagram = λ buf t. (net_ok (length t), t ++ (0 ∷ []), []);
}

abbrev quic_client : List ℕ → QuicMqttClient (List ℕ)
quic_client t = new_quic_client 8 t options

recv_datagram-publish_datagram_example :
    (publish_datagram quic (97 ∷ []) (1 ∷ 2 ∷ []) (quic_client [])
      ≡ (done tt, quic_client (0 ∷ 1 ∷ 97 ∷ 1 ∷ 2 ∷ [])))
    × ((recv_datagram quic (quic_client (0 ∷ 1 ∷ 97 ∷ 1 ∷ 2 ∷ []))).0
        ≡ failed (MqttError.protocol (ProtocolError.invalid_packet_type 0)))
unfolding new_quic_client
recv_datagram-publish_datagram_example =
    recv_datagram-publish_datagram quic (97 ∷ []) (1 ∷ 2 ∷ []) (omega arith) (0 ∷ [])
      (quic_client []) (quic_client (0 ∷ 1 ∷ 97 ∷ 1 ∷ 2 ∷ [])) (0 ∷ 1 ∷ 97 ∷ 1 ∷ 2 ∷ []) [] refl
      refl
