-- ===== src/Codec/Dispatch/RoundTrip.antt =====
-- The wire form of every packet, and the one entry point `decode` on it.
use mqtt_async_embedded.Prelude.{ℕ, ◌<◌, ◌≡◌, refl, ap, some, List, [], ◌++◌, length, arith}
use mqtt_async_embedded.Exec.{ok}
use mqtt_async_embedded.Types.{
  MqttVersion, pub_ack, pub_rec, pub_rel, pub_comp, sub_ack, unsub_ack, MqttPacket, connect,
  conn_ack, publish, ack, subscribe, sub_reply, unsubscribe, ping_req, ping_resp, disconnect,
}
use mqtt_async_embedded.Varint.Encoding.{varint_limit}
use mqtt_async_embedded.Codec.Frame.Encodes.{frame}
use mqtt_async_embedded.Codec.Connect.RoundTrip.{
  IsConnect, connect_content, connect_received, decode_connect-frame,
}
use mqtt_async_embedded.Codec.ConnAck.RoundTrip.{
  IsConnAck, conn_ack_content, conn_ack_received, decode_conn_ack-frame,
}
use mqtt_async_embedded.Codec.Publish.{publish_header}
use mqtt_async_embedded.Codec.Publish.RoundTrip.{
  IsPublish, publish_content, publish_received, decode_publish-frame, header_bits,
}
use mqtt_async_embedded.Codec.Ack.{ack_byte}
use mqtt_async_embedded.Codec.Ack.RoundTrip.{IsAck, ack_content, ack_received, decode_ack-frame}
use mqtt_async_embedded.Codec.Subscribe.RoundTrip.{
  IsSubscribe, subscribe_content, subscribe_received, decode_subscribe-frame,
}
use mqtt_async_embedded.Codec.SubReply.{reply_byte}
use mqtt_async_embedded.Codec.SubReply.RoundTrip.{
  IsSubReply, sub_reply_content, sub_reply_received, decode_sub_reply-frame,
}
use mqtt_async_embedded.Codec.Unsubscribe.RoundTrip.{
  IsUnsubscribe, unsubscribe_content, unsubscribe_received, decode_unsubscribe-frame,
}
use mqtt_async_embedded.Codec.Disconnect.RoundTrip.{
  IsDisconnect, disconnect_content, disconnect_received, decode_disconnect-frame,
}
use mqtt_async_embedded.Codec.Dispatch.{decode, wrap}

-- A packet that the wire can hold.
abbrev pub IsPacket : MqttVersion → MqttPacket → Type 0
IsPacket version (connect p) = IsConnect version p
IsPacket version (conn_ack p) = IsConnAck version p
IsPacket version (publish p) = IsPublish version p
IsPacket version (ack kind p) = IsAck version p
IsPacket version (subscribe p) = IsSubscribe version p
IsPacket version (sub_reply kind p) = IsSubReply version p
IsPacket version (unsubscribe p) = IsUnsubscribe version p
IsPacket version ping_req = Unit {0}
IsPacket version ping_resp = Unit {0}
IsPacket version (disconnect p) = IsDisconnect version p

-- The first byte, the content and the bytes of a packet.
abbrev pub first_byte : MqttPacket → ℕ
first_byte (connect p) = 0x10
first_byte (conn_ack p) = 0x20
first_byte (publish p) = publish_header p.dup p.qos p.retain
first_byte (ack kind p) = ack_byte kind
first_byte (subscribe p) = 0x82
first_byte (sub_reply kind p) = reply_byte kind
first_byte (unsubscribe p) = 0xa2
first_byte ping_req = 0xc0
first_byte ping_resp = 0xd0
first_byte (disconnect p) = 0xe0

abbrev pub packet_content : MqttVersion → MqttPacket → List ℕ
packet_content version (connect p) = connect_content version p
packet_content version (conn_ack p) = conn_ack_content version p
packet_content version (publish p) = publish_content version p
packet_content version (ack kind p) = ack_content version p
packet_content version (subscribe p) = subscribe_content version p
packet_content version (sub_reply kind p) = sub_reply_content version p
packet_content version (unsubscribe p) = unsubscribe_content version p
packet_content version ping_req = []
packet_content version ping_resp = []
packet_content version (disconnect p) = disconnect_content version p

unfoldable pub packet_bytes : MqttVersion → MqttPacket → List ℕ
packet_bytes version p = frame (first_byte p) (packet_content version p)

-- What arrives of a packet.
abbrev pub packet_received : MqttVersion → MqttPacket → MqttPacket
packet_received version (connect p) = connect (connect_received version p)
packet_received version (conn_ack p) = conn_ack (conn_ack_received version p)
packet_received version (publish p) = publish (publish_received version p)
packet_received version (ack kind p) = ack kind (ack_received version p)
packet_received version (subscribe p) = subscribe (subscribe_received version p)
packet_received version (sub_reply kind p) = sub_reply kind (sub_reply_received version p)
packet_received version (unsubscribe p) = unsubscribe (unsubscribe_received version p)
packet_received version ping_req = ping_req
packet_received version ping_resp = ping_resp
packet_received version (disconnect p) = disconnect (disconnect_received version p)

-- `decode` gives back what arrives of a packet that the wire can hold from the bytes of the packet,
-- whatever bytes follow them.
pub decode-packet_bytes :
    (version : MqttVersion) (p : MqttPacket) (rest : List ℕ)
    → IsPacket version p
    → decode version (packet_bytes version p ++ rest) ≡ ok (some (packet_received version p))
unfolding decode packet_bytes
decode-packet_bytes version (connect p) rest good =
    ap (wrap connect) (decode_connect-frame version p good rest)
decode-packet_bytes version (conn_ack p) rest good =
    ap (wrap conn_ack) (decode_conn_ack-frame version p good rest)
decode-packet_bytes version (publish p) rest good =
    let (dup, qos, retain, kind) = header_bits p.dup p.qos p.retain in
    rw kind (ap (wrap publish) (decode_publish-frame version p good rest))
decode-packet_bytes version (ack pub_ack p) rest good =
    ap (wrap (ack pub_ack)) (decode_ack-frame pub_ack version p good rest)
decode-packet_bytes version (ack pub_rec p) rest good =
    ap (wrap (ack pub_rec)) (decode_ack-frame pub_rec version p good rest)
decode-packet_bytes version (ack pub_rel p) rest good =
    ap (wrap (ack pub_rel)) (decode_ack-frame pub_rel version p good rest)
decode-packet_bytes version (ack pub_comp p) rest good =
    ap (wrap (ack pub_comp)) (decode_ack-frame pub_comp version p good rest)
decode-packet_bytes version (subscribe p) rest good =
    ap (wrap subscribe) (decode_subscribe-frame version p good rest)
decode-packet_bytes version (sub_reply sub_ack p) rest good =
    ap (wrap (sub_reply sub_ack)) (decode_sub_reply-frame sub_ack version p good rest)
decode-packet_bytes version (sub_reply unsub_ack p) rest good =
    ap (wrap (sub_reply unsub_ack)) (decode_sub_reply-frame unsub_ack version p good rest)
decode-packet_bytes version (unsubscribe p) rest good =
    ap (wrap unsubscribe) (decode_unsubscribe-frame version p good rest)
decode-packet_bytes version ping_req rest good = refl
decode-packet_bytes version ping_resp rest good = refl
decode-packet_bytes version (disconnect p) rest good =
    ap (wrap disconnect) (decode_disconnect-frame version p good rest)

pub packet_size :
    (version : MqttVersion) (p : MqttPacket)
    → IsPacket version p
    → length (packet_content version p) < varint_limit
packet_size version (connect p) good = good.size
packet_size version (conn_ack p) good = good.size
packet_size version (publish p) good = good.size
packet_size version (ack kind p) good = good.size
packet_size version (subscribe p) good = good.size
packet_size version (sub_reply kind p) good = good.size
packet_size version (unsubscribe p) good = good.size
packet_size version ping_req good = omega arith
packet_size version ping_resp good = omega arith
packet_size version (disconnect p) good = good.size
