-- ===== src/Codec/Dispatch.antt =====
-- The traits `EncodePacket` and `DecodePacket`, and `decode`, crates/mqtt-packet/src/codec.rs,
-- lines 15 to 25 and 821 to 850: the packet type in the upper half of the first byte chooses the
-- decoder.
pub mod RoundTrip
pub mod Buffers
use mqtt_async_embedded.Prelude.{ℕ, ◌/◌, Option, none, some, List, [], ◌∷◌, ◌==◌, if◌then◌else◌}
use mqtt_async_embedded.Exec.{Result, ok, err, panic, Exec, invalid_packet_type}
use mqtt_async_embedded.Types.{
  MqttVersion, AckKind, pub_ack, pub_rec, pub_rel, pub_comp, SubKind, sub_ack, unsub_ack,
  MqttPacket, connect, conn_ack, publish, ack, subscribe, sub_reply, unsubscribe, ping_req,
  ping_resp, disconnect,
}
use mqtt_async_embedded.Codec.Connect.{encode_connect, decode_connect}
use mqtt_async_embedded.Codec.ConnAck.{encode_conn_ack, decode_conn_ack}
use mqtt_async_embedded.Codec.Publish.{encode_publish, decode_publish}
use mqtt_async_embedded.Codec.Ack.{encode_ack, decode_ack}
use mqtt_async_embedded.Codec.Subscribe.{encode_subscribe, decode_subscribe}
use mqtt_async_embedded.Codec.SubReply.{encode_sub_reply, decode_sub_reply}
use mqtt_async_embedded.Codec.Unsubscribe.{encode_unsubscribe, decode_unsubscribe}
use mqtt_async_embedded.Codec.Disconnect.{
  encode_ping_req, encode_ping_resp, encode_disconnect, decode_disconnect,
}

-- `EncodePacket::encode`, by the type of the packet.
pub encode : MqttPacket → MqttVersion → Exec (List ℕ) ℕ
encode (connect p) version = encode_connect version p
encode (conn_ack p) version = encode_conn_ack version p
encode (publish p) version = encode_publish version p
encode (ack kind p) version = encode_ack kind version p
encode (subscribe p) version = encode_subscribe version p
encode (sub_reply kind p) version = encode_sub_reply kind version p
encode (unsubscribe p) version = encode_unsubscribe version p
encode ping_req version = encode_ping_req
encode ping_resp version = encode_ping_resp
encode (disconnect p) version = encode_disconnect version p

-- `Ok(Some(packet(P::decode(buf, version)?)))`
abbrev pub wrap : {A : Type 0} → (A → MqttPacket) → Result A → Result (Option MqttPacket)
wrap packet (ok a) = ok (some (packet a))
wrap packet (err e) = err e
wrap packet panic = panic

-- `match packet_type { … }`
unfoldable pub decode_type : ℕ → MqttVersion → List ℕ → Result (Option MqttPacket)
decode_type packet_type version buf =
    if packet_type == 1
    then wrap connect (decode_connect version buf)
    else if packet_type == 2
    then wrap conn_ack (decode_conn_ack version buf)
    else if packet_type == 3
    then wrap publish (decode_publish version buf)
    else if packet_type == 4
    then wrap (ack pub_ack) (decode_ack version buf)
    else if packet_type == 5
    then wrap (ack pub_rec) (decode_ack version buf)
    else if packet_type == 6
    then wrap (ack pub_rel) (decode_ack version buf)
    else if packet_type == 7
    then wrap (ack pub_comp) (decode_ack version buf)
    else if packet_type == 8
    then wrap subscribe (decode_subscribe version buf)
    else if packet_type == 9
    then wrap (sub_reply sub_ack) (decode_sub_reply version buf)
    else if packet_type == 10
    then wrap unsubscribe (decode_unsubscribe version buf)
    else if packet_type == 11
    then wrap (sub_reply unsub_ack) (decode_sub_reply version buf)
    else if packet_type == 12
    then ok (some ping_req)
    else if packet_type == 13
    then ok (some ping_resp)
    else if packet_type == 14
    then wrap disconnect (decode_disconnect version buf)
    else err (invalid_packet_type packet_type)

unfoldable pub decode : MqttVersion → List ℕ → Result (Option MqttPacket)
unfolding decode_type
decode version [] = ok none
decode version (first_byte ∷ bytes) = decode_type (first_byte / 16) version (first_byte ∷ bytes)
