-- ===== src/Examples/Packets.antt =====
-- The codec of crates/mqtt-packet on concrete packets.
use mqtt_async_embedded.Prelude.{
  ◌≡◌, refl, false, true, [], ◌∷◌, ◌++◌, some, length, replicate, arith,
}
use mqtt_async_embedded.Exec.{ok, err, panic, buffer_too_small}
use mqtt_async_embedded.Types.{
  at_least_once, v3_1_1, v5, Publish, publish, ping_req, new_disconnect,
}
use mqtt_async_embedded.Utf8.{is_utf8}
use mqtt_async_embedded.Properties.{property_kind, total_prop_len}
use mqtt_async_embedded.Varint.Encoding.{varint, groups}
use mqtt_async_embedded.Fields.RoundTrip.{prefixed}
use mqtt_async_embedded.Properties.RoundTrip.{property_bytes}
use mqtt_async_embedded.Codec.Publish.{decode_publish}
use mqtt_async_embedded.Codec.Publish.RoundTrip.{IsPublish, publish_content}
use mqtt_async_embedded.Codec.Publish.Overrun.{decode_publish_panics}
use mqtt_async_embedded.Codec.Disconnect.{encode_disconnect}
use mqtt_async_embedded.Codec.Disconnect.SmallBuffer.{disconnect_panics}
use mqtt_async_embedded.Codec.Dispatch.{encode}
use mqtt_async_embedded.Codec.Dispatch.Buffers.{RoundTrips, decode-encode, encode_too_small}
use mqtt_async_embedded.Frames.Stream.{cut, stream_bytes, decode_read, decode_read-stream}

-- A message of QoS 1 to the topic `a/b`, with a property of one byte.
abbrev hello : Publish
hello = record {
  dup = false;
  qos = at_least_once;
  retain = true;
  topic = 97 ∷ 47 ∷ 98 ∷ [];
  packet_id = some 300;
  payload = 104 ∷ 105 ∷ [];
  properties = record { id = 1; bytes = 1 ∷ [] } ∷ [];
}

hello_properties : total_prop_len hello.properties ≡ 2
unfolding total_prop_len
hello_properties = refl

hello_content : length (publish_content v5 hello) ≡ 12
unfolding total_prop_len groups property_bytes
hello_content = refl

hello-IsPublish : IsPublish v5 hello
unfolding is_utf8 property_kind
hello-IsPublish = record {
  topic_short = omega arith;
  topic_utf8 = refl;
  properties_ok = record {
    few = omega arith;
    shapes = (refl, tt);
    size = omega (arith, hello_properties);
  };
  size = omega (arith, hello_content);
}

decode-encode_example : RoundTrips v5 (publish hello) (replicate 32 7)
decode-encode_example =
    decode-encode v5 (publish hello) (replicate 32 7) hello-IsPublish (omega (arith, hello_content))

encode_too_small_example : (encode (publish hello) v5 (replicate 9 0)).0 ≡ err buffer_too_small
encode_too_small_example =
    encode_too_small v5 (publish hello) (replicate 9 0) hello-IsPublish tt
      (omega (arith, hello_content))

five_less : 0x30 ∷ 5 ∷ 0 ∷ [] ≡ 0x30 ∷ (varint 5 ++ (0 ∷ []))
unfolding groups
five_less = refl

-- A read that holds a PINGREQ, the message, and three bytes of another packet.
decode_read-stream_example :
    decode_read v5 8 (stream_bytes v5 (ping_req ∷ publish hello ∷ []) ++ (0x30 ∷ 5 ∷ 0 ∷ []))
    ≡ ok (some ping_req) ∷ ok (some (publish hello)) ∷ []
decode_read-stream_example =
    decode_read-stream v5 (ping_req ∷ publish hello ∷ []) (0x30 ∷ 5 ∷ 0 ∷ []) 8
      (tt, (hello-IsPublish, tt)) (cut 0x30 5 (0 ∷ []) (omega arith) (omega arith) five_less)
      (omega arith)

disconnect_panics_example : (encode_disconnect v3_1_1 new_disconnect (0 ∷ 0 ∷ 0 ∷ [])).0 ≡ panic
disconnect_panics_example =
    disconnect_panics v3_1_1 new_disconnect refl (0 ∷ 0 ∷ 0 ∷ []) (omega arith) (omega arith)

decode_publish_panics_example :
    decode_publish v5 (0x30 ∷ (varint 2 ++ (prefixed (97 ∷ 98 ∷ []) ++ []))) ≡ panic
unfolding is_utf8
decode_publish_panics_example =
    decode_publish_panics v5 0x30 2 (97 ∷ 98 ∷ []) [] refl refl (omega arith) (omega arith)
