-- ===== src/Examples/Streams.antt =====
-- The streams of crates/mqtt-tokio on concrete inputs, in network byte order.
use mqtt_async_embedded.Prelude.{
  ℕ, ◌<◌, ◌≡◌, Bool, true, false, List, [], ◌∷◌, ◌++◌, replicate, arith,
}
use mqtt_async_embedded.Slots.{count}
use mqtt_async_embedded.Types.{at_least_once}
use mqtt_async_embedded.ClientTypes.{PublishMessage, new_message, accepted}
use mqtt_async_embedded.Buffers.{size}
use mqtt_async_embedded.Buffers.BigEndian.{big_endian, read_number, get_number}
use mqtt_async_embedded.Sensor.{SensorDataType, time_series, encode_data, decode_data}
use mqtt_async_embedded.Sensor.RoundTrip.{carried, decode_data-encode_data}
use mqtt_async_embedded.Chunks.{
  StreamChunk, encode_wire, decode_wire, DataStreamProducer, new_producer,
}
use mqtt_async_embedded.Chunks.Wire.{decode_wire-encode_wire}
use mqtt_async_embedded.Chunks.Journal.{Sending, send_all}
use mqtt_async_embedded.Chunks.Consumer.{new_consumer}
use mqtt_async_embedded.Chunks.Consumer.Buffer.{Ascends, has_seq}
use mqtt_async_embedded.Chunks.Consumer.Order.{AreSmall, handed_out, handed_out-Ascends}
use mqtt_async_embedded.Chunks.Consumer.Complete.{numbers, handed_out_complete}
use mqtt_async_embedded.Chunks.Consumer.Due.{in_range, chunks_of}

-- A message with a sequence number of one byte, and no payload.
abbrev numbered : ℕ → PublishMessage
numbered n = new_message [] (replicate 7 0 ++ (n ∷ replicate 8 0))

-- The third, the first and the second chunk arrive in this order.
abbrev shuffled : List PublishMessage
shuffled = numbered 3 ∷ numbered 1 ∷ numbered 2 ∷ []

shuffled_once : (k : ℕ) → count (has_seq k) (chunks_of big_endian shuffled) ≡ in_range 1 3 k
unfolding count decode_wire big_endian get_number read_number new_message
shuffled_once k = ground arith

handed_out_complete_example :
    (numbers (handed_out big_endian 3 shuffled (new_consumer 16)) ≡ 1 ∷ 2 ∷ 3 ∷ [])
    × ((q : StreamChunk → Bool)
        → count q (handed_out big_endian 3 shuffled (new_consumer 16))
          ≡ count q (chunks_of big_endian shuffled))
handed_out_complete_example =
    handed_out_complete big_endian 16 shuffled 3 shuffled_once (omega arith) (omega arith)

shuffled-AreSmall : AreSmall big_endian shuffled
unfolding decode_wire big_endian get_number read_number new_message
shuffled-AreSmall = (omega arith, (omega arith, (omega arith, tt)))

handed_out-Ascends_example : Ascends 1 (handed_out big_endian 5 shuffled (new_consumer 1))
handed_out-Ascends_example = handed_out-Ascends big_endian 5 1 shuffled shuffled-AreSmall

abbrev series : SensorDataType
series = time_series (1 ∷ 300 ∷ 0 ∷ [])

abbrev kept_text : List ℕ → List ℕ
kept_text s = s

series_low : 1 < size 8
unfolding size
series_low = omega arith

series_high : 300 < size 8
unfolding size
series_high = omega arith

series_zero : 0 < size 8
unfolding size
series_zero = omega arith

decode_data-encode_data_example :
    decode_data big_endian kept_text (encode_data big_endian series) ≡ carried kept_text series
decode_data-encode_data_example =
    decode_data-encode_data big_endian kept_text series
      (series_low, (series_high, (series_zero, tt)))

abbrev chunk : StreamChunk
chunk = record {
  seq_id = 300;
  timestamp_ns = 1;
  topic = 97 ∷ [];
  payload = 7 ∷ [];
  is_recovery = true;
}

decode_wire-encode_wire_example :
    decode_wire big_endian (98 ∷ []) (encode_wire big_endian chunk)
    ≡ record chunk { topic = 98 ∷ []; is_recovery = false }
decode_wire-encode_wire_example =
    decode_wire-encode_wire big_endian (98 ∷ []) chunk series_high series_low

abbrev sending : ℕ → Sending
sending n = record { now = n; answer = accepted tt; payload = n ∷ [] }

abbrev sendings : List Sending
sendings = sending 10 ∷ sending 20 ∷ sending 30 ∷ []

abbrev producer : DataStreamProducer
producer = send_all big_endian sendings (new_producer (97 ∷ []) at_least_once 2)
