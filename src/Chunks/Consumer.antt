-- ===== src/Chunks/Consumer.antt =====
-- crates/mqtt-tokio/src/stream.rs, lines 378 to 450: the consumer that puts chunks in order. The
-- channel is the list of the messages that it will give before it closes. The `BTreeMap` is the list
-- of its values, whose keys are their sequence numbers, in ascending order.
pub mod Buffer
pub mod Order
pub mod Due
pub mod Complete
use mqtt_async_embedded.Prelude.{
  ℕ, ◌+◌, Bool, true, false, Option, none, some, List, [], ◌∷◌, length, ltb, ◌==◌, if◌then◌else◌,
}
use mqtt_async_embedded.ClientTypes.{PublishMessage}
use mqtt_async_embedded.Buffers.{Buffers}
use mqtt_async_embedded.Sensor.{SensorDataType}
use mqtt_async_embedded.Chunks.{StreamChunk, next_u64, decode_wire, to_sensor_data}

pub record DataStreamConsumer : Type 0 where
  pub expected_seq : ℕ
  pub reorder_buffer : List StreamChunk
  pub max_reorder_window : ℕ

unfoldable pub new_consumer : ℕ → DataStreamConsumer
new_consumer max_reorder_window = record {
  expected_seq = 1;
  reorder_buffer = [];
  max_reorder_window = max_reorder_window;
}

-- `map.get(&key)` and the map without the key: together `map.remove(&key)`
unfoldable pub find_chunk : ℕ → List StreamChunk → Option StreamChunk
find_chunk key [] = none
find_chunk key (c ∷ cs) =
    let rest = find_chunk key cs in if StreamChunk.seq_id c == key then some c else rest

unfoldable pub without_chunk : ℕ → List StreamChunk → List StreamChunk
without_chunk key [] = []
without_chunk key (c ∷ cs) =
    let rest = without_chunk key cs in if StreamChunk.seq_id c == key then cs else c ∷ rest

-- `map.insert(chunk.seq_id, chunk)`
unfoldable pub insert_chunk : StreamChunk → List StreamChunk → List StreamChunk
insert_chunk chunk [] = chunk ∷ []
insert_chunk chunk (c ∷ cs) =
    let rest = insert_chunk chunk cs in
    if StreamChunk.seq_id chunk == StreamChunk.seq_id c
    then chunk ∷ cs
    else if ltb (StreamChunk.seq_id chunk) (StreamChunk.seq_id c)
    then chunk ∷ c ∷ cs
    else c ∷ rest

-- The chunk that is answered, the consumer after it, and the messages that it has left.
abbrev pub Received : Type 0
Received = Option StreamChunk × DataStreamConsumer × List PublishMessage

-- The first chunk of the map, where it is over its window: the code removes it and expects the
-- number behind it.
abbrev pub force_pop :
    DataStreamConsumer → List StreamChunk → List PublishMessage → Received → Received
force_pop s [] ms later = later
force_pop s (popped ∷ cs) ms later = (
  some popped,
  record s { expected_seq = next_u64 (StreamChunk.seq_id popped); reorder_buffer = cs },
  ms,
)

module _ (b : Buffers) where
  unfoldable pub recv_loop : List PublishMessage → DataStreamConsumer → Received
  recv_loop [] s = (none, s, [])
  recv_loop (m ∷ ms) s =
      let chunk = decode_wire b (PublishMessage.topic m) (PublishMessage.payload m) in
      let buffer = insert_chunk chunk (DataStreamConsumer.reorder_buffer s) in
      let stored = record s { reorder_buffer = buffer } in
      let later = recv_loop ms stored in
      let dropped = recv_loop ms s in
      if StreamChunk.seq_id chunk == 0
      then (some chunk, s, ms)
      else if StreamChunk.seq_id chunk == DataStreamConsumer.expected_seq s
      then (
        some chunk,
        record s { expected_seq = next_u64 (DataStreamConsumer.expected_seq s) },
        ms,
      )
      else if ltb (DataStreamConsumer.expected_seq s) (StreamChunk.seq_id chunk)
      then (if ltb (DataStreamConsumer.max_reorder_window s) (length buffer)
          then force_pop stored buffer ms later
          else later)
      else dropped

  -- `recv_ordered`, which answers `Ok` on every path
  unfoldable pub recv_ordered : List PublishMessage → DataStreamConsumer → Received
  recv_ordered ms s =
      let key = DataStreamConsumer.expected_seq s in
      let buffer = DataStreamConsumer.reorder_buffer s in
      elim (find_chunk key buffer) [
        | some chunk ↦ (
          some chunk,
          record s { expected_seq = next_u64 key; reorder_buffer = without_chunk key buffer },
          ms,
        )
        | none ↦ recv_loop ms s
      ]

  abbrev pub with_sensor_data : (List ℕ → List ℕ) → Option StreamChunk → Option (ℕ × SensorDataType)
  with_sensor_data lossy none = none
  with_sensor_data lossy (some chunk) =
      some (StreamChunk.seq_id chunk, to_sensor_data b lossy chunk)

  unfoldable pub recv_sensor_data :
      (List ℕ → List ℕ)
      → List PublishMessage
      → DataStreamConsumer
      → Option (ℕ × SensorDataType) × DataStreamConsumer × List PublishMessage
  recv_sensor_data lossy ms s =
      let (chunk, s', ms') = recv_ordered ms s in (with_sensor_data lossy chunk, s', ms')
