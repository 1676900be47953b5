-- ===== src/Chunks.antt =====
-- crates/mqtt-tokio/src/stream.rs, lines 181 to 376: sequenced chunks and the producer with its
-- journal. The clock and the answers of `AsyncClient::publish` are arguments; what is published
-- stands in the state of the producer, in order.
pub mod Wire
pub mod Journal
pub mod Consumer
use mqtt_async_embedded.Prelude.{
  ℕ, zero, suc, ◌+◌, ◌%◌, Bool, true, false, List, [], ◌∷◌, ◌++◌, length, ltb, if◌then◌else◌,
}
use mqtt_async_embedded.Types.{QoS}
use mqtt_async_embedded.ClientTypes.{ClientError, ClientResult, accepted, refused}
use mqtt_async_embedded.Buffers.{Buffers}
use mqtt_async_embedded.Sensor.{SensorDataType, encode_data, decode_data}

pub record StreamChunk : Type 0 where
  pub seq_id : ℕ
  pub timestamp_ns : ℕ
  pub topic : List ℕ
  pub payload : List ℕ
  pub is_recovery : Bool

abbrev pub u64_size : ℕ
u64_size = 18446744073709551616

-- `fetch_add` wraps.
abbrev pub next_u64 : ℕ → ℕ
next_u64 n = (n + 1) % u64_size

module _ (b : Buffers) where
  unfoldable pub encode_wire : StreamChunk → List ℕ
  encode_wire c =
      Buffers.put b 8 (StreamChunk.seq_id c)
      ++ (Buffers.put b 8 (StreamChunk.timestamp_ns c) ++ StreamChunk.payload c)

  -- The code answers `Ok` on every path.
  unfoldable pub decode_wire : List ℕ → List ℕ → StreamChunk
  decode_wire topic wire =
      if ltb (length wire) 16
      then record {
        seq_id = 0;
        timestamp_ns = 0;
        topic = topic;
        payload = wire;
        is_recovery = false;
      }
      else (let (seq_id, rest) = Buffers.get b 8 wire in
          let (timestamp_ns, payload) = Buffers.get b 8 rest in
          record {
            seq_id = seq_id;
            timestamp_ns = timestamp_ns;
            topic = topic;
            payload = payload;
            is_recovery = false;
          })

  unfoldable pub to_sensor_data : (List ℕ → List ℕ) → StreamChunk → SensorDataType
  to_sensor_data lossy c = decode_data b lossy (StreamChunk.payload c)

-- The arguments of one call of `AsyncClient::publish`: topic, quality of service, retain, payload.
pub record Published : Type 0 where
  pub topic : List ℕ
  pub qos : QoS
  pub retain : Bool
  pub payload : List ℕ

pub record DataStreamProducer : Type 0 where
  pub topic : List ℕ
  pub sequence : ℕ
  pub qos : QoS
  pub recovery_journal : List StreamChunk
  pub journal_capacity : ℕ
  pub published : List Published

unfoldable pub new_producer : List ℕ → QoS → ℕ → DataStreamProducer
new_producer topic qos journal_capacity = record {
  topic = topic;
  sequence = 1;
  qos = qos;
  recovery_journal = [];
  journal_capacity = journal_capacity;
  published = [];
}

-- `journal.pop_front()`
abbrev pub pop_front : List StreamChunk → List StreamChunk
pop_front [] = []
pop_front (c ∷ cs) = cs

unfoldable pub record_chunk : ℕ → List StreamChunk → StreamChunk → List StreamChunk
record_chunk capacity journal chunk =
    (if ltb (length journal) capacity then journal else pop_front journal) ++ (chunk ∷ [])

-- The answer of `publish`, and the value that the caller returns after it.
abbrev pub after_publish : {A : Type 0} → ClientResult (Unit {0}) → A → ClientResult A
after_publish (accepted u) a = accepted a
after_publish (refused e) a = refused e

module _ (b : Buffers) where
  -- `send` at the time `now`, with the answer of `publish`
  unfoldable pub send :
      ℕ
      → ClientResult (Unit {0})
      → List ℕ
      → DataStreamProducer
      → ClientResult ℕ × DataStreamProducer
  send now answer payload p =
      let seq = DataStreamProducer.sequence p in
      let chunk : StreamChunk = record {
        seq_id = seq;
        timestamp_ns = now % u64_size;
        topic = DataStreamProducer.topic p;
        payload = payload;
        is_recovery = false;
      } in
      let call : Published = record {
        topic = DataStreamProducer.topic p;
        qos = DataStreamProducer.qos p;
        retain = false;
        payload = encode_wire b chunk;
      } in
      (
        after_publish answer seq,
        record p {
          sequence = next_u64 seq;
          recovery_journal =
              record_chunk (DataStreamProducer.journal_capacity p)
                (DataStreamProducer.recovery_journal p) chunk;
          published = DataStreamProducer.published p ++ (call ∷ []);
        },
      )

  -- `send_raw`, `send_timeseries`, `send_json` and the like
  unfoldable pub send_data :
      ℕ
      → ClientResult (Unit {0})
      → SensorDataType
      → DataStreamProducer
      → ClientResult ℕ × DataStreamProducer
  send_data now answer typed p = send now answer (encode_data b typed) p

  -- One round of the replay: the chunk that is marked, and the message whose payload is published.
  unfoldable pub replay_call : DataStreamProducer → StreamChunk → Published
  replay_call p chunk = record {
    topic = DataStreamProducer.topic p;
    qos = DataStreamProducer.qos p;
    retain = false;
    payload = encode_wire b (record chunk { is_recovery = true });
  }

  -- The loop over the journal, with the answer of `publish` in each round.
  unfoldable pub replay_loop :
      DataStreamProducer
      → (ℕ → ClientResult (Unit {0}))
      → ℕ
      → List StreamChunk
      → ClientResult ℕ × List Published
  replay_loop p answers replayed [] = (accepted replayed, [])
  replay_loop p answers replayed (chunk ∷ chunks) =
      let rest = replay_loop p answers (replayed + 1) chunks in
      elim (answers replayed) [
        | accepted u ↦ (rest.0, replay_call p chunk ∷ rest.1)
        | refused e ↦ (refused e, replay_call p chunk ∷ [])
      ]

  unfoldable pub replay_recovery_journal :
      (ℕ → ClientResult (Unit {0})) → DataStreamProducer → ClientResult ℕ × DataStreamProducer
  replay_recovery_journal answers p =
      let (answer, calls) = replay_loop p answers 0 (DataStreamProducer.recovery_journal p) in
      (answer, record p { published = DataStreamProducer.published p ++ calls })
