-- ===== src/Chunks/Consumer/Order.antt =====
-- The order of what a consumer hands out, whatever arrives.
use mqtt_async_embedded.Prelude.{
  ℕ, zero, suc, ◌+◌, ◌≤◌, ◌<◌, ◌≡◌, refl, ◌⊎◌, inl, inr, false, Option, none, some, List, [], ◌∷◌,
  length, ltb, ltb→lt, ◌==◌, ==_iff, if◌then◌else◌, arith, Bool-cases, Option-cases, All,
}
use mqtt_async_embedded.ClientTypes.{PublishMessage}
use mqtt_async_embedded.Buffers.{Buffers}
use mqtt_async_embedded.Chunks.{StreamChunk, u64_size, next_u64, decode_wire}
use mqtt_async_embedded.Chunks.Consumer.{
  DataStreamConsumer, new_consumer, Received, force_pop, recv_loop, recv_ordered, find_chunk,
  insert_chunk,
}
use mqtt_async_embedded.Chunks.Consumer.Buffer.{
  Ascends, Ascends-le, Ascends-insert_chunk, Ascends-without_chunk, Ascends-find_chunk,
  find_chunk-seq_id, All-insert_chunk, All-without_chunk, All-find_chunk,
}

-- The number is no u64 but has a successor that is one.
abbrev pub IsSmall : StreamChunk → Type 0
IsSmall c = StreamChunk.seq_id c + 1 < u64_size

-- Between two calls the buffer ascends from the expected number.
pub record IsOrdered (s : DataStreamConsumer) : Type 0 where
  pub positive : 1 ≤ DataStreamConsumer.expected_seq s
  pub ascends : Ascends (DataStreamConsumer.expected_seq s) (DataStreamConsumer.reorder_buffer s)
  pub small : All IsSmall (DataStreamConsumer.reorder_buffer s)

-- An answer is a chunk without a number, and the expected number stays, or a chunk with a number
-- that is not below it, and the next one is expected.
abbrev pub Advances : ℕ → Option StreamChunk → ℕ → Type 0
Advances low none next = next ≡ low
Advances low (some c) next =
    ((StreamChunk.seq_id c ≡ 0) × (next ≡ low))
    ⊎ ((low ≤ StreamChunk.seq_id c) × (next ≡ suc (StreamChunk.seq_id c)))

module _ (b : Buffers) where
  abbrev pub chunk_of : PublishMessage → StreamChunk
  chunk_of m = decode_wire b (PublishMessage.topic m) (PublishMessage.payload m)

  abbrev pub AreSmall : List PublishMessage → Type 0
  AreSmall ms = All (λ m. IsSmall (chunk_of m)) ms

  pub record IsReceived (low : ℕ) (r : Received) : Type 0 where
    pub ordered : IsOrdered r.1
    pub advances : Advances low r.0 (DataStreamConsumer.expected_seq r.1)
    pub pending : AreSmall r.2

  force_pop-IsReceived :
      (low : ℕ) (s : DataStreamConsumer) (buffer : List StreamChunk) (ms : List PublishMessage)
      (later : Received)
      → Ascends (suc low) buffer
      → All IsSmall buffer
      → AreSmall ms
      → IsReceived low later
      → IsReceived low (force_pop s buffer ms later)
  force_pop-IsReceived low s [] ms later up small pending ok = ok
  force_pop-IsReceived low s (c ∷ cs) ms later (first, up) (fits, small) pending ok =
      let next : next_u64 (StreamChunk.seq_id c) ≡ suc (StreamChunk.seq_id c) = omega arith in
      rw next (record {
        ordered = record { positive = omega arith; ascends = up; small = small };
        advances = inr (omega arith, refl);
        pending = pending;
      })

  recv_loop-IsReceived :
      (ms : List PublishMessage) (s : DataStreamConsumer)
      → 1 ≤ DataStreamConsumer.expected_seq s
      → Ascends (suc (DataStreamConsumer.expected_seq s)) (DataStreamConsumer.reorder_buffer s)
      → All IsSmall (DataStreamConsumer.reorder_buffer s)
      → AreSmall ms
      → IsReceived (DataStreamConsumer.expected_seq s) (recv_loop b ms s)
  unfolding recv_loop
  recv_loop-IsReceived [] s positive up small pending = record {
    ordered = record {
      positive = positive;
      ascends = Ascends-le _ _ _ (omega arith) up;
      small = small;
    };
    advances = refl;
    pending = tt;
  }
  recv_loop-IsReceived (m ∷ ms) s positive up small (fits, pending) =
      let chunk = chunk_of m in
      let seq = StreamChunk.seq_id chunk in
      let low = DataStreamConsumer.expected_seq s in
      let old = DataStreamConsumer.reorder_buffer s in
      let buffer = insert_chunk chunk old in
      let stored = record s { reorder_buffer = buffer } in
      elim (Bool-cases (seq == 0)) [
        | inl unnumbered ↦ rw unnumbered (record {
          ordered = record {
            positive = positive;
            ascends = Ascends-le _ _ _ (omega arith) up;
            small = small;
          };
          advances = inl ((==_iff seq 0).0 unnumbered, refl);
          pending = pending;
        })
        | inr numbered ↦ elim (Bool-cases (seq == low)) [
          | inl due ↦
              let same = (==_iff seq low).0 due in
              let next : next_u64 low ≡ suc low = omega arith in
              rw (numbered, due, next)
                (record {
                  ordered = record { positive = omega arith; ascends = up; small = small };
                  advances = inr (omega arith, omega arith);
                  pending = pending;
                })
          | inr other ↦ elim (Bool-cases (ltb low seq)) [
            | inl early ↦
                let up' =
                  Ascends-insert_chunk (suc low) chunk old
                    (let h = ltb→lt low seq early in omega arith) up in
                let small' = All-insert_chunk IsSmall chunk old fits small in
                let later = recv_loop-IsReceived ms stored positive up' small' pending in
                elim (Bool-cases (ltb (DataStreamConsumer.max_reorder_window s) (length buffer))) [
                  | inl over ↦
                      rw (numbered, other, early, over)
                        (force_pop-IsReceived low stored buffer ms (recv_loop b ms stored) up'
                          small' pending later)
                  | inr within ↦ rw (numbered, other, early, within) later
                ]
            | inr late ↦
                rw (numbered, other, late) (recv_loop-IsReceived ms s positive up small pending)
          ]
        ]
      ]

  -- One call.
  pub recv_ordered-IsReceived :
      (ms : List PublishMessage) (s : DataStreamConsumer)
      → IsOrdered s
      → AreSmall ms
      → IsReceived (DataStreamConsumer.expected_seq s) (recv_ordered b ms s)
  unfolding recv_ordered
  recv_ordered-IsReceived ms s ok pending =
      let low = DataStreamConsumer.expected_seq s in
      let buffer = DataStreamConsumer.reorder_buffer s in
      elim (Option-cases (find_chunk low buffer)) [
        | inl missing ↦
            rw (missing, recv_ordered)
              (recv_loop-IsReceived ms s (IsOrdered.positive ok)
                (Ascends-find_chunk low buffer missing (IsOrdered.ascends ok)) (IsOrdered.small ok)
                pending)
        | inr (c, found) ↦
            let same = find_chunk-seq_id low buffer c found in
            let fits = All-find_chunk IsSmall low buffer c found (IsOrdered.small ok) in
            let next : next_u64 low ≡ suc low = omega arith in
            rw (found, recv_ordered, next)
              (record {
                ordered = record {
                  positive = omega arith;
                  ascends = Ascends-without_chunk low buffer (IsOrdered.ascends ok);
                  small = All-without_chunk IsSmall low buffer (IsOrdered.small ok);
                };
                advances = inr (omega arith, omega arith);
                pending = pending;
              })
      ]

  -- The numbered chunks that a number of calls hand out.
  abbrev pub with_answer : Option StreamChunk → List StreamChunk → List StreamChunk
  with_answer none rest = rest
  with_answer (some c) rest = if StreamChunk.seq_id c == 0 then rest else c ∷ rest

  unfoldable pub handed_out : ℕ → List PublishMessage → DataStreamConsumer → List StreamChunk
  handed_out zero ms s = []
  handed_out (suc calls) ms s =
      let (answer, s', ms') = recv_ordered b ms s in with_answer answer (handed_out calls ms' s')

  with_answer-Ascends :
      (low next : ℕ) (answer : Option StreamChunk) (rest : List StreamChunk)
      → 1 ≤ low
      → Advances low answer next
      → Ascends next rest
      → Ascends low (with_answer answer rest)
  with_answer-Ascends low next none rest positive h up = Ascends-le low next rest (omega arith) up
  with_answer-Ascends low next (some c) rest positive (inl (unnumbered, same)) up =
      rw unnumbered (Ascends-le low next rest (omega arith) up)
  with_answer-Ascends low next (some c) rest positive (inr (behind, follows)) up =
      let numbered : (StreamChunk.seq_id c == 0) ≡ false = ground arith in
      rw numbered (behind, Ascends-le (suc (StreamChunk.seq_id c)) next rest (omega arith) up)

  Ascends-handed_out :
      (calls : ℕ) (ms : List PublishMessage) (s : DataStreamConsumer)
      → IsOrdered s
      → AreSmall ms
      → Ascends (DataStreamConsumer.expected_seq s) (handed_out calls ms s)
  unfolding handed_out
  Ascends-handed_out zero ms s ok pending = tt
  Ascends-handed_out (suc calls) ms s ok pending =
      let (answer, s', ms') = recv_ordered b ms s in
      let received = recv_ordered-IsReceived ms s ok pending in
      with_answer-Ascends (DataStreamConsumer.expected_seq s) (DataStreamConsumer.expected_seq s')
        answer (handed_out calls ms' s') (IsOrdered.positive ok) (IsReceived.advances received)
        (Ascends-handed_out calls ms' s' (IsReceived.ordered received)
          (IsReceived.pending received))

  -- Whatever arrives, in whatever order and however often, as long as no number is the last u64:
  -- the numbers of the chunks that any number of calls hand out ascend strictly from 1 or more, so
  -- that none comes twice and none comes late. Chunks without a number are left out here.
  pub handed_out-Ascends :
      (calls window : ℕ) (ms : List PublishMessage)
      → AreSmall ms
      → Ascends 1 (handed_out calls ms (new_consumer window))
  unfolding new_consumer
  handed_out-Ascends calls window ms pending =
      Ascends-handed_out calls ms (new_consumer window)
        (record { positive = omega arith; ascends = tt; small = tt }) pending
