-- ===== src/Chunks/Consumer/Due.antt =====
-- A stream that fits in the window: the next chunk is the one that is due.
use mqtt_async_embedded.Prelude.{
  ℕ, suc, ◌+◌, ◌≤◌, ◌<◌, ◌≡◌, refl, ap, ◌∙◌, inl, inr, Bool, true, false, some, List, [], ◌∷◌,
  length, ltb, leb, ltb→le, le→ltb, ◌==◌, ==_iff, if◌then◌else◌, arith, Bool-cases, Option-cases,
}
use mqtt_async_embedded.Slots.{count}
use mqtt_async_embedded.Slots.Counting.{one_if}
use mqtt_async_embedded.ClientTypes.{PublishMessage}
use mqtt_async_embedded.Buffers.{Buffers}
use mqtt_async_embedded.Chunks.{StreamChunk, u64_size, next_u64}
use mqtt_async_embedded.Chunks.Consumer.{
  DataStreamConsumer, Received, recv_loop, recv_ordered, find_chunk, insert_chunk,
}
use mqtt_async_embedded.Chunks.Consumer.Buffer.{
  has_seq, find_chunk-seq_id, count-without_chunk, count-insert_chunk, length-insert_chunk,
  length-without_chunk, count-find_chunk,
}
use mqtt_async_embedded.Chunks.Consumer.Order.{chunk_of}

-- 1 for the numbers from `low` to `last`.
abbrev pub in_range : ℕ → ℕ → ℕ → ℕ
in_range low last k = if leb low k then one_if (leb k last) else 0

in_range_first : (low last : ℕ) → low ≤ last → in_range low last low ≡ 1
in_range_first low last h = ground arith

in_range_below : (low last k : ℕ) → k < low → in_range low last k ≡ 0
in_range_below low last k h = ground arith

in_range_le : (low last k : ℕ) → in_range low last k ≤ 1
in_range_le low last k = ground arith

pub in_range_empty : (low last k : ℕ) → last < low → in_range low last k ≡ 0
in_range_empty low last k h = ground arith

in_range-suc :
    (low last k : ℕ)
    → low ≤ last
    → in_range (suc low) last k + one_if (low == k) ≡ in_range low last k
in_range-suc low last k h = ground arith

module _ (b : Buffers) where
  abbrev pub chunks_of : List PublishMessage → List StreamChunk
  chunks_of [] = []
  chunks_of (m ∷ ms) = chunk_of b m ∷ chunks_of ms

  -- How many chunks with a property are in the buffer or still to come.
  abbrev pub outstanding : (StreamChunk → Bool) → DataStreamConsumer → List PublishMessage → ℕ
  outstanding q s ms = count q (DataStreamConsumer.reorder_buffer s) + count q (chunks_of ms)

  -- Each number from the expected one to the last is outstanding once, and there is room for all.
  pub record IsComplete (last : ℕ) (s : DataStreamConsumer) (ms : List PublishMessage)
      : Type 0 where
    pub positive : 1 ≤ DataStreamConsumer.expected_seq s
    pub once :
        (k : ℕ) → outstanding (has_seq k) s ms ≡ in_range (DataStreamConsumer.expected_seq s) last k
    pub room :
        length (DataStreamConsumer.reorder_buffer s) + length ms
        ≤ DataStreamConsumer.max_reorder_window s

  -- The answer is the chunk that is due, and nothing else is lost.
  pub record IsDue (last : ℕ) (s : DataStreamConsumer) (ms : List PublishMessage) (r : Received)
      : Type 0 where
    pub chunk : StreamChunk
    pub answer : r.0 ≡ some chunk
    pub number : StreamChunk.seq_id chunk ≡ DataStreamConsumer.expected_seq s
    pub next : DataStreamConsumer.expected_seq r.1 ≡ suc (DataStreamConsumer.expected_seq s)
    pub complete : IsComplete last r.1 r.2
    pub conserved :
        (q : StreamChunk → Bool) → outstanding q r.1 r.2 + one_if (q chunk) ≡ outstanding q s ms

  module _ (last : ℕ) (small : last + 1 < u64_size) where
    -- The chunk that arrives is the one that is due.
    arrives :
        (s : DataStreamConsumer) (m : PublishMessage) (ms : List PublishMessage)
        → IsComplete last s (m ∷ ms)
        → DataStreamConsumer.expected_seq s ≤ last
        → StreamChunk.seq_id (chunk_of b m) ≡ DataStreamConsumer.expected_seq s
        → IsDue last s (m ∷ ms) (
          some (chunk_of b m),
          record s { expected_seq = next_u64 (DataStreamConsumer.expected_seq s) },
          ms,
        )
    unfolding count
    arrives s m ms ok more same =
        let low = DataStreamConsumer.expected_seq s in
        let next : next_u64 low ≡ suc low = omega arith in
        rw next (record {
          chunk = chunk_of b m;
          answer = refl;
          number = same;
          next = refl;
          complete = record {
            positive = omega arith;
            once = λ k. ground (arith, IsComplete.once ok k, in_range-suc low last k);
            room = omega (arith, IsComplete.room ok);
          };
          conserved = λ q. ground arith;
        })

    -- A message that is still to come has no number that is in the buffer, and one in the range.
    arriving :
        (s : DataStreamConsumer) (m : PublishMessage) (ms : List PublishMessage)
        → IsComplete last s (m ∷ ms)
        → let seq = StreamChunk.seq_id (chunk_of b m) in
          (count (has_seq seq) (DataStreamConsumer.reorder_buffer s) ≡ 0)
          × (DataStreamConsumer.expected_seq s ≤ seq)
    unfolding count
    arriving s m ms ok =
        let seq = StreamChunk.seq_id (chunk_of b m) in
        let low = DataStreamConsumer.expected_seq s in
        let itself : (seq == seq) ≡ true = ground arith in
        let total = IsComplete.once ok seq in
        (
          ground (arith, in_range_le low last seq),
          elim (Bool-cases (ltb seq low)) [
            | inl below ↦ absurd (ground (arith, in_range_below low last seq))
            | inr above ↦ ltb→le seq low above
          ],
        )

    -- The chunk that arrives is buffered.
    buffered :
        (s : DataStreamConsumer) (m : PublishMessage) (ms : List PublishMessage)
        → IsComplete last s (m ∷ ms)
        → (q : StreamChunk → Bool)
        → outstanding q
            (record s {
              reorder_buffer = insert_chunk (chunk_of b m) (DataStreamConsumer.reorder_buffer s);
            })
            ms
          ≡ outstanding q s (m ∷ ms)
    unfolding count
    buffered s m ms ok q =
        let free = (arriving s m ms ok).0 in
        ground
          (arith, count-insert_chunk q (chunk_of b m) (DataStreamConsumer.reorder_buffer s) free)

    -- Waiting with the buffered chunk is waiting with the message.
    waited :
        (s stored : DataStreamConsumer) (ms ms' : List PublishMessage) (r : Received)
        → DataStreamConsumer.expected_seq stored ≡ DataStreamConsumer.expected_seq s
        → ((q : StreamChunk → Bool) → outstanding q stored ms' ≡ outstanding q s ms)
        → IsDue last stored ms' r
        → IsDue last s ms r
    waited s stored ms ms' r same keeps due = record {
      chunk = IsDue.chunk due;
      answer = IsDue.answer due;
      number = IsDue.number due ∙ same;
      next = IsDue.next due ∙ ap suc same;
      complete = IsDue.complete due;
      conserved = λ q. IsDue.conserved due q ∙ keeps q;
    }

    recv_loop-IsDue :
        (ms : List PublishMessage) (s : DataStreamConsumer)
        → IsComplete last s ms
        → DataStreamConsumer.expected_seq s ≤ last
        → count (has_seq (DataStreamConsumer.expected_seq s)) (DataStreamConsumer.reorder_buffer s)
          ≡ 0
        → IsDue last s ms (recv_loop b ms s)
    unfolding recv_loop
    recv_loop-IsDue [] s ok more missing =
        let low = DataStreamConsumer.expected_seq s in
        absurd (
          unfold count in
          omega (arith, IsComplete.once ok low, in_range_first low last more, missing))
    recv_loop-IsDue (m ∷ ms) s ok more missing =
        let chunk = chunk_of b m in
        let seq = StreamChunk.seq_id chunk in
        let low = DataStreamConsumer.expected_seq s in
        let buffer = insert_chunk chunk (DataStreamConsumer.reorder_buffer s) in
        let stored = record s { reorder_buffer = buffer } in
        let above = (arriving s m ms ok).1 in
        let numbered : (seq == 0) ≡ false = ground (arith, IsComplete.positive ok) in
        elim (Bool-cases (seq == low)) [
          | inl due ↦ rw (numbered, due) (arrives s m ms ok more ((==_iff seq low).0 due))
          | inr other ↦
              let early : ltb low seq ≡ true = ground arith in
              let grown = length-insert_chunk chunk (DataStreamConsumer.reorder_buffer s) in
              let within : ltb (DataStreamConsumer.max_reorder_window s) (length buffer) ≡ false =
                le→ltb (DataStreamConsumer.max_reorder_window s) (length buffer)
                  (omega (arith, grown, IsComplete.room ok)) in
              let ok' : IsComplete last stored ms = record {
                positive = IsComplete.positive ok;
                once = λ k. buffered s m ms ok (has_seq k) ∙ IsComplete.once ok k;
                room = omega (arith, grown, IsComplete.room ok);
              } in
              let missing' : count (has_seq low) buffer ≡ 0 = ground (
                arith,
                count-insert_chunk (has_seq low) chunk (DataStreamConsumer.reorder_buffer s)
                    (arriving s m ms ok).0,
              ) in
              rw (numbered, other, early, within)
                (waited s stored (m ∷ ms) ms (recv_loop b ms stored) refl (buffered s m ms ok)
                  (recv_loop-IsDue ms stored ok' more missing'))
        ]

    pub recv_ordered-IsDue :
        (ms : List PublishMessage) (s : DataStreamConsumer)
        → IsComplete last s ms
        → DataStreamConsumer.expected_seq s ≤ last
        → IsDue last s ms (recv_ordered b ms s)
    unfolding recv_ordered
    recv_ordered-IsDue ms s ok more =
        let low = DataStreamConsumer.expected_seq s in
        let buffer = DataStreamConsumer.reorder_buffer s in
        elim (Option-cases (find_chunk low buffer)) [
          | inl missing ↦
              rw (missing, recv_ordered)
                (recv_loop-IsDue ms s ok more (count-find_chunk low buffer missing))
          | inr (c, found) ↦
              let same = find_chunk-seq_id low buffer c found in
              let next : next_u64 low ≡ suc low = omega arith in
              let shorter = length-without_chunk low buffer in
              rw (found, recv_ordered, next)
                (record {
                  chunk = c;
                  answer = refl;
                  number = same;
                  next = refl;
                  complete = record {
                    positive = omega arith;
                    once = λ k. ground (
                      arith,
                      IsComplete.once ok k,
                      in_range-suc low last k more,
                      count-without_chunk (has_seq k) low buffer c found,
                    );
                    room = omega (arith, shorter, IsComplete.room ok);
                  };
                  conserved = λ q. omega (arith, count-without_chunk q low buffer c found);
                })
        ]
