-- ===== src/Chunks/Consumer/Complete.antt =====
-- A stream that fits in the window comes out complete and in order, however it arrives.
use mqtt_async_embedded.Prelude.{
  ℕ, zero, suc, ◌+◌, ◌≤◌, ◌<◌, ◌≡◌, refl, ap, ◌∙◌, Bool, false, List, [], ◌∷◌, length, ◌==◌, arith,
}
use mqtt_async_embedded.Slots.{count}
use mqtt_async_embedded.ClientTypes.{PublishMessage}
use mqtt_async_embedded.Buffers.{Buffers}
use mqtt_async_embedded.Chunks.{StreamChunk, u64_size}
use mqtt_async_embedded.Chunks.Consumer.{DataStreamConsumer, new_consumer, recv_ordered}
use mqtt_async_embedded.Chunks.Consumer.Buffer.{has_seq}
use mqtt_async_embedded.Chunks.Consumer.Order.{handed_out, with_answer}
use mqtt_async_embedded.Chunks.Consumer.Due.{
  in_range, in_range_empty, chunks_of, outstanding, IsComplete, IsDue, recv_ordered-IsDue,
}

abbrev pub numbers : List StreamChunk → List ℕ
numbers [] = []
numbers (c ∷ cs) = StreamChunk.seq_id c ∷ numbers cs

-- `count` numbers from `low` on.
abbrev pub up_from : ℕ → ℕ → List ℕ
up_from low zero = []
up_from low (suc more) = low ∷ up_from (suc low) more

-- A list without any number is empty, so nothing in it has a property.
count-no_numbers :
    (q : StreamChunk → Bool) (cs : List StreamChunk)
    → ((k : ℕ) → count (has_seq k) cs ≡ 0)
    → count q cs ≡ 0
unfolding count
count-no_numbers q [] h = refl
count-no_numbers q (c ∷ cs) h = absurd (ground (arith, h (StreamChunk.seq_id c)))

module _ (b : Buffers) (last : ℕ) (small : last + 1 < u64_size) where
  -- What the calls hand out that are left until the last number.
  record IsRest (calls : ℕ) (s : DataStreamConsumer) (ms : List PublishMessage) : Type 0 where
    in_order : numbers (handed_out b calls ms s) ≡ up_from (DataStreamConsumer.expected_seq s) calls
    all : (q : StreamChunk → Bool) → count q (handed_out b calls ms s) ≡ outstanding b q s ms

  handed_out-IsRest :
      (calls : ℕ) (ms : List PublishMessage) (s : DataStreamConsumer)
      → IsComplete b last s ms
      → DataStreamConsumer.expected_seq s + calls ≡ last + 1
      → IsRest calls s ms
  unfolding handed_out count
  handed_out-IsRest zero ms s ok h = record {
    in_order = refl;
    all = λ q.
        let none_left : (k : ℕ) → outstanding b (has_seq k) s ms ≡ 0 = λ k.
          IsComplete.once ok k
          ∙ in_range_empty (DataStreamConsumer.expected_seq s) last k (omega arith) in
        let in_buffer =
          count-no_numbers q (DataStreamConsumer.reorder_buffer s)
            (λ k. omega (arith, none_left k)) in
        let to_come = count-no_numbers q (chunks_of b ms) (λ k. omega (arith, none_left k)) in
        omega (arith, in_buffer, to_come);
  }
  handed_out-IsRest (suc calls) ms s ok h =
      let r = recv_ordered b ms s in
      let due = recv_ordered-IsDue b last small ms s ok (omega arith) in
      let rest =
        handed_out-IsRest calls r.2 r.1 (IsDue.complete due) (omega (arith, IsDue.next due)) in
      let numbered : (StreamChunk.seq_id (IsDue.chunk due) == 0) ≡ false =
        ground (arith, IsDue.number due, IsComplete.positive ok) in
      let after = handed_out b calls r.2 r.1 in
      let step : with_answer b r.0 after ≡ IsDue.chunk due ∷ after =
        ap (λ answer. with_answer b answer after) (IsDue.answer due) ∙ rw numbered refl in
      record {
        in_order =
            ap numbers step
            ∙ ap (λ n. n ∷ numbers after) (IsDue.number due)
            ∙ ap (λ l. DataStreamConsumer.expected_seq s ∷ l) (IsRest.in_order rest)
            ∙ ap (λ n. DataStreamConsumer.expected_seq s ∷ up_from n calls) (IsDue.next due);
        all = λ q. ap (count q) step ∙ ground (arith, IsRest.all rest q, IsDue.conserved due q);
      }

module _ (b : Buffers) (window : ℕ) (ms : List PublishMessage) (last : ℕ) where
  -- The messages carry each number from 1 to `last` once and no other, in any order, there are no
  -- more of them than the window is large, and `last` is not one of the two largest u64. Then `last`
  -- calls hand out the numbers 1 to `last` in order, and the chunks are those of the messages, each
  -- as often.
  pub handed_out_complete :
      ((k : ℕ) → count (has_seq k) (chunks_of b ms) ≡ in_range 1 last k)
      → length ms ≤ window
      → last + 1 < u64_size
      → (numbers (handed_out b last ms (new_consumer window)) ≡ up_from 1 last)
        × ((q : StreamChunk → Bool)
            → count q (handed_out b last ms (new_consumer window)) ≡ count q (chunks_of b ms))
  unfolding new_consumer count
  handed_out_complete once room small =
      let no_buffer : (q : StreamChunk → Bool)
          → outstanding b q (new_consumer window) ms ≡ count q (chunks_of b ms) =
        λ q. omega arith in
      let start : IsComplete b last (new_consumer window) ms = record {
        positive = omega arith;
        once = λ k. no_buffer (has_seq k) ∙ once k;
        room = omega (arith);
      } in
      let rest = handed_out-IsRest b last small last ms (new_consumer window) start (omega arith) in
      (IsRest.in_order rest, λ q. IsRest.all rest q ∙ no_buffer q)
