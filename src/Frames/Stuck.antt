-- ===== src/Frames/Stuck.antt =====
-- The iterator at an error.
use mqtt_async_embedded.Prelude.{
  ℕ, zero, suc, ◌≤◌, ◌≡◌, refl, ap, ◌∙◌, Option, none, some, List, [], ◌∷◌, length, replicate,
  arith, lt→leb, le→ltb, All,
}
use mqtt_async_embedded.Exec.{Result, err, incomplete_packet}
use mqtt_async_embedded.Varint.Errors.{IsContinuation, peek_incomplete}
use mqtt_async_embedded.Frames.{RawPacketFrameIter, new_iter, next, take_items}

-- `next` on a partial header answers the error and stays where it is.
pub next_stuck :
    (f : ℕ) (bs : List ℕ)
    → 1 ≤ length bs
    → length bs ≤ 3
    → All IsContinuation bs
    → next (new_iter (f ∷ bs)) ≡ (some (err incomplete_packet), new_iter (f ∷ bs))
unfolding next new_iter
next_stuck f bs some_bytes few cs =
    rw
      (
        lt→leb (length (f ∷ bs)) 0 (omega arith),
        le→ltb (length (f ∷ bs)) 2 (omega arith),
        peek_incomplete bs few cs,
      )
      refl

-- A read that ends inside the remaining length of a packet, after one to three of its bytes, gives
-- the same error again and again, as often as the loop asks.
pub take_items_stuck :
    (n f : ℕ) (bs : List ℕ)
    → 1 ≤ length bs
    → length bs ≤ 3
    → All IsContinuation bs
    → take_items n (new_iter (f ∷ bs)) ≡ replicate n (err incomplete_packet)
unfolding take_items
take_items_stuck zero f bs some_bytes few cs = refl
take_items_stuck (suc n) f bs some_bytes few cs =
    let after : Option (Result (List ℕ)) × RawPacketFrameIter → List (Result (List ℕ)) =
      λ x. elim x.0 [ none ↦ [] | some item ↦ item ∷ take_items n x.1 ] in
    ap after (next_stuck f bs some_bytes few cs)
    ∙ ap (λ l. err incomplete_packet ∷ l) (take_items_stuck n f bs some_bytes few cs)
