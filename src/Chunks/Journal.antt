-- ===== src/Chunks/Journal.antt =====
-- The recovery journal over a sequence of sends, and its replay.
use mqtt_async_embedded.Prelude.{
  ℕ, zero, suc, ◌-◌, ◌≤◌, ◌≡◌, refl, List, [], ◌∷◌, ◌++◌, length, drop, arith,
}
use mqtt_async_embedded.ClientTypes.{ClientResult}
use mqtt_async_embedded.Buffers.{Buffers}
use mqtt_async_embedded.Chunks.{Published, DataStreamProducer, send, replay_call}

-- A call of `send`: the time, the answer of `publish` and the payload.
pub record Sending : Type 0 where
  pub now : ℕ
  pub answer : ClientResult (Unit {0})
  pub payload : List ℕ

module _ {A B : Type 0} where
  abbrev pub each : (A → B) → List A → List B
  each f [] = []
  each f (x ∷ xs) = f x ∷ each f xs

module _ {A : Type 0} where
  pub drop-append : (n : ℕ) (xs ys : List A) → n ≤ length xs → drop n (xs ++ ys) ≡ drop n xs ++ ys
  drop-append zero xs ys h = refl
  drop-append (suc n) [] ys h = absurd (omega arith)
  drop-append (suc n) (x ∷ xs) ys h = drop-append n xs ys (omega arith)

  -- The last `n` items, and with one more item behind.
  abbrev pub last_items : ℕ → List A → List A
  last_items n xs = drop (length xs - n) xs

module _ (b : Buffers) where
  unfoldable pub send_all : List Sending → DataStreamProducer → DataStreamProducer
  send_all [] p = p
  send_all (s ∷ ss) p =
      send_all ss (send b (Sending.now s) (Sending.answer s) (Sending.payload s) p).1

  -- The calls of `publish` that a replay makes.
  abbrev pub journal_calls : DataStreamProducer → List Published
  journal_calls p = each (replay_call b p) (DataStreamProducer.recovery_journal p)

  -- What a producer that made some sends keeps of its capacity and of its journal.
  record IsJournal (capacity : ℕ) (p : DataStreamProducer) : Type 0 where
    capacity_kept : DataStreamProducer.journal_capacity p ≡ capacity
    keeps_last : journal_calls p ≡ last_items capacity (DataStreamProducer.published p)
