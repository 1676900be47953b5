-- ===== src/Frames/Ends.antt =====
-- How often a loop over the frame iterator goes round before it ends by itself or by an error.
use mqtt_async_embedded.Prelude.{
  ℕ, zero, suc, ◌+◌, ◌-◌, ◌≤◌, ◌<◌, ◌≡◌, refl, ap, Option, none, some, List, [], ◌∷◌, length, drop,
  ltb, leb, le→leb, arith, Bool-cases, inl, inr,
}
use mqtt_async_embedded.Exec.{Result, ok, err, panic}
use mqtt_async_embedded.Varint.{peek_variable_byte_integer}
use mqtt_async_embedded.Frames.{RawPacketFrameIter, new_iter, next, peeked, take_items}

-- The items up to the first one that is no frame, that one included: what a loop reads that leaves
-- on an error.
unfoldable pub until_error : List (Result (List ℕ)) → List (Result (List ℕ))
until_error [] = []
until_error (ok frame ∷ items) = ok frame ∷ until_error items
until_error (err e ∷ items) = err e ∷ []
until_error (panic ∷ items) = panic ∷ []

abbrev pub left_over : RawPacketFrameIter → ℕ
left_over it = length (RawPacketFrameIter.buffer it) - RawPacketFrameIter.offset it

-- A frame moves the iterator on, and an error leaves it where it is.
abbrev pub Moves : RawPacketFrameIter → Option (Result (List ℕ)) → RawPacketFrameIter → Type 0
Moves it (some (ok frame)) it' = left_over it' < left_over it
Moves it (some (err e)) it' = it' ≡ it
Moves it _ it' = Unit {0}

peeked-Moves :
    (r : Result (ℕ × ℕ)) (slice : List ℕ) (it : RawPacketFrameIter)
    → RawPacketFrameIter.offset it < length (RawPacketFrameIter.buffer it)
    → Moves it (peeked r slice it).0 (peeked r slice it).1
unfolding peeked
peeked-Moves (err e) slice it h = refl
peeked-Moves panic slice it h = tt
peeked-Moves (ok (remaining_len, len_bytes)) slice it h =
    elim (Bool-cases (ltb (length slice) (1 + len_bytes + remaining_len))) [
      | inl short ↦ rw short tt
      | inr long ↦ rw long (omega arith)
    ]

pub next-Moves : (it : RawPacketFrameIter) → Moves it (next it).0 (next it).1
unfolding next
next-Moves it =
    let size = length (RawPacketFrameIter.buffer it) in
    let slice = drop (RawPacketFrameIter.offset it) (RawPacketFrameIter.buffer it) in
    elim (Bool-cases (leb size (RawPacketFrameIter.offset it))) [
      | inl over ↦ rw over tt
      | inr inside ↦ elim (Bool-cases (ltb (length slice) 2)) [
        | inl short ↦ rw (inside, short) tt
        | inr long ↦
            rw (inside, long)
              (peeked-Moves (peek_variable_byte_integer (drop 1 slice)) slice it (ground arith))
      ]
    ]

next-end : (it : RawPacketFrameIter) → left_over it ≡ 0 → (next it).0 ≡ none
unfolding next
next-end it h =
    let over =
      le→leb (length (RawPacketFrameIter.buffer it)) (RawPacketFrameIter.offset it) (omega arith) in
    rw over refl

take_items-end : (k : ℕ) (it : RawPacketFrameIter) → left_over it ≡ 0 → take_items k it ≡ []
unfolding take_items
take_items-end zero it h = refl
take_items-end (suc k) it h = rw (next-end it h, take_items) refl

item-case :
    (item : Option (Result (List ℕ))) (it it' : RawPacketFrameIter) (n k : ℕ)
    → Moves it item it'
    → left_over it ≤ suc n
    → (left_over it' ≤ n → until_error (take_items (n + k) it') ≡ until_error (take_items n it'))
    → until_error (elim item [ none ↦ [] | some r ↦ r ∷ take_items (n + k) it' ])
      ≡ until_error (elim item [ none ↦ [] | some r ↦ r ∷ take_items n it' ])
unfolding until_error
item-case none it it' n k moves few ih = refl
item-case (some (ok frame)) it it' n k moves few ih = ap (λ l. ok frame ∷ l) (ih (omega arith))
item-case (some (err e)) it it' n k moves few ih = refl
item-case (some panic) it it' n k moves few ih = refl

-- After as many rounds as there are bytes left, a loop that leaves on an error has ended: more
-- rounds read no more.
pub take_items-until_error :
    (n k : ℕ) (it : RawPacketFrameIter)
    → length (RawPacketFrameIter.buffer it) - RawPacketFrameIter.offset it ≤ n
    → until_error (take_items (n + k) it) ≡ until_error (take_items n it)
unfolding take_items
take_items-until_error zero k it h =
    let all : 0 + k ≡ k = omega arith in rw (all, take_items-end k it (omega arith)) refl
take_items-until_error (suc n) k it h =
    let more : suc n + k ≡ suc (n + k) = omega arith in
    rw more (
      item-case (next it).0 it (next it).1 n k (next-Moves it) h
        (take_items-until_error n k (next it).1))

pub new_iter_left :
    (read : List ℕ)
    → length (RawPacketFrameIter.buffer (new_iter read)) - RawPacketFrameIter.offset (new_iter read)
      ≤ length read
unfolding new_iter
new_iter_left read = omega arith
