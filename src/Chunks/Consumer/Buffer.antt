-- ===== src/Chunks/Consumer/Buffer.antt =====
-- The reorder buffer: its order, and its content counted.
use mqtt_async_embedded.Prelude.{
  ℕ, suc, ◌+◌, ◌≤◌, ◌≡◌, refl, subst, Bool, false, none, some, List, [], ◌∷◌, length, ltb, ◌==◌,
  ==_iff, arith, Bool-cases, inl, inr, All,
}
use mqtt_async_embedded.Slots.{count}
use mqtt_async_embedded.Slots.Counting.{one_if}
use mqtt_async_embedded.Chunks.{StreamChunk}
use mqtt_async_embedded.Chunks.Consumer.{find_chunk, without_chunk, insert_chunk}

-- The numbers ascend from a first one that may be there.
abbrev pub Ascends : ℕ → List StreamChunk → Type 0
Ascends low [] = Unit {0}
Ascends low (c ∷ cs) = (low ≤ StreamChunk.seq_id c) × Ascends (suc (StreamChunk.seq_id c)) cs

pub Ascends-le :
    (low high : ℕ) (cs : List StreamChunk) → low ≤ high → Ascends high cs → Ascends low cs
Ascends-le low high [] h ok = tt
Ascends-le low high (c ∷ cs) h (first, rest) = (omega arith, rest)

pub Ascends-insert_chunk :
    (low : ℕ) (chunk : StreamChunk) (cs : List StreamChunk)
    → low ≤ StreamChunk.seq_id chunk
    → Ascends low cs
    → Ascends low (insert_chunk chunk cs)
unfolding insert_chunk
Ascends-insert_chunk low chunk [] h ok = (h, tt)
Ascends-insert_chunk low chunk (c ∷ cs) h (first, rest) =
    let new = StreamChunk.seq_id chunk in
    let old = StreamChunk.seq_id c in
    elim (Bool-cases (new == old)) [
      | inl same ↦ rw same (
        h,
        Ascends-le (suc new) (suc old) cs (let e = (==_iff new old).0 same in omega arith) rest,
      )
      | inr apart ↦ elim (Bool-cases (ltb new old)) [
        | inl before ↦ rw (apart, before) (h, (ground arith, rest))
        | inr behind ↦
            rw (apart, behind) (first, Ascends-insert_chunk (suc old) chunk cs (ground arith) rest)
      ]
    ]

-- Without the expected number, the buffer begins behind it.
pub Ascends-without_chunk :
    (low : ℕ) (cs : List StreamChunk) → Ascends low cs → Ascends (suc low) (without_chunk low cs)
unfolding without_chunk
Ascends-without_chunk low [] ok = tt
Ascends-without_chunk low (c ∷ cs) (first, rest) =
    let old = StreamChunk.seq_id c in
    elim (Bool-cases (old == low)) [
      | inl same ↦
          rw same (
            Ascends-le (suc low) (suc old) cs (let e = (==_iff old low).0 same in omega arith) rest)
      | inr apart ↦ rw apart (ground arith, without_lower low old cs (ground arith) rest)
    ]
  where
    without_lower :
        (key low : ℕ) (cs : List StreamChunk)
        → key ≤ low
        → Ascends (suc low) cs
        → Ascends (suc low) (without_chunk key cs)
    without_lower key low [] h ok = tt
    without_lower key low (c ∷ cs) h (first, rest) =
        let old = StreamChunk.seq_id c in
        let apart : (old == key) ≡ false = ground arith in
        rw apart (first, without_lower key old cs (omega arith) rest)

pub Ascends-find_chunk :
    (low : ℕ) (cs : List StreamChunk)
    → find_chunk low cs ≡ none
    → Ascends low cs
    → Ascends (suc low) cs
unfolding find_chunk
Ascends-find_chunk low [] h ok = tt
Ascends-find_chunk low (c ∷ cs) h (first, rest) = (ground arith, rest)

-- What is found has the number that was asked for.
pub find_chunk-seq_id :
    (key : ℕ) (cs : List StreamChunk) (found : StreamChunk)
    → find_chunk key cs ≡ some found
    → StreamChunk.seq_id found ≡ key
unfolding find_chunk
find_chunk-seq_id key [] found h = cc
find_chunk-seq_id key (c ∷ cs) found h = ground (arith, find_chunk-seq_id key cs found)

pub All-insert_chunk :
    (P : StreamChunk → Type 0) (chunk : StreamChunk) (cs : List StreamChunk)
    → P chunk
    → All P cs
    → All P (insert_chunk chunk cs)
unfolding insert_chunk
All-insert_chunk P chunk [] h ok = (h, tt)
All-insert_chunk P chunk (c ∷ cs) h (first, rest) =
    elim (Bool-cases (StreamChunk.seq_id chunk == StreamChunk.seq_id c)) [
      | inl same ↦ rw same (h, rest)
      | inr apart ↦ elim (Bool-cases (ltb (StreamChunk.seq_id chunk) (StreamChunk.seq_id c))) [
        | inl before ↦ rw (apart, before) (h, (first, rest))
        | inr behind ↦ rw (apart, behind) (first, All-insert_chunk P chunk cs h rest)
      ]
    ]

pub All-without_chunk :
    (P : StreamChunk → Type 0) (key : ℕ) (cs : List StreamChunk)
    → All P cs
    → All P (without_chunk key cs)
unfolding without_chunk
All-without_chunk P key [] ok = tt
All-without_chunk P key (c ∷ cs) (first, rest) = elim (Bool-cases (StreamChunk.seq_id c == key)) [
  | inl same ↦ rw same rest
  | inr apart ↦ rw apart (first, All-without_chunk P key cs rest)
]

pub All-find_chunk :
    (P : StreamChunk → Type 0) (key : ℕ) (cs : List StreamChunk) (found : StreamChunk)
    → find_chunk key cs ≡ some found
    → All P cs
    → P found
unfolding find_chunk
All-find_chunk P key [] found h ok = cc
All-find_chunk P key (c ∷ cs) found h (first, rest) =
    elim (Bool-cases (StreamChunk.seq_id c == key)) [
      | inl same ↦
          let e : some c ≡ some found = rw same at h in subst P (some_injective c found e) first
      | inr apart ↦ All-find_chunk P key cs found (rw apart at h) rest
    ]
  where
    some_injective : (c found : StreamChunk) → some c ≡ some found → c ≡ found
    some_injective c found e = cc

abbrev pub has_seq : ℕ → StreamChunk → Bool
has_seq key c = StreamChunk.seq_id c == key

module _ (q : StreamChunk → Bool) where
  pub count-without_chunk :
      (key : ℕ) (cs : List StreamChunk) (found : StreamChunk)
      → find_chunk key cs ≡ some found
      → count q (without_chunk key cs) + one_if (q found) ≡ count q cs
  unfolding count find_chunk without_chunk
  count-without_chunk key [] found h = cc
  count-without_chunk key (c ∷ cs) found h = ground (arith, count-without_chunk key cs found)

  -- A number that is not there yet is added.
  pub count-insert_chunk :
      (chunk : StreamChunk) (cs : List StreamChunk)
      → count (has_seq (StreamChunk.seq_id chunk)) cs ≡ 0
      → count q (insert_chunk chunk cs) ≡ count q cs + one_if (q chunk)
  unfolding count insert_chunk
  count-insert_chunk chunk [] h = omega arith
  count-insert_chunk chunk (c ∷ cs) h = ground (arith, count-insert_chunk chunk cs)

pub length-insert_chunk :
    (chunk : StreamChunk) (cs : List StreamChunk) → length (insert_chunk chunk cs) ≤ length cs + 1
unfolding insert_chunk
length-insert_chunk chunk [] = omega arith
length-insert_chunk chunk (c ∷ cs) = ground (arith, length-insert_chunk chunk cs)

pub length-without_chunk :
    (key : ℕ) (cs : List StreamChunk) → length (without_chunk key cs) ≤ length cs
unfolding without_chunk
length-without_chunk key [] = omega arith
length-without_chunk key (c ∷ cs) = ground (arith, length-without_chunk key cs)

pub count-find_chunk :
    (key : ℕ) (cs : List StreamChunk) → find_chunk key cs ≡ none → count (has_seq key) cs ≡ 0
unfolding count find_chunk
count-find_chunk key [] h = refl
count-find_chunk key (c ∷ cs) h = ground (arith, count-find_chunk key cs)
