-- ===== src/OfflineQueue/Kept.antt =====
-- What a sequence of messages leaves in the queue.
use mqtt_async_embedded.Prelude.{
  ℕ, zero, suc, ◌+◌, ◌-◌, ◌≤◌, ◌≡◌, refl, sym, ap, ◌∙◌, false, List, [], ◌∷◌, ◌++◌, length, take,
  drop, length-append, length-take, length-drop, drop-add, append-nil, append_assoc, ltb, ltb→lt,
  ltb→le, le→ltb, ◌==◌, if◌then◌else◌, arith, Bool-cases, inl, inr,
}
use mqtt_async_embedded.ClientTypes.{PublishMessage}
use mqtt_async_embedded.Options.{
  DropStrategy, drop_oldest, error_on_full, block, OfflineQueuePolicy,
}
use mqtt_async_embedded.Chunks.Journal.{last_items, drop-append}
use mqtt_async_embedded.OfflineQueue.{pop_front, push_back, when_full, buffer_offline}

-- The messages are published one after the other, without a connection.
unfoldable pub buffer_all :
    OfflineQueuePolicy → List PublishMessage → List PublishMessage → List PublishMessage
buffer_all policy [] queue = queue
buffer_all policy (m ∷ ms) queue = buffer_all policy ms (buffer_offline policy m queue).1

-- The newest messages, or the oldest ones.
abbrev pub kept : DropStrategy → ℕ → List PublishMessage → List PublishMessage
kept drop_oldest capacity ms = last_items capacity ms
kept error_on_full capacity ms = take capacity ms
kept block capacity ms = take capacity ms

take-append : (n : ℕ) (xs ys : List PublishMessage) → n ≤ length xs → take n (xs ++ ys) ≡ take n xs
take-append zero xs ys h = refl
take-append (suc n) [] ys h = absurd (omega arith)
take-append (suc n) (x ∷ xs) ys h = ap (λ l. x ∷ l) (take-append n xs ys (omega arith))

take_all : (n : ℕ) (xs : List PublishMessage) → length xs ≤ n → take n xs ≡ xs
take_all zero [] h = refl
take_all zero (x ∷ xs) h = absurd (omega arith)
take_all (suc n) [] h = refl
take_all (suc n) (x ∷ xs) h = ap (λ l. x ∷ l) (take_all n xs (omega arith))

pop_front-drop : (xs : List PublishMessage) → pop_front xs ≡ drop 1 xs
pop_front-drop [] = refl
pop_front-drop (x ∷ xs) = refl

newest-step :
    (capacity : ℕ) (m : PublishMessage) (done : List PublishMessage)
    → 1 ≤ capacity
    → (if ltb (length (last_items capacity done)) capacity
        then push_back m (last_items capacity done)
        else when_full drop_oldest m (last_items capacity done)).1
      ≡ last_items capacity (done ++ (m ∷ []))
newest-step capacity m done room =
    let cut = length done - capacity in
    let lengths = length-drop {A = PublishMessage} cut done in
    let more : length (done ++ (m ∷ [])) ≡ length done + 1 = length-append {0} done (m ∷ []) in
    elim (Bool-cases (ltb (length (last_items capacity done)) capacity)) [
      | inl free ↦ rw free (
          sym (drop-append cut done (m ∷ []) (omega arith))
          ∙ ap (λ n. drop n (done ++ (m ∷ [])))
              (omega
                (arith, lengths, more, ltb→lt (length (last_items capacity done)) capacity free)))
      | inr full ↦
          let long : capacity ≤ length done =
            omega (arith, lengths, ltb→le (length (last_items capacity done)) capacity full) in
          rw full (
            ap (λ l. l ++ (m ∷ []))
              (pop_front-drop (last_items capacity done) ∙ sym (drop-add cut 1 done))
            ∙ sym (drop-append (cut + 1) done (m ∷ []) (omega arith))
            ∙ ap (λ n. drop n (done ++ (m ∷ []))) (omega (arith, more)))
    ]

oldest-step :
    (capacity : ℕ) (m : PublishMessage) (done : List PublishMessage)
    → (if ltb (length (take capacity done)) capacity
        then push_back m (take capacity done)
        else when_full error_on_full m (take capacity done)).1
      ≡ take capacity (done ++ (m ∷ []))
oldest-step capacity m done = elim (Bool-cases (ltb (length done) capacity)) [
  | inl free ↦
      let short = ltb→lt (length done) capacity free in
      let more : length (done ++ (m ∷ [])) ≡ length done + 1 = length-append {0} done (m ∷ []) in
      rw (take_all capacity done (omega (arith, short)), free)
        (sym (take_all capacity (done ++ (m ∷ [])) (omega (arith, short, more))))
  | inr full ↦
      let long = ltb→le (length done) capacity full in
      let size = length-take capacity done long in
      rw (size, le→ltb capacity capacity (omega arith))
        (sym (take-append capacity done (m ∷ []) long))
]

buffer_offline-kept :
    (policy : OfflineQueuePolicy) (m : PublishMessage) (done : List PublishMessage)
    → 1 ≤ OfflineQueuePolicy.capacity policy
    → (buffer_offline policy m (
        kept (OfflineQueuePolicy.drop_strategy policy) (OfflineQueuePolicy.capacity policy) done)).1
      ≡ kept
          (OfflineQueuePolicy.drop_strategy policy)
          (OfflineQueuePolicy.capacity policy)
          (done ++ (m ∷ []))
unfolding buffer_offline
buffer_offline-kept policy m done room =
    let some_room : (OfflineQueuePolicy.capacity policy == 0) ≡ false = ground (arith, room) in
    rw some_room (go (OfflineQueuePolicy.drop_strategy policy))
  where
    go :
        (strategy : DropStrategy)
        → (if ltb
              (length (kept strategy (OfflineQueuePolicy.capacity policy) done))
              (OfflineQueuePolicy.capacity policy)
            then push_back m (kept strategy (OfflineQueuePolicy.capacity policy) done)
            else when_full strategy m (kept strategy (OfflineQueuePolicy.capacity policy) done)).1
          ≡ kept strategy (OfflineQueuePolicy.capacity policy) (done ++ (m ∷ []))
    go drop_oldest = newest-step (OfflineQueuePolicy.capacity policy) m done room
    go error_on_full = oldest-step (OfflineQueuePolicy.capacity policy) m done
    go block = oldest-step (OfflineQueuePolicy.capacity policy) m done

buffer_all-after :
    (policy : OfflineQueuePolicy) (ms done : List PublishMessage)
    → 1 ≤ OfflineQueuePolicy.capacity policy
    → buffer_all policy ms
        (kept (OfflineQueuePolicy.drop_strategy policy) (OfflineQueuePolicy.capacity policy) done)
      ≡ kept
          (OfflineQueuePolicy.drop_strategy policy)
          (OfflineQueuePolicy.capacity policy)
          (done ++ ms)
unfolding buffer_all
buffer_all-after policy [] done room =
    ap (kept (OfflineQueuePolicy.drop_strategy policy) (OfflineQueuePolicy.capacity policy))
      (sym (append-nil done))
buffer_all-after policy (m ∷ ms) done room =
    ap (buffer_all policy ms) (buffer_offline-kept policy m done room)
    ∙ buffer_all-after policy ms (done ++ (m ∷ [])) room
    ∙ ap (kept (OfflineQueuePolicy.drop_strategy policy) (OfflineQueuePolicy.capacity policy))
        (append_assoc done (m ∷ []) ms)

empty-kept : (strategy : DropStrategy) (capacity : ℕ) → kept strategy capacity [] ≡ []
empty-kept drop_oldest capacity = rw (zero_minus capacity) refl
  where
    zero_minus : (n : ℕ) → 0 - n ≡ 0
    zero_minus n = omega arith
empty-kept error_on_full capacity = take_all capacity [] (omega arith)
empty-kept block capacity = take_all capacity [] (omega arith)

-- An empty queue with room for at least one message, and any messages that are published without a
-- connection: with DropOldest the queue holds the newest of them that it has room for, with
-- ErrorOnFull and with Block the oldest ones, in their order.
pub buffer_all-kept :
    (policy : OfflineQueuePolicy) (ms : List PublishMessage)
    → 1 ≤ OfflineQueuePolicy.capacity policy
    → buffer_all policy ms []
      ≡ kept (OfflineQueuePolicy.drop_strategy policy) (OfflineQueuePolicy.capacity policy) ms
buffer_all-kept policy ms room =
    ap (buffer_all policy ms) (
      sym
        (empty-kept (OfflineQueuePolicy.drop_strategy policy) (OfflineQueuePolicy.capacity policy)))
    ∙ buffer_all-after policy ms [] room
