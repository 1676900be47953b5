-- ===== src/Inflight/Effects.antt =====
-- What `push` and `acknowledge` answer, and how they change the ids that are tracked.
use mqtt_async_embedded.Prelude.{
  ◌+◌, ◌==◌, if◌then◌else◌, ap, ℕ, zero, suc, ◌<◌, ◌≡◌, ◌⊎◌, refl, sym, ◌∙◌, Bool, true, false,
  List, [], ◌∷◌, length, arith, ltb, ==_iff, Bool-cases, inl, inr, Option-cases,
}
use mqtt_async_embedded.Types.{QoS}
use mqtt_async_embedded.Slots.{position, count}
use mqtt_async_embedded.Slots.Counting.{
  one_if, count-append, count-one, position-none, position-some, count-swap_remove,
}
use mqtt_async_embedded.Inflight.{
  InflightEntry, InflightQueue, pushed, refused, has_id, has_collision, push, acknowledge,
  new_entry, is_acknowledged, iter_unacked, keep_unacked,
}
use mqtt_async_embedded.Inflight.Laws.{tracked, IsInflight, has_collision-tracked}

has_id-found :
    (id other : ℕ) (e : InflightEntry) → has_id id e ≡ true → has_id other e ≡ (id == other)
has_id-found id other e h = ap (λ n. n == other) ((==_iff (InflightEntry.packet_id e) id).0 h)

-- On a table that meets the invariant `acknowledge` answers whether the id was tracked, and if it was
-- takes out its entry and no other.
pub acknowledge-tracked :
    (N : ℕ) (q : InflightQueue) (id : ℕ)
    → IsInflight N q
    → (one_if (acknowledge q id).0 ≡ tracked q id)
      × ((other : ℕ)
          → tracked (acknowledge q id).1 other
              + (if (acknowledge q id).0 then one_if (id == other) else 0)
            ≡ tracked q other)
unfolding acknowledge count
acknowledge-tracked N q id ok =
    let es = InflightQueue.entries q in
    elim (Option-cases (position (has_id id) es)) [
      | inl nothing ↦
          rw (nothing, acknowledge)
            (sym (position-none (has_id id) es nothing), λ other. omega arith)
      | inr (i, found) ↦
          let (e, at, has) = position-some (has_id id) es i found in
          let one : one_if (has_id id e) ≡ 1 = ap one_if has in
          rw (found, acknowledge)
            (
              omega (arith, count-swap_remove (has_id id) es i e at, one, IsInflight.once ok id),
              λ other. omega (
                arith,
                ap one_if (has_id-found id other e has),
                count-swap_remove (has_id other) es i e at,
              ),
            )
    ]

-- On a table that meets the invariant, `push` of an id that is free, where there is room, succeeds:
-- one more entry has the id, and every other id has what it had.
pub push-tracked :
    (N : ℕ) (q : InflightQueue) (id : ℕ) (qos : QoS)
    → IsInflight N q
    → tracked q id ≡ 0
    → length (InflightQueue.entries q) < N
    → ((push N q id qos).0 ≡ pushed)
      × ((other : ℕ) → tracked (push N q id qos).1 other ≡ tracked q other + one_if (id == other))
unfolding push
push-tracked N q id qos ok free room =
    let es = InflightQueue.entries q in
    let e = new_entry id qos in
    rw (not_hit (has_collision q id) (has_collision-tracked N q id ok ∙ free), is_room, push)
      (
        refl,
        λ other. omega (arith, count-append (has_id other) es (e ∷ []), count-one (has_id other) e),
      )
  where
    not_hit : (b : Bool) → one_if b ≡ 0 → b ≡ false
    not_hit b h = ground arith

    is_room : ltb (length (InflightQueue.entries q)) N ≡ true
    is_room = ground arith

-- On a table that meets the invariant `push` refuses an id that is tracked, and every id when the
-- table is full; the table stays as it is.
pub push-refused :
    (N : ℕ) (q : InflightQueue) (id : ℕ) (qos : QoS)
    → IsInflight N q
    → (tracked q id ≡ 1) ⊎ (length (InflightQueue.entries q) ≡ N)
    → push N q id qos ≡ (refused id, q)
unfolding push
push-refused N q id qos ok why =
    let collision = has_collision-tracked N q id ok in
    elim (Bool-cases (has_collision q id)) [
      | inl hit ↦ rw (hit, push) refl
      | inr miss ↦
          let none_yet : 0 ≡ tracked q id = rw miss at collision in
          rw (miss, full none_yet why, push) refl
    ]
  where
    full :
        0 ≡ tracked q id
        → (tracked q id ≡ 1) ⊎ (length (InflightQueue.entries q) ≡ N)
        → ltb (length (InflightQueue.entries q)) N ≡ false
    full none_yet (inl one) = absurd (apart (none_yet ∙ one))
      where
        apart : ¬ (zero ≡ suc zero)
        apart h = omega arith
    full none_yet (inr e) = ground arith

keep_all : (es : List InflightEntry) → count is_acknowledged es ≡ 0 → keep_unacked es ≡ es
unfolding keep_unacked count
keep_all [] h = refl
keep_all (e ∷ es) h = ground (arith, keep_all es)

-- Of a table that meets the invariant `iter_unacked` gives all entries.
pub iter_unacked-all :
    (N : ℕ) (q : InflightQueue) → IsInflight N q → iter_unacked q ≡ InflightQueue.entries q
unfolding iter_unacked
iter_unacked-all N q ok = keep_all (InflightQueue.entries q) (IsInflight.active ok)
