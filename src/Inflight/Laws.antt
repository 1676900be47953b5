-- ===== src/Inflight/Laws.antt =====
-- The invariant of the table of messages in flight, and each operation on it.
use mqtt_async_embedded.Prelude.{
  ℕ, ◌≤◌, ◌≡◌, refl, sym, Bool, true, false, [], ◌∷◌, length, length-append, arith, ltb, ltb→lt,
  if◌then◌else◌, Bool-cases, inl, inr, Option-cases,
}
use mqtt_async_embedded.Types.{QoS}
use mqtt_async_embedded.Slots.{position, any, count}
use mqtt_async_embedded.Slots.Counting.{
  one_if, count-append, count-one, any-count, count-any, position-some, count-swap_remove,
}
use mqtt_async_embedded.Slots.Updates.{
  length-swap_remove, length-update_first, count-update_first, count-both, count_le,
  count_le-update_first, once_with,
}
use mqtt_async_embedded.Inflight.{
  InflightEntry, InflightQueue, is_acknowledged, has_id, new, has_collision, push, acknowledge,
  mark_pubrel_sent, clear, new_entry, set_pub_rel_sent,
}

-- How many entries have the id.
abbrev pub tracked : InflightQueue → ℕ → ℕ
tracked q id = count (has_id id) (InflightQueue.entries q)

-- The table is within its capacity, holds an id once, and no entry that is acknowledged.
pub record IsInflight (N : ℕ) (q : InflightQueue) : Type 0 where
  pub bounded : length (InflightQueue.entries q) ≤ N
  pub once : (id : ℕ) → tracked q id ≤ 1
  pub active : count is_acknowledged (InflightQueue.entries q) ≡ 0

pub new-IsInflight : (N : ℕ) → IsInflight N new
unfolding new count
new-IsInflight N = record { bounded = omega arith; once = λ id. omega arith; active = refl }

pub clear-IsInflight : (N : ℕ) (q : InflightQueue) → IsInflight N (clear q)
unfolding clear count
clear-IsInflight N q = record { bounded = omega arith; once = λ id. omega arith; active = refl }

abbrev pub collides : ℕ → InflightEntry → Bool
collides id e = if has_id id e then (if is_acknowledged e then false else true) else false

collides-has_id : (id : ℕ) (e : InflightEntry) → collides id e ≡ true → has_id id e ≡ true
collides-has_id id e h = ground arith

-- A collision is an entry with the id.
pub has_collision-tracked :
    (N : ℕ) (q : InflightQueue) (id : ℕ)
    → IsInflight N q
    → one_if (has_collision q id) ≡ tracked q id
unfolding has_collision
has_collision-tracked N q id ok =
    let es = InflightQueue.entries q in
    elim (Bool-cases (any (collides id) es)) [
      | inl hit ↦
          let some_one = count-any (collides id) es hit in
          let fewer = count_le (collides id) (has_id id) (collides-has_id id) es in
          rw hit (omega (arith, some_one, fewer, IsInflight.once ok id))
      | inr miss ↦
          let free =
            count-both (has_id id) is_acknowledged es (any-count (collides id) es miss)
              (IsInflight.active ok) in
          rw miss (sym free)
    ]

pub push-IsInflight :
    (N : ℕ) (q : InflightQueue) (id : ℕ) (qos : QoS)
    → IsInflight N q
    → IsInflight N ((push N q id qos).1)
unfolding push
push-IsInflight N q id qos ok =
    let es = InflightQueue.entries q in
    let e = new_entry id qos in
    let free = has_collision-tracked N q id ok in
    elim (Bool-cases (has_collision q id)) [
      | inl hit ↦ rw hit ok
      | inr miss ↦ elim (Bool-cases (ltb (length es) N)) [
        | inl room ↦
            rw (miss, room)
              (record {
                bounded = omega (arith, length-append es (e ∷ []), ltb→lt (length es) N room);
                once = λ other.
                    rw (count-append (has_id other) es (e ∷ []), count-one (has_id other) e)
                      (once_with id other (tracked q) (sym (rw miss at free)) (IsInflight.once ok));
                active =
                    rw (count-append is_acknowledged es (e ∷ []), count-one is_acknowledged e)
                      (omega (arith, IsInflight.active ok));
              })
        | inr full ↦ rw (miss, full) ok
      ]
    ]

pub acknowledge-IsInflight :
    (N : ℕ) (q : InflightQueue) (id : ℕ) → IsInflight N q → IsInflight N ((acknowledge q id).1)
unfolding acknowledge
acknowledge-IsInflight N q id ok =
    let es = InflightQueue.entries q in
    elim (Option-cases (position (has_id id) es)) [
      | inl nothing ↦ rw (nothing, acknowledge) ok
      | inr (i, found) ↦
          let (e, at, has) = position-some (has_id id) es i found in
          rw (found, acknowledge)
            (record {
              bounded = omega (arith, length-swap_remove es i e at, IsInflight.bounded ok);
              once = λ other.
                  omega
                    (arith, count-swap_remove (has_id other) es i e at, IsInflight.once ok other);
              active =
                  omega (arith, count-swap_remove is_acknowledged es i e at, IsInflight.active ok);
            })
    ]

pub mark_pubrel_sent-IsInflight :
    (N : ℕ) (q : InflightQueue) (id : ℕ) → IsInflight N q → IsInflight N ((mark_pubrel_sent q id).1)
unfolding mark_pubrel_sent
mark_pubrel_sent-IsInflight N q id ok =
    let es = InflightQueue.entries q in
    record {
      bounded =
          omega (arith, length-update_first (has_id id) set_pub_rel_sent es, IsInflight.bounded ok);
      once = λ other. omega (
        arith,
        count-update_first (has_id other) (has_id id) set_pub_rel_sent (λ e h. refl) es,
        IsInflight.once ok other,
      );
      active = omega (
        arith,
        count_le-update_first is_acknowledged (has_id id) set_pub_rel_sent (λ e h. cc) es,
        IsInflight.active ok,
      );
    }
