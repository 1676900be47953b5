-- ===== src/EmbeddedInflight/Laws.antt =====
-- The invariant of the embedded client's table, and how each operation changes it.
use mqtt_async_embedded.Prelude.{
  ℕ, ◌≤◌, refl, Bool, List, [], ◌∷◌, length, length-append, arith, ltb, ltb→lt, Bool-cases, inl,
  inr, Option-cases,
}
use mqtt_async_embedded.Types.{QoS, at_most_once, at_least_once, exactly_once}
use mqtt_async_embedded.Slots.{position, update_first, any, count}
use mqtt_async_embedded.Slots.Counting.{
  count-append, count-one, any-count, position-some, count-swap_remove,
}
use mqtt_async_embedded.Slots.Updates.{
  length-swap_remove, length-update_first, count-update_first, once_with,
}
use mqtt_async_embedded.EmbeddedInflight.{
  InflightStatus, InflightEntry, InflightQueue, has_id, awaits, set_status, new, track,
  track_outbound, track_inbound_qos2, remove, handle_puback, handle_pubrec, handle_pubrel,
  handle_pubcomp, clear, awaiting_pub_rec, awaiting_pub_comp, awaiting_pub_ack, awaiting_pub_rel,
}

-- How many entries have the id.
abbrev pub tracked : InflightQueue → ℕ → ℕ
tracked q id = count (has_id id) (InflightQueue.entries q)

-- The table is within its capacity and holds an id once.
pub record IsTable (N : ℕ) (q : InflightQueue) : Type 0 where
  pub bounded : length (InflightQueue.entries q) ≤ N
  pub once : (id : ℕ) → tracked q id ≤ 1

pub empty-IsTable : (N : ℕ) → IsTable N (record { entries = [] })
unfolding count
empty-IsTable N = record { bounded = omega arith; once = λ id. omega arith }

pub update-IsTable :
    (N : ℕ) (q : InflightQueue) (p : InflightEntry → Bool) (status : InflightStatus)
    → IsTable N q
    → IsTable N (record { entries = update_first p (set_status status) (InflightQueue.entries q) })
update-IsTable N q p status ok =
    let es = InflightQueue.entries q in
    record {
      bounded = omega (arith, length-update_first p (set_status status) es, IsTable.bounded ok);
      once = λ id. omega (
        arith,
        count-update_first (has_id id) p (set_status status) (λ e h. refl) es,
        IsTable.once ok id,
      );
    }

pub track-IsTable :
    (N : ℕ) (q : InflightQueue) (e : InflightEntry) → IsTable N q → IsTable N (track N q e).1
unfolding track
track-IsTable N q e ok =
    let es = InflightQueue.entries q in
    let id = InflightEntry.packet_id e in
    elim (Bool-cases (any (has_id id) es)) [
      | inl hit ↦ rw (hit, track) (update-IsTable N q (has_id id) (InflightEntry.status e) ok)
      | inr miss ↦ elim (Bool-cases (ltb (length es) N)) [
        | inl room ↦
            rw (miss, room, track)
              (record {
                bounded = omega (arith, length-append es (e ∷ []), ltb→lt (length es) N room);
                once = λ other.
                    rw (count-append (has_id other) es (e ∷ []), count-one (has_id other) e)
                      (once_with id other (tracked q) (any-count (has_id id) es miss)
                        (IsTable.once ok));
              })
        | inr full ↦ rw (miss, full, track) ok
      ]
    ]

pub remove-IsTable :
    (N : ℕ) (q : InflightQueue) (p : InflightEntry → Bool) → IsTable N q → IsTable N (remove q p).1
unfolding remove
remove-IsTable N q p ok =
    let es = InflightQueue.entries q in
    elim (Option-cases (position p es)) [
      | inl nothing ↦ rw (nothing, remove) ok
      | inr (i, found) ↦
          let (e, at, has) = position-some p es i found in
          rw (found, remove)
            (record {
              bounded = omega (arith, length-swap_remove es i e at, IsTable.bounded ok);
              once = λ other.
                  omega (arith, count-swap_remove (has_id other) es i e at, IsTable.once ok other);
            })
    ]

-- One call of an operation that changes the table.
pub data Call : Type 0 where
  outbound_call : ℕ → QoS → Call
  inbound_call puback_call pubrec_call pubrel_call pubcomp_call : ℕ → Call
  clear_call : Call

unfoldable pub perform : ℕ → Call → InflightQueue → InflightQueue
perform N (outbound_call id qos) q = (track_outbound N q id qos).1
perform N (inbound_call id) q = (track_inbound_qos2 N q id).1
perform N (puback_call id) q = (handle_puback q id).1
perform N (pubrec_call id) q = (handle_pubrec q id).1
perform N (pubrel_call id) q = (handle_pubrel q id).1
perform N (pubcomp_call id) q = (handle_pubcomp q id).1
perform N clear_call q = clear q

-- The calls in the list, the first one last.
unfoldable pub after : ℕ → List Call → InflightQueue
after N [] = new
after N (c ∷ cs) = perform N c (after N cs)

pub perform-IsTable :
    (N : ℕ) (c : Call) (q : InflightQueue) → IsTable N q → IsTable N (perform N c q)
unfolding perform track_outbound track_inbound_qos2 handle_pubrec clear
perform-IsTable N (outbound_call id at_most_once) q ok = ok
perform-IsTable N (outbound_call id at_least_once) q ok = track-IsTable N q _ ok
perform-IsTable N (outbound_call id exactly_once) q ok = track-IsTable N q _ ok
perform-IsTable N (inbound_call id) q ok = track-IsTable N q _ ok
perform-IsTable N (puback_call id) q ok = remove-IsTable N q (awaits id awaiting_pub_ack) ok
perform-IsTable N (pubrec_call id) q ok =
    update-IsTable N q (awaits id awaiting_pub_rec) awaiting_pub_comp ok
perform-IsTable N (pubrel_call id) q ok = remove-IsTable N q (awaits id awaiting_pub_rel) ok
perform-IsTable N (pubcomp_call id) q ok = remove-IsTable N q (awaits id awaiting_pub_comp) ok
perform-IsTable N clear_call q ok = empty-IsTable N

-- After every sequence of operations the table of the embedded client is within its capacity and
-- holds no id twice.
pub after-IsTable : (N : ℕ) (cs : List Call) → IsTable N (after N cs)
unfolding after new
after-IsTable N [] = empty-IsTable N
after-IsTable N (c ∷ cs) = perform-IsTable N c (after N cs) (after-IsTable N cs)
