-- ===== src/EmbeddedInflight/Exchanges.antt =====
-- The acknowledgements of the embedded client: what each handler answers, a whole outbound QoS 2
-- exchange, and an inbound message under the id of an outbound one.
use mqtt_async_embedded.Prelude.{
  ℕ, ◌+◌, ◌≤◌, ◌<◌, ◌≡◌, refl, sym, ap, Bool, true, false, [], ◌∷◌, ◌++◌, length, arith, lt→ltb,
  if◌then◌else◌, ◌==◌, ==_iff, inl, inr, Option-cases,
}
use mqtt_async_embedded.Types.{exactly_once}
use mqtt_async_embedded.Slots.{position, any, count}
use mqtt_async_embedded.Slots.Counting.{
  one_if, count-append, count-one, position-none, position-some, count-position, count-swap_remove,
}
use mqtt_async_embedded.Slots.Updates.{
  count-update_first, count-update_first_new, count-update_first_gone, count_le, count_le-any,
  any_le_count,
}
use mqtt_async_embedded.EmbeddedInflight.{
  InflightStatus, InflightEntry, InflightQueue, tracked_ok, has_id, awaits, set_status, track,
  track_outbound, track_inbound_qos2, remove, handle_puback, handle_pubrec, handle_pubcomp,
  awaiting_pub_rec, awaiting_pub_comp, awaiting_pub_ack, awaiting_pub_rel, status_code,
}
use mqtt_async_embedded.EmbeddedInflight.Laws.{tracked, IsTable, track-IsTable, update-IsTable}

-- How many entries have the id and wait for the acknowledgement.
abbrev pub waiting : InflightQueue → ℕ → InflightStatus → ℕ
waiting q id status = count (awaits id status) (InflightQueue.entries q)

awaits-has_id :
    (id : ℕ) (status : InflightStatus) (e : InflightEntry)
    → awaits id status e ≡ true
    → has_id id e ≡ true
awaits-has_id id status e h = ground arith

awaits_id :
    (id other : ℕ) (status : InflightStatus) (e : InflightEntry)
    → awaits id status e ≡ true
    → has_id other e ≡ (id == other)
awaits_id id other status e h =
    ap (λ n. n == other) ((==_iff (InflightEntry.packet_id e) id).0 (awaits-has_id id status e h))

waiting_once :
    (N : ℕ) (q : InflightQueue) (id : ℕ) (status : InflightStatus)
    → IsTable N q
    → waiting q id status ≤ 1
waiting_once N q id status ok = omega (
  arith,
  IsTable.once ok id,
  count_le (awaits id status) (has_id id) (awaits-has_id id status) (InflightQueue.entries q),
)

-- On a table that meets the invariant, the handlers of PUBACK, PUBREL and PUBCOMP answer whether the
-- id waits for that packet, and if it does they take out the entry of the id and no other.
pub remove-tracked :
    (N : ℕ) (q : InflightQueue) (id : ℕ) (status : InflightStatus)
    → IsTable N q
    → (one_if (remove q (awaits id status)).0 ≡ waiting q id status)
      × ((other : ℕ)
          → tracked (remove q (awaits id status)).1 other
              + (if (remove q (awaits id status)).0 then one_if (id == other) else 0)
            ≡ tracked q other)
unfolding remove count
remove-tracked N q id status ok =
    let es = InflightQueue.entries q in
    let p = awaits id status in
    elim (Option-cases (position p es)) [
      | inl nothing ↦ rw (nothing, remove) (sym (position-none p es nothing), λ other. omega arith)
      | inr (i, found) ↦
          let (e, at, has) = position-some p es i found in
          let one : one_if (p e) ≡ 1 = ap one_if has in
          rw (found, remove)
            (
              omega (arith, count-swap_remove p es i e at, one, waiting_once N q id status ok),
              λ other. omega (
                arith,
                ap one_if (awaits_id id other status e has),
                count-swap_remove (has_id other) es i e at,
              ),
            )
    ]

-- On a table that meets the invariant, the handler of PUBREC answers whether the id waits for it, and
-- if it does, has it wait for PUBCOMP; every id is tracked as before.
pub handle_pubrec-tracked :
    (N : ℕ) (q : InflightQueue) (id : ℕ)
    → IsTable N q
    → (one_if (handle_pubrec q id).0 ≡ waiting q id awaiting_pub_rec)
      × (waiting (handle_pubrec q id).1 id awaiting_pub_comp
          ≡ waiting q id awaiting_pub_comp + waiting q id awaiting_pub_rec)
      × ((other : ℕ) → tracked (handle_pubrec q id).1 other ≡ tracked q other)
unfolding handle_pubrec
handle_pubrec-tracked N q id ok =
    let es = InflightQueue.entries q in
    let p = awaits id awaiting_pub_rec in
    let answer = count_le-any p es (waiting_once N q id awaiting_pub_rec ok) in
    (
      answer,
      rw (sym answer) (
          count-update_first_new (awaits id awaiting_pub_comp) p (set_status awaiting_pub_comp)
            (λ e h. ground arith) (λ e h. ground arith) es),
      λ other. count-update_first (has_id other) p (set_status awaiting_pub_comp) (λ e h. refl) es,
    )

track_new :
    (N : ℕ) (q : InflightQueue) (e : InflightEntry)
    → tracked q (InflightEntry.packet_id e) ≡ 0
    → length (InflightQueue.entries q) < N
    → track N q e ≡ (tracked_ok, record { entries = InflightQueue.entries q ++ (e ∷ []) })
unfolding track
track_new N q e free room =
    let es = InflightQueue.entries q in
    rw
      (
        not_hit (any (has_id (InflightEntry.packet_id e)) es)
            (any_le_count (has_id (InflightEntry.packet_id e)) es) free,
        lt→ltb (length es) N room,
      )
      refl
  where
    not_hit : {n : ℕ} (b : Bool) → one_if b ≤ n → n ≡ 0 → b ≡ false
    not_hit b h k = ground arith

waiting_new :
    (q : InflightQueue) (e : InflightEntry)
    → count
        (awaits (InflightEntry.packet_id e) (InflightEntry.status e))
        (InflightQueue.entries q ++ (e ∷ []))
      ≡ waiting q (InflightEntry.packet_id e) (InflightEntry.status e) + 1
waiting_new q e =
    let id = InflightEntry.packet_id e in
    let p = awaits id (InflightEntry.status e) in
    let here : p e ≡ true = ground arith in
    omega (arith, count-append p (InflightQueue.entries q) (e ∷ []), count-one p e, ap one_if here)

is_true : {n : ℕ} (b : Bool) → one_if b ≡ n → 1 ≤ n → b ≡ true
is_true b h k = ground arith

-- An exchange of QoS 2 on a table that meets the invariant and has room: a message under a free id,
-- then its PUBREC, then its PUBCOMP. All three are accepted, and after them every id is tracked as
-- before the message.
pub qos2_exchange :
    (N : ℕ) (q : InflightQueue) (id : ℕ)
    → IsTable N q
    → tracked q id ≡ 0
    → length (InflightQueue.entries q) < N
    → let sent_on = track_outbound N q id exactly_once in
      let received = handle_pubrec sent_on.1 id in
      let completed = handle_pubcomp received.1 id in
      (sent_on.0 ≡ tracked_ok)
      × (received.0 ≡ true)
      × (completed.0 ≡ true)
      × ((other : ℕ) → tracked completed.1 other ≡ tracked q other)
unfolding track_outbound handle_pubrec
qos2_exchange N q id ok free room =
    let e : InflightEntry = record {
      packet_id = id;
      qos = exactly_once;
      status = awaiting_pub_rec;
    } in
    let added = track_new N q e free room in
    let q1 : InflightQueue = record { entries = InflightQueue.entries q ++ (e ∷ []) } in
    let ok1 : IsTable N q1 = rw added at (track-IsTable N q e ok) in
    let (answer1, moved, same1) = handle_pubrec-tracked N q1 id ok1 in
    let q2 = (handle_pubrec q1 id).1 in
    let ok2 : IsTable N q2 =
      update-IsTable N q1 (awaits id awaiting_pub_rec) awaiting_pub_comp ok1 in
    let (answer2, same2) = remove-tracked N q2 id awaiting_pub_comp ok2 in
    let new_one = waiting_new q e in
    let accepted2 = is_true (handle_pubcomp q2 id).0 answer2 (omega (arith, moved, new_one)) in
    rw added (
      refl,
      is_true (handle_pubrec q1 id).0 answer1 (omega (arith, new_one)),
      accepted2,
      λ other. omega (
        arith,
        same1 other,
        rw accepted2 at (same2 other),
        count-append (has_id other) (InflightQueue.entries q) (e ∷ []),
        count-one (has_id other) e,
      ),
    )

remove_none :
    (q : InflightQueue) (p : InflightEntry → Bool)
    → count p (InflightQueue.entries q) ≡ 0
    → remove q p ≡ (false, q)
unfolding remove
remove_none q p h = rw (count-position p (InflightQueue.entries q) h, remove) refl

inbound_hides :
    (N : ℕ) (q : InflightQueue) (id : ℕ) (status : InflightStatus)
    → IsTable N q
    → tracked q id ≡ 1
    → status_code status < 3
    → waiting (track_inbound_qos2 N q id).1 id status ≡ 0
unfolding track_inbound_qos2 track count
inbound_hides N q id status ok one outbound =
    let es = InflightQueue.entries q in
    let hit =
      is_true (any (has_id id) es) (count_le-any (has_id id) es (IsTable.once ok id))
        (omega (arith, one)) in
    rw (hit, track)
      (count-update_first_gone (awaits id status) (has_id id) (set_status awaiting_pub_rel)
        (λ e h. ground arith) (awaits-has_id id status) es (IsTable.once ok id))

-- On a table that meets the invariant, an inbound QoS 2 message under the id of an outbound QoS 1 message in flight takes its entry: the
-- PUBACK of the outbound message is then answered with `false` and changes nothing.
pub inbound_takes_entry :
    (N : ℕ) (q : InflightQueue) (id : ℕ)
    → IsTable N q
    → waiting q id awaiting_pub_ack ≡ 1
    → let q_inbound = (track_inbound_qos2 N q id).1 in
      handle_puback q_inbound id ≡ (false, q_inbound)
inbound_takes_entry N q id ok waits =
    let fewer =
      count_le (awaits id awaiting_pub_ack) (has_id id) (awaits-has_id id awaiting_pub_ack)
        (InflightQueue.entries q) in
    remove_none (track_inbound_qos2 N q id).1 (awaits id awaiting_pub_ack) (
      inbound_hides N q id awaiting_pub_ack ok (omega (arith, fewer, waits, IsTable.once ok id))
        (omega arith))
