-- ===== src/EventLoop/Acknowledged.antt =====
-- A message of QoS 1 or 2 from its PUBLISH to its PUBACK.
use mqtt_async_embedded.Prelude.{
  ℕ, ◌≡◌, ◌≢◌, refl, ap, ◌∙◌, Bool, true, false, Option, none, some, List, [], ◌∷◌, ◌++◌, length,
  ltb, ◌==◌, if◌then◌else◌, arith,
}
use mqtt_async_embedded.Exec.{Result, ok, err, panic, Exec}
use mqtt_async_embedded.Types.{QoS, at_most_once, at_least_once, exactly_once}
use mqtt_async_embedded.ClientTypes.{PublishMessage, accepted}
use mqtt_async_embedded.Maps
use mqtt_async_embedded.Maps.Laws.{find-insert, find-remove_ne, find-remove_self}
use mqtt_async_embedded.EventLoop.{
  Network, Outcome, done, failed, panics, hangs, EventLoop, Unacked, unit_answer, Act, after,
  after_encode, encode_tx, get_next_packet_id, send_answer, write_bytes, write_tx, flush, transmit,
}
use mqtt_async_embedded.EventLoop.Sending.{
  note_unacked, tracked_id, packet_id_for, send_publish_direct,
}
use mqtt_async_embedded.EventLoop.Reading.{sender_of, settle_publish}
use mqtt_async_embedded.EventLoop.Invariant.{IsEntry, IsLoop}
use mqtt_async_embedded.EventLoop.Invariant.Sending.{Keeps-send_publish_direct}

-- A result that leaves the table of messages in flight and the answers as they are.
record Untouched {T A : Type 0} (s : EventLoop T) (r : Outcome A × EventLoop T) : Type 0 where
  table : EventLoop.inflight_publishes r.1 ≡ EventLoop.inflight_publishes s
  answers : EventLoop.answers r.1 ≡ EventLoop.answers s

abbrev bare :
    {T A : Type 0}
    → (s d : EventLoop T) (o : Outcome A)
    → EventLoop.inflight_publishes d ≡ EventLoop.inflight_publishes s
    → EventLoop.answers d ≡ EventLoop.answers s
    → Untouched s (o, d)
bare s d o t a = record { table = t; answers = a }

module _ {T A B : Type 0} where
  Untouched-after :
      (s : EventLoop T) (r : Outcome A × EventLoop T) (f : A → Act T B)
      → Untouched s r
      → ((a : A) (d : EventLoop T) → Untouched d (f a d))
      → Untouched s (after r f)
  Untouched-after s (done a, d) f same rest =
      bare s (f a d).1 (f a d).0 ((rest a d).table ∙ same.table) ((rest a d).answers ∙ same.answers)
  Untouched-after s (failed e, d) f same rest = bare s d (failed e) same.table same.answers
  Untouched-after s (panics, d) f same rest = bare s d panics same.table same.answers
  Untouched-after s (hangs, d) f same rest = bare s d hangs same.table same.answers

module _ {T : Type 0} where
  Untouched-if :
      {A : Type 0}
      → (test : Bool) (s : EventLoop T) (r d : Outcome A × EventLoop T) → Untouched s r
      → Untouched s d
      → Untouched s (if test then r else d)
  Untouched-if true s r d first rest = first
  Untouched-if false s r d first rest = rest

  Untouched-encoded : (s : EventLoop T) (r : Result ℕ × List ℕ) → Untouched s (after_encode r s)
  Untouched-encoded s (ok len, buf) = bare s _ (done len) refl refl
  Untouched-encoded s (err e, buf) = bare s _ (failed _) refl refl
  Untouched-encoded s (panic, buf) = bare s _ panics refl refl

find-insert_self :
    (k : ℕ) (u : Unacked) (m : List (ℕ × Unacked))
    → Maps.find ◌==◌ k (Maps.insert ◌==◌ k u m) ≡ some u
find-insert_self k u m = ground (arith, find-insert k k u m)

find-insert_ne :
    (j k : ℕ) (u : Unacked) (m : List (ℕ × Unacked))
    → j ≢ k
    → Maps.find ◌==◌ j (Maps.insert ◌==◌ k u m) ≡ Maps.find ◌==◌ j m
find-insert_ne j k u m other = ground (arith, find-insert j k u m)

module _ {T : Type 0} (n : Network T) where
  Untouched-write_tx : (len : ℕ) (s : EventLoop T) → Untouched s (write_tx n len s)
  unfolding write_tx write_bytes
  Untouched-write_tx len s =
      Untouched-if (ltb (length (EventLoop.tx_buf s)) len) s (panics, s) _
        (bare s s panics refl refl) (bare s _ _ refl refl)

  Untouched-transmit :
      (encoder : Exec (List ℕ) ℕ) (s : EventLoop T) → Untouched s (transmit n encoder s)
  unfolding transmit encode_tx flush
  Untouched-transmit encoder s =
      Untouched-after s (encode_tx encoder s) _ (Untouched-encoded s (encoder (EventLoop.tx_buf s)))
        (λ len d. Untouched-after d (write_tx n len d) _ (Untouched-write_tx len d) (λ u e.
          Untouched-after e (flush n e) _ (bare e _ _ refl refl) (λ v g. bare g _ _ refl refl)))

  -- The message is in flight, whatever becomes of its packet.
  noted :
      (m : PublishMessage) (qos : QoS) (sender : Option ℕ) (s : EventLoop T)
      → qos ≢ at_most_once
      → (EventLoop.inflight_publishes (packet_id_for qos m sender s).1
          ≡ Maps.insert ◌==◌
              (EventLoop.next_packet_id s)
              (record {
                message = record m { packet_id = some (EventLoop.next_packet_id s) };
                ack_sender = sender;
              })
              (EventLoop.inflight_publishes s))
        × (EventLoop.answers (packet_id_for qos m sender s).1 ≡ EventLoop.answers s)
  unfolding packet_id_for tracked_id note_unacked get_next_packet_id
  noted m at_most_once sender s tracked = absurd (tracked refl)
  noted m at_least_once sender s tracked = (refl, refl)
  noted m exactly_once sender s tracked = (refl, refl)

  published :
      (m : PublishMessage) (sender : Option ℕ) (s : EventLoop T)
      → PublishMessage.qos m ≢ at_most_once
      → (EventLoop.inflight_publishes (send_publish_direct n m sender s).1
          ≡ Maps.insert ◌==◌
              (EventLoop.next_packet_id s)
              (record {
                message = record m { packet_id = some (EventLoop.next_packet_id s) };
                ack_sender = sender;
              })
              (EventLoop.inflight_publishes s))
        × (EventLoop.answers (send_publish_direct n m sender s).1 ≡ EventLoop.answers s)
  unfolding send_publish_direct
  published m sender s tracked =
      let r = packet_id_for (PublishMessage.qos m) m sender s in
      let (table, answers) = noted m (PublishMessage.qos m) sender s tracked in
      let same =
        Untouched-after r.1 r _ (bare r.1 r.1 r.0 refl refl) (λ packet_id. Untouched-transmit _) in
      (same.table ∙ table, same.answers ∙ answers)

  -- What a PUBACK does to a table that holds its id, and to one that does not.
  settled_known :
      (pid k : ℕ) (u : Unacked) (s : EventLoop T)
      → Maps.find ◌==◌ pid (EventLoop.inflight_publishes s) ≡ some u
      → Unacked.ack_sender u ≡ some k
      → EventLoop.answers (settle_publish n pid s).1
        ≡ EventLoop.answers s ++ ((k, unit_answer (accepted tt)) ∷ [])
  unfolding settle_publish send_answer
  settled_known pid k u s found sends = simp (found, sends)

  settled_unknown :
      (pid : ℕ) (s : EventLoop T)
      → Maps.find ◌==◌ pid (EventLoop.inflight_publishes s) ≡ none
      → EventLoop.answers (settle_publish n pid s).1 ≡ EventLoop.answers s
  unfolding settle_publish send_answer
  settled_unknown pid s missing = simp missing

  settled_table :
      (pid : ℕ) (s : EventLoop T)
      → EventLoop.inflight_publishes (settle_publish n pid s).1
        ≡ Maps.remove ◌==◌ pid (EventLoop.inflight_publishes s)
  unfolding settle_publish
  settled_table pid s = go (sender_of n (Maps.find ◌==◌ pid (EventLoop.inflight_publishes s))) _
    where
      go :
          (k : Option ℕ) (d : EventLoop T)
          → EventLoop.inflight_publishes (send_answer k (unit_answer (accepted tt)) d).1
            ≡ EventLoop.inflight_publishes d
      go none d = unfold send_answer in refl
      go (some k) d = unfold send_answer in refl

  -- A message of QoS 1 or 2 that a caller waits for is in flight under the next packet id, whatever
  -- the network does to its packet: the PUBACK with that id tells this caller Ok, and no other,
  -- takes the id out of the table and leaves every other id what it had, and a second PUBACK with
  -- the id tells nobody anything. The event loop is assumed to meet its invariant.
  pub settle_publish-send_publish_direct :
      (size : ℕ) (s : EventLoop T) (m : PublishMessage) (k : ℕ)
      → IsLoop size s
      → PublishMessage.qos m ≢ at_most_once
      → let i = EventLoop.next_packet_id s in
        let e = (settle_publish n i (send_publish_direct n m (some k) s).1).1 in
        (EventLoop.answers e ≡ EventLoop.answers s ++ ((k, unit_answer (accepted tt)) ∷ []))
        × (Maps.find ◌==◌ i (EventLoop.inflight_publishes e) ≡ none)
        × ((j : ℕ)
            → j ≢ i
            → Maps.find ◌==◌ j (EventLoop.inflight_publishes e)
              ≡ Maps.find ◌==◌ j (EventLoop.inflight_publishes s))
        × (EventLoop.answers (settle_publish n i e).1 ≡ EventLoop.answers e)
  settle_publish-send_publish_direct size s m k good tracked =
      let i = EventLoop.next_packet_id s in
      let u : Unacked = record { message = record m { packet_id = some i }; ack_sender = some k } in
      let d = (send_publish_direct n m (some k) s).1 in
      let e = (settle_publish n i d).1 in
      let (table, answers) = published m (some k) s tracked in
      let found : Maps.find ◌==◌ i (EventLoop.inflight_publishes d) ≡ some u =
        ap (Maps.find ◌==◌ i) table ∙ find-insert_self i u (EventLoop.inflight_publishes s) in
      let gone : Maps.find ◌==◌ i (EventLoop.inflight_publishes e) ≡ none =
        ap (Maps.find ◌==◌ i) (settled_table i d)
        ∙ find-remove_self IsEntry i (EventLoop.inflight_publishes d)
            (IsLoop.table (Keeps-send_publish_direct size n m (some k) s good)) in
      (
        settled_known i k u d found refl
            ∙ ap (λ a. a ++ ((k, unit_answer (accepted tt)) ∷ [])) answers,
        gone,
        λ j other.
            ap (Maps.find ◌==◌ j) (settled_table i d)
            ∙ find-remove_ne j i (EventLoop.inflight_publishes d) other
            ∙ ap (Maps.find ◌==◌ j) table
            ∙ find-insert_ne j i u (EventLoop.inflight_publishes s) other,
        settled_unknown i e gone,
      )
