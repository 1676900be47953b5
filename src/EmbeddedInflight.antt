-- ===== src/EmbeddedInflight.antt =====
-- crates/mqtt-embedded/src/inflight.rs: the table of QoS 1 and QoS 2 messages of the embedded
-- client. The capacity `MAX_INFLIGHT` is an argument of the operations that add an entry.
pub mod Laws
pub mod Exchanges
use mqtt_async_embedded.Prelude.{
  ℕ, zero, suc, Bool, true, false, Option, none, some, List, [], ◌∷◌, ◌++◌, length, ltb,
  if◌then◌else◌, ◌==◌,
}
use mqtt_async_embedded.Types.{QoS, at_most_once, at_least_once, exactly_once}
use mqtt_async_embedded.Slots.{position, swap_remove, update_first, any}

pub data InflightStatus : Type 0 where
  awaiting_pub_ack awaiting_pub_rec awaiting_pub_comp awaiting_pub_rel : InflightStatus

pub record InflightEntry : Type 0 where
  pub packet_id : ℕ
  pub qos : QoS
  pub status : InflightStatus

pub record InflightQueue : Type 0 where
  pub entries : List InflightEntry

-- `Result<(), MqttError<T>>`
pub data Tracked : Type 0 where
  tracked_ok inflight_queue_full : Tracked

abbrev pub status_code : InflightStatus → ℕ
status_code awaiting_pub_ack = 0
status_code awaiting_pub_rec = 1
status_code awaiting_pub_comp = 2
status_code awaiting_pub_rel = 3

abbrev pub has_id : ℕ → InflightEntry → Bool
has_id packet_id e = InflightEntry.packet_id e == packet_id

-- `e.packet_id == packet_id && e.status == status`
abbrev pub awaits : ℕ → InflightStatus → InflightEntry → Bool
awaits packet_id status e =
    if has_id packet_id e then status_code (InflightEntry.status e) == status_code status else false

abbrev pub set_status : InflightStatus → InflightEntry → InflightEntry
set_status status e = record {
  packet_id = InflightEntry.packet_id e;
  qos = InflightEntry.qos e;
  status = status;
}

unfoldable pub new : InflightQueue
new = record { entries = [] }

-- The part that the two `track` functions share.
unfoldable pub track : ℕ → InflightQueue → InflightEntry → Tracked × InflightQueue
track MAX_INFLIGHT q e =
    let es = InflightQueue.entries q in
    let id = InflightEntry.packet_id e in
    if any (has_id id) es
    then (
      tracked_ok,
      record { entries = update_first (has_id id) (set_status (InflightEntry.status e)) es },
    )
    else if ltb (length es) MAX_INFLIGHT
    then (tracked_ok, record { entries = es ++ (e ∷ []) })
    else (inflight_queue_full, q)

unfoldable pub track_outbound : ℕ → InflightQueue → ℕ → QoS → Tracked × InflightQueue
track_outbound MAX_INFLIGHT q packet_id at_most_once = (tracked_ok, q)
track_outbound MAX_INFLIGHT q packet_id at_least_once =
    track MAX_INFLIGHT q
      (record { packet_id = packet_id; qos = at_least_once; status = awaiting_pub_ack })
track_outbound MAX_INFLIGHT q packet_id exactly_once =
    track MAX_INFLIGHT q
      (record { packet_id = packet_id; qos = exactly_once; status = awaiting_pub_rec })

unfoldable pub track_inbound_qos2 : ℕ → InflightQueue → ℕ → Tracked × InflightQueue
track_inbound_qos2 MAX_INFLIGHT q packet_id =
    track MAX_INFLIGHT q
      (record { packet_id = packet_id; qos = exactly_once; status = awaiting_pub_rel })

-- The first entry that `p` finds is taken out.
unfoldable pub remove : InflightQueue → (InflightEntry → Bool) → Bool × InflightQueue
remove q p = elim (position p (InflightQueue.entries q)) [
  | some idx ↦ (true, record { entries = swap_remove idx (InflightQueue.entries q) })
  | none ↦ (false, q)
]

abbrev pub handle_puback : InflightQueue → ℕ → Bool × InflightQueue
handle_puback q packet_id = remove q (awaits packet_id awaiting_pub_ack)

unfoldable pub handle_pubrec : InflightQueue → ℕ → Bool × InflightQueue
handle_pubrec q packet_id =
    let es = InflightQueue.entries q in
    let p = awaits packet_id awaiting_pub_rec in
    (any p es, record { entries = update_first p (set_status awaiting_pub_comp) es })

abbrev pub handle_pubrel : InflightQueue → ℕ → Bool × InflightQueue
handle_pubrel q packet_id = remove q (awaits packet_id awaiting_pub_rel)

abbrev pub handle_pubcomp : InflightQueue → ℕ → Bool × InflightQueue
handle_pubcomp q packet_id = remove q (awaits packet_id awaiting_pub_comp)

unfoldable pub clear : InflightQueue → InflightQueue
clear q = record { entries = [] }
