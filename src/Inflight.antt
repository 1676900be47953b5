-- ===== src/Inflight.antt =====
-- crates/mqtt-core/src/inflight.rs: the bounded table of the messages in flight. The capacity `N`
-- is an argument of `push` and `is_full`, the operations that read it.
pub mod Laws
pub mod Effects
pub mod Runs
use mqtt_async_embedded.Prelude.{
  ℕ, zero, suc, Bool, true, false, Option, none, some, List, [], ◌∷◌, ◌++◌, length, ltb,
  if◌then◌else◌, ◌==◌,
}
use mqtt_async_embedded.Types.{QoS}
use mqtt_async_embedded.Slots.{position, swap_remove, update_first, any}

pub data InflightStatus : Type 0 where
  sent pub_rel_sent acknowledged : InflightStatus

pub record InflightEntry : Type 0 where
  pub packet_id : ℕ
  pub qos : QoS
  pub status : InflightStatus
  pub retries : ℕ

pub record InflightQueue : Type 0 where
  pub entries : List InflightEntry
  pub last_acked_id : Option ℕ

-- `Result<(), u16>`
pub data Pushed : Type 0 where
  pushed : Pushed
  refused : ℕ → Pushed

abbrev pub is_acknowledged : InflightEntry → Bool
is_acknowledged e = elim (InflightEntry.status e) [
  | sent ↦ false
  | pub_rel_sent ↦ false
  | acknowledged ↦ true
]

abbrev pub has_id : ℕ → InflightEntry → Bool
has_id packet_id e = InflightEntry.packet_id e == packet_id

unfoldable pub new : InflightQueue
new = record { entries = []; last_acked_id = none }

pub is_full : ℕ → InflightQueue → Bool
is_full N q = if ltb (length (InflightQueue.entries q)) N then false else true

pub is_empty : InflightQueue → Bool
is_empty q = length (InflightQueue.entries q) == 0

unfoldable pub has_collision : InflightQueue → ℕ → Bool
has_collision q packet_id =
    any (λ e. if has_id packet_id e then (if is_acknowledged e then false else true) else false)
      (InflightQueue.entries q)

abbrev pub new_entry : ℕ → QoS → InflightEntry
new_entry packet_id qos = record { packet_id = packet_id; qos = qos; status = sent; retries = 0 }

unfoldable pub push : ℕ → InflightQueue → ℕ → QoS → Pushed × InflightQueue
push N q packet_id qos =
    if has_collision q packet_id
    then (refused packet_id, q)
    else if ltb (length (InflightQueue.entries q)) N
    then (
      pushed,
      record {
        entries = InflightQueue.entries q ++ (new_entry packet_id qos ∷ []);
        last_acked_id = InflightQueue.last_acked_id q;
      },
    )
    else (refused packet_id, q)

unfoldable pub acknowledge : InflightQueue → ℕ → Bool × InflightQueue
acknowledge q packet_id = elim (position (has_id packet_id) (InflightQueue.entries q)) [
  | some pos ↦ (
    true,
    record { entries = swap_remove pos (InflightQueue.entries q); last_acked_id = some packet_id },
  )
  | none ↦ (false, q)
]

abbrev pub set_pub_rel_sent : InflightEntry → InflightEntry
set_pub_rel_sent e = record {
  packet_id = InflightEntry.packet_id e;
  qos = InflightEntry.qos e;
  status = pub_rel_sent;
  retries = InflightEntry.retries e;
}

unfoldable pub mark_pubrel_sent : InflightQueue → ℕ → Bool × InflightQueue
mark_pubrel_sent q packet_id = (
  any (has_id packet_id) (InflightQueue.entries q),
  record {
    entries = update_first (has_id packet_id) set_pub_rel_sent (InflightQueue.entries q);
    last_acked_id = InflightQueue.last_acked_id q;
  },
)

unfoldable pub keep_unacked : List InflightEntry → List InflightEntry
keep_unacked [] = []
keep_unacked (e ∷ es) = if is_acknowledged e then keep_unacked es else e ∷ keep_unacked es

unfoldable pub iter_unacked : InflightQueue → List InflightEntry
iter_unacked q = keep_unacked (InflightQueue.entries q)

unfoldable pub clear : InflightQueue → InflightQueue
clear q = record { entries = []; last_acked_id = none }
