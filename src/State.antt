-- ===== src/State.antt =====
-- crates/mqtt-core/src/state.rs: the connection state machine, a pure function of the state and the
-- event. `u32` is a number below 2^32, and `saturating_add` stops at its largest value.
pub mod Runs
pub mod Handshake
pub mod Reconnect
use mqtt_async_embedded.Prelude.{ℕ, suc, ◌+◌, ◌^◌, ◌-◌, Bool, List, ltb, if◌then◌else◌}

pub data ConnState : Type 0 where
  disconnected connecting waiting_for_conn_ack connected disconnecting : ConnState
  reconnecting : ℕ → ConnState

pub data StateEvent : Type 0 where
  connect_requested transport_connected : StateEvent
  conn_ack_received : Bool → StateEvent
  conn_ack_rejected disconnect_requested transport_closed keep_alive_expired : StateEvent

pub data StateAction : Type 0 where
  nothing send_connect send_ping send_disconnect : StateAction
  notify_connected : Bool → StateAction
  notify_disconnected : StateAction
  schedule_reconnect : ℕ → StateAction

-- `Result<(ConnState, StateAction), ProtocolError>`
pub data Transition : Type 0 where
  moves : ConnState → StateAction → Transition
  state_mismatch : Transition

abbrev pub u32_max : ℕ
u32_max = 4294967295

-- `u32::saturating_add(1)`
abbrev pub saturating_suc : ℕ → ℕ
saturating_suc n = if ltb n u32_max then n + 1 else u32_max

unfoldable pub transition : ConnState → StateEvent → Transition
transition disconnected connect_requested = moves connecting nothing
transition connecting transport_connected = moves waiting_for_conn_ack send_connect
transition waiting_for_conn_ack (conn_ack_received session_present) =
    moves connected (notify_connected session_present)
transition waiting_for_conn_ack conn_ack_rejected = moves disconnected notify_disconnected
transition connected keep_alive_expired = moves connected send_ping
transition connected disconnect_requested = moves disconnecting send_disconnect
transition disconnecting transport_closed = moves disconnected notify_disconnected
transition connected transport_closed = moves (reconnecting 1) (schedule_reconnect 1)
transition waiting_for_conn_ack transport_closed = moves (reconnecting 1) (schedule_reconnect 1)
transition (reconnecting attempt) connect_requested = moves connecting nothing
transition (reconnecting attempt) transport_closed =
    let next_attempt = saturating_suc attempt in
    moves (reconnecting next_attempt) (schedule_reconnect next_attempt)
transition _ _ = state_mismatch
