-- ===== src/State/Handshake.antt =====
-- The order of the handshake over whole runs.
use mqtt_async_embedded.Prelude.{ℕ, ◌+◌, ◌≤◌, ◌≡◌, Bool, true, false, List, [], ◌∷◌, arith}
use mqtt_async_embedded.Slots.{count}
use mqtt_async_embedded.Slots.Counting.{count-append, count-one, one_if}
use mqtt_async_embedded.State.{
  ConnState, disconnected, waiting_for_conn_ack, StateEvent, StateAction, send_connect,
  notify_connected, moves, transition,
}
use mqtt_async_embedded.State.Runs.{step, Run, start, later}

abbrev pub is_send_connect : StateAction → Bool
is_send_connect send_connect = true
is_send_connect _ = false

abbrev pub is_notify_connected : StateAction → Bool
is_notify_connected (notify_connected session_present) = true
is_notify_connected _ = false

abbrev pub waits : ConnState → ℕ
waits waiting_for_conn_ack = 1
waits _ = 0

-- Each step keeps one CONNECT for each notification and for a handshake that is open.
step_balance :
    (s : ConnState) (event : StateEvent) (t : ConnState) (action : StateAction)
    → transition s event ≡ moves t action
    → one_if (is_notify_connected action) + waits t ≤ one_if (is_send_connect action) + waits s
unfolding transition
step_balance s event t action h = ground arith

Run-balance :
    {s : ConnState} {events : List StateEvent} {actions : List StateAction} {t : ConnState}
    → Run s events actions t
    → count is_notify_connected actions + waits t ≤ count is_send_connect actions + waits s
unfolding count
Run-balance start = omega arith
Run-balance
      (later {actions = actions} {t = t} {u = u} {event = event} {action = action} r (step h)) =
    omega (
      arith,
      Run-balance r,
      step_balance t event u action h,
      count-append is_notify_connected actions (action ∷ []),
      count-append is_send_connect actions (action ∷ []),
      count-one is_notify_connected action,
      count-one is_send_connect action,
    )

-- In every run from `Disconnected`, at every point, the client has been told of no more
-- connections than CONNECT packets were sent; while a CONNACK is awaited, of one less.
pub connected_after_connect :
    {events : List StateEvent} {actions : List StateAction} {t : ConnState}
    → Run disconnected events actions t
    → count is_notify_connected actions + waits t ≤ count is_send_connect actions
connected_after_connect r = omega (arith, Run-balance r)
