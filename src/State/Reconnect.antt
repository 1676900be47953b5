-- ===== src/State/Reconnect.antt =====
-- Reconnection: the attempt counter, and the end of a connection.
use mqtt_async_embedded.Prelude.{
  ℕ, zero, suc, ◌≤◌, ◌≡◌, refl, ap, Bool, true, false, List, [], ◌∷◌, ◌++◌, arith, ltb,
  if◌then◌else◌,
}
use mqtt_async_embedded.Slots.{count}
use mqtt_async_embedded.Slots.Counting.{count-append, count-one, one_if}
use mqtt_async_embedded.State.{
  ConnState, disconnected, connected, disconnecting, reconnecting, StateEvent, connect_requested,
  transport_closed, StateAction, schedule_reconnect, moves, transition, u32_max,
}
use mqtt_async_embedded.State.Runs.{step, Run, start, later}

-- The attempt counter of a state, and 1 for a state without one.
abbrev pub attempt_of : ConnState → ℕ
attempt_of (reconnecting n) = n
attempt_of _ = 1

step-attempt :
    (s : ConnState) (event : StateEvent) (t : ConnState) (action : StateAction)
    → transition s event ≡ moves t action
    → 1 ≤ attempt_of s
    → attempt_of s ≤ u32_max
    → (1 ≤ attempt_of t) × (attempt_of t ≤ u32_max)
unfolding transition
step-attempt s event t action h low high = (ground arith, ground arith)

-- In every run from `Disconnected` the attempt counter is a `u32`, and is never 0.
pub Run-attempt :
    {events : List StateEvent} {actions : List StateAction} {t : ConnState}
    → Run disconnected events actions t
    → (1 ≤ attempt_of t) × (attempt_of t ≤ u32_max)
Run-attempt start = (omega arith, omega arith)
Run-attempt (later {t = t} {u = u} {event = event} {action = action} r (step h)) =
    let (low, high) = Run-attempt r in step-attempt t event u action h low high

abbrev pub is_schedule_reconnect : StateAction → Bool
is_schedule_reconnect (schedule_reconnect n) = true
is_schedule_reconnect _ = false

abbrev pub is_connect_requested : StateEvent → Bool
is_connect_requested connect_requested = true
is_connect_requested _ = false

-- `Disconnecting` or `Disconnected`
abbrev pub is_leaving : ConnState → Bool
is_leaving disconnecting = true
is_leaving disconnected = true
is_leaving _ = false

step_quiet :
    (s : ConnState) (event : StateEvent) (t : ConnState) (action : StateAction)
    → transition s event ≡ moves t action
    → is_leaving s ≡ true
    → one_if (is_connect_requested event) ≡ 0
    → (is_leaving t ≡ true) × (one_if (is_schedule_reconnect action) ≡ 0)
unfolding transition
step_quiet s event t action h leaving quiet = (ground arith, ground arith)

-- After a graceful disconnect began, and until a connection is requested again, no reconnection is
-- scheduled, and the client stays in `Disconnecting` or `Disconnected`.
pub disconnect_is_final :
    {events : List StateEvent} {actions : List StateAction} {t : ConnState}
    → Run disconnecting events actions t
    → count is_connect_requested events ≡ 0
    → (is_leaving t ≡ true) × (count is_schedule_reconnect actions ≡ 0)
unfolding count
disconnect_is_final start quiet = (refl, refl)
disconnect_is_final
      (later {events = events} {actions = actions} {t = t} {u = u} {event = event} {action = action}
        r
        (step h))
      quiet =
    let split = count-append is_connect_requested events (event ∷ []) in
    let last_one = count-one is_connect_requested event in
    let (leaving, none_before) = disconnect_is_final r (omega (arith, split, last_one)) in
    let (leaves, none_now) =
      step_quiet t event u action h leaving (omega (arith, split, last_one)) in
    (
      leaves,
      omega (
        arith,
        count-append is_schedule_reconnect actions (action ∷ []),
        count-one is_schedule_reconnect action,
      ),
    )

-- `closings k` is `k` times `TransportClosed`, and `capped k` the counter after it.
abbrev pub closings : ℕ → List StateEvent
closings zero = []
closings (suc k) = closings k ++ (transport_closed ∷ [])

abbrev pub capped : ℕ → ℕ
capped k = if ltb k u32_max then k else u32_max

abbrev pub schedules : ℕ → List StateAction
schedules zero = []
schedules (suc k) = schedules k ++ (schedule_reconnect (capped (suc k)) ∷ [])

abbrev pub after_closings : ℕ → ConnState
after_closings zero = connected
after_closings (suc k) = reconnecting (capped (suc k))

closing_step :
    (k : ℕ)
    → transition (after_closings k) transport_closed
      ≡ moves (after_closings (suc k)) (schedule_reconnect (capped (suc k)))
unfolding transition
closing_step zero = refl
closing_step (suc k) = ap (λ n. moves (reconnecting n) (schedule_reconnect n)) (ground arith)

-- After a connection is lost, the `k`-th failure in a row schedules attempt `k`, and the counter
-- stops at the largest `u32`.
pub closings-Run : (k : ℕ) → Run connected (closings k) (schedules k) (after_closings k)
closings-Run zero = start
closings-Run (suc k) = later (closings-Run k) (step (closing_step k))
