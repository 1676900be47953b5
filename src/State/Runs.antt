-- ===== src/State/Runs.antt =====
-- Runs of the state machine: the events that it accepted, with the actions that they gave.
use mqtt_async_embedded.Prelude.{◌≡◌, List, [], ◌∷◌, ◌++◌}
use mqtt_async_embedded.State.{ConnState, StateEvent, StateAction, moves, transition}

-- One accepted event.
pub data Step (s : ConnState) (event : StateEvent) (t : ConnState) (action : StateAction)
    : Type 0 where
  step : transition s event ≡ moves t action → Step s event t action

-- A run, oldest event first, with its actions.
pub data Run (s : ConnState) : List StateEvent → List StateAction → ConnState → Type 0 where
  start : Run s [] [] s
  later :
      {events : List StateEvent} {actions : List StateAction} {t u : ConnState} {event : StateEvent}
      {action : StateAction}
      → Run s events actions t
      → Step t event u action
      → Run s (events ++ (event ∷ [])) (actions ++ (action ∷ [])) u
