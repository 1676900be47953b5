-- ===== src/Examples/States.antt =====
-- The connection state machine on a concrete run.
use mqtt_async_embedded.Prelude.{◌+◌, ◌≤◌, ◌≡◌, refl, true, false, List, [], ◌∷◌}
use mqtt_async_embedded.Slots.{count}
use mqtt_async_embedded.State.{
  disconnected, connecting, waiting_for_conn_ack, connected, disconnecting, reconnecting,
  StateEvent, connect_requested, transport_connected, conn_ack_received, transport_closed,
  StateAction, nothing, send_connect, notify_connected, notify_disconnected, schedule_reconnect,
  transition,
}
use mqtt_async_embedded.State.Runs.{Step, step, Run, start, later}
use mqtt_async_embedded.State.Handshake.{
  is_send_connect, is_notify_connected, waits, connected_after_connect,
}
use mqtt_async_embedded.State.Reconnect.{
  is_schedule_reconnect, is_connect_requested, is_leaving, disconnect_is_final,
}

-- The client connects, and the connection is lost.
abbrev lost : List StateEvent
lost = connect_requested ∷ transport_connected ∷ conn_ack_received false ∷ transport_closed ∷ []

abbrev lost_actions : List StateAction
lost_actions = nothing ∷ send_connect ∷ notify_connected false ∷ schedule_reconnect 1 ∷ []

lost-Run : Run disconnected lost lost_actions (reconnecting 1)
unfolding transition
lost-Run =
    let dials : Step disconnected connect_requested connecting nothing = step refl in
    let opens : Step connecting transport_connected waiting_for_conn_ack send_connect = step refl in
    let answers : Step waiting_for_conn_ack (conn_ack_received false) connected
        (notify_connected false) =
      step refl in
    let closes : Step connected transport_closed (reconnecting 1) (schedule_reconnect 1) =
      step refl in
    later (later (later (later start dials) opens) answers) closes

connected_after_connect_example :
    count is_notify_connected lost_actions + waits (reconnecting 1)
    ≤ count is_send_connect lost_actions
connected_after_connect_example = connected_after_connect lost-Run

left-Run : Run disconnecting (transport_closed ∷ []) (notify_disconnected ∷ []) disconnected
unfolding transition
left-Run = later start (step refl)

nothing_requested : count is_connect_requested (transport_closed ∷ []) ≡ 0
unfolding count
nothing_requested = refl

disconnect_is_final_example :
    (is_leaving disconnected ≡ true) × (count is_schedule_reconnect (notify_disconnected ∷ []) ≡ 0)
disconnect_is_final_example = disconnect_is_final left-Run nothing_requested
