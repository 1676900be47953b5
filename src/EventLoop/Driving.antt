-- ===== src/EventLoop/Driving.antt =====
-- `drive_connection` and `run`. What `tokio::select!` finds ready is a sequence of events.
use mqtt_async_embedded.Prelude.{ℕ, ◌-◌, true, false, List, [], ◌∷◌, ltb, ◌==◌, if◌then◌else◌}
use mqtt_async_embedded.ClientTypes.{ClientError, ConnectionStatus}
use mqtt_async_embedded.Options.{ClientOptions, ReconnectPolicy}
use mqtt_async_embedded.Options.Backoff.{Floats}
use mqtt_async_embedded.EventLoop.{
  Network, Outcome, done, failed, panics, hangs, EventLoop, Act, answer, ◌>>=◌, ◌>>◌, ignoring,
  send_status,
}
use mqtt_async_embedded.EventLoop.Sending.{send_ping, send_disconnect}
use mqtt_async_embedded.EventLoop.Requests.{ClientRequest, handle_client_request}
use mqtt_async_embedded.EventLoop.Reading.{on_readable}
use mqtt_async_embedded.EventLoop.Connecting.{connect_with_backoff, set_transport}

-- `requests_closed` is the end of the channel of requests.
pub data Event : Type 0 where
  readable : Event
  request : ClientRequest → Event
  requests_closed tick : Event

-- `return Ok(())`, or the next turn of the loop
pub data Turn : Type 0 where
  leaves stays : Turn

-- Whether the loop of `run` is left behind a cycle.
pub data Cycle : Type 0 where
  stops goes_on waits : Cycle

module _ {T : Type 0} (n : Network T) where
  unfoldable pub on_tick : Act T (Unit {0})
  on_tick s =
      let idle = Network.now n (EventLoop.net s) - EventLoop.last_tx s in
      if ltb idle (ClientOptions.keep_alive (EventLoop.options s))
      then (done tt, s)
      else send_ping n s

  unfoldable pub on_event : Event → Act T Turn
  on_event readable = on_readable n >> answer stays
  on_event (request r) = handle_client_request n r >> answer stays
  on_event requests_closed = ignoring (send_disconnect n) >> answer leaves
  on_event tick = on_tick >> answer stays

  -- The loop: `stays` at the end of the events means that it waits for another one.
  unfoldable pub drive_loop : List Event → Act T Turn
  drive_loop [] = answer stays
  drive_loop (e ∷ es) =
      on_event e >>= λ t. elim t [ leaves ↦ answer leaves | stays ↦ drive_loop es ]

  abbrev pub put_back : Outcome Turn × EventLoop T → Outcome Turn × EventLoop T
  put_back (done t, s) = (done t, record s { has_transport = true })
  put_back (failed e, s) = (failed e, record s { has_transport = true })
  put_back (panics, s) = (panics, s)
  put_back (hangs, s) = (hangs, s)

  -- `time::interval` panics on a period of 0.
  unfoldable pub drive_connection : List Event → Act T Turn
  drive_connection es s =
      if ClientOptions.keep_alive (EventLoop.options s) == 0
      then (panics, s)
      else if EventLoop.has_transport s
      then put_back (drive_loop es (record s { has_transport = false; rx_cursor = 0 }))
      else (failed ClientError.not_connected, s)

  unfoldable pub lost : Act T Cycle
  lost = do
    set_transport false
    send_status ConnectionStatus.disconnected
    λ s.
        if ReconnectPolicy.enabled (ClientOptions.reconnect (EventLoop.options s))
        then (done goes_on, s)
        else (send_status ConnectionStatus.stopped >> answer stops) s

  abbrev pub after_drive : Outcome Turn × EventLoop T → Outcome Cycle × EventLoop T
  after_drive (done leaves, s) = (done goes_on, s)
  after_drive (done stays, s) = (done waits, s)
  after_drive (failed ClientError.client_closed, s) =
      (send_status ConnectionStatus.stopped >> answer stops) s
  after_drive (failed e, s) = lost s
  after_drive (panics, s) = (panics, s)
  after_drive (hangs, s) = (hangs, s)

  abbrev pub after_backoff :
      Outcome (Unit {0}) × EventLoop T
      → (EventLoop T → Outcome Cycle × EventLoop T)
      → Outcome Cycle × EventLoop T
  after_backoff (done u, s) k = k s
  after_backoff (failed e, s) k = (send_status ConnectionStatus.stopped >> answer stops) s
  after_backoff (panics, s) k = (panics, s)
  after_backoff (hangs, s) k = (hangs, s)

  module _ {F : Type 0} (f : Floats F) (rounds : ℕ) where
    -- One turn of the loop of `run`, with the events that occur in it.
    unfoldable pub run_cycle : List Event → Act T Cycle
    run_cycle es s =
        if EventLoop.has_transport s
        then after_drive (drive_connection es s)
        else after_backoff (connect_with_backoff n f rounds s)
            (λ s'. after_drive (drive_connection es s'))

    -- The turns, with the events of each. A loop that waits goes on with the next event, so no turn
    -- follows.
    unfoldable pub run : List (List Event) → Act T Cycle
    run [] = answer goes_on
    run (es ∷ cycles) = run_cycle es >>= λ c. elim c [
      | stops ↦ answer stops
      | waits ↦ answer waits
      | goes_on ↦ run cycles
    ]
