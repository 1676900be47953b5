-- ===== src/EventLoop/Invariant/Runs.antt =====
-- The invariant over the connection that is driven, and over `run`.
use mqtt_async_embedded.Prelude.{
  ℕ, zero, suc, length, replicate, ◌≡◌, ◌-◌, refl, false, List, [], ◌∷◌, ltb, ◌==◌, arith,
}
use mqtt_async_embedded.ClientTypes.{ClientError, ConnectionStatus}
use mqtt_async_embedded.Options.{ClientOptions, ReconnectPolicy}
use mqtt_async_embedded.Options.Backoff.{Floats}
use mqtt_async_embedded.EventLoop.{
  Network, Outcome, done, failed, panics, hangs, EventLoop, Act, answer, ◌>>◌, ignoring,
  send_status, new_loop,
}
use mqtt_async_embedded.EventLoop.Sending.{send_disconnect}
use mqtt_async_embedded.EventLoop.Requests.{handle_client_request}
use mqtt_async_embedded.EventLoop.Reading.{on_readable}
use mqtt_async_embedded.EventLoop.Connecting.{connect_with_backoff, set_transport}
use mqtt_async_embedded.EventLoop.Driving.{
  Event, readable, request, requests_closed, tick, Turn, leaves, stays, on_tick, on_event,
  drive_loop, put_back, drive_connection, Cycle, stops, goes_on, waits, lost, after_drive,
  after_backoff, run_cycle, run,
}
use mqtt_async_embedded.EventLoop.Invariant.{
  IsLoop, ReadsInside, Keeps, Keeps-bind, Keeps-seq, if-IsLoop, Keeps-ignoring, same_parts,
  Keeps-send_status,
}
use mqtt_async_embedded.EventLoop.Invariant.Sending.{
  Keeps-send_ping, Keeps-send_disconnect, Keeps-handle_client_request,
}
use mqtt_async_embedded.EventLoop.Invariant.Reading.{Keeps-on_readable}
use mqtt_async_embedded.EventLoop.Invariant.Connecting.{
  Keeps-set_transport, Keeps-connect_with_backoff,
}

module _ {T : Type 0} (size : ℕ) (n : Network T) where
  Keeps-on_tick : Keeps size (on_tick n)
  unfolding on_tick
  Keeps-on_tick s v =
      if-IsLoop size
        (ltb (Network.now n (EventLoop.net s) - EventLoop.last_tx s)
          (ClientOptions.keep_alive (EventLoop.options s)))
        (done tt, s) _ v (Keeps-send_ping size n s v)

  put_back-IsLoop :
      (r : Outcome Turn × EventLoop T) → IsLoop size r.1 → IsLoop size (put_back n r).1
  put_back-IsLoop (done t, s) v = same_parts size s _ refl refl refl refl v
  put_back-IsLoop (failed e, s) v = same_parts size s _ refl refl refl refl v
  put_back-IsLoop (panics, s) v = v
  put_back-IsLoop (hangs, s) v = v

  Keeps-stop : Keeps size (send_status {T = T} ConnectionStatus.stopped >> answer stops)
  Keeps-stop =
      Keeps-seq size (send_status {T = T} ConnectionStatus.stopped) (answer stops)
        (Keeps-send_status size ConnectionStatus.stopped) (λ s v. v)

  Keeps-lost : Keeps size (lost n)
  unfolding lost
  Keeps-lost = Keeps-seq size (set_transport false) _ (Keeps-set_transport size n false) (
      Keeps-seq size (send_status ConnectionStatus.disconnected) _
        (Keeps-send_status size ConnectionStatus.disconnected)
        (λ s v.
          if-IsLoop size (ReconnectPolicy.enabled (ClientOptions.reconnect (EventLoop.options s)))
            (done goes_on, s) _ v (Keeps-stop s v)))

  after_drive-IsLoop :
      (r : Outcome Turn × EventLoop T) → IsLoop size r.1 → IsLoop size (after_drive n r).1
  after_drive-IsLoop (done leaves, s) v = v
  after_drive-IsLoop (done stays, s) v = v
  after_drive-IsLoop (failed ClientError.client_closed, s) v = Keeps-stop s v
  after_drive-IsLoop (failed _, s) v = Keeps-lost s v
  after_drive-IsLoop (panics, s) v = v
  after_drive-IsLoop (hangs, s) v = v

  after_backoff-IsLoop :
      (r : Outcome (Unit {0}) × EventLoop T) (k : EventLoop T → Outcome Cycle × EventLoop T)
      → IsLoop size r.1
      → ((s : EventLoop T) → IsLoop size s → IsLoop size (k s).1)
      → IsLoop size (after_backoff n r k).1
  after_backoff-IsLoop (done u, s) k v rest = rest s v
  after_backoff-IsLoop (failed e, s) k v rest = Keeps-stop s v
  after_backoff-IsLoop (panics, s) k v rest = v
  after_backoff-IsLoop (hangs, s) k v rest = v

  module _ (law : ReadsInside n) where
    Keeps-on_event : (e : Event) → Keeps size (on_event n e)
    unfolding on_event
    Keeps-on_event readable =
        Keeps-seq size (on_readable n) (answer stays) (Keeps-on_readable size n law) (λ s v. v)
    Keeps-on_event (request r) =
        Keeps-seq size (handle_client_request n r) (answer stays)
          (Keeps-handle_client_request size n r) (λ s v. v)
    Keeps-on_event requests_closed =
        Keeps-seq size (ignoring (send_disconnect n)) (answer leaves)
          (Keeps-ignoring size (send_disconnect n) (Keeps-send_disconnect size n)) (λ s v. v)
    Keeps-on_event tick = Keeps-seq size (on_tick n) (answer stays) Keeps-on_tick (λ s v. v)

    Keeps-next_turn :
        (rest : Act T Turn)
        → Keeps size rest
        → (t : Turn)
        → Keeps {T = T} {A = Turn} size (elim t [ leaves ↦ answer leaves | stays ↦ rest ])
    Keeps-next_turn rest keeps leaves = λ s v. v
    Keeps-next_turn rest keeps stays = keeps

    Keeps-drive_loop : (es : List Event) → Keeps size (drive_loop n es)
    unfolding drive_loop
    Keeps-drive_loop [] = λ s v. v
    Keeps-drive_loop (e ∷ es) =
        Keeps-bind size (on_event n e) _ (Keeps-on_event e)
          (Keeps-next_turn (drive_loop n es) (Keeps-drive_loop es))

    at_start :
        (s : EventLoop T)
        → IsLoop size s
        → IsLoop size (record s { has_transport = false; rx_cursor = 0 })
    at_start s v = record {
      id_positive = IsLoop.id_positive v;
      id_u16 = IsLoop.id_u16 v;
      table = IsLoop.table v;
      buffer = IsLoop.buffer v;
      cursor = omega arith;
    }

    Keeps-drive_connection : (es : List Event) → Keeps size (drive_connection n es)
    unfolding drive_connection
    Keeps-drive_connection es s v =
        if-IsLoop size (ClientOptions.keep_alive (EventLoop.options s) == 0) (panics, s) _ v
          (if-IsLoop size (EventLoop.has_transport s) _ (failed ClientError.not_connected, s)
            (put_back-IsLoop _ (Keeps-drive_loop es _ (at_start s v))) v)

    module _ {F : Type 0} (f : Floats F) (rounds : ℕ) where
      Keeps-run_cycle : (es : List Event) → Keeps size (run_cycle n f rounds es)
      unfolding run_cycle
      Keeps-run_cycle es s v =
          if-IsLoop size (EventLoop.has_transport s) _ _
            (after_drive-IsLoop _ (Keeps-drive_connection es s v))
            (after_backoff-IsLoop (connect_with_backoff n f rounds s) _
              (Keeps-connect_with_backoff size n law f rounds s v)
              (λ d w. after_drive-IsLoop _ (Keeps-drive_connection es d w)))

      Keeps-next_cycle :
          (rest : Act T Cycle)
          → Keeps size rest
          → (c : Cycle)
          → Keeps {T = T} {A = Cycle} size
              (elim c [ stops ↦ answer stops | waits ↦ answer waits | goes_on ↦ rest ])
      Keeps-next_cycle rest keeps stops = λ s v. v
      Keeps-next_cycle rest keeps waits = λ s v. v
      Keeps-next_cycle rest keeps goes_on = keeps

      Keeps-run : (cycles : List (List Event)) → Keeps size (run n f rounds cycles)
      unfolding run
      Keeps-run [] = λ s v. v
      Keeps-run (es ∷ cycles) =
          Keeps-bind size (run_cycle n f rounds es) _ (Keeps-run_cycle es)
            (Keeps-next_cycle (run n f rounds cycles) (Keeps-run cycles))

length-replicate : (count byte : ℕ) → length (replicate count byte) ≡ count
length-replicate zero byte = refl
length-replicate (suc count) byte = rw (length-replicate count byte) refl

module _ {T : Type 0} (n : Network T) (options : ClientOptions) (net : T) where
  new_loop-IsLoop : IsLoop (ClientOptions.max_packet_size options) (new_loop n options net)
  unfolding new_loop
  new_loop-IsLoop = record {
    id_positive = omega arith;
    id_u16 = omega arith;
    table = tt;
    buffer = length-replicate (ClientOptions.max_packet_size options) 0;
    cursor = omega arith;
  }

  -- In every run of a new event loop, whatever the broker, the network and the clients do, and
  -- however the run ends, the next packet id is a u16 that is not 0, no two messages in flight share
  -- an id, each stands in the table under the id it bears, which is a u16 that is not 0, the receive
  -- buffer keeps its size, and the bytes of an unfinished packet lie within it. The network is assumed
  -- to keep the length of a buffer it reads into, and to report no more bytes than it has room for.
  pub run-IsLoop :
      ReadsInside n
      → {F : Type 0} → (f : Floats F) (rounds : ℕ) (cycles : List (List Event))
      → IsLoop
          (ClientOptions.max_packet_size options)
          (run n f rounds cycles (new_loop n options net)).1
  run-IsLoop law f rounds cycles =
      Keeps-run (ClientOptions.max_packet_size options) n law f rounds cycles
        (new_loop n options net) new_loop-IsLoop
