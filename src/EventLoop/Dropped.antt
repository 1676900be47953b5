-- ===== src/EventLoop/Dropped.antt =====
-- The end of the channel of requests: every handle of the client has been dropped.
use mqtt_async_embedded.Prelude.{
  ℕ, zero, suc, ◌≤◌, ◌≡◌, refl, sym, ap, ◌∙◌, true, false, List, [], ◌∷◌, ◌++◌, length, replicate,
  ◌==◌, arith, take-length-append, append_assoc, append-nil, subst,
}
use mqtt_async_embedded.Exec.{ok}
use mqtt_async_embedded.Properties.{total_prop_len}
use mqtt_async_embedded.Types.{MqttVersion, new_disconnect}
use mqtt_async_embedded.Codec.Frame.Encodes.{frame}
use mqtt_async_embedded.Codec.Disconnect.{encode_disconnect}
use mqtt_async_embedded.Codec.Disconnect.RoundTrip.{
  IsDisconnect, disconnect_content, disconnect_fits,
}
use mqtt_async_embedded.ClientTypes.{ClientResult, accepted, refused, ConnectionStatus}
use mqtt_async_embedded.Options.{ClientOptions}
use mqtt_async_embedded.Options.Backoff.{Floats}
use mqtt_async_embedded.EventLoop.{
  Network, done, EventLoop, answer, after, ignored, version_of, as_outcome, send_status,
  write_bytes, write_tx, flush, when_encoded,
}
use mqtt_async_embedded.EventLoop.Sending.{send_disconnect}
use mqtt_async_embedded.EventLoop.Recovery.Steps.{ltb_append}
use mqtt_async_embedded.EventLoop.Driving.{
  requests_closed, leaves, stays, on_event, drive_loop, put_back, drive_connection, stops, goes_on,
  waits, after_drive, run_cycle, run,
}

bare_content : (version : MqttVersion) → disconnect_content version new_disconnect ≡ []
unfolding new_disconnect
bare_content MqttVersion.v3_1_1 = refl
bare_content MqttVersion.v3 = refl
bare_content MqttVersion.v5 = refl

bare-IsDisconnect : (version : MqttVersion) → IsDisconnect version new_disconnect
unfolding new_disconnect total_prop_len
bare-IsDisconnect version = record {
  properties_ok = record { few = omega arith; shapes = tt; size = omega arith };
  size = omega (arith, ap length (bare_content version));
}

abbrev pub disconnect_bytes : List ℕ
disconnect_bytes = frame 0xe0 []

encoded :
    (version : MqttVersion) (buf : List ℕ)
    → 5 ≤ length buf
    → (junk : List ℕ) × (encode_disconnect version new_disconnect buf
        ≡ (ok (length disconnect_bytes), disconnect_bytes ++ junk))
      × (length (disconnect_bytes ++ junk) ≡ length buf)
encoded version buf room =
    subst
      (λ c.
        (junk : List ℕ) × (encode_disconnect version new_disconnect buf
          ≡ (ok (length (frame 0xe0 c)), frame 0xe0 c ++ junk))
        × (length (frame 0xe0 c ++ junk) ≡ length buf))
      (bare_content version)
      (disconnect_fits version new_disconnect (bare-IsDisconnect version) buf
        (omega (arith, ap length (bare_content version))))

-- The client handles are gone, and the loop goes on over the same connection.
pub record IsLeft {T : Type 0} (times : ℕ) (s d : EventLoop T) : Type 0 where
  pub up : EventLoop.has_transport d ≡ true
  pub options : EventLoop.options d ≡ EventLoop.options s
  pub room : length (EventLoop.tx_buf d) ≡ length (EventLoop.tx_buf s)
  pub statuses :
      EventLoop.statuses d ≡ EventLoop.statuses s ++ replicate times ConnectionStatus.stopped
  pub written : EventLoop.written d ≡ EventLoop.written s ++ replicate times disconnect_bytes

module _ {T : Type 0} (n : Network T) where
  ignored_answer :
      (r : ClientResult (Unit {0})) (d : EventLoop T) → ignored (as_outcome r, d) ≡ (done tt, d)
  ignored_answer (accepted u) d = refl
  ignored_answer (refused e) d = refl

  send_disconnect-IsLeft :
      (s : EventLoop T)
      → 5 ≤ length (EventLoop.tx_buf s)
      → ((send_disconnect n s).0 ≡ done tt)
        × IsLeft 1 s (record ((send_disconnect n s).1) { has_transport = true })
  unfolding send_disconnect when_encoded write_tx write_bytes flush send_status
  send_disconnect-IsLeft s room =
      let (junk, wrote, size) = encoded (version_of s) (EventLoop.tx_buf s) room in
      rw
        (
          wrote,
          ltb_append disconnect_bytes junk,
          take-length-append disconnect_bytes junk,
          ignored_answer,
          ignored_answer,
        )
        (refl, record { up = refl; options = refl; room = size; statuses = refl; written = refl })

  -- The connection is put back behind the DISCONNECT.
  put_back_of : EventLoop T → EventLoop T
  put_back_of s =
      record ((send_disconnect n (record s { has_transport = false; rx_cursor = 0 })).1) {
        has_transport = true;
      }

  one_more :
      (times : ℕ) (s d e : EventLoop T) → IsLeft 1 s d → IsLeft times d e → IsLeft (suc times) s e
  one_more times s d e first rest = record {
    up = rest.up;
    options = rest.options ∙ first.options;
    room = rest.room ∙ first.room;
    statuses =
        rest.statuses
        ∙ ap (λ l. l ++ replicate times ConnectionStatus.stopped) first.statuses
        ∙ append_assoc (EventLoop.statuses s) (ConnectionStatus.stopped ∷ [])
            (replicate times ConnectionStatus.stopped);
    written =
        rest.written
        ∙ ap (λ l. l ++ replicate times disconnect_bytes) first.written
        ∙ append_assoc (EventLoop.written s) (disconnect_bytes ∷ [])
            (replicate times disconnect_bytes);
  }

  module _ {F : Type 0} (f : Floats F) (rounds : ℕ) where
    closed_cycle :
        (s : EventLoop T)
        → EventLoop.has_transport s ≡ true
        → (ClientOptions.keep_alive (EventLoop.options s) == 0) ≡ false
        → 5 ≤ length (EventLoop.tx_buf s)
        → run_cycle n f rounds (requests_closed ∷ []) s ≡ (done goes_on, put_back_of s)
    unfolding run_cycle drive_connection drive_loop on_event put_back_of
    closed_cycle s up alive room =
        let s' = record s { has_transport = false; rx_cursor = 0 } in
        let d = (send_disconnect n s').1 in
        simp (up, alive)
          (ap
            (λ o. after_drive n (
              put_back n (
                after (after (ignored (o, d)) (λ u. answer leaves))
                  (λ t. elim t [ leaves ↦ answer leaves | stays ↦ drive_loop n [] ]))))
            (send_disconnect-IsLeft s' room).0)

    closed_IsLeft : (s : EventLoop T) → 5 ≤ length (EventLoop.tx_buf s) → IsLeft 1 s (put_back_of s)
    unfolding put_back_of
    closed_IsLeft s room =
        let sent =
          (send_disconnect-IsLeft (record s { has_transport = false; rx_cursor = 0 }) room).1 in
        record {
          up = sent.up;
          options = sent.options;
          room = sent.room;
          statuses = sent.statuses;
          written = sent.written;
        }

    -- Each time that the loop of `run` finds the channel of requests closed, over a connection, it
    -- writes a DISCONNECT and reports that it stopped, puts the connection back, and goes round again:
    -- it is not left. The keep alive is not 0, and the transmit buffer has room for the DISCONNECT.
    pub run-closed :
        (times : ℕ) (s : EventLoop T)
        → EventLoop.has_transport s ≡ true
        → (ClientOptions.keep_alive (EventLoop.options s) == 0) ≡ false
        → 5 ≤ length (EventLoop.tx_buf s)
        → ((run n f rounds (replicate times (requests_closed ∷ [])) s).0 ≡ done goes_on)
          × IsLeft times s (run n f rounds (replicate times (requests_closed ∷ [])) s).1
    unfolding run
    run-closed zero s up alive room = (
      refl,
      record {
        up = up;
        options = refl;
        room = refl;
        statuses = sym (append-nil (EventLoop.statuses s));
        written = sym (append-nil (EventLoop.written s));
      },
    )
    run-closed (suc times) s up alive room =
        let left = closed_IsLeft s room in
        let cycles = replicate times (requests_closed ∷ []) in
        let rest =
          run-closed times (put_back_of s) left.up
            (ap (λ o. ClientOptions.keep_alive o == 0) left.options ∙ alive) (rw left.room room) in
        let whole : run n f rounds (replicate (suc times) (requests_closed ∷ [])) s
            ≡ run n f rounds cycles (put_back_of s) =
          ap
            (λ r. after r (λ c. elim c [
              | stops ↦ answer stops
              | waits ↦ answer waits
              | goes_on ↦ run n f rounds cycles
            ]))
            (closed_cycle s up alive room) in
        (
          ap (λ r. r.0) whole ∙ rest.0,
          subst (λ r. IsLeft (suc times) s r.1) (sym whole)
              (one_more times s (put_back_of s) _ left rest.1),
        )
