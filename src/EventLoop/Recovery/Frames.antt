-- ===== src/EventLoop/Recovery/Frames.antt =====
-- The three parts of `perform_session_data_recovery`, one after the other.
use mqtt_async_embedded.Prelude.{ℕ, ◌≡◌, true, false, List, []}
use mqtt_async_embedded.EventLoop.{Network, Outcome, done, EventLoop, ◌>>◌}
use mqtt_async_embedded.EventLoop.Connecting.{
  recover_inflight, recover_subscriptions, recover_queue, set_transport,
  perform_session_data_recovery,
}

-- How a recovery comes out that has written these frames.
abbrev Recovered : {T : Type 0} → List (List ℕ) → Outcome (Unit {0}) × EventLoop T → Type 0
Recovered written r =
    (r.0 ≡ done tt)
    × (EventLoop.written r.1 ≡ written)
    × (EventLoop.offline_queue r.1 ≡ [])
    × (EventLoop.has_transport r.1 ≡ true)

module _ {T : Type 0} (n : Network T) where
  taken :
      (s : EventLoop T)
      → EventLoop.has_transport s ≡ true
      → perform_session_data_recovery n s
        ≡ (recover_inflight n
              >> (recover_subscriptions n >> (recover_queue n >> set_transport true)))
            (record s { has_transport = false })
  unfolding perform_session_data_recovery set_transport
  taken s up = simp up
