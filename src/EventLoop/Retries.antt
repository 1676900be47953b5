-- ===== src/EventLoop/Retries.antt =====
-- `connect_with_backoff`: the number of rounds.
pub mod Endings
pub mod Session
use mqtt_async_embedded.Prelude.{
  ℕ, zero, suc, ◌+◌, ◌≤◌, ◌<◌, ◌≡◌, refl, sym, ap, ◌∙◌, Bool, true, false, Option, none, some, List,
  [], ◌∷◌, ltb, leb, if◌then◌else◌, arith, subst, Bool-cases, inl, inr,
}
use mathlib.Core.Path.{ap₂}
use mqtt_async_embedded.ClientTypes.{ClientError, ClientResult, accepted, refused, ConnectionStatus}
use mqtt_async_embedded.Options.{ClientOptions, ReconnectPolicy}
use mqtt_async_embedded.Options.Backoff.{Floats, compute_delay}
use mqtt_async_embedded.EventLoop.{
  Network, Outcome, done, failed, panics, hangs, EventLoop, Act, answer, after, ◌>>=◌, ◌>>◌,
  send_status, touch_tx,
}
use mqtt_async_embedded.EventLoop.Connecting.{
  set_transport, perform_session_data_recovery, perform_connect_handshake, Round, settled, again,
  past_limit, reset_attempts, announce_delay, give_up, settle, after_handshake, after_connect,
  open_transport, connect_round, connect_with_backoff,
}
use mqtt_async_embedded.EventLoop.Retries.Endings.{
  comes_to_an_end, Calm, IsCalm, still, Calm-after, Calm-further, IsCalm-seq, Calm-if,
  IsCalm-send_status, IsCalm-set_transport, IsCalm-touch_tx,
}
use mqtt_async_embedded.EventLoop.Retries.Session.{
  IsCalm-perform_connect_handshake, IsCalm-perform_session_data_recovery,
}

-- A limit of attempts.
abbrev pub limit : {T : Type 0} → EventLoop T → Option ℕ
limit s = ReconnectPolicy.max_retries (ClientOptions.reconnect (EventLoop.options s))

-- What a round of the loop comes to: an end, and where there is another round, a state that has not
-- reached the limit.
abbrev Goes : {T : Type 0} → EventLoop T → Outcome Round × EventLoop T → Type 0
Goes s (done again, d) =
    (EventLoop.options d ≡ EventLoop.options s)
    × (EventLoop.reconnect_attempt d ≡ EventLoop.reconnect_attempt s)
    × (past_limit (limit s) (EventLoop.reconnect_attempt s) ≡ false)
Goes s (o, d) = comes_to_an_end o ≡ true

below_limit :
    {m : Option ℕ} {max attempt : ℕ} → m ≡ some max → past_limit m attempt ≡ false → attempt < max
below_limit {max = max} {attempt = attempt} limited left =
    let below = subst (λ m. past_limit m attempt ≡ false) limited left in ground arith

module _ {T : Type 0} (e : ClientError) (s d : EventLoop T) where
  Goes-limit :
      (past : Bool)
      → EventLoop.options d ≡ EventLoop.options s
      → EventLoop.reconnect_attempt d ≡ EventLoop.reconnect_attempt s
      → past_limit (limit s) (EventLoop.reconnect_attempt s) ≡ past
      → Goes s (if past then (failed e, d) else (done again, d))
  Goes-limit true options attempt same = refl
  Goes-limit false options attempt same = (options, attempt, same)

  Goes-give_up :
      EventLoop.options d ≡ EventLoop.options s
      → EventLoop.reconnect_attempt d ≡ EventLoop.reconnect_attempt s
      → Goes s (give_up e d)
  unfolding give_up
  Goes-give_up options attempt =
      Goes-limit (past_limit (limit d) (EventLoop.reconnect_attempt d)) options attempt (
        sym (
          ap₂ (λ o k. past_limit (ReconnectPolicy.max_retries (ClientOptions.reconnect o)) k)
            options attempt))

module _ {T : Type 0} (n : Network T) where
  settle_ends : (s : EventLoop T) → comes_to_an_end (settle n s).0 ≡ true
  unfolding settle reset_attempts set_transport
  settle_ends s = Calm.ends (
      IsCalm-seq (send_status ConnectionStatus.connected) _
        (IsCalm-send_status ConnectionStatus.connected)
        (IsCalm-seq (touch_tx n) (perform_session_data_recovery n) (IsCalm-touch_tx n)
          (IsCalm-perform_session_data_recovery n))
        (record s { has_transport = true; reconnect_attempt = 0 }))

  Goes-settled :
      (s : EventLoop T) (r : Outcome (Unit {0}) × EventLoop T)
      → comes_to_an_end r.0 ≡ true
      → Goes s (after r (λ u. answer settled))
  Goes-settled s (done u, d) ends = refl
  Goes-settled s (failed e, d) ends = refl
  Goes-settled s (panics, d) ends = refl
  Goes-settled s (hangs, d) ends = ends

  Goes-after_handshake :
      (s : EventLoop T) (r : Outcome (Unit {0}) × EventLoop T)
      → Calm s r
      → Goes s (after_handshake n r)
  Goes-after_handshake s (done u, d) calm = Goes-settled s (settle n d) (settle_ends d)
  Goes-after_handshake s (failed e, d) calm = Goes-give_up e s d calm.options calm.attempt
  Goes-after_handshake s (panics, d) calm = refl
  Goes-after_handshake s (hangs, d) calm = calm.ends

  Goes-after_connect :
      (r : ClientResult (Unit {0})) (s d : EventLoop T)
      → EventLoop.options d ≡ EventLoop.options s
      → EventLoop.reconnect_attempt d ≡ EventLoop.reconnect_attempt s
      → Goes s (after_connect n r d)
  Goes-after_connect (accepted u) s d options attempt =
      let calm = IsCalm-perform_connect_handshake n d in
      Goes-after_handshake s (perform_connect_handshake n d) (record {
        ends = calm.ends;
        options = calm.options ∙ options;
        attempt = calm.attempt ∙ attempt;
      })
  Goes-after_connect (refused e) s d options attempt = Goes-give_up e s d options attempt

  Goes-after :
      (s : EventLoop T) (r : Outcome (Unit {0}) × EventLoop T) (k : Act T Round)
      → Calm s r
      → ((d : EventLoop T)
          → EventLoop.options d ≡ EventLoop.options s
          → EventLoop.reconnect_attempt d ≡ EventLoop.reconnect_attempt s
          → Goes s (k d))
      → Goes s (after r (λ u. k))
  Goes-after s (done u, d) k calm rest = rest d calm.options calm.attempt
  Goes-after s (failed e, d) k calm rest = refl
  Goes-after s (panics, d) k calm rest = refl
  Goes-after s (hangs, d) k calm rest = calm.ends

  IsCalm-announce_delay : (delay : Option ℕ) → IsCalm {T = T} (announce_delay delay)
  unfolding announce_delay
  IsCalm-announce_delay none = λ s. still s s panics refl refl refl
  IsCalm-announce_delay (some delay) = λ s.
      Calm-if (ltb 0 delay) s _ _
        (IsCalm-send_status (ConnectionStatus.reconnecting (EventLoop.reconnect_attempt s) delay) s)
        (still s s (done tt) refl refl refl)

  module _ {F : Type 0} (f : Floats F) where
    -- The round counts an attempt.
    Goes-connect_round :
        (s : EventLoop T)
        → Goes
            (record s { reconnect_attempt = EventLoop.reconnect_attempt s + 1 })
            (connect_round n f s)
    unfolding connect_round open_transport
    Goes-connect_round s =
        let s' = record s { reconnect_attempt = EventLoop.reconnect_attempt s + 1 } in
        let delay =
          compute_delay f (ClientOptions.reconnect (EventLoop.options s))
            (EventLoop.reconnect_attempt s + 1) in
        Goes-after s' (announce_delay delay s')
          (send_status ConnectionStatus.connecting >> open_transport n)
          (IsCalm-announce_delay delay s')
          (λ d options attempt.
            Goes-after s' (send_status ConnectionStatus.connecting d) (open_transport n)
              (Calm-further s' d _ options attempt
                (IsCalm-send_status ConnectionStatus.connecting d))
              (λ e options attempt.
                Goes-after_connect
                  (Network.connect n (ClientOptions.target (EventLoop.options e))
                    (EventLoop.net e)).0
                  s' _ options attempt))

    module _ (max : ℕ) where
      -- So many rounds are enough from a state that has not reached the limit.
      abbrev AreEnough : ℕ → Type 0
      AreEnough rounds =
          (d : EventLoop T)
          → limit d ≡ some max
          → EventLoop.reconnect_attempt d < max
          → max ≤ EventLoop.reconnect_attempt d + rounds
          → comes_to_an_end (connect_with_backoff n f rounds d).0 ≡ true

      behind_round :
          (rounds : ℕ) (s : EventLoop T) (r : Outcome Round × EventLoop T)
          → AreEnough rounds
          → Goes s r
          → limit s ≡ some max
          → max ≤ EventLoop.reconnect_attempt s + rounds
          → comes_to_an_end
              (after r
                (λ t. elim t [ settled ↦ answer tt | again ↦ connect_with_backoff n f rounds ])).0
            ≡ true
      behind_round rounds s (done settled, d) rest goes limited enough = refl
      behind_round rounds s (done again, d) rest (options, attempt, left) limited enough =
          rest d
            (ap (λ o. ReconnectPolicy.max_retries (ClientOptions.reconnect o)) options ∙ limited)
            (rw attempt (below_limit limited left)) (rw attempt enough)
      behind_round rounds s (failed e, d) rest goes limited enough = refl
      behind_round rounds s (panics, d) rest goes limited enough = refl
      behind_round rounds s (hangs, d) rest goes limited enough = goes

      with_rounds :
          (rounds : ℕ) (s : EventLoop T)
          → AreEnough rounds
          → limit s ≡ some max
          → max ≤ EventLoop.reconnect_attempt s + suc rounds
          → comes_to_an_end (connect_with_backoff n f (suc rounds) s).0 ≡ true
      unfolding connect_with_backoff
      with_rounds rounds s rest limited enough =
          behind_round rounds (record s { reconnect_attempt = EventLoop.reconnect_attempt s + 1 })
            (connect_round n f s) rest (Goes-connect_round s) limited (omega arith)

      rounds-AreEnough : (rounds : ℕ) → AreEnough rounds
      rounds-AreEnough zero d limited left enough = ground arith
      rounds-AreEnough (suc rounds) d limited left enough =
          with_rounds rounds d (rounds-AreEnough rounds) limited enough

      -- A loop of connections that has a limit of attempts comes to an end, whatever the network does:
      -- it takes a round for each attempt that is left, and one at least.
      pub connect_with_backoff_ends :
          (rounds : ℕ) (s : EventLoop T)
          → limit s ≡ some max
          → max ≤ EventLoop.reconnect_attempt s + suc rounds
          → comes_to_an_end (connect_with_backoff n f (suc rounds) s).0 ≡ true
      connect_with_backoff_ends rounds s = with_rounds rounds s (rounds-AreEnough rounds)
