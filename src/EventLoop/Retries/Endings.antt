-- ===== src/EventLoop/Retries/Endings.antt =====
-- Actions that come to an end and leave the count of attempts and the options as they are.
use mqtt_async_embedded.Prelude.{
  ℕ, ◌≡◌, refl, ◌∙◌, Bool, true, false, none, some, List, [], ◌∷◌, length, take, ltb, if◌then◌else◌,
}
use mqtt_async_embedded.Exec.{Result, ok, err, panic, Exec}
use mqtt_async_embedded.Types.{QoS, at_most_once, at_least_once, exactly_once}
use mqtt_async_embedded.ClientTypes.{
  PublishMessage, ClientResult, accepted, refused, ConnectionStatus,
}
use mqtt_async_embedded.EventLoop.{
  Network, Outcome, done, failed, panics, hangs, EventLoop, Unacked, Act, after, ◌>>◌, ignored,
  ignoring, after_encode, encode_tx, as_outcome, get_next_packet_id, send_answer, send_status,
  write_bytes, write_tx, flush, touch_tx, transmit, if_encoded, when_encoded,
}
use mqtt_async_embedded.EventLoop.Sending.{
  note_unacked, tracked_id, packet_id_for, send_publish_direct,
}
use mqtt_async_embedded.EventLoop.Connecting.{
  resend, resend_all, resubscribe, resubscribe_all, flush_queue, set_transport,
}

abbrev pub comes_to_an_end : {A : Type 0} → Outcome A → Bool
comes_to_an_end (done a) = true
comes_to_an_end (failed e) = true
comes_to_an_end panics = true
comes_to_an_end hangs = false

pub record Calm {T A : Type 0} (s : EventLoop T) (r : Outcome A × EventLoop T) : Type 0 where
  pub ends : comes_to_an_end r.0 ≡ true
  pub options : EventLoop.options r.1 ≡ EventLoop.options s
  pub attempt : EventLoop.reconnect_attempt r.1 ≡ EventLoop.reconnect_attempt s

abbrev pub IsCalm : {T A : Type 0} → Act T A → Type 0
IsCalm {T} m = (s : EventLoop T) → Calm s (m s)

abbrev pub still :
    {T A : Type 0}
    → (s d : EventLoop T) (o : Outcome A) → comes_to_an_end o ≡ true
    → EventLoop.options d ≡ EventLoop.options s
    → EventLoop.reconnect_attempt d ≡ EventLoop.reconnect_attempt s
    → Calm s (o, d)
still s d o e p a = record { ends = e; options = p; attempt = a }

module _ {T A : Type 0} where
  pub Calm-further :
      (s d : EventLoop T) (r : Outcome A × EventLoop T)
      → EventLoop.options d ≡ EventLoop.options s
      → EventLoop.reconnect_attempt d ≡ EventLoop.reconnect_attempt s
      → Calm d r
      → Calm s r
  Calm-further s d r options attempt calm = record {
    ends = calm.ends;
    options = calm.options ∙ options;
    attempt = calm.attempt ∙ attempt;
  }

module _ {T A B : Type 0} where
  pub Calm-after :
      (s : EventLoop T) (r : Outcome A × EventLoop T) (f : A → Act T B)
      → Calm s r
      → ((a : A) → IsCalm (f a))
      → Calm s (after r f)
  Calm-after s (done a, d) f calm rest =
      Calm-further s d (f a d) calm.options calm.attempt (rest a d)
  Calm-after s (failed e, d) f calm rest = still s d (failed e) refl calm.options calm.attempt
  Calm-after s (panics, d) f calm rest = still s d panics refl calm.options calm.attempt
  Calm-after s (hangs, d) f calm rest = still s d hangs calm.ends calm.options calm.attempt

  pub IsCalm-seq : (m : Act T A) (k : Act T B) → IsCalm m → IsCalm k → IsCalm (m >> k)
  IsCalm-seq m k first rest s = Calm-after s (m s) (λ u. k) (first s) (λ u. rest)

module _ {T A : Type 0} where
  pub Calm-if :
      (test : Bool) (s : EventLoop T) (r d : Outcome A × EventLoop T)
      → Calm s r
      → Calm s d
      → Calm s (if test then r else d)
  Calm-if true s r d first rest = first
  Calm-if false s r d first rest = rest

  Calm-ignored : (s : EventLoop T) (r : Outcome A × EventLoop T) → Calm s r → Calm s (ignored r)
  Calm-ignored s (done a, d) calm = still s d (done tt) refl calm.options calm.attempt
  Calm-ignored s (failed e, d) calm = still s d (done tt) refl calm.options calm.attempt
  Calm-ignored s (panics, d) calm = still s d panics refl calm.options calm.attempt
  Calm-ignored s (hangs, d) calm = still s d hangs calm.ends calm.options calm.attempt

  IsCalm-ignoring : (m : Act T A) → IsCalm m → IsCalm (ignoring m)
  IsCalm-ignoring m calm s = Calm-ignored s (m s) (calm s)

  pub Calm-answered :
      (s d : EventLoop T) (r : ClientResult A)
      → EventLoop.options d ≡ EventLoop.options s
      → EventLoop.reconnect_attempt d ≡ EventLoop.reconnect_attempt s
      → Calm s (as_outcome r, d)
  Calm-answered s d (accepted a) options attempt = still s d (done a) refl options attempt
  Calm-answered s d (refused e) options attempt = still s d (failed e) refl options attempt

module _ {T : Type 0} where
  Calm-encoded : (s : EventLoop T) (r : Result ℕ × List ℕ) → Calm s (after_encode r s)
  Calm-encoded s (ok len, buf) = still s _ (done len) refl refl refl
  Calm-encoded s (err e, buf) = still s _ (failed _) refl refl refl
  Calm-encoded s (panic, buf) = still s _ panics refl refl refl

  pub IsCalm-encode_tx : (encoder : Exec (List ℕ) ℕ) → IsCalm {T = T} (encode_tx encoder)
  unfolding encode_tx
  IsCalm-encode_tx encoder s = Calm-encoded s (encoder (EventLoop.tx_buf s))

  pub IsCalm-send_status : (status : ConnectionStatus) → IsCalm {T = T} (send_status status)
  unfolding send_status
  IsCalm-send_status status s = still s _ (done tt) refl refl refl

  IsCalm-packet_id_for :
      (qos : QoS) (m : PublishMessage) → IsCalm {T = T} (packet_id_for qos m none)
  unfolding packet_id_for tracked_id note_unacked get_next_packet_id send_answer
  IsCalm-packet_id_for at_most_once m s = still s _ (done none) refl refl refl
  IsCalm-packet_id_for at_least_once m s = still s _ (done (some _)) refl refl refl
  IsCalm-packet_id_for exactly_once m s = still s _ (done (some _)) refl refl refl

  pub IsCalm-set_transport : (b : Bool) → IsCalm {T = T} (set_transport b)
  unfolding set_transport
  IsCalm-set_transport b s = still s _ (done tt) refl refl refl

module _ {T : Type 0} (n : Network T) where
  pub IsCalm-write_tx : (len : ℕ) → IsCalm (write_tx n len)
  unfolding write_tx write_bytes
  IsCalm-write_tx len s =
      Calm-if (ltb (length (EventLoop.tx_buf s)) len) s (panics, s) _
        (still s s panics refl refl refl)
        (Calm-answered s _ (Network.write_all n (take len (EventLoop.tx_buf s)) (EventLoop.net s)).0
          refl refl)

  IsCalm-ignored_write : (len : ℕ) → IsCalm (ignoring (write_tx n len))
  IsCalm-ignored_write len = IsCalm-ignoring (write_tx n len) (IsCalm-write_tx len)

  pub IsCalm-flush : IsCalm (flush n)
  unfolding flush
  IsCalm-flush s = Calm-answered s _ (Network.flush n (EventLoop.net s)).0 refl refl

  pub IsCalm-ignored_flush : IsCalm (ignoring (flush n))
  IsCalm-ignored_flush = IsCalm-ignoring (flush n) IsCalm-flush

  pub IsCalm-touch_tx : IsCalm (touch_tx n)
  IsCalm-touch_tx s = still s _ (done tt) refl refl refl

  IsCalm-transmit : (encoder : Exec (List ℕ) ℕ) → IsCalm (transmit n encoder)
  unfolding transmit
  IsCalm-transmit encoder s =
      Calm-after s (encode_tx encoder s) _ (IsCalm-encode_tx encoder s) (λ len.
        IsCalm-seq (write_tx n len) _ (IsCalm-write_tx len)
          (IsCalm-seq (flush n) (touch_tx n) IsCalm-flush IsCalm-touch_tx))

  Calm-if_encoded :
      (rest : ℕ → Act T (Unit {0})) (s : EventLoop T) (r : Result ℕ × List ℕ)
      → ((len : ℕ) → IsCalm (rest len))
      → Calm s (if_encoded n rest r s)
  Calm-if_encoded rest s (ok len, buf) calm = Calm-further s _ _ refl refl (calm len _)
  Calm-if_encoded rest s (err e, buf) calm = still s _ (done tt) refl refl refl
  Calm-if_encoded rest s (panic, buf) calm = still s _ panics refl refl refl

  IsCalm-written :
      (encoder : Exec (List ℕ) ℕ)
      → IsCalm (when_encoded n encoder (λ len. ignoring (write_tx n len)))
  unfolding when_encoded
  IsCalm-written encoder s =
      Calm-if_encoded (λ len. ignoring (write_tx n len)) s (encoder (EventLoop.tx_buf s))
        IsCalm-ignored_write

  pub IsCalm-resend_all : (es : List (ℕ × Unacked)) → IsCalm (resend_all n es)
  unfolding resend_all resend
  IsCalm-resend_all [] s = still s s (done tt) refl refl refl
  IsCalm-resend_all ((pid, u) ∷ es) s =
      Calm-after s (resend n (pid, u) s) (λ v. resend_all n es) (IsCalm-written _ s)
        (λ v. IsCalm-resend_all es)

  IsCalm-resubscribe : (e : List ℕ × QoS) → IsCalm (resubscribe n e)
  unfolding resubscribe get_next_packet_id
  IsCalm-resubscribe (topic, qos) s = Calm-further s _ _ refl refl (IsCalm-written _ _)

  pub IsCalm-resubscribe_all : (es : List (List ℕ × QoS)) → IsCalm (resubscribe_all n es)
  unfolding resubscribe_all
  IsCalm-resubscribe_all [] = λ s. still s s (done tt) refl refl refl
  IsCalm-resubscribe_all (e ∷ es) =
      IsCalm-seq (resubscribe n e) (resubscribe_all n es) (IsCalm-resubscribe e)
        (IsCalm-resubscribe_all es)

  IsCalm-send_publish_direct : (m : PublishMessage) → IsCalm (send_publish_direct n m none)
  unfolding send_publish_direct
  IsCalm-send_publish_direct m s =
      Calm-after s (packet_id_for (PublishMessage.qos m) m none s) _
        (IsCalm-packet_id_for (PublishMessage.qos m) m s) (λ packet_id. IsCalm-transmit _)

  pub IsCalm-flush_queue : (ms : List PublishMessage) → IsCalm (flush_queue n ms)
  unfolding flush_queue
  IsCalm-flush_queue [] s = still s _ (done tt) refl refl refl
  IsCalm-flush_queue (m ∷ ms) s = Calm-further s _ _ refl refl (
      IsCalm-seq (ignoring (send_publish_direct n m none)) (flush_queue n ms)
        (IsCalm-ignoring (send_publish_direct n m none) (IsCalm-send_publish_direct m))
        (IsCalm-flush_queue ms) (record s { offline_queue = ms }))
