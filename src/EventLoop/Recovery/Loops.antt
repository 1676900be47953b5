-- ===== src/EventLoop/Recovery/Loops.antt =====
-- The loops of `perform_session_data_recovery`.
use mqtt_async_embedded.Prelude.{
  ℕ, ◌≤◌, ◌≡◌, refl, sym, ap, ◌∙◌, none, List, [], ◌∷◌, length, append-nil, subst,
}
use mqtt_async_embedded.Types.{MqttPacket, QoS, at_most_once, at_least_once, exactly_once, publish}
use mqtt_async_embedded.Codec.Publish.{encode_publish}
use mqtt_async_embedded.Codec.Publish.RoundTrip.{Encodes-publish}
use mqtt_async_embedded.Codec.Subscribe.RoundTrip.{Encodes-subscribe}
use mqtt_async_embedded.Codec.Dispatch.RoundTrip.{IsPacket, packet_bytes}
use mqtt_async_embedded.Codec.Dispatch.Buffers.{buffer_need}
use mqtt_async_embedded.ClientTypes.{PublishMessage}
use mqtt_async_embedded.Options.{ClientOptions}
use mqtt_async_embedded.EmbeddedClient.{id_after}
use mqtt_async_embedded.EventLoop.{
  Network, Outcome, EventLoop, Unacked, ◌>>=◌, ignoring, version_of, get_next_packet_id,
  send_answer, transmit,
}
use mqtt_async_embedded.EventLoop.Sending.{
  publish_packet, note_unacked, tracked_id, packet_id_for, send_publish_direct,
}
use mqtt_async_embedded.EventLoop.Connecting.{
  resend, resend_all, resubscribe, resubscribe_all, flush_queue,
}
use mqtt_async_embedded.EventLoop.Recovery.Steps.{
  Step, Did, Did-nothing, Did-after, Did-from, Did-when_encoded, Did-transmit,
}
use mqtt_async_embedded.EventLoop.Recovery.{
  resent, resubscribed, resubscriptions, ids_after, id_of, id_behind, queued, id_behind_all, frames,
  AllFit, all_resent,
}

-- Where the recovery stands.
pub record IsAt {T : Type 0} (o : ClientOptions) (size id : ℕ) (queue : List PublishMessage)
    (s : EventLoop T) : Type 0 where
  pub options : EventLoop.options s ≡ o
  pub room : length (EventLoop.tx_buf s) ≡ size
  pub next : EventLoop.next_packet_id s ≡ id
  pub kept : EventLoop.offline_queue s ≡ queue

abbrev Fits : ClientOptions → ℕ → MqttPacket → Type 0
Fits o size p =
    IsPacket (ClientOptions.version o) p × (buffer_need (ClientOptions.version o) p ≤ size)

module _ {T : Type 0} (o : ClientOptions) (size : ℕ) where
  pub Step-IsAt :
      (s d : EventLoop T) (xs : List (List ℕ)) (i j : ℕ) (q r : List PublishMessage)
      → IsAt o size i q s
      → Step s d xs j r
      → IsAt o size j r d
  Step-IsAt s d xs i j q r at step = record {
    options = step.options ∙ at.options;
    room = step.room ∙ at.room;
    next = step.id;
    kept = step.queue;
  }

  -- One packet, which bears the next id, and after which that moves on.
  Did-packet :
      (s : EventLoop T) (r : Outcome (Unit {0}) × EventLoop T) (p : ℕ → MqttPacket) (next : ℕ → ℕ)
      (i : ℕ) (q : List PublishMessage)
      → IsAt o size i q s
      → Fits o size (p i)
      → (Fits (EventLoop.options s) (length (EventLoop.tx_buf s)) (p (EventLoop.next_packet_id s))
          → Did s r
              (packet_bytes (version_of s) (p (EventLoop.next_packet_id s)) ∷ [])
              (next (EventLoop.next_packet_id s))
              (EventLoop.offline_queue s))
      → Did s r (packet_bytes (ClientOptions.version o) (p i) ∷ []) (next i) q
  Did-packet s r p next i q at =
      subst
        (λ o.
          Fits o size (p i)
          → (Fits (EventLoop.options s) (length (EventLoop.tx_buf s))
                (p (EventLoop.next_packet_id s))
              → Did s r (packet_bytes (version_of s) (p (EventLoop.next_packet_id s)) ∷ [])
                  (next (EventLoop.next_packet_id s)) (EventLoop.offline_queue s))
          → Did s r (packet_bytes (ClientOptions.version o) (p i) ∷ []) (next i) q)
        at.options (rw (sym at.room, sym at.next, sym at.kept) (λ fits own. own fits))

-- Between two states with the same log, buffer, options and subscriptions nothing is written.
pub unlogged :
    {T : Type 0}
    → (s d : EventLoop T) → EventLoop.written d ≡ EventLoop.written s
    → EventLoop.tx_buf d ≡ EventLoop.tx_buf s
    → EventLoop.options d ≡ EventLoop.options s
    → EventLoop.active_subscriptions d ≡ EventLoop.active_subscriptions s
    → Step s d [] (EventLoop.next_packet_id d) (EventLoop.offline_queue d)
unlogged s d written room options subscriptions = record {
  written = written ∙ sym (append-nil (EventLoop.written s));
  room = ap length room;
  options = options;
  subscriptions = subscriptions;
  id = refl;
  queue = refl;
}

module _ {T : Type 0} (n : Network T) (o : ClientOptions) (size : ℕ) where
  pub Did-resend_all :
      (es : List (ℕ × Unacked)) (s : EventLoop T) (i : ℕ) (q : List PublishMessage)
      → IsAt o size i q s
      → AllFit (ClientOptions.version o) size (all_resent es)
      → Did s (resend_all n es s) (frames (ClientOptions.version o) (all_resent es)) i q
  unfolding resend_all
  Did-resend_all [] s i q at fits = rw (sym at.next, sym at.kept) (Did-nothing s)
  Did-resend_all ((pid, u) ∷ es) s i q at (one, fits) =
      let first =
        Did-packet o size s (resend n (pid, u) s) (λ j. resent (pid, u)) (λ j. j) i q at one
          (unfold resend packet_bytes in
            λ (good, room).
              Did-when_encoded n s _ _ _ (Encodes-publish (version_of s) _ good) room) in
      let rest =
        Did-resend_all es (resend n (pid, u) s).1 i q (Step-IsAt o size s _ _ i i q q at first.step)
          fits in
      Did-after s (resend n (pid, u) s) (resend_all n es) _ _ _ _ _ _ first rest

  -- The id has moved on before the packet is written.
  Did-resubscribe :
      (e : List ℕ × QoS) (s : EventLoop T)
      → Fits
          (EventLoop.options s)
          (length (EventLoop.tx_buf s))
          (resubscribed (EventLoop.next_packet_id s) e)
      → Did s
          (resubscribe n e s)
          (packet_bytes (version_of s) (resubscribed (EventLoop.next_packet_id s) e) ∷ [])
          (id_after (EventLoop.next_packet_id s))
          (EventLoop.offline_queue s)
  unfolding resubscribe get_next_packet_id packet_bytes
  Did-resubscribe (topic, qos) s (good, room) =
      let s' = record s { next_packet_id = id_after (EventLoop.next_packet_id s) } in
      Did-from s s' _ _ _ _ (unlogged s s' refl refl refl refl)
        (Did-when_encoded n s' _ _ _ (Encodes-subscribe (version_of s) _ good) room)

  pub Did-resubscribe_all :
      (es : List (List ℕ × QoS)) (s : EventLoop T) (i : ℕ) (q : List PublishMessage)
      → IsAt o size i q s
      → AllFit (ClientOptions.version o) size (resubscriptions i es)
      → Did s
          (resubscribe_all n es s)
          (frames (ClientOptions.version o) (resubscriptions i es))
          (ids_after es i)
          q
  unfolding resubscribe_all
  Did-resubscribe_all [] s i q at fits = rw (sym at.next, sym at.kept) (Did-nothing s)
  Did-resubscribe_all (e ∷ es) s i q at (one, fits) =
      let first =
        Did-packet o size s (resubscribe n e s) (λ j. resubscribed j e) id_after i q at one
          (Did-resubscribe e s) in
      let rest =
        Did-resubscribe_all es (resubscribe n e s).1 (id_after i) q
          (Step-IsAt o size s _ _ i (id_after i) q q at first.step) fits in
      Did-after s (resubscribe n e s) (resubscribe_all n es) _ _ _ _ _ _ first rest

  -- A message of the queue, with the id that its QoS makes it get.
  Did-queued :
      (m : PublishMessage) (qos : QoS) (s : EventLoop T)
      → Fits
          (EventLoop.options s)
          (length (EventLoop.tx_buf s))
          (publish (publish_packet m (id_of qos (EventLoop.next_packet_id s))))
      → Did s
          (ignoring
            (packet_id_for qos m none >>= λ packet_id.
              transmit n (encode_publish (version_of s) (publish_packet m packet_id)))
            s)
          (packet_bytes
              (version_of s)
              (publish (publish_packet m (id_of qos (EventLoop.next_packet_id s))))
            ∷ [])
          (id_behind qos (EventLoop.next_packet_id s))
          (EventLoop.offline_queue s)
  unfolding packet_id_for send_answer tracked_id note_unacked get_next_packet_id packet_bytes
  Did-queued m at_most_once s (good, room) =
      Did-transmit n s _ _ _ (Encodes-publish (version_of s) _ good) room
  Did-queued m at_least_once s (good, room) =
      Did-from s _ _ _ _ _ (unlogged s _ refl refl refl refl)
        (Did-transmit n _ _ _ _ (Encodes-publish (version_of s) _ good) room)
  Did-queued m exactly_once s (good, room) =
      Did-from s _ _ _ _ _ (unlogged s _ refl refl refl refl)
        (Did-transmit n _ _ _ _ (Encodes-publish (version_of s) _ good) room)

  pub Did-flush_queue :
      (ms : List PublishMessage) (s : EventLoop T) (i : ℕ) (q : List PublishMessage)
      → IsAt o size i q s
      → AllFit (ClientOptions.version o) size (queued i ms)
      → Did s
          (flush_queue n ms s)
          (frames (ClientOptions.version o) (queued i ms))
          (id_behind_all i ms)
          []
  unfolding flush_queue
  Did-flush_queue [] s i q at fits = record {
    ends = refl;
    step = record {
      written = sym (append-nil (EventLoop.written s));
      room = refl;
      options = refl;
      subscriptions = refl;
      id = at.next;
      queue = refl;
    };
  }
  Did-flush_queue (m ∷ ms) s i q at (one, fits) =
      let s' = record s { offline_queue = ms } in
      let at' : IsAt o size i ms s' = record {
        options = at.options;
        room = at.room;
        next = at.next;
        kept = refl;
      } in
      let d = ignoring (send_publish_direct n m none) s' in
      let first =
        Did-packet o size s' d (λ j. publish (publish_packet m (id_of (PublishMessage.qos m) j)))
          (id_behind (PublishMessage.qos m)) i ms at' one
          (unfold send_publish_direct in Did-queued m (PublishMessage.qos m) s') in
      let rest =
        Did-flush_queue ms d.1 (id_behind (PublishMessage.qos m) i) ms
          (Step-IsAt o size s' _ _ i _ ms ms at' first.step) fits in
      Did-from s s' _ _ _ _ (unlogged s s' refl refl refl refl)
        (Did-after s' d (flush_queue n ms) _ _ _ _ _ _ first rest)
