-- ===== src/EventLoop/Recovery/Steps.antt =====
-- Actions whose writes are known whatever the network answers to them.
use mqtt_async_embedded.Prelude.{
  ℕ, ◌≤◌, ◌≡◌, refl, sym, ap, ◌∙◌, false, List, [], ◌∷◌, ◌++◌, length, ltb, arith, append-nil,
  subst, append_assoc, take-length-append, length-append,
}
use mqtt_async_embedded.Exec.{Exec}
use mqtt_async_embedded.Codec.Frame.Encodes.{Encodes}
use mqtt_async_embedded.ClientTypes.{PublishMessage, ClientResult, accepted, refused}
use mqtt_async_embedded.EventLoop.{
  Network, Outcome, done, EventLoop, Act, after, ◌>>◌, ignored, ignoring, encode_tx, as_outcome,
  write_bytes, write_tx, flush, touch_tx, transmit, when_encoded,
}

-- What a step leaves alone, the frames it writes, and the next id and the queue behind it.
pub record Step {T : Type 0} (s d : EventLoop T) (frames : List (List ℕ)) (next : ℕ)
    (kept : List PublishMessage) : Type 0 where
  pub written : EventLoop.written d ≡ EventLoop.written s ++ frames
  pub room : length (EventLoop.tx_buf d) ≡ length (EventLoop.tx_buf s)
  pub options : EventLoop.options d ≡ EventLoop.options s
  pub subscriptions : EventLoop.active_subscriptions d ≡ EventLoop.active_subscriptions s
  pub id : EventLoop.next_packet_id d ≡ next
  pub queue : EventLoop.offline_queue d ≡ kept

-- A result that is `Ok(())`, and the step to it.
pub record Did {T : Type 0} (s : EventLoop T) (r : Outcome (Unit {0}) × EventLoop T)
    (frames : List (List ℕ)) (next : ℕ) (kept : List PublishMessage) : Type 0 where
  pub ends : r.0 ≡ done tt
  pub step : Step s r.1 frames next kept

module _ {T : Type 0} where
  pub nothing :
      (s : EventLoop T) → Step s s [] (EventLoop.next_packet_id s) (EventLoop.offline_queue s)
  nothing s = record {
    written = sym (append-nil (EventLoop.written s));
    room = refl;
    options = refl;
    subscriptions = refl;
    id = refl;
    queue = refl;
  }

  pub Did-nothing :
      (s : EventLoop T)
      → Did s (done tt, s) [] (EventLoop.next_packet_id s) (EventLoop.offline_queue s)
  Did-nothing s = record { ends = refl; step = nothing s }

  pub Step-trans :
      (s d e : EventLoop T) (xs ys : List (List ℕ)) (i j : ℕ) (q r : List PublishMessage)
      → Step s d xs i q
      → Step d e ys j r
      → Step s e (xs ++ ys) j r
  Step-trans s d e xs ys i j q r first rest = record {
    written =
        rest.written ∙ ap (λ w. w ++ ys) first.written ∙ append_assoc (EventLoop.written s) xs ys;
    room = rest.room ∙ first.room;
    options = rest.options ∙ first.options;
    subscriptions = rest.subscriptions ∙ first.subscriptions;
    id = rest.id;
    queue = rest.queue;
  }

  -- What holds from a state with the same log, buffer, options and subscriptions.
  pub Did-from :
      (s d : EventLoop T) (r : Outcome (Unit {0}) × EventLoop T) (xs : List (List ℕ)) (i : ℕ)
      (q : List PublishMessage)
      → Step s d [] (EventLoop.next_packet_id d) (EventLoop.offline_queue d)
      → Did d r xs i q
      → Did s r xs i q
  Did-from s d r xs i q step did = record {
    ends = did.ends;
    step = Step-trans s d r.1 [] xs _ i _ q step did.step;
  }

  -- One after the other.
  pub Did-after :
      (s : EventLoop T) (r : Outcome (Unit {0}) × EventLoop T) (k : Act T (Unit {0}))
      (xs ys : List (List ℕ)) (i j : ℕ) (q p : List PublishMessage)
      → Did s r xs i q
      → Did r.1 (k r.1) ys j p
      → Did s (after r (λ u. k)) (xs ++ ys) j p
  Did-after s r k xs ys i j q p first rest =
      let both = ap (λ o. after (o, r.1) (λ u. k)) first.ends in
      record {
        ends = ap (λ x. x.0) both ∙ rest.ends;
        step =
            subst (λ x. Step s x.1 (xs ++ ys) j p) (sym both)
              (Step-trans s r.1 (k r.1).1 xs ys i j q p first.step rest.step);
      }

pub ltb_append : (xs ys : List ℕ) → ltb (length (xs ++ ys)) (length xs) ≡ false
ltb_append xs ys = ground (arith, length-append xs ys)

module _ {T : Type 0} (n : Network T) (s : EventLoop T) where
  ignored_touch :
      (d : EventLoop T) (xs : List (List ℕ)) (i : ℕ) (q : List PublishMessage)
      (r : ClientResult (Unit {0}))
      → Step s d xs i q
      → Did s (ignored (after (as_outcome r, d) (λ u. touch_tx n))) xs i q
  ignored_touch d xs i q (accepted u) step = record {
    ends = refl;
    step = record {
      written = step.written;
      room = step.room;
      options = step.options;
      subscriptions = step.subscriptions;
      id = step.id;
      queue = step.queue;
    };
  }
  ignored_touch d xs i q (refused e) step = record { ends = refl; step = step }

  -- Whatever the flush and the write answer, what was written is known.
  ignored_flush :
      (d : EventLoop T) (xs : List (List ℕ)) (i : ℕ) (q : List PublishMessage)
      (r : ClientResult (Unit {0}))
      → Step s d xs i q
      → Did s (ignored (after (as_outcome r, d) (λ u. flush n >> touch_tx n))) xs i q
  unfolding flush
  ignored_flush d xs i q (accepted u) step =
      ignored_touch _ xs i q (Network.flush n (EventLoop.net d)).0 (record {
        written = step.written;
        room = step.room;
        options = step.options;
        subscriptions = step.subscriptions;
        id = step.id;
        queue = step.queue;
      })
  ignored_flush d xs i q (refused e) step = record { ends = refl; step = step }

  ignored_result :
      (d : EventLoop T) (xs : List (List ℕ)) (i : ℕ) (q : List PublishMessage)
      (r : ClientResult (Unit {0}))
      → Step s d xs i q
      → Did s (ignored (as_outcome r, d)) xs i q
  ignored_result d xs i q (accepted u) step = record { ends = refl; step = step }
  ignored_result d xs i q (refused e) step = record { ends = refl; step = step }

  pub Did-flush :
      Did s (ignoring (flush n) s) [] (EventLoop.next_packet_id s) (EventLoop.offline_queue s)
  unfolding flush
  Did-flush = ignored_result _ [] _ _ (Network.flush n (EventLoop.net s)).0 (record {
    written = sym (append-nil (EventLoop.written s));
    room = refl;
    options = refl;
    subscriptions = refl;
    id = refl;
    queue = refl;
  })

  module _ (encoder : Exec (List ℕ) ℕ) (bytes : List ℕ) (need : ℕ)
      (encodes : Encodes encoder bytes need) (room : need ≤ length (EventLoop.tx_buf s)) where
    -- A packet that is encoded and written, by `if let Ok(len)`.
    pub Did-when_encoded :
        Did s
          (when_encoded n encoder (λ len. ignoring (write_tx n len)) s)
          (bytes ∷ [])
          (EventLoop.next_packet_id s)
          (EventLoop.offline_queue s)
    unfolding when_encoded write_tx write_bytes
    Did-when_encoded =
        let (junk, encoded, size) = encodes.fits (EventLoop.tx_buf s) room in
        rw (encoded, ltb_append bytes junk, take-length-append bytes junk)
          (ignored_result _ (bytes ∷ []) _ _ (Network.write_all n bytes (EventLoop.net s)).0
            (record {
              written = refl;
              room = size;
              options = refl;
              subscriptions = refl;
              id = refl;
              queue = refl;
            }))

    -- A packet that is encoded, written and flushed, whose result is not looked at.
    pub Did-transmit :
        Did s
          (ignoring (transmit n encoder) s)
          (bytes ∷ [])
          (EventLoop.next_packet_id s)
          (EventLoop.offline_queue s)
    unfolding transmit encode_tx write_tx write_bytes
    Did-transmit =
        let (junk, encoded, size) = encodes.fits (EventLoop.tx_buf s) room in
        rw (encoded, ltb_append bytes junk, take-length-append bytes junk)
          (ignored_flush _ (bytes ∷ []) _ _ (Network.write_all n bytes (EventLoop.net s)).0
            (record {
              written = refl;
              room = size;
              options = refl;
              subscriptions = refl;
              id = refl;
              queue = refl;
            }))
