-- ===== src/EventLoop/Invariant/Reading.antt =====
-- The invariant over a read and what is done for it.
use mqtt_async_embedded.Prelude.{
  ℕ, ◌+◌, ◌≤◌, ◌≡◌, refl, ◌∙◌, Option, none, some, List, [], ◌∷◌, ◌++◌, length, take, drop, ltb,
  ◌==◌, length-append, length-take, length-drop, arith, Bool-cases, inl, inr,
}
use mqtt_async_embedded.Types.{QoS, at_most_once, at_least_once, exactly_once, pub_ack, new_ack}
use mqtt_async_embedded.Codec.Ack.{encode_ack}
use mqtt_async_embedded.ClientTypes.{PublishMessage, ClientResult, accepted, refused}
use mqtt_async_embedded.Maps
use mqtt_async_embedded.Maps.Laws.{remove-IsTable}
use mqtt_async_embedded.EventLoop.{
  Network, EventLoop, unit_answer, id_answer, ◌>>=◌, ◌>>◌, as_outcome, write_tx, flush, touch_tx,
  version_of,
}
use mqtt_async_embedded.EventLoop.Reading.{
  IncomingAction, ReadFrames, parsed, bad_packet, parse_panics, parse_endless, parse_read,
  sender_of, dispatch, send_pub_ack, settle_publish, settle_subscribe, settle_unsubscribe,
  perform_action, perform_actions, discard, handle_parsed, handle_read, read_rx, on_readable,
}
use mqtt_async_embedded.EventLoop.Invariant.{
  IsEntry, IsLoop, ReadsInside, Keeps, Keeps-seq, same_parts, Keeps-send_answer, Keeps-write_tx,
  Keeps-flushed, Keeps-when_encoded,
}

-- A part of a list behind its first items, put back before the items that follow so many.
length-kept :
    (cursor consumed : ℕ) (buf : List ℕ)
    → cursor ≤ length buf
    → length
        (drop consumed (take cursor buf) ++ drop (length (drop consumed (take cursor buf))) buf)
      ≡ length buf
length-kept cursor consumed buf h =
    let kept = drop consumed (take cursor buf) in
    omega (
      arith,
      length-append {0} kept (drop (length kept) buf),
      length-drop {A = ℕ} (length kept) buf,
      length-drop {A = ℕ} consumed (take cursor buf),
      length-take {A = ℕ} cursor buf h,
    )

module _ {T : Type 0} (size : ℕ) (n : Network T) where
  Keeps-send_pub_ack : (q : QoS) (pid : Option ℕ) → Keeps size (send_pub_ack n q pid)
  unfolding send_pub_ack
  Keeps-send_pub_ack at_least_once (some pid) = λ s v.
      Keeps-when_encoded size n (encode_ack pub_ack (version_of s) (new_ack pid)) _
        (λ len.
          Keeps-seq size (write_tx n len) (flush n >> touch_tx n) (Keeps-write_tx size n len)
            (Keeps-flushed size n))
        s v
  Keeps-send_pub_ack at_least_once none = λ s v. v
  Keeps-send_pub_ack at_most_once pid = λ s v. v
  Keeps-send_pub_ack exactly_once pid = λ s v. v

  Keeps-dispatch : (m : PublishMessage) → Keeps size (dispatch n m)
  unfolding dispatch
  Keeps-dispatch m s v = same_parts size s _ refl refl refl refl v

  Keeps-settle_publish : (pid : ℕ) → Keeps size (settle_publish n pid)
  unfolding settle_publish
  Keeps-settle_publish pid s v =
      Keeps-send_answer size (sender_of n (Maps.find ◌==◌ pid (EventLoop.inflight_publishes s)))
        (unit_answer (accepted tt)) _
        (record {
          id_positive = IsLoop.id_positive v;
          id_u16 = IsLoop.id_u16 v;
          table = remove-IsTable IsEntry pid (EventLoop.inflight_publishes s) (IsLoop.table v);
          buffer = IsLoop.buffer v;
          cursor = IsLoop.cursor v;
        })

  Keeps-settle_subscribe : (pid : ℕ) → Keeps size (settle_subscribe n pid)
  unfolding settle_subscribe
  Keeps-settle_subscribe pid s v =
      Keeps-send_answer size (Maps.find ◌==◌ pid (EventLoop.inflight_subscribes s))
        (id_answer (accepted pid)) _ (same_parts size s _ refl refl refl refl v)

  Keeps-settle_unsubscribe : (pid : ℕ) → Keeps size (settle_unsubscribe n pid)
  unfolding settle_unsubscribe
  Keeps-settle_unsubscribe pid s v =
      Keeps-send_answer size (Maps.find ◌==◌ pid (EventLoop.inflight_unsubscribes s))
        (id_answer (accepted pid)) _ (same_parts size s _ refl refl refl refl v)

  Keeps-perform_action : (a : IncomingAction) → Keeps size (perform_action n a)
  unfolding perform_action
  Keeps-perform_action (IncomingAction.publish m) =
      Keeps-seq size (send_pub_ack n (PublishMessage.qos m) (PublishMessage.packet_id m))
        (dispatch n m) (Keeps-send_pub_ack (PublishMessage.qos m) (PublishMessage.packet_id m))
        (Keeps-dispatch m)
  Keeps-perform_action (IncomingAction.pub_ack_of pid) = Keeps-settle_publish pid
  Keeps-perform_action (IncomingAction.sub_ack_of pid) = Keeps-settle_subscribe pid
  Keeps-perform_action (IncomingAction.unsub_ack_of pid) = Keeps-settle_unsubscribe pid
  Keeps-perform_action IncomingAction.ping_resp = λ s v. v
  Keeps-perform_action IncomingAction.disconnect = λ s v. v

  Keeps-perform_actions : (as' : List IncomingAction) → Keeps size (perform_actions n as')
  unfolding perform_actions
  Keeps-perform_actions [] = λ s v. v
  Keeps-perform_actions (a ∷ rest) =
      Keeps-seq size (perform_action n a) (perform_actions n rest) (Keeps-perform_action a)
        (Keeps-perform_actions rest)

  Keeps-discard : (consumed : ℕ) → Keeps size (discard n consumed)
  unfolding discard
  Keeps-discard consumed s v = elim (Bool-cases (ltb 0 consumed)) [
    | inl some_bytes ↦ elim (Bool-cases (ltb (EventLoop.rx_cursor s) consumed)) [
      | inl over ↦ rw (some_bytes, over) v
      | inr inside ↦
          rw (some_bytes, inside)
            (record {
              id_positive = IsLoop.id_positive v;
              id_u16 = IsLoop.id_u16 v;
              table = IsLoop.table v;
              buffer =
                  length-kept (EventLoop.rx_cursor s) consumed (EventLoop.rx_buf s)
                    (omega (arith, IsLoop.cursor v, IsLoop.buffer v))
                  ∙ IsLoop.buffer v;
              cursor = omega (arith, IsLoop.cursor v);
            })
    ]
    | inr nothing ↦ rw nothing v
  ]

  Keeps-handle_parsed : (r : ReadFrames) → Keeps size (handle_parsed n r)
  unfolding handle_parsed
  Keeps-handle_parsed (parsed actions consumed) =
      Keeps-seq size (discard n consumed) (perform_actions n actions) (Keeps-discard consumed)
        (Keeps-perform_actions actions)
  Keeps-handle_parsed bad_packet = λ s v. v
  Keeps-handle_parsed parse_panics = λ s v. v
  Keeps-handle_parsed parse_endless = λ s v. v

  -- The cursor behind a read that lies in the buffer.
  moved :
      (s : EventLoop T) (cursor : ℕ)
      → cursor ≤ size
      → IsLoop size s
      → IsLoop size (record s { rx_cursor = cursor })
  moved s cursor h v = record {
    id_positive = IsLoop.id_positive v;
    id_u16 = IsLoop.id_u16 v;
    table = IsLoop.table v;
    buffer = IsLoop.buffer v;
    cursor = h;
  }

  handle_read-IsLoop :
      (count : ℕ) (s : EventLoop T)
      → EventLoop.rx_cursor s + count ≤ size
      → IsLoop size s
      → IsLoop size (handle_read n count s).1
  unfolding handle_read
  handle_read-IsLoop count s h v = elim (Bool-cases (count == 0)) [
    | inl ended ↦ rw ended v
    | inr more ↦
        elim (Bool-cases (ltb (length (EventLoop.rx_buf s)) (EventLoop.rx_cursor s + count))) [
          | inl over ↦ rw (more, over) (moved s (EventLoop.rx_cursor s + count) h v)
          | inr inside ↦
              rw (more, inside)
                (Keeps-handle_parsed
                  (parse_read (version_of s)
                    (take (EventLoop.rx_cursor s + count) (EventLoop.rx_buf s)))
                  _ (moved s (EventLoop.rx_cursor s + count) h v))
        ]
  ]

  pub Keeps-on_readable : ReadsInside n → Keeps size (on_readable n)
  unfolding on_readable read_rx
  Keeps-on_readable law s v =
      elim (Bool-cases (ltb (length (EventLoop.rx_buf s)) (EventLoop.rx_cursor s))) [
        | inl over ↦ rw over v
        | inr inside ↦ rw inside (
            go
              (Network.read n (drop (EventLoop.rx_cursor s) (EventLoop.rx_buf s))
                (EventLoop.net s)).0
              refl)
      ]
    where
      slice : List ℕ
      slice = drop (EventLoop.rx_cursor s) (EventLoop.rx_buf s)

      after_read : EventLoop T
      after_read = record s {
        rx_buf =
            take (EventLoop.rx_cursor s) (EventLoop.rx_buf s)
            ++ (Network.read n slice (EventLoop.net s)).1;
        net = (Network.read n slice (EventLoop.net s)).2;
      }

      after_read-IsLoop : IsLoop size after_read
      after_read-IsLoop = record {
        id_positive = IsLoop.id_positive v;
        id_u16 = IsLoop.id_u16 v;
        table = IsLoop.table v;
        buffer = omega (
          arith,
          IsLoop.buffer v,
          IsLoop.cursor v,
          length-append {0} (take (EventLoop.rx_cursor s) (EventLoop.rx_buf s))
              (Network.read n slice (EventLoop.net s)).1,
          length-take {A = ℕ} (EventLoop.rx_cursor s) (EventLoop.rx_buf s)
              (omega (arith, IsLoop.cursor v, IsLoop.buffer v)),
          length-drop {A = ℕ} (EventLoop.rx_cursor s) (EventLoop.rx_buf s),
          ReadsInside.keeps_slice law slice (EventLoop.net s),
        );
        cursor = IsLoop.cursor v;
      }

      go :
          (r : ClientResult ℕ)
          → (Network.read n slice (EventLoop.net s)).0 ≡ r
          → IsLoop size (((λ (d : EventLoop T). (as_outcome r, d)) >>= handle_read n) after_read).1
      go (accepted count) e =
          handle_read-IsLoop count after_read
            (omega (
              arith,
              ReadsInside.inside law slice (EventLoop.net s) count e,
              length-drop {A = ℕ} (EventLoop.rx_cursor s) (EventLoop.rx_buf s),
              IsLoop.buffer v,
              IsLoop.cursor v,
            ))
            after_read-IsLoop
      go (refused e) h = after_read-IsLoop
