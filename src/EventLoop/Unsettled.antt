-- ===== src/EventLoop/Unsettled.antt =====
-- The table of messages in flight, under what the broker sends.
use mqtt_async_embedded.Prelude.{
  ℕ, ◌≤◌, ◌≡◌, refl, ap, ◌∙◌, Bool, true, false, Option, none, some, List, [], ◌∷◌, ◌++◌, length,
  ltb, if◌then◌else◌, All,
}
use mqtt_async_embedded.Exec.{Result, ok, err, panic}
use mqtt_async_embedded.Types.{
  MqttVersion, QoS, at_most_once, at_least_once, exactly_once, MqttPacket, connect, conn_ack,
  publish, ack, subscribe, sub_reply, unsubscribe, ping_req, ping_resp, disconnect, pub_ack,
  pub_rec, pub_rel, pub_comp, new_ack, sub_ack, unsub_ack,
}
use mqtt_async_embedded.Codec.Ack.{encode_ack}
use mqtt_async_embedded.Codec.Dispatch.RoundTrip.{IsPacket, packet_received}
use mqtt_async_embedded.Frames.Stream.{IsPartial, stream_bytes}
use mqtt_async_embedded.EventLoop.{
  Network, Outcome, done, failed, panics, hangs, EventLoop, Unacked, Answer, Act, after, ◌>>◌,
  version_of, send_answer, write_bytes, write_tx, flush, touch_tx, if_encoded, when_encoded,
}
use mqtt_async_embedded.EventLoop.Reading.{
  IncomingAction, incoming_action, onto, dispatch, send_pub_ack, settle_subscribe,
  settle_unsubscribe, perform_action, perform_actions, handle_read,
}
use mqtt_async_embedded.EventLoop.Streams.{
  HasRead, actions_of, left_with, arrived, handle_read-stream,
}

abbrev pub is_pub_ack : MqttPacket → Bool
is_pub_ack (ack pub_ack p) = true
is_pub_ack p = false

abbrev is_harmless : Option IncomingAction → Bool
is_harmless (some (IncomingAction.pub_ack_of pid)) = false
is_harmless a = true

other-is_harmless :
    (version : MqttVersion) (p : MqttPacket)
    → is_pub_ack p ≡ false
    → is_harmless (incoming_action (packet_received version p)) ≡ true
unfolding incoming_action
other-is_harmless version (connect p) other = refl
other-is_harmless version (conn_ack p) other = refl
other-is_harmless version (publish p) other = refl
other-is_harmless version (ack pub_ack p) other = cc
other-is_harmless version (ack pub_rec p) other = refl
other-is_harmless version (ack pub_rel p) other = refl
other-is_harmless version (ack pub_comp p) other = refl
other-is_harmless version (subscribe p) other = refl
other-is_harmless version (sub_reply sub_ack p) other = refl
other-is_harmless version (sub_reply unsub_ack p) other = refl
other-is_harmless version (unsubscribe p) other = refl
other-is_harmless version ping_req other = refl
other-is_harmless version ping_resp other = refl
other-is_harmless version (disconnect p) other = refl

abbrev KeepsTable : {T A : Type 0} → Act T A → Type 0
KeepsTable {T} m =
    (s : EventLoop T) → EventLoop.inflight_publishes (m s).1 ≡ EventLoop.inflight_publishes s

module _ {T A B : Type 0} where
  table-after :
      (r : Outcome A × EventLoop T) (f : A → Act T B)
      → ((a : A) → KeepsTable (f a))
      → EventLoop.inflight_publishes (after r f).1 ≡ EventLoop.inflight_publishes r.1
  table-after (done a, s) f keeps = keeps a s
  table-after (failed e, s) f keeps = refl
  table-after (panics, s) f keeps = refl
  table-after (hangs, s) f keeps = refl

  KeepsTable-seq : (m : Act T A) (k : Act T B) → KeepsTable m → KeepsTable k → KeepsTable (m >> k)
  KeepsTable-seq m k first rest s = table-after (m s) (λ u. k) (λ u. rest) ∙ first s

module _ {T : Type 0} (n : Network T) where
  table-if :
      (test : Bool) (r d : Outcome (Unit {0}) × EventLoop T) (m : List (ℕ × Unacked))
      → EventLoop.inflight_publishes r.1 ≡ m
      → EventLoop.inflight_publishes d.1 ≡ m
      → EventLoop.inflight_publishes (if test then r else d).1 ≡ m
  table-if true r d m first rest = first
  table-if false r d m first rest = rest

  KeepsTable-write_tx : (len : ℕ) → KeepsTable (write_tx n len)
  unfolding write_tx write_bytes
  KeepsTable-write_tx len s =
      table-if (ltb (length (EventLoop.tx_buf s)) len) (panics, s) _ _ refl refl

  table-if_encoded :
      (rest : ℕ → Act T (Unit {0})) (r : Result ℕ × List ℕ) (s : EventLoop T)
      → ((len : ℕ) → KeepsTable (rest len))
      → EventLoop.inflight_publishes (if_encoded n rest r s).1 ≡ EventLoop.inflight_publishes s
  table-if_encoded rest (ok len, buf) s keeps = keeps len _
  table-if_encoded rest (err e, buf) s keeps = refl
  table-if_encoded rest (panic, buf) s keeps = refl

  KeepsTable-send_pub_ack :
      (qos : QoS) (packet_id : Option ℕ) → KeepsTable (send_pub_ack n qos packet_id)
  unfolding send_pub_ack when_encoded flush
  KeepsTable-send_pub_ack at_least_once (some pid) = λ s.
      table-if_encoded (λ len. write_tx n len >> (flush n >> touch_tx n))
        (encode_ack pub_ack (version_of s) (new_ack pid) (EventLoop.tx_buf s)) s
        (λ len.
          KeepsTable-seq (write_tx n len) (flush n >> touch_tx n) (KeepsTable-write_tx len)
            (KeepsTable-seq (flush n) (touch_tx n) (λ d. refl) (λ d. refl)))
  KeepsTable-send_pub_ack at_least_once none = λ s. refl
  KeepsTable-send_pub_ack at_most_once packet_id = λ s. refl
  KeepsTable-send_pub_ack exactly_once packet_id = λ s. refl

  KeepsTable-send_answer : (k : Option ℕ) (a : Answer) → KeepsTable {T = T} (send_answer k a)
  unfolding send_answer
  KeepsTable-send_answer none a s = refl
  KeepsTable-send_answer (some k) a s = refl

  KeepsTable-perform_action :
      (a : IncomingAction) → is_harmless (some a) ≡ true → KeepsTable (perform_action n a)
  unfolding perform_action settle_subscribe settle_unsubscribe dispatch
  KeepsTable-perform_action (IncomingAction.publish m) other =
      KeepsTable-seq (send_pub_ack n _ _) (dispatch n m) (KeepsTable-send_pub_ack _ _) (λ s. refl)
  KeepsTable-perform_action (IncomingAction.pub_ack_of pid) other = cc
  KeepsTable-perform_action (IncomingAction.sub_ack_of pid) other =
      λ s. KeepsTable-send_answer _ _ _
  KeepsTable-perform_action (IncomingAction.unsub_ack_of pid) other =
      λ s. KeepsTable-send_answer _ _ _
  KeepsTable-perform_action IncomingAction.ping_resp other = λ s. refl
  KeepsTable-perform_action IncomingAction.disconnect other = λ s. refl

  KeepsTable-onto :
      (a : Option IncomingAction) (actions : List IncomingAction)
      → is_harmless a ≡ true
      → KeepsTable (perform_actions n actions)
      → KeepsTable (perform_actions n (onto a actions))
  unfolding perform_actions
  KeepsTable-onto none actions other rest = rest
  KeepsTable-onto (some a) actions other rest =
      KeepsTable-seq (perform_action n a) (perform_actions n actions)
        (KeepsTable-perform_action a other) rest

  KeepsTable-actions_of :
      (version : MqttVersion) (ps : List MqttPacket)
      → All (λ p. is_pub_ack p ≡ false) ps
      → KeepsTable (perform_actions n (actions_of version ps))
  KeepsTable-actions_of version [] others = unfold perform_actions in λ s. refl
  KeepsTable-actions_of version (p ∷ ps) (other, others) =
      KeepsTable-onto (incoming_action (packet_received version p)) (actions_of version ps)
        (other-is_harmless version p other) (KeepsTable-actions_of version ps others)

  -- Whatever packets a read brings, if none of them is a PUBACK, every message in flight is in flight
  -- after it, as before. The read leaves in the buffer the bytes of packets that the wire can hold and a
  -- part of another one from which nothing can be taken. So PUBREC and PUBCOMP, which complete a
  -- message of QoS 2, settle none.
  pub handle_read-unsettled :
      (count : ℕ) (ps : List MqttPacket) (tail : List ℕ) (s : EventLoop T)
      → 1 ≤ count
      → HasRead (stream_bytes (version_of s) ps ++ tail) (arrived count s)
      → All (IsPacket (version_of s)) ps
      → IsPartial tail
      → All (λ p. is_pub_ack p ≡ false) ps
      → EventLoop.inflight_publishes (handle_read n count s).1 ≡ EventLoop.inflight_publishes s
  handle_read-unsettled count ps tail s some_read read good partial others =
      ap (λ r. EventLoop.inflight_publishes r.1)
        (handle_read-stream n count ps tail s some_read read good partial)
      ∙ KeepsTable-actions_of (version_of s) ps others (left_with tail (arrived count s))
