-- ===== src/EventLoop/Invariant.antt =====
-- The packet ids, the table of messages in flight and the receive buffer of the event loop: the
-- invariant, and the actions of which the others are made.
pub mod Sending
pub mod Reading
pub mod Connecting
pub mod Runs
use mqtt_async_embedded.Prelude.{
  ℕ, ◌+◌, ◌-◌, ◌≤◌, ◌<◌, ◌≡◌, refl, Bool, true, false, Option, none, some, List, [], ◌∷◌, ◌++◌,
  length, take, drop, ltb, if◌then◌else◌, arith, Bool-cases, inl, inr,
}
use mqtt_async_embedded.Exec.{Result, ok, err, panic, Exec}
use mqtt_async_embedded.ClientTypes.{
  PublishMessage, ClientError, ClientResult, accepted, refused, ConnectionStatus,
}
use mqtt_async_embedded.Maps.Laws.{IsTable}
use mqtt_async_embedded.EmbeddedClient.{id_after}
use mqtt_async_embedded.EventLoop.{
  Network, Outcome, done, failed, panics, hangs, EventLoop, Unacked, Answer, Act, answer, fail,
  after, ◌>>=◌, ◌>>◌, ignored, ignoring, after_encode, encode_tx, as_outcome, get_next_packet_id,
  send_answer, send_status, write_bytes, write_tx, flush, touch_tx, transmit, if_encoded,
  when_encoded,
}

-- A message in flight bears the id under which it stands in the table.
pub record IsEntry (pid : ℕ) (u : Unacked) : Type 0 where
  pub positive : 1 ≤ pid
  pub u16 : pid < 65536
  pub bears : PublishMessage.packet_id (Unacked.message u) ≡ some pid

-- The next id is a u16 and not 0, the table of messages in flight holds no id twice, and the bytes
-- that wait for the rest of their packet lie in the receive buffer, which has its size.
pub record IsLoop {T : Type 0} (size : ℕ) (s : EventLoop T) : Type 0 where
  pub id_positive : 1 ≤ EventLoop.next_packet_id s
  pub id_u16 : EventLoop.next_packet_id s < 65536
  pub table : IsTable IsEntry (EventLoop.inflight_publishes s)
  pub buffer : length (EventLoop.rx_buf s) ≡ size
  pub cursor : EventLoop.rx_cursor s ≤ size

-- A read keeps the length of its slice, and gives at most as many bytes.
pub record ReadsInside {T : Type 0} (n : Network T) : Type 0 where
  pub keeps_slice : (slice : List ℕ) (t : T) → length (Network.read n slice t).1 ≡ length slice
  pub inside :
      (slice : List ℕ) (t : T) (count : ℕ)
      → (Network.read n slice t).0 ≡ accepted count
      → count ≤ length slice
  pub keeps_buffer : (buf : List ℕ) (t : T) → length (Network.read_in_time n buf t).1 ≡ length buf

abbrev pub Keeps : {T A : Type 0} → ℕ → Act T A → Type 0
Keeps {T} size m = (s : EventLoop T) → IsLoop size s → IsLoop size (m s).1

pub id_after_range : (id : ℕ) → (1 ≤ id_after id) × (id_after id < 65536)
unfolding id_after
id_after_range id = ground arith

module _ {T A B : Type 0} (size : ℕ) where
  pub after-IsLoop :
      (r : Outcome A × EventLoop T) (f : A → Act T B)
      → IsLoop size r.1
      → ((a : A) → Keeps size (f a))
      → IsLoop size (after r f).1
  after-IsLoop (done a, s) f v keeps = keeps a s v
  after-IsLoop (failed e, s) f v keeps = v
  after-IsLoop (panics, s) f v keeps = v
  after-IsLoop (hangs, s) f v keeps = v

  pub Keeps-bind :
      (m : Act T A) (f : A → Act T B)
      → Keeps size m
      → ((a : A) → Keeps size (f a))
      → Keeps size (m >>= f)
  Keeps-bind m f first rest s v = after-IsLoop (m s) f (first s v) rest

  pub Keeps-seq : (m : Act T A) (k : Act T B) → Keeps size m → Keeps size k → Keeps size (m >> k)
  Keeps-seq m k first rest = Keeps-bind m (λ _. k) first (λ _. rest)

module _ {T A : Type 0} (size : ℕ) where
  pub Keeps-if :
      (test : Bool) (m k : Act T A)
      → Keeps size m
      → Keeps size k
      → Keeps size (if test then m else k)
  Keeps-if true m k first rest = first
  Keeps-if false m k first rest = rest

  pub if-IsLoop :
      (test : Bool) (r d : Outcome A × EventLoop T)
      → IsLoop size r.1
      → IsLoop size d.1
      → IsLoop size (if test then r else d).1
  if-IsLoop true r d first rest = first
  if-IsLoop false r d first rest = rest

  pub Keeps-ignoring : (m : Act T A) → Keeps size m → Keeps size (ignoring m)
  Keeps-ignoring m keeps s v = go (m s) (keeps s v)
    where
      go : (r : Outcome A × EventLoop T) → IsLoop size r.1 → IsLoop size (ignored r).1
      go (done a, d) w = w
      go (failed e, d) w = w
      go (panics, d) w = w
      go (hangs, d) w = w

module _ {T : Type 0} (size : ℕ) where
  -- Two states with the same ids, table and receive buffer meet the invariant together.
  pub same_parts :
      (s d : EventLoop T)
      → EventLoop.next_packet_id d ≡ EventLoop.next_packet_id s
      → EventLoop.inflight_publishes d ≡ EventLoop.inflight_publishes s
      → EventLoop.rx_buf d ≡ EventLoop.rx_buf s
      → EventLoop.rx_cursor d ≡ EventLoop.rx_cursor s
      → IsLoop size s
      → IsLoop size d
  same_parts s d ids tables buffers cursors v = record {
    id_positive = rw ids (IsLoop.id_positive v);
    id_u16 = rw ids (IsLoop.id_u16 v);
    table = rw tables (IsLoop.table v);
    buffer = rw buffers (IsLoop.buffer v);
    cursor = rw cursors (IsLoop.cursor v);
  }

  pub Keeps-after_encode : (r : Result ℕ × List ℕ) → Keeps size (after_encode {T = T} r)
  Keeps-after_encode (ok n, buf) s v = same_parts s _ refl refl refl refl v
  Keeps-after_encode (err e, buf) s v = same_parts s _ refl refl refl refl v
  Keeps-after_encode (panic, buf) s v = same_parts s _ refl refl refl refl v

  pub Keeps-encode_tx : (encoder : Exec (List ℕ) ℕ) → Keeps size (encode_tx {T = T} encoder)
  unfolding encode_tx
  Keeps-encode_tx encoder s v = Keeps-after_encode (encoder (EventLoop.tx_buf s)) s v

  pub Keeps-send_answer : (k : Option ℕ) (a : Answer) → Keeps size (send_answer {T = T} k a)
  unfolding send_answer
  Keeps-send_answer none a s v = v
  Keeps-send_answer (some k) a s v = same_parts s _ refl refl refl refl v

  pub Keeps-send_status : (status : ConnectionStatus) → Keeps size (send_status {T = T} status)
  unfolding send_status
  Keeps-send_status status s v = same_parts s _ refl refl refl refl v

  pub Keeps-get_next_packet_id : Keeps size (get_next_packet_id {T = T})
  unfolding get_next_packet_id
  Keeps-get_next_packet_id s v =
      let range = id_after_range (EventLoop.next_packet_id s) in
      record {
        id_positive = range.0;
        id_u16 = range.1;
        table = IsLoop.table v;
        buffer = IsLoop.buffer v;
        cursor = IsLoop.cursor v;
      }

module _ {T : Type 0} (size : ℕ) (n : Network T) where
  pub Keeps-write_bytes : (bytes : List ℕ) → Keeps size (write_bytes n bytes)
  unfolding write_bytes
  Keeps-write_bytes bytes s v = same_parts size s _ refl refl refl refl v

  pub Keeps-write_tx : (len : ℕ) → Keeps size (write_tx n len)
  unfolding write_tx
  Keeps-write_tx len s v = elim (Bool-cases (ltb (length (EventLoop.tx_buf s)) len)) [
    | inl short ↦ rw short v
    | inr long ↦ rw long (Keeps-write_bytes (take len (EventLoop.tx_buf s)) s v)
  ]

  pub Keeps-flush : Keeps size (flush n)
  unfolding flush
  Keeps-flush s v = same_parts size s _ refl refl refl refl v

  pub Keeps-touch_tx : Keeps size (touch_tx n)
  Keeps-touch_tx s v = same_parts size s _ refl refl refl refl v

  pub Keeps-flushed : Keeps size (flush n >> touch_tx n)
  Keeps-flushed = Keeps-seq size (flush n) (touch_tx n) Keeps-flush Keeps-touch_tx

  pub Keeps-transmit : (encoder : Exec (List ℕ) ℕ) → Keeps size (transmit n encoder)
  unfolding transmit
  Keeps-transmit encoder =
      Keeps-bind size (encode_tx encoder) _ (Keeps-encode_tx size encoder) (λ len.
        Keeps-seq size (write_tx n len) (flush n >> touch_tx n) (Keeps-write_tx len) Keeps-flushed)

  pub Keeps-when_encoded :
      (encoder : Exec (List ℕ) ℕ) (rest : ℕ → Act T (Unit {0}))
      → ((len : ℕ) → Keeps size (rest len))
      → Keeps size (when_encoded n encoder rest)
  unfolding when_encoded
  Keeps-when_encoded encoder rest keeps s v = go (encoder (EventLoop.tx_buf s))
    where
      go : (r : Result ℕ × List ℕ) → IsLoop size (if_encoded n rest r s).1
      go (ok len, buf) =
          keeps len (record s { tx_buf = buf })
            (same_parts size s (record s { tx_buf = buf }) refl refl refl refl v)
      go (err e, buf) = same_parts size s _ refl refl refl refl v
      go (panic, buf) = same_parts size s _ refl refl refl refl v
