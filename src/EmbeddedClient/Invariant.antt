-- ===== src/EmbeddedClient/Invariant.antt =====
-- The packet ids and the table of the client: the invariant, and the actions of which the calls are
-- made.
pub mod Calls
pub mod Events
pub mod Runs
pub mod Ids
use mqtt_async_embedded.Prelude.{
  ℕ, zero, suc, ◌+◌, ◌%◌, ◌≤◌, ◌<◌, ◌≡◌, refl, Bool, true, false, Option, none, some, List, [], ◌∷◌,
  ◌++◌, length, take, drop, ltb, leb, ◌==◌, if◌then◌else◌, arith, Bool-cases, inl, inr,
}
use mqtt_async_embedded.Exec.{PacketError, Result, ok, err, panic, Exec, buffer_too_small}
use mqtt_async_embedded.EmbeddedErrors.{MqttError, client_error_from}
use mqtt_async_embedded.Types.{
  QoS, at_most_once, at_least_once, exactly_once, AckKind, pub_ack, pub_rec, pub_rel, pub_comp,
  MqttPacket, Publish, Ack, ConnAck,
}
use mqtt_async_embedded.EmbeddedInflight
use mqtt_async_embedded.EmbeddedInflight.{InflightQueue, Tracked, track_outbound}
use mqtt_async_embedded.EmbeddedInflight.Laws.{
  IsTable, perform, perform-IsTable, outbound_call, inbound_call, puback_call, pubrec_call,
  pubrel_call, pubcomp_call, clear_call,
}
use mqtt_async_embedded.EmbeddedClient.{
  Platform, NetResult, net_ok, net_err, Outcome, done, failed, panics, PublishMessage, MqttOptions,
  MqttClient, Act, answer, fail, after, ◌>>=◌, ◌>>◌, set_state, when_connected, after_encode,
  encode_tx, after_send, after_recv, from_result, send_bytes, send_tx, recv_rx, touch_tx, touch_rx,
  transmit, decode_rx, new_client, id_after, get_next_packet_id, after_track, tracked_id,
  packet_id_for, is_connected, ConnectionState,
}
use mqtt_async_embedded.EmbeddedClient.Calls.{
  connect, connect_reply, connect_read, publish, place_result, place, send_rest, batch_loop,
  publish_batch, subscribe, unsubscribe, disconnect,
}

-- The next id is a u16 and not 0, and the table meets its invariant.
pub record IsClient {T : Type 0} (N : ℕ) (c : MqttClient T) : Type 0 where
  pub id_positive : 1 ≤ MqttClient.next_packet_id c
  pub id_u16 : MqttClient.next_packet_id c < 65536
  pub table : IsTable N (MqttClient.inflight c)

-- An action keeps the invariant, whatever its outcome.
abbrev pub Keeps : {T E A : Type 0} → ℕ → Act T E A → Type 0
Keeps {T} N m = (c : MqttClient T) → IsClient N c → IsClient N (m c).1

module _ {T E A B : Type 0} (N : ℕ) where
  pub after-IsClient :
      (r : Outcome E A × MqttClient T) (f : A → Act T E B)
      → IsClient N r.1
      → ((a : A) → Keeps N (f a))
      → IsClient N (after r f).1
  after-IsClient (done a, c) f v keeps = keeps a c v
  after-IsClient (failed e, c) f v keeps = v
  after-IsClient (panics, c) f v keeps = v

  pub Keeps-bind :
      (m : Act T E A) (f : A → Act T E B)
      → Keeps N m
      → ((a : A) → Keeps N (f a))
      → Keeps N (m >>= f)
  Keeps-bind m f first rest c v = after-IsClient (m c) f (first c v) rest

  pub Keeps-seq : (m : Act T E A) (n : Act T E B) → Keeps N m → Keeps N n → Keeps N (m >> n)
  Keeps-seq m n first rest = Keeps-bind m (λ _. n) first (λ _. rest)

module _ {T E A : Type 0} (N : ℕ) where
  pub Keeps-if :
      (test : Bool) (m n : Act T E A) → Keeps N m → Keeps N n → Keeps N (if test then m else n)
  Keeps-if true m n first rest = first
  Keeps-if false m n first rest = rest

  pub Keeps-when_connected : (m : Act T E A) → Keeps N m → Keeps N (when_connected m)
  Keeps-when_connected m keeps c v = elim (Bool-cases (is_connected c)) [
    | inl up ↦ rw up (keeps c v)
    | inr down ↦ rw down v
  ]

-- Two clients with the same ids and table meet the invariant together.
pub same_table :
    {T : Type 0} (N : ℕ) (c d : MqttClient T)
    → MqttClient.next_packet_id d ≡ MqttClient.next_packet_id c
    → MqttClient.inflight d ≡ MqttClient.inflight c
    → IsClient N c
    → IsClient N d
same_table N c d ids tables v = record {
  id_positive = rw ids (IsClient.id_positive v);
  id_u16 = rw ids (IsClient.id_u16 v);
  table = rw tables (IsClient.table v);
}

-- An action that changes the table by a call of its own.
pub with_table :
    {T : Type 0} (N : ℕ) (c : MqttClient T) (q : InflightQueue)
    → IsTable N q
    → IsClient N c
    → IsClient N (record c { inflight = q })
with_table N c q fits v = record {
  id_positive = IsClient.id_positive v;
  id_u16 = IsClient.id_u16 v;
  table = fits;
}

module _ {T E : Type 0} (N : ℕ) (p : Platform T E) where
  pub Keeps-encode_tx : (encoder : Exec (List ℕ) ℕ) → Keeps {T = T} {E = E} N (encode_tx encoder)
  unfolding encode_tx
  Keeps-encode_tx encoder c v = encoded (encoder (MqttClient.tx_buffer c))
    where
      encoded : (r : Result ℕ × List ℕ) → IsClient N (after_encode {T = T} {E = E} r c).1
      encoded (ok n, buf) = same_table N c _ refl refl v
      encoded (err e, buf) = same_table N c _ refl refl v
      encoded (panic, buf) = same_table N c _ refl refl v

  pub Keeps-send_bytes : (bytes : List ℕ) → Keeps N (send_bytes p bytes)
  unfolding send_bytes
  Keeps-send_bytes bytes c v = sent (Platform.send p bytes (MqttClient.transport c))
    where
      sent : (r : NetResult E (Unit {0}) × T) → IsClient N (after_send {T = T} {E = E} r c).1
      sent (net_ok u, t) = same_table N c _ refl refl v
      sent (net_err e, t) = same_table N c _ refl refl v

  pub Keeps-send_tx : (n : ℕ) → Keeps N (send_tx p n)
  unfolding send_tx
  Keeps-send_tx n c v = elim (Bool-cases (ltb (length (MqttClient.tx_buffer c)) n)) [
    | inl short ↦ rw short v
    | inr long ↦ rw long (Keeps-send_bytes (take n (MqttClient.tx_buffer c)) c v)
  ]

  pub Keeps-recv_rx : Keeps N (recv_rx p)
  unfolding recv_rx
  Keeps-recv_rx c v = read (Platform.recv p (MqttClient.rx_buffer c) (MqttClient.transport c))
    where
      read : (r : NetResult E ℕ × List ℕ × T) → IsClient N (after_recv {T = T} {E = E} r c).1
      read (net_ok n, buf, t) = same_table N c _ refl refl v
      read (net_err e, buf, t) = same_table N c _ refl refl v

  pub Keeps-transmit : (encoder : Exec (List ℕ) ℕ) → Keeps N (transmit p encoder)
  unfolding transmit
  Keeps-transmit encoder =
      Keeps-bind N (encode_tx encoder) (send_tx p) (Keeps-encode_tx encoder) Keeps-send_tx

  pub Keeps-touch_tx : Keeps N (touch_tx p)
  Keeps-touch_tx c v = same_table N c _ refl refl v

  pub Keeps-touch_rx : Keeps N (touch_rx p)
  Keeps-touch_rx c v = same_table N c _ refl refl v

  pub Keeps-from_result : {A : Type 0} (r : Result A) → Keeps {T = T} {E = E} N (from_result r)
  Keeps-from_result (ok a) c v = v
  Keeps-from_result (err e) c v = v
  Keeps-from_result panic c v = v

  pub Keeps-decode_rx : (n : ℕ) → Keeps {T = T} {E = E} N (decode_rx n)
  unfolding decode_rx
  Keeps-decode_rx n c v = elim (Bool-cases (ltb (length (MqttClient.rx_buffer c)) n)) [
    | inl short ↦ rw short v
    | inr long ↦ rw long (Keeps-from_result _ c v)
  ]

  pub Keeps-set_state : (s : ConnectionState) → Keeps {T = T} {E = E} N (set_state s)
  Keeps-set_state s c v = same_table N c _ refl refl v

  id_after_range : (id : ℕ) → (1 ≤ id_after id) × (id_after id < 65536)
  unfolding id_after
  id_after_range id = ground arith

  pub Keeps-get_next_packet_id : Keeps {T = T} {E = E} N get_next_packet_id
  unfolding get_next_packet_id
  Keeps-get_next_packet_id c v =
      let range = id_after_range (MqttClient.next_packet_id c) in
      record { id_positive = range.0; id_u16 = range.1; table = IsClient.table v }

  tracked-IsClient :
      (r : Tracked × InflightQueue) (c : MqttClient T)
      → IsTable N r.1
      → IsClient N c
      → IsClient N (after_track {T = T} {E = E} r c).1
  tracked-IsClient (Tracked.tracked_ok, q) c fits v = with_table N c q fits v
  tracked-IsClient (Tracked.inflight_queue_full, q) c fits v = with_table N c q fits v

  Keeps-tracked_id : (qos : QoS) → Keeps {T = T} {E = E} N (tracked_id N qos)
  unfolding tracked_id
  Keeps-tracked_id qos = Keeps-bind N get_next_packet_id _ Keeps-get_next_packet_id (λ pid c v.
      after-IsClient N _ (λ _. answer pid)
        (tracked-IsClient (track_outbound N (MqttClient.inflight c) pid qos) c
          (unfold perform in
            perform-IsTable N (outbound_call pid qos) (MqttClient.inflight c) (IsClient.table v))
          v)
        (λ u d w. w))

  pub Keeps-packet_id_for : (qos : QoS) → Keeps {T = T} {E = E} N (packet_id_for N qos)
  unfolding packet_id_for
  Keeps-packet_id_for at_most_once = λ c v. v
  Keeps-packet_id_for at_least_once =
      Keeps-bind N (tracked_id N at_least_once) _ (Keeps-tracked_id at_least_once) (λ pid c v. v)
  Keeps-packet_id_for exactly_once =
      Keeps-bind N (tracked_id N exactly_once) _ (Keeps-tracked_id exactly_once) (λ pid c v. v)
