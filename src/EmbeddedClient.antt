-- ===== src/EmbeddedClient.antt =====
-- crates/mqtt-embedded/src/client.rs: the embedded client. What it does not implement is a
-- `Platform`: the transport, the clock and the conversion of durations. The state of the transport
-- is a field of the client, as in the code. Durations and instants are ticks.
pub mod Calls
pub mod Polling
pub mod Streaming
pub mod Invariant
pub mod Setters
pub mod Datagrams
use mqtt_async_embedded.Prelude.{
  ℕ, ◌+◌, ◌%◌, Bool, true, false, Option, none, some, List, [], length, take, drop, replicate, ltb,
  ◌==◌, if◌then◌else◌,
}
use mqtt_async_embedded.Exec.{PacketError, Result, ok, err, panic, Exec}
use mqtt_async_embedded.EmbeddedErrors.{MqttError, client_error_from}
use mqtt_async_embedded.Types.{
  QoS, at_most_once, at_least_once, exactly_once, MqttVersion, v3_1_1, Property, Will, MqttPacket,
}
use mqtt_async_embedded.Codec.Dispatch.{decode}
use mqtt_async_embedded.EmbeddedInflight
use mqtt_async_embedded.EmbeddedInflight.{
  InflightQueue, Tracked, tracked_ok, inflight_queue_full, track_outbound,
}

-- `Result<A, T::Error>` of the transport
pub data NetResult (E A : Type 0) : Type 0 where
  net_ok : A → NetResult E A
  net_err : E → NetResult E A

-- `recv` gives the number of bytes, the buffer after it, and the transport after it.
pub record Platform (T E : Type 0) : Type 0 where
  pub send : List ℕ → T → NetResult E (Unit {0}) × T
  pub recv : List ℕ → T → NetResult E ℕ × List ℕ × T
  pub now : T → ℕ
  pub as_secs : ℕ → ℕ

-- `Result<A, MqttError<T::Error>>`, and the panic of a slice that is out of range
pub data Outcome (E A : Type 0) : Type 0 where
  done : A → Outcome E A
  failed : MqttError E → Outcome E A
  panics : Outcome E A

abbrev pub is_done : {E A : Type 0} → Outcome E A → Bool
is_done (done a) = true
is_done (failed e) = false
is_done panics = false

pub data StreamMode : Type 0 where
  standard real_time_streaming : StreamMode

pub data ConnectionState : Type 0 where
  disconnected connecting connected : ConnectionState

pub record PublishMessage : Type 0 where
  pub topic : List ℕ
  pub payload : List ℕ
  pub qos : QoS
  pub retain : Bool

pub record MqttOptions : Type 0 where
  pub client_id : List ℕ
  pub host : List ℕ
  pub port : ℕ
  pub keep_alive : ℕ
  pub clean_session : Bool
  pub username : Option (List ℕ)
  pub password : Option (List ℕ)
  pub will : Option Will
  pub properties : List Property
  pub version : MqttVersion
  pub stream_mode : StreamMode

-- `keep_alive` is 30 seconds, in ticks.
unfoldable pub new_options : ℕ → List ℕ → List ℕ → ℕ → MqttOptions
new_options thirty_seconds client_id host port = record {
  client_id = client_id;
  host = host;
  port = port;
  keep_alive = thirty_seconds;
  clean_session = true;
  username = none;
  password = none;
  will = none;
  properties = [];
  version = v3_1_1;
  stream_mode = standard;
}

pub record MqttClient (T : Type 0) : Type 0 where
  pub transport : T
  pub options : MqttOptions
  pub state : ConnectionState
  pub next_packet_id : ℕ
  pub last_tx_time : ℕ
  pub last_rx_time : ℕ
  pub tx_buffer : List ℕ
  pub rx_buffer : List ℕ
  pub rx_len : ℕ
  pub inflight : InflightQueue

abbrev pub Act : Type 0 → Type 0 → Type 0 → Type 0
Act T E A = MqttClient T → Outcome E A × MqttClient T

module _ {T E A : Type 0} where
  abbrev pub answer : A → Act T E A
  answer a c = (done a, c)

  abbrev pub fail : MqttError E → Act T E A
  fail e c = (failed e, c)

module _ {T E A B : Type 0} where
  abbrev pub after : Outcome E A × MqttClient T → (A → Act T E B) → Outcome E B × MqttClient T
  after (done a, c) f = f a c
  after (failed e, c) f = (failed e, c)
  after (panics, c) f = (panics, c)

  infixl 5 ◌>>=◌ ◌>>◌
  abbrev pub ◌>>=◌ : Act T E A → (A → Act T E B) → Act T E B
  ◌>>=◌ m f c = after (m c) f

  abbrev pub ◌>>◌ : Act T E A → Act T E B → Act T E B
  ◌>>◌ m k c = after (m c) (λ _. k)

-- `self.state = state`
abbrev pub set_state : {T E : Type 0} → ConnectionState → Act T E (Unit {0})
set_state state c = (done tt, record c { state = state })

abbrev pub is_connected_state : ConnectionState → Bool
is_connected_state disconnected = false
is_connected_state connecting = false
is_connected_state connected = true

-- `MqttClient::is_connected`
abbrev pub is_connected : {T : Type 0} → MqttClient T → Bool
is_connected c = is_connected_state (MqttClient.state c)

-- `if self.state != Connected { return Err(NotConnected) }`
abbrev pub when_connected : {T E A : Type 0} → Act T E A → Act T E A
when_connected m c = if is_connected c then m c else (failed MqttError.not_connected, c)

-- `encode(&mut self.tx_buffer).map_err(MqttError::from)?`
abbrev pub after_encode : {T E : Type 0} → Result ℕ × List ℕ → Act T E ℕ
after_encode (ok n, buf) c = (done n, record c { tx_buffer = buf })
after_encode (err e, buf) c = (failed (client_error_from e), record c { tx_buffer = buf })
after_encode (panic, buf) c = (panics, record c { tx_buffer = buf })

unfoldable pub encode_tx : {T E : Type 0} → Exec (List ℕ) ℕ → Act T E ℕ
encode_tx encoder c = after_encode (encoder (MqttClient.tx_buffer c)) c

abbrev pub after_send : {T E : Type 0} → NetResult E (Unit {0}) × T → Act T E (Unit {0})
after_send (net_ok u, t) c = (done tt, record c { transport = t })
after_send (net_err e, t) c = (failed (MqttError.transport e), record c { transport = t })

abbrev pub after_recv : {T E : Type 0} → NetResult E ℕ × List ℕ × T → Act T E ℕ
after_recv (net_ok n, buf, t) c = (done n, record c { rx_buffer = buf; transport = t })
after_recv (net_err e, buf, t) c =
    (failed (MqttError.transport e), record c { rx_buffer = buf; transport = t })

abbrev pub from_result : {T E A : Type 0} → Result A → Act T E A
from_result (ok a) c = (done a, c)
from_result (err e) c = (failed (client_error_from e), c)
from_result panic c = (panics, c)

module _ {T E : Type 0} (p : Platform T E) where
  -- `self.transport.send(bytes).await?`
  unfoldable pub send_bytes : List ℕ → Act T E (Unit {0})
  send_bytes bytes c = after_send (Platform.send p bytes (MqttClient.transport c)) c

  -- `self.transport.send(&self.tx_buffer[..len]).await?`
  unfoldable pub send_tx : ℕ → Act T E (Unit {0})
  send_tx n c =
      if ltb (length (MqttClient.tx_buffer c)) n
      then (panics, c)
      else send_bytes (take n (MqttClient.tx_buffer c)) c

  -- `self.transport.recv(&mut self.rx_buffer).await?`
  unfoldable pub recv_rx : Act T E ℕ
  recv_rx c = after_recv (Platform.recv p (MqttClient.rx_buffer c) (MqttClient.transport c)) c

  abbrev pub touch_tx : Act T E (Unit {0})
  touch_tx c = (done tt, record c { last_tx_time = Platform.now p (MqttClient.transport c) })

  abbrev pub touch_rx : Act T E (Unit {0})
  touch_rx c = (done tt, record c { last_rx_time = Platform.now p (MqttClient.transport c) })

  -- A packet is encoded and sent.
  unfoldable pub transmit : Exec (List ℕ) ℕ → Act T E (Unit {0})
  transmit encoder = encode_tx encoder >>= send_tx

-- `decode(&self.rx_buffer[..n], self.options.version)?`
unfoldable pub decode_rx : {T E : Type 0} → ℕ → Act T E (Option MqttPacket)
decode_rx n c =
    if ltb (length (MqttClient.rx_buffer c)) n
    then (panics, c)
    else from_result
        (decode (MqttOptions.version (MqttClient.options c)) (take n (MqttClient.rx_buffer c))) c

unfoldable pub new_client : {T E : Type 0} → Platform T E → ℕ → T → MqttOptions → MqttClient T
new_client p BUF_SIZE transport options = record {
  transport = transport;
  options = options;
  state = disconnected;
  next_packet_id = 1;
  last_tx_time = Platform.now p transport;
  last_rx_time = Platform.now p transport;
  tx_buffer = replicate BUF_SIZE 0;
  rx_buffer = replicate BUF_SIZE 0;
  rx_len = 0;
  inflight = EmbeddedInflight.new;
}

-- `wrapping_add(1)`, where 0 is skipped
unfoldable pub id_after : ℕ → ℕ
id_after id = let next = (id + 1) % 65536 in if next == 0 then 1 else next

unfoldable pub get_next_packet_id : {T E : Type 0} → Act T E ℕ
get_next_packet_id c = (
  done (MqttClient.next_packet_id c),
  record c { next_packet_id = id_after (MqttClient.next_packet_id c) },
)

-- `self.inflight.track_outbound(pid, qos)?`
abbrev pub after_track : {T E : Type 0} → Tracked × InflightQueue → Act T E (Unit {0})
after_track (tracked_ok, q) c = (done tt, record c { inflight = q })
after_track (inflight_queue_full, q) c =
    (failed MqttError.inflight_queue_full, record c { inflight = q })

-- The packet id of a message, which is tracked if its QoS is not 0.
unfoldable pub tracked_id : {T E : Type 0} → ℕ → QoS → Act T E ℕ
tracked_id MAX_INFLIGHT qos c = after (get_next_packet_id c) (λ pid. λ c'.
    after (after_track (track_outbound MAX_INFLIGHT (MqttClient.inflight c') pid qos) c')
      (λ _. answer pid))

unfoldable pub packet_id_for : {T E : Type 0} → ℕ → QoS → Act T E (Option ℕ)
packet_id_for MAX_INFLIGHT at_most_once = answer none
packet_id_for MAX_INFLIGHT at_least_once =
    tracked_id MAX_INFLIGHT at_least_once >>= λ pid. answer (some pid)
packet_id_for MAX_INFLIGHT exactly_once =
    tracked_id MAX_INFLIGHT exactly_once >>= λ pid. answer (some pid)
