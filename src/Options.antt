-- ===== src/Options.antt =====
-- crates/mqtt-tokio/src/options.rs: the options of a client, and the addresses that they are read
-- from. Texts are lists of bytes, and durations are milliseconds. The growth factor of the delay, a
-- float, is the number of its bits. An error of an address is the part that its text varies in.
pub mod Address
pub mod Backoff
pub mod Setters
use mqtt_async_embedded.Prelude.{
  ℕ, ◌+◌, ◌*◌, ◌-◌, Bool, true, false, Option, none, some, List, [], ◌∷◌, ltb, ◌==◌, ◌||◌,
  if◌then◌else◌,
}
use mqtt_async_embedded.Types.{MqttVersion, v3_1_1}
use mqtt_async_embedded.ClientTypes.{PublishMessage}

pub data DropStrategy : Type 0 where
  drop_oldest error_on_full block : DropStrategy

pub record OfflineQueuePolicy : Type 0 where
  pub capacity : ℕ
  pub drop_strategy : DropStrategy

abbrev pub default_offline_queue : OfflineQueuePolicy
default_offline_queue = record { capacity = 512; drop_strategy = drop_oldest }

pub record ReconnectPolicy : Type 0 where
  pub enabled : Bool
  pub initial_delay : ℕ
  pub max_delay : ℕ
  pub multiplier : ℕ
  pub max_retries : Option ℕ

-- The bits of 2.0.
abbrev pub two_bits : ℕ
two_bits = 0x4000000000000000

abbrev pub default_reconnect : ReconnectPolicy
default_reconnect = record {
  enabled = true;
  initial_delay = 500;
  max_delay = 30000;
  multiplier = two_bits;
  max_retries = none;
}

-- crates/mqtt-tokio/src/types.rs
pub record DataRecoveryPolicy : Type 0 where
  pub resend_unacked_inflight : Bool
  pub auto_resubscribe : Bool
  pub max_inflight : ℕ

abbrev pub default_recovery : DataRecoveryPolicy
default_recovery = record {
  resend_unacked_inflight = true;
  auto_resubscribe = true;
  max_inflight = 256;
}

-- Host and port, and the name of the server; or a path.
pub data TransportTarget : Type 0 where
  tcp : List ℕ → ℕ → TransportTarget
  tls quic : List ℕ → ℕ → List ℕ → TransportTarget
  unix named_pipe : List ℕ → TransportTarget

pub record ClientOptions : Type 0 where
  pub target : TransportTarget
  pub client_id : List ℕ
  pub keep_alive : ℕ
  pub clean_session : Bool
  pub username : Option (List ℕ)
  pub password : Option (List ℕ)
  pub version : MqttVersion
  pub will : Option PublishMessage
  pub reconnect : ReconnectPolicy
  pub offline_queue : OfflineQueuePolicy
  pub recovery : DataRecoveryPolicy
  pub channel_capacity : ℕ
  pub max_packet_size : ℕ

unfoldable pub client_options : List ℕ → List ℕ → ℕ → ClientOptions
client_options client_id host port = record {
  target = tcp host port;
  client_id = client_id;
  keep_alive = 30000;
  clean_session = true;
  username = none;
  password = none;
  version = v3_1_1;
  will = none;
  reconnect = default_reconnect;
  offline_queue = default_offline_queue;
  recovery = default_recovery;
  channel_capacity = 1024;
  max_packet_size = 65536;
}

pub data UriError : Type 0 where
  invalid_port unsupported_scheme : List ℕ → UriError
  tls_required quic_required : UriError

-- `Result<A, ClientError>`
pub data Parsed (A : Type 0) : Type 0 where
  parsed : A → Parsed A
  rejected : UriError → Parsed A

-- `str.split_once(':')`
abbrev pub onto_left : ℕ → Option (List ℕ × List ℕ) → Option (List ℕ × List ℕ)
onto_left x none = none
onto_left x (some (l, r)) = some (x ∷ l, r)

unfoldable pub split_once : ℕ → List ℕ → Option (List ℕ × List ℕ)
split_once c [] = none
split_once c (x ∷ xs) =
    let rest = split_once c xs in if x == c then some ([], xs) else onto_left x rest

-- `str.parse::<u16>()`: the digits behind an optional plus sign, at least one of them
abbrev pub is_digit_byte : ℕ → Bool
is_digit_byte x = if ltb x 48 then false else ltb x 58

unfoldable pub parse_digits : ℕ → List ℕ → Option ℕ
parse_digits value [] = some value
parse_digits value (x ∷ xs) =
    let next = value * 10 + (x - 48) in
    let rest = parse_digits next xs in
    if is_digit_byte x then (if ltb 65535 next then none else rest) else none

unfoldable pub parse_u16 : List ℕ → Option ℕ
parse_u16 [] = none
parse_u16 (x ∷ []) = parse_digits 0 (x ∷ [])
parse_u16 (x ∷ y ∷ ys) = if x == b'+' then parse_digits 0 (y ∷ ys) else parse_digits 0 (x ∷ y ∷ ys)

abbrev pub with_port : List ℕ → List ℕ → Option ℕ → Parsed (List ℕ × ℕ)
with_port host port_str none = rejected (invalid_port port_str)
with_port host port_str (some port) = parsed (host, port)

unfoldable pub parse_host_port : List ℕ → ℕ → Parsed (List ℕ × ℕ)
parse_host_port s default_port = elim (split_once b':' s) [
  | none ↦ parsed (s, default_port)
  | some (host, port_str) ↦ with_port host port_str (parse_u16 port_str)
]

-- `str.strip_prefix`
unfoldable pub strip_prefix : List ℕ → List ℕ → Option (List ℕ)
strip_prefix [] s = some s
strip_prefix (p ∷ ps) [] = none
strip_prefix (p ∷ ps) (x ∷ xs) = let rest = strip_prefix ps xs in if x == p then rest else none

abbrev pub slashes : List ℕ
slashes = b':' ∷ b'/' ∷ b'/' ∷ []

abbrev pub mqtt_scheme : List ℕ
mqtt_scheme = b'm' ∷ b'q' ∷ b't' ∷ b't' ∷ slashes

abbrev pub mqtts_scheme : List ℕ
mqtts_scheme = b'm' ∷ b'q' ∷ b't' ∷ b't' ∷ b's' ∷ slashes

abbrev pub quic_scheme : List ℕ
quic_scheme = b'q' ∷ b'u' ∷ b'i' ∷ b'c' ∷ slashes

abbrev pub unix_scheme : List ℕ
unix_scheme = b'u' ∷ b'n' ∷ b'i' ∷ b'x' ∷ slashes

abbrev pub pipe_scheme : List ℕ
pipe_scheme = b'p' ∷ b'i' ∷ b'p' ∷ b'e' ∷ slashes

abbrev pub localhost : List ℕ
localhost = b'l' ∷ b'o' ∷ b'c' ∷ b'a' ∷ b'l' ∷ b'h' ∷ b'o' ∷ b's' ∷ b't' ∷ []

-- The options for a host and a port, if they can be read.
abbrev pub from_address :
    (List ℕ → ℕ → TransportTarget) → List ℕ → Parsed (List ℕ × ℕ) → Parsed ClientOptions
from_address target client_id (rejected e) = rejected e
from_address target client_id (parsed (host, port)) =
    parsed (record (client_options client_id host port) { target = target host port })

abbrev pub at_path : TransportTarget → List ℕ → Parsed ClientOptions
at_path target client_id =
    parsed (record (client_options client_id localhost 0) { target = target })

-- Whether the features `tokio-tls` and `transport-quic` are built in.
pub record Features : Type 0 where
  pub tokio_tls : Bool
  pub transport_quic : Bool

unfoldable pub from_uri : Features → List ℕ → List ℕ → Parsed ClientOptions
from_uri features client_id uri = elim (strip_prefix mqtt_scheme uri) [
  | some rest ↦ from_address tcp client_id (parse_host_port rest 1883)
  | none ↦ elim (strip_prefix mqtts_scheme uri) [
    | some rest ↦
        if Features.tokio_tls features
        then from_address (λ host port. tls host port host) client_id (parse_host_port rest 8883)
        else rejected tls_required
    | none ↦ elim (strip_prefix quic_scheme uri) [
      | some rest ↦
          if Features.transport_quic features
          then from_address (λ host port. quic host port host) client_id
              (parse_host_port rest 14567)
          else rejected quic_required
      | none ↦ elim (strip_prefix unix_scheme uri) [
        | some path ↦ at_path (unix path) client_id
        | none ↦ elim (strip_prefix pipe_scheme uri) [
          | some path ↦ at_path (named_pipe path) client_id
          | none ↦ rejected (unsupported_scheme uri)
        ]
      ]
    ]
  ]
]
