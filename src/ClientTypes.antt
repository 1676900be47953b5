-- ===== src/ClientTypes.antt =====
-- crates/mqtt-tokio/src/types.rs: the owned PUBLISH message, the recovery policy, the status of the
-- connection and the errors of the client. Strings and payloads are lists of bytes; an error of the
-- operating system is a number.
use Prim.Native.String.{String}
use mqtt_async_embedded.Prelude.{
  ℕ, Bool, false, Option, none, List, [], ◌∷◌, ◌++◌, ◌≡◌, refl, ◌⊎◌, inl, inr,
}
use mqtt_async_embedded.Types.{QoS, at_most_once}
use mqtt_async_embedded.EmbeddedErrors.{ProtocolError}

pub record PublishMessage : Type 0 where
  pub topic : List ℕ
  pub payload : List ℕ
  pub qos : QoS
  pub retain : Bool
  pub dup : Bool
  pub packet_id : Option ℕ
  pub user_properties : List (List ℕ × List ℕ)

unfoldable pub new_message : List ℕ → List ℕ → PublishMessage
new_message topic payload = record {
  topic = topic;
  payload = payload;
  qos = at_most_once;
  retain = false;
  dup = false;
  packet_id = none;
  user_properties = [];
}

unfoldable pub with_qos : PublishMessage → QoS → PublishMessage
with_qos m qos = record m { qos = qos }

unfoldable pub with_retain : PublishMessage → Bool → PublishMessage
with_retain m retain = record m { retain = retain }

unfoldable pub with_dup : PublishMessage → Bool → PublishMessage
with_dup m dup = record m { dup = dup }

unfoldable pub with_user_property : PublishMessage → List ℕ → List ℕ → PublishMessage
with_user_property m key value = record m {
  user_properties = PublishMessage.user_properties m ++ ((key, value) ∷ []);
}

pub data ClientError : Type 0 where
  io : ℕ → ClientError
  protocol : ProtocolError → ClientError
  connection_refused : ℕ → ClientError
  invalid_topic : String → ClientError
  queue_full not_connected client_closed timeout : ClientError
  tls quic : String → ClientError
  cancelled : ClientError

-- The attempt and the delay before it, for `reconnecting`.
pub data ConnectionStatus : Type 0 where
  disconnected connecting connected : ConnectionStatus
  reconnecting : ℕ → ℕ → ConnectionStatus
  stopped : ConnectionStatus

-- `Result<A, ClientError>`
pub data ClientResult (A : Type 0) : Type 0 where
  accepted : A → ClientResult A
  refused : ClientError → ClientResult A

pub ClientResult-cases :
    (r : ClientResult (Unit {0})) → (r ≡ accepted tt) ⊎ ((e : ClientError) × (r ≡ refused e))
ClientResult-cases (accepted u) = inl refl
ClientResult-cases (refused e) = inr (e, refl)
