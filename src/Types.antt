-- ===== src/Types.antt =====
-- crates/mqtt-packet/src/packet_types.rs and the record `Property` of properties.rs: the control
-- packets. Strings and payloads are lists of bytes; a `heapless::Vec<T, 8>` is a list, and its
-- `push` fails at eight items.
use mqtt_async_embedded.Prelude.{
  ℕ, Bool, false, Option, none, some, List, [], ◌∷◌, ◌++◌, length, ltb, if◌then◌else◌, ◌==◌,
}
use mqtt_async_embedded.Exec.{Exec, ok, err, batch_capacity_exceeded}

pub data QoS : Type 0 where
  at_most_once at_least_once exactly_once : QoS

-- `impl From<u8> for QoS`
abbrev pub qos_from : ℕ → QoS
qos_from val = if val == 0 then at_most_once else if val == 1 then at_least_once else exactly_once

-- `qos as u8`
abbrev pub qos_code : QoS → ℕ
qos_code at_most_once = 0
qos_code at_least_once = 1
qos_code exactly_once = 2

pub data MqttVersion : Type 0 where
  v3_1_1 v3 v5 : MqttVersion

pub record Property : Type 0 where
  pub id : ℕ
  pub bytes : List ℕ

-- The capacity of every `heapless::Vec` of a packet.
abbrev pub capacity : ℕ
capacity = 8

pub record Will : Type 0 where
  pub topic : List ℕ
  pub payload : List ℕ
  pub qos : QoS
  pub retain : Bool
  pub properties : List Property

pub new_will : List ℕ → List ℕ → QoS → Bool → Will
new_will topic payload qos retain = record {
  topic = topic;
  payload = payload;
  qos = qos;
  retain = retain;
  properties = [];
}

pub record Connect : Type 0 where
  pub clean_session : Bool
  pub keep_alive : ℕ
  pub client_id : List ℕ
  pub username : Option (List ℕ)
  pub password : Option (List ℕ)
  pub will : Option Will
  pub properties : List Property

pub new_connect : List ℕ → ℕ → Bool → Connect
new_connect client_id keep_alive clean_session = record {
  clean_session = clean_session;
  keep_alive = keep_alive;
  client_id = client_id;
  username = none;
  password = none;
  will = none;
  properties = [];
}

pub record ConnAck : Type 0 where
  pub session_present : Bool
  pub reason_code : ℕ
  pub properties : List Property

pub record Publish : Type 0 where
  pub dup : Bool
  pub qos : QoS
  pub retain : Bool
  pub topic : List ℕ
  pub packet_id : Option ℕ
  pub payload : List ℕ
  pub properties : List Property

first_id : QoS → Option ℕ
first_id at_most_once = none
first_id at_least_once = some 1
first_id exactly_once = some 1

unfoldable pub new_publish : List ℕ → List ℕ → QoS → Publish
unfolding first_id
new_publish topic payload qos = record {
  dup = false;
  qos = qos;
  retain = false;
  topic = topic;
  packet_id = first_id qos;
  payload = payload;
  properties = [];
}

-- `PubAck`, `PubRec`, `PubRel` and `PubComp` have the same fields, and `impl_ack_packet!` gives
-- them one codec: one record, beside the kind of the packet.
pub data AckKind : Type 0 where
  pub_ack pub_rec pub_rel pub_comp : AckKind

pub record Ack : Type 0 where
  pub packet_id : ℕ
  pub reason_code : ℕ
  pub properties : List Property

unfoldable pub new_ack : ℕ → Ack
new_ack packet_id = record { packet_id = packet_id; reason_code = 0; properties = [] }

pub record Subscribe : Type 0 where
  pub packet_id : ℕ
  pub topics : List (List ℕ × QoS)
  pub properties : List Property

unfoldable pub new_subscribe : ℕ → Subscribe
new_subscribe packet_id = record { packet_id = packet_id; topics = []; properties = [] }

-- `Subscribe::add_topic`
unfoldable pub add_topic : List ℕ → QoS → Exec Subscribe (Unit {0})
add_topic topic qos s =
    if ltb (length s.topics) capacity
    then (ok tt, record s { topics = s.topics ++ ((topic, qos) ∷ []) })
    else (err batch_capacity_exceeded, s)

pub record Unsubscribe : Type 0 where
  pub packet_id : ℕ
  pub topics : List (List ℕ)
  pub properties : List Property

pub new_unsubscribe : ℕ → Unsubscribe
new_unsubscribe packet_id = record { packet_id = packet_id; topics = []; properties = [] }

-- `Unsubscribe::add_topic`
pub add_unsubscribe_topic : List ℕ → Exec Unsubscribe (Unit {0})
add_unsubscribe_topic topic s =
    if ltb (length s.topics) capacity
    then (ok tt, record s { topics = s.topics ++ (topic ∷ []) })
    else (err batch_capacity_exceeded, s)

-- `SubAck` and `UnsubAck` have the same fields and the same code but for the first byte.
pub data SubKind : Type 0 where
  sub_ack unsub_ack : SubKind

pub record SubReply : Type 0 where
  pub packet_id : ℕ
  pub reason_codes : List ℕ
  pub properties : List Property

pub record Disconnect : Type 0 where
  pub reason_code : ℕ
  pub properties : List Property

unfoldable pub new_disconnect : Disconnect
new_disconnect = record { reason_code = 0; properties = [] }

pub data MqttPacket : Type 0 where
  connect : Connect → MqttPacket
  conn_ack : ConnAck → MqttPacket
  publish : Publish → MqttPacket
  ack : AckKind → Ack → MqttPacket
  subscribe : Subscribe → MqttPacket
  sub_reply : SubKind → SubReply → MqttPacket
  unsubscribe : Unsubscribe → MqttPacket
  ping_req ping_resp : MqttPacket
  disconnect : Disconnect → MqttPacket
