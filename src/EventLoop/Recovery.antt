-- ===== src/EventLoop/Recovery.antt =====
-- `perform_session_data_recovery`: what it puts on the wire, next to a list of the packets.
pub mod Steps
pub mod Loops
pub mod Frames
use mqtt_async_embedded.Prelude.{
  if◌then◌else◌, refl, ◌++◌, ℕ, ◌+◌, ◌≤◌, ◌≡◌, sym, ap, ◌∙◌, Bool, true, false, Option, none, some,
  List, [], ◌∷◌, length, append-nil, append_assoc, subst, Bool-cases, inl, inr,
}
use mqtt_async_embedded.Types.{
  MqttVersion, MqttPacket, QoS, at_most_once, at_least_once, exactly_once, Publish, Subscribe,
  publish, subscribe, new_subscribe, add_topic,
}
use mqtt_async_embedded.Codec.Publish.{encode_publish}
use mqtt_async_embedded.Codec.Publish.RoundTrip.{Encodes-publish}
use mqtt_async_embedded.Codec.Subscribe.RoundTrip.{Encodes-subscribe}
use mqtt_async_embedded.Codec.Dispatch.RoundTrip.{IsPacket, packet_bytes}
use mqtt_async_embedded.Codec.Dispatch.Buffers.{buffer_need}
use mqtt_async_embedded.ClientTypes.{PublishMessage}
use mqtt_async_embedded.Options.{ClientOptions, DataRecoveryPolicy}
use mqtt_async_embedded.EmbeddedClient.{id_after}
use mqtt_async_embedded.EventLoop.{
  Network, Outcome, done, failed, panics, hangs, EventLoop, Unacked, Act, answer, after, ◌>>=◌,
  ◌>>◌, ignored, ignoring, version_of, get_next_packet_id, send_answer, write_tx, flush, transmit,
  when_encoded,
}
use mqtt_async_embedded.EventLoop.Sending.{
  publish_packet, note_unacked, tracked_id, packet_id_for, send_publish_direct,
}
use mqtt_async_embedded.EventLoop.Connecting.{
  resend, resend_all, resubscribe, resubscribe_all, flush_queue, is_nil, recover_inflight,
  recover_subscriptions, recover_queue, set_transport, perform_session_data_recovery,
}
use mqtt_async_embedded.EventLoop.Recovery.Steps.{
  Step, Did, nothing, Did-nothing, Did-after, Did-from, Did-flush, Did-when_encoded, Did-transmit,
}

-- A message in flight again, under its id and with DUP.
abbrev pub resent : ℕ × Unacked → MqttPacket
resent (pid, u) = publish (record (publish_packet (Unacked.message u) (some pid)) { dup = true })

-- A subscription again, under an id.
abbrev pub resubscribed : ℕ → List ℕ × QoS → MqttPacket
resubscribed pid (topic, qos) = subscribe (add_topic topic qos (new_subscribe pid)).1

abbrev pub resubscriptions : ℕ → List (List ℕ × QoS) → List MqttPacket
resubscriptions id [] = []
resubscriptions id (e ∷ es) = resubscribed id e ∷ resubscriptions (id_after id) es

-- The id that comes after so many uses.
abbrev pub ids_after : {A : Type 0} → List A → ℕ → ℕ
ids_after [] id = id
ids_after (e ∷ es) id = ids_after es (id_after id)

-- A message of QoS 0 takes no id.
abbrev pub id_of : QoS → ℕ → Option ℕ
id_of at_most_once id = none
id_of at_least_once id = some id
id_of exactly_once id = some id

abbrev pub id_behind : QoS → ℕ → ℕ
id_behind at_most_once id = id
id_behind at_least_once id = id_after id
id_behind exactly_once id = id_after id

abbrev pub queued : ℕ → List PublishMessage → List MqttPacket
queued id [] = []
queued id (m ∷ ms) =
    publish (publish_packet m (id_of (PublishMessage.qos m) id))
    ∷ queued (id_behind (PublishMessage.qos m) id) ms

abbrev pub id_behind_all : ℕ → List PublishMessage → ℕ
id_behind_all id [] = id
id_behind_all id (m ∷ ms) = id_behind_all (id_behind (PublishMessage.qos m) id) ms

abbrev pub frames : MqttVersion → List MqttPacket → List (List ℕ)
frames version [] = []
frames version (p ∷ ps) = packet_bytes version p ∷ frames version ps

-- Each packet is one that the wire and the transmit buffer can hold.
abbrev pub AllFit : MqttVersion → ℕ → List MqttPacket → Type 0
AllFit version size [] = Unit {0}
AllFit version size (p ∷ ps) =
    (IsPacket version p × (buffer_need version p ≤ size)) × AllFit version size ps

abbrev pub all_resent : List (ℕ × Unacked) → List MqttPacket
all_resent [] = []
all_resent (e ∷ es) = resent e ∷ all_resent es

-- The parts of the session that the options have recovered.
abbrev pub inflight_again : {T : Type 0} → EventLoop T → List (ℕ × Unacked)
inflight_again s =
    if DataRecoveryPolicy.resend_unacked_inflight (ClientOptions.recovery (EventLoop.options s))
    then EventLoop.inflight_publishes s
    else []

abbrev pub subscriptions_again : {T : Type 0} → EventLoop T → List (List ℕ × QoS)
subscriptions_again s =
    if DataRecoveryPolicy.auto_resubscribe (ClientOptions.recovery (EventLoop.options s))
    then EventLoop.active_subscriptions s
    else []

-- The packets of the recovery: the messages in flight, the subscriptions, and the queue.
abbrev pub recovery_packets : {T : Type 0} → EventLoop T → List MqttPacket
recovery_packets s =
    let id = EventLoop.next_packet_id s in
    all_resent (inflight_again s)
    ++ (resubscriptions id (subscriptions_again s)
        ++ queued (ids_after (subscriptions_again s) id) (EventLoop.offline_queue s))

pub AllFit-parts :
    (version : MqttVersion) (size : ℕ) (ps qs : List MqttPacket)
    → AllFit version size (ps ++ qs)
    → AllFit version size ps × AllFit version size qs
AllFit-parts version size [] qs fits = (tt, fits)
AllFit-parts version size (p ∷ ps) qs (one, fits) =
    let (left, right) = AllFit-parts version size ps qs fits in ((one, left), right)

pub frames-append :
    (version : MqttVersion) (ps qs : List MqttPacket)
    → frames version (ps ++ qs) ≡ frames version ps ++ frames version qs
frames-append version [] qs = refl
frames-append version (p ∷ ps) qs = rw (frames-append version ps qs) refl
