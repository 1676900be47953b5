-- ===== src/EmbeddedClient/Polling/Replies.antt =====
-- What the client sends for a PUBLISH that it reads.
use mqtt_async_embedded.Prelude.{
  ℕ, ◌≤◌, ◌≡◌, refl, true, false, Option, none, some, List, [], ◌++◌, length, take, le→ltb,
  length-append, take-length-append, ◌==◌, if◌then◌else◌, arith,
}
use mqtt_async_embedded.Exec.{Exec}
use mqtt_async_embedded.Types.{
  QoS, at_most_once, at_least_once, exactly_once, Publish, AckKind, pub_ack, pub_rec, new_ack,
  MqttVersion, v3_1_1, v3, v5, MqttPacket,
}
use mqtt_async_embedded.Properties.{total_prop_len}
use mqtt_async_embedded.Properties.RoundTrip.{ArePropertiesOk}
use mqtt_async_embedded.Codec.Frame.Encodes.{Encodes}
use mqtt_async_embedded.Codec.Publish.{needs_id, id_or_one}
use mqtt_async_embedded.Codec.Publish.RoundTrip.{IsPublish, publish_received}
use mqtt_async_embedded.Codec.Ack.{encode_ack}
use mqtt_async_embedded.Codec.Ack.RoundTrip.{IsAck, ack_content, Encodes-ack}
use mqtt_async_embedded.Codec.Dispatch.RoundTrip.{packet_bytes, decode-packet_bytes}
use mqtt_async_embedded.EmbeddedClient.{
  Platform, net_ok, Outcome, done, failed, panics, MqttClient, answer, after, encode_tx, send_bytes,
  send_tx, transmit, decode_rx,
}
use mqtt_async_embedded.EmbeddedClient.Calls.{version_of}
use mqtt_async_embedded.EmbeddedClient.Polling.{
  MqttEvent, event_publish, send_ack, track_inbound, acknowledge_publish, handle_packet, note_read,
  poll_read,
}

-- PUBACK for QoS 1, PUBREC for QoS 2.
abbrev pub reply_kind : QoS → AckKind
reply_kind exactly_once = pub_rec
reply_kind _ = pub_ack

-- An action succeeds and leaves the transport in the given state.
abbrev pub Reaches : {T E : Type 0} → T → Outcome E (Unit {0}) × MqttClient T → Type 0
Reaches t r = (r.0 ≡ done tt) × (MqttClient.transport r.1 ≡ t)

new_ack-length : (version : MqttVersion) (pid : ℕ) → length (ack_content version (new_ack pid)) ≡ 2
unfolding new_ack
new_ack-length v3_1_1 pid = refl
new_ack-length v3 pid = refl
new_ack-length v5 pid = refl

no_properties : ArePropertiesOk []
unfolding total_prop_len
no_properties = record { few = omega arith; shapes = tt; size = omega arith }

new_ack-IsAck : (version : MqttVersion) (pid : ℕ) → IsAck version (new_ack pid)
new_ack-IsAck version pid = record {
  properties_ok = unfold new_ack in no_properties;
  size = omega (arith, new_ack-length version pid);
}

module _ {T E : Type 0} (p : Platform T E) where
  -- An encoder that fits is sent as its bytes.
  transmit-Encodes :
      (encoder : Exec (List ℕ) ℕ) (bytes : List ℕ) (need : ℕ) (c : MqttClient T) (t : T)
      → Encodes encoder bytes need
      → need ≤ length (MqttClient.tx_buffer c)
      → Platform.send p bytes (MqttClient.transport c) ≡ (net_ok tt, t)
      → Reaches t (transmit p encoder c)
  unfolding transmit encode_tx send_tx send_bytes
  transmit-Encodes encoder bytes need c t fits room goes =
      let (junk, written, size) = Encodes.fits fits (MqttClient.tx_buffer c) room in
      let inside =
        le→ltb (length (bytes ++ junk)) (length bytes)
          (omega (arith, length-append {A = ℕ} bytes junk)) in
      rw (written, inside, take-length-append bytes junk, goes) (refl, refl)

  module _ (N : ℕ) where
    send_ack-Reaches :
        (kind : AckKind) (pid : ℕ) (c : MqttClient T) (t : T)
        → 7 ≤ length (MqttClient.tx_buffer c)
        → Platform.send p
            (packet_bytes (version_of c) (MqttPacket.ack kind (new_ack pid)))
            (MqttClient.transport c)
          ≡ (net_ok tt, t)
        → Reaches t (send_ack p N kind pid c)
    unfolding send_ack packet_bytes
    send_ack-Reaches kind pid c t room goes =
        transmit-Encodes (encode_ack kind (version_of c) (new_ack pid)) _ _ c t
          (Encodes-ack kind (version_of c) (new_ack pid) (new_ack-IsAck (version_of c) pid))
          (omega (arith, new_ack-length (version_of c) pid, room)) goes

    -- The arguments of the acknowledgement: the first and only packet that is sent.
    acknowledge_publish-Reaches :
        (qos : QoS) (pid : ℕ) (c : MqttClient T) (t : T)
        → needs_id qos ≡ true
        → 7 ≤ length (MqttClient.tx_buffer c)
        → Platform.send p
            (packet_bytes (version_of c) (MqttPacket.ack (reply_kind qos) (new_ack pid)))
            (MqttClient.transport c)
          ≡ (net_ok tt, t)
        → Reaches t (acknowledge_publish p N qos (if needs_id qos then some pid else none) c)
    unfolding acknowledge_publish
    acknowledge_publish-Reaches at_most_once pid c t h room goes = cc
    acknowledge_publish-Reaches at_least_once pid c t h room goes =
        send_ack-Reaches pub_ack pid c t room goes
    acknowledge_publish-Reaches exactly_once pid c t h room goes =
        go (send_ack p N pub_rec pid c) (send_ack-Reaches pub_rec pid c t room goes)
      where
        go :
            (r : Outcome E (Unit {0}) × MqttClient T)
            → Reaches t r
            → Reaches t (after r (λ _. track_inbound p N pid))
        go (done u, d) h = h
        go (failed e, d) (bad, h) = cc
        go (panics, d) (bad, h) = cc

    with_event :
        (r : Outcome E (Unit {0}) × MqttClient T) (t : T) (event : Option MqttEvent)
        → Reaches t r
        → ((after r (λ _. answer event)).0 ≡ done event)
          × (MqttClient.transport (after r (λ _. answer {T = T} {E = E} event)).1 ≡ t)
    with_event (done u, d) t event (fine, h) = (refl, h)
    with_event (failed e, d) t event (bad, h) = cc
    with_event (panics, d) t event (bad, h) = cc

    -- A read begins with the bytes of a PUBLISH of QoS 1 or 2, the transmit buffer has room for an
    -- acknowledgement, and the transport takes the bytes of a PUBACK or PUBREC with the id of the
    -- PUBLISH. Then `poll_read`, the part of `poll` behind the read, hands out the PUBLISH, and sends
    -- nothing else.
    pub poll_read-acknowledges :
        (m : Publish) (rest : List ℕ) (n : ℕ) (c : MqttClient T) (t : T)
        → IsPublish (version_of c) m
        → needs_id (Publish.qos m) ≡ true
        → 1 ≤ n
        → n ≤ length (MqttClient.rx_buffer c)
        → take n (MqttClient.rx_buffer c)
          ≡ packet_bytes (version_of c) (MqttPacket.publish m) ++ rest
        → 7 ≤ length (MqttClient.tx_buffer c)
        → Platform.send p
            (packet_bytes (version_of c) (
              MqttPacket.ack
                (reply_kind (Publish.qos m))
                (new_ack (id_or_one (Publish.packet_id m)))))
            (MqttClient.transport c)
          ≡ (net_ok tt, t)
        → ((poll_read p N n c).0 ≡ done (some (event_publish (publish_received (version_of c) m))))
          × (MqttClient.transport (poll_read p N n c).1 ≡ t)
    unfolding poll_read decode_rx handle_packet
    poll_read-acknowledges m rest n c t good level some_bytes inside read room goes =
        let noted = (note_read p N n c).1 in
        let pid = id_or_one (Publish.packet_id m) in
        let not_empty : (n == 0) ≡ false = ground arith in
        rw
          (
            not_empty,
            le→ltb (length (MqttClient.rx_buffer c)) n inside,
            read,
            decode-packet_bytes (version_of c) (MqttPacket.publish m) rest good,
          )
          (with_event
            (acknowledge_publish p N (Publish.qos m)
              (if needs_id (Publish.qos m) then some pid else none) noted)
            t (some (event_publish (publish_received (version_of c) m)))
            (acknowledge_publish-Reaches (Publish.qos m) pid noted t level room goes))
