-- ===== src/EventLoop/Streams.antt =====
-- Reads of whole packets and the beginning of another one.
use mathlib.Core.Path.{ap₂}
use mqtt_async_embedded.Prelude.{
  ℕ, zero, suc, ◌+◌, ◌-◌, ◌≤◌, ◌<◌, ◌≡◌, refl, sym, ap, ◌∙◌, true, false, Option, none, some, List,
  [], ◌∷◌, ◌++◌, length, take, drop, ltb, ◌==◌, arith, All, append_assoc, append-nil, length-append,
  length-take, take-append-drop, drop_behind, drop-length-append,
}
use mqtt_async_embedded.Exec.{Result, ok}
use mqtt_async_embedded.Types.{MqttVersion, MqttPacket}
use mqtt_async_embedded.Codec.Dispatch.{decode}
use mqtt_async_embedded.Codec.Dispatch.RoundTrip.{
  IsPacket, packet_bytes, packet_received, decode-packet_bytes,
}
use mqtt_async_embedded.Frames.{RawPacketFrameIter, new_iter, next}
use mqtt_async_embedded.Frames.Stream.{IsPartial, stream_bytes, next_packet, next_partial}
use mqtt_async_embedded.EventLoop.{Network, done, EventLoop, after, version_of}
use mqtt_async_embedded.EventLoop.Reading.{
  IncomingAction, incoming_action, parsed, onto, with_item, with_frame, parse_frames, parse_read,
  perform_actions, discard, handle_parsed, handle_read,
}

-- What the loop makes of packets.
abbrev pub actions_of : MqttVersion → List MqttPacket → List IncomingAction
actions_of version [] = []
actions_of version (p ∷ ps) =
    onto (incoming_action (packet_received version p)) (actions_of version ps)

module _ (version : MqttVersion) where
  with_item-next :
      (it it' : RawPacketFrameIter) (item : Option (Result (List ℕ))) (rounds : ℕ)
      → next it ≡ (item, it')
      → parse_frames version (suc rounds) it
        ≡ with_item version item (parse_frames version rounds it')
  unfolding parse_frames
  with_item-next it it' item rounds h =
      ap (λ r. with_item version r.0 (parse_frames version rounds r.1)) h

  with_frame-packet :
      (p : MqttPacket) (actions : List IncomingAction) (consumed : ℕ)
      → IsPacket version p
      → with_frame
          (decode version (packet_bytes version p))
          (packet_bytes version p)
          (parsed actions consumed)
        ≡ parsed
            (onto (incoming_action (packet_received version p)) actions)
            (length (packet_bytes version p) + consumed)
  with_frame-packet p actions consumed good =
      ap (λ r. with_frame r (packet_bytes version p) (parsed actions consumed))
        (ap (decode version) (sym (append-nil (packet_bytes version p)))
          ∙ decode-packet_bytes version p [] good)

  frames_parsed :
      (ps : List MqttPacket) (tail buffer : List ℕ) (offset rounds : ℕ)
      → All (IsPacket version) ps
      → IsPartial tail
      → drop offset buffer ≡ stream_bytes version ps ++ tail
      → length ps < rounds
      → parse_frames version rounds (record { buffer = buffer; offset = offset })
        ≡ parsed (actions_of version ps) (length (stream_bytes version ps))
  unfolding stream_bytes
  frames_parsed ps tail buffer offset zero good partial e few = absurd (omega arith)
  frames_parsed [] tail buffer offset (suc rounds) good partial e few =
      let it : RawPacketFrameIter = record { buffer = buffer; offset = offset } in
      with_item-next it (next it).1 none rounds
        (ap (λ i. (i, (next it).1)) (next_partial buffer tail offset e partial))
  frames_parsed (p ∷ ps) tail buffer offset (suc rounds) (g, good) partial e few =
      let bytes : List ℕ = packet_bytes version p in
      let more : List ℕ = stream_bytes version ps ++ tail in
      let here : drop offset buffer ≡ bytes ++ more =
        e ∙ append_assoc bytes (stream_bytes version ps) tail in
      let rest =
        frames_parsed ps tail buffer (offset + length bytes) rounds good partial
          (drop_behind offset buffer bytes more here) (omega arith) in
      with_item-next _ _ (some (ok bytes)) rounds (next_packet version p buffer more offset g here)
      ∙ ap (with_frame (decode version bytes) bytes) rest
      ∙ with_frame-packet p (actions_of version ps) (length (stream_bytes version ps)) g
      ∙ ap (parsed (actions_of version (p ∷ ps)))
          (sym (length-append bytes (stream_bytes version ps)))

  few_packets :
      (ps : List MqttPacket)
      → All (IsPacket version) ps
      → length ps ≤ length (stream_bytes version ps)
  unfolding stream_bytes packet_bytes
  few_packets [] good = omega arith
  few_packets (p ∷ ps) (g, good) =
      omega (
        arith,
        few_packets ps good,
        length-append (packet_bytes version p) (stream_bytes version ps),
      )

  parse_read-stream :
      (ps : List MqttPacket) (tail : List ℕ)
      → All (IsPacket version) ps
      → IsPartial tail
      → parse_read version (stream_bytes version ps ++ tail)
        ≡ parsed (actions_of version ps) (length (stream_bytes version ps))
  unfolding new_iter
  parse_read-stream ps tail good partial =
      let read = stream_bytes version ps ++ tail in
      frames_parsed ps tail read 0 (suc (length read)) good partial refl
        (omega (arith, few_packets ps good, length-append (stream_bytes version ps) tail))

-- A read has left `bytes` at the front of the receive buffer, before the cursor.
pub record HasRead {T : Type 0} (bytes : List ℕ) (s : EventLoop T) : Type 0 where
  pub inside : EventLoop.rx_cursor s ≤ length (EventLoop.rx_buf s)
  pub front : take (EventLoop.rx_cursor s) (EventLoop.rx_buf s) ≡ bytes

-- The state in which some bytes are left for the next read.
abbrev pub left_with : {T : Type 0} → List ℕ → EventLoop T → EventLoop T
left_with tail s = record s {
  rx_buf = tail ++ drop (length tail) (EventLoop.rx_buf s);
  rx_cursor = length tail;
}

-- The state behind the read of `count` bytes.
abbrev pub arrived : {T : Type 0} → ℕ → EventLoop T → EventLoop T
arrived count s = record s { rx_cursor = EventLoop.rx_cursor s + count }

module _ {T : Type 0} (n : Network T) where
  discard-stream :
      (bytes tail : List ℕ) (s : EventLoop T)
      → HasRead (bytes ++ tail) s
      → discard n (length bytes) s ≡ (done tt, left_with tail s)
  unfolding discard
  discard-stream [] tail s read =
      let cursor = EventLoop.rx_cursor s in
      let buf = EventLoop.rx_buf s in
      let size : cursor ≡ length tail =
        sym (length-take cursor buf read.inside) ∙ ap length read.front in
      ap₂ (λ b c. (done tt, record s { rx_buf = b; rx_cursor = c }))
        (sym (take-append-drop cursor buf) ∙ ap₂ (λ l k. l ++ drop k buf) read.front size) size
  discard-stream (b ∷ bs) tail s read =
      let bytes : List ℕ = b ∷ bs in
      let cursor = EventLoop.rx_cursor s in
      let buf = EventLoop.rx_buf s in
      let size : cursor ≡ length bytes + length tail =
        sym (length-take cursor buf read.inside)
        ∙ ap length read.front
        ∙ length-append bytes tail in
      let some_bytes : ltb 0 (length bytes) ≡ true = ground arith in
      let within : ltb cursor (length bytes) ≡ false = ground arith in
      let kept : drop (length bytes) (take cursor buf) ≡ tail =
        ap (drop (length bytes)) read.front ∙ drop-length-append bytes tail in
      let left : cursor - length bytes ≡ length tail = omega arith in
      simp (some_bytes, within)
        (ap₂ (λ l c. (done tt, record s { rx_buf = l ++ drop (length l) buf; rx_cursor = c })) kept
          left)

  -- A read of at least one byte after which the receive buffer holds the bytes of some packets that
  -- the wire can hold, and then a part of another one, is handled as the actions of those packets, one
  -- after the other, in the state in which that part stands at the front of the buffer before the
  -- cursor, for the next read to go on from. The part is less than two bytes, or has the whole
  -- remaining length and less content than that announces.
  pub handle_read-stream :
      (count : ℕ) (ps : List MqttPacket) (tail : List ℕ) (s : EventLoop T)
      → 1 ≤ count
      → HasRead (stream_bytes (version_of s) ps ++ tail) (arrived count s)
      → All (IsPacket (version_of s)) ps
      → IsPartial tail
      → handle_read n count s
        ≡ perform_actions n (actions_of (version_of s) ps) (left_with tail (arrived count s))
  unfolding handle_read handle_parsed
  handle_read-stream count ps tail s some_read read good partial =
      let cursor = EventLoop.rx_cursor s + count in
      let version = version_of s in
      let more : count == 0 ≡ false = ground arith in
      let within : ltb (length (EventLoop.rx_buf s)) cursor ≡ false = ground (arith, read.inside) in
      let found : parse_read version (take cursor (EventLoop.rx_buf s))
          ≡ parsed (actions_of version ps) (length (stream_bytes version ps)) =
        ap (parse_read version) read.front ∙ parse_read-stream version ps tail good partial in
      simp (more, within, found)
        (ap (λ r. after r (λ u. perform_actions n (actions_of version ps)))
          (discard-stream (stream_bytes version ps) tail (arrived count s) read))
