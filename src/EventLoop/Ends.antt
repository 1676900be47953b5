-- ===== src/EventLoop/Ends.antt =====
-- The loop of `drive_connection` over the frames of a read: when it comes to its end.
use mqtt_async_embedded.Prelude.{
  ℕ, zero, suc, ◌+◌, ◌<◌, ◌≡◌, ◌≢◌, refl, ap, ◌∙◌, Option, none, some, List, ◌⊎◌, inl, inr, length,
  arith,
}
use mathlib.Core.Path.{ap₂}
use mqtt_async_embedded.Exec.{Result, ok, err, panic, PacketError}
use mqtt_async_embedded.Types.{MqttVersion, MqttPacket}
use mqtt_async_embedded.Codec.Dispatch.{decode}
use mqtt_async_embedded.Frames.{RawPacketFrameIter, new_iter, next}
use mqtt_async_embedded.Frames.Ends.{left_over, Moves, next-Moves}
use mqtt_async_embedded.EventLoop.Reading.{
  ReadFrames, parsed, bad_packet, parse_panics, parse_endless, with_packet, with_frame, with_item,
  parse_frames, parse_read,
}
use mqtt_async_embedded.EventLoop.Rounds.{stays_endless, parse_read-rounds}

-- Behind some frames that are decoded, or at once, the iterator answers an error and stays.
pub data Spins (version : MqttVersion) : RawPacketFrameIter → Type 0 where
  at_error :
      (it : RawPacketFrameIter) (e : PacketError) → next it ≡ (some (err e), it) → Spins version it
  behind :
      (it it' : RawPacketFrameIter) (frame : List ℕ) (packet : Option MqttPacket)
      → next it ≡ (some (ok frame), it')
      → decode version frame ≡ ok packet
      → Spins version it'
      → Spins version it

with_packet-endless :
    (packet : Option MqttPacket) (frame : List ℕ)
    → with_packet packet frame parse_endless ≡ parse_endless
with_packet-endless none frame = refl
with_packet-endless (some p) frame = refl

with_packet_ends :
    (packet : Option MqttPacket) (frame : List ℕ) (rest : ReadFrames)
    → rest ≢ parse_endless
    → with_packet packet frame rest ≢ parse_endless
with_packet_ends none frame (parsed actions consumed) h = λ e. cc
with_packet_ends (some p) frame (parsed actions consumed) h = λ e. cc
with_packet_ends none frame bad_packet h = λ e. cc
with_packet_ends (some p) frame bad_packet h = λ e. cc
with_packet_ends none frame parse_panics h = λ e. cc
with_packet_ends (some p) frame parse_panics h = λ e. cc
with_packet_ends packet frame parse_endless h = λ e. h refl

module _ (version : MqttVersion) where
  Spins-endless :
      (it : RawPacketFrameIter)
      → Spins version it
      → (rounds : ℕ) → parse_frames version rounds it ≡ parse_endless
  unfolding parse_frames
  Spins-endless it (at_error _ e stays) rounds =
      stays_endless version it e (ap (λ r. r.0) stays) (ap (λ r. r.1) stays) rounds
  Spins-endless it (behind _ it' frame packet moves decodes spins) zero = refl
  Spins-endless it (behind _ it' frame packet moves decodes spins) (suc rounds) =
      ap (λ r. with_item version r.0 (parse_frames version rounds r.1)) moves
      ∙ ap₂ (λ r rest. with_frame r frame rest) decodes (Spins-endless it' spins rounds)
      ∙ with_packet-endless packet frame

  frame_case :
      (r : Result (Option MqttPacket)) (it it' : RawPacketFrameIter) (frame : List ℕ)
      (rest : ReadFrames)
      → decode version frame ≡ r
      → next it ≡ (some (ok frame), it')
      → (rest ≢ parse_endless) ⊎ Spins version it'
      → (with_frame r frame rest ≢ parse_endless) ⊎ Spins version it
  frame_case (ok packet) it it' frame rest decodes at (inl ends) =
      inl (with_packet_ends packet frame rest ends)
  frame_case (ok packet) it it' frame rest decodes at (inr spins) =
      inr (behind it it' frame packet at decodes spins)
  frame_case (err e) it it' frame rest decodes at ih = inl (λ e. cc)
  frame_case panic it it' frame rest decodes at ih = inl (λ e. cc)

  item_case :
      (item : Option (Result (List ℕ))) (it it' : RawPacketFrameIter) (rest : ReadFrames)
      → next it ≡ (item, it')
      → Moves it item it'
      → (left_over it' < left_over it → (rest ≢ parse_endless) ⊎ Spins version it')
      → (with_item version item rest ≢ parse_endless) ⊎ Spins version it
  item_case none it it' rest at moves ih = inl (λ e. cc)
  item_case (some (ok frame)) it it' rest at moves ih =
      frame_case (decode version frame) it it' frame rest refl at (ih moves)
  item_case (some (err e)) it it' rest at moves ih =
      inr (at_error it e (at ∙ ap (λ i. (some (err e), i)) moves))
  item_case (some panic) it it' rest at moves ih = inl (λ e. cc)

  frames_end :
      (rounds : ℕ) (it : RawPacketFrameIter)
      → left_over it < rounds
      → (parse_frames version rounds it ≢ parse_endless) ⊎ Spins version it
  unfolding parse_frames
  frames_end zero it few = absurd (omega arith)
  frames_end (suc rounds) it few =
      item_case (next it).0 it (next it).1 (parse_frames version rounds (next it).1) refl
        (next-Moves it) (λ moves. frames_end rounds (next it).1 (omega arith))

  -- Either the loop over the frames of a read, errors passed over, is at its end after one round more
  -- than the read has bytes, and more rounds make no difference; or the iterator answers an error at
  -- which it stays, behind frames all of which are decoded, and the loop is not at its end after any
  -- number of rounds.
  pub parse_read_ends :
      (read : List ℕ)
      → ((parse_read version read ≢ parse_endless)
          × ((more : ℕ)
              → parse_frames version (suc (length read) + more) (new_iter read)
                ≡ parse_read version read))
        ⊎ (Spins version (new_iter read)
            × ((rounds : ℕ) → parse_frames version rounds (new_iter read) ≡ parse_endless))
  unfolding new_iter
  parse_read_ends read = elim (frames_end (suc (length read)) (new_iter read) (omega arith)) [
    | inl ends ↦ inl (ends, parse_read-rounds version read)
    | inr spins ↦ inr (spins, Spins-endless (new_iter read) spins)
  ]
