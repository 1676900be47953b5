-- ===== src/EventLoop/Rounds.antt =====
-- The loop of `drive_connection` over the frames of a read: how often it goes round.
use mqtt_async_embedded.Prelude.{
  ℕ, zero, suc, ◌+◌, ◌<◌, ◌≡◌, refl, sym, ap, ◌∙◌, Option, none, some, List, length, arith,
}
use mathlib.Core.Path.{ap₂}
use mqtt_async_embedded.Exec.{Result, ok, err, panic, PacketError}
use mqtt_async_embedded.Types.{MqttVersion}
use mqtt_async_embedded.Codec.Dispatch.{decode}
use mqtt_async_embedded.Frames.{RawPacketFrameIter, new_iter, next}
use mqtt_async_embedded.Frames.Ends.{left_over, Moves, next-Moves}
use mqtt_async_embedded.EventLoop.{EventLoop}
use mqtt_async_embedded.EventLoop.Reading.{
  parse_endless, with_item, with_frame, parse_frames, parse_read,
}

module _ (version : MqttVersion) where
  -- An iterator that stays at an error is asked again for ever.
  pub stays_endless :
      (it : RawPacketFrameIter) (e : PacketError)
      → (next it).0 ≡ some (err e)
      → (next it).1 ≡ it
      → (rounds : ℕ) → parse_frames version rounds it ≡ parse_endless
  unfolding parse_frames
  stays_endless it e item stays zero = refl
  stays_endless it e item stays (suc rounds) =
      ap₂ (λ i j. with_item version i (parse_frames version rounds j)) item stays
      ∙ stays_endless it e item stays rounds

  -- One round, where the rounds behind a frame are enough.
  item_case :
      (item : Option (Result (List ℕ))) (it it' : RawPacketFrameIter) (rounds more : ℕ)
      → (next it).0 ≡ item
      → (next it).1 ≡ it'
      → Moves it item it'
      → (left_over it' < left_over it
          → parse_frames version rounds it' ≡ parse_frames version more it')
      → with_item version item (parse_frames version rounds it')
        ≡ with_item version item (parse_frames version more it')
  item_case none it it' rounds more item at moves rest = refl
  item_case (some (ok frame)) it it' rounds more item at moves rest =
      ap (with_frame (decode version frame) frame) (rest moves)
  item_case (some (err e)) it it' rounds more item at moves rest =
      let stays = stays_endless it e item (at ∙ moves) in
      ap (parse_frames version rounds) moves
      ∙ stays rounds
      ∙ sym (ap (parse_frames version more) moves ∙ stays more)
  item_case (some panic) it it' rounds more item at moves rest = refl

  -- Once there is a round for each byte that is left, and one more, the number of rounds does not matter.
  frames_enough :
      (rounds more : ℕ) (it : RawPacketFrameIter)
      → left_over it < rounds
      → left_over it < more
      → parse_frames version rounds it ≡ parse_frames version more it
  unfolding parse_frames
  frames_enough zero more it few many = absurd (omega arith)
  frames_enough (suc rounds) zero it few many = absurd (omega arith)
  frames_enough (suc rounds) (suc more) it few many =
      item_case (next it).0 it (next it).1 rounds more refl refl (next-Moves it)
        (λ moves. frames_enough rounds more (next it).1 (omega arith) (omega arith))

  -- The loop over the frames of a read, errors passed over, that is not at its end after one round
  -- more than the read has bytes never ends: more rounds make no difference.
  pub parse_read-rounds :
      (read : List ℕ) (more : ℕ)
      → parse_frames version (suc (length read) + more) (new_iter read) ≡ parse_read version read
  unfolding new_iter
  parse_read-rounds read more =
      frames_enough (suc (length read) + more) (suc (length read)) (new_iter read) (omega arith)
        (omega arith)
