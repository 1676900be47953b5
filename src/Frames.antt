-- ===== src/Frames.antt =====
-- `RawPacketFrameIter`, crates/mqtt-packet/src/codec.rs, lines 852 to 892: the iterator over the
-- packets of one network read.
pub mod Stream
pub mod Stuck
pub mod Ends
use mqtt_async_embedded.Prelude.{
  ℕ, zero, suc, ◌+◌, Option, none, some, List, [], ◌∷◌, ◌++◌, length, drop, take, ltb, leb,
  if◌then◌else◌,
}
use mqtt_async_embedded.Exec.{PacketError, Result, ok, err, panic}
use mqtt_async_embedded.Varint.{peek_variable_byte_integer}

pub record RawPacketFrameIter : Type 0 where
  pub buffer : List ℕ
  pub offset : ℕ

unfoldable pub new_iter : List ℕ → RawPacketFrameIter
new_iter buffer = record { buffer = buffer; offset = 0 }

-- `match peek_variable_byte_integer(&slice[1..]) { … }`
peeked :
    Result (ℕ × ℕ) → List ℕ → RawPacketFrameIter → Option (Result (List ℕ)) × RawPacketFrameIter
peeked (ok (remaining_len, len_bytes)) slice it =
    let total_packet_len = 1 + len_bytes + remaining_len in
    if ltb (length slice) total_packet_len then (none, it) else (
      some (ok (take total_packet_len slice)),
      record it { offset = it.offset + total_packet_len },
    )
peeked (err e) slice it = (some (err e), it)
peeked panic slice it = (some panic, it)

-- `Iterator::next`
pub next : RawPacketFrameIter → Option (Result (List ℕ)) × RawPacketFrameIter
unfolding peeked
next it =
    let slice = drop it.offset it.buffer in
    if leb (length it.buffer) it.offset
    then (none, it)
    else if ltb (length slice) 2
    then (none, it)
    else peeked (peek_variable_byte_integer (drop 1 slice)) slice it

-- The first `n` items that a loop over the iterator takes: it ends at the first `None`.
pub take_items : ℕ → RawPacketFrameIter → List (Result (List ℕ))
take_items zero it = []
take_items (suc n) it =
    let (item, it') = next it in elim item [ none ↦ [] | some r ↦ r ∷ take_items n it' ]
