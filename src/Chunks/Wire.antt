-- ===== src/Chunks/Wire.antt =====
-- A chunk through its bytes on the wire.
use mqtt_async_embedded.Prelude.{
  ℕ, ◌+◌, ◌≤◌, ◌<◌, ◌≡◌, refl, false, List, ◌++◌, length, length-append, le→ltb, arith,
}
use mqtt_async_embedded.Buffers.{Buffers, size}
use mqtt_async_embedded.Chunks.{StreamChunk, encode_wire, decode_wire}

module _ (b : Buffers) where
  pub length-encode_wire :
      (c : StreamChunk) → length (encode_wire b c) ≡ 16 + length (StreamChunk.payload c)
  unfolding encode_wire
  length-encode_wire c =
      let seq = Buffers.put b 8 (StreamChunk.seq_id c) in
      let time = Buffers.put b 8 (StreamChunk.timestamp_ns c) in
      omega (
        arith,
        length-append {0} seq (time ++ StreamChunk.payload c),
        length-append {0} time (StreamChunk.payload c),
        Buffers.length-put b 8 (StreamChunk.seq_id c),
        Buffers.length-put b 8 (StreamChunk.timestamp_ns c),
      )

  -- A chunk whose numbers are u64 is decoded from its bytes with its sequence number, time and
  -- payload, under the topic that it arrived on, and never marked as a recovery.
  pub decode_wire-encode_wire :
      (topic : List ℕ) (c : StreamChunk)
      → StreamChunk.seq_id c < size 8
      → StreamChunk.timestamp_ns c < size 8
      → decode_wire b topic (encode_wire b c) ≡ record c { topic = topic; is_recovery = false }
  unfolding decode_wire encode_wire
  decode_wire-encode_wire topic c small_seq small_time =
      let time = Buffers.put b 8 (StreamChunk.timestamp_ns c) in
      let wire = Buffers.put b 8 (StreamChunk.seq_id c) ++ (time ++ StreamChunk.payload c) in
      let long : 16 ≤ length wire = omega (arith, length-encode_wire c) in
      rw
        (
          le→ltb (length wire) 16 long,
          Buffers.get-put b 8 (StreamChunk.seq_id c) (time ++ StreamChunk.payload c) small_seq,
          Buffers.get-put b 8 (StreamChunk.timestamp_ns c) (StreamChunk.payload c) small_time,
        )
        refl
