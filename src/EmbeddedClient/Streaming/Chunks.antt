-- ===== src/EmbeddedClient/Streaming/Chunks.antt =====
-- The chunks of a streamed message: how many bytes the writer lets through.
use mqtt_async_embedded.Prelude.{
  ℕ, ◌+◌, ◌%◌, ◌≤◌, ◌<◌, ◌≡◌, All, List, [], ◌∷◌, length, ltb, ltb→le, ◌==◌, if◌then◌else◌, arith,
  Bool-cases, inl, inr,
}
use mqtt_async_embedded.EmbeddedErrors.{MqttError}
use mqtt_async_embedded.Varint.Encoding.{usize_limit}
use mqtt_async_embedded.EmbeddedClient.{
  Platform, Outcome, done, failed, panics, is_done, MqttClient, send_bytes,
}
use mqtt_async_embedded.EmbeddedClient.Streaming.{
  MqttStreamWriter, new_writer, account, total_length, write_chunk, write_dma_vectored,
  send_vectored, finish,
}

-- A call of the writer: `write_chunk`, which is also `write_dma_slice`, or `write_dma_vectored`.
pub data WriteCall : Type 0 where
  chunk : List ℕ → WriteCall
  vectored : List (List ℕ) → WriteCall

abbrev pub size_of : WriteCall → ℕ
size_of (chunk bytes) = length bytes
size_of (vectored slices) = total_length slices

-- The sum of the lengths is a `usize`.
abbrev pub IsSized : WriteCall → Type 0
IsSized w = size_of w < usize_limit

module _ {T E : Type 0} (p : Platform T E) where
  abbrev pub perform :
      WriteCall
      → MqttStreamWriter
      → MqttClient T
      → (Outcome E (Unit {0}) × MqttClient T) × MqttStreamWriter
  perform (chunk bytes) w c = write_chunk p bytes w c
  perform (vectored slices) w c = write_dma_vectored p slices w c

  -- The calls one after the other, whatever becomes of each: the bytes of those that were accepted,
  -- and the writer after them.
  unfoldable pub write_all : List WriteCall → MqttStreamWriter → MqttClient T → ℕ × MqttStreamWriter
  write_all [] w c = (0, w)
  write_all (call ∷ calls) w c =
      let ((answer, c'), w') = perform call w c in
      let (written, last) = write_all calls w' c' in
      ((if is_done answer then size_of call else 0) + written, last)

  account-bytes :
      (sent : ℕ) (w : MqttStreamWriter) (r : Outcome E (Unit {0}) × MqttClient T)
      → sent ≤ MqttStreamWriter.bytes_remaining w
      → (if is_done (account p sent w r).0.0 then sent else 0)
          + MqttStreamWriter.bytes_remaining (account p sent w r).1
        ≡ MqttStreamWriter.bytes_remaining w
  account-bytes sent w (done u, c) h = omega arith
  account-bytes sent w (failed e, c) h = omega arith
  account-bytes sent w (panics, c) h = omega arith

  -- The guard of both functions, and what is accounted behind it.
  guarded-bytes :
      (sent : ℕ) (w : MqttStreamWriter) (c : MqttClient T) (r : Outcome E (Unit {0}) × MqttClient T)
      → let guarded =
          if ltb (MqttStreamWriter.bytes_remaining w) sent
          then ((failed MqttError.buffer_too_small, c), w)
          else account p sent w r in
        (if is_done guarded.0.0 then sent else 0) + MqttStreamWriter.bytes_remaining guarded.1
        ≡ MqttStreamWriter.bytes_remaining w
  guarded-bytes sent w c r =
      let left = MqttStreamWriter.bytes_remaining w in
      elim (Bool-cases (ltb left sent)) [
        | inl long ↦ rw long (omega arith)
        | inr short ↦ rw short (account-bytes sent w r (ltb→le left sent short))
      ]

  perform-bytes :
      (call : WriteCall) (w : MqttStreamWriter) (c : MqttClient T)
      → IsSized call
      → (if is_done (perform call w c).0.0 then size_of call else 0)
          + MqttStreamWriter.bytes_remaining (perform call w c).1
        ≡ MqttStreamWriter.bytes_remaining w
  unfolding write_chunk write_dma_vectored
  perform-bytes (chunk bytes) w c sized = guarded-bytes (length bytes) w c (send_bytes p bytes c)
  perform-bytes (vectored slices) w c sized =
      let whole : total_length slices % usize_limit ≡ total_length slices = omega arith in
      rw whole (guarded-bytes (total_length slices) w c (send_vectored p slices c))

  write_all-bytes :
      (calls : List WriteCall) (w : MqttStreamWriter) (c : MqttClient T)
      → All IsSized calls
      → (write_all calls w c).0 + MqttStreamWriter.bytes_remaining (write_all calls w c).1
        ≡ MqttStreamWriter.bytes_remaining w
  unfolding write_all
  write_all-bytes [] w c sized = omega arith
  write_all-bytes (call ∷ calls) w c (size, sized) =
      let r = perform call w c in
      omega (arith, perform-bytes call w c size, write_all-bytes calls r.1 r.0.1 sized)

  -- Whatever chunks and vectors of slices are written, the lengths of a vector adding up to a
  -- `usize`, and whatever becomes of them, never more bytes are accepted than were announced, and
  -- `finish` is content exactly if all of them were.
  pub write_all-finish :
      (calls : List WriteCall) (total : ℕ) (c : MqttClient T)
      → All IsSized calls
      → let (written, last) = write_all calls (new_writer total) c in
        (written ≤ total) × (is_done (finish {E = E} last) ≡ (written == total))
  unfolding finish
  write_all-finish calls total c sized =
      let bytes = write_all-bytes calls (new_writer total) c sized in
      (omega (arith, bytes), ground (arith, bytes))
