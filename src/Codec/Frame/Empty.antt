-- ===== src/Codec/Frame/Empty.antt =====
-- A frame with no content, whose encoder reaches `copy_within` with the range 5..5.
use mqtt_async_embedded.Prelude.{
  ℕ, ◌+◌, ◌-◌, ◌≤◌, ◌<◌, ◌≡◌, refl, ap, ◌∙◌, List, [], ◌∷◌, ◌++◌, length, drop, length-append,
  length-drop, arith, lt→leb,
}
use mqtt_async_embedded.Exec.{
  Result, err, panic, pure, ◌>>◌, >>=_ok, >>_ok, >>=_err, >>_err, >>_panic, get-bind,
  buffer_too_small,
}
use mqtt_async_embedded.Wire.{Writer, put_byte}
use mqtt_async_embedded.Wire.Writes.{Writes-put_byte}
use mqtt_async_embedded.Varint.{write_variable_byte_integer_len}
use mqtt_async_embedded.Varint.Encoding.{varint, groups}
use mqtt_async_embedded.Varint.Write.{Fills-varint}
use mqtt_async_embedded.Codec.Frame.{
  skip, patch, copy_within, close_frame, frame_writer, encode_frame, buffer_of,
}
use mqtt_async_embedded.Codec.Frame.Encodes.{patched}

-- The writer behind the first byte and the reserved bytes.
module _ (first_byte a : ℕ) (room : List ℕ) where
  abbrev five : Writer
  five = record { cursor = 5; buf = first_byte ∷ room }

  opened :
      (frame_writer first_byte (pure tt) (record { cursor = 0; buf = a ∷ room })) ≡ close_frame five
  unfolding frame_writer
  opened =
      >>_ok (put_byte first_byte >> (skip 4 >> pure tt)) close_frame
        (record { cursor = 0; buf = a ∷ room }) {s' = five}
        (>>_ok (put_byte first_byte) (skip 4 >> pure tt) (record { cursor = 0; buf = a ∷ room })
            {s' = record { cursor = 1; buf = first_byte ∷ room }}
            ((Writes-put_byte first_byte).fits [] (a ∷ room) (omega arith))
          ∙ >>_ok (skip 4) (pure tt) (record { cursor = 1; buf = first_byte ∷ room }) {s' = five}
              (unfold skip in refl))

length-varint_zero : length (varint 0) ≡ 1
unfolding groups
length-varint_zero = refl

module _ (first_byte b : ℕ) (room : List ℕ) (small : length room ≤ 2) where
  abbrev with_len : Writer
  with_len = record {
    cursor = 5;
    buf = first_byte ∷ (varint 0 ++ drop (length (varint 0)) (b ∷ room));
  }

  length-with_len : length with_len.buf < 5
  length-with_len = omega (
    arith,
    length-varint_zero,
    length-append (varint 0) (drop (length (varint 0)) (b ∷ room)),
    length-drop (length (varint 0)) (b ∷ room),
  )

  too_far : (copy_within 5 5 (1 + length (varint 0)) with_len).0 ≡ panic
  unfolding copy_within
  too_far = rw (lt→leb 5 (length with_len.buf) length-with_len)

  close_panics : (close_frame (record { cursor = 5; buf = first_byte ∷ b ∷ room })).0 ≡ panic
  unfolding close_frame
  close_panics =
      ap (λ (r : Result ℕ × Writer). r.0)
        (get-bind _ (record { cursor = 5; buf = first_byte ∷ b ∷ room })
          ∙ >>=_ok (patch 1 (write_variable_byte_integer_len (5 - 5))) _
              (record { cursor = 5; buf = first_byte ∷ b ∷ room }) {s' = with_len}
              (patched first_byte 0 (b ∷ room) (omega arith) (omega (arith, length-varint_zero)) 5))
      ∙ >>_panic (copy_within 5 5 (1 + length (varint 0))) _ with_len too_far

-- In a buffer of two to four bytes the encoder panics.
pub frame_empty_panics :
    (first_byte : ℕ) (buf : List ℕ)
    → 2 ≤ length buf
    → length buf ≤ 4
    → (encode_frame first_byte (pure tt) buf).0 ≡ panic
unfolding encode_frame
frame_empty_panics first_byte [] h k = absurd (omega arith)
frame_empty_panics first_byte (a ∷ []) h k = absurd (omega arith)
frame_empty_panics first_byte (a ∷ b ∷ room) h k =
    ap (λ r. (buffer_of r).0) (opened first_byte a (b ∷ room))
    ∙ close_panics first_byte b room (omega arith)

-- In a smaller buffer it answers `BufferTooSmall`.
pub frame_empty_short :
    (first_byte : ℕ) (buf : List ℕ)
    → length buf < 2
    → (encode_frame first_byte (pure tt) buf).0 ≡ err buffer_too_small
unfolding encode_frame frame_writer
frame_empty_short first_byte [] h =
    >>_err (put_byte first_byte >> (skip 4 >> pure tt)) close_frame
      (record { cursor = 0; buf = [] })
      (>>_err (put_byte first_byte) (skip 4 >> pure tt) (record { cursor = 0; buf = [] })
        ((Writes-put_byte first_byte).short [] [] (omega arith)))
frame_empty_short first_byte (a ∷ []) h =
    ap (λ r. (buffer_of r).0) (opened first_byte a []) ∙ no_len first_byte
  where
    no_len :
        (first_byte : ℕ)
        → (close_frame (record { cursor = 5; buf = first_byte ∷ [] })).0 ≡ err buffer_too_small
    no_len first_byte =
        unfold close_frame in
        ap (λ (r : Result ℕ × Writer). r.0)
          (get-bind _ (record { cursor = 5; buf = first_byte ∷ [] }))
        ∙ >>=_err (patch 1 (write_variable_byte_integer_len (5 - 5))) _
            (record { cursor = 5; buf = first_byte ∷ [] })
            (unfold patch in
              (Fills-varint 0 (omega arith)).short [] (omega (arith, length-varint_zero)))
frame_empty_short first_byte (a ∷ b ∷ room) h = absurd (omega arith)
