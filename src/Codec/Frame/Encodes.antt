-- ===== src/Codec/Frame/Encodes.antt =====
-- What it means that an encoder writes a frame, for buffers of every size, and `encode_frame`.
use mqtt_async_embedded.Prelude.{
  ℕ, zero, suc, ◌+◌, ◌-◌, ◌≤◌, ◌<◌, ◌≡◌, refl, sym, ap, ◌∙◌, List, [], ◌∷◌, ◌++◌, length, take,
  drop, arith, le→leb, length-append, length-drop, take-length-append, drop-length-append,
  append_assoc,
}
use mathlib.Core.Path.{ap₂}
use mqtt_async_embedded.Exec.{
  Result, ok, err, >>_err, Exec, ◌>>◌, >>=_ok, >>_ok, get-bind, buffer_too_small,
}
use mqtt_async_embedded.Wire.{Writer, put_byte}
use mqtt_async_embedded.Wire.Writes.{Writes, Guards, Writes-put_byte}
use mqtt_async_embedded.Varint.{write_variable_byte_integer_len}
use mqtt_async_embedded.Varint.Encoding.{varint, varint_limit, varint_four, length-groups}
use mqtt_async_embedded.Varint.Write.{Fills-varint}
use mqtt_async_embedded.Fields.{slice}
use mqtt_async_embedded.Codec.Frame.{
  skip, patch, copy_within, close_frame, frame_writer, encode_frame, buffer_of,
}

-- A control packet on the wire.
abbrev pub frame : ℕ → List ℕ → List ℕ
frame first_byte content = first_byte ∷ (varint (length content) ++ content)

-- From every buffer of at least `need` bytes the encoder writes `bytes` at its front and returns
-- their number; a smaller buffer gets `BufferTooSmall`.
pub record Encodes (encode : Exec (List ℕ) ℕ) (bytes : List ℕ) (need : ℕ) : Type 0 where
  pub fits :
      (buf : List ℕ)
      → need ≤ length buf
      → (junk : List ℕ) × (encode buf ≡ (ok (length bytes), bytes ++ junk))
        × (length (bytes ++ junk) ≡ length buf)
  pub short : (buf : List ℕ) → length buf < need → (encode buf).0 ≡ err buffer_too_small

-- The length in its place, over whatever lay there.
pub patched :
    (first_byte n : ℕ) (behind : List ℕ)
    → n < varint_limit
    → length (varint n) ≤ length behind
    → (cursor : ℕ)
    → patch 1
        (write_variable_byte_integer_len n)
        (record { cursor = cursor; buf = first_byte ∷ behind })
      ≡ (
        ok (length (varint n)),
        record {
          cursor = cursor;
          buf = first_byte ∷ (varint n ++ drop (length (varint n)) behind);
        },
      )
unfolding patch
patched first_byte n behind h fits cursor = rw (
  le→leb 1 (length (first_byte ∷ behind)) (omega arith),
  (Fills-varint n (omega arith)).fits behind fits,
)

drop_patched :
    (l xs : List ℕ) (n : ℕ)
    → length l ≤ length xs
    → length l ≤ n
    → drop n (l ++ drop (length l) xs) ≡ drop n xs
drop_patched [] xs n h p = refl
drop_patched (y ∷ l) [] n h p = absurd (omega arith)
drop_patched (y ∷ l) (x ∷ xs) zero h p = absurd (omega arith)
drop_patched (y ∷ l) (x ∷ xs) (suc n) h p = drop_patched l xs n (omega arith) (omega arith)

-- The content moved down behind the length.
module _ (first_byte : ℕ) (gap content tail : List ℕ) (size : length content < varint_limit)
    (four : length gap ≡ 4) where
  abbrev header : List ℕ
  header = varint (length content)

  abbrev laid : List ℕ
  laid = gap ++ (content ++ tail)

  abbrev before : List ℕ
  before = first_byte ∷ (header ++ drop (length header) laid)

  header_fits : (1 ≤ length header) × (length header ≤ 4)
  header_fits = rw (varint_four (length content) size) (length-groups 3 (length content))

  length-laid : length laid ≡ 4 + length content + length tail
  length-laid = omega (arith, length-append gap (content ++ tail), length-append content tail)

  length-before : length before ≡ 5 + length content + length tail
  length-before = omega (
    arith,
    length-append header (drop (length header) laid),
    length-drop (length header) laid,
    length-laid,
    header_fits,
  )

  content_there : drop 5 before ≡ content ++ tail
  content_there =
      drop_patched header laid 4 (omega (arith, length-laid, header_fits))
        (omega (arith, header_fits))
      ∙ ap (λ k. drop k laid) (sym four)
      ∙ drop-length-append gap (content ++ tail)

  abbrev junk : List ℕ
  junk = drop (1 + length header + (5 + length content - 5)) before

  head_there : take (1 + length header) before ≡ first_byte ∷ header
  head_there =
      ap (λ k. take k before) {y = suc (length header)} (omega arith)
      ∙ ap (λ l. first_byte ∷ l) (take-length-append header (drop (length header) laid))

  slice_there : slice 5 (5 + length content - 5) before ≡ content
  slice_there = ap₂ (λ k l. take k l) (omega arith) content_there ∙ take-length-append content tail

  moved_down :
      copy_within 5
        (5 + length content)
        (1 + length header)
        (record { cursor = 5 + length content; buf = before })
      ≡ (ok tt, record { cursor = 5 + length content; buf = frame first_byte content ++ junk })
  unfolding copy_within
  moved_down =
      rw
        (
          le→leb (5 + length content) (length before) (omega (arith, length-before)),
          le→leb (1 + length header + (5 + length content - 5)) (length before)
              (omega (arith, length-before, header_fits)),
          head_there,
          slice_there,
        )
        (ap (λ l. (ok tt, record { cursor = 5 + length content; buf = first_byte ∷ l }))
          (sym (append_assoc header content junk)))

  closed : close_frame (record { cursor = 5 + length content; buf = first_byte ∷ laid }) ≡ (
    ok (length (frame first_byte content)),
    record { cursor = 5 + length content; buf = frame first_byte content ++ junk },
  )
  unfolding close_frame
  closed =
      get-bind _ (record { cursor = 5 + length content; buf = first_byte ∷ laid })
      ∙ >>=_ok (patch 1 (write_variable_byte_integer_len (5 + length content - 5))) _ _
          {a = length header} {s' = record { cursor = 5 + length content; buf = before }}
          (ap
              (λ n.
                patch 1 (write_variable_byte_integer_len n)
                  (record { cursor = 5 + length content; buf = first_byte ∷ laid }))
              (omega arith)
            ∙ patched first_byte (length content) laid size
                (omega (arith, length-laid, header_fits)) (5 + length content))
      ∙ >>_ok (copy_within 5 (5 + length content) (1 + length header)) _ _ moved_down
      ∙ ap
          (λ n.
            (ok n, record { cursor = 5 + length content; buf = frame first_byte content ++ junk }))
          (omega (arith, length-append header content))

  length-closed : length (frame first_byte content ++ junk) ≡ 5 + length content + length tail
  length-closed = omega (
    arith,
    length-append (frame first_byte content) junk,
    length-append header content,
    length-drop (1 + length header + (5 + length content - 5)) before,
    length-before,
    header_fits,
  )

module _ (first_byte : ℕ) {writer : Exec Writer (Unit {0})} {content : List ℕ}
    (writes : Writes writer content) (size : length content < varint_limit) where
  pub frame_fits :
      (buf : List ℕ)
      → 5 + length content ≤ length buf
      → (junk : List ℕ) × (encode_frame first_byte writer buf
          ≡ (ok (length (frame first_byte content)), frame first_byte content ++ junk))
        × (length (frame first_byte content ++ junk) ≡ length buf)
  unfolding encode_frame frame_writer
  frame_fits (a ∷ b ∷ c ∷ d ∷ e ∷ room) h =
      let gap : List ℕ = b ∷ c ∷ d ∷ e ∷ [] in
      let tail : List ℕ = drop (length content) room in
      let start : Writer = record { cursor = 0; buf = a ∷ (gap ++ room) } in
      let one : Writer = record { cursor = 1; buf = first_byte ∷ (gap ++ room) } in
      let five : Writer = record { cursor = 5; buf = first_byte ∷ (gap ++ room) } in
      let done : Writer = record {
        cursor = 5 + length content;
        buf = first_byte ∷ (gap ++ (content ++ tail));
      } in
      let filled : writer five ≡ (ok tt, done) =
        writes.fits (first_byte ∷ gap) room (omega arith)
        ∙ ap (λ n. (ok tt, record { cursor = n; buf = first_byte ∷ (gap ++ (content ++ tail)) }))
            (omega arith) in
      (
        junk first_byte gap content tail size refl,
        ap buffer_of (
            >>_ok (put_byte first_byte >> (skip 4 >> writer)) close_frame start {s' = done} (
              >>_ok (put_byte first_byte) (skip 4 >> writer) start {s' = one}
                ((Writes-put_byte first_byte).fits [] (a ∷ (gap ++ room)) (omega arith))
              ∙ >>_ok (skip 4) writer one {s' = five} (unfold skip in refl)
              ∙ filled)
            ∙ closed first_byte gap content tail size refl),
        length-closed first_byte gap content tail size refl
            ∙ omega (arith, length-drop (length content) room),
      )
  frame_fits _ h = absurd (omega arith)

  content_short :
      Guards writer
      → (room : List ℕ) → length room < 4 + length content
      → (writer (record { cursor = 5; buf = first_byte ∷ room })).0 ≡ err buffer_too_small
  content_short guards (b ∷ c ∷ d ∷ e ∷ room) h =
      writes.short (first_byte ∷ b ∷ c ∷ d ∷ e ∷ []) room (omega arith)
  content_short guards _ h = guards.beyond _ (omega arith)

  frame_short :
      Guards writer
      → (buf : List ℕ) → length buf < 5 + length content
      → (encode_frame first_byte writer buf).0 ≡ err buffer_too_small
  unfolding encode_frame frame_writer
  frame_short guards [] h =
      >>_err (put_byte first_byte >> (skip 4 >> writer)) close_frame
        (record { cursor = 0; buf = [] })
        (>>_err (put_byte first_byte) (skip 4 >> writer) (record { cursor = 0; buf = [] })
          ((Writes-put_byte first_byte).short [] [] (omega arith)))
  frame_short guards (a ∷ room) h =
      let start : Writer = record { cursor = 0; buf = a ∷ room } in
      let one : Writer = record { cursor = 1; buf = first_byte ∷ room } in
      let five : Writer = record { cursor = 5; buf = first_byte ∷ room } in
      >>_err (put_byte first_byte >> (skip 4 >> writer)) close_frame start (
        ap (λ (r : Result (Unit {0}) × Writer). r.0)
          (>>_ok (put_byte first_byte) (skip 4 >> writer) start {s' = one}
              ((Writes-put_byte first_byte).fits [] (a ∷ room) (omega arith))
            ∙ >>_ok (skip 4) writer one {s' = five} (unfold skip in refl))
        ∙ content_short guards room (omega arith))

  -- An encoder whose content is refused beyond the buffer needs five bytes more than the content.
  pub Encodes-frame :
      Guards writer
      → Encodes (encode_frame first_byte writer) (frame first_byte content) (5 + length content)
  Encodes-frame guards = record { fits = frame_fits; short = frame_short guards }
