-- ===== src/Varint/TooLarge.antt =====
-- The readers and the writers on values from 2^28 on.
use mqtt_async_embedded.Prelude.{
  ℕ, suc, ◌+◌, ◌/◌, ◌%◌, ◌≤◌, ◌<◌, ◌≡◌, refl, ap, ◌∙◌, List, [], ◌∷◌, ◌++◌, length, drop, arith,
  le→ltb, append_assoc, drop-length-append,
}
use mqtt_async_embedded.Exec.{ok, err, malformed_packet}
use mqtt_async_embedded.Wire.{Writer}
use mqtt_async_embedded.Wire.Writes.{at}
use mqtt_async_embedded.Varint.{
  read_variable_byte_integer, write_variable_byte_integer, write_variable_byte_integer_len,
}
use mqtt_async_embedded.Varint.Encoding.{groups, varint, varint_limit, usize_limit, length-groups}
use mqtt_async_embedded.Varint.Errors.{IsContinuation, read_malformed}
use mqtt_async_embedded.Varint.Write.{Fills-varint, write_variable_byte_integer-varint}

groups_large : (k v : ℕ) → 128 ≤ v → groups (suc k) v ≡ (v % 128 + 128) ∷ groups k (v / 128)
unfolding groups
groups_large k v h = rw (le→ltb v 128 h) refl

group_continues : (v : ℕ) → IsContinuation (v % 128 + 128)
group_continues v = (omega arith, omega arith)

abbrev first_four : ℕ → List ℕ
first_four v =
    (v % 128 + 128)
    ∷ (v / 128 % 128 + 128)
    ∷ (v / 128 / 128 % 128 + 128)
    ∷ (v / 128 / 128 / 128 % 128 + 128)
    ∷ []

varint_large :
    (v : ℕ) → varint_limit ≤ v → varint v ≡ first_four v ++ groups 5 (v / 128 / 128 / 128 / 128)
varint_large v h =
    groups_large 8 v (omega arith)
    ∙ ap (λ l. (v % 128 + 128) ∷ l)
        (groups_large 7 (v / 128) (omega arith)
          ∙ ap (λ l. (v / 128 % 128 + 128) ∷ l)
              (groups_large 6 (v / 128 / 128) (omega arith)
                ∙ ap (λ l. (v / 128 / 128 % 128 + 128) ∷ l)
                    (groups_large 5 (v / 128 / 128 / 128) (omega arith))))

read-varint_large :
    (v cursor : ℕ) (buf rest : List ℕ)
    → varint_limit ≤ v
    → drop cursor buf ≡ varint v ++ rest
    → read_variable_byte_integer buf cursor ≡ (err malformed_packet, cursor)
read-varint_large v cursor buf rest h e =
    read_malformed (first_four v) (groups 5 (v / 128 / 128 / 128 / 128) ++ rest) buf cursor refl
      (
        group_continues v,
        (
          group_continues (v / 128),
          (group_continues (v / 128 / 128), (group_continues (v / 128 / 128 / 128), tt)),
        ),
      )
      (e ∙ ap (λ l. l ++ rest) (varint_large v h))

-- What both writers put for a value of a `usize` from 2^28 on, where there is room for ten bytes, is
-- malformed to the reader, although the writers succeed.
pub read-write_large :
    (v : ℕ) (done room : List ℕ)
    → varint_limit ≤ v
    → v < usize_limit
    → 10 ≤ length room
    → let (written, w) = write_variable_byte_integer v (at done room) in
      let (count, slice) = write_variable_byte_integer_len v room in
      (written ≡ ok tt)
      × (read_variable_byte_integer (Writer.buf w) (length done)
          ≡ (err malformed_packet, length done))
      × (count ≡ ok (length (varint v)))
      × (read_variable_byte_integer slice 0 ≡ (err malformed_packet, 0))
read-write_large v done room large inside free =
    let fits : length (varint v) ≤ length room = omega (arith, length-groups 9 v, free) in
    let rest : List ℕ = drop (length (varint v)) room in
    let written = write_variable_byte_integer-varint v done room inside fits in
    let filled = (Fills-varint v inside).fits room fits in
    rw (written, filled)
      (
        refl,
        read-varint_large v (length done) ((done ++ varint v) ++ rest) rest large (
            ap (drop (length done)) (append_assoc done (varint v) rest)
            ∙ drop-length-append done (varint v ++ rest)),
        refl,
        read-varint_large v 0 (varint v ++ rest) rest large refl,
      )
