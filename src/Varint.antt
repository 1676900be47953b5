-- ===== src/Varint.antt =====
-- crates/mqtt-packet/src/varint.rs, lines 1 to 90: the variable byte integers, 1 to 4 bytes of
-- seven bits, lowest first, with the top bit set on every byte but the last.
pub mod Encoding
pub mod Write
pub mod Read
pub mod Errors
pub mod TooLarge
use mathlib.Core.WellFounded.{Acc}
use mathlib.Core.Logic.{dite}
use mqtt_async_embedded.Prelude.{
  ℕ, zero, suc, ◌+◌, ◌*◌, ◌/◌, ◌%◌, ◌<◌, bit_and, bit_or, arith, List, [], ◌∷◌, Option, none, some,
  get_elem?, ◌==◌, if◌then◌else◌, dec_lt,
}
use mqtt_async_embedded.Prelude.Order.{lt_wf}
use mqtt_async_embedded.Exec.{
  Result, ok, err, panic, Exec, ◌>>=◌, ◌>>◌, incomplete_packet, malformed_packet,
}
use mqtt_async_embedded.Wire.{Writer, put_byte}

-- The loop of both readers. The first argument counts the rounds that are left, `4 - i`, so the
-- test `i >= 4` is its case `zero`.
pub read_loop : ℕ → List ℕ → ℕ → ℕ → ℕ → ℕ → Result (ℕ × ℕ)
read_loop zero buf start multiplier value i = err malformed_packet
read_loop (suc rounds) buf start multiplier value i = elim (get_elem? buf (start + i)) [
  | none ↦ err incomplete_packet
  | some encoded_byte ↦
      let value' = value + bit_and encoded_byte 127 * multiplier in
      let more = read_loop rounds buf start (multiplier * 128) value' (i + 1) in
      if bit_and encoded_byte 128 == 0 then ok (value', i) else more
]

-- `*cursor += i + 1; Ok(value)`; an error leaves the cursor alone.
advance : Result (ℕ × ℕ) → Exec ℕ ℕ
advance (ok (value, i)) cursor = (ok value, cursor + (i + 1))
advance (err e) cursor = (err e, cursor)
advance panic cursor = (panic, cursor)

pub read_variable_byte_integer : List ℕ → Exec ℕ ℕ
unfolding advance
read_variable_byte_integer buf cursor = advance (read_loop 4 buf cursor 1 0 0) cursor

-- The value, and the number of bytes that it took.
taken : Result (ℕ × ℕ) → Result (ℕ × ℕ)
taken (ok (value, i)) = ok (value, i + 1)
taken (err e) = err e
taken panic = panic

pub peek_variable_byte_integer : List ℕ → Result (ℕ × ℕ)
unfolding taken
peek_variable_byte_integer buf = taken (read_loop 4 buf 0 1 0 0)

div_shrinks : (val : ℕ) → 0 < val / 128 → val / 128 < val
div_shrinks val h = omega arith

-- The loop of both writers: it goes on while `val / 128` is not 0.
pub write_loop : (val : ℕ) → Acc ◌<◌ val → Exec Writer (Unit {0})
write_loop val (Acc.intro _ smaller) =
    dite (dec_lt 0 (val / 128))
      (λ more.
        put_byte (bit_or (val % 128) 128)
        >> write_loop (val / 128) (smaller (val / 128) (div_shrinks val more)))
      (λ _. put_byte (val % 128))

pub write_variable_byte_integer : ℕ → Exec Writer (Unit {0})
write_variable_byte_integer val = write_loop val (lt_wf.apply val)

-- The number of bytes written is where the loop's index stands.
count_written : Result (Unit {0}) × Writer → Result ℕ × List ℕ
count_written (ok _, w) = (ok w.cursor, w.buf)
count_written (err e, w) = (err e, w.buf)
count_written (panic, w) = (panic, w.buf)

pub write_variable_byte_integer_len : ℕ → Exec (List ℕ) ℕ
unfolding count_written
write_variable_byte_integer_len val buf =
    count_written (write_loop val (lt_wf.apply val) (record { cursor = 0; buf = buf }))
