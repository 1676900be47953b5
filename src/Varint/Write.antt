-- ===== src/Varint/Write.antt =====
-- The writers, on every value that a `usize` holds.
use mathlib.Core.WellFounded.{Acc}
use mathlib.Core.Logic.{dif_pos, dif_neg}
use native.Mathlib.Bridge.{le_prop}
use mqtt_async_embedded.Prelude.{
  length, drop, ◌++◌, ℕ, zero, suc, ◌+◌, ◌/◌, ◌%◌, ◌^◌, ◌≤◌, ◌<◌, ◌≡◌, refl, arith, List, [], ◌∷◌,
  inl, inr, ltb, dec_lt, subst, ltb→lt, ltb→le, Bool-cases,
}
use mqtt_async_embedded.Prelude.Bits.{set_top_bit}
use mqtt_async_embedded.Prelude.Order.{lt_wf}
use mqtt_async_embedded.Exec.{Result, ok, err, panic, buffer_too_small}
use mqtt_async_embedded.Wire.{Writer, put_byte}
use mqtt_async_embedded.Wire.Writes.{at, Writes, Fills, Writes-seq, Writes-put_byte}
use mqtt_async_embedded.Varint.{
  div_shrinks, write_loop, write_variable_byte_integer, write_variable_byte_integer_len,
  count_written,
}
use mqtt_async_embedded.Varint.Encoding.{groups, varint, usize_limit}

-- A value below 128 is one byte, and a larger one is a byte with the top bit set before the rest.
write_loop_last : (val : ℕ) (w : Acc ◌<◌ val) → val < 128 → Writes (write_loop val w) (val ∷ [])
unfolding write_loop
write_loop_last val (Acc.intro _ smaller) h = elim (dec_lt 0 (val / 128)) [
  | yes p ↦ absurd (omega arith)
  | no p ↦
      rw (dif_neg _ p)
        (subst (λ v. Writes (put_byte v) (val ∷ [])) (omega arith) (Writes-put_byte val))
]

write_loop_more :
    (val : ℕ) (w : Acc ◌<◌ val) (bs : List ℕ)
    → 128 ≤ val
    → ((w' : Acc ◌<◌ (val / 128)) → Writes (write_loop (val / 128) w') bs)
    → Writes (write_loop val w) ((val % 128 + 128) ∷ bs)
unfolding write_loop
write_loop_more val (Acc.intro _ smaller) bs h later = elim (dec_lt 0 (val / 128)) [
  | yes p ↦ rw (dif_pos _ le_prop p) (
      Writes-seq {bs = (val % 128 + 128) ∷ []}
        (rw (set_top_bit (val % 128) (omega arith)) (Writes-put_byte (val % 128 + 128)))
        (later (smaller (val / 128) (div_shrinks val p))))
  | no p ↦ absurd (omega arith)
]

write_loop-Writes :
    (k val : ℕ) (w : Acc ◌<◌ val) → val < 128 ^ suc k → Writes (write_loop val w) (groups k val)
unfolding groups
write_loop-Writes zero val w h = write_loop_last val w (omega arith)
write_loop-Writes (suc k) val w h = elim (Bool-cases (ltb val 128)) [
  | inl e ↦ rw e (write_loop_last val w (ltb→lt _ _ e))
  | inr e ↦ rw e (
      write_loop_more val w (groups k (val / 128)) (ltb→le _ _ e)
        (λ w'. write_loop-Writes k (val / 128) w' (omega arith)))
]

-- `write_variable_byte_integer` writes the encoding of every value of a `usize` at the cursor where
-- it fits, and answers `BufferTooSmall` where it does not.
pub Writes-varint :
    (val : ℕ) → val < usize_limit → Writes (write_variable_byte_integer val) (varint val)
unfolding write_variable_byte_integer
Writes-varint val h = write_loop-Writes 9 val (lt_wf.apply val) (omega arith)

count_err :
    (r : Result (Unit {0}) × Writer)
    → r.0 ≡ err buffer_too_small
    → (count_written r).0 ≡ err buffer_too_small
unfolding count_written
count_err (ok a, w) e = cc
count_err (err x, w) e = cc
count_err (panic, w) e = cc

-- `write_variable_byte_integer_len` fills the front of its slice with the encoding and returns
-- the encoding's length, or it answers `BufferTooSmall`.
pub Fills-varint :
    (val : ℕ) → val < usize_limit → Fills (write_variable_byte_integer_len val) (varint val)
unfolding write_variable_byte_integer_len
Fills-varint val h =
    let whole : Writes (write_loop val (lt_wf.apply val)) (varint val) =
      write_loop-Writes 9 val (lt_wf.apply val) (omega arith) in
    record {
      fits = λ slice p. rw (whole.fits [] slice p) (unfold count_written in refl);
      short = λ slice p. count_err _ (whole.short [] slice p);
    }

-- `write_variable_byte_integer` writes the encoding of every value of a `usize` at the cursor, where
-- there is room for it, and moves the cursor behind it.
pub write_variable_byte_integer-varint :
    (val : ℕ) (done room : List ℕ)
    → val < usize_limit
    → length (varint val) ≤ length room
    → write_variable_byte_integer val (at done room)
      ≡ (ok tt, at (done ++ varint val) (drop (length (varint val)) room))
write_variable_byte_integer-varint val done room h fits = (Writes-varint val h).fits done room fits

-- `write_variable_byte_integer_len` answers `BufferTooSmall` where its slice is shorter than the
-- encoding of the value.
pub write_variable_byte_integer_len_short :
    (val : ℕ) (slice : List ℕ)
    → val < usize_limit
    → length slice < length (varint val)
    → (write_variable_byte_integer_len val slice).0 ≡ err buffer_too_small
write_variable_byte_integer_len_short val slice h short = (Fills-varint val h).short slice short
