-- ===== src/Wire.antt =====
-- A buffer that is written at a cursor, and one that is read at a cursor: the statements
-- `*buf.get_mut(cursor).ok_or(BufferTooSmall)? = b; cursor += 1` and their kind, which
-- crates/mqtt-packet/src/codec.rs repeats in every encoder and decoder.
pub mod Writes
pub mod Reads
use mqtt_async_embedded.Prelude.{
  ℕ, ◌+◌, ◌*◌, ◌/◌, ◌%◌, List, [], ◌∷◌, ◌++◌, Bool, length, set, get_elem?, take, drop, ltb, leb,
  if◌then◌else◌,
}
use mqtt_async_embedded.Exec.{
  Result, ok, err, panic, Exec, pure, raise, index, ok_or, ◌>>=◌, buffer_too_small,
  incomplete_packet,
}

pub record Writer : Type 0 where
  pub cursor : ℕ
  pub buf : List ℕ

-- `*buf.get_mut(cursor).ok_or(BufferTooSmall)? = b; cursor += 1`
pub put_byte : ℕ → Exec Writer (Unit {0})
put_byte b w =
    if ltb w.cursor (length w.buf)
    then (ok tt, record { cursor = w.cursor + 1; buf = set w.buf w.cursor b })
    else (err buffer_too_small, w)

-- `buf.get_mut(cursor..cursor + n).ok_or(BufferTooSmall)?.copy_from_slice(bs); cursor += n`
pub put_slice : List ℕ → Exec Writer (Unit {0})
put_slice bs w =
    if leb (w.cursor + length bs) (length w.buf)
    then (
      ok tt,
      record {
        cursor = w.cursor + length bs;
        buf = take w.cursor w.buf ++ (bs ++ drop (w.cursor + length bs) w.buf);
      },
    )
    else (err buffer_too_small, w)

-- The cursor moves by what `f` wrote into the slice; an error of `f` goes up, `?`.
resume : Writer → Result ℕ × List ℕ → Result (Unit {0}) × Writer
resume w (ok n, slice) =
    (ok tt, record { cursor = w.cursor + n; buf = take w.cursor w.buf ++ slice })
resume w (err e, slice) = (err e, record w { buf = take w.cursor w.buf ++ slice })
resume w (panic, slice) = (panic, record w { buf = take w.cursor w.buf ++ slice })

-- `cursor += f(buf.get_mut(cursor..).ok_or(BufferTooSmall)?, …)?`
pub on_rest : Exec (List ℕ) ℕ → Exec Writer (Unit {0})
unfolding resume
on_rest f w =
    if leb w.cursor (length w.buf)
    then resume w (f (drop w.cursor w.buf))
    else (err buffer_too_small, w)

-- `if test { action }`
abbrev pub when : {S : Type 0} → Bool → Exec S (Unit {0}) → Exec S (Unit {0})
when b m = if b then m else pure tt

-- `u16::to_be_bytes` and `u16::from_be_bytes`
abbrev pub to_be_bytes : ℕ → List ℕ
to_be_bytes v = v / 256 ∷ v % 256 ∷ []

abbrev pub from_be_bytes : ℕ → ℕ → ℕ
from_be_bytes high low = high * 256 + low

-- `*buf.get(cursor).ok_or(IncompletePacket)?; cursor += 1`
pub get_byte : List ℕ → Exec ℕ ℕ
get_byte buf = do
  b ← λ cursor. ok_or (get_elem? buf cursor) incomplete_packet cursor
  λ cursor. (ok b, cursor + 1)

-- `buf[cursor]; cursor += 1`
pub index_byte : List ℕ → Exec ℕ ℕ
index_byte buf = do b ← λ cursor. index (get_elem? buf cursor) cursor; λ cursor. (ok b, cursor + 1)

-- `u16::from_be_bytes([buf[cursor], buf[cursor + 1]]); cursor += 2`
pub index_u16 : List ℕ → Exec ℕ ℕ
index_u16 buf = do
  high ← λ cursor. index (get_elem? buf cursor) cursor
  low ← λ cursor. index (get_elem? buf (cursor + 1)) cursor
  λ cursor. (ok (from_be_bytes high low), cursor + 2)
