-- ===== src/Fields/RoundTrip.antt =====
-- The wire form of strings and binary data, and the lemmas on their readers and writers.
use mqtt_async_embedded.Prelude.{
  ℕ, ◌+◌, ◌-◌, ◌≤◌, ◌≡◌, ap, ◌∙◌, List, ◌++◌, length, drop, ltb, false, arith, le→ltb, lt→ltb,
  take-length-append, drop_behind,
}
use mqtt_async_embedded.Exec.{ok, ◌>>=◌, ◌>>◌, >>=_ok}
use mqtt_async_embedded.Wire.{to_be_bytes, on_rest}
use mqtt_async_embedded.Wire.Writes.{Writes, Fills, Writes-on_rest}
use mqtt_async_embedded.Wire.Reads.{Reads, Reads-index_u16, length-of_drop}
use mqtt_async_embedded.Utf8.{IsUtf8}
use mqtt_async_embedded.Fields.{
  slice, read_len, read_utf8_string, read_binary_data, u16_max, write_utf8_string,
  write_binary_data,
}

-- The wire form of a string or of binary data.
abbrev pub prefixed : List ℕ → List ℕ
prefixed s = to_be_bytes (length s) ++ s

module _ (s : List ℕ) (h : length s ≤ u16_max) where
  -- `write_utf8_string` of at most 65535 bytes fills the front of its slice with the length and the
  -- bytes, or it answers `BufferTooSmall`.
  pub Fills-utf8_string : Fills (write_utf8_string s) (prefixed s)
  unfolding write_utf8_string
  Fills-utf8_string = record {
    fits = λ buf p.
        rw (le→ltb u16_max (length s) h, le→ltb (length buf) (2 + length s) (omega arith))
          (ap (λ n. (ok n, prefixed s ++ drop n buf)) (omega arith));
    short =
        λ buf p. rw (le→ltb u16_max (length s) h, lt→ltb (length buf) (2 + length s) (omega arith));
  }

  pub Fills-binary_data : Fills (write_binary_data s) (prefixed s)
  unfolding write_binary_data
  Fills-binary_data = record {
    fits = λ buf p.
        rw (le→ltb u16_max (length s) h, le→ltb (length buf) (2 + length s) (omega arith))
          (ap (λ n. (ok n, prefixed s ++ drop n buf)) (omega arith));
    short =
        λ buf p. rw (le→ltb u16_max (length s) h, lt→ltb (length buf) (2 + length s) (omega arith));
  }

  pub Writes-utf8_string : Writes (on_rest (write_utf8_string s)) (prefixed s)
  Writes-utf8_string = Writes-on_rest Fills-utf8_string

  pub Writes-binary_data : Writes (on_rest (write_binary_data s)) (prefixed s)
  Writes-binary_data = Writes-on_rest Fills-binary_data

module _ (buf s rest : List ℕ) (pos : ℕ) (e : drop pos buf ≡ prefixed s ++ rest) where
  behind_len : drop (pos + 2) buf ≡ s ++ rest
  behind_len = drop_behind pos buf (to_be_bytes (length s)) (s ++ rest) e

  room : length buf - pos ≡ 2 + length s + length rest
  room = length-of_drop buf (prefixed s) rest pos e ∙ omega arith

  read_len_found : read_len buf pos ≡ (ok (length s), pos + 2)
  unfolding read_len ◌>>=◌ ◌>>◌
  read_len_found =
      rw (le→ltb (length buf) (pos + 2) (omega (arith, room)))
        ((Reads-index_u16 (length s)).at buf (s ++ rest) pos e)

  slice_found : slice (pos + 2) (length s) buf ≡ s
  slice_found = rw behind_len (take-length-append s rest)

  inside : ltb (length buf) (pos + 2 + length s) ≡ false
  inside = le→ltb (length buf) (pos + 2 + length s) (omega (arith, room))

  behind : pos + 2 + length s ≡ pos + length (prefixed s)
  behind = omega arith

  string_found : IsUtf8 s → read_utf8_string buf pos ≡ (ok s, pos + length (prefixed s))
  unfolding read_utf8_string
  string_found valid =
      >>=_ok (read_len buf) _ pos read_len_found
      ∙ unfold ◌>>=◌ ◌>>◌ in rw (inside, slice_found, valid) (ap (λ n. (ok s, n)) behind)

  data_found : read_binary_data buf pos ≡ (ok s, pos + length (prefixed s))
  unfolding read_binary_data
  data_found =
      >>=_ok (read_len buf) _ pos read_len_found
      ∙ unfold ◌>>=◌ ◌>>◌ in rw (inside, slice_found) (ap (λ n. (ok s, n)) behind)

-- `read_utf8_string` gives back a string that is UTF-8 from its length and its bytes, and leaves the
-- cursor behind them.
pub Reads-utf8_string : (s : List ℕ) → IsUtf8 s → Reads read_utf8_string (prefixed s) s
Reads-utf8_string s valid = record { at = λ buf rest pos e. string_found buf s rest pos e valid }

pub Reads-binary_data : (s : List ℕ) → Reads read_binary_data (prefixed s) s
Reads-binary_data s = record { at = λ buf rest pos e. data_found buf s rest pos e }

-- `read_utf8_string` gives back a string that is UTF-8 from its length and its bytes at the cursor,
-- and leaves the cursor behind them.
pub read_utf8_string-prefixed :
    (s buf rest : List ℕ) (cursor : ℕ)
    → IsUtf8 s
    → drop cursor buf ≡ prefixed s ++ rest
    → read_utf8_string buf cursor ≡ (ok s, cursor + length (prefixed s))
read_utf8_string-prefixed s buf rest cursor valid e =
    (Reads-utf8_string s valid).at buf rest cursor e

-- `write_utf8_string` of at most 65535 bytes writes the length and the bytes to the front of a slice
-- with room for them, and answers how many bytes it wrote.
pub write_utf8_string-prefixed :
    (s slice : List ℕ)
    → length s ≤ u16_max
    → length (prefixed s) ≤ length slice
    → write_utf8_string s slice
      ≡ (ok (length (prefixed s)), prefixed s ++ drop (length (prefixed s)) slice)
write_utf8_string-prefixed s slice h fits = (Fills-utf8_string s h).fits slice fits
