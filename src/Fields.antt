-- ===== src/Fields.antt =====
-- crates/mqtt-packet/src/varint.rs, lines 91 to 152: strings and binary data behind a length of
-- two bytes, high byte first.
pub mod RoundTrip
use mqtt_async_embedded.Prelude.{
  ℕ, suc, ◌+◌, not, List, ◌++◌, length, take, drop, ltb, if◌then◌else◌,
}
use mqtt_async_embedded.Exec.{
  ok, err, Exec, pure, get, put, fail_if, ◌>>=◌, ◌>>◌, buffer_too_small, incomplete_packet,
  invalid_utf8_string, payload_too_large,
}
use mqtt_async_embedded.Wire.{index_u16, to_be_bytes}
use mqtt_async_embedded.Utf8.{is_utf8}

-- `&buf[start..start + n]`, where the range lies inside the buffer
abbrev pub slice : ℕ → ℕ → List ℕ → List ℕ
slice start n buf = take n (drop start buf)

-- The length in front of a string or of binary data; the cursor is behind it after this.
pub read_len : List ℕ → Exec ℕ ℕ
read_len buf = do
  cursor ← get
  fail_if (ltb (length buf) (cursor + 2)) incomplete_packet
  index_u16 buf

pub read_utf8_string : List ℕ → Exec ℕ (List ℕ)
read_utf8_string buf = do
  len ← read_len buf
  cursor ← get
  fail_if (ltb (length buf) (cursor + len)) incomplete_packet
  fail_if (not (is_utf8 (slice cursor len buf))) invalid_utf8_string
  put (cursor + len)
  pure (slice cursor len buf)

pub read_binary_data : List ℕ → Exec ℕ (List ℕ)
read_binary_data buf = do
  len ← read_len buf
  cursor ← get
  fail_if (ltb (length buf) (cursor + len)) incomplete_packet
  put (cursor + len)
  pure (slice cursor len buf)

abbrev pub u16_max : ℕ
u16_max = 65535

unfoldable pub write_utf8_string : List ℕ → Exec (List ℕ) ℕ
write_utf8_string s buf =
    let len = length s in
    let required_space = 2 + len in
    if ltb u16_max len
    then (err payload_too_large, buf)
    else if ltb (length buf) required_space
    then (err buffer_too_small, buf)
    else (ok required_space, to_be_bytes len ++ (s ++ drop required_space buf))

pub write_binary_data : List ℕ → Exec (List ℕ) ℕ
write_binary_data bytes buf =
    let len = length bytes in
    let required_space = 2 + len in
    if ltb u16_max len
    then (err payload_too_large, buf)
    else if ltb (length buf) required_space
    then (err buffer_too_small, buf)
    else (ok required_space, to_be_bytes len ++ (bytes ++ drop required_space buf))
