-- ===== src/Codec/Frame.antt =====
-- What every encoder of crates/mqtt-packet/src/codec.rs does around the content of its packet: the
-- first byte, four bytes of room for the remaining length, the content, then the length in its
-- place and the content moved down behind it.
pub mod Encodes
pub mod Parses
pub mod Empty
use mqtt_async_embedded.Prelude.{
  ℕ, ◌+◌, ◌-◌, Bool, true, false, ◌&&◌, List, [], ◌++◌, length, take, drop, ltb, leb, if◌then◌else◌,
}
use mqtt_async_embedded.Exec.{
  Result, ok, err, panic, Exec, pure, get, ◌>>=◌, ◌>>◌, buffer_too_small, fail_if,
  incomplete_packet,
}
use mqtt_async_embedded.Wire.{Writer, put_byte, index_u16}
use mqtt_async_embedded.Varint.{read_variable_byte_integer, write_variable_byte_integer_len}
use mqtt_async_embedded.Fields.{slice}
use mqtt_async_embedded.Types.{MqttVersion, v3_1_1, v3, v5}
use mqtt_async_embedded.Types.{Property}
use mqtt_async_embedded.Properties.{read_properties}

-- `version == MqttVersion::V5`
abbrev pub is_v5 : MqttVersion → Bool
is_v5 v3_1_1 = false
is_v5 v3 = false
is_v5 v5 = true

-- `cursor += 4`
pub skip : ℕ → Exec Writer (Unit {0})
skip n w = (ok tt, record w { cursor = w.cursor + n })

-- `f(buf.get_mut(start..).ok_or(BufferTooSmall)?, …)?`, which leaves the cursor alone
pub patch : ℕ → Exec (List ℕ) ℕ → Exec Writer ℕ
patch start f w =
    if leb start (length w.buf)
    then (let (r, rest) = f (drop start w.buf) in (r, record w { buf = take start w.buf ++ rest }))
    else (err buffer_too_small, w)

-- `buf.copy_within(start..end, dest)`: it panics where either range leaves the buffer.
pub copy_within : ℕ → ℕ → ℕ → Exec Writer (Unit {0})
copy_within start end dest w =
    if leb end (length w.buf) && leb (dest + (end - start)) (length w.buf)
    then (
      ok tt,
      record w {
        buf =
            take dest w.buf
            ++ (slice start (end - start) w.buf ++ drop (dest + (end - start)) w.buf);
      },
    )
    else (panic, w)

-- The statements behind the content: `content_start` is 5.
pub close_frame : Exec Writer ℕ
close_frame = do
  w ← get
  let remaining_len = w.cursor - 5
  len_bytes ← patch 1 (write_variable_byte_integer_len remaining_len)
  copy_within 5 w.cursor (1 + len_bytes)
  pure (1 + len_bytes + remaining_len)

pub frame_writer : ℕ → Exec Writer (Unit {0}) → Exec Writer ℕ
frame_writer first_byte content = (put_byte first_byte >> (skip 4 >> content)) >> close_frame

buffer_of : Result ℕ × Writer → Result ℕ × List ℕ
buffer_of (r, w) = (r, w.buf)

-- `fn encode(&self, buf: &mut [u8], version) -> Result<usize, PacketError>`
pub encode_frame : ℕ → Exec Writer (Unit {0}) → Exec (List ℕ) ℕ
unfolding buffer_of
encode_frame first_byte content buf =
    buffer_of (frame_writer first_byte content (record { cursor = 0; buf = buf }))

-- The first statements of the decoders: the cursor is behind the remaining length, and the result
-- is where the content ends.
pub open_frame : List ℕ → Exec ℕ ℕ
open_frame buf = do
  remaining_len ← read_variable_byte_integer buf
  cursor ← get
  fail_if (ltb (length buf) (cursor + remaining_len)) incomplete_packet
  pure (cursor + remaining_len)

-- `fn decode(buf, version) -> Result<Self, PacketError>`: the cursor starts behind the first byte.
pub decode_frame : {A : Type 0} → (List ℕ → ℕ → Exec ℕ A) → List ℕ → Result A
decode_frame content buf = ((open_frame buf >>= content buf) 1).0

-- `if cursor + 2 > content_end { return Err(IncompletePacket) }; u16::from_be_bytes(…)`
pub read_u16 : List ℕ → ℕ → Exec ℕ ℕ
read_u16 buf content_end = do
  cursor ← get
  fail_if (ltb content_end (cursor + 2)) incomplete_packet
  index_u16 buf

-- `if has_properties && cursor < content_end { read_properties(…)? } else { Vec::new() }`
pub properties_if : Bool → List ℕ → ℕ → Exec ℕ (List Property)
properties_if has_properties buf content_end cursor =
    if has_properties && ltb cursor content_end then read_properties buf cursor else (ok [], cursor)
