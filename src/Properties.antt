-- ===== src/Properties.antt =====
-- crates/mqtt-packet/src/properties.rs: the MQTT 5 properties of a packet.
pub mod RoundTrip
use mqtt_async_embedded.Prelude.{
  ℕ, zero, suc, ◌+◌, ◌-◌, Bool, ◌||◌, Option, List, [], ◌∷◌, ◌++◌, length, get_elem?, ltb, ◌==◌,
  if◌then◌else◌,
}
use mqtt_async_embedded.Exec.{
  Result, ok, err, panic, Exec, pure, raise, get, put, index, ok_or, fail_if, ◌>>=◌, ◌>>◌,
  incomplete_packet, malformed_packet, too_many_properties,
}
use mqtt_async_embedded.Wire.{Writer, index_byte, put_byte, put_slice, from_be_bytes}
use mqtt_async_embedded.Varint.{read_variable_byte_integer, write_variable_byte_integer}
use mqtt_async_embedded.Fields.{slice}
use mqtt_async_embedded.Types.{Property, capacity}

-- The identifiers whose data have one, two or four bytes, and those with a length in front.
abbrev pub is_byte_id : ℕ → Bool
is_byte_id id =
    id == 0x01 || id == 0x17 || id == 0x24 || id == 0x25 || id == 0x28 || id == 0x29 || id == 0x2a

abbrev pub is_u16_id : ℕ → Bool
is_u16_id id = id == 0x13 || id == 0x21 || id == 0x22

abbrev pub is_u32_id : ℕ → Bool
is_u32_id id = id == 0x02 || id == 0x11 || id == 0x18 || id == 0x23 || id == 0x27

abbrev pub is_prefixed_id : ℕ → Bool
is_prefixed_id id =
    id == 0x03
    || id == 0x08
    || id == 0x12
    || id == 0x15
    || id == 0x1a
    || id == 0x1c
    || id == 0x1f
    || id == 0x09
    || id == 0x16

-- `u16::from_be_bytes([*buf.get(at).ok_or(MalformedPacket)?, *buf.get(at + 1).ok_or(…)?])`
pub u16_at : List ℕ → ℕ → Exec ℕ ℕ
u16_at buf at = do
  high ← ok_or (get_elem? buf at) malformed_packet
  low ← ok_or (get_elem? buf (at + 1)) malformed_packet
  pure (from_be_bytes high low)

-- The arms of `match id`.
pub data PropertyKind : Type 0 where
  byte two_bytes four_bytes prefixed_data string_pair var_int other : PropertyKind

unfoldable pub property_kind : ℕ → PropertyKind
property_kind id =
    if is_byte_id id
    then byte
    else if is_u16_id id
    then two_bytes
    else if is_u32_id id
    then four_bytes
    else if is_prefixed_id id
    then prefixed_data
    else if id == 0x26
    then string_pair
    else if id == 0x0b
    then var_int
    else other

-- `let _ = read_variable_byte_integer(&mut temp_cursor, buf)?; temp_cursor - data_start`
moved : ℕ → Result ℕ × ℕ → Exec ℕ ℕ
moved data_start (ok _, temp_cursor) cursor = (ok (temp_cursor - data_start), cursor)
moved data_start (err e, temp_cursor) cursor = (err e, cursor)
moved data_start (panic, temp_cursor) cursor = (panic, cursor)

-- `let data_len = match id { … }`
pub data_len_of : PropertyKind → List ℕ → ℕ → Exec ℕ ℕ
unfolding moved
data_len_of byte buf data_start = pure 1
data_len_of two_bytes buf data_start = pure 2
data_len_of four_bytes buf data_start = pure 4
data_len_of prefixed_data buf data_start = do len ← u16_at buf data_start; pure (2 + len)
data_len_of string_pair buf data_start = do
  key_len ← u16_at buf data_start
  val_len ← u16_at buf (data_start + 2 + key_len)
  pure (2 + key_len + 2 + val_len)
data_len_of var_int buf data_start = moved data_start (read_variable_byte_integer buf data_start)
data_len_of other buf data_start = pure 1

-- The body of the `while` loop, up to the `push`.
pub read_property : List ℕ → ℕ → Exec ℕ Property
read_property buf prop_end = do
  id ← index_byte buf
  data_start ← get
  data_len ← data_len_of (property_kind id) buf data_start
  fail_if (ltb prop_end (data_start + data_len)) malformed_packet
  put (data_start + data_len)
  pure (record { id = id; bytes = slice data_start data_len buf })

-- The `while` loop. The first argument is the room that is left in the `heapless::Vec`, so the
-- failing `push` is its case `zero`.
pub read_properties_loop : ℕ → List ℕ → ℕ → List Property → Exec ℕ (List Property)
read_properties_loop zero buf prop_end properties cursor =
    if ltb cursor prop_end
    then (do read_property buf prop_end; raise too_many_properties) cursor
    else (ok properties, cursor)
read_properties_loop (suc room) buf prop_end properties cursor =
    let more =
      (read_property buf prop_end >>= λ p.
      read_properties_loop room buf prop_end (properties ++ (p ∷ [])))
        cursor in
    if ltb cursor prop_end then more else (ok properties, cursor)

pub read_properties : List ℕ → Exec ℕ (List Property)
read_properties buf = do
  prop_len ← read_variable_byte_integer buf
  cursor ← get
  fail_if (ltb (length buf) (cursor + prop_len)) incomplete_packet
  read_properties_loop capacity buf (cursor + prop_len) []

-- `for prop in properties { total_prop_len += 1 + prop.data.len(); }`
unfoldable pub total_prop_len : List Property → ℕ
total_prop_len [] = 0
total_prop_len (p ∷ ps) = 1 + length p.bytes + total_prop_len ps

pub write_each : List Property → Exec Writer (Unit {0})
write_each [] = pure tt
write_each (p ∷ ps) = (put_byte p.id >> put_slice p.bytes) >> write_each ps

pub write_properties : List Property → Exec Writer (Unit {0})
write_properties properties =
    write_variable_byte_integer (total_prop_len properties) >> write_each properties
