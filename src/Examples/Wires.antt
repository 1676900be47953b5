-- ===== src/Examples/Wires.antt =====
-- The wire forms of crates/mqtt-packet on concrete values.
use mqtt_async_embedded.Prelude.{ℕ, ◌≡◌, refl, List, [], ◌∷◌, length, replicate, arith}
use mqtt_async_embedded.Exec.{ok, err, malformed_packet}
use mqtt_async_embedded.Types.{Property}
use mqtt_async_embedded.Wire.{Writer}
use mqtt_async_embedded.Wire.Writes.{at}
use mqtt_async_embedded.Varint.{
  read_variable_byte_integer, write_variable_byte_integer, write_variable_byte_integer_len,
}
use mqtt_async_embedded.Varint.Encoding.{varint, groups}
use mqtt_async_embedded.Varint.TooLarge.{read-write_large}
use mqtt_async_embedded.Properties.{property_kind, total_prop_len}
use mqtt_async_embedded.Properties.RoundTrip.{ArePropertiesOk, properties_bytes, property_bytes}

encoding_of_300 : varint 300 ≡ 0xac ∷ 0x02 ∷ []
unfolding groups
encoding_of_300 = refl

read-write_large_example :
    let room : List ℕ = replicate 10 0 in
    let (written, w) = write_variable_byte_integer 268435456 (at (1 ∷ []) room) in
    let (count, slice) = write_variable_byte_integer_len 268435456 room in
    (written ≡ ok tt)
    × (read_variable_byte_integer (Writer.buf w) 1 ≡ (err malformed_packet, 1))
    × (count ≡ ok (length (varint 268435456)))
    × (read_variable_byte_integer slice 0 ≡ (err malformed_packet, 0))
read-write_large_example =
    read-write_large 268435456 (1 ∷ []) (replicate 10 0) (omega arith) (omega arith) (omega arith)

abbrev continuations : List ℕ
continuations = 0x80 ∷ 0xff ∷ 0x80 ∷ 0x81 ∷ []

-- A payload format indicator, a receive maximum, a user property and a subscription identifier.
abbrev some_properties : List Property
some_properties =
    record { id = 0x01; bytes = 1 ∷ [] }
    ∷ record { id = 0x21; bytes = 0 ∷ 20 ∷ [] }
    ∷ record { id = 0x26; bytes = 0 ∷ 1 ∷ 107 ∷ 0 ∷ 1 ∷ 118 ∷ [] }
    ∷ record { id = 0x0b; bytes = 0xac ∷ 0x02 ∷ [] }
    ∷ []

some_length : total_prop_len some_properties ≡ 15
unfolding total_prop_len
some_length = refl

some_properties-ArePropertiesOk : ArePropertiesOk some_properties
unfolding property_kind groups
some_properties-ArePropertiesOk = record {
  few = omega arith;
  shapes = (refl, (refl, ((107 ∷ [], 118 ∷ [], refl), ((300, omega arith, refl), tt))));
  size = omega (arith, some_length);
}

some_bytes : length (properties_bytes some_properties) ≡ 16
unfolding total_prop_len groups property_bytes
some_bytes = refl
