-- ===== src/Properties/RoundTrip.antt =====
-- The wire form of properties, and the lemmas on `read_properties` and `write_properties`.
use mqtt_async_embedded.Prelude.{
  ℕ, zero, suc, ◌+◌, ◌≤◌, ◌<◌, ◌≡◌, refl, sym, ap, ◌∙◌, List, [], ◌∷◌, ◌++◌, length, drop, ltb,
  arith, All, le→ltb, lt→ltb, append_assoc, append-nil, length-append, take-length-append,
  drop_behind, get_elem?-of_drop,
}
use mathlib.Core.Path.{ap₂}
use mqtt_async_embedded.Exec.{ok, ◌>>=◌, ◌>>◌, >>=_ok, get-bind, fail_if-false}
use mqtt_async_embedded.Wire.{index_byte}
use mqtt_async_embedded.Wire.Writes.{
  at, Writes, Writes-pure, Writes-seq, Writes-put_byte, Writes-put_slice,
}
use mqtt_async_embedded.Wire.Reads.{
  Reads, Reads-index_byte, length-of_drop, second-of_drop, from_be_bytes-to_be_bytes,
}
use mqtt_async_embedded.Varint.{read_variable_byte_integer}
use mqtt_async_embedded.Varint.Encoding.{varint, varint_limit, usize_limit, length-groups}
use mqtt_async_embedded.Varint.Write.{Writes-varint}
use mqtt_async_embedded.Varint.Read.{Reads-varint}
use mqtt_async_embedded.Fields.RoundTrip.{prefixed}
use mqtt_async_embedded.Types.{Property, capacity}
use mqtt_async_embedded.Properties.{
  PropertyKind, byte, two_bytes, four_bytes, prefixed_data, string_pair, var_int, other,
  property_kind, u16_at, moved, data_len_of, read_property, read_properties_loop, read_properties,
  total_prop_len, write_each, write_properties,
}

-- The data of each kind of property, as the standard lays them out.
abbrev pub HasShape : PropertyKind → List ℕ → Type 0
HasShape byte bs = length bs ≡ 1
HasShape two_bytes bs = length bs ≡ 2
HasShape four_bytes bs = length bs ≡ 4
HasShape prefixed_data bs = (s : List ℕ) × (bs ≡ prefixed s)
HasShape string_pair bs = (k : List ℕ) × (v : List ℕ) × (bs ≡ prefixed k ++ prefixed v)
HasShape var_int bs = (v : ℕ) × (v < varint_limit) × (bs ≡ varint v)
HasShape other bs = length bs ≡ 1

abbrev pub IsProperty : Property → Type 0
IsProperty p = HasShape (property_kind p.id) p.bytes

-- The wire form of a list of properties, without and with its length.
unfoldable pub property_bytes : List Property → List ℕ
property_bytes [] = []
property_bytes (p ∷ ps) = (p.id ∷ p.bytes) ++ property_bytes ps

abbrev pub properties_bytes : List Property → List ℕ
properties_bytes ps = varint (total_prop_len ps) ++ property_bytes ps

length-property_bytes : (ps : List Property) → length (property_bytes ps) ≡ total_prop_len ps
unfolding property_bytes total_prop_len
length-property_bytes [] = refl
length-property_bytes (p ∷ ps) =
    omega (arith, length-append p.bytes (property_bytes ps), length-property_bytes ps)

Writes-each : (ps : List Property) → Writes (write_each ps) (property_bytes ps)
unfolding write_each property_bytes
Writes-each [] = Writes-pure
Writes-each (p ∷ ps) =
    Writes-seq (Writes-seq (Writes-put_byte p.id) (Writes-put_slice p.bytes)) (Writes-each ps)

-- `write_properties` writes the length and then each property at the cursor where they fit, and
-- answers `BufferTooSmall` where they do not, if the length is one of a `usize`.
pub Writes-properties :
    (ps : List Property)
    → total_prop_len ps < usize_limit
    → Writes (write_properties ps) (properties_bytes ps)
unfolding write_properties
Writes-properties ps h = Writes-seq (Writes-varint (total_prop_len ps) h) (Writes-each ps)

u16_at_found :
    (buf s rest : List ℕ) (start cursor : ℕ)
    → drop start buf ≡ prefixed s ++ rest
    → u16_at buf start cursor ≡ (ok (length s), cursor)
unfolding u16_at ◌>>=◌
u16_at_found buf s rest start cursor e = rw (
  get_elem?-of_drop start buf e,
  second-of_drop buf start e,
  from_be_bytes-to_be_bytes (length s),
)

-- The length that the reader works out is that of the data.
data_len_found :
    (kind : PropertyKind) (buf bs rest : List ℕ) (start cursor : ℕ)
    → HasShape kind bs
    → drop start buf ≡ bs ++ rest
    → data_len_of kind buf start cursor ≡ (ok (length bs), cursor)
unfolding data_len_of
data_len_found byte buf bs rest start cursor h e = ap (λ n. (ok n, cursor)) (sym h)
data_len_found two_bytes buf bs rest start cursor h e = ap (λ n. (ok n, cursor)) (sym h)
data_len_found four_bytes buf bs rest start cursor h e = ap (λ n. (ok n, cursor)) (sym h)
data_len_found prefixed_data buf bs rest start cursor (s, h) e =
    >>=_ok (u16_at buf start) _ cursor (u16_at_found buf s rest start cursor (rw h at e))
    ∙ ap (λ n. (ok n, cursor)) (rw h (omega arith))
data_len_found string_pair buf bs rest start cursor (k, v, h) e =
    let here : drop start buf ≡ prefixed k ++ (prefixed v ++ rest) = rw (h, append_assoc) at e in
    let there : drop (start + 2 + length k) buf ≡ prefixed v ++ rest =
      ap (λ n. drop n buf) (omega arith)
      ∙ drop_behind start buf (prefixed k) (prefixed v ++ rest) here in
    >>=_ok (u16_at buf start) _ cursor (u16_at_found buf k (prefixed v ++ rest) start cursor here)
    ∙ >>=_ok (u16_at buf (start + 2 + length k)) _ cursor
        (u16_at_found buf v rest (start + 2 + length k) cursor there)
    ∙ ap (λ n. (ok n, cursor)) (rw h (omega (arith, length-append (prefixed k) (prefixed v))))
data_len_found var_int buf bs rest start cursor (v, fits, h) e =
    ap (λ r. moved start r cursor) ((Reads-varint v fits).at buf rest start (rw h at e))
    ∙ ap (λ n. (ok n, cursor)) (rw h (omega arith))
data_len_found other buf bs rest start cursor h e = ap (λ n. (ok n, cursor)) (sym h)

module _ (buf rest : List ℕ) (p : Property) (pos prop_end : ℕ) (shape : IsProperty p)
    (e : drop pos buf ≡ (p.id ∷ p.bytes) ++ rest) where
  behind_id : drop (pos + 1) buf ≡ p.bytes ++ rest
  behind_id = drop_behind pos buf (p.id ∷ []) (p.bytes ++ rest) e

  property_found :
      pos + 1 + length p.bytes ≤ prop_end
      → read_property buf prop_end pos ≡ (ok p, pos + 1 + length p.bytes)
  unfolding read_property
  property_found h =
      >>=_ok (index_byte buf) _ pos ((Reads-index_byte p.id).at buf (p.bytes ++ rest) pos e)
      ∙ get-bind _ (pos + 1)
      ∙ >>=_ok (data_len_of (property_kind p.id) buf (pos + 1)) _ (pos + 1)
          (data_len_found (property_kind p.id) buf p.bytes rest (pos + 1) (pos + 1) shape behind_id)
      ∙ unfold ◌>>=◌ ◌>>◌ in
        rw (le→ltb prop_end (pos + 1 + length p.bytes) h, behind_id, take-length-append)

-- One round of the loop at a property.
loop_step :
    (room : ℕ) (buf acc_rest : List ℕ) (acc : List Property) (p : Property) (pos prop_end : ℕ)
    → read_property buf prop_end pos ≡ (ok p, pos + 1 + length p.bytes)
    → pos < prop_end
    → read_properties_loop (suc room) buf prop_end acc pos
      ≡ read_properties_loop room buf prop_end (acc ++ (p ∷ [])) (pos + 1 + length p.bytes)
unfolding read_properties_loop
loop_step room buf acc_rest acc p pos prop_end found h =
    rw (lt→ltb pos prop_end h) (>>=_ok (read_property buf prop_end) _ pos found)

loop_end :
    (room : ℕ) (buf : List ℕ) (acc : List Property) (pos prop_end : ℕ)
    → prop_end ≤ pos
    → read_properties_loop room buf prop_end acc pos ≡ (ok acc, pos)
unfolding read_properties_loop
loop_end zero buf acc pos prop_end h = rw (le→ltb pos prop_end h)
loop_end (suc room) buf acc pos prop_end h = rw (le→ltb pos prop_end h)

loop_found :
    (room : ℕ) (ps acc : List Property) (buf rest : List ℕ) (pos prop_end : ℕ)
    → length ps ≤ room
    → All IsProperty ps
    → prop_end ≡ pos + total_prop_len ps
    → drop pos buf ≡ property_bytes ps ++ rest
    → read_properties_loop room buf prop_end acc pos ≡ (ok (acc ++ ps), prop_end)
unfolding property_bytes total_prop_len
loop_found room [] acc buf rest pos prop_end h shapes size e =
    loop_end room buf acc pos prop_end (omega arith)
    ∙ ap₂ (λ l n. (ok l, n)) (sym (append-nil acc)) (omega arith)
loop_found zero (p ∷ ps) acc buf rest pos prop_end h shapes size e = absurd (omega arith)
loop_found (suc room) (p ∷ ps) acc buf rest pos prop_end h (shape, shapes) size e =
    let more : List ℕ = property_bytes ps ++ rest in
    let here : drop pos buf ≡ (p.id ∷ p.bytes) ++ more =
      e ∙ append_assoc (p.id ∷ p.bytes) (property_bytes ps) rest in
    let there : drop (pos + 1 + length p.bytes) buf ≡ more =
      ap (λ n. drop n buf) (omega arith) ∙ drop_behind pos buf (p.id ∷ p.bytes) more here in
    loop_step room buf rest acc p pos prop_end
      (property_found buf more p pos prop_end shape here (omega arith)) (omega arith)
    ∙ loop_found room ps (acc ++ (p ∷ [])) buf rest (pos + 1 + length p.bytes) prop_end
        (omega arith) shapes (omega arith) there
    ∙ ap (λ l. (ok l, prop_end)) (append_assoc acc (p ∷ []) ps)

-- A list of at most eight well formed properties.
pub record ArePropertiesOk (ps : List Property) : Type 0 where
  pub few : length ps ≤ capacity
  pub shapes : All IsProperty ps
  pub size : total_prop_len ps < varint_limit

-- `read_properties` gives back at most eight well formed properties, in less than 2^28 bytes, from
-- their bytes, and leaves the cursor behind them.
pub Reads-properties :
    (ps : List Property) → ArePropertiesOk ps → Reads read_properties (properties_bytes ps) ps
unfolding read_properties
Reads-properties ps h = record {
  at = λ buf rest pos e.
      let n : ℕ = total_prop_len ps in
      let len : List ℕ = varint n in
      let here : drop pos buf ≡ len ++ (property_bytes ps ++ rest) =
        e ∙ append_assoc len (property_bytes ps) rest in
      let there : drop (pos + length len) buf ≡ property_bytes ps ++ rest =
        drop_behind pos buf len (property_bytes ps ++ rest) here in
      let size : length (property_bytes ps) ≡ n = length-property_bytes ps in
      >>=_ok (read_variable_byte_integer buf) _ pos
        ((Reads-varint n h.size).at buf (property_bytes ps ++ rest) pos here)
      ∙ get-bind _ (pos + length len)
      ∙ fail_if-false (ltb (length buf) (pos + length len + n)) _ _ (pos + length len) (
          le→ltb (length buf) (pos + length len + n) (
            omega (
              arith,
              size,
              length-of_drop buf (properties_bytes ps) rest pos e,
              length-append len (property_bytes ps),
              length-groups 9 n,
            )))
      ∙ loop_found capacity ps [] buf rest (pos + length len) (pos + length len + n) h.few h.shapes
          refl there
      ∙ ap (λ k. (ok ps, k)) (omega (arith, size, length-append len (property_bytes ps)));
}

-- `read_properties` gives back at most eight well formed properties, in less than 2^28 bytes, from
-- their bytes at the cursor, and leaves the cursor behind them.
pub read_properties-properties_bytes :
    (ps : List Property) (buf rest : List ℕ) (cursor : ℕ)
    → ArePropertiesOk ps
    → drop cursor buf ≡ properties_bytes ps ++ rest
    → read_properties buf cursor ≡ (ok ps, cursor + length (properties_bytes ps))
read_properties-properties_bytes ps buf rest cursor h e =
    (Reads-properties ps h).at buf rest cursor e

-- `write_properties` writes the length of all properties and then each of them at the cursor, where
-- there is room for them, if the length is one of a `usize`.
pub write_properties-properties_bytes :
    (ps : List Property) (done room : List ℕ)
    → total_prop_len ps < usize_limit
    → length (properties_bytes ps) ≤ length room
    → write_properties ps (at done room)
      ≡ (ok tt, at (done ++ properties_bytes ps) (drop (length (properties_bytes ps)) room))
write_properties-properties_bytes ps done room h fits = (Writes-properties ps h).fits done room fits
