-- ===== src/Varint/Read.antt =====
-- The readers on the encoding of a value.
use native.Mathlib.Nat.{div-add-mod, add-zero}
use mathlib.Core.Path.{ap₂}
use mqtt_async_embedded.Prelude.{
  ℕ, zero, suc, ◌+◌, ◌-◌, ◌*◌, ◌/◌, ◌%◌, ◌^◌, ◌<◌, ◌≡◌, bit_and, refl, sym, ap, ◌∙◌, arith, List,
  ◌∷◌, ◌++◌, some, inl, inr, length, get_elem?, drop, drop-add, get_elem?-of_drop, ltb, ltb→lt,
  Bool-cases,
}
use mqtt_async_embedded.Prelude.Bits.{low_bits, top_bit}
use mqtt_async_embedded.Exec.{ok}
use mqtt_async_embedded.Wire.Reads.{Reads}
use mqtt_async_embedded.Varint.{
  read_loop, read_variable_byte_integer, advance, peek_variable_byte_integer, taken,
}
use mqtt_async_embedded.Varint.Encoding.{groups, varint, varint_limit, varint_four, length-groups}

module _ (buf : List ℕ) (start m value i : ℕ) where
  read_last :
      (rounds v : ℕ)
      → get_elem? buf (start + i) ≡ some v
      → v < 128
      → read_loop (suc rounds) buf start m value i ≡ ok (value + v * m, i)
  unfolding read_loop
  read_last rounds v e h = rw (e, read_loop) (ground (arith, low_bits v, top_bit v))

  read_more :
      (rounds g : ℕ)
      → get_elem? buf (start + i) ≡ some (g + 128)
      → g < 128
      → read_loop (suc rounds) buf start m value i
        ≡ read_loop rounds buf start (m * 128) (value + g * m) (i + 1)
  unfolding read_loop
  read_more rounds g e h =
      let low : bit_and (g + 128) 127 ≡ g = low_bits (g + 128) (omega arith) ∙ omega arith in
      let top : bit_and (g + 128) 128 ≡ 128 = top_bit (g + 128) (omega arith) ∙ omega arith in
      rw (e, read_loop, low, top) refl

-- The weight of the lowest group and of the rest.
split_value : (v m value : ℕ) → value + v * m ≡ value + v % 128 * m + v / 128 * (m * 128)
split_value v m value = omega (arith, ap (λ (t : ℕ). t * m) (div-add-mod v 128))

pub next_position :
    (buf : List ℕ) (start i : ℕ) {x : ℕ} {rest : List ℕ}
    → drop (start + i) buf ≡ x ∷ rest
    → drop (start + (i + 1)) buf ≡ rest
next_position buf start i {x} {rest} e =
    ap (λ k. drop k buf) (arrange start i) ∙ drop-add (start + i) 1 buf ∙ ap (drop 1) e
  where
    arrange : (start i : ℕ) → start + (i + 1) ≡ start + i + 1
    arrange start i = omega arith

read_loop-groups :
    (k v : ℕ) (buf rest : List ℕ) (start m value i : ℕ)
    → v < 128 ^ suc k
    → drop (start + i) buf ≡ groups k v ++ rest
    → read_loop (suc k) buf start m value i ≡ ok (value + v * m, i + (length (groups k v) - 1))
unfolding groups
read_loop-groups zero v buf rest start m value i h e =
    read_last buf start m value i zero v (get_elem?-of_drop (start + i) buf e) h
    ∙ ap (λ n. ok (value + v * m, n)) (omega arith)
read_loop-groups (suc k) v buf rest start m value i h e = elim (Bool-cases (ltb v 128)) [
  | inl small ↦
      let here : drop (start + i) buf ≡ v ∷ rest = rw (small, groups) at e in
      rw small (
        read_last buf start m value i (suc k) v (get_elem?-of_drop (start + i) buf here)
          (ltb→lt _ _ small)
        ∙ ap (λ n. ok (value + v * m, n)) (omega arith))
  | inr large ↦
      let g : ℕ = v % 128 in
      let tail : List ℕ = groups k (v / 128) in
      let here : drop (start + i) buf ≡ (g + 128) ∷ (tail ++ rest) = rw (large, groups) at e in
      rw large (
        read_more buf start m value i (suc k) g (get_elem?-of_drop (start + i) buf here)
          (omega arith)
        ∙ read_loop-groups k (v / 128) buf rest start (m * 128) (value + g * m) (i + 1)
            (omega arith) (next_position buf start i here)
        ∙ ap₂ (λ x n. ok (x, n)) (sym (split_value v m value))
            (omega (arith, length-groups k (v / 128))))
]

-- From a value below 2^28 the reader takes exactly its encoding.
pub Reads-varint : (v : ℕ) → v < varint_limit → Reads read_variable_byte_integer (varint v) v
unfolding read_variable_byte_integer
Reads-varint v h = record {
  at =
      λ buf rest pos e. rw (ap advance (found buf rest pos e)) (λ i. (ok (weigh v i), reach pos i));
}
  where
    found :
        (buf rest : List ℕ) (pos : ℕ)
        → drop pos buf ≡ varint v ++ rest
        → read_loop 4 buf pos 1 0 0 ≡ ok (0 + v * 1, 0 + (length (groups 3 v) - 1))
    found buf rest pos e =
        read_loop-groups 3 v buf rest pos 1 0 0 (omega arith)
          (ap (λ k. drop k buf) (add-zero pos) ∙ e ∙ ap (λ bs. bs ++ rest) (varint_four v h))

    weigh : (v : ℕ) → 0 + v * 1 ≡ v
    weigh v = omega arith

    reach : (pos : ℕ) → pos + (0 + (length (groups 3 v) - 1) + 1) ≡ pos + length (varint v)
    reach pos = rw (varint_four v h) (omega (arith, length-groups 3 v))

-- `peek_variable_byte_integer` returns the value and the number of bytes of its encoding.
pub peek-varint :
    (v : ℕ) (rest : List ℕ)
    → v < varint_limit
    → peek_variable_byte_integer (varint v ++ rest) ≡ ok (v, length (varint v))
unfolding peek_variable_byte_integer
peek-varint v rest h =
    ap taken (
      read_loop-groups 3 v (varint v ++ rest) rest 0 1 0 0 (omega arith)
        (ap (λ bs. bs ++ rest) (varint_four v h)))
    ∙ ap₂ (λ x n. ok (x, n)) (omega arith) (rw (varint_four v h) (omega (arith, length-groups 3 v)))

-- `read_variable_byte_integer` gives back every value below 2^28 from its encoding at the cursor, and
-- leaves the cursor behind it.
pub read_variable_byte_integer-varint :
    (v : ℕ) (buf rest : List ℕ) (cursor : ℕ)
    → v < varint_limit
    → drop cursor buf ≡ varint v ++ rest
    → read_variable_byte_integer buf cursor ≡ (ok v, cursor + length (varint v))
read_variable_byte_integer-varint v buf rest cursor h e = (Reads-varint v h).at buf rest cursor e
