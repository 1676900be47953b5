-- ===== src/Varint/Errors.antt =====
-- The readers on bytes that all have the top bit set.
use native.Mathlib.Nat.{add-zero}
use mqtt_async_embedded.Prelude.{
  ℕ, zero, suc, ◌+◌, ◌*◌, ◌≤◌, ◌<◌, ◌≡◌, refl, ap, ◌∙◌, bit_and, arith, List, [], ◌∷◌, ◌++◌, none,
  some, length, get_elem?, drop, get_elem?-of_drop, All,
}
use mqtt_async_embedded.Prelude.Bits.{top_bit}
use mqtt_async_embedded.Exec.{err, incomplete_packet, malformed_packet}
use mqtt_async_embedded.Varint.{
  read_loop, read_variable_byte_integer, advance, peek_variable_byte_integer, taken,
}
use mqtt_async_embedded.Varint.Read.{next_position}

-- A byte that announces another one.
abbrev pub IsContinuation : ℕ → Type 0
IsContinuation b = (128 ≤ b) × (b < 256)

continue_step :
    (rounds : ℕ) (buf : List ℕ) (start m value i b : ℕ)
    → get_elem? buf (start + i) ≡ some b
    → IsContinuation b
    → read_loop (suc rounds) buf start m value i
      ≡ read_loop rounds buf start (m * 128) (value + bit_and b 127 * m) (i + 1)
unfolding read_loop
continue_step rounds buf start m value i b e (low, high) =
    let top : bit_and b 128 ≡ 128 = top_bit b high ∙ omega arith in rw (e, read_loop, top) refl

past_end : (n : ℕ) (buf : List ℕ) → drop n buf ≡ [] → get_elem? buf n ≡ none
past_end zero [] e = refl
past_end zero (x ∷ buf) e = cc
past_end (suc n) [] e = refl
past_end (suc n) (x ∷ buf) e = past_end n buf e

loop_incomplete :
    (rounds : ℕ) (bs buf : List ℕ) (start m value i : ℕ)
    → length bs < rounds
    → All IsContinuation bs
    → drop (start + i) buf ≡ bs
    → read_loop rounds buf start m value i ≡ err incomplete_packet
loop_incomplete zero bs buf start m value i h cs e = absurd (omega arith)
loop_incomplete (suc rounds) [] buf start m value i h cs e =
    unfold read_loop in rw (past_end (start + i) buf e, read_loop)
loop_incomplete (suc rounds) (b ∷ bs) buf start m value i h (c, cs) e =
    continue_step rounds buf start m value i b (get_elem?-of_drop (start + i) buf e) c
    ∙ loop_incomplete rounds bs buf start (m * 128) (value + bit_and b 127 * m) (i + 1)
        (omega arith) cs (next_position buf start i e)

loop_malformed :
    (rounds : ℕ) (bs rest buf : List ℕ) (start m value i : ℕ)
    → length bs ≡ rounds
    → All IsContinuation bs
    → drop (start + i) buf ≡ bs ++ rest
    → read_loop rounds buf start m value i ≡ err malformed_packet
unfolding read_loop
loop_malformed zero bs rest buf start m value i h cs e = refl
loop_malformed (suc rounds) [] rest buf start m value i h cs e = absurd (omega arith)
loop_malformed (suc rounds) (b ∷ bs) rest buf start m value i h (c, cs) e =
    continue_step rounds buf start m value i b (get_elem?-of_drop (start + i) buf e) c
    ∙ loop_malformed rounds bs rest buf start (m * 128) (value + bit_and b 127 * m) (i + 1)
        (omega arith) cs (next_position buf start i e)

-- At most three continuation bytes and then the end of the buffer are an incomplete packet to
-- `peek_variable_byte_integer`.
pub peek_incomplete :
    (bs : List ℕ)
    → length bs ≤ 3
    → All IsContinuation bs
    → peek_variable_byte_integer bs ≡ err incomplete_packet
unfolding peek_variable_byte_integer
peek_incomplete bs h cs = ap taken (loop_incomplete 4 bs bs 0 1 0 0 (omega arith) cs refl)

-- Four continuation bytes are malformed to `peek_variable_byte_integer`, whatever follows them.
pub peek_malformed :
    (bs rest : List ℕ)
    → length bs ≡ 4
    → All IsContinuation bs
    → peek_variable_byte_integer (bs ++ rest) ≡ err malformed_packet
unfolding peek_variable_byte_integer
peek_malformed bs rest h cs = ap taken (loop_malformed 4 bs rest (bs ++ rest) 0 1 0 0 h cs refl)

-- Four continuation bytes at the cursor are malformed to `read_variable_byte_integer`, whatever
-- follows them, and the cursor stays.
pub read_malformed :
    (bs rest buf : List ℕ) (cursor : ℕ)
    → length bs ≡ 4
    → All IsContinuation bs
    → drop cursor buf ≡ bs ++ rest
    → read_variable_byte_integer buf cursor ≡ (err malformed_packet, cursor)
unfolding read_variable_byte_integer
read_malformed bs rest buf cursor h cs e =
    ap (λ r. advance r cursor)
      (loop_malformed 4 bs rest buf cursor 1 0 0 h cs (ap (λ n. drop n buf) (add-zero cursor) ∙ e))
