-- ===== src/Wire/Reads.antt =====
-- When an action reads a value off a given list of bytes that lies at the cursor.
use mqtt_async_embedded.Prelude.{
  ℕ, ◌+◌, ◌-◌, ◌/◌, ◌%◌, ◌≡◌, ap, ◌∙◌, List, [], ◌∷◌, ◌++◌, length, get_elem?, drop, some,
  length-append, length-drop, drop-add, get_elem?-of_drop, append_assoc, drop_behind, arith,
}
use mqtt_async_embedded.Exec.{ok, Exec, ◌>>=◌, >>=_ok}
use mqtt_async_embedded.Wire.{get_byte, index_byte, index_u16, to_be_bytes, from_be_bytes}

pub record Reads {A : Type 0} (m : List ℕ → Exec ℕ A) (bs : List ℕ) (a : A) : Type 0 where
  pub at :
      (buf rest : List ℕ) (pos : ℕ)
      → drop pos buf ≡ bs ++ rest
      → m buf pos ≡ (ok a, pos + length bs)

-- The lengths of a buffer that has `bs` at a position.
pub length-of_drop :
    (buf bs rest : List ℕ) (pos : ℕ)
    → drop pos buf ≡ bs ++ rest
    → length buf - pos ≡ length bs + length rest
length-of_drop buf bs rest pos e =
    omega (arith, length-drop pos buf, ap length e, length-append bs rest)

pub Reads-get_byte : (b : ℕ) → Reads get_byte (b ∷ []) b
unfolding get_byte ◌>>=◌
Reads-get_byte b = record { at = λ buf rest pos e. rw (get_elem?-of_drop pos buf e) }

pub Reads-index_byte : (b : ℕ) → Reads index_byte (b ∷ []) b
unfolding index_byte ◌>>=◌
Reads-index_byte b = record { at = λ buf rest pos e. rw (get_elem?-of_drop pos buf e) }

pub second-of_drop :
    (buf : List ℕ) (pos : ℕ) {x y : ℕ} {rest : List ℕ}
    → drop pos buf ≡ x ∷ y ∷ rest
    → get_elem? buf (pos + 1) ≡ some y
second-of_drop buf pos {rest = rest} e =
    get_elem?-of_drop (pos + 1) buf {ys = rest} (rw (drop-add, e))

pub from_be_bytes-to_be_bytes : (v : ℕ) → from_be_bytes (v / 256) (v % 256) ≡ v
from_be_bytes-to_be_bytes v = omega arith

pub Reads-index_u16 : (v : ℕ) → Reads index_u16 (to_be_bytes v) v
unfolding index_u16 ◌>>=◌
Reads-index_u16 v = record {
  at = λ buf rest pos e.
      rw (get_elem?-of_drop pos buf e, second-of_drop buf pos e, from_be_bytes-to_be_bytes v);
}

pub Reads-bind :
    {A B : Type 0} {m : List ℕ → Exec ℕ A} (f : List ℕ → A → Exec ℕ B) {bs cs : List ℕ} {a : A}
    {b : B}
    → Reads m bs a
    → Reads (λ buf. f buf a) cs b
    → Reads (λ buf. m buf >>= f buf) (bs ++ cs) b
Reads-bind {A} {B} {m} f {bs} {cs} {a} {b} rm rf = record {
  at = λ buf rest pos e.
      let here : drop pos buf ≡ bs ++ (cs ++ rest) = e ∙ append_assoc bs cs rest in
      >>=_ok (m buf) (f buf) pos (rm.at buf (cs ++ rest) pos here)
      ∙ rf.at buf rest (pos + length bs) (drop_behind pos buf bs (cs ++ rest) here)
      ∙ ap (λ n. (ok b, n)) (omega (arith, length-append bs cs));
}
