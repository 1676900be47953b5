-- ===== src/Codec/Frame/Parses.antt =====
-- When a decoder of a part of the content, which may look at where the content ends, reads a value
-- off a given list of bytes that has `after` more bytes of content behind it.
use mqtt_async_embedded.Prelude.{
  ℕ, ◌+◌, ◌≤◌, ◌<◌, ◌≡◌, refl, ap, ◌∙◌, Bool, true, false, List, [], ◌∷◌, ◌++◌, length, drop, ltb,
  arith, le→ltb, lt→ltb, length-append, append_assoc, drop_behind, if◌then◌else◌,
}
use mqtt_async_embedded.Exec.{
  PacketError, Result, ok, Exec, pure, ◌>>=◌, ◌>>◌, >>=_ok, get-bind, fail_if-false, fail_if,
}
use mqtt_async_embedded.Wire.{to_be_bytes}
use mqtt_async_embedded.Wire.Reads.{Reads, Reads-index_u16}
use mqtt_async_embedded.Varint.{read_variable_byte_integer}
use mqtt_async_embedded.Varint.Encoding.{varint, varint_limit, length-groups}
use mqtt_async_embedded.Varint.Read.{Reads-varint}
use mqtt_async_embedded.Types.{Property}
use mqtt_async_embedded.Properties.{total_prop_len}
use mqtt_async_embedded.Properties.RoundTrip.{
  ArePropertiesOk, properties_bytes, property_bytes, Reads-properties,
}
use mqtt_async_embedded.Codec.Frame.{open_frame, decode_frame, read_u16, properties_if}
use mqtt_async_embedded.Codec.Frame.Encodes.{frame}

pub record Parses {A : Type 0} (m : List ℕ → ℕ → Exec ℕ A) (bs : List ℕ) (after : ℕ) (a : A)
    : Type 0 where
  pub at :
      (buf rest : List ℕ) (pos content_end : ℕ)
      → drop pos buf ≡ bs ++ rest
      → pos + length bs + after ≡ content_end
      → m buf content_end pos ≡ (ok a, pos + length bs)

module _ {A : Type 0} where
  pub Parses-Reads :
      {m : List ℕ → Exec ℕ A} {bs : List ℕ} {a : A} (after : ℕ)
      → Reads m bs a
      → Parses (λ buf content_end. m buf) bs after a
  Parses-Reads after r = record { at = λ buf rest pos content_end e h. r.at buf rest pos e }

  pub Parses-pure : (after : ℕ) (a : A) → Parses (λ buf content_end. pure a) [] after a
  Parses-pure after a = record {
    at = λ buf rest pos content_end e h. ap (λ n. (ok a, n)) (omega arith);
  }

module _ {A B : Type 0} where
  pub Parses-bind :
      {m : List ℕ → ℕ → Exec ℕ A} (f : List ℕ → ℕ → A → Exec ℕ B) {bs cs : List ℕ} {after : ℕ}
      {a : A} {b : B}
      → Parses m bs (length cs + after) a
      → Parses (λ buf content_end. f buf content_end a) cs after b
      → Parses (λ buf content_end. m buf content_end >>= f buf content_end) (bs ++ cs) after b
  Parses-bind {m} f {bs} {cs} {after} {a} {b} pm pf = record {
    at = λ buf rest pos content_end e h.
        let here : drop pos buf ≡ bs ++ (cs ++ rest) = e ∙ append_assoc bs cs rest in
        >>=_ok (m buf content_end) (f buf content_end) pos
          (pm.at buf (cs ++ rest) pos content_end here (omega (arith, length-append bs cs)))
        ∙ pf.at buf rest (pos + length bs) content_end (drop_behind pos buf bs (cs ++ rest) here)
            (omega (arith, length-append bs cs))
        ∙ ap (λ n. (ok b, n)) (omega (arith, length-append bs cs));
  }

-- `let a = m?; Ok(f(a))`
pub Parses-map :
    {A B : Type 0} {m : List ℕ → ℕ → Exec ℕ A} (f : A → B) {bs : List ℕ} {after : ℕ} {a : A}
    → Parses m bs after a
    → Parses (λ buf content_end. m buf content_end >>= λ x. pure (f x)) bs after (f a)
Parses-map {A} {B} {m} f pm = record {
  at = λ buf rest pos content_end e h.
      >>=_ok (m buf content_end) (λ x. pure (f x)) pos (pm.at buf rest pos content_end e h);
}

-- `if b { return Err(x) }` that does not fire
pub Parses-check :
    {A : Type 0} {m : List ℕ → ℕ → Exec ℕ A} {b : Bool} (x : PacketError) {bs : List ℕ} {after : ℕ}
    {a : A}
    → b ≡ false
    → Parses m bs after a
    → Parses (λ buf content_end. fail_if b x >> m buf content_end) bs after a
Parses-check {A} {m} {b} x h pm = record {
  at = λ buf rest pos content_end e p.
      fail_if-false b x (m buf content_end) pos h ∙ pm.at buf rest pos content_end e p;
}

-- The last part of a decoder, whose cursor nothing looks at any more.
pub record Finishes {A : Type 0} (m : List ℕ → ℕ → Exec ℕ A) (bs : List ℕ) (a : A) : Type 0 where
  pub at :
      (buf rest : List ℕ) (pos content_end : ℕ)
      → drop pos buf ≡ bs ++ rest
      → pos + length bs ≡ content_end
      → content_end ≤ length buf
      → (m buf content_end pos).0 ≡ ok a

pub Finishes-Parses :
    {A : Type 0} {m : List ℕ → ℕ → Exec ℕ A} {bs : List ℕ} {a : A}
    → Parses m bs 0 a
    → Finishes m bs a
Finishes-Parses {A} parses = record {
  at = λ buf rest pos content_end e h inside.
      ap (λ (r : Result A × ℕ). r.0) (parses.at buf rest pos content_end e (omega arith));
}

pub Finishes-bind :
    {A B : Type 0} {m : List ℕ → ℕ → Exec ℕ A} (f : List ℕ → ℕ → A → Exec ℕ B) {bs cs : List ℕ}
    {a : A} {b : B}
    → Parses m bs (length cs) a
    → Finishes (λ buf content_end. f buf content_end a) cs b
    → Finishes (λ buf content_end. m buf content_end >>= f buf content_end) (bs ++ cs) b
Finishes-bind {A} {B} {m} f {bs} {cs} {a} {b} pm pf = record {
  at = λ buf rest pos content_end e h inside.
      let here : drop pos buf ≡ bs ++ (cs ++ rest) = e ∙ append_assoc bs cs rest in
      ap (λ (r : Result B × ℕ). r.0)
        (>>=_ok (m buf content_end) (f buf content_end) pos
          (pm.at buf (cs ++ rest) pos content_end here (omega (arith, length-append bs cs))))
      ∙ pf.at buf rest (pos + length bs) content_end (drop_behind pos buf bs (cs ++ rest) here)
          (omega (arith, length-append bs cs)) inside;
}

pub Parses-u16 : (after v : ℕ) → Parses read_u16 (to_be_bytes v) after v
unfolding read_u16
Parses-u16 after v = record {
  at = λ buf rest pos content_end e h.
      get-bind _ pos
      ∙ fail_if-false (ltb content_end (pos + 2)) _ _ pos
          (le→ltb content_end (pos + 2) (omega arith))
      ∙ (Reads-index_u16 v).at buf rest pos e;
}

-- What a version keeps of the properties, and their wire form.
abbrev pub kept : Bool → List Property → List Property
kept has ps = if has then ps else []

abbrev pub kept_bytes : Bool → List Property → List ℕ
kept_bytes has ps = if has then properties_bytes ps else []

pub Parses-properties :
    (has : Bool) (after : ℕ) (ps : List Property)
    → ArePropertiesOk ps
    → Parses (properties_if has) (kept_bytes has ps) after (kept has ps)
unfolding properties_if
Parses-properties false after ps h = record {
  at = λ buf rest pos content_end e p. ap (λ n. (ok [], n)) (omega arith);
}
Parses-properties true after ps h = record {
  at = λ buf rest pos content_end e p.
      rw
        (lt→ltb pos content_end (
          omega (
            arith,
            length-append (varint (total_prop_len ps)) (property_bytes ps),
            length-groups 9 (total_prop_len ps),
          )))
        ((Reads-properties ps h).at buf rest pos e);
}

-- Behind the end of the content there are no properties.
pub properties_if_end :
    (has : Bool) (buf : List ℕ) (content_end cursor : ℕ)
    → content_end ≤ cursor
    → properties_if has buf content_end cursor ≡ (ok [], cursor)
unfolding properties_if
properties_if_end true buf content_end cursor h = rw (le→ltb cursor content_end h)
properties_if_end false buf content_end cursor h = refl

-- A decoder on a buffer that holds the content that the length announces.
pub decode_frame_open :
    {A : Type 0} (m : List ℕ → ℕ → Exec ℕ A) (header n : ℕ) (bytes : List ℕ)
    → n < varint_limit
    → n ≤ length bytes
    → let buf = header ∷ (varint n ++ bytes) in
      decode_frame m buf ≡ (m buf (1 + length (varint n) + n) (1 + length (varint n))).0
unfolding decode_frame open_frame
decode_frame_open {A} m header n bytes size inside =
    let len : List ℕ = varint n in
    let buf : List ℕ = header ∷ (len ++ bytes) in
    let stop : ℕ = 1 + length len + n in
    ap (λ (r : Result A × ℕ). r.0)
      (>>=_ok (open_frame buf) (m buf) 1 {a = stop} {s' = 1 + length len} (
        >>=_ok (read_variable_byte_integer buf) _ 1 ((Reads-varint n size).at buf bytes 1 refl)
        ∙ get-bind _ (1 + length len)
        ∙ fail_if-false (ltb (length buf) stop) _ _ (1 + length len)
            (le→ltb (length buf) stop (omega (arith, length-append len bytes)))))

-- A decoder that parses the whole content gives its value back from a frame, whatever follows.
pub decode_frame_lem :
    {A : Type 0} {m : List ℕ → ℕ → Exec ℕ A} {content : List ℕ} {a : A} (first_byte : ℕ)
    (rest : List ℕ)
    → Finishes m content a
    → length content < varint_limit
    → decode_frame m (frame first_byte content ++ rest) ≡ ok a
decode_frame_lem {A} {m} {content} {a} first_byte rest parses size =
    let n : ℕ = length content in
    let len : List ℕ = varint n in
    let buf : List ℕ = first_byte ∷ (len ++ (content ++ rest)) in
    ap (λ bs. decode_frame m (first_byte ∷ bs)) (append_assoc len content rest)
    ∙ decode_frame_open m first_byte n (content ++ rest) size
        (omega (arith, length-append content rest))
    ∙ parses.at buf rest (1 + length len) (1 + length len + n)
        (drop_behind 1 buf len (content ++ rest) refl) (omega arith)
        (omega (arith, length-append len (content ++ rest), length-append content rest))
