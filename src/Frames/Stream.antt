-- ===== src/Frames/Stream.antt =====
-- A network read that holds whole packets and the beginning of another one.
use mathlib.Core.List.{map}
use mathlib.Core.Path.{ap₂}
use mqtt_async_embedded.Prelude.{
  ℕ, zero, suc, ◌+◌, ◌<◌, ◌≡◌, refl, sym, ap, ◌∙◌, inl, inr, Option, none, some, List, [], ◌∷◌,
  ◌++◌, length, drop, take, leb, arith, lt→ltb, le→ltb, lt→leb, append_assoc, append-nil,
  length-append, length-drop, Bool-cases, take-length-append, drop_behind, All,
}
use mqtt_async_embedded.Exec.{Result, ok, err, panic}
use mqtt_async_embedded.Wire.Reads.{length-of_drop}
use mqtt_async_embedded.Varint.{peek_variable_byte_integer}
use mqtt_async_embedded.Varint.Encoding.{varint, varint_limit, length-groups}
use mqtt_async_embedded.Varint.Read.{peek-varint}
use mqtt_async_embedded.Types.{MqttVersion, MqttPacket}
use mqtt_async_embedded.Codec.Frame.Encodes.{frame}
use mqtt_async_embedded.Codec.Dispatch.{decode}
use mqtt_async_embedded.Codec.Dispatch.RoundTrip.{
  IsPacket, packet_bytes, packet_received, first_byte, packet_content, decode-packet_bytes,
  packet_size,
}
use mqtt_async_embedded.Frames.{RawPacketFrameIter, new_iter, next, take_items}

module _ (buffer : List ℕ) (offset f : ℕ) (content rest : List ℕ)
    (size : length content < varint_limit) (e : drop offset buffer ≡ frame f content ++ rest) where
  abbrev whole : List ℕ
  whole = frame f content

  abbrev it : RawPacketFrameIter
  it = record { buffer = buffer; offset = offset }

  whole_size : length whole ≡ 1 + length (varint (length content)) + length content
  whole_size = omega (arith, length-append (varint (length content)) content)

  inside : offset + length whole + length rest ≡ length buffer
  inside = omega (arith, length-of_drop buffer whole rest offset e, whole_size)

  peek_frame :
      peek_variable_byte_integer (drop 1 (whole ++ rest))
      ≡ ok (length content, length (varint (length content)))
  peek_frame =
      ap peek_variable_byte_integer (append_assoc (varint (length content)) content rest)
      ∙ peek-varint (length content) (content ++ rest) size

  long : length (whole ++ rest) ≡ length whole + length rest
  long = length-append whole rest

  take_frame : take (1 + length (varint (length content)) + length content) (whole ++ rest) ≡ whole
  take_frame = ap (λ n. take n (whole ++ rest)) (sym whole_size) ∙ take-length-append whole rest

  next_frame :
      next it ≡ (some (ok whole), record { buffer = buffer; offset = offset + length whole })
  unfolding next
  next_frame =
      rw
        (
          lt→leb (length buffer) offset (omega (arith, inside, whole_size)),
          e,
          le→ltb (length (whole ++ rest)) 2
              (omega (arith, long, whole_size, length-groups 9 (length content))),
          peek_frame,
          le→ltb (length (whole ++ rest)) (1 + length (varint (length content)) + length content)
              (omega (arith, long, whole_size)),
          take_frame,
        )
        (ap (λ n. (some (ok whole), record { buffer = buffer; offset = offset + n }))
          (sym whole_size))

-- A beginning of a packet at which the iterator is at its end: less than two bytes, or the whole
-- remaining length with less content than it announces.
pub data IsPartial (tail : List ℕ) : Type 0 where
  short : length tail < 2 → IsPartial tail
  cut :
      (f n : ℕ) (part : List ℕ)
      → n < varint_limit
      → length part < n
      → tail ≡ f ∷ (varint n ++ part)
      → IsPartial tail

next_short :
    (buffer tail : List ℕ) (offset : ℕ)
    → drop offset buffer ≡ tail
    → length tail < 2
    → (next (record { buffer = buffer; offset = offset })).0 ≡ none
unfolding next
next_short buffer tail offset e h = elim (Bool-cases (leb (length buffer) offset)) [
  | inl done ↦ rw done
  | inr more ↦ rw (more, e, lt→ltb (length tail) 2 h)
]

next_cut :
    (buffer part : List ℕ) (offset f n : ℕ)
    → drop offset buffer ≡ f ∷ (varint n ++ part)
    → n < varint_limit
    → length part < n
    → (next (record { buffer = buffer; offset = offset })).0 ≡ none
unfolding next
next_cut buffer part offset f n e size h =
    let tail : List ℕ = f ∷ (varint n ++ part) in
    let long : length tail ≡ 1 + length (varint n) + length part =
      omega (arith, length-append (varint n) part) in
    rw
      (
        lt→leb (length buffer) offset (omega (arith, length-drop offset buffer, ap length e, long)),
        e,
        le→ltb (length tail) 2 (omega (arith, long, length-groups 9 n)),
        peek-varint n part size,
        lt→ltb (length tail) (1 + length (varint n) + n) (omega (arith, long)),
      )
      refl

pub next_partial :
    (buffer tail : List ℕ) (offset : ℕ)
    → drop offset buffer ≡ tail
    → IsPartial tail
    → (next (record { buffer = buffer; offset = offset })).0 ≡ none
next_partial buffer tail offset e (short h) = next_short buffer tail offset e h
next_partial buffer tail offset e (cut f n part size h q) =
    next_cut buffer part offset f n (e ∙ q) size h

-- The bytes of packets, one after the other.
unfoldable pub stream_bytes : MqttVersion → List MqttPacket → List ℕ
stream_bytes version [] = []
stream_bytes version (p ∷ ps) = packet_bytes version p ++ stream_bytes version ps

collect_end : (n : ℕ) (start : RawPacketFrameIter) → (next start).0 ≡ none → take_items n start ≡ []
unfolding take_items
collect_end zero start h = refl
collect_end (suc n) start h = rw (h, take_items)

collect_more :
    (n : ℕ) (start it' : RawPacketFrameIter) (r : Result (List ℕ))
    → next start ≡ (some r, it')
    → take_items (suc n) start ≡ r ∷ take_items n it'
unfolding take_items
collect_more n start it' r h =
    let after : Option (Result (List ℕ)) × RawPacketFrameIter → List (Result (List ℕ)) =
      λ x. elim x.0 [ none ↦ [] | some item ↦ item ∷ take_items n x.1 ] in
    ap after h

pub next_packet :
    (version : MqttVersion) (p : MqttPacket) (buffer rest : List ℕ) (offset : ℕ)
    → IsPacket version p
    → drop offset buffer ≡ packet_bytes version p ++ rest
    → next (record { buffer = buffer; offset = offset }) ≡ (
      some (ok (packet_bytes version p)),
      record { buffer = buffer; offset = offset + length (packet_bytes version p) },
    )
unfolding packet_bytes
next_packet version p buffer rest offset good e =
    next_frame buffer offset (first_byte p) (packet_content version p) rest
      (packet_size version p good) e

frames_found :
    (version : MqttVersion) (ps : List MqttPacket) (tail buffer : List ℕ) (offset n : ℕ)
    → All (IsPacket version) ps
    → IsPartial tail
    → drop offset buffer ≡ stream_bytes version ps ++ tail
    → length ps < n
    → take_items n (record { buffer = buffer; offset = offset })
      ≡ map (λ p. ok (packet_bytes version p)) ps
unfolding stream_bytes
frames_found version [] tail buffer offset n good partial e h =
    collect_end n _ (next_partial buffer tail offset e partial)
frames_found version (p ∷ ps) tail buffer offset zero good partial e h = absurd (omega arith)
frames_found version (p ∷ ps) tail buffer offset (suc n) (g, good) partial e h =
    let bytes : List ℕ = packet_bytes version p in
    let more : List ℕ = stream_bytes version ps ++ tail in
    let here : drop offset buffer ≡ bytes ++ more =
      e ∙ append_assoc bytes (stream_bytes version ps) tail in
    collect_more n _ _ (ok bytes) (next_packet version p buffer more offset g here)
    ∙ ap (λ l. ok bytes ∷ l)
        (frames_found version ps tail buffer (offset + length bytes) n good partial
          (drop_behind offset buffer bytes more here) (omega arith))

-- The loop of a client over a read: the frames, each of them decoded.
pub decoded : MqttVersion → Result (List ℕ) → Result (Option MqttPacket)
decoded version (ok bytes) = decode version bytes
decoded version (err e) = err e
decoded version panic = panic

pub decode_read : MqttVersion → ℕ → List ℕ → List (Result (Option MqttPacket))
decode_read version n buffer = map (decoded version) (take_items n (new_iter buffer))

All-decoded :
    (version : MqttVersion) (ps : List MqttPacket)
    → All (IsPacket version) ps
    → map (decoded version) (map (λ p. ok (packet_bytes version p)) ps)
      ≡ map (λ p. ok (some (packet_received version p))) ps
unfolding decoded
All-decoded version [] good = refl
All-decoded version (p ∷ ps) (g, good) =
    ap₂ (λ x l. x ∷ l)
      (ap (decode version) (sym (append-nil (packet_bytes version p)))
        ∙ decode-packet_bytes version p [] g)
      (All-decoded version ps good)

-- A read that holds the bytes of some packets that the wire can hold, and then a part of another one
-- that is less than two bytes, or has the whole remaining length and less content than that announces,
-- gives those packets in their order and nothing else, where the loop asks for more items than there
-- are packets.
pub decode_read-stream :
    (version : MqttVersion) (ps : List MqttPacket) (tail : List ℕ) (n : ℕ)
    → All (IsPacket version) ps
    → IsPartial tail
    → length ps < n
    → decode_read version n (stream_bytes version ps ++ tail)
      ≡ map (λ p. ok (some (packet_received version p))) ps
unfolding decode_read new_iter
decode_read-stream version ps tail n good partial h =
    ap (map (decoded version))
      (frames_found version ps tail (stream_bytes version ps ++ tail) 0 n good partial refl h)
    ∙ All-decoded version ps good
