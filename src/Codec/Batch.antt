-- ===== src/Codec/Batch.antt =====
-- The loops of crates/mqtt-packet/src/codec.rs over the topics and the reason codes of a packet:
-- `for item in &self.items { … }` and `while cursor < content_end { …; items.push(item)?; }`.
use mqtt_async_embedded.Prelude.{
  ℕ, zero, suc, ◌+◌, ◌≤◌, ◌<◌, ◌≡◌, sym, ◌∙◌, List, [], ◌∷◌, ◌++◌, length, drop, ltb, arith, le→ltb,
  lt→ltb, append-nil, append_assoc, length-append, drop_behind, if◌then◌else◌, All,
}
use mathlib.Core.Path.{ap₂}
use mqtt_async_embedded.Exec.{ok, Exec, pure, raise, ◌>>=◌, ◌>>◌, >>=_ok, batch_capacity_exceeded}
use mqtt_async_embedded.Wire.{Writer}
use mqtt_async_embedded.Wire.Writes.{Writes, Writes-pure, Writes-seq}
use mqtt_async_embedded.Wire.Reads.{Reads}
use mqtt_async_embedded.Types.{capacity}
use mqtt_async_embedded.Codec.Frame.Parses.{Parses}

module _ {A : Type 0} where
  pub write_batch : (A → Exec Writer (Unit {0})) → List A → Exec Writer (Unit {0})
  write_batch write [] = pure tt
  write_batch write (x ∷ xs) = write x >> write_batch write xs

  -- The second argument is the room that is left in the `heapless::Vec`, so the failing `push` is
  -- its case `zero`.
  pub read_batch : (List ℕ → Exec ℕ A) → ℕ → List A → List ℕ → ℕ → Exec ℕ (List A)
  read_batch item zero items buf content_end cursor =
      if ltb cursor content_end
      then (item buf >> raise batch_capacity_exceeded) cursor
      else (ok items, cursor)
  read_batch item (suc room) items buf content_end cursor =
      let more =
        (item buf >>= λ x. read_batch item room (items ++ (x ∷ [])) buf content_end) cursor in
      if ltb cursor content_end then more else (ok items, cursor)

  -- The wire forms of the items, one after the other.
  unfoldable pub batch_bytes : (A → List ℕ) → List A → List ℕ
  batch_bytes bytes [] = []
  batch_bytes bytes (x ∷ xs) = bytes x ++ batch_bytes bytes xs

module _ {A : Type 0} (write : A → Exec Writer (Unit {0})) (bytes : A → List ℕ) where
  pub Writes-batch :
      (xs : List A)
      → All (λ x. Writes (write x) (bytes x)) xs
      → Writes (write_batch write xs) (batch_bytes bytes xs)
  unfolding write_batch batch_bytes
  Writes-batch [] h = Writes-pure
  Writes-batch (x ∷ xs) (w, ws) = Writes-seq w (Writes-batch xs ws)

-- An item that is read off its wire form, of one byte or more.
pub record IsItem {A : Type 0} (item : List ℕ → Exec ℕ A) (bytes : A → List ℕ) (x : A)
    : Type 0 where
  pub reads : Reads item (bytes x) x
  pub takes : 1 ≤ length (bytes x)

module _ {A : Type 0} (item : List ℕ → Exec ℕ A) (bytes : A → List ℕ) where
  batch_end :
      (room : ℕ) (items : List A) (buf : List ℕ) (content_end cursor : ℕ)
      → content_end ≤ cursor
      → read_batch item room items buf content_end cursor ≡ (ok items, cursor)
  unfolding read_batch
  batch_end zero items buf content_end cursor h = rw (le→ltb cursor content_end h)
  batch_end (suc room) items buf content_end cursor h = rw (le→ltb cursor content_end h)

  batch_step :
      (room : ℕ) (items : List A) (buf : List ℕ) (content_end cursor : ℕ) (x : A) (next : ℕ)
      → cursor < content_end
      → item buf cursor ≡ (ok x, next)
      → read_batch item (suc room) items buf content_end cursor
        ≡ read_batch item room (items ++ (x ∷ [])) buf content_end next
  unfolding read_batch
  batch_step room items buf content_end cursor x next h e =
      rw (lt→ltb cursor content_end h) (>>=_ok (item buf) _ cursor e)

  batch_found :
      (room : ℕ) (xs items : List A) (buf rest : List ℕ) (pos content_end : ℕ)
      → length xs ≤ room
      → All (IsItem item bytes) xs
      → drop pos buf ≡ batch_bytes bytes xs ++ rest
      → pos + length (batch_bytes bytes xs) + 0 ≡ content_end
      → read_batch item room items buf content_end pos
        ≡ (ok (items ++ xs), pos + length (batch_bytes bytes xs))
  unfolding batch_bytes
  batch_found room [] items buf rest pos content_end h good e size =
      batch_end room items buf content_end pos (omega arith)
      ∙ ap₂ (λ l n. (ok l, n)) (sym (append-nil items)) (omega arith)
  batch_found zero (x ∷ xs) items buf rest pos content_end h good e size = absurd (omega arith)
  batch_found (suc room) (x ∷ xs) items buf rest pos content_end h (good, goods) e size =
      let later : List ℕ = batch_bytes bytes xs in
      let here : drop pos buf ≡ bytes x ++ (later ++ rest) =
        e ∙ append_assoc (bytes x) later rest in
      let next : ℕ = pos + length (bytes x) in
      batch_step room items buf content_end pos x next
        (omega (arith, good.takes, length-append (bytes x) later))
        (good.reads.at buf (later ++ rest) pos here)
      ∙ batch_found room xs (items ++ (x ∷ [])) buf rest next content_end (omega arith) goods
          (drop_behind pos buf (bytes x) (later ++ rest) here)
          (omega (arith, length-append (bytes x) later))
      ∙ ap₂ (λ l n. (ok l, n)) (append_assoc items (x ∷ []) xs)
          (omega (arith, length-append (bytes x) later))

  pub Parses-batch :
      (xs : List A)
      → length xs ≤ capacity
      → All (IsItem item bytes) xs
      → Parses (read_batch item capacity []) (batch_bytes bytes xs) 0 xs
  Parses-batch xs few good = record {
    at = λ buf rest pos content_end e h.
        batch_found capacity xs [] buf rest pos content_end few good e h;
  }
