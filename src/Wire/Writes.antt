-- ===== src/Wire/Writes.antt =====
-- When an action writes a given list of bytes at the cursor, and fails where they do not fit.
use mqtt_async_embedded.Prelude.{
  ℕ, ◌+◌, ◌≤◌, ◌<◌, ◌≡◌, refl, sym, ap, ◌∙◌, List, [], ◌∷◌, ◌++◌, Bool, true, false, inl, inr,
  length, set, take, drop, length-append, length-drop, drop-add, drop-length-append,
  take-length-append, append_assoc, append-nil, arith, ltb, lt→ltb, le→ltb, lt→leb, le→leb,
  if◌then◌else◌, Bool-cases, ltb→lt, ltb→le,
}
use mqtt_async_embedded.Exec.{
  Result, ok, err, panic, Exec, pure, ◌>>◌, >>_ok, >>_err, buffer_too_small,
}
use mqtt_async_embedded.Wire.{Writer, put_byte, put_slice, on_rest, resume, when}

-- The writer that has `done` behind its cursor and `room` before it.
abbrev pub at : List ℕ → List ℕ → Writer
at done room = record { cursor = length done; buf = done ++ room }

pub record Writes (m : Exec Writer (Unit {0})) (bs : List ℕ) : Type 0 where
  pub fits :
      (done room : List ℕ)
      → length bs ≤ length room
      → m (at done room) ≡ (ok tt, at (done ++ bs) (drop (length bs) room))
  pub short :
      (done room : List ℕ) → length room < length bs → (m (at done room)).0 ≡ err buffer_too_small

-- The action fails where the cursor has left the buffer.
pub record Guards (m : Exec Writer (Unit {0})) : Type 0 where
  pub beyond : (w : Writer) → length w.buf < w.cursor → (m w).0 ≡ err buffer_too_small

at_path :
    (done done' room room' : List ℕ) → done ≡ done' → room ≡ room' → at done room ≡ at done' room'
at_path done done' room room' p q = λ i. at (p i) (q i)

pub Writes-pure : Writes (pure tt) []
Writes-pure = record {
  fits = λ done room h. ap (λ w. (ok tt, w)) (at_path _ _ _ _ (sym (append-nil done)) refl);
  short = λ done room h. elim h [ ];
}

pub Writes-seq :
    {m n : Exec Writer (Unit {0})} {bs cs : List ℕ}
    → Writes m bs
    → Writes n cs
    → Writes (m >> n) (bs ++ cs)
Writes-seq {m} {n} {bs} {cs} wm wn = record {
  fits = λ done room h.
      >>_ok m n (at done room) (wm.fits done room (fit₁ room h))
      ∙ wn.fits (done ++ bs) (drop (length bs) room) (fit₂ room h)
      ∙ ap (λ w. (ok tt, w))
          (at_path _ _ _ _ (append_assoc done bs cs) (rw (length-append, drop-add)));
  short = λ done room h. elim (Bool-cases (ltb (length room) (length bs))) [
    | inl e ↦ >>_err m n (at done room) (wm.short done room (ltb→lt _ _ e))
    | inr e ↦
        rw (>>_ok m n (at done room) (wm.fits done room (ltb→le _ _ e)))
          (wn.short (done ++ bs) (drop (length bs) room) (late room (ltb→le _ _ e) h))
  ];
}
  where
    fit₁ : (room : List ℕ) → length (bs ++ cs) ≤ length room → length bs ≤ length room
    fit₁ room h = omega (arith, length-append bs cs)

    fit₂ :
        (room : List ℕ)
        → length (bs ++ cs) ≤ length room
        → length cs ≤ length (drop (length bs) room)
    fit₂ room h = omega (arith, length-append bs cs, length-drop (length bs) room)

    late :
        (room : List ℕ)
        → length bs ≤ length room
        → length room < length (bs ++ cs)
        → length (drop (length bs) room) < length cs
    late room p h = omega (arith, length-append bs cs, length-drop (length bs) room)

pub Guards-seq :
    {m : Exec Writer (Unit {0})} (n : Exec Writer (Unit {0})) → Guards m → Guards (m >> n)
Guards-seq {m} n g = record { beyond = λ w h. >>_err m n w (g.beyond w h) }

pub Writes-when :
    (b : Bool) {m : Exec Writer (Unit {0})} {bs : List ℕ}
    → Writes m bs
    → Writes (when b m) (if b then bs else [])
Writes-when true w = w
Writes-when false w = Writes-pure

set-length :
    (done : List ℕ) (x b : ℕ) (room : List ℕ)
    → set (done ++ x ∷ room) (length done) b ≡ (done ++ b ∷ []) ++ room
set-length [] x b room = refl
set-length (d ∷ done) x b room = ap (λ l. d ∷ l) (set-length done x b room)

pub Writes-put_byte : (b : ℕ) → Writes (put_byte b) (b ∷ [])
unfolding put_byte
Writes-put_byte b = record { fits = fits; short = short }
  where
    fits :
        (done room : List ℕ)
        → length (b ∷ []) ≤ length room
        → put_byte b (at done room) ≡ (ok tt, at (done ++ (b ∷ [])) (drop (length (b ∷ [])) room))
    fits done [] h = absurd (omega arith)
    fits done (x ∷ room) h =
        rw
          (lt→ltb (length done) (length (done ++ x ∷ room))
            (omega (arith, length-append done (x ∷ room))))
          (λ i. (ok tt, record { cursor = size done i; buf = set-length done x b room i }))
      where
        size : (done : List ℕ) → length done + 1 ≡ length (done ++ b ∷ [])
        size done = omega (arith, length-append done (b ∷ []))

    short :
        (done room : List ℕ)
        → length room < length (b ∷ [])
        → (put_byte b (at done room)).0 ≡ err buffer_too_small
    short done [] h =
        rw (le→ltb (length done) (length (done ++ [])) (omega (arith, length-append {0} done [])))
    short done (x ∷ room) h = absurd (omega arith)

pub Guards-put_byte : (b : ℕ) → Guards (put_byte b)
unfolding put_byte
Guards-put_byte b = record { beyond = λ w h. rw (le→ltb w.cursor (length w.buf) (omega arith)) }

-- The block `bs` over the room behind `done`.
overwrite :
    (done bs room : List ℕ)
    → take (length done) (done ++ room) ++ (bs ++ drop (length done + length bs) (done ++ room))
      ≡ (done ++ bs) ++ drop (length bs) room
overwrite done bs room =
    rw (take-length-append, drop-add, drop-length-append) (sym (append_assoc done bs _))

pub Writes-put_slice : (bs : List ℕ) → Writes (put_slice bs) bs
unfolding put_slice
Writes-put_slice bs = record {
  fits = λ done room h. rw (le→leb _ _ (fit done room h)) (λ i.
      (ok tt, record { cursor = sym (length-append done bs) i; buf = overwrite done bs room i }));
  short = λ done room h. rw (lt→leb _ _ (late done room h));
}
  where
    fit :
        (done room : List ℕ)
        → length bs ≤ length room
        → length done + length bs ≤ length (done ++ room)
    fit done room h = omega (arith, length-append done room)

    late :
        (done room : List ℕ)
        → length room < length bs
        → length (done ++ room) < length done + length bs
    late done room h = omega (arith, length-append done room)

pub Guards-put_slice : (bs : List ℕ) → Guards (put_slice bs)
unfolding put_slice
Guards-put_slice bs = record {
  beyond = λ w h. rw (lt→leb (w.cursor + length bs) (length w.buf) (omega arith));
}

-- What a function of the rest of the buffer writes at its front.
pub record Fills (f : Exec (List ℕ) ℕ) (bs : List ℕ) : Type 0 where
  pub fits :
      (slice : List ℕ)
      → length bs ≤ length slice
      → f slice ≡ (ok (length bs), bs ++ drop (length bs) slice)
  pub short : (slice : List ℕ) → length slice < length bs → (f slice).0 ≡ err buffer_too_small

resume_err :
    (w : Writer) (r : Result ℕ × List ℕ)
    → r.0 ≡ err buffer_too_small
    → (resume w r).0 ≡ err buffer_too_small
unfolding resume
resume_err w (ok n, s) e = cc
resume_err w (err x, s) e = cc
resume_err w (panic, s) e = cc

pub Writes-on_rest : {f : Exec (List ℕ) ℕ} {bs : List ℕ} → Fills f bs → Writes (on_rest f) bs
unfolding on_rest
Writes-on_rest {f} {bs} fill = record {
  fits = λ done room h.
      rw (le→leb _ _ (inside done room), drop-length-append, fill.fits room h, take-length-append)
        (λ i. (
          ok tt,
          record {
            cursor = sym (length-append done bs) i;
            buf = sym (append_assoc done bs (drop (length bs) room)) i;
          },
        ));
  short = λ done room h.
      rw (le→leb _ _ (inside done room), drop-length-append)
        (resume_err (at done room) (f room) (fill.short room h));
}
  where
    inside : (done room : List ℕ) → length done ≤ length (done ++ room)
    inside done room = omega (arith, length-append done room)

pub Guards-on_rest : (f : Exec (List ℕ) ℕ) → Guards (on_rest f)
unfolding on_rest
Guards-on_rest f = record { beyond = λ w h. rw (lt→leb w.cursor (length w.buf) h) }
