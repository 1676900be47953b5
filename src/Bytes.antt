-- ===== src/Bytes.antt =====
-- Equality of byte strings, which the store and the topic router test by `==` on slices.
use mqtt_async_embedded.Prelude.{
  ℕ, ◌≡◌, refl, ap, ◌∙◌, Bool, true, false, List, [], ◌∷◌, arith, if◌then◌else◌, ◌==◌, ==_iff,
  Bool-cases, inl, inr,
}

-- `==` on slices of bytes
unfoldable pub same_bytes : List ℕ → List ℕ → Bool
same_bytes [] [] = true
same_bytes [] (y ∷ ys) = false
same_bytes (x ∷ xs) [] = false
same_bytes (x ∷ xs) (y ∷ ys) = let rest = same_bytes xs ys in if x == y then rest else false

pub same_bytes_refl : (a : List ℕ) → same_bytes a a ≡ true
unfolding same_bytes
same_bytes_refl [] = refl
same_bytes_refl (x ∷ a) = ground (arith, same_bytes_refl a)

pub same_bytes_sound : (a b : List ℕ) → same_bytes a b ≡ true → a ≡ b
unfolding same_bytes
same_bytes_sound [] [] h = refl
same_bytes_sound [] (y ∷ b) h = cc
same_bytes_sound (x ∷ a) [] h = cc
same_bytes_sound (x ∷ a) (y ∷ b) h = elim (Bool-cases (x == y)) [
  | inl e ↦
      let tails : same_bytes a b ≡ true = rw e at h in
      ap (λ n. n ∷ a) ((==_iff x y).0 e) ∙ ap (λ l. y ∷ l) (same_bytes_sound a b tails)
  | inr e ↦ let bad : false ≡ true = rw e at h in cc
]

pub same_bytes_comm : (a b : List ℕ) → same_bytes a b ≡ same_bytes b a
unfolding same_bytes
same_bytes_comm [] [] = refl
same_bytes_comm [] (y ∷ b) = refl
same_bytes_comm (x ∷ a) [] = refl
same_bytes_comm (x ∷ a) (y ∷ b) = ground (arith, same_bytes_comm a b)
