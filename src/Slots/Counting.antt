-- ===== src/Slots/Counting.antt =====
-- Each operation of a table by the number of items with a property before and after it.
use mqtt_async_embedded.Prelude.{
  ℕ, zero, suc, ◌+◌, ◌≤◌, ◌≡◌, refl, Bool, true, false, none, some, List, [], ◌∷◌, ◌++◌, length,
  get_elem?, set, arith, if◌then◌else◌, Bool-cases, inl, inr, Option-cases,
}
use mqtt_async_embedded.Slots.{position, last?, init, swap_remove, any, count}

-- 1 for an item that has the property.
abbrev pub one_if : Bool → ℕ
one_if b = if b then 1 else 0

module _ {A : Type 0} (p : A → Bool) where
  pub count-append : (xs ys : List A) → count p (xs ++ ys) ≡ count p xs + count p ys
  unfolding count
  count-append [] ys = omega arith
  count-append (x ∷ xs) ys = ground (arith, count-append xs ys)

  pub count-one : (x : A) → count p (x ∷ []) ≡ one_if (p x)
  unfolding count
  count-one x = refl

  pub count_le_length : (xs : List A) → count p xs ≤ length xs
  unfolding count
  count_le_length [] = omega arith
  count_le_length (x ∷ xs) = ground (arith, count_le_length xs)

  pub any-count : (xs : List A) → any p xs ≡ false → count p xs ≡ 0
  unfolding any count
  any-count [] h = refl
  any-count (x ∷ xs) h = ground (arith, any-count xs)

  pub count-any : (xs : List A) → any p xs ≡ true → 1 ≤ count p xs
  unfolding any count
  count-any [] h = cc
  count-any (x ∷ xs) h = ground (arith, count-any xs)

  pub position-none : (xs : List A) → position p xs ≡ none → count p xs ≡ 0
  unfolding position count
  position-none [] h = refl
  position-none (x ∷ xs) h = ground (arith, position-none xs)

  pub count-position : (xs : List A) → count p xs ≡ 0 → position p xs ≡ none
  unfolding position count
  count-position [] h = refl
  count-position (x ∷ xs) h = ground (arith, count-position xs)

  -- What `position` finds has the property.
  pub position-some :
      (xs : List A) (i : ℕ)
      → position p xs ≡ some i
      → (x : A) × (get_elem? xs i ≡ some x) × (p x ≡ true)
  unfolding position
  position-some [] i h = cc
  position-some (x ∷ xs) i h = elim (Bool-cases (p x)) [
    | inl here ↦ (x, ground arith, here)
    | inr later ↦ elim (Option-cases (position p xs)) [
      | inl nothing ↦ ground arith
      | inr (j, e) ↦ let (y, at, has) = position-some xs j e in (y, ground arith, has)
    ]
  ]

module _ {A : Type 0} (q : A → Bool) where
  pub count-set :
      (xs : List A) (i : ℕ) (x y : A)
      → get_elem? xs i ≡ some x
      → count q (set xs i y) + one_if (q x) ≡ count q xs + one_if (q y)
  unfolding count
  count-set [] i x y h = cc
  count-set (z ∷ xs) zero x y h = ground arith
  count-set (z ∷ xs) (suc i) x y h = ground (arith, count-set xs i x y h)

  count-init :
      (xs : List A) (x : A) → last? xs ≡ some x → count q (init xs) + one_if (q x) ≡ count q xs
  unfolding count last? init
  count-init [] x h = cc
  count-init (z ∷ []) x h = ground arith
  count-init (z ∷ y ∷ xs) x h = ground (arith, count-init (y ∷ xs) x h)

module _ {A : Type 0} where
  last?-set : (xs : List A) (i : ℕ) (x : A) → last? xs ≡ some x → last? (set xs i x) ≡ some x
  unfolding last?
  last?-set [] i x h = cc
  last?-set (z ∷ []) zero x h = refl
  last?-set (z ∷ []) (suc i) x h = h
  last?-set (z ∷ y ∷ xs) zero x h = h
  last?-set (z ∷ y ∷ xs) (suc zero) x h = last?-set (y ∷ xs) zero x h
  last?-set (z ∷ y ∷ xs) (suc (suc i)) x h = last?-set (y ∷ xs) (suc i) x h

  last?-none : (xs : List A) → last? xs ≡ none → xs ≡ []
  unfolding last?
  last?-none [] h = refl
  last?-none (z ∷ []) h = cc
  last?-none (z ∷ y ∷ xs) h = absurd (not_nil (last?-none (y ∷ xs) h))
    where
      not_nil : ¬ (y ∷ xs ≡ [])
      not_nil e = cc

  -- `swap_remove` takes out the item at the index, and keeps all others.
  pub count-swap_remove :
      (q : A → Bool) (xs : List A) (i : ℕ) (x : A)
      → get_elem? xs i ≡ some x
      → count q (swap_remove i xs) + one_if (q x) ≡ count q xs
  unfolding swap_remove
  count-swap_remove q xs i x h = elim (Option-cases (last? xs)) [
    | inl e ↦ let bad : none ≡ some x = rw (last?-none xs e) at h in cc
    | inr (y, e) ↦
        rw (e, swap_remove)
          (omega (arith, count-set q xs i x y h, count-init q (set xs i y) y (last?-set xs i y e)))
  ]
