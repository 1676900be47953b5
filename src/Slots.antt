-- ===== src/Slots.antt =====
-- The operations of `heapless::Vec` and of iterators that the tables of the clients use: `position`,
-- `swap_remove`, `iter_mut().find`, and how each changes the number of items with a property.
pub mod Counting
pub mod Updates
use mqtt_async_embedded.Prelude.{
  ℕ, zero, suc, ◌+◌, Bool, true, false, Option, none, some, List, [], ◌∷◌, length, set,
  if◌then◌else◌,
}

module _ {ℓ} {A : Type ℓ} where
  -- `iter().position(p)`
  unfoldable pub position : (A → Bool) → List A → Option ℕ
  position p [] = none
  position p (x ∷ xs) =
      let later = position p xs in
      if p x then some 0 else elim later [ none ↦ none | some i ↦ some (suc i) ]

  unfoldable pub last? : List A → Option A
  last? [] = none
  last? (x ∷ []) = some x
  last? (x ∷ y ∷ xs) = last? (y ∷ xs)

  unfoldable pub init : List A → List A
  init [] = []
  init (x ∷ []) = []
  init (x ∷ y ∷ xs) = x ∷ init (y ∷ xs)

  -- The last item takes the place of the item at the index.
  unfoldable pub swap_remove : ℕ → List A → List A
  unfolding last? init
  swap_remove i xs = elim (last? xs) [ none ↦ [] | some x ↦ init (set xs i x) ]

  -- `if let Some(e) = iter_mut().find(p) { *e = f(e) }`: the first item with `p`
  unfoldable pub update_first : (A → Bool) → (A → A) → List A → List A
  update_first p f [] = []
  update_first p f (x ∷ xs) = let later = update_first p f xs in if p x then f x ∷ xs else x ∷ later

  -- `iter().any(p)`
  unfoldable pub any : (A → Bool) → List A → Bool
  any p [] = false
  any p (x ∷ xs) = let later = any p xs in if p x then true else later

  -- How many items have the property, for statements.
  unfoldable pub count : (A → Bool) → List A → ℕ
  count p [] = 0
  count p (x ∷ xs) = let later = count p xs in if p x then suc later else later
