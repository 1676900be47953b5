-- ===== src/MemStore/Pairs.antt =====
-- The two tables of the store as one table of pairs, operation by operation.
use mathlib.Core.Path.{ap₂}
use mqtt_async_embedded.Prelude.{
  ℕ, zero, suc, ◌<◌, ◌≡◌, refl, sym, ap, ◌∙◌, some, List, [], ◌∷◌, ◌++◌, length, length-set, set,
  get_elem?, arith,
}
use mqtt_async_embedded.Slots.{last?, init, swap_remove}

module _ {A : Type 0} where
  -- The last item of a table that is not empty.
  last?-more : (x : A) (xs : List A) → (z : A) × (last? (x ∷ xs) ≡ some z)
  unfolding last?
  last?-more x [] = (x, refl)
  last?-more x (y ∷ xs) = last?-more y xs

  -- An index inside a table, and what is there.
  pub get_elem?-inside : (xs : List A) (i : ℕ) (x : A) → get_elem? xs i ≡ some x → i < length xs
  get_elem?-inside [] i x h = cc
  get_elem?-inside (y ∷ xs) zero x h = omega arith
  get_elem?-inside (y ∷ xs) (suc i) x h = omega (arith, get_elem?-inside xs i x h)

  pub get_elem?-found : (xs : List A) (i : ℕ) → i < length xs → (x : A) × (get_elem? xs i ≡ some x)
  get_elem?-found [] i h = absurd (omega arith)
  get_elem?-found (y ∷ xs) zero h = (y, refl)
  get_elem?-found (y ∷ xs) (suc i) h = get_elem?-found xs i (omega arith)

  swap_remove_last :
      (i : ℕ) (xs : List A) (x : A) → last? xs ≡ some x → swap_remove i xs ≡ init (set xs i x)
  unfolding swap_remove
  swap_remove_last i xs x h = rw (h, swap_remove) refl

module _ {A B : Type 0} where
  unfoldable pub zip : List A → List B → List (A × B)
  zip [] ys = []
  zip (x ∷ xs) [] = []
  zip (x ∷ xs) (y ∷ ys) = (x, y) ∷ zip xs ys

  pub zip-append :
      (xs : List A) (ys : List B) (x : A) (y : B)
      → length xs ≡ length ys
      → zip (xs ++ (x ∷ [])) (ys ++ (y ∷ [])) ≡ zip xs ys ++ ((x, y) ∷ [])
  unfolding zip
  zip-append [] [] x y h = refl
  zip-append [] (b ∷ ys) x y h = absurd (omega arith)
  zip-append (a ∷ xs) [] x y h = absurd (omega arith)
  zip-append (a ∷ xs) (b ∷ ys) x y h = ap (λ l. (a, b) ∷ l) (zip-append xs ys x y (omega arith))

  pub zip-set :
      (xs : List A) (ys : List B) (i : ℕ) (x : A) (y : B)
      → zip (set xs i x) (set ys i y) ≡ set (zip xs ys) i (x, y)
  unfolding zip
  zip-set [] ys i x y = refl
  zip-set (a ∷ xs) [] zero x y = refl
  zip-set (a ∷ xs) [] (suc i) x y = refl
  zip-set (a ∷ xs) (b ∷ ys) zero x y = refl
  zip-set (a ∷ xs) (b ∷ ys) (suc i) x y = ap (λ l. (a, b) ∷ l) (zip-set xs ys i x y)

  -- Only the second table changes.
  pub zip-set_right :
      (xs : List A) (ys : List B) (i : ℕ) (x : A) (y : B)
      → get_elem? xs i ≡ some x
      → zip xs (set ys i y) ≡ set (zip xs ys) i (x, y)
  unfolding zip
  zip-set_right [] ys i x y h = refl
  zip-set_right (a ∷ xs) [] zero x y h = refl
  zip-set_right (a ∷ xs) [] (suc i) x y h = refl
  zip-set_right (a ∷ xs) (b ∷ ys) zero x y h = cc
  zip-set_right (a ∷ xs) (b ∷ ys) (suc i) x y h = ap (λ l. (a, b) ∷ l) (zip-set_right xs ys i x y h)

  pub get_elem?-zip :
      (xs : List A) (ys : List B) (i : ℕ) (x : A) (y : B)
      → get_elem? xs i ≡ some x
      → get_elem? ys i ≡ some y
      → get_elem? (zip xs ys) i ≡ some (x, y)
  unfolding zip
  get_elem?-zip [] ys i x y h k = cc
  get_elem?-zip (a ∷ xs) [] i x y h k = cc
  get_elem?-zip (a ∷ xs) (b ∷ ys) zero x y h k = cc
  get_elem?-zip (a ∷ xs) (b ∷ ys) (suc i) x y h k = get_elem?-zip xs ys i x y h k

  zip-init :
      (xs : List A) (ys : List B)
      → length xs ≡ length ys
      → zip (init xs) (init ys) ≡ init (zip xs ys)
  unfolding zip init
  zip-init [] ys h = refl
  zip-init (a ∷ []) [] h = absurd (omega arith)
  zip-init (a ∷ []) (b ∷ []) h = refl
  zip-init (a ∷ []) (b ∷ c ∷ ys) h = absurd (omega arith)
  zip-init (a ∷ d ∷ xs) [] h = absurd (omega arith)
  zip-init (a ∷ d ∷ xs) (b ∷ []) h = absurd (omega arith)
  zip-init (a ∷ d ∷ xs) (b ∷ c ∷ ys) h =
      ap (λ l. (a, b) ∷ l) (zip-init (d ∷ xs) (c ∷ ys) (omega arith))

  last?-zip :
      (xs : List A) (ys : List B) (x : A) (y : B)
      → length xs ≡ length ys
      → last? xs ≡ some x
      → last? ys ≡ some y
      → last? (zip xs ys) ≡ some (x, y)
  unfolding zip last?
  last?-zip [] ys x y h k l = cc
  last?-zip (a ∷ []) [] x y h k l = cc
  last?-zip (a ∷ []) (b ∷ []) x y h k l = cc
  last?-zip (a ∷ []) (b ∷ c ∷ ys) x y h k l = absurd (omega arith)
  last?-zip (a ∷ d ∷ xs) [] x y h k l = absurd (omega arith)
  last?-zip (a ∷ d ∷ xs) (b ∷ []) x y h k l = absurd (omega arith)
  last?-zip (a ∷ d ∷ xs) (b ∷ c ∷ ys) x y h k l = last?-zip (d ∷ xs) (c ∷ ys) x y (omega arith) k l

  pub zip-swap_remove :
      (xs : List A) (ys : List B) (i : ℕ)
      → length xs ≡ length ys
      → zip (swap_remove i xs) (swap_remove i ys) ≡ swap_remove i (zip xs ys)
  unfolding zip
  zip-swap_remove [] [] i h = unfold swap_remove last? zip in refl
  zip-swap_remove [] (b ∷ ys) i h = absurd (omega arith)
  zip-swap_remove (a ∷ xs) [] i h = absurd (omega arith)
  zip-swap_remove (a ∷ xs) (b ∷ ys) i h =
      let (x, last_x) = last?-more a xs in
      let (y, last_y) = last?-more b ys in
      let pair = last?-zip (a ∷ xs) (b ∷ ys) x y h last_x last_y in
      ap₂ zip (swap_remove_last i (a ∷ xs) x last_x) (swap_remove_last i (b ∷ ys) y last_y)
      ∙ zip-init (set (a ∷ xs) i x) (set (b ∷ ys) i y)
          (omega (arith, length-set (a ∷ xs) i x, length-set (b ∷ ys) i y))
      ∙ ap init (zip-set (a ∷ xs) (b ∷ ys) i x y)
      ∙ sym (swap_remove_last i (zip (a ∷ xs) (b ∷ ys)) (x, y) pair)
