-- ===== src/Slots/Updates.antt =====
-- The length of a table after an operation, and updates that keep a property of each item.
use mqtt_async_embedded.Prelude.{
  ℕ, suc, ◌+◌, ◌≤◌, ◌≡◌, refl, sym, ap, subst, ◌==◌, ==_iff, Bool-cases, inl, inr, Bool, true,
  false, some, List, [], ◌∷◌, length, get_elem?, arith, if◌then◌else◌,
}
use mqtt_async_embedded.Slots.{swap_remove, update_first, any, count}
use mqtt_async_embedded.Slots.Counting.{count-swap_remove, one_if, count-any, any-count}

-- A new entry under an id that no entry has, in a table that holds an id once.
pub once_with :
    (id other : ℕ) (count_of : ℕ → ℕ)
    → count_of id ≡ 0
    → ((n : ℕ) → count_of n ≤ 1)
    → count_of other + one_if (id == other) ≤ 1
once_with id other count_of free once = elim (Bool-cases (id == other)) [
  | inl same ↦
      let here : count_of other ≡ 0 = subst (λ n. count_of n ≡ 0) ((==_iff id other).0 same) free in
      rw same (omega (arith, here))
  | inr differs ↦ rw differs (omega (arith, once other))
]

module _ {A : Type 0} where
  count_all : (xs : List A) → count (λ x. true) xs ≡ length xs
  unfolding count
  count_all [] = refl
  count_all (x ∷ xs) = ap suc (count_all xs)

  pub length-swap_remove :
      (xs : List A) (i : ℕ) (x : A)
      → get_elem? xs i ≡ some x
      → length (swap_remove i xs) + 1 ≡ length xs
  length-swap_remove xs i x h =
      omega
        (arith, count-swap_remove (λ y. true) xs i x h, count_all xs, count_all (swap_remove i xs))

  pub length-update_first :
      (p : A → Bool) (f : A → A) (xs : List A) → length (update_first p f xs) ≡ length xs
  unfolding update_first
  length-update_first p f [] = refl
  length-update_first p f (x ∷ xs) = ground (arith, length-update_first p f xs)

  pub count-update_first :
      (q p : A → Bool) (f : A → A)
      → ((x : A) → p x ≡ true → q (f x) ≡ q x)
      → (xs : List A) → count q (update_first p f xs) ≡ count q xs
  unfolding update_first count
  count-update_first q p f keeps [] = refl
  count-update_first q p f keeps (x ∷ xs) =
      ground (arith, keeps x, count-update_first q p f keeps xs)

  pub count_le-update_first :
      (q p : A → Bool) (f : A → A)
      → ((x : A) → q (f x) ≡ true → q x ≡ true)
      → (xs : List A) → count q (update_first p f xs) ≤ count q xs
  unfolding update_first count
  count_le-update_first q p f keeps [] = omega arith
  count_le-update_first q p f keeps (x ∷ xs) =
      ground (arith, keeps x, count_le-update_first q p f keeps xs)

  -- No item has the first property where none has it without the second, and none has the second.
  pub count-both :
      (p q : A → Bool) (xs : List A)
      → count (λ x. if p x then (if q x then false else true) else false) xs ≡ 0
      → count q xs ≡ 0
      → count p xs ≡ 0
  unfolding count
  count-both p q [] h k = refl
  count-both p q (x ∷ xs) h k = ground (arith, count-both p q xs)

  pub count_le :
      (p q : A → Bool)
      → ((x : A) → p x ≡ true → q x ≡ true)
      → (xs : List A) → count p xs ≤ count q xs
  unfolding count
  count_le p q implies [] = omega arith
  count_le p q implies (x ∷ xs) = ground (arith, implies x, count_le p q implies xs)

  -- An update that gives the item found a property that it did not have.
  pub count-update_first_new :
      (q p : A → Bool) (f : A → A)
      → ((x : A) → p x ≡ true → q x ≡ false)
      → ((x : A) → p x ≡ true → q (f x) ≡ true)
      → (xs : List A) → count q (update_first p f xs) ≡ count q xs + one_if (any p xs)
  unfolding update_first count any
  count-update_first_new q p f lacks gains [] = refl
  count-update_first_new q p f lacks gains (x ∷ xs) =
      ground (arith, lacks x, gains x, count-update_first_new q p f lacks gains xs)

  pub any_le_count : (p : A → Bool) (xs : List A) → one_if (any p xs) ≤ count p xs
  unfolding any count
  any_le_count p [] = omega arith
  any_le_count p (x ∷ xs) = ground (arith, any_le_count p xs)

  pub count_le-any : (p : A → Bool) (xs : List A) → count p xs ≤ 1 → one_if (any p xs) ≡ count p xs
  count_le-any p xs once = elim (Bool-cases (any p xs)) [
    | inl hit ↦ rw hit (omega (arith, count-any p xs hit, once))
    | inr miss ↦ rw miss (sym (any-count p xs miss))
  ]

  -- An update that takes a property from the one item that can have it.
  pub count-update_first_gone :
      (q p : A → Bool) (f : A → A)
      → ((x : A) → p x ≡ true → q (f x) ≡ false)
      → ((x : A) → q x ≡ true → p x ≡ true)
      → (xs : List A) → count p xs ≤ 1
      → count q (update_first p f xs) ≡ 0
  unfolding update_first count
  count-update_first_gone q p f loses needs [] once = refl
  count-update_first_gone q p f loses needs (x ∷ xs) once =
      ground (
        arith,
        loses x,
        needs x,
        count_le q p needs xs,
        count-update_first_gone q p f loses needs xs,
      )
