-- ===== src/Maps/Laws.antt =====
-- Tables whose keys are numbers.
use mqtt_async_embedded.Prelude.{
  ℕ, ◌≡◌, ◌≢◌, refl, none, some, List, [], ◌∷◌, ◌==◌, if◌then◌else◌, arith,
}
use mqtt_async_embedded.Maps.{insert, remove, find}

module _ {V : Type 0} where
  pub find-insert :
      (j k : ℕ) (v : V) (m : List (ℕ × V))
      → find ◌==◌ j (insert ◌==◌ k v m) ≡ (if j == k then some v else find ◌==◌ j m)
  unfolding find insert
  find-insert j k v [] = refl
  find-insert j k v (e ∷ m) = ground (arith, find-insert j k v m)

  pub find-remove_ne :
      (j k : ℕ) (m : List (ℕ × V)) → j ≢ k → find ◌==◌ j (remove ◌==◌ k m) ≡ find ◌==◌ j m
  unfolding find remove
  find-remove_ne j k [] h = refl
  find-remove_ne j k (e ∷ m) h = ground (arith, find-remove_ne j k m h)

  -- No key is there twice, and each entry is good for its key.
  abbrev pub IsTable : (ℕ → V → Type 0) → List (ℕ × V) → Type 0
  IsTable P [] = Unit {0}
  IsTable P (e ∷ m) = P e.0 e.1 × (find ◌==◌ e.0 m ≡ none) × IsTable P m

  pub insert-IsTable :
      (P : ℕ → V → Type 0) (k : ℕ) (v : V) (m : List (ℕ × V))
      → P k v
      → IsTable P m
      → IsTable P (insert ◌==◌ k v m)
  unfolding insert find
  insert-IsTable P k v [] good h = (good, refl, tt)
  insert-IsTable P k v (e ∷ m) good h =
      ground (arith, insert-IsTable P k v m good h.2, find-insert e.0 k v m)

  pub remove-IsTable :
      (P : ℕ → V → Type 0) (k : ℕ) (m : List (ℕ × V)) → IsTable P m → IsTable P (remove ◌==◌ k m)
  unfolding remove
  remove-IsTable P k [] h = tt
  remove-IsTable P k (e ∷ m) h = ground (arith, remove-IsTable P k m h.2, find-remove_ne e.0 k m)

  pub find-remove_self :
      (P : ℕ → V → Type 0) (k : ℕ) (m : List (ℕ × V))
      → IsTable P m
      → find ◌==◌ k (remove ◌==◌ k m) ≡ none
  unfolding find remove
  find-remove_self P k [] h = refl
  find-remove_self P k (e ∷ m) h = ground (arith, find-remove_self P k m h.2)
