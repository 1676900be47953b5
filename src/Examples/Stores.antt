-- ===== src/Examples/Stores.antt =====
-- The in-memory store on concrete keys and values.
use mqtt_async_embedded.Prelude.{ℕ, ◌≤◌, ◌≡◌, inr, refl, List, [], ◌∷◌, length, arith}
use mqtt_async_embedded.Slots.{count}
use mqtt_async_embedded.Bytes.{same_bytes}
use mqtt_async_embedded.MemStore.{StaticMemStore, new, persist, remove}
use mqtt_async_embedded.MemStore.Pairs.{zip}
use mqtt_async_embedded.MemStore.Laws.{IsStore, has_key, holds}
use mqtt_async_embedded.MemStore.Lookup.{IsRemoved, remove-IsRemoved}
use mqtt_async_embedded.MemStore.Persist.{IsPersisted, persist-IsPersisted}

new-IsStore : IsStore 2 new
unfolding new count
new-IsStore = record { even = refl; bounded = omega arith; once = λ key. omega arith }

abbrev key : List ℕ
key = 115 ∷ 49 ∷ []

abbrev value : List ℕ
value = 1 ∷ 2 ∷ 3 ∷ []

new-length : length (StaticMemStore.keys new) ≡ 0
unfolding new
new-length = refl

persist-IsPersisted_example : IsPersisted 2 new key value (persist 2 4 8 key value new)
persist-IsPersisted_example =
    persist-IsPersisted 2 4 8 key value new new-IsStore (omega arith) (omega arith)
      (inr (omega (arith, new-length)))

abbrev one_entry : StaticMemStore
one_entry = record { keys = key ∷ []; values = value ∷ [] }

same_key : (k : List ℕ) → has_key one_entry k ≤ 1
unfolding count
same_key k = ground arith

one_entry-IsStore : IsStore 2 one_entry
one_entry-IsStore = record { even = refl; bounded = omega arith; once = same_key }

one_entry-holds : holds one_entry key value ≡ 1
unfolding count zip same_bytes
one_entry-holds = refl

one_entry-key : has_key one_entry key ≡ 1
unfolding count same_bytes
one_entry-key = refl

no_other_key : has_key one_entry (7 ∷ []) ≡ 0
unfolding count same_bytes
no_other_key = refl

remove-IsRemoved_example : IsRemoved 2 one_entry key (remove one_entry key)
remove-IsRemoved_example = remove-IsRemoved 2 one_entry key one_entry-IsStore one_entry-key
