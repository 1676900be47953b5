-- ===== src/MemStore/Laws.antt =====
-- The store as a finite map: what each operation answers, and which values the keys have after it.
use mqtt_async_embedded.Prelude.{
  ℕ, ◌≤◌, ◌<◌, ◌≡◌, ap, Bool, true, false, some, List, [], ◌∷◌, length, get_elem?, arith,
  if◌then◌else◌,
}
use mqtt_async_embedded.Slots.{count, swap_remove}
use mqtt_async_embedded.Slots.Counting.{one_if, count-swap_remove}
use mqtt_async_embedded.Bytes.{same_bytes, same_bytes_sound}
use mqtt_async_embedded.MemStore.{StaticMemStore}
use mqtt_async_embedded.MemStore.Pairs.{
  zip, get_elem?-zip, get_elem?-inside, get_elem?-found, zip-swap_remove,
}

abbrev pub is_key : List ℕ → List ℕ → Bool
is_key key entry = same_bytes entry key

abbrev pub is_entry : List ℕ → List ℕ → List ℕ × List ℕ → Bool
is_entry key value e = if same_bytes e.0 key then same_bytes e.1 value else false

-- An entry with the key has another key as the key has it.
pub is_entry-found :
    (e w key k v : List ℕ) → same_bytes e key ≡ true → is_entry k v (e, w) ≡ is_entry k v (key, w)
is_entry-found e w key k v h = ap (λ a. is_entry k v (a, w)) (same_bytes_sound e key h)

-- How many entries have the key, and how many have it with the value.
abbrev pub has_key : StaticMemStore → List ℕ → ℕ
has_key s key = count (is_key key) (StaticMemStore.keys s)

abbrev pub pairs : StaticMemStore → List (List ℕ × List ℕ)
pairs s = zip (StaticMemStore.keys s) (StaticMemStore.values s)

abbrev pub holds : StaticMemStore → List ℕ → List ℕ → ℕ
holds s key value = count (is_entry key value) (pairs s)

-- The tables have one length, within the capacity, and no key twice.
pub record IsStore (N : ℕ) (s : StaticMemStore) : Type 0 where
  pub even : length (StaticMemStore.keys s) ≡ length (StaticMemStore.values s)
  pub bounded : length (StaticMemStore.keys s) ≤ N
  pub once : (key : List ℕ) → has_key s key ≤ 1

pub entries_le_keys :
    (keys values : List (List ℕ)) (key value : List ℕ)
    → count (is_entry key value) (zip keys values) ≤ count (is_key key) keys
unfolding zip count
entries_le_keys [] values key value = omega arith
entries_le_keys (k ∷ keys) [] key value = omega arith
entries_le_keys (k ∷ keys) (v ∷ values) key value =
    ground (arith, entries_le_keys keys values key value)

pub count-at :
    {A : Type 0} (q : A → Bool) (xs : List A) (i : ℕ) (x : A)
    → get_elem? xs i ≡ some x
    → one_if (q x) ≤ count q xs
count-at q xs i x h = omega (arith, count-swap_remove q xs i x h)

-- The entry that `position` finds, with its value.
pub entry_at :
    (N : ℕ) (s : StaticMemStore) (i : ℕ) (e : List ℕ)
    → IsStore N s
    → get_elem? (StaticMemStore.keys s) i ≡ some e
    → (i < length (StaticMemStore.values s))
      × (w : List ℕ) × (get_elem? (StaticMemStore.values s) i ≡ some w)
      × (get_elem? (pairs s) i ≡ some (e, w))
entry_at N s i e ok at =
    let inside : i < length (StaticMemStore.values s) =
      omega (arith, get_elem?-inside (StaticMemStore.keys s) i e at, IsStore.even ok) in
    let (w, found) = get_elem?-found (StaticMemStore.values s) i inside in
    (
      inside,
      w,
      found,
      get_elem?-zip (StaticMemStore.keys s) (StaticMemStore.values s) i e w at found,
    )

key_found : (key e : List ℕ) → is_key key e ≡ true → one_if (is_key key e) ≡ 1
key_found key e h = ap one_if h

-- Without the entry that was found, no entry has the key.
pub none_left :
    (N : ℕ) (s : StaticMemStore) (key e v : List ℕ) (i : ℕ)
    → IsStore N s
    → get_elem? (StaticMemStore.keys s) i ≡ some e
    → is_key key e ≡ true
    → count (is_entry key v) (swap_remove i (pairs s)) ≡ 0
none_left N s key e v i ok at same =
    let keys = StaticMemStore.keys s in
    let values = StaticMemStore.values s in
    omega (
      arith,
      ap (count (is_entry key v)) (zip-swap_remove keys values i (IsStore.even ok)),
      entries_le_keys (swap_remove i keys) (swap_remove i values) key v,
      count-swap_remove (is_key key) keys i e at,
      key_found key e same,
      IsStore.once ok key,
    )

-- So the value of that entry is the one that the key has.
pub holds-found :
    (N : ℕ) (s : StaticMemStore) (key e w v : List ℕ) (i : ℕ)
    → IsStore N s
    → get_elem? (StaticMemStore.keys s) i ≡ some e
    → is_key key e ≡ true
    → get_elem? (pairs s) i ≡ some (e, w)
    → holds s key v ≡ one_if (is_entry key v (e, w))
holds-found N s key e w v i ok at same pair = omega (
  arith,
  none_left N s key e v i ok at same,
  count-swap_remove (is_entry key v) (pairs s) i (e, w) pair,
)
