-- ===== src/MemStore/Lookup.antt =====
-- `load` and `remove` against the values that the keys have.
use mqtt_async_embedded.Prelude.{
  ℕ, ◌+◌, ◌≤◌, ◌≡◌, refl, ap, ◌∙◌, subst, if◌then◌else◌, true, none, some, List, ◌++◌, length,
  get_elem?, drop, arith, le→ltb, lt→ltb, Bool-cases, Option-cases, inl, inr,
}
use mqtt_async_embedded.Slots.{position, swap_remove, count}
use mqtt_async_embedded.Slots.Counting.{
  one_if, count-swap_remove, count-position, position-none, position-some,
}
use mqtt_async_embedded.Slots.Updates.{length-swap_remove}
use mqtt_async_embedded.Bytes.{same_bytes, same_bytes_sound}
use mqtt_async_embedded.MemStore.{
  StaticMemStore, Outcome, done, failed, key_not_found, copy_out, load, remove_at, remove,
}
use mqtt_async_embedded.MemStore.Pairs.{zip-swap_remove}
use mqtt_async_embedded.MemStore.Laws.{
  IsStore, is_key, is_entry, has_key, holds, pairs, is_entry-found, holds-found, none_left,
  entries_le_keys, entry_at,
}

-- The value of the entry that was found is the one that the key has.
value_found :
    (N : ℕ) (s : StaticMemStore) (key value e w : List ℕ) (i : ℕ)
    → IsStore N s
    → get_elem? (StaticMemStore.keys s) i ≡ some e
    → is_key key e ≡ true
    → get_elem? (pairs s) i ≡ some (e, w)
    → holds s key value ≡ 1
    → w ≡ value
value_found N s key value e w i ok at same pair has =
    let held = holds-found N s key e w value i ok at same pair in
    elim (Bool-cases (same_bytes w value)) [
      | inl equal ↦ same_bytes_sound w value equal
      | inr apart ↦
          let no_match : one_if (is_entry key value (e, w)) ≡ 0 = rw (same, apart) refl in
          absurd (omega (arith, held, no_match, has))
    ]

-- On a store that meets the invariant, `load` of a key with a value copies the value to the front of
-- a buffer that is long enough, and answers its length.
pub load-holds :
    (N : ℕ) (s : StaticMemStore) (key value out_buf : List ℕ)
    → IsStore N s
    → holds s key value ≡ 1
    → length value ≤ length out_buf
    → load s key out_buf ≡ (done (some (length value)), value ++ drop (length value) out_buf)
unfolding load copy_out
load-holds N s key value out_buf ok has room =
    let keys = StaticMemStore.keys s in
    elim (Option-cases (position (is_key key) keys)) [
      | inl nothing ↦ absurd (
          omega (
            arith,
            position-none (is_key key) keys nothing,
            entries_le_keys keys (StaticMemStore.values s) key value,
            has,
          ))
      | inr (i, found) ↦
          let (e, at, same) = position-some (is_key key) keys i found in
          let (inside, w, there, pair) = entry_at N s i e ok at in
          rw
            (
              found,
              load,
              there,
              value_found N s key value e w i ok at same pair has,
              le→ltb (length out_buf) (length value) room,
            )
            refl
    ]

-- What a successful `remove` leaves: the key has no value, and every other key what it had.
pub record IsRemoved (N : ℕ) (s : StaticMemStore) (key : List ℕ)
    (r : Outcome (Unit {0}) × StaticMemStore) : Type 0 where
  pub answer : r.0 ≡ done tt
  pub contents : (k v : List ℕ) → holds r.1 k v ≡ (if same_bytes key k then 0 else holds s k v)
  pub well_formed : IsStore N r.1

taken :
    (N : ℕ) (s : StaticMemStore) (key e w k v : List ℕ) (i : ℕ)
    → IsStore N s
    → get_elem? (StaticMemStore.keys s) i ≡ some e
    → is_key key e ≡ true
    → get_elem? (pairs s) i ≡ some (e, w)
    → count (is_entry k v) (swap_remove i (pairs s)) ≡ (if same_bytes key k then 0 else holds s k v)
taken N s key e w k v i ok at same pair = elim (Bool-cases (same_bytes key k)) [
  | inl here ↦ rw here (
      subst (λ a. count (is_entry a v) (swap_remove i (pairs s)) ≡ 0) (same_bytes_sound key k here)
        (none_left N s key e v i ok at same))
  | inr elsewhere ↦
      let no_old : one_if (is_entry k v (key, w)) ≡ 0 = rw elsewhere refl in
      rw elsewhere (
        omega (
          arith,
          count-swap_remove (is_entry k v) (pairs s) i (e, w) pair,
          ap one_if (is_entry-found e w key k v same),
          no_old,
        ))
]

remove_at-IsRemoved :
    (N : ℕ) (s : StaticMemStore) (key e : List ℕ) (i : ℕ)
    → IsStore N s
    → get_elem? (StaticMemStore.keys s) i ≡ some e
    → is_key key e ≡ true
    → IsRemoved N s key (remove_at s i)
unfolding remove_at
remove_at-IsRemoved N s key e i ok at same =
    let keys = StaticMemStore.keys s in
    let values = StaticMemStore.values s in
    let (inside, w, there, pair) = entry_at N s i e ok at in
    let fewer_keys = length-swap_remove keys i e at in
    let keys_with : (k : List ℕ)
        → count (is_key k) (swap_remove i keys) + one_if (is_key k e) ≡ has_key s k =
      λ k. count-swap_remove (is_key k) keys i e at in
    rw (lt→ltb i (length values) inside, remove_at)
      (record {
        answer = refl;
        contents = λ k v.
            ap (count (is_entry k v)) (zip-swap_remove keys values i (IsStore.even ok))
            ∙ taken N s key e w k v i ok at same pair;
        well_formed = record {
          even = omega (arith, fewer_keys, length-swap_remove values i w there, IsStore.even ok);
          bounded = omega (arith, fewer_keys, IsStore.bounded ok);
          once = λ k. omega (arith, keys_with k, IsStore.once ok k);
        };
      })

-- On a store that meets the invariant, `remove` of a key that is there takes it out and leaves every
-- other key what it had, and the invariant holds.
pub remove-IsRemoved :
    (N : ℕ) (s : StaticMemStore) (key : List ℕ)
    → IsStore N s
    → has_key s key ≡ 1
    → IsRemoved N s key (remove s key)
unfolding remove
remove-IsRemoved N s key ok has =
    let keys = StaticMemStore.keys s in
    elim (Option-cases (position (is_key key) keys)) [
      | inl nothing ↦ absurd (omega (arith, position-none (is_key key) keys nothing, has))
      | inr (i, found) ↦
          let (e, at, same) = position-some (is_key key) keys i found in
          rw (found, remove) (remove_at-IsRemoved N s key e i ok at same)
    ]

-- Without the key, `load` answers `Ok(None)` and leaves the buffer, and `remove` answers
-- `KeyNotFound` and leaves the store.
pub key_missing :
    (s : StaticMemStore) (key out_buf : List ℕ)
    → has_key s key ≡ 0
    → (load s key out_buf ≡ (done none, out_buf)) × (remove s key ≡ (failed key_not_found, s))
unfolding load remove
key_missing s key out_buf free =
    let nothing = count-position (is_key key) (StaticMemStore.keys s) free in
    (rw (nothing, load) refl, rw (nothing, remove) refl)
