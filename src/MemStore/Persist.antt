-- ===== src/MemStore/Persist.antt =====
-- `persist` on every branch, and the invariant after it.
use mqtt_async_embedded.Prelude.{
  ℕ, ◌+◌, ◌≤◌, ◌<◌, ◌≡◌, ◌⊎◌, refl, sym, ap, ◌∙◌, subst, true, if◌then◌else◌, some, List, [], ◌∷◌,
  ◌++◌, length, length-append, length-set, set, get_elem?, arith, le→ltb, lt→ltb, Bool-cases,
  Option-cases, inl, inr,
}
use mqtt_async_embedded.Slots.{position, count}
use mqtt_async_embedded.Slots.Counting.{
  one_if, count-append, count-one, count-set, position-none, position-some,
}
use mqtt_async_embedded.Bytes.{same_bytes, same_bytes_sound}
use mqtt_async_embedded.MemStore.{StaticMemStore, Outcome, done, push_ignored, store_at, persist}
use mqtt_async_embedded.MemStore.Pairs.{zip, zip-append, zip-set_right}
use mqtt_async_embedded.MemStore.Laws.{
  IsStore, is_key, is_entry, has_key, holds, pairs, is_entry-found, holds-found, entries_le_keys,
  entry_at,
}

-- How many entries have `k` with `v` after `key` was given `value`.
abbrev pub written : StaticMemStore → List ℕ → List ℕ → List ℕ → List ℕ → ℕ
written s key value k v = if same_bytes key k then one_if (same_bytes value v) else holds s k v

-- What a successful `persist` leaves: the key has the value, and every other key what it had.
pub record IsPersisted (N : ℕ) (s : StaticMemStore) (key value : List ℕ)
    (r : Outcome (Unit {0}) × StaticMemStore) : Type 0 where
  pub answer : r.0 ≡ done tt
  pub contents : (k v : List ℕ) → holds r.1 k v ≡ written s key value k v
  pub well_formed : IsStore N r.1

replaced :
    (N : ℕ) (s : StaticMemStore) (key value e w k v : List ℕ) (i : ℕ)
    → IsStore N s
    → get_elem? (StaticMemStore.keys s) i ≡ some e
    → is_key key e ≡ true
    → get_elem? (pairs s) i ≡ some (e, w)
    → count (is_entry k v) (set (pairs s) i (e, value)) ≡ written s key value k v
replaced N s key value e w k v i ok at same pair =
    let swapped = count-set (is_entry k v) (pairs s) i (e, w) (e, value) pair in
    let old = ap one_if (is_entry-found e w key k v same) in
    let new_one = ap one_if (is_entry-found e value key k v same) in
    elim (Bool-cases (same_bytes key k)) [
      | inl here ↦
          let at_key : holds s k v ≡ one_if (is_entry k v (e, w)) =
            subst (λ a. holds s a v ≡ one_if (is_entry a v (e, w))) (same_bytes_sound key k here)
              (holds-found N s key e w v i ok at same pair) in
          let put : one_if (is_entry k v (key, value)) ≡ one_if (same_bytes value v) =
            rw here refl in
          rw here (omega (arith, swapped, at_key, new_one, put))
      | inr elsewhere ↦
          let no_old : one_if (is_entry k v (key, w)) ≡ 0 = rw elsewhere refl in
          let no_new : one_if (is_entry k v (key, value)) ≡ 0 = rw elsewhere refl in
          rw elsewhere (omega (arith, swapped, old, new_one, no_old, no_new))
    ]

added :
    (s : StaticMemStore) (key value k v : List ℕ)
    → has_key s key ≡ 0
    → holds s k v + one_if (is_entry k v (key, value)) ≡ written s key value k v
added s key value k v free = elim (Bool-cases (same_bytes key k)) [
  | inl here ↦
      let none_yet : has_key s k ≡ 0 =
        subst (λ a. has_key s a ≡ 0) (same_bytes_sound key k here) free in
      let fewer = entries_le_keys (StaticMemStore.keys s) (StaticMemStore.values s) k v in
      rw here (omega (arith, none_yet, fewer))
  | inr elsewhere ↦ rw elsewhere (omega arith)
]

store_at-IsPersisted :
    (N : ℕ) (s : StaticMemStore) (key value e : List ℕ) (i : ℕ)
    → IsStore N s
    → get_elem? (StaticMemStore.keys s) i ≡ some e
    → same_bytes e key ≡ true
    → IsPersisted N s key value (store_at s i value)
unfolding store_at
store_at-IsPersisted N s key value e i ok at same =
    let keys = StaticMemStore.keys s in
    let values = StaticMemStore.values s in
    let (inside, w, found, pair) = entry_at N s i e ok at in
    let moved = zip-set_right keys values i e value at in
    rw (lt→ltb i (length values) inside, store_at)
      (record {
        answer = refl;
        contents = λ k v.
            ap (count (is_entry k v)) moved ∙ replaced N s key value e w k v i ok at same pair;
        well_formed = record {
          even = IsStore.even ok ∙ sym (length-set values i value);
          bounded = IsStore.bounded ok;
          once = IsStore.once ok;
        };
      })

-- A new key at the end of the keys.
once_more :
    (s : StaticMemStore) (N : ℕ) (key k : List ℕ)
    → IsStore N s
    → has_key s key ≡ 0
    → has_key s k + one_if (same_bytes key k) ≤ 1
once_more s N key k ok free = elim (Bool-cases (same_bytes key k)) [
  | inl same ↦
      let there : has_key s k ≡ 0 =
        subst (λ a. has_key s a ≡ 0) (same_bytes_sound key k same) free in
      rw same (omega (arith, there))
  | inr apart ↦ rw apart (omega (arith, IsStore.once ok k))
]

append-IsPersisted :
    (N : ℕ) (s : StaticMemStore) (key value : List ℕ)
    → IsStore N s
    → has_key s key ≡ 0
    → length (StaticMemStore.keys s) < N
    → IsPersisted N s key value (
      done tt,
      record {
        keys = StaticMemStore.keys s ++ (key ∷ []);
        values = StaticMemStore.values s ++ (value ∷ []);
      },
    )
append-IsPersisted N s key value ok free room =
    let keys = StaticMemStore.keys s in
    let values = StaticMemStore.values s in
    let longer = zip-append keys values key value (IsStore.even ok) in
    let grown : (k v : List ℕ)
        → count (is_entry k v) (zip (keys ++ (key ∷ [])) (values ++ (value ∷ [])))
          ≡ holds s k v + one_if (is_entry k v (key, value)) =
      λ k v.
        ap (count (is_entry k v)) longer
        ∙ count-append (is_entry k v) (pairs s) ((key, value) ∷ [])
        ∙ ap (λ n. holds s k v + n) (count-one (is_entry k v) (key, value)) in
    record {
      answer = refl;
      contents = λ k v. grown k v ∙ added s key value k v free;
      well_formed = record {
        even = omega (
          arith,
          length-append keys (key ∷ []),
          length-append values (value ∷ []),
          IsStore.even ok,
        );
        bounded = omega (arith, length-append keys (key ∷ []), room);
        once = λ k.
            rw (count-append (is_key k) keys (key ∷ []), count-one (is_key k) key)
              (once_more s N key k ok free);
      };
    }

-- On a store that meets the invariant, `persist` of a key and a value of allowed lengths succeeds
-- where the key is there or the store is not full: the key then has the value, every other key has
-- what it had, and the invariant holds.
pub persist-IsPersisted :
    (N K V : ℕ) (key value : List ℕ) (s : StaticMemStore)
    → IsStore N s
    → length key ≤ K
    → length value ≤ V
    → (1 ≤ has_key s key) ⊎ (length (StaticMemStore.keys s) < N)
    → IsPersisted N s key value (persist N K V key value s)
unfolding persist push_ignored
persist-IsPersisted N K V key value s ok short_key short_value room =
    let keys = StaticMemStore.keys s in
    elim (Option-cases (position (is_key key) keys)) [
      | inr (i, found) ↦
          let (e, at, same) = position-some (is_key key) keys i found in
          rw (le→ltb K (length key) short_key, le→ltb V (length value) short_value, found, persist)
            (store_at-IsPersisted N s key value e i ok at same)
      | inl nothing ↦
          let free = position-none (is_key key) keys nothing in
          let fits : length keys < N = has_room free room in
          rw
            (
              le→ltb K (length key) short_key,
              le→ltb V (length value) short_value,
              nothing,
              lt→ltb (length keys) N fits,
              lt→ltb (length (StaticMemStore.values s)) N (omega (arith, fits, IsStore.even ok)),
              persist,
              push_ignored,
            )
            (append-IsPersisted N s key value ok free fits)
    ]
  where
    has_room :
        has_key s key ≡ 0
        → (1 ≤ has_key s key) ⊎ (length (StaticMemStore.keys s) < N)
        → length (StaticMemStore.keys s) < N
    has_room free (inl some_one) = absurd (omega arith)
    has_room free (inr h) = h
