-- ===== src/MemStore.antt =====
-- crates/mqtt-storage/src/mem.rs: a key-value store of bounded size, as a table of keys beside a
-- table of values. The three capacities are arguments of `persist`, which reads them.
pub mod Pairs
pub mod Laws
pub mod Persist
pub mod Lookup
pub mod Refusals
use mqtt_async_embedded.Prelude.{
  ℕ, zero, suc, ◌+◌, ◌&&◌, Bool, true, false, Option, none, some, List, [], ◌∷◌, ◌++◌, length, ltb,
  get_elem?, set, drop, if◌then◌else◌, ◌==◌,
}
use mqtt_async_embedded.Bytes.{same_bytes}
use mqtt_async_embedded.Slots.{position, swap_remove}

pub data MemStorageError : Type 0 where
  key_not_found capacity_full buffer_too_small : MemStorageError

-- `Result<A, MemStorageError>`, and the panic of an index that is out of range
pub data Outcome (A : Type 0) : Type 0 where
  done : A → Outcome A
  failed : MemStorageError → Outcome A
  panics : Outcome A

pub record StaticMemStore : Type 0 where
  pub keys : List (List ℕ)
  pub values : List (List ℕ)

unfoldable pub new : StaticMemStore
new = record { keys = []; values = [] }

-- `let _ = vec.push(x)`: a vector that is full stays as it is.
unfoldable pub push_ignored : {A : Type 0} → ℕ → List A → A → List A
push_ignored N xs x = if ltb (length xs) N then xs ++ (x ∷ []) else xs

-- `self.values[idx] = v`
unfoldable pub store_at : StaticMemStore → ℕ → List ℕ → Outcome (Unit {0}) × StaticMemStore
store_at s idx v =
    if ltb idx (length (StaticMemStore.values s))
    then (
      done tt,
      record { keys = StaticMemStore.keys s; values = set (StaticMemStore.values s) idx v },
    )
    else (panics, s)

unfoldable pub persist :
    ℕ → ℕ → ℕ → List ℕ → List ℕ → StaticMemStore → Outcome (Unit {0}) × StaticMemStore
persist MAX_ENTRIES MAX_KEY_LEN MAX_VAL_LEN key value s =
    if ltb MAX_KEY_LEN (length key)
    then (failed buffer_too_small, s)
    else if ltb MAX_VAL_LEN (length value)
    then (failed buffer_too_small, s)
    else elim (position (λ entry. same_bytes entry key) (StaticMemStore.keys s)) [
      | some idx ↦ store_at s idx value
      | none ↦
          if ltb (length (StaticMemStore.keys s)) MAX_ENTRIES
          then (
            done tt,
            record {
              keys = push_ignored MAX_ENTRIES (StaticMemStore.keys s) key;
              values = push_ignored MAX_ENTRIES (StaticMemStore.values s) value;
            },
          )
          else (failed capacity_full, s)
    ]

-- `out_buf[..val.len()].copy_from_slice(val); Ok(Some(val.len()))`, behind the test of its length
unfoldable pub copy_out : Option (List ℕ) → List ℕ → Outcome (Option ℕ) × List ℕ
copy_out none out_buf = (panics, out_buf)
copy_out (some val) out_buf =
    if ltb (length out_buf) (length val)
    then (failed buffer_too_small, out_buf)
    else (done (some (length val)), val ++ drop (length val) out_buf)

unfoldable pub load : StaticMemStore → List ℕ → List ℕ → Outcome (Option ℕ) × List ℕ
load s key out_buf = elim (position (λ entry. same_bytes entry key) (StaticMemStore.keys s)) [
  | some idx ↦ copy_out (get_elem? (StaticMemStore.values s) idx) out_buf
  | none ↦ (done none, out_buf)
]

-- `self.keys.swap_remove(idx); self.values.swap_remove(idx)`
unfoldable pub remove_at : StaticMemStore → ℕ → Outcome (Unit {0}) × StaticMemStore
remove_at s idx =
    if ltb idx (length (StaticMemStore.values s))
    then (
      done tt,
      record {
        keys = swap_remove idx (StaticMemStore.keys s);
        values = swap_remove idx (StaticMemStore.values s);
      },
    )
    else (
      panics,
      record { keys = swap_remove idx (StaticMemStore.keys s); values = StaticMemStore.values s },
    )

unfoldable pub remove : StaticMemStore → List ℕ → Outcome (Unit {0}) × StaticMemStore
remove s key = elim (position (λ entry. same_bytes entry key) (StaticMemStore.keys s)) [
  | some idx ↦ remove_at s idx
  | none ↦ (failed key_not_found, s)
]

unfoldable pub clear : StaticMemStore → StaticMemStore
clear s = record { keys = []; values = [] }
