-- ===== src/MemStore/Refusals.antt =====
-- When `persist` fails.
use mqtt_async_embedded.Prelude.{ℕ, ◌≤◌, ◌<◌, ◌≡◌, refl, List, length, le→ltb, lt→ltb}
use mqtt_async_embedded.Slots.Counting.{count-position}
use mqtt_async_embedded.MemStore.{
  StaticMemStore, MemStorageError, failed, buffer_too_small, capacity_full, persist,
}
use mqtt_async_embedded.MemStore.Laws.{is_key, has_key}

-- The reasons of a failure, with its error.
pub data Refusal (N K V : ℕ) (key value : List ℕ) (s : StaticMemStore)
    : MemStorageError → Type 0 where
  long_key : K < length key → Refusal N K V key value s buffer_too_small
  long_value : length key ≤ K → V < length value → Refusal N K V key value s buffer_too_small
  full :
      length key ≤ K
      → length value ≤ V
      → has_key s key ≡ 0
      → N ≤ length (StaticMemStore.keys s)
      → Refusal N K V key value s capacity_full

-- `persist` answers `BufferTooSmall` for a key or a value that is too long and `CapacityFull` for a
-- new key where the store is full, and the store stays as it is.
pub persist_refused :
    (N K V : ℕ) (key value : List ℕ) (s : StaticMemStore) {why : MemStorageError}
    → Refusal N K V key value s why
    → persist N K V key value s ≡ (failed why, s)
unfolding persist
persist_refused N K V key value s (long_key long) = rw (lt→ltb K (length key) long, persist) refl
persist_refused N K V key value s (long_value fits long) =
    rw (le→ltb K (length key) fits, lt→ltb V (length value) long, persist) refl
persist_refused N K V key value s (full short_key short_value free no_room) =
    rw
      (
        le→ltb K (length key) short_key,
        le→ltb V (length value) short_value,
        count-position (is_key key) (StaticMemStore.keys s) free,
        le→ltb (length (StaticMemStore.keys s)) N no_room,
        persist,
      )
      refl
