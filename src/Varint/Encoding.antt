-- ===== src/Varint/Encoding.antt =====
-- The wire form of a variable byte integer in plain arithmetic, independent of the code.
use mqtt_async_embedded.Prelude.{
  ℕ, zero, suc, ◌+◌, ◌/◌, ◌%◌, ◌^◌, ◌≤◌, ◌<◌, ◌≡◌, List, [], ◌∷◌, length, ◌∙◌, arith, ltb,
  if◌then◌else◌,
}

-- The groups of seven bits of `v`, at most `k + 1` of them.
unfoldable pub groups : ℕ → ℕ → List ℕ
groups zero v = v ∷ []
groups (suc k) v =
    let rest = groups k (v / 128) in if ltb v 128 then v ∷ [] else (v % 128 + 128) ∷ rest

-- Ten groups hold every 64-bit `usize`.
abbrev pub varint : ℕ → List ℕ
varint v = groups 9 v

-- The largest value that four bytes hold is 268,435,455.
abbrev pub varint_limit : ℕ
varint_limit = 268_435_456

abbrev pub usize_limit : ℕ
usize_limit = 2 ^ 64

pub length-groups : (k v : ℕ) → (1 ≤ length (groups k v)) × (length (groups k v) ≤ k + 1)
unfolding groups
length-groups zero v = omega arith
length-groups (suc k) v = ground (arith, length-groups k (v / 128))

-- More room for groups than are needed changes nothing.
pub groups_more : (k v : ℕ) → v < 128 ^ suc k → groups (suc k) v ≡ groups k v
unfolding groups
groups_more zero v h = ground arith
groups_more (suc k) v h = ground (arith, groups_more k (v / 128) (omega arith))

pub varint_four : (v : ℕ) → v < varint_limit → varint v ≡ groups 3 v
varint_four v h =
    groups_more 8 v (omega arith)
    ∙ groups_more 7 v (omega arith)
    ∙ groups_more 6 v (omega arith)
    ∙ groups_more 5 v (omega arith)
    ∙ groups_more 4 v (omega arith)
    ∙ groups_more 3 v (omega arith)
