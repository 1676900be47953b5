-- ===== src/Router/Tally.antt =====
-- The registrations of a trie, counted: how many pairs of a filter and a channel that a trie holds
-- have a property, and how each change of a map of children changes the number.
pub mod Insert
pub mod Remove
pub mod Dispatch
pub mod Drops
pub mod Subscriptions
pub mod Refine
use mathlib.Core.Path.{fun_ext}
use mqtt_async_embedded.Prelude.{
  ℕ, ◌+◌, ◌≡◌, refl, sym, ap, ◌∙◌, Bool, true, false, List, [], ◌∷◌, arith, if◌then◌else◌,
  Bool-cases, inl, inr,
}
use mqtt_async_embedded.Bytes.{same_bytes, same_bytes_sound}
use mqtt_async_embedded.Slots.{count}
use mqtt_async_embedded.Topics.{hash, plus}
use mqtt_async_embedded.Router.{
  TrieNode, node, Children, nil, entry, Branch, absent, present, child, put_child, remove_child,
  is_empty,
}

-- A property of a registration: its levels and its channel.
abbrev pub Wanted : Type 0
Wanted = List (List ℕ) → ℕ → Bool

-- The property of what lies behind a level.
abbrev pub behind : List ℕ → Wanted → Wanted
behind level q = λ ls c. q (level ∷ ls) c

unfoldable mutual
  pub tally : Wanted → TrieNode → ℕ
  tally q (node cs p hs es) =
      count (q (hash ∷ [])) hs
      + count (q []) es
      + tally_children q cs
      + tally_branch (behind plus q) p

  pub tally_children : Wanted → Children → ℕ
  tally_children q nil = 0
  tally_children q (entry k n cs) = tally (behind k q) n + tally_children q cs

  pub tally_branch : Wanted → Branch → ℕ
  tally_branch q absent = 0
  tally_branch q (present n) = tally q n

-- A level that is no wildcard.
abbrev pub IsPlain : List ℕ → Type 0
IsPlain k = (same_bytes k hash ≡ false) × (same_bytes k plus ≡ false)

-- The invariant of a trie: no wildcard among the keys of the maps, and no key twice.
unfoldable mutual
  pub IsTrie : TrieNode → Type 0
  IsTrie (node cs p hs es) = AreChildren cs × IsBranch p

  pub AreChildren : Children → Type 0
  AreChildren nil = Unit {0}
  AreChildren (entry k n cs) = IsPlain k × (child k cs ≡ absent) × IsTrie n × AreChildren cs

  pub IsBranch : Branch → Type 0
  IsBranch absent = Unit {0}
  IsBranch (present n) = IsTrie n

pub tally-put_child :
    (q : Wanted) (k : List ℕ) (n : TrieNode) (cs : Children)
    → tally_children q (put_child k n cs) + tally_branch (behind k q) (child k cs)
      ≡ tally_children q cs + tally (behind k q) n
unfolding tally child put_child
tally-put_child q k n nil = omega arith
tally-put_child q k n (entry j m cs) = elim (Bool-cases (same_bytes k j)) [
  | inl here ↦
      let found = ap (λ l. tally (behind l q) n) (same_bytes_sound k j here) in
      let old = ap (λ l. tally (behind l q) m) (same_bytes_sound k j here) in
      rw here (omega (arith, found, old))
  | inr later ↦ rw later (omega (arith, tally-put_child q k n cs))
]

pub tally-remove_child :
    (q : Wanted) (k : List ℕ) (cs : Children)
    → tally_children q (remove_child k cs) + tally_branch (behind k q) (child k cs)
      ≡ tally_children q cs
unfolding tally child remove_child
tally-remove_child q k nil = refl
tally-remove_child q k (entry j m cs) = elim (Bool-cases (same_bytes k j)) [
  | inl here ↦ rw here (omega (arith, ap (λ l. tally (behind l q) m) (same_bytes_sound k j here)))
  | inr later ↦ rw later (omega (arith, tally-remove_child q k cs))
]

-- A node that `is_empty` calls empty holds nothing.
pub tally-is_empty : (q : Wanted) (n : TrieNode) → is_empty n ≡ true → tally q n ≡ 0
unfolding tally is_empty count
tally-is_empty q (node nil absent [] []) h = refl
tally-is_empty q (node nil absent [] (e ∷ es)) h = cc
tally-is_empty q (node nil absent (s ∷ hs) es) h = cc
tally-is_empty q (node nil (present n) hs es) h = cc
tally-is_empty q (node (entry k n cs) p hs es) h = cc

-- Two properties that agree count alike.
pub tally-agree :
    (q r : Wanted) (n : TrieNode)
    → ((ls : List (List ℕ)) (c : ℕ) → q ls c ≡ r ls c)
    → tally q n ≡ tally r n
tally-agree q r n h = ap (λ (w : Wanted). tally w n) (fun_ext (λ ls. fun_ext (h ls)))

-- So in a map of children, if they agree behind the levels that are no wildcards.
pub tally_children-agree :
    (q r : Wanted) (cs : Children)
    → ((j : List ℕ) (ls : List (List ℕ)) (c : ℕ) → IsPlain j → q (j ∷ ls) c ≡ r (j ∷ ls) c)
    → AreChildren cs
    → tally_children q cs ≡ tally_children r cs
unfolding tally IsTrie
tally_children-agree q r nil h ok = refl
tally_children-agree q r (entry j m cs) h (plain, once, below, others) = omega (
  arith,
  tally-agree (behind j q) (behind j r) m (λ ls c. h j ls c plain),
  tally_children-agree q r cs h others,
)

-- Two properties that agree on all levels but one count alike outside the child of that level.
pub tally-elsewhere :
    (q r : Wanted) (k : List ℕ) (cs : Children)
    → ((j : List ℕ) (ls : List (List ℕ)) (c : ℕ)
        → IsPlain j
        → same_bytes k j ≡ false
        → q (j ∷ ls) c ≡ r (j ∷ ls) c)
    → AreChildren cs
    → tally_children q cs + tally_branch (behind k r) (child k cs)
      ≡ tally_children r cs + tally_branch (behind k q) (child k cs)
unfolding tally child IsTrie
tally-elsewhere q r k nil h ok = refl
tally-elsewhere q r k (entry j m cs) h (plain, once, below, others) =
    elim (Bool-cases (same_bytes k j)) [
      | inl here ↦
          let same = same_bytes_sound k j here in
          let alone : child k cs ≡ absent = ap (λ l. child l cs) same ∙ once in
          let ih = tally-elsewhere q r k cs h others in
          let rest : tally_children q cs + 0 ≡ tally_children r cs + 0 = rw alone at ih in
          rw here (
            omega (
              arith,
              rest,
              ap (λ l. tally (behind l q) m) same,
              ap (λ l. tally (behind l r) m) same,
            ))
      | inr later ↦ rw later (
          omega (
            arith,
            tally-agree (behind j q) (behind j r) m (λ ls c. h j ls c plain later),
            tally-elsewhere q r k cs h others,
          ))
    ]
