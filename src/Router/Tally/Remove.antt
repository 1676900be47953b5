-- ===== src/Router/Tally/Remove.antt =====
-- `remove_recursive` on the tally and on the invariant.
use mathlib.Core.Path.{fun_ext}
use mqtt_async_embedded.Prelude.{
  ℕ, ◌+◌, ◌≡◌, refl, sym, ap, ◌∙◌, Bool, true, false, List, [], ◌∷◌, arith, if◌then◌else◌,
  Bool-cases, inl, inr,
}
use mqtt_async_embedded.Bytes.{same_bytes, same_bytes_sound, same_bytes_refl, same_bytes_comm}
use mqtt_async_embedded.Slots.{count}
use mqtt_async_embedded.Topics.{hash, plus}
use mqtt_async_embedded.Router.{
  TrieNode, node, Children, nil, entry, Branch, absent, present, child, remove_child, prune_branch,
  prune_child, remove_in_branch, remove_in_child, is_empty, remove_recursive,
}
use mqtt_async_embedded.Router.Tally.{
  Wanted, behind, tally, tally_children, tally_branch, IsPlain, IsTrie, AreChildren, IsBranch,
  tally-put_child, tally-remove_child, tally-is_empty, tally-agree, tally_children-agree,
  tally-elsewhere,
}
use mqtt_async_embedded.Router.Tally.Insert.{child-IsBranch, put_child-AreChildren, up_to_hash}

-- `==` on lists of levels
unfoldable pub same_levels : List (List ℕ) → List (List ℕ) → Bool
same_levels [] [] = true
same_levels [] (l ∷ ls) = false
same_levels (k ∷ ks) [] = false
same_levels (k ∷ ks) (l ∷ ls) =
    let rest = same_levels ks ls in if same_bytes k l then rest else false

-- The registrations under other filters.
abbrev pub but_filter : List (List ℕ) → Wanted → Wanted
but_filter fs q = λ ls c. if same_levels fs ls then false else q ls c

count_none : (ss : List ℕ) → count (λ c. false) ss ≡ 0
unfolding count
count_none [] = refl
count_none (s ∷ ss) = count_none ss

-- The emptiness that is answered is that of the node.
remove_recursive-is_empty :
    (ls : List (List ℕ)) (n : TrieNode)
    → (remove_recursive ls n).1 ≡ is_empty (remove_recursive ls n).0
unfolding remove_recursive
remove_recursive-is_empty [] (node cs p hs es) = refl
remove_recursive-is_empty (l ∷ ls) (node cs p hs es) = ground arith

-- What pruning leaves counts as the node that was pruned.
tally-prune_branch :
    (q : Wanted) (r : TrieNode × Bool)
    → r.1 ≡ is_empty r.0
    → tally_branch q (prune_branch r) ≡ tally q r.0
unfolding tally
tally-prune_branch q (n, true) h = sym (tally-is_empty q n (sym h))
tally-prune_branch q (n, false) h = refl

tally-prune_child :
    (q : Wanted) (k : List ℕ) (r : TrieNode × Bool) (cs : Children)
    → r.1 ≡ is_empty r.0
    → tally_children q (prune_child k r cs) + tally_branch (behind k q) (child k cs)
      ≡ tally_children q cs + tally (behind k q) r.0
tally-prune_child q k (n, true) cs h =
    omega (arith, tally-remove_child q k cs, tally-is_empty (behind k q) n (sym h))
tally-prune_child q k (n, false) cs h = tally-put_child q k n cs

module _ (q : Wanted) (fs : List (List ℕ)) (below : TrieNode → TrieNode × Bool)
    (emptiness : (n : TrieNode) → (below n).1 ≡ is_empty (below n).0) where
  tally_in_branch :
      (p : Branch)
      → IsBranch p
      → ((n : TrieNode)
          → IsTrie n
          → tally (behind plus q) (below n).0 ≡ tally (but_filter fs (behind plus q)) n)
      → tally_branch (behind plus q) (remove_in_branch below p)
        ≡ tally_branch (but_filter fs (behind plus q)) p
  unfolding tally IsTrie
  tally_in_branch absent ok h = refl
  tally_in_branch (present n) ok h =
      tally-prune_branch (behind plus q) (below n) (emptiness n) ∙ h n ok

  tally_in_child :
      (k : List ℕ) (b : Branch) (cs : Children)
      → child k cs ≡ b
      → IsBranch b
      → ((n : TrieNode)
          → IsTrie n
          → tally (behind k q) (below n).0 ≡ tally (but_filter fs (behind k q)) n)
      → tally_children q (remove_in_child k below b cs) + tally_branch (behind k q) b
        ≡ tally_children q cs + tally_branch (but_filter fs (behind k q)) b
  unfolding tally IsTrie
  tally_in_child k absent cs found ok h = refl
  tally_in_child k (present n) cs found ok h =
      let there : tally_branch (behind k q) (child k cs) ≡ tally (behind k q) n =
        ap (tally_branch (behind k q)) found in
      omega (arith, tally-prune_child q k (below n) cs (emptiness n), there, h n ok)

-- A level that is no wildcard against the head of the filter that is removed.
other_child :
    (q : Wanted) (k j : List ℕ) (fs ls : List (List ℕ)) (c : ℕ)
    → same_bytes k j ≡ false
    → q (j ∷ ls) c ≡ but_filter (k ∷ fs) q (j ∷ ls) c
unfolding same_levels
other_child q k j fs ls c apart = rw apart refl

-- What a filter whose first level is no wildcard leaves alone.
multi_kept :
    (q : Wanted) (k : List ℕ) (fs : List (List ℕ)) (hs : List ℕ)
    → same_bytes k hash ≡ false
    → count (but_filter (k ∷ fs) q (hash ∷ [])) hs ≡ count (q (hash ∷ [])) hs
multi_kept q k fs hs apart =
    ap (λ (w : ℕ → Bool). count w hs) (fun_ext (λ c. sym (other_child q k hash fs [] c apart)))

plus_kept :
    (q : Wanted) (k : List ℕ) (fs : List (List ℕ)) (p : Branch)
    → same_bytes k plus ≡ false
    → tally_branch (behind plus (but_filter (k ∷ fs) q)) p ≡ tally_branch (behind plus q) p
plus_kept q k fs p apart =
    ap (λ (w : Wanted). tally_branch w p)
      (fun_ext (λ ls. fun_ext (λ c. sym (other_child q k plus fs ls c apart))))

-- Behind the level itself, the rest of the filter decides.
same_child :
    (q : Wanted) (k : List ℕ) (fs : List (List ℕ)) (b : Branch)
    → tally_branch (behind k (but_filter (k ∷ fs) q)) b
      ≡ tally_branch (but_filter fs (behind k q)) b
unfolding tally same_levels
same_child q k fs absent = refl
same_child q k fs (present n) =
    tally-agree (behind k (but_filter (k ∷ fs) q)) (but_filter fs (behind k q)) n
      (λ ls c. rw (same_bytes_refl k) refl)

module _ (q : Wanted) (cs : Children) (own : AreChildren cs) where
  children_but_hash : tally_children q cs ≡ tally_children (but_filter (hash ∷ []) q) cs
  children_but_hash =
      tally_children-agree q (but_filter (hash ∷ []) q) cs
        (λ j ls c plain. other_child q hash j [] ls c (same_bytes_comm hash j ∙ plain.0)) own

  children_but_plus :
      (fs : List (List ℕ)) → tally_children q cs ≡ tally_children (but_filter (plus ∷ fs) q) cs
  children_but_plus fs =
      tally_children-agree q (but_filter (plus ∷ fs) q) cs
        (λ j ls c plain. other_child q plus j fs ls c (same_bytes_comm plus j ∙ plain.1)) own

  children_but :
      (k : List ℕ) (fs : List (List ℕ))
      → tally_children q cs + tally_branch (but_filter fs (behind k q)) (child k cs)
        ≡ tally_children (but_filter (k ∷ fs) q) cs + tally_branch (behind k q) (child k cs)
  children_but k fs = rw (← same_child q k fs (child k cs)) (
      tally-elsewhere q (but_filter (k ∷ fs) q) k cs
        (λ j ls c plain apart. other_child q k j fs ls c apart) own)

-- The registrations under the filter are gone, and all others stay.
pub tally-remove_recursive :
    (ls : List (List ℕ)) (q : Wanted) (n : TrieNode)
    → IsTrie n
    → tally q (remove_recursive ls n).0 ≡ tally (but_filter (up_to_hash ls) q) n
unfolding tally IsTrie remove_recursive up_to_hash same_levels count same_bytes
tally-remove_recursive [] q (node cs p hs es) (own, below) =
    omega
      (arith, count_none es, tally_children-agree q (but_filter [] q) cs (λ j ls c plain. refl) own)
tally-remove_recursive (l ∷ ls) q (node cs p hs es) (own, below) =
    let fs = up_to_hash ls in
    elim (Bool-cases (same_bytes l hash)) [
      | inl multi ↦ rw multi (omega (arith, count_none hs, children_but_hash q cs own))
      | inr other ↦ elim (Bool-cases (same_bytes l plus)) [
        | inl single ↦
            rw (other, single, same_bytes_sound l plus single)
              (omega (
                arith,
                children_but_plus q cs own fs,
                tally_in_branch q fs (remove_recursive ls) (remove_recursive-is_empty ls) p below
                    (tally-remove_recursive ls (behind plus q)),
              ))
        | inr exact ↦
            rw (other, exact)
              (omega (
                arith,
                multi_kept q l fs hs other,
                plus_kept q l fs p exact,
                children_but q cs own l fs,
                tally_in_child q fs (remove_recursive ls) (remove_recursive-is_empty ls) l
                    (child l cs) cs refl (child-IsBranch l cs own)
                    (tally-remove_recursive ls (behind l q)),
              ))
      ]
    ]

module _ (k : List ℕ) where
  child-remove_child-other :
      (j : List ℕ) (cs : Children) → child j cs ≡ absent → child j (remove_child k cs) ≡ absent
  unfolding child remove_child
  child-remove_child-other j nil free = refl
  child-remove_child-other j (entry i m cs) free = ground (arith, child-remove_child-other j cs)

  remove_child-AreChildren : (cs : Children) → AreChildren cs → AreChildren (remove_child k cs)
  unfolding remove_child IsTrie
  remove_child-AreChildren nil ok = tt
  remove_child-AreChildren (entry j m cs) (own, once, below, others) =
      elim (Bool-cases (same_bytes k j)) [
        | inl here ↦ rw here others
        | inr later ↦
            rw later
              (own, child-remove_child-other j cs once, below, remove_child-AreChildren cs others)
      ]

prune_branch-IsBranch : (r : TrieNode × Bool) → IsTrie r.0 → IsBranch (prune_branch r)
unfolding IsTrie
prune_branch-IsBranch (n, true) ok = tt
prune_branch-IsBranch (n, false) ok = ok

prune_child-AreChildren :
    (k : List ℕ) (r : TrieNode × Bool) (cs : Children)
    → IsPlain k
    → IsTrie r.0
    → AreChildren cs
    → AreChildren (prune_child k r cs)
prune_child-AreChildren k (n, true) cs plain ok own = remove_child-AreChildren k cs own
prune_child-AreChildren k (n, false) cs plain ok own = put_child-AreChildren k plain n cs ok own

module _ (below : TrieNode → TrieNode × Bool)
    (keeps : (n : TrieNode) → IsTrie n → IsTrie (below n).0) where
  remove_in_branch-IsBranch : (p : Branch) → IsBranch p → IsBranch (remove_in_branch below p)
  unfolding IsTrie
  remove_in_branch-IsBranch absent ok = tt
  remove_in_branch-IsBranch (present n) ok = prune_branch-IsBranch (below n) (keeps n ok)

  remove_in_child-AreChildren :
      (k : List ℕ) (b : Branch) (cs : Children)
      → IsPlain k
      → IsBranch b
      → AreChildren cs
      → AreChildren (remove_in_child k below b cs)
  unfolding IsTrie
  remove_in_child-AreChildren k absent cs plain ok own = own
  remove_in_child-AreChildren k (present n) cs plain ok own =
      prune_child-AreChildren k (below n) cs plain (keeps n ok) own

pub remove_recursive-IsTrie :
    (ls : List (List ℕ)) (n : TrieNode) → IsTrie n → IsTrie (remove_recursive ls n).0
unfolding remove_recursive IsTrie
remove_recursive-IsTrie [] (node cs p hs es) ok = ok
remove_recursive-IsTrie (l ∷ ls) (node cs p hs es) (own, below) =
    elim (Bool-cases (same_bytes l hash)) [
      | inl multi ↦ rw multi (own, below)
      | inr other ↦ elim (Bool-cases (same_bytes l plus)) [
        | inl single ↦
            rw (other, single)
              (
                own,
                remove_in_branch-IsBranch (remove_recursive ls) (remove_recursive-IsTrie ls) p
                    below,
              )
        | inr exact ↦
            rw (other, exact)
              (
                remove_in_child-AreChildren (remove_recursive ls) (remove_recursive-IsTrie ls) l
                    (child l cs) cs (other, exact) (child-IsBranch l cs own) own,
                below,
              )
      ]
    ]
