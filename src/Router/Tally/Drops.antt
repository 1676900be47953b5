-- ===== src/Router/Tally/Drops.antt =====
-- `match_and_dispatch` on the registrations that stay, and on the invariant.
use mqtt_async_embedded.Prelude.{ℕ, ◌≡◌, refl, ap, Bool, List, [], ◌∷◌, arith, if◌then◌else◌}
use mqtt_async_embedded.Bytes.{same_bytes}
use mqtt_async_embedded.Topics.{hash, plus}
use mqtt_async_embedded.Router.{
  TrieNode, node, Children, Branch, absent, present, child, dispatch_branch, dispatch_child,
  match_and_dispatch,
}
use mqtt_async_embedded.Router.Tally.{
  Wanted, behind, tally, tally_children, tally_branch, IsTrie, AreChildren, IsBranch,
  tally-put_child, tally-agree, tally_children-agree, tally-elsewhere,
}
use mqtt_async_embedded.Router.Tally.Insert.{child-IsBranch, put_child-AreChildren}
use mqtt_async_embedded.Router.Tally.Dispatch.{
  matches, open_only, count-keep_open, found-IsPlain, matches-other, matches-same,
}

-- The registrations with a property that a dispatch leaves: a closed channel whose filter matches
-- is dropped.
abbrev pub left : (ℕ → Bool) → List (List ℕ) → Wanted → Wanted
left is_closed ts q = λ ls c. if matches ls ts then open_only is_closed (q ls) c else q ls c

module _ (is_closed : ℕ → Bool) (q : Wanted) where
  kept_below :
      (t : List ℕ) (ts : List (List ℕ)) (below : TrieNode → TrieNode × List ℕ) (b : Branch)
      (cs : Children)
      → child t cs ≡ b
      → AreChildren cs
      → IsBranch b
      → ((n : TrieNode)
          → IsTrie n
          → tally (behind t q) (below n).0 ≡ tally (left is_closed ts (behind t q)) n)
      → tally_children q (dispatch_child t below b cs).0
        ≡ tally_children (left is_closed (t ∷ ts) q) cs
  unfolding tally IsTrie
  kept_below t ts below absent cs found own ok h =
      let apart =
        tally-elsewhere q (left is_closed (t ∷ ts) q) t cs
          (λ j ls c plain differs. rw (matches-other j t ls ts plain differs) refl) own in
      let gone : child t cs ≡ absent = found in
      omega (
        arith,
        apart,
        ap (tally_branch (behind t q)) gone,
        ap (tally_branch (behind t (left is_closed (t ∷ ts) q))) gone,
      )
  kept_below t ts below (present n) cs found own ok h =
      let plain = found-IsPlain t n cs own found in
      let apart =
        tally-elsewhere q (left is_closed (t ∷ ts) q) t cs
          (λ j ls c plain differs. rw (matches-other j t ls ts plain differs) refl) own in
      omega (
        arith,
        apart,
        tally-put_child q t (below n).0 cs,
        ap (tally_branch (behind t q)) found,
        ap (tally_branch (behind t (left is_closed (t ∷ ts) q))) found,
        h n ok,
        tally-agree (left is_closed ts (behind t q)) (behind t (left is_closed (t ∷ ts) q)) n
            (λ ls c. rw (matches-same t ls ts plain) refl),
      )

  kept_in_branch :
      (ts : List (List ℕ)) (below : TrieNode → TrieNode × List ℕ) (p : Branch)
      → IsBranch p
      → ((n : TrieNode) → IsTrie n → tally q (below n).0 ≡ tally (left is_closed ts q) n)
      → tally_branch q (dispatch_branch below p).0 ≡ tally_branch (left is_closed ts q) p
  unfolding tally IsTrie
  kept_in_branch ts below absent ok h = refl
  kept_in_branch ts below (present n) ok h = h n ok

-- The registrations that stay are all but those of a closed channel under a filter that matches.
pub dispatch_keeps :
    (is_closed : ℕ → Bool) (q : Wanted) (ts : List (List ℕ)) (n : TrieNode)
    → IsTrie n
    → tally q (match_and_dispatch is_closed ts n).0 ≡ tally (left is_closed ts q) n
unfolding match_and_dispatch tally IsTrie matches same_bytes
dispatch_keeps is_closed q [] (node cs p hs es) (own, below) = omega (
  arith,
  count-keep_open is_closed (q (hash ∷ [])) hs,
  count-keep_open is_closed (q []) es,
  tally_children-agree q (left is_closed [] q) cs (λ j ls c plain. rw (plain.0) refl) own,
)
dispatch_keeps is_closed q (t ∷ ts) (node cs p hs es) (own, below) = omega (
  arith,
  count-keep_open is_closed (q (hash ∷ [])) hs,
  kept_below is_closed q t ts (match_and_dispatch is_closed ts) (child t cs) cs refl own
      (child-IsBranch t cs own) (dispatch_keeps is_closed (behind t q) ts),
  kept_in_branch is_closed (behind plus q) ts (match_and_dispatch is_closed ts) p below
      (dispatch_keeps is_closed (behind plus q) ts),
)

module _ (below : TrieNode → TrieNode × List ℕ)
    (keeps : (n : TrieNode) → IsTrie n → IsTrie (below n).0) where
  dispatch_branch-IsBranch : (p : Branch) → IsBranch p → IsBranch (dispatch_branch below p).0
  unfolding IsTrie
  dispatch_branch-IsBranch absent ok = tt
  dispatch_branch-IsBranch (present n) ok = keeps n ok

  dispatch_child-AreChildren :
      (t : List ℕ) (b : Branch) (cs : Children)
      → child t cs ≡ b
      → IsBranch b
      → AreChildren cs
      → AreChildren (dispatch_child t below b cs).0
  unfolding IsTrie
  dispatch_child-AreChildren t absent cs found ok own = own
  dispatch_child-AreChildren t (present n) cs found ok own =
      put_child-AreChildren t (found-IsPlain t n cs own found) (below n).0 cs (keeps n ok) own

pub match_and_dispatch-IsTrie :
    (is_closed : ℕ → Bool) (ts : List (List ℕ)) (n : TrieNode)
    → IsTrie n
    → IsTrie (match_and_dispatch is_closed ts n).0
unfolding match_and_dispatch IsTrie
match_and_dispatch-IsTrie is_closed [] (node cs p hs es) ok = ok
match_and_dispatch-IsTrie is_closed (t ∷ ts) (node cs p hs es) (own, below) =
    let ih = match_and_dispatch-IsTrie is_closed ts in
    (
      dispatch_child-AreChildren (match_and_dispatch is_closed ts) ih t (child t cs) cs refl
          (child-IsBranch t cs own) own,
      dispatch_branch-IsBranch (match_and_dispatch is_closed ts) ih p below,
    )
