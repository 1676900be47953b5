-- ===== src/Router/Tally/Dispatch.antt =====
-- `match_and_dispatch` against the matching of a topic by a filter: which channels are sent on, and
-- which registrations stay.
use mqtt_async_embedded.Prelude.{
  ℕ, ◌≡◌, refl, ◌∙◌, Bool, true, false, List, [], ◌∷◌, ◌++◌, arith, if◌then◌else◌, Bool-cases, inl,
  inr,
}
use mqtt_async_embedded.Bytes.{same_bytes, same_bytes_sound, same_bytes_refl, same_bytes_comm}
use mqtt_async_embedded.Slots.{count}
use mqtt_async_embedded.Slots.Counting.{count-append}
use mqtt_async_embedded.Topics.{hash, plus}
use mqtt_async_embedded.Router.{
  TrieNode, node, Children, nil, entry, Branch, absent, present, child, keep_open, dispatch_branch,
  dispatch_child, match_and_dispatch,
}
use mqtt_async_embedded.Router.Tally.{
  Wanted, behind, tally, tally_children, tally_branch, IsPlain, IsTrie, AreChildren, IsBranch,
  tally-agree, tally_children-agree, tally-elsewhere,
}
use mqtt_async_embedded.Router.Tally.Insert.{child-IsBranch}

-- Whether a filter, as its levels, matches the levels of a topic (MQTT 5, section 4.7.1).
unfoldable pub matches : List (List ℕ) → List (List ℕ) → Bool
matches [] [] = true
matches [] (t ∷ ts) = false
matches (f ∷ fs) [] = same_bytes f hash
matches (f ∷ fs) (t ∷ ts) =
    let rest = matches fs ts in
    if same_bytes f hash
    then true
    else if same_bytes f plus
    then rest
    else if same_bytes f t
    then rest
    else false

abbrev pub nothing : Wanted
nothing ls c = false

-- The open channels with a property, and the registrations of such that match the topic.
abbrev pub open_only : (ℕ → Bool) → (ℕ → Bool) → ℕ → Bool
open_only is_closed w c = if is_closed c then false else w c

abbrev pub reached : (ℕ → Bool) → (ℕ → Bool) → List (List ℕ) → Wanted
reached is_closed w ts = λ ls c. if matches ls ts then open_only is_closed w c else false

pub count-keep_open :
    (is_closed w : ℕ → Bool) (ss : List ℕ)
    → count w (keep_open is_closed ss) ≡ count (open_only is_closed w) ss
unfolding count keep_open
count-keep_open is_closed w [] = refl
count-keep_open is_closed w (s ∷ ss) = ground (arith, count-keep_open is_closed w ss)

pub count_nothing : (ss : List ℕ) → count (λ c. false) ss ≡ 0
unfolding count
count_nothing [] = refl
count_nothing (s ∷ ss) = count_nothing ss

mutual
  unfolding tally

  tally-nothing : (n : TrieNode) → tally nothing n ≡ 0
  tally-nothing (node cs p hs es) =
      omega (arith, count_nothing hs, count_nothing es, children_nothing cs, branch_nothing p)

  pub children_nothing : (cs : Children) → tally_children nothing cs ≡ 0
  children_nothing nil = refl
  children_nothing (entry k n cs) = omega (arith, tally-nothing n, children_nothing cs)

  pub branch_nothing : (p : Branch) → tally_branch nothing p ≡ 0
  branch_nothing absent = refl
  branch_nothing (present n) = tally-nothing n

-- Only levels that are no wildcards are found in a map of children.
pub found-IsPlain :
    (k : List ℕ) (n : TrieNode) (cs : Children)
    → AreChildren cs
    → child k cs ≡ present n
    → IsPlain k
unfolding IsTrie child
found-IsPlain k n nil ok found = cc
found-IsPlain k n (entry j m cs) (own, once, below, others) found =
    elim (Bool-cases (same_bytes k j)) [
      | inl here ↦ rw (same_bytes_sound k j here) own
      | inr later ↦ found-IsPlain k n cs others (rw later at found)
    ]

pub matches-plain :
    (k t : List ℕ) (fs ts : List (List ℕ))
    → IsPlain k
    → matches (k ∷ fs) (t ∷ ts) ≡ (if same_bytes k t then matches fs ts else false)
unfolding matches
matches-plain k t fs ts (multi, single) = rw (multi, single) refl

pub matches-other :
    (j t : List ℕ) (fs ts : List (List ℕ))
    → IsPlain j
    → same_bytes t j ≡ false
    → matches (j ∷ fs) (t ∷ ts) ≡ false
matches-other j t fs ts plain apart =
    matches-plain j t fs ts plain ∙ rw (same_bytes_comm j t ∙ apart) refl

pub matches-same :
    (t : List ℕ) (fs ts : List (List ℕ)) → IsPlain t → matches (t ∷ fs) (t ∷ ts) ≡ matches fs ts
matches-same t fs ts plain = matches-plain t t fs ts plain ∙ rw (same_bytes_refl t) refl

module _ (is_closed w : ℕ → Bool) where
  sends_below :
      (t : List ℕ) (ts : List (List ℕ)) (below : TrieNode → TrieNode × List ℕ) (b : Branch)
      (cs : Children)
      → child t cs ≡ b
      → AreChildren cs
      → IsBranch b
      → ((n : TrieNode) → IsTrie n → count w (below n).1 ≡ tally (reached is_closed w ts) n)
      → count w (dispatch_child t below b cs).1
        ≡ tally_branch (behind t (reached is_closed w (t ∷ ts))) b
  unfolding tally IsTrie count
  sends_below t ts below absent cs found own ok h = refl
  sends_below t ts below (present n) cs found own ok h =
      let plain = found-IsPlain t n cs own found in
      h n ok
      ∙ tally-agree (reached is_closed w ts) (behind t (reached is_closed w (t ∷ ts))) n
          (λ ls c. rw (matches-same t ls ts plain) refl)

  sends_in_branch :
      (ts : List (List ℕ)) (below : TrieNode → TrieNode × List ℕ) (p : Branch)
      → IsBranch p
      → ((n : TrieNode) → IsTrie n → count w (below n).1 ≡ tally (reached is_closed w ts) n)
      → count w (dispatch_branch below p).1 ≡ tally_branch (reached is_closed w ts) p
  unfolding tally IsTrie count
  sends_in_branch ts below absent ok h = refl
  sends_in_branch ts below (present n) ok h = h n ok

  -- Only the child of the topic's level can match.
  reached_children :
      (t : List ℕ) (ts : List (List ℕ)) (cs : Children)
      → AreChildren cs
      → tally_children (reached is_closed w (t ∷ ts)) cs
        ≡ tally_branch (behind t (reached is_closed w (t ∷ ts))) (child t cs)
  reached_children t ts cs own =
      let apart =
        tally-elsewhere (reached is_closed w (t ∷ ts)) nothing t cs
          (λ j ls c plain differs. rw (matches-other j t ls ts plain differs) refl) own in
      omega (arith, apart, children_nothing cs, branch_nothing (child t cs))

  -- The channels that are sent on are the open ones that are registered under a filter that
  -- matches, each as often as it is registered.
  pub dispatch_sends :
      (ts : List (List ℕ)) (n : TrieNode)
      → IsTrie n
      → count w (match_and_dispatch is_closed ts n).1 ≡ tally (reached is_closed w ts) n
  unfolding match_and_dispatch tally IsTrie matches same_bytes
  dispatch_sends [] (node cs p hs es) (own, below) = omega (
    arith,
    count-append w (keep_open is_closed hs) (keep_open is_closed es),
    count-keep_open is_closed w hs,
    count-keep_open is_closed w es,
    tally_children-agree (reached is_closed w []) nothing cs (λ j ls c plain. rw (plain.0) refl)
        own,
    children_nothing cs,
    branch_nothing p,
  )
  dispatch_sends (t ∷ ts) (node cs p hs es) (own, below) =
      let below_sends = dispatch_sends ts in
      let exact = dispatch_child t (match_and_dispatch is_closed ts) (child t cs) cs in
      let single = dispatch_branch (match_and_dispatch is_closed ts) p in
      omega (
        arith,
        count-append w (keep_open is_closed hs) (exact.1 ++ single.1),
        count-append w (exact.1) (single.1),
        count-keep_open is_closed w hs,
        count_nothing es,
        reached_children t ts cs own,
        sends_below t ts (match_and_dispatch is_closed ts) (child t cs) cs refl own
            (child-IsBranch t cs own) below_sends,
        sends_in_branch ts (match_and_dispatch is_closed ts) p below below_sends,
      )
