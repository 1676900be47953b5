-- ===== src/Router.antt =====
-- crates/mqtt-tokio/src/router.rs, lines 69 to 216: the trie of subscriptions. A channel is a
-- number; whether it is closed is a function, an argument of `dispatch`. `sent` lists the channels
-- on which `try_send` is called with a copy of the message, in order: the answer of `try_send` is
-- ignored by the code. A `HashMap` is a list of entries, of which the first one of a key counts.
pub mod Tally
use mqtt_async_embedded.Prelude.{
  ℕ, Bool, true, false, not, ◌&&◌, Option, none, some, List, [], ◌∷◌, ◌++◌, if◌then◌else◌,
}
use mqtt_async_embedded.Bytes.{same_bytes}
use mqtt_async_embedded.ClientTypes.{PublishMessage, ClientResult, accepted, refused}
use mqtt_async_embedded.Topics.{hash, plus, is_nil, split_levels, validate_topic_filter}

mutual
  pub data TrieNode : Type 0 where
    node : Children → Branch → List ℕ → List ℕ → TrieNode

  -- `HashMap<String, TrieNode>`
  pub data Children : Type 0 where
    nil : Children
    entry : List ℕ → TrieNode → Children → Children

  -- `Option<Box<TrieNode>>`
  pub data Branch : Type 0 where
    absent : Branch
    present : TrieNode → Branch

-- `TrieNode::default()`
abbrev pub default : TrieNode
default = node nil absent [] []

-- `TopicRouter`, which has no other field than its root, and `TopicRouter::new`
abbrev pub TopicRouter : Type 0
TopicRouter = TrieNode

unfoldable pub new_router : TopicRouter
new_router = default

abbrev pub no_children : Children → Bool
no_children nil = true
no_children (entry k n cs) = false

abbrev pub is_absent : Branch → Bool
is_absent absent = true
is_absent (present n) = false

unfoldable pub is_empty : TrieNode → Bool
is_empty (node cs p hs es) = no_children cs && is_absent p && is_nil hs && is_nil es

-- `map.get_mut(key)`
unfoldable pub child : List ℕ → Children → Branch
child key nil = absent
child key (entry k n cs) = let rest = child key cs in if same_bytes key k then present n else rest

-- the map with another value for the key
unfoldable pub put_child : List ℕ → TrieNode → Children → Children
put_child key n nil = entry key n nil
put_child key n (entry k m cs) =
    let rest = put_child key n cs in if same_bytes key k then entry k n cs else entry k m rest

-- `map.remove(key)`
unfoldable pub remove_child : List ℕ → Children → Children
remove_child key nil = nil
remove_child key (entry k m cs) =
    let rest = remove_child key cs in if same_bytes key k then cs else entry k m rest

-- `or_default()`
abbrev pub or_default : Branch → TrieNode
or_default absent = default
or_default (present n) = n

-- The loop over the levels of a filter. After the last one the code pushes the sender on the node
-- that it has reached; `split` gives no empty list.
unfoldable pub insert_levels : List (List ℕ) → ℕ → TrieNode → TrieNode
insert_levels [] sender (node cs p hs es) = node cs p hs (es ++ (sender ∷ []))
insert_levels (level ∷ later) sender (node cs p hs es) =
    let below = insert_levels later sender in
    if same_bytes level hash
    then node cs p (hs ++ (sender ∷ [])) es
    else if same_bytes level plus
    then node cs (present (below (or_default p))) hs es
    else node (put_child level (below (or_default (child level cs))) cs) p hs es

unfoldable pub insert : List ℕ → ℕ → TopicRouter → ClientResult (Unit {0}) × TopicRouter
insert filter sender root = elim (validate_topic_filter filter) [
  | refused e ↦ (refused e, root)
  | accepted u ↦ (accepted tt, insert_levels (split_levels filter) sender root)
]

-- What becomes of a branch when the recursive call has pruned it: `true` drops it.
abbrev pub prune_branch : TrieNode × Bool → Branch
prune_branch (n, true) = absent
prune_branch (n, false) = present n

abbrev pub prune_child : List ℕ → TrieNode × Bool → Children → Children
prune_child level (n, true) cs = remove_child level cs
prune_child level (n, false) cs = put_child level n cs

-- `node.is_empty()`, beside the node
abbrev pub with_emptiness : TrieNode → TrieNode × Bool
with_emptiness n = (n, is_empty n)

abbrev pub remove_in_branch : (TrieNode → TrieNode × Bool) → Branch → Branch
remove_in_branch below absent = absent
remove_in_branch below (present n) = prune_branch (below n)

abbrev pub remove_in_child : List ℕ → (TrieNode → TrieNode × Bool) → Branch → Children → Children
remove_in_child level below absent cs = cs
remove_in_child level below (present n) cs = prune_child level (below n) cs

unfoldable pub remove_recursive : List (List ℕ) → TrieNode → TrieNode × Bool
remove_recursive [] (node cs p hs es) = with_emptiness (node cs p hs [])
remove_recursive (level ∷ later) (node cs p hs es) =
    let below = remove_recursive later in
    if same_bytes level hash
    then with_emptiness (node cs p [] es)
    else if same_bytes level plus
    then with_emptiness (node cs (remove_in_branch below p) hs es)
    else with_emptiness (node (remove_in_child level below (child level cs) cs) p hs es)

unfoldable pub remove : List ℕ → TopicRouter → ClientResult (Unit {0}) × TopicRouter
remove filter root = elim (validate_topic_filter filter) [
  | refused e ↦ (refused e, root)
  | accepted u ↦ (accepted tt, (remove_recursive (split_levels filter) root).0)
]

-- `retain` with the closure that drops the closed channels and sends on the others: the channels
-- that stay are those that were sent on.
unfoldable pub keep_open : (ℕ → Bool) → List ℕ → List ℕ
keep_open is_closed [] = []
keep_open is_closed (s ∷ ss) =
    let rest = keep_open is_closed ss in if is_closed s then rest else s ∷ rest

abbrev pub dispatch_branch : (TrieNode → TrieNode × List ℕ) → Branch → Branch × List ℕ
dispatch_branch below absent = (absent, [])
dispatch_branch below (present n) = (present (below n).0, (below n).1)

abbrev pub dispatch_child :
    List ℕ → (TrieNode → TrieNode × List ℕ) → Branch → Children → Children × List ℕ
dispatch_child level below absent cs = (cs, [])
dispatch_child level below (present n) cs = (put_child level (below n).0 cs, (below n).1)

unfoldable pub match_and_dispatch : (ℕ → Bool) → List (List ℕ) → TrieNode → TrieNode × List ℕ
match_and_dispatch is_closed [] (node cs p hs es) =
    let hs' = keep_open is_closed hs in
    let es' = keep_open is_closed es in (node cs p hs' es', hs' ++ es')
match_and_dispatch is_closed (level ∷ later) (node cs p hs es) =
    let below = match_and_dispatch is_closed later in
    let hs' = keep_open is_closed hs in
    let (cs', exact_sent) = dispatch_child level below (child level cs) cs in
    let (p', plus_sent) = dispatch_branch below p in
    (node cs' p' hs' es, hs' ++ (exact_sent ++ plus_sent))

unfoldable pub dispatch : (ℕ → Bool) → PublishMessage → TopicRouter → TopicRouter × List ℕ
dispatch is_closed message root =
    match_and_dispatch is_closed (split_levels (PublishMessage.topic message)) root
