-- ===== src/Router/Tally/Subscriptions.antt =====
-- The router as a list of subscriptions, and the calls of the trie and of the list.
use mqtt_async_embedded.Prelude.{ℕ, Bool, true, false, not, List, [], ◌∷◌, ◌++◌, if◌then◌else◌}
use mqtt_async_embedded.ClientTypes.{PublishMessage, ClientResult, accepted, refused}
use mqtt_async_embedded.Topics.{split_levels, validate_topic_filter}
use mqtt_async_embedded.Router.{TopicRouter, insert, remove, dispatch}
use mqtt_async_embedded.Router.Tally.Remove.{same_levels}
use mqtt_async_embedded.Router.Tally.Dispatch.{matches}

-- A filter, as its levels, and the channel that is subscribed to it.
abbrev pub Subscription : Type 0
Subscription = List (List ℕ) × ℕ

abbrev pub keep : (Subscription → Bool) → List Subscription → List Subscription
keep p [] = []
keep p (s ∷ ss) = let rest = keep p ss in if p s then s ∷ rest else rest

abbrev pub channels : List Subscription → List ℕ
channels [] = []
channels ((fs, c) ∷ ss) = c ∷ channels ss

-- What a caller does with the router.
pub data Call : Type 0 where
  subscribe : List ℕ → ℕ → Call
  unsubscribe : List ℕ → Call
  publish : (ℕ → Bool) → PublishMessage → Call

-- The calls on the router: the channels that are sent on, call by call.
unfoldable pub run_call : Call → TopicRouter → TopicRouter × List ℕ
run_call (subscribe filter sender) r = ((insert filter sender r).1, [])
run_call (unsubscribe filter) r = ((remove filter r).1, [])
run_call (publish is_closed message) r = dispatch is_closed message r

unfoldable pub run : List Call → TopicRouter → List ℕ
run [] r = []
run (c ∷ cs) r = (run_call c r).1 ++ run cs (run_call c r).0

-- A subscription that a message reaches, and one that stays after it.
abbrev pub is_reached : (ℕ → Bool) → List (List ℕ) → Subscription → Bool
is_reached is_closed ts (fs, c) = if matches fs ts then not (is_closed c) else false

abbrev pub is_left : (ℕ → Bool) → List (List ℕ) → Subscription → Bool
is_left is_closed ts (fs, c) = if matches fs ts then not (is_closed c) else true

abbrev pub if_valid :
    ClientResult (Unit {0}) → List Subscription → List Subscription → List Subscription
if_valid (accepted u) changed ss = changed
if_valid (refused e) changed ss = ss

-- The same calls on the list of subscriptions.
abbrev pub spec_call : Call → List Subscription → List Subscription × List ℕ
spec_call (subscribe filter sender) ss =
    (if_valid (validate_topic_filter filter) ((split_levels filter, sender) ∷ ss) ss, [])
spec_call (unsubscribe filter) ss = (
  if_valid (validate_topic_filter filter)
      (keep (λ s. not (same_levels (split_levels filter) s.0)) ss) ss,
  [],
)
spec_call (publish is_closed message) ss =
    let ts = split_levels (PublishMessage.topic message) in
    (keep (is_left is_closed ts) ss, channels (keep (is_reached is_closed ts) ss))

unfoldable pub spec_run : List Call → List Subscription → List ℕ
spec_run [] ss = []
spec_run (c ∷ cs) ss = (spec_call c ss).1 ++ spec_run cs (spec_call c ss).0
