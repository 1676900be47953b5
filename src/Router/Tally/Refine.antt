-- ===== src/Router/Tally/Refine.antt =====
-- The trie does what the list of subscriptions does, over every sequence of calls.
use mqtt_async_embedded.Prelude.{
  ℕ, ◌≡◌, refl, sym, ◌∙◌, Bool, true, false, not, List, [], ◌∷◌, arith, if◌then◌else◌, Bool-cases,
  inl, inr,
}
use mqtt_async_embedded.Bytes.{same_bytes, same_bytes_sound}
use mqtt_async_embedded.Slots.{count}
use mqtt_async_embedded.Slots.Counting.{count-append}
use mqtt_async_embedded.ClientTypes.{PublishMessage, accepted, ClientResult-cases}
use mqtt_async_embedded.Topics.{hash, is_nil, split_levels, check_levels, validate_topic_filter}
use mqtt_async_embedded.Topics.Wildcards.{check_level-last, check_level-rest}
use mqtt_async_embedded.Router.{
  TopicRouter, new_router, insert_levels, remove_recursive, match_and_dispatch, insert, remove,
  dispatch,
}
use mqtt_async_embedded.Router.Tally.{Wanted, tally, IsTrie}
use mqtt_async_embedded.Router.Tally.Insert.{up_to_hash, tally-insert_levels, insert_levels-IsTrie}
use mqtt_async_embedded.Router.Tally.Remove.{
  same_levels, but_filter, tally-remove_recursive, remove_recursive-IsTrie,
}
use mqtt_async_embedded.Router.Tally.Dispatch.{reached, dispatch_sends}
use mqtt_async_embedded.Router.Tally.Drops.{left, dispatch_keeps, match_and_dispatch-IsTrie}
use mqtt_async_embedded.Router.Tally.Subscriptions.{
  Subscription, keep, channels, Call, subscribe, unsubscribe, publish, run_call, run, is_reached,
  is_left, spec_call, spec_run,
}

abbrev pub on_subscription : Wanted → Subscription → Bool
on_subscription q s = q s.0 s.1

-- A trie that holds exactly the subscriptions, each as often.
pub record Holds (r : TopicRouter) (ss : List Subscription) : Type 0 where
  pub well_formed : IsTrie r
  pub same : (q : Wanted) → tally q r ≡ count (on_subscription q) ss

count-keep :
    (q r : Subscription → Bool) (ss : List Subscription)
    → count q (keep r ss) ≡ count (λ s. if r s then q s else false) ss
unfolding count
count-keep q r [] = refl
count-keep q r (s ∷ ss) = ground (arith, count-keep q r ss)

count-channels :
    (w : ℕ → Bool) (ss : List Subscription) → count w (channels ss) ≡ count (λ s. w s.1) ss
unfolding count
count-channels w [] = refl
count-channels w ((fs, c) ∷ ss) = ground (arith, count-channels w ss)

count-agree :
    (q r : Subscription → Bool) (ss : List Subscription)
    → ((s : Subscription) → q s ≡ r s)
    → count q ss ≡ count r ss
unfolding count
count-agree q r [] h = refl
count-agree q r (s ∷ ss) h = ground (arith, h s, count-agree q r ss h)

-- A filter that the validator accepts has "#" at its end only.
check_levels-up_to_hash : (ls : List (List ℕ)) → check_levels ls ≡ accepted tt → up_to_hash ls ≡ ls
unfolding check_levels up_to_hash
check_levels-up_to_hash [] h = refl
check_levels-up_to_hash (l ∷ ls) h = elim (Bool-cases (same_bytes l hash)) [
  | inl multi ↦
      rw (multi, same_bytes_sound l hash multi)
        (only_level ls (check_level-last l ls (check_levels ls) h multi))
  | inr other ↦
      rw (other, check_levels-up_to_hash ls (check_level-rest l ls (check_levels ls) h other)) refl
]
  where
    only_level : (ls : List (List ℕ)) → is_nil ls ≡ true → hash ∷ [] ≡ hash ∷ ls
    only_level [] h = refl
    only_level (m ∷ ls) h = cc

accepted_levels :
    (filter : List ℕ)
    → validate_topic_filter filter ≡ accepted tt
    → up_to_hash (split_levels filter) ≡ split_levels filter
unfolding validate_topic_filter
accepted_levels filter h = check_levels-up_to_hash (split_levels filter) (ground arith)

insert_levels-Holds :
    (ls : List (List ℕ)) (sender : ℕ) (r : TopicRouter) (ss : List Subscription)
    → up_to_hash ls ≡ ls
    → Holds r ss
    → Holds (insert_levels ls sender r) ((ls, sender) ∷ ss)
unfolding count
insert_levels-Holds ls sender r ss whole ok = record {
  well_formed = insert_levels-IsTrie ls sender r (Holds.well_formed ok);
  same = λ q. tally-insert_levels ls sender q r ∙ rw (Holds.same ok q, whole) (ground arith);
}

remove_recursive-Holds :
    (ls : List (List ℕ)) (r : TopicRouter) (ss : List Subscription)
    → up_to_hash ls ≡ ls
    → Holds r ss
    → Holds (remove_recursive ls r).0 (keep (λ s. not (same_levels ls s.0)) ss)
remove_recursive-Holds ls r ss whole ok = record {
  well_formed = remove_recursive-IsTrie ls r (Holds.well_formed ok);
  same = λ q.
      tally-remove_recursive ls q r (Holds.well_formed ok)
      ∙ rw whole (Holds.same ok (but_filter ls q))
      ∙ count-agree (on_subscription (but_filter ls q))
          (λ s. if not (same_levels ls s.0) then q s.0 s.1 else false) ss (λ s. ground arith)
      ∙ sym (count-keep (on_subscription q) (λ s. not (same_levels ls s.0)) ss);
}

match_and_dispatch-Holds :
    (is_closed : ℕ → Bool) (ts : List (List ℕ)) (r : TopicRouter) (ss : List Subscription)
    → Holds r ss
    → Holds (match_and_dispatch is_closed ts r).0 (keep (is_left is_closed ts) ss)
match_and_dispatch-Holds is_closed ts r ss ok = record {
  well_formed = match_and_dispatch-IsTrie is_closed ts r (Holds.well_formed ok);
  same = λ q.
      dispatch_keeps is_closed q ts r (Holds.well_formed ok)
      ∙ Holds.same ok (left is_closed ts q)
      ∙ count-agree (on_subscription (left is_closed ts q))
          (λ s. if is_left is_closed ts s then q s.0 s.1 else false) ss (λ s. ground arith)
      ∙ sym (count-keep (on_subscription q) (is_left is_closed ts) ss);
}

match_and_dispatch-sends :
    (is_closed w : ℕ → Bool) (ts : List (List ℕ)) (r : TopicRouter) (ss : List Subscription)
    → Holds r ss
    → count w (match_and_dispatch is_closed ts r).1
      ≡ count w (channels (keep (is_reached is_closed ts) ss))
match_and_dispatch-sends is_closed w ts r ss ok =
    dispatch_sends is_closed w ts r (Holds.well_formed ok)
    ∙ Holds.same ok (reached is_closed w ts)
    ∙ count-agree (on_subscription (reached is_closed w ts))
        (λ s. if is_reached is_closed ts s then w s.1 else false) ss (λ s. ground arith)
    ∙ sym (count-keep (λ s. w s.1) (is_reached is_closed ts) ss)
    ∙ sym (count-channels w (keep (is_reached is_closed ts) ss))

-- Each call keeps the trie and the list together.
pub run_call-Holds :
    (call : Call) (r : TopicRouter) (ss : List Subscription)
    → Holds r ss
    → Holds (run_call call r).0 (spec_call call ss).0
unfolding run_call insert remove dispatch
run_call-Holds (subscribe filter sender) r ss ok =
    elim (ClientResult-cases (validate_topic_filter filter)) [
      | inl fine ↦
          rw (fine, run_call, insert)
            (insert_levels-Holds (split_levels filter) sender r ss (accepted_levels filter fine) ok)
      | inr (e, bad) ↦ rw (bad, run_call, insert) ok
    ]
run_call-Holds (unsubscribe filter) r ss ok =
    elim (ClientResult-cases (validate_topic_filter filter)) [
      | inl fine ↦
          rw (fine, run_call, remove)
            (remove_recursive-Holds (split_levels filter) r ss (accepted_levels filter fine) ok)
      | inr (e, bad) ↦ rw (bad, run_call, remove) ok
    ]
run_call-Holds (publish is_closed message) r ss ok =
    match_and_dispatch-Holds is_closed (split_levels (PublishMessage.topic message)) r ss ok

run_call-sends :
    (w : ℕ → Bool) (call : Call) (r : TopicRouter) (ss : List Subscription)
    → Holds r ss
    → count w (run_call call r).1 ≡ count w (spec_call call ss).1
unfolding run_call dispatch
run_call-sends w (subscribe filter sender) r ss ok = refl
run_call-sends w (unsubscribe filter) r ss ok = refl
run_call-sends w (publish is_closed message) r ss ok =
    match_and_dispatch-sends is_closed w (split_levels (PublishMessage.topic message)) r ss ok

run-Holds :
    (calls : List Call) (w : ℕ → Bool) (r : TopicRouter) (ss : List Subscription)
    → Holds r ss
    → count w (run calls r) ≡ count w (spec_run calls ss)
unfolding run spec_run
run-Holds [] w r ss ok = refl
run-Holds (call ∷ calls) w r ss ok = omega (
  arith,
  count-append w (run_call call r).1 (run calls (run_call call r).0),
  count-append w (spec_call call ss).1 (spec_run calls (spec_call call ss).0),
  run_call-sends w call r ss ok,
  run-Holds calls w (run_call call r).0 (spec_call call ss).0 (run_call-Holds call r ss ok),
)

new_router-Holds : Holds new_router []
unfolding new_router tally IsTrie count
new_router-Holds = record { well_formed = (tt, tt); same = λ q. refl }

-- Over every sequence of calls on a new router, the trie sends on the same channels, each as often,
-- as a plain list of subscriptions does: a message goes once for each subscription whose filter
-- matches its topic and whose channel is open. A subscription is there from a subscribe with a valid
-- filter until an unsubscribe of the filter, or until its channel is found closed by a message that
-- matches it.
pub run-spec_run :
    (calls : List Call) (w : ℕ → Bool)
    → count w (run calls new_router) ≡ count w (spec_run calls [])
run-spec_run calls w = run-Holds calls w new_router [] new_router-Holds
