-- ===== src/Examples/Tables.antt =====
-- The tables of messages in flight on concrete calls.
use mqtt_async_embedded.Prelude.{◌≡◌, refl, List, [], ◌∷◌, length}
use mqtt_async_embedded.Types.{at_least_once, exactly_once}
use mqtt_async_embedded.Slots.{any, count}
use mqtt_async_embedded.Inflight.{InflightQueue, new, has_collision, push}
use mqtt_async_embedded.Inflight.Laws.{tracked, IsInflight}
use mqtt_async_embedded.Inflight.Runs.{
  Call, push_call, acknowledge_call, mark_call, after, perform, after-IsInflight,
}

-- A table of two entries, and what is in it.
abbrev two_calls : List Call
two_calls = push_call 6 exactly_once ∷ push_call 5 at_least_once ∷ []

abbrev two : InflightQueue
two = after 2 two_calls

two-IsInflight : IsInflight 2 two
two-IsInflight = after-IsInflight 2 two_calls

two_six : tracked two 6 ≡ 1
unfolding after perform push has_collision any count new
two_six = refl

two_seven : tracked two 7 ≡ 0
unfolding after perform push has_collision any count new
two_seven = refl

two-length : length (InflightQueue.entries two) ≡ 2
unfolding after perform push has_collision any new
two-length = refl

-- A message is pushed twice, marked and acknowledged.
abbrev some_calls : List Call
some_calls =
    acknowledge_call 5 ∷ mark_call 5 ∷ push_call 5 at_least_once ∷ push_call 5 exactly_once ∷ []

after-IsInflight_example : IsInflight 1 (after 1 some_calls)
after-IsInflight_example = after-IsInflight 1 some_calls

abbrev one : InflightQueue
one = after 2 (push_call 5 at_least_once ∷ [])

one-length : length (InflightQueue.entries one) ≡ 1
unfolding after perform push has_collision any new
one-length = refl

one_free : tracked one 6 ≡ 0
unfolding after perform push has_collision any count new
one_free = refl
