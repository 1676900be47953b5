-- ===== src/Examples/Routes.antt =====
-- The router, the checks of topics, the reading of addresses and the offline queue on concrete
-- inputs.
use mqtt_async_embedded.Prelude.{
  ℕ, ◌≡◌, refl, Bool, true, false, not, ◌&&◌, List, [], ◌∷◌, ◌++◌, ◌==◌, arith,
}
use mqtt_async_embedded.Slots.{count}
use mqtt_async_embedded.Bytes.{same_bytes}
use mqtt_async_embedded.ClientTypes.{PublishMessage, new_message}
use mqtt_async_embedded.Topics.{
  contains, is_nil, split_levels, check_level, check_levels, validate_topic_filter,
  validate_publish_topic,
}
use mqtt_async_embedded.Topics.Bytewise.{
  is_accepted, wildcards_fit, validate_topic_filter-wildcards_fit,
}
use mqtt_async_embedded.Router.{
  new_router, is_empty, child, put_child, remove_child, insert_levels, insert, remove_recursive,
  remove, keep_open, match_and_dispatch, dispatch,
}
use mqtt_async_embedded.Router.Tally.Subscriptions.{
  Call, subscribe, unsubscribe, publish, run_call, run, spec_run,
}
use mqtt_async_embedded.Router.Tally.Refine.{run-spec_run}
use mqtt_async_embedded.Options.{client_options, parsed, Features, mqtt_scheme, from_uri}
use mqtt_async_embedded.Options.Address.{in_ascii, from_uri-mqtt_scheme}
use mqtt_async_embedded.Options.{OfflineQueuePolicy, drop_oldest}
use mqtt_async_embedded.OfflineQueue.Kept.{buffer_all, buffer_all-kept}

-- "a/b", "a/+" and "a/#"
abbrev topic : List ℕ
topic = 97 ∷ 47 ∷ 98 ∷ []

abbrev one_level : List ℕ
one_level = 97 ∷ 47 ∷ 43 ∷ []

abbrev all_levels : List ℕ
all_levels = 97 ∷ 47 ∷ 35 ∷ []

abbrev none_closed : ℕ → Bool
none_closed n = false

abbrev second_closed : ℕ → Bool
second_closed n = n == 2

abbrev calls : List Call
calls =
    subscribe one_level 1
    ∷ subscribe all_levels 2
    ∷ publish none_closed (new_message topic [])
    ∷ unsubscribe one_level
    ∷ subscribe topic 3
    ∷ publish second_closed (new_message topic [])
    ∷ publish none_closed (new_message topic [])
    ∷ []

sent : run calls new_router ≡ 2 ∷ 1 ∷ 3 ∷ 3 ∷ []
unfolding run run_call new_router insert insert_levels remove remove_recursive dispatch
    match_and_dispatch keep_open is_empty child put_child remove_child validate_topic_filter
    split_levels contains check_levels check_level same_bytes new_message
sent = refl

run-spec_run_example :
    count second_closed (run calls new_router) ≡ count second_closed (spec_run calls [])
run-spec_run_example = run-spec_run calls second_closed

validate_topic_filter-wildcards_fit_example :
    is_accepted (validate_topic_filter all_levels)
    ≡ (not (is_nil all_levels) && (not (contains all_levels 0) && wildcards_fit true all_levels))
validate_topic_filter-wildcards_fit_example = validate_topic_filter-wildcards_fit all_levels

topic_fits : is_accepted (validate_publish_topic topic) ≡ true
unfolding validate_publish_topic contains
topic_fits = refl

abbrev plain : Features
plain = record { tokio_tls = false; transport_quic = false }

-- "mqtt://ab:1883"
no_colon : contains (97 ∷ 98 ∷ []) b':' ≡ false
unfolding contains
no_colon = refl

from_uri-mqtt_scheme_example :
    from_uri plain (99 ∷ []) (mqtt_scheme ++ (97 ∷ 98 ∷ b':' ∷ in_ascii (1 ∷ 8 ∷ 8 ∷ 3 ∷ [])))
    ≡ parsed (client_options (99 ∷ []) (97 ∷ 98 ∷ []) 1883)
from_uri-mqtt_scheme_example =
    from_uri-mqtt_scheme plain (99 ∷ []) (97 ∷ 98 ∷ []) 1 (8 ∷ 8 ∷ 3 ∷ []) no_colon
      (omega arith, (omega arith, (omega arith, (omega arith, tt))))

abbrev two_newest : OfflineQueuePolicy
two_newest = record { capacity = 2; drop_strategy = drop_oldest }

abbrev unsent : List PublishMessage
unsent = new_message topic (1 ∷ []) ∷ new_message topic (2 ∷ []) ∷ new_message topic (3 ∷ []) ∷ []

buffer_all-kept_example :
    buffer_all two_newest unsent [] ≡ new_message topic (2 ∷ []) ∷ new_message topic (3 ∷ []) ∷ []
buffer_all-kept_example = buffer_all-kept two_newest unsent (omega arith)
