-- ===== src/Inflight/Runs.antt =====
-- Sequences of operations on the table of messages in flight.
use mqtt_async_embedded.Prelude.{ℕ, List, [], ◌∷◌}
use mqtt_async_embedded.Types.{QoS}
use mqtt_async_embedded.Inflight.{InflightQueue, new, push, acknowledge, mark_pubrel_sent, clear}
use mqtt_async_embedded.Inflight.Laws.{
  IsInflight, new-IsInflight, push-IsInflight, acknowledge-IsInflight, mark_pubrel_sent-IsInflight,
  clear-IsInflight,
}

-- One call of an operation that changes the table.
pub data Call : Type 0 where
  push_call : ℕ → QoS → Call
  acknowledge_call mark_call : ℕ → Call
  clear_call : Call

unfoldable pub perform : ℕ → Call → InflightQueue → InflightQueue
perform N (push_call id qos) q = (push N q id qos).1
perform N (acknowledge_call id) q = (acknowledge q id).1
perform N (mark_call id) q = (mark_pubrel_sent q id).1
perform N clear_call q = clear q

-- The calls in the list, the first one last.
unfoldable pub after : ℕ → List Call → InflightQueue
after N [] = new
after N (c ∷ cs) = perform N c (after N cs)

perform-IsInflight :
    (N : ℕ) (c : Call) (q : InflightQueue) → IsInflight N q → IsInflight N (perform N c q)
unfolding perform
perform-IsInflight N (push_call id qos) q ok = push-IsInflight N q id qos ok
perform-IsInflight N (acknowledge_call id) q ok = acknowledge-IsInflight N q id ok
perform-IsInflight N (mark_call id) q ok = mark_pubrel_sent-IsInflight N q id ok
perform-IsInflight N clear_call q ok = clear-IsInflight N q

-- After every sequence of operations the table is within its capacity, holds no id twice, and no
-- entry that is acknowledged.
pub after-IsInflight : (N : ℕ) (cs : List Call) → IsInflight N (after N cs)
unfolding after
after-IsInflight N [] = new-IsInflight N
after-IsInflight N (c ∷ cs) = perform-IsInflight N c (after N cs) (after-IsInflight N cs)
