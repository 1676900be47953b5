-- ===== src/Examples/EmbeddedTables.antt =====
-- The table of the embedded client on concrete calls.
use mqtt_async_embedded.Prelude.{ℕ, ◌≡◌, refl, true, false, List, [], ◌∷◌, length, arith}
use mqtt_async_embedded.Types.{at_least_once, exactly_once}
use mqtt_async_embedded.Slots.{any, count}
use mqtt_async_embedded.EmbeddedInflight.{
  InflightQueue, tracked_ok, awaiting_pub_ack, new, track, track_outbound, track_inbound_qos2,
  handle_puback, handle_pubrec, handle_pubcomp,
}
use mqtt_async_embedded.EmbeddedInflight.Laws.{
  tracked, IsTable, Call, outbound_call, after, perform, after-IsTable,
}
use mqtt_async_embedded.EmbeddedInflight.Exchanges.{waiting, qos2_exchange, inbound_takes_entry}

abbrev calls : List Call
calls = outbound_call 6 exactly_once ∷ outbound_call 5 at_least_once ∷ []

abbrev table : InflightQueue
table = after 4 calls

after-IsTable_example : IsTable 4 (after 4 calls)
after-IsTable_example = after-IsTable 4 calls

table-IsTable : IsTable 4 table
table-IsTable = after-IsTable 4 calls

table_free : tracked table 7 ≡ 0
unfolding after perform track_outbound track any count new
table_free = refl

table-length : length (InflightQueue.entries table) ≡ 2
unfolding after perform track_outbound track any new
table-length = refl

table_waits : waiting table 5 awaiting_pub_ack ≡ 1
unfolding after perform track_outbound track any count new
table_waits = refl

qos2_exchange_example :
    let sent_on = track_outbound 4 table 7 exactly_once in
    let received = handle_pubrec sent_on.1 7 in
    let completed = handle_pubcomp received.1 7 in
    (sent_on.0 ≡ tracked_ok)
    × (received.0 ≡ true)
    × (completed.0 ≡ true)
    × ((other : ℕ) → tracked completed.1 other ≡ tracked table other)
qos2_exchange_example =
    qos2_exchange 4 table 7 table-IsTable table_free (omega (arith, table-length))

inbound_takes_entry_example :
    let q_inbound = (track_inbound_qos2 4 table 5).1 in
    handle_puback q_inbound 5 ≡ (false, q_inbound)
inbound_takes_entry_example = inbound_takes_entry 4 table 5 table-IsTable table_waits
