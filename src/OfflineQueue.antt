-- ===== src/OfflineQueue.antt =====
-- crates/mqtt-tokio/src/eventloop.rs, `send_publish` without a transport: the queue of the messages
-- that wait for a connection. The answer on the sender's channel is the one of the call, where the
-- message is kept.
pub mod Kept
use mqtt_async_embedded.Prelude.{ℕ, List, [], ◌∷◌, ◌++◌, length, ltb, ◌==◌, if◌then◌else◌}
use mqtt_async_embedded.ClientTypes.{
  PublishMessage, ClientResult, accepted, refused, not_connected, queue_full,
}
use mqtt_async_embedded.Options.{
  DropStrategy, drop_oldest, error_on_full, block, OfflineQueuePolicy,
}

-- `offline_queue.pop_front()`
abbrev pub pop_front : List PublishMessage → List PublishMessage
pop_front [] = []
pop_front (m ∷ ms) = ms

abbrev pub push_back :
    PublishMessage → List PublishMessage → ClientResult (Unit {0}) × List PublishMessage
push_back m queue = (accepted tt, queue ++ (m ∷ []))

abbrev pub when_full :
    DropStrategy
    → PublishMessage
    → List PublishMessage
    → ClientResult (Unit {0}) × List PublishMessage
when_full drop_oldest m queue = push_back m (pop_front queue)
when_full error_on_full m queue = (refused queue_full, queue)
when_full block m queue = (refused queue_full, queue)

unfoldable pub buffer_offline :
    OfflineQueuePolicy
    → PublishMessage
    → List PublishMessage
    → ClientResult (Unit {0}) × List PublishMessage
buffer_offline policy m queue =
    if OfflineQueuePolicy.capacity policy == 0
    then (refused not_connected, queue)
    else if ltb (length queue) (OfflineQueuePolicy.capacity policy)
    then push_back m queue
    else when_full (OfflineQueuePolicy.drop_strategy policy) m queue
