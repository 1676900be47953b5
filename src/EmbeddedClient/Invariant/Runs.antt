-- ===== src/EmbeddedClient/Invariant/Runs.antt =====
-- The invariant of the client over every sequence of calls.
use mqtt_async_embedded.Prelude.{ℕ, List, [], ◌∷◌, arith}
use mqtt_async_embedded.Types.{QoS}
use mqtt_async_embedded.EmbeddedInflight
use mqtt_async_embedded.EmbeddedInflight.{
  handle_puback, handle_pubrec, handle_pubrel, handle_pubcomp,
}
use mqtt_async_embedded.EmbeddedInflight.Laws.{empty-IsTable}
use mqtt_async_embedded.EmbeddedClient.{
  Platform, PublishMessage, MqttOptions, MqttClient, new_client,
}
use mqtt_async_embedded.EmbeddedClient.Calls.{
  connect, publish, publish_batch, subscribe, unsubscribe, disconnect,
}
use mqtt_async_embedded.EmbeddedClient.Polling.{poll, poll_batch}
use mqtt_async_embedded.EmbeddedClient.Streaming.{begin_stream_publish}
use mqtt_async_embedded.EmbeddedClient.Invariant.{IsClient}
use mqtt_async_embedded.EmbeddedClient.Invariant.Calls.{
  Keeps-connect, Keeps-publish, Keeps-publish_batch, Keeps-subscribe, Keeps-unsubscribe,
  Keeps-disconnect,
}
use mqtt_async_embedded.EmbeddedClient.Invariant.Events.{
  Keeps-poll, Keeps-poll_batch, Keeps-begin_stream_publish,
}

-- A call of a method of the client. What the platform answers is up to the platform.
pub data ClientCall : Type 0 where
  call_connect call_poll call_disconnect : ClientCall
  call_publish : List ℕ → List ℕ → QoS → ClientCall
  call_publish_batch : List PublishMessage → ClientCall
  call_stream : List ℕ → ℕ → QoS → ClientCall
  call_subscribe : List (List ℕ × QoS) → ClientCall
  call_unsubscribe : List (List ℕ) → ClientCall
  call_poll_batch : ℕ → ClientCall

module _ {T E : Type 0} (N : ℕ) (p : Platform T E) where
  unfoldable pub call : ClientCall → MqttClient T → MqttClient T
  call call_connect c = (connect p c).1
  call call_poll c = (poll p N c).1
  call call_disconnect c = (disconnect p c).1
  call (call_publish topic payload qos) c = (publish p N topic payload qos c).1
  call (call_publish_batch messages) c = (publish_batch p N messages c).1
  call (call_stream topic total qos) c = (begin_stream_publish p N topic total qos c).1
  call (call_subscribe topics) c = (subscribe p topics c).1
  call (call_unsubscribe topics) c = (unsubscribe p topics c).1
  call (call_poll_batch most) c = (poll_batch p N most c).1

  unfoldable pub after_calls : List ClientCall → MqttClient T → MqttClient T
  after_calls [] c = c
  after_calls (k ∷ ks) c = after_calls ks (call k c)

  call-IsClient : (k : ClientCall) (c : MqttClient T) → IsClient N c → IsClient N (call k c)
  unfolding call
  call-IsClient call_connect c v = Keeps-connect N p c v
  call-IsClient call_poll c v = Keeps-poll N p c v
  call-IsClient call_disconnect c v = Keeps-disconnect N p c v
  call-IsClient (call_publish topic payload qos) c v = Keeps-publish N p topic payload qos c v
  call-IsClient (call_publish_batch messages) c v = Keeps-publish_batch N p messages c v
  call-IsClient (call_stream topic total qos) c v =
      Keeps-begin_stream_publish N p topic total qos c v
  call-IsClient (call_subscribe topics) c v = Keeps-subscribe N p topics c v
  call-IsClient (call_unsubscribe topics) c v = Keeps-unsubscribe N p topics c v
  call-IsClient (call_poll_batch most) c v = Keeps-poll_batch N p most c v

  after_calls-keeps :
      (ks : List ClientCall) (c : MqttClient T) → IsClient N c → IsClient N (after_calls ks c)
  unfolding after_calls
  after_calls-keeps [] c v = v
  after_calls-keeps (k ∷ ks) c v = after_calls-keeps ks (call k c) (call-IsClient k c v)

  -- Whatever the platform answers, after every sequence of calls on a new client the next packet id
  -- is a u16 and not 0, and the table is within its capacity and holds no id twice.
  pub after_calls-IsClient :
      (ks : List ClientCall) (BUF_SIZE : ℕ) (transport : T) (options : MqttOptions)
      → IsClient N (after_calls ks (new_client p BUF_SIZE transport options))
  unfolding new_client
  after_calls-IsClient ks BUF_SIZE transport options =
      after_calls-keeps ks (new_client p BUF_SIZE transport options) (record {
        id_positive = omega arith;
        id_u16 = omega arith;
        table = unfold EmbeddedInflight.new in empty-IsTable N;
      })
