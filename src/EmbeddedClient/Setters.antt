-- ===== src/EmbeddedClient/Setters.antt =====
-- crates/mqtt-embedded/src/client.rs: the setters of the options.
use mqtt_async_embedded.Prelude.{ℕ, Bool, some, List}
use mqtt_async_embedded.Types.{MqttVersion, Will}
use mqtt_async_embedded.EmbeddedClient.{MqttOptions, StreamMode}

unfoldable pub with_keep_alive : ℕ → MqttOptions → MqttOptions
with_keep_alive keep_alive o = record o { keep_alive = keep_alive }

unfoldable pub with_clean_session : Bool → MqttOptions → MqttOptions
with_clean_session clean_session o = record o { clean_session = clean_session }

unfoldable pub with_credentials : List ℕ → List ℕ → MqttOptions → MqttOptions
with_credentials username password o = record o {
  username = some username;
  password = some password;
}

unfoldable pub with_will : Will → MqttOptions → MqttOptions
with_will will o = record o { will = some will }

unfoldable pub with_version : MqttVersion → MqttOptions → MqttOptions
with_version version o = record o { version = version }

unfoldable pub with_stream_mode : StreamMode → MqttOptions → MqttOptions
with_stream_mode stream_mode o = record o { stream_mode = stream_mode }
