-- ===== src/Options/Setters.antt =====
-- crates/mqtt-tokio/src/options.rs: the setters.
use mqtt_async_embedded.Prelude.{ℕ, Bool, some, List}
use mqtt_async_embedded.Types.{MqttVersion}
use mqtt_async_embedded.ClientTypes.{PublishMessage}
use mqtt_async_embedded.Options.{
  ClientOptions, ReconnectPolicy, OfflineQueuePolicy, DataRecoveryPolicy,
}

unfoldable pub with_credentials : List ℕ → List ℕ → ClientOptions → ClientOptions
with_credentials username password o = record o {
  username = some username;
  password = some password;
}

unfoldable pub with_keep_alive : ℕ → ClientOptions → ClientOptions
with_keep_alive keep_alive o = record o { keep_alive = keep_alive }

unfoldable pub with_clean_session : Bool → ClientOptions → ClientOptions
with_clean_session clean o = record o { clean_session = clean }

unfoldable pub with_version : MqttVersion → ClientOptions → ClientOptions
with_version version o = record o { version = version }

unfoldable pub with_will : PublishMessage → ClientOptions → ClientOptions
with_will will o = record o { will = some will }

unfoldable pub with_reconnect : ReconnectPolicy → ClientOptions → ClientOptions
with_reconnect reconnect o = record o { reconnect = reconnect }

unfoldable pub with_offline_queue : OfflineQueuePolicy → ClientOptions → ClientOptions
with_offline_queue offline_queue o = record o { offline_queue = offline_queue }

unfoldable pub with_recovery : DataRecoveryPolicy → ClientOptions → ClientOptions
with_recovery recovery o = record o { recovery = recovery }

unfoldable pub with_channel_capacity : ℕ → ClientOptions → ClientOptions
with_channel_capacity capacity o = record o { channel_capacity = capacity }

unfoldable pub with_max_packet_size : ℕ → ClientOptions → ClientOptions
with_max_packet_size max_size o = record o { max_packet_size = max_size }
