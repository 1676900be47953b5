-- ===== src/CoreErrors.antt =====
-- crates/mqtt-core/src/error.rs: the reason codes of a broker and the error types of the clients,
-- with the conversions between them. Text for display is left out.
pub mod Codes
use mqtt_async_embedded.Prelude.{ℕ, if◌then◌else◌, ◌==◌}
use mqtt_async_embedded.Exec.{PacketError}

pub data ReasonCode : Type 0 where
  success unacceptable_protocol_version identifier_rejected server_unavailable : ReasonCode
  bad_user_name_or_password not_authorized server_busy bad_authentication_method : ReasonCode
  keep_alive_timeout session_taken_over topic_filter_invalid topic_name_invalid : ReasonCode
  receive_maximum_exceeded topic_alias_invalid packet_too_large message_rate_too_high : ReasonCode
  quota_exceeded administrative_action payload_format_invalid retain_not_supported : ReasonCode
  qos_not_supported use_another_server server_moved shared_subscriptions_not_supported : ReasonCode
  connection_rate_exceeded maximum_connect_time subscription_identifiers_not_supported : ReasonCode
  wildcard_subscriptions_not_supported : ReasonCode
  other : ℕ → ReasonCode

-- `impl From<u8> for ReasonCode`
pub reason_code_from : ℕ → ReasonCode
reason_code_from val =
    if val == 0
    then success
    else if val == 1
    then unacceptable_protocol_version
    else if val == 2
    then identifier_rejected
    else if val == 3
    then server_unavailable
    else if val == 4
    then bad_user_name_or_password
    else if val == 5
    then not_authorized
    else if val == 137
    then server_busy
    else if val == 140
    then bad_authentication_method
    else if val == 141
    then keep_alive_timeout
    else if val == 142
    then session_taken_over
    else if val == 143
    then topic_filter_invalid
    else if val == 144
    then topic_name_invalid
    else if val == 147
    then receive_maximum_exceeded
    else if val == 148
    then topic_alias_invalid
    else if val == 149
    then packet_too_large
    else if val == 150
    then message_rate_too_high
    else if val == 151
    then quota_exceeded
    else if val == 152
    then administrative_action
    else if val == 153
    then payload_format_invalid
    else if val == 154
    then retain_not_supported
    else if val == 155
    then qos_not_supported
    else if val == 156
    then use_another_server
    else if val == 157
    then server_moved
    else if val == 158
    then shared_subscriptions_not_supported
    else if val == 159
    then connection_rate_exceeded
    else if val == 160
    then maximum_connect_time
    else if val == 161
    then subscription_identifiers_not_supported
    else if val == 162
    then wildcard_subscriptions_not_supported
    else other val

-- The discriminants of the declaration; `Other` carries its own.
unfoldable pub discriminant : ReasonCode → ℕ
discriminant success = 0
discriminant unacceptable_protocol_version = 1
discriminant identifier_rejected = 2
discriminant server_unavailable = 3
discriminant bad_user_name_or_password = 4
discriminant not_authorized = 5
discriminant server_busy = 137
discriminant bad_authentication_method = 140
discriminant keep_alive_timeout = 141
discriminant session_taken_over = 142
discriminant topic_filter_invalid = 143
discriminant topic_name_invalid = 144
discriminant receive_maximum_exceeded = 147
discriminant topic_alias_invalid = 148
discriminant packet_too_large = 149
discriminant message_rate_too_high = 150
discriminant quota_exceeded = 151
discriminant administrative_action = 152
discriminant payload_format_invalid = 153
discriminant retain_not_supported = 154
discriminant qos_not_supported = 155
discriminant use_another_server = 156
discriminant server_moved = 157
discriminant shared_subscriptions_not_supported = 158
discriminant connection_rate_exceeded = 159
discriminant maximum_connect_time = 160
discriminant subscription_identifiers_not_supported = 161
discriminant wildcard_subscriptions_not_supported = 162
discriminant (other c) = c

pub data ProtocolError : Type 0 where
  invalid_packet_type : ℕ → ProtocolError
  invalid_response malformed_packet incomplete_packet payload_too_large : ProtocolError
  invalid_utf8_string too_many_properties invalid_topic unsupported_qos : ProtocolError
  state_mismatch unexpected_packet : ProtocolError

pub data CodecError : Type 0 where
  buffer_too_small incomplete_packet malformed_packet : CodecError
  invalid_packet_type : ℕ → CodecError
  invalid_utf8_string too_many_properties batch_capacity_exceeded : CodecError
  payload_too_large unsupported_qos : CodecError

-- `impl From<PacketError> for CodecError`
unfoldable pub codec_error_from : PacketError → CodecError
codec_error_from PacketError.buffer_too_small = CodecError.buffer_too_small
codec_error_from PacketError.incomplete_packet = CodecError.incomplete_packet
codec_error_from PacketError.malformed_packet = CodecError.malformed_packet
codec_error_from (PacketError.invalid_packet_type t) = CodecError.invalid_packet_type t
codec_error_from PacketError.invalid_utf8_string = CodecError.invalid_utf8_string
codec_error_from PacketError.too_many_properties = CodecError.too_many_properties
codec_error_from PacketError.batch_capacity_exceeded = CodecError.batch_capacity_exceeded
codec_error_from PacketError.payload_too_large = CodecError.payload_too_large
codec_error_from PacketError.unsupported_qos = CodecError.unsupported_qos

pub data StorageErrorKind : Type 0 where
  not_found corrupted full io_failure : StorageErrorKind

pub data CryptoErrorKind : Type 0 where
  handshake_failed certificate_invalid encryption_error decryption_error : CryptoErrorKind
  hardware_fault unsupported_algorithm : CryptoErrorKind

pub data MqttError (E : Type 0) : Type 0 where
  transport : E → MqttError E
  protocol : ProtocolError → MqttError E
  codec : CodecError → MqttError E
  storage : StorageErrorKind → MqttError E
  crypto : CryptoErrorKind → MqttError E
  connection_refused : ReasonCode → MqttError E
  not_connected buffer_too_small timeout batch_capacity_exceeded : MqttError E
  inflight_queue_full : MqttError E
  collision_detected : ℕ → MqttError E

-- `impl<E> From<PacketError> for MqttError<E>`
unfoldable pub mqtt_error_from : {E : Type 0} → PacketError → MqttError E
mqtt_error_from err = codec (codec_error_from err)
