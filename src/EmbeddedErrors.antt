-- ===== src/EmbeddedErrors.antt =====
-- crates/mqtt-embedded/src/error.rs: the errors of the embedded client and their conversions. The
-- transport's error is a parameter.
use mqtt_async_embedded.Prelude.{ℕ, ◌==◌, if◌then◌else◌}
use mqtt_async_embedded.Exec.{PacketError}

pub data QuicErrorKind : Type 0 where
  stream_closed : QuicErrorKind
  stream_reset : ℕ → QuicErrorKind
  connection_lost datagram_too_large unsupported_operation : QuicErrorKind

pub data ConnectReasonCode : Type 0 where
  success unacceptable_protocol_version identifier_rejected server_unavailable : ConnectReasonCode
  bad_user_name_or_password not_authorized : ConnectReasonCode
  other : ℕ → ConnectReasonCode

-- `impl From<u8> for ConnectReasonCode`
unfoldable pub connect_reason_from : ℕ → ConnectReasonCode
connect_reason_from val =
    if val == 0
    then success
    else if val == 1
    then unacceptable_protocol_version
    else if val == 2
    then identifier_rejected
    else if val == 3
    then server_unavailable
    else if val == 4
    then bad_user_name_or_password
    else if val == 5
    then not_authorized
    else other val

pub data ProtocolError : Type 0 where
  invalid_packet_type : ℕ → ProtocolError
  invalid_response malformed_packet incomplete_packet payload_too_large : ProtocolError
  invalid_utf8_string too_many_properties invalid_topic unsupported_qos : ProtocolError

pub data MqttError (T : Type 0) : Type 0 where
  transport : T → MqttError T
  protocol : ProtocolError → MqttError T
  connection_refused : ConnectReasonCode → MqttError T
  not_connected buffer_too_small timeout batch_capacity_exceeded : MqttError T
  inflight_queue_full : MqttError T
  quic_error : QuicErrorKind → MqttError T

-- `impl<T> From<PacketError> for MqttError<T>`
unfoldable pub client_error_from : {T : Type 0} → PacketError → MqttError T
client_error_from PacketError.buffer_too_small = MqttError.buffer_too_small
client_error_from PacketError.incomplete_packet = MqttError.protocol ProtocolError.incomplete_packet
client_error_from PacketError.malformed_packet = MqttError.protocol ProtocolError.malformed_packet
client_error_from (PacketError.invalid_packet_type t) =
    MqttError.protocol (ProtocolError.invalid_packet_type t)
client_error_from PacketError.invalid_utf8_string =
    MqttError.protocol ProtocolError.invalid_utf8_string
client_error_from PacketError.too_many_properties =
    MqttError.protocol ProtocolError.too_many_properties
client_error_from PacketError.batch_capacity_exceeded = MqttError.batch_capacity_exceeded
client_error_from PacketError.payload_too_large = MqttError.protocol ProtocolError.payload_too_large
client_error_from PacketError.unsupported_qos = MqttError.protocol ProtocolError.unsupported_qos

unfoldable pub cast_transport_error : {T E : Type 0} → MqttError E → MqttError T
cast_transport_error (MqttError.protocol p) = MqttError.protocol p
cast_transport_error (MqttError.connection_refused c) = MqttError.connection_refused c
cast_transport_error MqttError.not_connected = MqttError.not_connected
cast_transport_error MqttError.buffer_too_small = MqttError.buffer_too_small
cast_transport_error MqttError.timeout = MqttError.timeout
cast_transport_error MqttError.batch_capacity_exceeded = MqttError.batch_capacity_exceeded
cast_transport_error MqttError.inflight_queue_full = MqttError.inflight_queue_full
cast_transport_error (MqttError.quic_error q) = MqttError.quic_error q
cast_transport_error (MqttError.transport t) = MqttError.protocol ProtocolError.malformed_packet
