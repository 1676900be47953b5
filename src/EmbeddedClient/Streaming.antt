-- ===== src/EmbeddedClient/Streaming.antt =====
-- crates/mqtt-embedded/src/client.rs, `begin_stream_publish`, and stream_writer.rs: a PUBLISH whose
-- payload is sent in chunks. The writer borrows the client's transport: its functions act on both.
pub mod Overrun
pub mod Chunks
use mqtt_async_embedded.Prelude.{
  ℕ, zero, suc, ◌+◌, ◌-◌, ◌*◌, ◌%◌, Bool, true, false, Option, none, some, List, [], ◌∷◌, ◌++◌,
  length, take, drop, set, replicate, ltb, bit_or, ◌==◌, if◌then◌else◌,
}
use mqtt_async_embedded.Exec.{Result, ok, err, panic}
use mqtt_async_embedded.EmbeddedErrors.{MqttError, ProtocolError, client_error_from}
use mqtt_async_embedded.Wire.{to_be_bytes}
use mqtt_async_embedded.Varint.{write_variable_byte_integer_len}
use mqtt_async_embedded.Varint.Encoding.{usize_limit}
use mqtt_async_embedded.Fields.{write_utf8_string}
use mqtt_async_embedded.Types.{QoS, qos_code, MqttVersion}
use mqtt_async_embedded.Codec.Frame.{is_v5}
use mqtt_async_embedded.EmbeddedClient.{
  Platform, Outcome, done, failed, panics, MqttOptions, MqttClient, Act, answer, fail, after, ◌>>=◌,
  ◌>>◌, when_connected, from_result, send_bytes, touch_tx, packet_id_for,
}
use mqtt_async_embedded.EmbeddedClient.Calls.{version_of}

pub record MqttStreamWriter : Type 0 where
  pub total_len : ℕ
  pub bytes_remaining : ℕ

abbrev pub new_writer : ℕ → MqttStreamWriter
new_writer total = record { total_len = total; bytes_remaining = total }

-- `header_buf[..total_fixed_header_len]`
unfoldable pub fixed_header : QoS → ℕ → Result (List ℕ)
fixed_header qos remaining_len =
    let flags = bit_or 0x30 (qos_code qos * 2) in
    let (written, rest) = write_variable_byte_integer_len remaining_len (replicate 15 0) in
    elim written [
      | ok len_bytes ↦
          if ltb 16 (1 + len_bytes) then panic else ok (take (1 + len_bytes) (flags ∷ rest))
      | err e ↦ err e
      | panic ↦ panic
    ]

-- `var_buf` and `var_cursor`
abbrev pub VarBuf : Type 0
VarBuf = List ℕ × ℕ

-- `var_buf[var_cursor..var_cursor + 2].copy_from_slice(&pid.to_be_bytes())`
unfoldable pub put_id : Option ℕ → VarBuf → Result VarBuf
put_id none v = ok v
put_id (some pid) (buf, cursor) =
    if ltb (length buf) (cursor + 2)
    then panic
    else ok (take cursor buf ++ (to_be_bytes pid ++ drop (cursor + 2) buf), cursor + 2)

-- `var_buf[var_cursor] = 0`, in version 5
unfoldable pub put_no_properties : MqttVersion → VarBuf → Result VarBuf
put_no_properties version (buf, cursor) =
    if is_v5 version
    then (if ltb cursor (length buf) then ok (set buf cursor 0, cursor + 1) else panic)
    else ok (buf, cursor)

-- The statements between the two calls of `send`: `var_buf[..var_cursor]`.
unfoldable pub and_then : {A B : Type 0} → Result A → (A → Result B) → Result B
and_then (ok a) f = f a
and_then (err e) f = err e
and_then panic f = panic

unfoldable pub variable_header : MqttVersion → List ℕ → Option ℕ → Result (List ℕ)
variable_header version topic packet_id =
    let (written, var_buf) = write_utf8_string topic (replicate 256 0) in
    and_then written (λ cursor. and_then (put_id packet_id (var_buf, cursor)) (λ v.
      and_then (put_no_properties version v)
        (λ w. if ltb (length w.0) w.1 then panic else ok (take w.1 w.0))))

-- The length of the variable header, before the payload.
unfoldable pub variable_header_len : MqttVersion → List ℕ → Option ℕ → ℕ
variable_header_len version topic packet_id =
    2 + length topic + elim packet_id [ some pid ↦ 2 | none ↦ 0 ] + (if is_v5 version then 1 else 0)

-- `slices.iter().map(|s| s.len()).sum()`, before it is wrapped to a `usize`
unfoldable pub total_length : List (List ℕ) → ℕ
total_length [] = 0
total_length (s ∷ ss) = length s + total_length ss

module _ {T E : Type 0} (p : Platform T E) where
  unfoldable pub begin_stream_publish : ℕ → List ℕ → ℕ → QoS → Act T E MqttStreamWriter
  begin_stream_publish MAX_INFLIGHT topic total_payload_len qos = when_connected (λ c.
      (do
        packet_id ← packet_id_for MAX_INFLIGHT qos
        let remaining_len =
            (variable_header_len (version_of c) topic packet_id + total_payload_len) % usize_limit
        header ← from_result (fixed_header qos remaining_len)
        send_bytes p header
        rest ← from_result (variable_header (version_of c) topic packet_id)
        send_bytes p rest
        touch_tx p
        answer (new_writer total_payload_len))
        c)

  -- `?`, and then `self.bytes_remaining -= sent`
  abbrev pub account :
      ℕ
      → MqttStreamWriter
      → Outcome E (Unit {0}) × MqttClient T
      → (Outcome E (Unit {0}) × MqttClient T) × MqttStreamWriter
  account sent w (done u, c) =
      ((done u, c), record w { bytes_remaining = MqttStreamWriter.bytes_remaining w - sent })
  account sent w (failed e, c) = ((failed e, c), w)
  account sent w (panics, c) = ((panics, c), w)

  -- A function of the writer gives the writer back beside its answer.
  unfoldable pub write_chunk :
      List ℕ
      → MqttStreamWriter
      → MqttClient T
      → (Outcome E (Unit {0}) × MqttClient T) × MqttStreamWriter
  write_chunk chunk w c =
      if ltb (MqttStreamWriter.bytes_remaining w) (length chunk)
      then ((failed MqttError.buffer_too_small, c), w)
      else account (length chunk) w (send_bytes p chunk c)

  -- The provided method `send_vectored` of the trait `MqttTransport`
  unfoldable pub send_vectored : List (List ℕ) → Act T E (Unit {0})
  send_vectored [] = answer tt
  send_vectored ([] ∷ bufs) = send_vectored bufs
  send_vectored ((b ∷ bs) ∷ bufs) = send_bytes p (b ∷ bs) >> send_vectored bufs

  unfoldable pub write_dma_vectored :
      List (List ℕ)
      → MqttStreamWriter
      → MqttClient T
      → (Outcome E (Unit {0}) × MqttClient T) × MqttStreamWriter
  write_dma_vectored slices w c =
      let total = total_length slices % usize_limit in
      if ltb (MqttStreamWriter.bytes_remaining w) total
      then ((failed MqttError.buffer_too_small, c), w)
      else account total w (send_vectored slices c)

-- `finish`
unfoldable pub finish : {E : Type 0} → MqttStreamWriter → Outcome E (Unit {0})
finish w =
    if MqttStreamWriter.bytes_remaining w == 0
    then done tt
    else failed (MqttError.protocol ProtocolError.incomplete_packet)
