-- ===== src/Lib.antt =====
-- Verification of the MQTT library: the packet codec, the frame iterator, the connection state
-- machine, the two tables of messages in flight, the in-memory store, the embedded client, and the
-- event loop, the router, the data streams and the addresses of the tokio client.
--
-- The program. crates/mqtt-packet turns control packets into bytes and back: varint.rs has the
-- integers, strings and binary data of the wire, properties.rs the MQTT 5 properties, packet_types.rs
-- the packets, and codec.rs an encoder and a decoder for each packet, `decode`, which chooses the
-- decoder by the first byte, and `RawPacketFrameIter`, which cuts a network read into packets.
-- crates/mqtt-core has the state machine of a connection (state.rs) and a table of unacknowledged
-- messages (inflight.rs); crates/mqtt-embedded has a table of its own (inflight.rs), and
-- crates/mqtt-storage a bounded key-value store for sessions (mem.rs). The client of
-- crates/mqtt-embedded (client.rs) owns a transport, two buffers, a packet id counter and that table:
-- its calls encode a request into the transmit buffer and send it, and `poll` and `poll_batch` read
-- into the receive buffer, decode, settle the table and acknowledge. stream_writer.rs sends the
-- payload of a PUBLISH in chunks. In crates/mqtt-tokio, router.rs checks topics and hands a message
-- that arrives to the channels of the filters that match it, and stream.rs puts typed payloads into
-- numbered chunks, which it publishes, keeps in a journal, and puts in order again on arrival. Its
-- event loop (eventloop.rs) owns the transport: it connects with a growing delay, recovers the session,
-- and then answers to what comes first, a read, a request of a client handle or a tick of a timer; the
-- table of messages in flight has the channels of the callers that wait for an acknowledgement.
--
-- Files.
--   Prelude: numbers, Boolean tests, lists and bits that all files share.
--   Exec: `PacketError` and actions `S → Result A × S`. The state is the mutable argument: the cursor
--     of a decoder (`&mut usize`), or the buffer and the cursor of an encoder. `panic` is a result of
--     its own, for an index or a range that leaves a slice.
--   Wire: the statements on a buffer that codec.rs repeats, such as
--     `*buf.get_mut(cursor).ok_or(BufferTooSmall)? = b; cursor += 1`.
--   Varint, Fields: crates/mqtt-packet/src/varint.rs.  Utf8: what `core::str::from_utf8` accepts.
--   Types: crates/mqtt-packet/src/packet_types.rs.  Properties: crates/mqtt-packet/src/properties.rs.
--   Codec: crates/mqtt-packet/src/codec.rs, a module for each packet; Codec.Frame is what all encoders
--     and decoders do around the content, Codec.Batch their lists, Codec.Dispatch `encode` and
--     `decode`.  Frames: `RawPacketFrameIter`.
--   Slots: `position`, `swap_remove`, `iter_mut().find` and `any` of a bounded vector.
--   State: crates/mqtt-core/src/state.rs.  Inflight: crates/mqtt-core/src/inflight.rs.
--   EmbeddedInflight: crates/mqtt-embedded/src/inflight.rs.
--   CoreErrors: crates/mqtt-core/src/error.rs.
--   MemStore: crates/mqtt-storage/src/mem.rs.  Bytes: equality of byte strings.
--   EmbeddedErrors: crates/mqtt-embedded/src/error.rs.
--   EmbeddedClient: crates/mqtt-embedded/src/client.rs, the data and the actions of which the calls are
--     made; EmbeddedClient.Calls has `connect` to `disconnect`, EmbeddedClient.Polling `poll` and
--     `poll_batch`, EmbeddedClient.Streaming `begin_stream_publish` and stream_writer.rs,
--     EmbeddedClient.Setters the setters of the options, and EmbeddedClient.Datagrams the QUIC client.
--   ClientTypes: crates/mqtt-tokio/src/types.rs.
--   Topics, Router: the validators and the trie of crates/mqtt-tokio/src/router.rs. Router.Tally counts
--     the subscriptions of a trie; Router.Tally.Subscriptions is the list that the trie implements.
--   Options: crates/mqtt-tokio/src/options.rs; Options.Backoff is the delay of a reconnection, and
--     Options.Setters has the setters.
--   OfflineQueue: `send_publish` of crates/mqtt-tokio/src/eventloop.rs without a transport.
--   EventLoop: crates/mqtt-tokio/src/eventloop.rs: the state of the loop, `Network`, and the actions of
--     which the rest is made. EventLoop.Sending has the `send_` functions, EventLoop.Requests
--     `handle_client_request`, EventLoop.Reading the branch of `drive_connection` that reads,
--     EventLoop.Connecting `connect_with_backoff`, the handshake and the recovery of the session, and
--     EventLoop.Driving `drive_connection` and `run`.  Maps: a `HashMap` as a list.
--   Sensor, Chunks, Chunks.Consumer: crates/mqtt-tokio/src/stream.rs.  Buffers: what they use of the
--     `bytes` crate.
--   Examples: runs on concrete inputs.
--
-- How the code is modelled. A byte, a `u16` and a `usize` are natural numbers; what a packet must
-- meet to fit its fields is part of `IsPacket` (strings of at most 65535 bytes that are UTF-8, at most
-- eight well formed properties, and less than 2^28 bytes of content). No sum of the code comes near
-- 2^64 on a buffer that a machine can hold. A slice is a list; a borrow is a copy of the list. The
-- loop that reads an integer recurses on the rounds that are left, 4 at first, as the code tests
-- `i >= 4`; the loop that writes one recurses on the accessibility of the value under `/ 128`. The
-- loop over properties recurses on the room left in the vector of eight, whose failing `push` is the
-- last case. `take_items n` takes `n` items of the frame iterator, for every `n`. The capacity of a
-- table is an argument.
--
-- The event loop is one task, so a run of it is a sequence of events: what `tokio::select!` finds
-- ready, for each connection. `connect_with_backoff` is given a number of rounds; its loop has no end
-- without a limit of attempts. The loop over the frames of a read is given a round for each byte and
-- one more; when it is not at its end then, the outcome is `hangs`. A channel is a number, and the state
-- notes what is sent on it.
--
-- What is not in the repository is a parameter. `Platform` has the transport and the clock: it is a
-- record of functions on a state of the transport, of which no law is assumed, so an error can come at
-- any send or read. `Buffers` has the writers and readers of numbers of the `bytes` crate, with the
-- laws that a number is written on its width and read back; Buffers.BigEndian meets it. The reading of
-- bytes that may not be UTF-8 as a string is an argument of the decoder of typed payloads. Which
-- channels are closed is an argument of `dispatch`, and what `publish` answers an argument of the
-- producer. `Network` has the transport, the socket that `connect_transport` opens and the clock of the
-- event loop; where a theorem needs it, `ReadsInside` says that a read gives back a slice of the length
-- that it got and no more bytes than that. `Floats` has the arithmetic of floats, and
-- `QuicTransport` the datagrams of the QUIC client. An action of the client gives an answer, an
-- error or a panic, and the client after it.
-- `poll_batch` takes as many frames as the read has bytes, which is enough for its loop. Counters of
-- 64 bits and sums of lengths that a caller announces wrap, as in a release build. A duration is a
-- whole number of milliseconds.
--
-- A packet that is decoded can differ from the one encoded in what the wire does not carry: the
-- properties without MQTT 5, an identifier with QoS 0, a missing identifier that is written as 1.
-- `packet_received` says which packet arrives.
--
-- Not modelled: the handle of the tokio client, the bridges and the transports, most of which stand on
-- sockets, channels and timers; text for display.
pub mod Prelude
pub mod Exec
pub mod CoreErrors
pub mod Wire
pub mod Varint
pub mod Utf8
pub mod Fields
pub mod Types
pub mod Properties
pub mod Codec
pub mod Frames
pub mod Slots
pub mod State
pub mod Inflight
pub mod EmbeddedInflight
pub mod MemStore
pub mod Bytes
pub mod EmbeddedErrors
pub mod ClientTypes
pub mod Topics
pub mod Router
pub mod Buffers
pub mod Sensor
pub mod Chunks
pub mod Options
pub mod OfflineQueue
pub mod Maps
pub mod EventLoop
pub mod EmbeddedClient
pub mod Examples
