-- ===== src/Codec.antt =====
-- crates/mqtt-packet/src/codec.rs: the encoders and decoders of the control packets, a module for
-- each packet type, over the frame that all of them share.
pub mod Frame
pub mod Batch
pub mod Publish
pub mod Ack
pub mod ConnAck
pub mod SubReply
pub mod Subscribe
pub mod Unsubscribe
pub mod Disconnect
pub mod Connect
pub mod Dispatch
