-- ===== src/Wire.antt =====
-- Package internal/wire: the messages of the wire protocol.
pub mod Header
pub mod OpMsg
pub mod OpQuery
pub mod OpReply
pub mod Message
pub mod Sendable
pub mod QueryRoundTrip
pub mod ReplyRoundTrip
pub mod Sections
pub mod MsgRoundTrip
pub mod MessageRoundTrip
pub mod Lost
mod Left
pub mod Total
pub mod Written
pub mod MsgWritten
