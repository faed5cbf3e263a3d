-- ===== src/Message.antt =====
-- message.go
pub mod Envelope
pub mod Escape
pub mod Clean
pub mod Length
pub mod Closing
pub mod Uuid
pub mod Version
pub mod Frame
pub mod Accepted
pub mod Attribution
pub mod Verbatim
pub mod Shown
pub mod Unicode
