-- ===== src/Wire/RoundTrip.antt =====
-- What `json.Marshal` writes of a frame, `json.Unmarshal` reads.
pub mod Strings
pub mod Tokens
pub mod Reader
pub mod Texts
pub mod Members
pub mod Frames
