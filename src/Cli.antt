-- ===== src/Cli.antt =====
-- cmd/cc-send/main.go: the command line.
pub mod Flags
pub mod Receipts
pub mod Send
pub mod Rename
pub mod Listing
pub mod Run
pub mod Waiting
pub mod Answers
pub mod Given
pub mod Handed
pub mod Words
pub mod Exits
pub mod Fifo
pub mod Deadline
pub mod Replies
pub mod Released
pub mod Codes
pub mod Arguments
pub mod Rows
