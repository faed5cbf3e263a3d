-- ===== src/Lib.antt =====
-- A verification of ccsock, a Go library that sends messages to Claude Code sessions over their unix
-- sockets.
--
-- A session publishes a registry file, and a key file with the token of its inbox, in the sessions
-- directory. The library lists and looks up sessions, encodes a message as one JSON line, looks up the
-- token and writes both to the session's socket. Names of functions here are the Go names in another
-- spelling (`writeFrame` is `write_frame`).
--
-- Message (message.go): Message/Frame holds the messages, the wire frames and `frame`;
--   Message/Envelope the attribution envelope; Message/Uuid `newUUID`.
-- Json: how encoding/json reads a text. Json/Strings and Json/Tokens are its strings and tokens,
--   Json/Reader the machine that reads a value with its limit of 10,000 levels, Json/Structs the
--   decoding into the fields of a struct and into a map; Json/Members is about any JSON text of an
--   object of scalars, which Session/Published, Auth/Published and Inbox/Statuses use.
-- Wire: the JSON lines of the frames as encoding/json writes them; Wire/Decoding and Wire/Objects are
--   the reference for them, the strings and the grammar of RFC 8259, and Wire/RoundTrip reads them
--   back with Json. Message/Unicode is about the UTF-8 of frames, which that needs.
-- Exchange: what an inbox makes of the bytes that a send wrote; Exchange/Published follows a send
--   from what a session published.
-- Addr (addr.go, and `validAddress` of message.go): "uds:" addresses.
-- Client (client.go): the sends. A call gives its result and the list of what it did on the socket.
--   Client/Reached is about when a send succeeds.
-- Session (session.go): the `Session` type and the reading of one file; Registry: `ListSessions`;
--   Find: the lookups.
-- Auth (auth.go): key files, `LookupToken` and the rank of a key's owner.
-- Paths (paths.go, with platform_unix.go and platform_windows.go), and ProcStart (procstart*.go).
-- Inbox (inbox.go): `Close`, whose calls interleave as steps, and the accept loop of `serve`;
--   Inbox/Listen: `Listen`, with what it does to the system in order; Inbox/Reading: `handle`, with
--   the scanner of bufio and its limit on lines.
-- Umask (platform_unix.go): the calls of `withTightUmask`, which `Listen` makes, interleaved.
-- Cli (cmd/cc-send/main.go): Cli/Flags is package flag; Cli/Send `sendCmd`, with the list of what a
--   run did; Cli/Receipts its channel and its wait for receipts, which Cli/Answers follows from the
--   inbox's bytes and Cli/Deadline over time; Cli/Rename, Cli/Listing and Cli/Run
--   the other commands, `run` and the exit codes of `main`.
-- Base, Decimal, Utf8 and Filepath hold what is used of Go's language, of strconv, of unicode/utf8
--   and bytes of text, and of path/filepath on unix. Os is the rest of the outside, a parameter of the
--   model: the environment, files, processes, randomness, SHA-256, `strconv.ParseFloat` and the
--   `int` of a number that does not fit one. A value of it is one state of the
--   machine. Examples applies the theorems to a concrete one.
--
-- Strings are lists of bytes. Numbers are natural numbers: user ids, and PIDs on Windows, wrap at 2^32
-- where the code converts them, bytes at 2^8, and a decimal text is read as an `int` up to 2^63 - 1. A
-- PID is not negative, but in the flags of the command line. Durations are nanoseconds, those of the
-- accept loop's backoff milliseconds, and one that is not positive is 0. Recursion is on the structure
-- of a list, also where JSON is read, but for the digits of a number: their fuel is one more than the
-- number, which is enough since every round divides it by ten. `sort.Slice` is an insertion sort; its
-- outcome does not depend on the algorithm where PIDs are distinct, as those of one directory's files
-- are.
--
-- Error values keep their kind and lose their wording. A context is seen in the failures of the steps
-- that it cancels. The goroutines that `listCmd` starts set one entry each, so their order is left
-- out. Not modelled: the usage text, the layout of printed lines, of the table and of JSON output
-- (cmd/cc-send), and panics. `strconv.ParseInt`, `strconv.ParseFloat`,
-- `time.ParseDuration`, the calls of package net and the other system calls are parameters.
pub mod Base
pub mod Addr
pub mod Os
pub mod Utf8
pub mod Message
pub mod Decimal
pub mod ProcStart
pub mod Filepath
pub mod Paths
pub mod Session
pub mod Registry
pub mod Find
pub mod Auth
pub mod Wire
pub mod Client
pub mod Inbox
pub mod Json
pub mod Umask
pub mod Exchange
pub mod Cli
pub mod Examples
