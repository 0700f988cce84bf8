-- ===== src/Connection.antt =====
-- src/processx-connection.c, as it is built on Unix: connections, their two buffers, reading of
-- bytes, characters and lines, and closing. Types holds the connection and what the operating
-- system gives; Convert and Read fill the buffers; Bytes, Chars, Lines and Line serve them; Life
-- opens, closes and accepts; Valid is the invariant.
pub mod Types
pub mod Convert
pub mod Read
pub mod Bytes
pub mod Chars
pub mod Valid
pub mod Lines
pub mod Line
pub mod Life
pub mod Poll
mod Sample
mod Tests
