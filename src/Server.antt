-- ===== src/Server.antt =====
-- The server: server_src/msg_response.cpp, server_src/fileop.cpp and the loops of
-- server_src/StorageServerConnection.cpp, what it does with a request and how it meets the client.
pub mod Responders
pub mod Answers
pub mod Reading
pub mod Storing
pub mod System
pub mod FileOps
pub mod Connection
pub mod Transfer
pub mod Rounds
pub mod Listing
pub mod PreadLoop
pub mod FileReading
pub mod FileWriting
pub mod FileStoring
mod Tests
mod FileTests
mod StoreTests
mod WireTests
