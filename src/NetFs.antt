-- ===== src/NetFs.antt =====
-- client_src/netfs.hpp and client_src/netfs.cpp: the operations of a mounted file system, over the
-- block cache and the messages to the server.
pub mod State
pub mod Remote
pub mod Serving
pub mod Staleness
pub mod Ops
pub mod Checking
pub mod Dropping
pub mod Sound
pub mod SoundDrops
pub mod Reach
mod Tests
mod CheckTests
mod UseTests
