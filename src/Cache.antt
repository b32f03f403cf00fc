-- ===== src/Cache.antt =====
-- client_src/cache.hpp and client_src/cache.cpp: the client's block cache.
pub mod Entry
pub mod Contents
pub mod State
pub mod Blocks
pub mod Usage
pub mod Valid
pub mod Store
pub mod Remove
pub mod WriteBlock
pub mod Span
pub mod Flush
pub mod Evict
pub mod Gather
pub mod Gathered
pub mod GatherBlocks
pub mod Ops
pub mod Files
pub mod Write
pub mod Written
pub mod Cleans
pub mod CleanBlocks
pub mod FlushBlocks
pub mod FlushFiles
pub mod FlushAll
pub mod Keyed
pub mod FlushOut
pub mod EvictBlocks
pub mod DropBeyond
pub mod Beyond
pub mod Invalidate
pub mod Sound
pub mod SoundReads
pub mod SoundOps
pub mod SoundCalls
pub mod SoundFlush
pub mod Cut
pub mod Truncate
pub mod Reach
pub mod ReadBlock
pub mod ReadLoop
pub mod Fill
pub mod FetchBlock
pub mod Fetch
pub mod FetchBlocks
pub mod Served
pub mod ReadSpan
pub mod ReadOut
pub mod ReadWrite
mod Tests
mod FlushTests
mod ReachTests
