-- ===== src/Lib.antt =====
-- NetFS: a file system in user space whose files lie on a server. The client (client_src) answers
-- FUSE calls from a block cache and talks to the server (server_src) by messages (common); the
-- development is about what the two sides share, the client's cache and the requests.
--
-- The parts and their files:
--   Prelude: what the files share. Code that may stop gives a `Result`: `assertion` for a failed
--     `assert`, `out_of_range` for `at` on a missing key, `bad_access` for an access outside a
--     buffer or through a wrong iterator, `end_of_stream` for a stream that ends early,
--     `length_error` for a vector of a size that is negative as a signed number. Assertions are
--     taken to be compiled in, and memory to suffice. `unordered_map` is an association list with
--     one value per key, a byte is a number below 256, `size_t` is a 64-bit number whose sums
--     wrap around by `wrap64`.
--   Range: `RangeList` and `overlay` of client_src/range.hpp and range.cpp. Range/Merge and
--     Range/Sorted follow the two loops of `insertRange`, Range/Canonical says when two lists are
--     one, Range/Overlay is about the copying.
--   Serial: common/serial.hpp and serial.cpp. A writer gives the bytes that it appends to the
--     stream, a reader takes what it reads off the front. Serial/Codec says what it is for the
--     two to fit; Serial/Bytes, Laws and Vectors show it for numbers, strings and vectors.
--   Time: the time stamps of common/time.hpp and time.cpp.
--   Msg: the messages of common/msg_base.hpp and msg.cpp, one child for each pair of request and
--     response (common/msg_access.hpp and so on). Msg/Kinds and Msg/Codec join their codecs,
--     Msg/Stream is about whole messages on a stream.
--   Cache: client_src/cache.hpp and cache.cpp. Cache/Entry is `CacheEntry`, Cache/State the state
--     of `Cache` and the four callbacks it is made with, which are a parameter: `Backend S`, over
--     the state `S` of whatever stands behind them. Cache/Blocks has the operations on single
--     blocks and the usage list, Cache/Flush the write-back and the eviction, Cache/Ops the
--     public operations. A reference that the code keeps to an entry or a file is written back to
--     its place. Iterators of the usage list are node numbers. The other children are proofs:
--     Contents (bytes of an entry), Usage (the usage list), Valid (the invariant of the cache:
--     entries are well formed, and entries and usage list point at each other), Store and
--     WriteBlock (one entry changes), Files (a file's attributes change), Span (a span of bytes
--     cut into blocks), Write (the loop of `Cache::write`) and Written (the whole operation);
--     ReadBlock, ReadLoop (the loop of `Cache::read`), Fill, FetchBlock, Fetch and FetchBlocks
--     (how `cacheBlocks` fills the blocks of a range), Served (what a read does and gives),
--     ReadSpan and ReadOut (the whole operation), and ReadWrite (a read after a write). What they
--     need of the callback for content is the record `Serves` of Cache/Fetch: for ranges that end
--     below a bound it answers, and without an error the buffer holds the bytes that the server
--     has, which do not change during the read. The bound is at most 2^63, since the code passes
--     offsets and sizes as signed numbers, and less where the server can do less. That a read
--     fails with the code of the fetch that failed is `FetchFailed` there. Gather, Gathered and
--     GatherBlocks follow the loops of `flushBlocks` and say what is pending, that is gathered
--     and not yet written back; Cleans, CleanBlocks and FlushBlocks are about the whole of it,
--     FlushFiles and FlushAll about the files of `flushDirtyBlocks`, FlushOut about `flush` and
--     `flushDirtyBlocks` as a whole. What they need of the callbacks is the record `Stores` of
--     Cache/Gather, for write-backs of at least one byte that end below a bound; `InBounds` says
--     that the blocks of a cache do, and `Refused` that an error code is the one of the last
--     write-back. Remove, Evict and EvictBlocks are about deleted entries and `evictBlocks`;
--     Keyed says that no block is twice in a map, DropBeyond, Beyond and Invalidate are about
--     `deleteEntryBeyond` and `invalidate`, Cut and Truncate about `truncate`. Reach has the
--     calls on a cache as steps, from the constructor on; Sound, SoundReads, SoundOps, SoundCalls
--     and SoundFlush say what each of them does to the invariant without any condition on the
--     callbacks.
--   NetFs: client_src/netfs.hpp and netfs.cpp. NetFs/State has the state, and the exchange of a
--     message and its response; what the other side answers is a parameter, `Peer`. NetFs/Remote
--     has the four callbacks of the cache, NetFs/Ops the operations of the file system.
--     NetFs/Serving joins the callback for content to what the reads of the cache need,
--     NetFs/Staleness is about the mark that a file gets when another client has changed it,
--     NetFs/Checking about what `access` and `stat` keep of a file and drop, NetFs/Dropping about
--     `unlink`, `rmdir` and `rename`. NetFs/Sound, SoundDrops and Reach take the operations as
--     steps, with what other clients do in between, as Cache/Reach does for the cache alone.
--   Server: server_src/msg_response.cpp and a round of the loop of
--     server_src/StorageServerConnection.cpp, in Server/Responders, over the file operations of
--     server_src/fileop.hpp as an interface. Server/Answers says what is answered to a request,
--     Server/Reading joins a read on the server to the client's cache, and Server/Storing writes
--     and truncations, by what the file operations promise (`ReadsDisk`, `WritesDisk`).
--     Server/FileOps has the file operations of server_src/fileop.cpp, over the system calls of
--     Server/System, which are a parameter with `errno` as a part of their state; PreadLoop,
--     FileReading, FileWriting, FileStoring and Listing are about read, write, truncate and
--     readdir. What each needs of the calls is a record (`ReadsFiles`, `StoresFiles`,
--     `SetsErrno`, `ListsEntries`). The position that `lseek` returns is cut to an `int` as in
--     the code, which bounds reads and writes of the server's files by 2^31. Server/Connection
--     has the loops of StorageServerConnection.cpp over a socket, which is a parameter, and over
--     the requests; Server/Transfer and Server/Rounds are about them.
--   Tests, Cache/Tests, Cache/FlushTests, Cache/ReachTests, NetFs/Tests, NetFs/CheckTests,
--     NetFs/UseTests, Server/Tests, Server/FileTests, Server/StoreTests, Server/WireTests: runs
--     at concrete inputs, and each theorem at one.
--
-- Fuel: the loops of `write` and `read`, of `FileOp::read` and of the socket have as many rounds
-- as bytes to copy, which is enough because a round takes at least one byte; the loop of
-- `readdir` has one round more than the stream has entries, and the loop over the requests one
-- more than there are requests. Every other loop is over a list or a counted range. `std::sort`
-- is insertion sort, and the order in which an `unordered_map` is walked is the order of its
-- list.
--
-- Not modelled: the connection of client_src/netfs.cpp, the descriptor streams
-- (client_src/stream.hpp), the FUSE front end (client_src/main.cpp), and the start-up of the
-- server, which are system calls and I/O for the most part; output, and the copies of fuse-3 and
-- googletest.
pub mod Prelude
pub mod Range
pub mod Serial
pub mod Time
pub mod Msg
mod Tests
pub mod Cache
pub mod NetFs
pub mod Server
