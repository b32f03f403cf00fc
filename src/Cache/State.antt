-- ===== src/Cache/State.antt =====
-- The state of `Cache` in client_src/cache.hpp, and the four functions that it is constructed with.
use net_fs.Prelude.{ℕ, List, Bool, Result}
use net_fs.Time.{FileTime}
use net_fs.Cache.Entry.{CacheEntry}

pub record CacheEntryId : Type 0 where
  pub filename : List ℕ
  pub block_num : ℕ

-- A node of `std::list`. The iterators that the entries hold stay on their nodes while the list
-- changes, so a node has a number of its own.
pub record Use : Type 0 where
  pub node : ℕ
  pub entry_id : CacheEntryId

pub record FileAttr : Type 0 where
  pub size : ℕ
  pub mode : ℕ
  pub time : FileTime

pub record FileCache : Type 0 where
  pub stale : Bool
  pub attr : FileAttr
  pub entries : List (ℕ × CacheEntry)

-- `next_node` is the number of the next node that is made.
pub record Cache : Type 0 where
  pub file_map : List (List ℕ × FileCache)
  pub recent_list : List Use
  pub next_node : ℕ
  pub block_size : ℕ
  pub last_read_hit : Bool

-- `S` is what stands behind the callbacks. Each returns its error code, what it leaves in the
-- arguments that it takes by reference, and the new state behind it; it may stop.
pub record Backend (S : Type 0) : Type 0 where
  pub content_wb : List ℕ → ℕ → List ℕ → FileTime → Bool → S → Result (ℕ × FileTime × Bool × S)
  pub attr_wb : List ℕ → FileAttr → Bool → S → Result (ℕ × FileAttr × Bool × S)
  -- the fourth argument is the buffer, the third component what it holds afterwards
  pub content_ft : List ℕ → ℕ → List ℕ → S → Result (ℕ × List ℕ × ℕ × S)
  pub attr_ft : List ℕ → S → Result (ℕ × FileAttr × S)
