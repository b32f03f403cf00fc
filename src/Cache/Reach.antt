-- ===== src/Cache/Reach.antt =====
-- What calls of client_src/cache.hpp can make of a `Cache` that the constructor built. A run that
-- an assertion stops makes no step.
use net_fs.Prelude.{ℕ, ◌<◌, ◌^◌, List, [], false, nat_eq, string_eq, find, ok, ◌≡◌}
use net_fs.Cache.State.{Cache, Backend}
use net_fs.Cache.Blocks.{find_use}
use net_fs.Cache.Valid.{find_entry}
use net_fs.Cache.Flush.{flush, flush_dirty_blocks, evict_blocks}
use net_fs.Cache.Ops.{cache_file_attr, read, write, truncate, invalidate}
use net_fs.Cache.Sound.{IsSound}
use net_fs.Cache.SoundOps.{invalidate-IsSound}
use net_fs.Cache.SoundCalls.{cache_file_attr-IsSound, read-IsSound, write-IsSound, truncate-IsSound}
use net_fs.Cache.SoundFlush.{flush-IsSound, flush_dirty_blocks-IsSound, evict_blocks-IsSound}

-- The constructor of `Cache`, without the four functions, which are the `Backend`.
unfoldable pub new_cache : ℕ → Cache
new_cache block_size = record {
  file_map = [];
  recent_list = [];
  next_node = 0;
  block_size = block_size;
  last_read_hit = false;
}

module _ {S : Type 0} (backend : Backend S) where
  -- One call, which returned.
  pub data Step : Cache → S → Cache → S → Type 0 where
    asked :
        {c c' : Cache} {s s' : S} (f : List ℕ) {code : ℕ}
        → cache_file_attr backend f c s ≡ ok (code, c', s')
        → Step c s c' s'
    has_read :
        {c c' : Cache} {s s' : S} (f : List ℕ) (offset size : ℕ) {code : ℕ} {bytes : List ℕ}
        → read backend f offset size c s ≡ ok (code, bytes, c', s')
        → Step c s c' s'
    wrote :
        {c c' : Cache} {s s' : S} (f : List ℕ) (offset : ℕ) (buf : List ℕ) {code : ℕ}
        → write backend f offset buf c s ≡ ok (code, c', s')
        → Step c s c' s'
    truncated :
        {c c' : Cache} {s s' : S} (f : List ℕ) (size : ℕ) {code : ℕ}
        → truncate backend f size c s ≡ ok (code, c', s')
        → Step c s c' s'
    flushed :
        {c c' : Cache} {s s' : S} (f : List ℕ) {code : ℕ}
        → flush backend f c s ≡ ok (code, c', s')
        → Step c s c' s'
    flushed_all :
        {c c' : Cache} {s s' : S} {code : ℕ}
        → flush_dirty_blocks backend c s ≡ ok (code, c', s')
        → Step c s c' s'
    evicted :
        {c c' : Cache} {s s' : S} (count : ℕ) {code : ℕ}
        → evict_blocks backend count c s ≡ ok (code, c', s')
        → Step c s c' s'
    invalidated : {c c' : Cache} {s : S} (f : List ℕ) → invalidate f c ≡ ok c' → Step c s c' s
    -- another client, or the server itself, changes what stands behind the functions
    changed : {c : Cache} {s s' : S} → Step c s c s'

  pub data Reached (block_size : ℕ) : Cache → S → Type 0 where
    start : {s : S} → Reached block_size (new_cache block_size) s
    next :
        {c c' : Cache} {s s' : S}
        → Reached block_size c s
        → Step c s c' s'
        → Reached block_size c' s'

pub new_cache-IsSound :
    (block_size : ℕ) → 0 < block_size → block_size < 2 ^ 64 → IsSound (new_cache block_size)
unfolding new_cache find_use find_entry find
new_cache-IsSound block_size positive small = record {
  valid = record {
    positive = positive;
    small = small;
    blocks = λ f b e h. absurd cc;
    recorded = λ f b e h. absurd cc;
    used = λ n u h. absurd cc;
    fresh = λ n u h. absurd cc;
    distinct = tt;
  };
  keyed = λ g fc h. absurd cc;
}

module _ {S : Type 0} (backend : Backend S) where
  Step-IsSound : {c c' : Cache} {s s' : S} → Step backend c s c' s' → IsSound c → IsSound c'
  Step-IsSound (asked f h) sound = cache_file_attr-IsSound backend f _ _ _ _ _ sound h
  Step-IsSound (has_read f offset size h) sound =
      read-IsSound backend f offset size _ _ _ _ _ _ sound h
  Step-IsSound (wrote f offset buf h) sound = write-IsSound backend f offset buf _ _ _ _ _ sound h
  Step-IsSound (truncated f size h) sound = truncate-IsSound backend f size _ _ _ _ _ sound h
  Step-IsSound (flushed f h) sound = flush-IsSound backend f _ _ _ _ _ sound h
  Step-IsSound (flushed_all h) sound = flush_dirty_blocks-IsSound backend _ _ _ _ _ sound h
  Step-IsSound (evicted count h) sound = evict_blocks-IsSound backend count _ _ _ _ _ sound h
  Step-IsSound (invalidated f h) sound = invalidate-IsSound f _ _ sound h
  Step-IsSound changed sound = sound

  -- A cache that calls in any order made of a new one, whose block size is positive and fits a
  -- `size_t`, is sound: every entry holds a full block with its valid ranges in order and is named
  -- by the node of the usage list that it points at, every node of the list names an entry that
  -- points back, nodes are distinct, and no map of blocks holds a block twice. This needs nothing
  -- of the functions behind the cache, and holds after calls that failed.
  pub Reached-IsSound :
      (block_size : ℕ) (c : Cache) (s : S)
      → 0 < block_size
      → block_size < 2 ^ 64
      → Reached backend block_size c s
      → IsSound c
  Reached-IsSound block_size c s positive small start = new_cache-IsSound block_size positive small
  Reached-IsSound block_size c s positive small (next r step) =
      Step-IsSound step (Reached-IsSound block_size _ _ positive small r)
