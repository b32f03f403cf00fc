-- ===== src/Cache/Contents.antt =====
-- What a `CacheEntry` of client_src/cache.hpp holds after `write` and after `fetch`.
use net_fs.Prelude.{
  ℕ, ◌+◌, ◌-◌, ◌<◌, ◌≤◌, ◌^◌, List, [], ◌∷◌, length, get_elem?, leb, ltb, ◌==◌, ◌&&◌, ◌||◌, true,
  wrap64, ok, ◌≡◌, refl, sym, ◌∙◌, arith, Option, none, some, if◌then◌else◌, get_elem?_within,
  get_elem?_beyond, length-splice, get_elem?-splice, length-replicate, Bool-cases, inl, inr,
}
use net_fs.Range.{Range}
use net_fs.Range.Merge.{From}
use net_fs.Range.Sorted.{IsSorted, covers, insert_range-IsSorted}
use net_fs.Range.Canonical.{IsSorted-canonical}
use net_fs.Range.Overlay.{Within, overlay_lem}
use net_fs.Cache.Entry.{CacheEntry, dirty, empty_entry, copy_into, entry_write, entry_fetch}

-- The entry of a block of `block_size` bytes.
pub record IsBlock (block_size : ℕ) (e : CacheEntry) : Type 0 where
  pub whole : length e.content ≡ block_size
  pub sorted : IsSorted e.valid_ranges
  pub within : (x : ℕ) → covers e.valid_ranges x ≡ true → x < block_size

-- The valid byte at a place of the block, if there is one.
unfoldable pub byte_at : CacheEntry → ℕ → Option ℕ
byte_at e x = if covers e.valid_ranges x then get_elem? e.content x else none

pub covers-Within :
    (n lo : ℕ) (rs : List Range) → From lo rs → ((x : ℕ) → covers rs x ≡ true → x < n) → Within n rs
unfolding covers
covers-Within n lo [] f h = tt
covers-Within n lo (r ∷ rs) f h =
    let last : (r.end - 1) < n = h (r.end - 1) (ground arith) in
    (omega arith, covers-Within n (r.end + 1) rs f.2 (λ x c. h x (ground arith)))

pub empty_entry-IsBlock : (block_size node : ℕ) → IsBlock block_size (empty_entry block_size node)
unfolding empty_entry covers
empty_entry-IsBlock block_size node = record {
  whole = length-replicate block_size 0;
  sorted = tt;
  within = λ x h. absurd (cc);
}

pub byte_at-empty_entry : (block_size node x : ℕ) → byte_at (empty_entry block_size node) x ≡ none
unfolding byte_at empty_entry covers
byte_at-empty_entry block_size node x = refl

pub wrap64_small : {n m : ℕ} → n ≤ m → m < 2 ^ 64 → wrap64 n ≡ n
wrap64_small h k = omega arith

-- `CacheEntry::write` of bytes that fit into the block passes its assertion, and the entry stays
-- well formed. Afterwards it is dirty and keeps its record; the written bytes are the valid ones at
-- their places, and the other places are as they were.
pub entry_write_lem :
    (block_size offset : ℕ) (buf : List ℕ) (e : CacheEntry)
    → block_size < 2 ^ 64
    → IsBlock block_size e
    → 0 < length buf
    → offset + length buf ≤ block_size
    → (e' : CacheEntry) × (entry_write offset buf e ≡ ok e')
      × IsBlock block_size e'
      × (e'.state ≡ dirty)
      × (e'.use_record ≡ e.use_record)
      × ((x : ℕ)
          → byte_at e' x ≡ (
              if leb offset x && ltb x (offset + length buf)
              then get_elem? buf (x - offset)
              else byte_at e x))
unfolding entry_write copy_into byte_at
entry_write_lem block_size offset buf e small v some_bytes fits =
    let (ranges, run, sorted, covered) =
      insert_range-IsSorted offset (offset + length buf) e.valid_ranges (omega arith) v.sorted in
    let whole = v.whole in
    let passes : leb (offset + length buf) (length e.content) ≡ true = ground arith in
    (
      record e { content = copy_into offset buf e.content; valid_ranges = ranges; state = dirty },
      rw (wrap64_small fits small, passes, run) refl,
      record {
        whole = length-splice offset buf e.content (omega arith) ∙ v.whole;
        sorted = sorted;
        within = λ x c. ground (arith, covered x, v.within x);
      },
      refl,
      refl,
      λ x. ground (arith, covered x, get_elem?-splice offset buf e.content x (omega arith)),
    )

-- The first byte that there is.
abbrev pub or_else : Option ℕ → Option ℕ → Option ℕ
or_else none o = o
or_else (some b) o = some b

whole_range : ℕ → List Range
whole_range n = record { start = 0; end = n } ∷ []

covers-whole_range : (n x : ℕ) → covers (whole_range n) x ≡ ltb x n
unfolding covers whole_range
covers-whole_range n x = ground arith

-- A sorted list of ranges in a block that covers it all is the one range of the whole block.
pub whole_of_covers :
    (n : ℕ) (ranges : List Range)
    → 0 < n
    → IsSorted ranges
    → ((x : ℕ) → covers ranges x ≡ ltb x n)
    → ranges ≡ record { start = 0; end = n } ∷ []
unfolding whole_range
whole_of_covers n ranges h f same =
    IsSorted-canonical ranges (whole_range n) f (omega arith, h, tt)
      (λ x. same x ∙ sym (covers-whole_range n x))

fetched_byte :
    (n : ℕ) (e : CacheEntry) (fetched filled : List ℕ) (ranges : List Range) (x : ℕ)
    → length e.content ≡ n
    → length fetched ≡ n
    → covers ranges x ≡ (covers e.valid_ranges x || leb 0 x && ltb x n)
    → get_elem? filled x
      ≡ (if covers e.valid_ranges x then get_elem? e.content x else get_elem? fetched x)
    → (covers e.valid_ranges x ≡ true → x < n)
    → (if covers ranges x then get_elem? filled x else none)
      ≡ or_else (byte_at e x) (get_elem? fetched x)
unfolding byte_at
fetched_byte n e fetched filled ranges x whole len covered value within =
    elim (Bool-cases (covers e.valid_ranges x)) [
      | inl valid ↦
          let (b, here) = get_elem?_within e.content x (omega (arith, within valid)) in
          ground (arith, here)
      | inr missing ↦ elim (Bool-cases (ltb x n)) [
        | inl inner ↦ ground arith
        | inr beyond ↦ ground (arith, get_elem?_beyond fetched x (ground arith))
      ]
    ]

-- `CacheEntry::fetch` of a block passes its assertions. The entry is then valid from its first byte
-- to its last, in one range; a byte that was valid before is kept, and each other is the fetched
-- one. Its state and its record do not change.
pub entry_fetch_lem :
    (block_size : ℕ) (fetched : List ℕ) (e : CacheEntry)
    → 0 < block_size
    → IsBlock block_size e
    → length fetched ≡ block_size
    → (e' : CacheEntry) × (entry_fetch fetched e ≡ ok e')
      × IsBlock block_size e'
      × (e'.state ≡ e.state)
      × (e'.use_record ≡ e.use_record)
      × (e'.valid_ranges ≡ record { start = 0; end = block_size } ∷ [])
      × ((x : ℕ) → byte_at e' x ≡ or_else (byte_at e x) (get_elem? fetched x))
unfolding entry_fetch byte_at
entry_fetch_lem block_size fetched e pos v len =
    let whole = v.whole in
    let inside =
      covers-Within (length e.content) 0 e.valid_ranges v.sorted
        (λ x c. ground (arith, v.within x c)) in
    let (filled, laid, len', values) =
      overlay_lem e.content e.valid_ranges fetched inside (omega arith) in
    let (ranges, run, sorted, covered) =
      insert_range-IsSorted 0 (length e.content) e.valid_ranges (omega arith) v.sorted in
    let all : (x : ℕ) → covers ranges x ≡ ltb x block_size =
      λ x. ground (arith, covered x, v.within x) in
    let one = whole_of_covers block_size ranges pos sorted all in
    let passes : (length fetched == length e.content) ≡ true = ground arith in
    (
      record e { content = filled; valid_ranges = ranges },
      rw (passes, laid, run) refl,
      record { whole = len' ∙ len; sorted = sorted; within = λ x c. ground (arith, all x) },
      refl,
      refl,
      one,
      λ x.
          fetched_byte (length e.content) e fetched filled ranges x refl (omega arith) (covered x)
            (values x) (λ c. ground (arith, v.within x c)),
    )
