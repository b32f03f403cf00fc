-- ===== src/Cache/Sound.antt =====
-- The invariant of `Cache` of client_src/cache.hpp, and the changes of single entries that keep it.
use net_fs.Prelude.{
  ℕ, suc, List, [], ◌∷◌, ◌++◌, length, none, some, ◌==◌, ==_iff, str_eq_iff, nat_eq, string_eq,
  Bool, true, false, find, find-put, put, at, at-find, put-Unique, Result, ok, assert, ◌>>=◌, ◌>>◌,
  >>=-eq-ok, ◌≡◌, refl, sym, ap, subst, ◌∙◌, arith, Option-cases, inl, inr,
}
use net_fs.Cache.Entry.{CacheEntry, empty_entry, entry_fetch}
use net_fs.Cache.Contents.{IsBlock, entry_fetch_lem, empty_entry-IsBlock}
use net_fs.Cache.State.{FileCache, Cache}
use net_fs.Cache.Blocks.{set_file, set_entry, new_entry}
use net_fs.Cache.Valid.{IsValid, use_of}
use net_fs.Cache.Store.{find_entry-file, set_entry-Stored, new_entry-Stored}
use net_fs.Cache.Ops.{fetch_block}
use net_fs.Cache.Keyed.{Keyed, put-Keyed}

-- Entries and usage list are well formed and point at each other, and no block is twice in a map.
pub record IsSound (c : Cache) : Type 0 where
  pub valid : IsValid c
  pub keyed : Keyed c

pub assert-eq-ok {κ} :
    {Out : Type κ} (holds : Bool) (next : Result Out) {result : Out}
    → (assert holds >> next) ≡ ok result
    → (holds ≡ true) × (next ≡ ok result)
assert-eq-ok true next h = (refl, h)
assert-eq-ok false next h = cc

pub at-eq-ok {ℓ} :
    {V : Type ℓ} (f : List ℕ) (m : List (List ℕ × V)) {v : V} → at f m ≡ ok v → find f m ≡ some v
at-eq-ok f m {v} h = elim (Option-cases (find f m)) [
  | inl miss ↦ absurd (unfold at in ground arith)
  | inr (w, there) ↦ let both : ok w ≡ ok v = sym (at-find f m there) ∙ h in there ∙ cc
]

pub same_result {ℓ} : {A : Type ℓ} {r : Result A} {a b : A} → r ≡ ok a → r ≡ ok b → a ≡ b
same_result h k = let both = sym h ∙ k in cc

pub set_entry-IsSound :
    (c : Cache) (f : List ℕ) (b : ℕ) (fc : FileCache) (e e' : CacheEntry) (c' : Cache)
    → IsSound c
    → find f c.file_map ≡ some fc
    → find b fc.entries ≡ some e
    → IsBlock c.block_size e'
    → e'.use_record ≡ e.use_record
    → set_entry f b e' c ≡ ok c'
    → IsSound c'
unfolding set_entry
set_entry-IsSound c f b fc e e' c' s known there block kept h =
    let (c'', run, stored) = set_entry-Stored c f b fc e e' s.valid known there block kept in
    let same : c'' ≡ c' = same_result run h in
    let fc' : FileCache = record fc { entries = put b e' fc.entries } in
    let here : set_file f fc' c ≡ c' =
      same_result (unfold set_entry in rw (at-find f c.file_map known) refl) h in
    record {
      valid = subst IsValid same stored.valid;
      keyed = subst Keyed here (
          put-Keyed c (set_file f fc' c) f fc' refl
            (put-Unique b e' fc.entries (s.keyed f fc known)) s.keyed);
    }

-- What `newEntry` leaves: the new entry, in a cache that keeps the invariant.
pub record Made (c : Cache) (f : List ℕ) (b : ℕ) (e : CacheEntry) (c' : Cache) : Type 0 where
  pub sound : IsSound c'
  pub block : IsBlock c'.block_size e
  pub same_size : c'.block_size ≡ c.block_size
  pub file : FileCache
  pub known : find f c'.file_map ≡ some file
  pub there : find b file.entries ≡ some e

pub new_entry-Made :
    (c : Cache) (f : List ℕ) (b : ℕ) (fc : FileCache) (e : CacheEntry) (c' : Cache)
    → IsSound c
    → find f c.file_map ≡ some fc
    → find b fc.entries ≡ none
    → new_entry f b c ≡ ok (e, c')
    → Made c f b e c'
unfolding new_entry
new_entry-Made c f b fc e c' s known absent h =
    let made : CacheEntry = empty_entry c.block_size c.next_node in
    let fc' : FileCache = record fc { entries = put b made fc.entries } in
    let c₀ : Cache = record c {
      file_map = put f fc' c.file_map;
      recent_list = c.recent_list ++ use_of f b c.next_node ∷ [];
      next_node = suc c.next_node;
    } in
    let run : new_entry f b c ≡ ok (made, c₀) = rw (at-find f c.file_map known, absent) refl in
    let (c₁, run₁, stored) = new_entry-Stored c f b fc s.valid known absent in
    let same : (made, c₀) ≡ (e, c') = same_result run h in
    let same₁ : (made, c₁) ≡ (e, c') = same_result run₁ h in
    let valid : IsValid c' =
      subst IsValid (ap (λ (t : CacheEntry × Cache). t.1) same₁) stored.valid in
    let keyed : Keyed c₀ =
      put-Keyed c c₀ f fc' refl (put-Unique b made fc.entries (s.keyed f fc known)) s.keyed in
    subst (λ (t : CacheEntry × Cache). Made c f b t.0 t.1) same
      (record {
        sound = record {
          valid = subst IsValid (sym (ap (λ (t : CacheEntry × Cache). t.1) same)) valid;
          keyed = keyed;
        };
        block = empty_entry-IsBlock c.block_size c.next_node;
        same_size = refl;
        file = fc';
        known = find-put f f fc' c.file_map ∙ ground (arith, str_eq_iff f f);
        there = find-put b b made fc.entries ∙ ground (arith, ==_iff b b);
      })

fetched_entry :
    (f : List ℕ) (b : ℕ) (block : List ℕ) (c c' : Cache) (fc : FileCache) (e e' : CacheEntry)
    → IsSound c
    → find f c.file_map ≡ some fc
    → find b fc.entries ≡ some e
    → IsBlock c.block_size e
    → entry_fetch block e ≡ ok e'
    → set_entry f b e' c ≡ ok c'
    → IsSound c'
unfolding entry_fetch
fetched_entry f b block c c' fc e e' s known there whole fetched set =
    let (len, _) = assert-eq-ok (length block == length e.content) _ fetched in
    let same_length : length block ≡ c.block_size =
      (==_iff (length block) (length e.content)).0 len ∙ whole.whole in
    let (e₁, run, block', _, kept, _, _) =
      entry_fetch_lem c.block_size block e s.valid.positive whole same_length in
    let same : e₁ ≡ e' = same_result run fetched in
    set_entry-IsSound c f b fc e e' c' s known there (subst (IsBlock c.block_size) same block')
      (ap (λ (d : CacheEntry). d.use_record) (sym same) ∙ kept) set

-- A fetched block put into a file.
pub fetch_block-IsSound :
    (f : List ℕ) (b : ℕ) (block : List ℕ) (c c' : Cache)
    → IsSound c
    → fetch_block f b block c ≡ ok c'
    → IsSound c'
unfolding fetch_block
fetch_block-IsSound f b block c c' s h =
    let (fc, found, next) = >>=-eq-ok (at f c.file_map) _ h in
    let known = at-eq-ok f c.file_map found in
    elim (Option-cases (find b fc.entries)) [
      | inr (e, there) ↦
          let (e', fetched, set) =
            >>=-eq-ok (entry_fetch block e) (λ d. set_entry f b d c) (rw there at next) in
          fetched_entry f b block c c' fc e e' s known there
            (s.valid.blocks f b e (find_entry-file c f b fc known ∙ there)) fetched set
      | inl absent ↦
          let ((e, c₁), made, next') =
            >>=-eq-ok (new_entry f b c)
              (λ (t : CacheEntry × Cache). entry_fetch block t.0 >>= (λ d. set_entry f b d t.1))
              (rw absent at next) in
          let m = new_entry-Made c f b fc e c₁ s known absent made in
          let (e', fetched, set) =
            >>=-eq-ok (entry_fetch block e) (λ d. set_entry f b d c₁) next' in
          fetched_entry f b block c₁ c' m.file e e' m.sound m.known m.there m.block fetched set
    ]
