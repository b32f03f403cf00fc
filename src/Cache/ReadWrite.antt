-- ===== src/Cache/ReadWrite.antt =====
-- `Cache::write` and then `Cache::read`, of client_src/cache.cpp.
use net_fs.Prelude.{
  ℕ, suc, ◌+◌, ◌-◌, ◌<◌, ◌≤◌, min, max, List, [], ◌∷◌, length, get_elem?, get_elem?_within,
  get_elem?_beyond, ltb, Option, some, str_eq_iff, nat_eq, string_eq, Bool, find, ok, ◌≡◌, ◌⊎◌,
  refl, ap, ap₂, sym, subst, ◌∙◌, arith, Bool-cases, Option-cases, inl, inr, true,
}
use net_fs.Cache.Contents.{or_else}
use net_fs.Cache.State.{FileAttr, FileCache, Cache, Backend}
use net_fs.Cache.Valid.{IsValid}
use net_fs.Cache.Store.{file_facts}
use net_fs.Cache.Span.{in_span}
use net_fs.Cache.Files.{run_known}
use net_fs.Cache.Fetch.{Serves, FetchFailed}
use net_fs.Cache.Written.{Written, cached_byte, grown, file_facts-known, write_lem}
use net_fs.Cache.Served.{Bytes}
use net_fs.Cache.ReadOut.{read_lem}
use net_fs.Cache.Ops.{cache_file_attr, write, read}

-- Two lists with the same elements at every index are one list.
same_elements : (xs ys : List ℕ) → ((i : ℕ) → get_elem? xs i ≡ get_elem? ys i) → xs ≡ ys
same_elements [] [] h = refl
same_elements [] (y ∷ ys) h = absurd (let e = h 0 in cc)
same_elements (x ∷ xs) [] h = absurd (let e = h 0 in cc)
same_elements (x ∷ xs) (y ∷ ys) h =
    let head : x ≡ y = (let e = h 0 in cc) in
    ap₂ (λ (z : ℕ) (zs : List ℕ). z ∷ zs) head (same_elements xs ys (λ i. h (suc i)))

-- What is read at the place of a write.
Bytes-Written :
    (remote : List ℕ → ℕ → ℕ) (c c₁ : Cache) (f : List ℕ) (offset : ℕ) (buf bytes : List ℕ)
    → Written c c₁ f offset buf
    → Bytes remote c₁ f offset (length buf) bytes
    → bytes ≡ buf
Bytes-Written remote c c₁ f offset buf bytes w (len, given) = same_elements bytes buf (λ i.
    elim (Bool-cases (ltb i (length buf))) [
      | inl inner ↦
          let (b, there) = get_elem?_within buf i (ground arith) in
          let here : in_span offset (length buf) (offset + i) ≡ true = ground arith in
          let back : offset + i - offset ≡ i = omega arith in
          let written : cached_byte c₁ f (offset + i) ≡ some b =
            w.bytes f (offset + i)
            ∙ rw ((str_eq_iff f f).1 refl, here) (ap (get_elem? buf) back ∙ there) in
          ap (get_elem? bytes) (sym back)
          ∙ given (offset + i) here
          ∙ ap (λ (o : Option ℕ). or_else o (some (remote f (offset + i)))) written
          ∙ sym there
      | inr beyond ↦
          get_elem?_beyond bytes i (ground (arith, len))
          ∙ sym (get_elem?_beyond buf i (ground arith))
    ])

known_facts :
    (c : Cache) (f : List ℕ) (facts : FileAttr × Bool)
    → file_facts c f ≡ some facts
    → (fc : FileCache) × (find f c.file_map ≡ some fc) × (fc.attr ≡ facts.0)
known_facts c f facts h = elim (Option-cases (find f c.file_map)) [
  | inl miss ↦ absurd (unfold file_facts in ground arith)
  | inr (fc, found) ↦ let same = sym (file_facts-known c f fc found) ∙ h in (fc, found, cc)
]

attr_known :
    (c : Cache) (f : List ℕ) (fc : FileCache) (facts : FileAttr × Bool)
    → file_facts c f ≡ some facts
    → find f c.file_map ≡ some fc
    → fc.attr.size ≡ facts.0.size
attr_known c f fc facts h found =
    let same = sym (file_facts-known c f fc found) ∙ h in
    let attrs : fc.attr ≡ facts.0 = cc in ap (λ (a : FileAttr). a.size) attrs

-- How a read of `buf`'s place ends that was written before.
abbrev pub ReadsBack : {S : Type 0} → Backend S → List ℕ → ℕ → List ℕ → Cache → S → Type 0
ReadsBack {S} backend f offset buf c s =
    (code : ℕ) × (bytes : List ℕ) × (c' : Cache) × (s' : S) × (read backend f offset (length buf) c
        s
      ≡ ok (code, bytes, c', s'))
    × ((FetchFailed backend f code s' × (bytes ≡ [])) ⊎ ((code ≡ 0) × (bytes ≡ buf)))

read-Written :
    {S : Type 0} (backend : Backend S) (bound : ℕ) (remote : List ℕ → ℕ → ℕ)
    → Serves backend bound remote
    → (f : List ℕ) (offset : ℕ) (buf : List ℕ) (c c₁ : Cache) (s : S) (attr : FileAttr)
      (stale : Bool)
    → Written c c₁ f offset buf
    → file_facts c₁ f ≡ some (attr, stale)
    → offset + length buf ≤ attr.size
    → attr.size + c₁.block_size < bound
    → ReadsBack backend f offset buf c₁ s
read-Written {S} backend bound remote serves f offset buf c c₁ s attr stale w facts inside small =
    let (fc, found, same) = known_facts c₁ f (attr, stale) facts in
    elim (read_lem backend bound remote serves f offset (length buf) c₁ s 0 c₁ s w.valid
      (omega (arith, serves.within)) (omega (arith, serves.within))
      (run_known backend f c₁ s fc found)
      (λ fc' found'. omega (arith, attr_known c₁ f fc' (attr, stale) facts found'))) [
        | inl (failed, _) ↦ absurd (failed refl)
        | inr (_, fc', found', (code, bytes, c', s', run, _, ends)) ↦
            let size : fc'.attr.size ≡ attr.size = attr_known c₁ f fc' (attr, stale) facts found' in
            (
              code,
              bytes,
              c',
              s',
              run,
              elim ends [
                | inl failed ↦ inl failed
                | inr (done, given) ↦
                    let all : min (length buf) (fc'.attr.size - offset) ≡ length buf =
                      omega arith in
                    inr (
                      done,
                      Bytes-Written remote c c₁ f offset buf bytes w
                          (subst (λ (n : ℕ). Bytes remote c₁ f offset n bytes) all given),
                    )
              ],
            )
      ]

-- After a write to a file whose attributes are known or can be fetched, on a valid cache, a read
-- of the same place ends with the code of the last call of the callback for content, which
-- failed, or it returns what was written: the callback for content answers below a bound of at
-- most 2^63 that the ends of the write and of the file's last block keep.
pub read-write :
    {S : Type 0} (backend : Backend S) (bound : ℕ) (remote : List ℕ → ℕ → ℕ)
    → Serves backend bound remote
    → (f : List ℕ) (offset : ℕ) (buf : List ℕ) (c c₁ : Cache) (s s₁ : S) (attr : FileAttr)
      (stale : Bool)
    → IsValid c
    → cache_file_attr backend f c s ≡ ok (0, c₁, s₁)
    → file_facts c₁ f ≡ some (attr, stale)
    → max attr.size (offset + length buf) + c.block_size < bound
    → (c' : Cache) × (write backend f offset buf c s ≡ ok (0, c', s₁))
      × ReadsBack backend f offset buf c' s₁
unfolding grown
read-write backend bound remote serves f offset buf c c₁ s s₁ attr stale v h before fits =
    elim (write_lem backend f offset buf c s 0 c₁ s₁ v (omega (arith, serves.within)) h) [
      | inl (failed, _) ↦ absurd (failed refl)
      | inr (_, c', run, w, facts, before', after) ↦
          let same : attr ≡ facts.0 = (let e = sym before ∙ before' in cc) in
          let size : max facts.0.size (offset + length buf) ≡ max attr.size (offset + length buf) =
            ap (λ (a : FileAttr). max a.size (offset + length buf)) (sym same) in
          (
            c',
            run,
            read-Written backend bound remote serves f offset buf c c' s₁
                (record facts.0 { size = max facts.0.size (offset + length buf) }) facts.1 w after
                (omega arith) (omega (arith, w.same_size, size, fits)),
          )
    ]
