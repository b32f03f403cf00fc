-- ===== src/Cache/SoundCalls.antt =====
-- `cacheFileAttr`, `read`, `write` and `truncate` of client_src/cache.cpp as a whole, and the
-- invariant of the cache.
use net_fs.Prelude.{
  ℕ, ◌+◌, ◌%◌, ◌^◌, ◌<◌, List, length, ◌==◌, ltb, leb, ◌||◌, wrap64, nat_eq, string_eq, find, at,
  Result, ok, >>=-eq-ok, if◌then◌else◌, ◌≡◌, refl, ap, subst, arith, Bool-cases, Option-cases, inl,
  inr,
}
use net_fs.Cache.State.{Cache, Backend}
use net_fs.Cache.Blocks.{set_file, delete_entry_beyond, block_number, block_offset, end_block}
use net_fs.Cache.Ops.{
  cache_blocks, cache_file_attr, read_loop, read_within, read, grow, write_loop, write, resize,
  truncate,
}
use net_fs.Cache.Beyond.{delete_entry_beyond_lem}
use net_fs.Cache.Sound.{IsSound, assert-eq-ok, at-eq-ok, same_result}
use net_fs.Cache.SoundReads.{cache_blocks-IsSound, read_loop-IsSound}
use net_fs.Cache.SoundOps.{set_file-IsSound, new_file-IsSound, grow-entries, write_loop-IsSound}

-- The cache in the result of a run that is known.
abbrev cache_of : {S : Type 0} → ℕ × Cache × S → Cache
cache_of (code, c, s) = c

pub same_cache :
    {S : Type 0} {c c' : Cache} {s s' : S} {code code' : ℕ}
    → ◌≡◌ {A = Result (ℕ × Cache × S)} (ok (code, c, s)) (ok (code', c', s'))
    → IsSound c
    → IsSound c'
same_cache {S} {c} {c'} {s} {s'} {code} {code'} h sound =
    subst IsSound
      (ap (λ (t : ℕ × Cache × S). cache_of t)
        (same_result {A = ℕ × Cache × S} {r = ok (code, c, s)} refl h))
      sound

same_read :
    {S : Type 0} {c c' : Cache} {s s' : S} {code code' : ℕ} {bytes bytes' : List ℕ}
    → ◌≡◌ {A = Result (ℕ × List ℕ × Cache × S)}
        (ok (code, bytes, c, s))
        (ok (code', bytes', c', s'))
    → IsSound c
    → IsSound c'
same_read {S} {c} {c'} {s} {s'} {code} {code'} {bytes} {bytes'} h sound =
    subst IsSound
      (ap (λ (t : ℕ × List ℕ × Cache × S). t.2)
        (same_result {A = ℕ × List ℕ × Cache × S} {r = ok (code, bytes, c, s)} refl h))
      sound

rem_less : (n size : ℕ) → 0 < size → n % size < size
rem_less n size h = omega arith

module _ {S : Type 0} (backend : Backend S) (f : List ℕ) where
  pub cache_file_attr-IsSound :
      (c c' : Cache) (s s' : S) (code : ℕ)
      → IsSound c
      → cache_file_attr backend f c s ≡ ok (code, c', s')
      → IsSound c'
  unfolding cache_file_attr
  cache_file_attr-IsSound c c' s s' code sound h = elim (Option-cases (find f c.file_map)) [
    | inr (fc, known) ↦ same_cache (rw (cache_file_attr, known) at h) sound
    | inl unknown ↦
        let ((code₁, attr, s₁), _, h₁) =
          >>=-eq-ok (backend.attr_ft f s) _ (rw (cache_file_attr, unknown) at h) in
        elim (Bool-cases (code₁ == 0)) [
          | inl done ↦ same_cache (rw done at h₁) (new_file-IsSound c f attr sound unknown)
          | inr failed ↦ same_cache (rw failed at h₁) sound
        ]
  ]

  read_within-IsSound :
      (offset size : ℕ) (c c' : Cache) (s s' : S) (code : ℕ) (bytes : List ℕ)
      → IsSound c
      → read_within backend f offset size c s ≡ ok (code, bytes, c', s')
      → IsSound c'
  unfolding read_within
  read_within-IsSound offset size c c' s s' code bytes sound h =
      let ((code₁, c₁, s₁), cached, h₁) =
        >>=-eq-ok
          (cache_blocks backend f (block_number c offset) (end_block c (wrap64 (offset + size))) c
            s)
          _ h in
      let sound₁ = cache_blocks-IsSound backend f _ _ c c₁ s s₁ code₁ sound cached in
      elim (Bool-cases (code₁ == 0)) [
        | inl done ↦
            let ((bytes', c₂), given, h₂) =
              >>=-eq-ok (read_loop size f (block_number c₁ offset) (block_offset c₁ offset) size c₁)
                _ (rw done at h₁) in
            same_read h₂ (read_loop-IsSound size f _ _ size c₁ c₂ bytes' sound₁ given)
        | inr failed ↦ same_read (rw failed at h₁) sound₁
      ]

  pub read-IsSound :
      (offset size : ℕ) (c c' : Cache) (s s' : S) (code : ℕ) (bytes : List ℕ)
      → IsSound c
      → read backend f offset size c s ≡ ok (code, bytes, c', s')
      → IsSound c'
  unfolding read
  read-IsSound offset size c c' s s' code bytes sound h =
      let ((code₁, c₁, s₁), asked, h₁) = >>=-eq-ok (cache_file_attr backend f c s) _ h in
      let sound₁ = cache_file_attr-IsSound c c₁ s s₁ code₁ sound asked in
      elim (Bool-cases (code₁ == 0)) [
        | inr failed ↦ same_read (rw failed at h₁) sound₁
        | inl done ↦
            let (fc, _, h₀) = >>=-eq-ok (at f c₁.file_map) _ (rw done at h₁) in
            let (_, h₂) = assert-eq-ok (ltb offset (2 ^ 63)) _ h₀ in
            elim (Bool-cases (leb fc.attr.size offset || size == 0)) [
              | inl nothing ↦ same_read (rw nothing at h₂) sound₁
              | inr something ↦
                  read_within-IsSound offset _ c₁ c' s₁ s' code bytes sound₁ (rw something at h₂)
            ]
      ]

  pub write-IsSound :
      (offset : ℕ) (buf : List ℕ) (c c' : Cache) (s s' : S) (code : ℕ)
      → IsSound c
      → write backend f offset buf c s ≡ ok (code, c', s')
      → IsSound c'
  unfolding write
  write-IsSound offset buf c c' s s' code sound h =
      let ((code₁, c₁, s₁), asked, h₁) = >>=-eq-ok (cache_file_attr backend f c s) _ h in
      let sound₁ = cache_file_attr-IsSound c c₁ s s₁ code₁ sound asked in
      elim (Bool-cases (code₁ == 0)) [
        | inr failed ↦ same_cache (rw failed at h₁) sound₁
        | inl done ↦
            let (fc, found, h₂) = >>=-eq-ok (at f c₁.file_map) _ (rw done at h₁) in
            let known = at-eq-ok f c₁.file_map found in
            let end : ℕ = wrap64 (offset + length buf) in
            let grown : Cache = set_file f (grow end fc) c₁ in
            let sound₂ : IsSound grown =
              set_file-IsSound c₁ f fc (grow end fc) sound₁ known (grow-entries end fc) in
            let (c₂, loop, h₃) =
              >>=-eq-ok
                (write_loop (length buf) f (block_number c₁ offset) (block_offset c₁ offset) buf
                  grown)
                _ h₂ in
            same_cache h₃ (
              write_loop-IsSound (length buf) f _ _ buf grown c₂ sound₂
                (rem_less offset c₁.block_size sound₁.valid.positive) loop)
      ]

  resize-IsSound :
      (size : ℕ) (c c' : Cache) (s s' : S) (code : ℕ)
      → IsSound c
      → resize backend f size c s ≡ ok (code, c', s')
      → IsSound c'
  unfolding resize
  resize-IsSound size c c' s s' code sound h =
      let (fc, found, h₁) = >>=-eq-ok (at f c.file_map) _ h in
      let known = at-eq-ok f c.file_map found in
      let ((code₁, attr, stale, s₁), _, h₂) =
        >>=-eq-ok (backend.attr_wb f (record fc.attr { size = size }) fc.stale s) _ h₁ in
      same_cache h₂
        (set_file-IsSound c f fc (record fc { attr = attr; stale = stale }) sound known refl)

  pub truncate-IsSound :
      (size : ℕ) (c c' : Cache) (s s' : S) (code : ℕ)
      → IsSound c
      → truncate backend f size c s ≡ ok (code, c', s')
      → IsSound c'
  unfolding truncate
  truncate-IsSound size c c' s s' code sound h =
      let ((code₁, c₁, s₁), asked, h₁) = >>=-eq-ok (cache_file_attr backend f c s) _ h in
      let sound₁ = cache_file_attr-IsSound c c₁ s s₁ code₁ sound asked in
      elim (Bool-cases (code₁ == 0)) [
        | inr failed ↦ same_cache (rw failed at h₁) sound₁
        | inl done ↦
            let (fc, found, h₂) = >>=-eq-ok (at f c₁.file_map) _ (rw done at h₁) in
            let known = at-eq-ok f c₁.file_map found in
            elim (Bool-cases (ltb size fc.attr.size)) [
              | inl less ↦
                  let bound : ℕ = if size == 0 then 0 else end_block c₁ size in
                  let (c₂, cut, h₃) =
                    >>=-eq-ok (delete_entry_beyond f bound c₁) _ (rw less at h₂) in
                  let (d, _, run, removed, keyed, _, _, _) =
                    delete_entry_beyond_lem c₁ f bound fc sound₁.valid sound₁.keyed known in
                  let sound₂ : IsSound c₂ =
                    subst IsSound (same_result run cut)
                      (record { valid = removed.valid; keyed = keyed }) in
                  resize-IsSound size c₂ c' s₁ s' code sound₂ h₃
              | inr not_less ↦ elim (Bool-cases (ltb fc.attr.size size)) [
                | inl more ↦ resize-IsSound size c₁ c' s₁ s' code sound₁ (rw (not_less, more) at h₂)
                | inr same ↦ same_cache (rw (not_less, same) at h₂) sound₁
              ]
            ]
      ]
