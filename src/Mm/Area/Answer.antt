-- ===== src/Mm/Area/Answer.antt =====
-- What get_unmapped_area and the generic searches of mm/mmap.c answer.
use vd2024_so2_private_code.Base.{
  ℕ, ◌+◌, ◌-◌, ◌%◌, ◌^◌, ◌≤◌, ◌<◌, ◌≡◌, ◌⊎◌, max, inl, inr, refl, Option, none, some, if_lem, true,
  false, ◌&&◌, arith, ltb, Option-cases, sub64, is_set, is_some, page_align, is_err_value,
  offset_in_page, err64, enomem, if◌then◌else◌,
}
use vd2024_so2_private_code.Mm.Types.{has}
use vd2024_so2_private_code.Mm.Tree.{VmaTree, IsTree, IsFree}
use vd2024_so2_private_code.Mm.Unmapped.{VmUnmappedAreaInfo, vm_unmapped_area}
use vd2024_so2_private_code.Mm.Unmapped.Search.{IsArea, IsArea-wider}
use vd2024_so2_private_code.Mm.Unmapped.Down.{HasRoom}
use vd2024_so2_private_code.Mm.Unmapped.Found.{vm_unmapped_area-finds}
use vd2024_so2_private_code.Mm.Area.{
  Layout, GetArea, AreaFunctions, map_fixed, find_vma_prev, is_before, is_after, takes_hint,
  generic_get_unmapped_area, generic_get_unmapped_area_topdown, fall_back, choose_area, check_area,
  get_unmapped_area,
}

module _ (t : VmaTree) (l : Layout) (mmap_end len : ℕ) (laws : IsTree t) (lp : 0 < len)
    (hp : 0 < mmap_end) (hw : mmap_end < 2 ^ 64) (lm : l.mmap_min_addr ≤ mmap_end)
    (fits : len ≤ mmap_end - l.mmap_min_addr) where
  -- A hint is taken only where its range is free and within the limits.
  takes_hint-IsFree :
      (addr : ℕ)
      → takes_hint t l mmap_end len addr ≡ true
      → (l.mmap_min_addr ≤ addr) × (addr + len ≤ mmap_end) × IsFree t.entries addr (addr + len)
  unfolding takes_hint find_vma_prev is_before is_after
  takes_hint-IsFree addr taken = elim (Option-cases (t.mas_walk addr)) [
    | inr (vma, at) ↦ ground (arith, laws.walk addr vma at, laws.start_gap vma)
    | inl hole ↦ elim (Option-cases (t.mas_next addr)) [
      | inl last ↦ (ground arith, ground arith, laws.gap addr (addr + len) hole (inl last))
      | inr (next, at) ↦ (
        ground arith,
        ground arith,
        laws.gap addr (addr + len) hole (inr (next, at, ground (arith, laws.start_gap next))),
      )
    ]
  ]

abbrev Gets : VmaTree → ℕ → ℕ → ℕ → Option ℕ → Type 0
Gets t len low high found = (addr : ℕ) × (found ≡ some addr) × IsArea t len low high addr

-- A search with given limits answers within wider ones.
search_within :
    (t : VmaTree) (info : VmUnmappedAreaInfo) (mmap_min_addr high : ℕ)
    → IsTree t
    → HasRoom t
    → 0 < info.high_limit
    → info.high_limit ≤ high
    → high < 2 ^ 64
    → 0 < info.length
    → info.length < 2 ^ 64
    → info.align_mask ≡ 0
    → Gets t info.length mmap_min_addr high (vm_unmapped_area t info mmap_min_addr)
search_within t info mmap_min_addr high laws room hp hh hw lp lw m =
    let (addr, found, area) =
      vm_unmapped_area-finds t info mmap_min_addr laws hp (omega arith) lp lw (omega arith) room in
    (
      addr,
      found,
      IsArea-wider t info.length (max info.low_limit mmap_min_addr) mmap_min_addr info.high_limit
          high addr (omega arith) hh area,
    )

module _ (t : VmaTree) (l : Layout) (addr len pgoff flags : ℕ) (laws : IsTree t) (room : HasRoom t)
    (lp : 0 < len) (lw : len < 2 ^ 64) (hp : 0 < l.arch_get_mmap_end addr len flags)
    (hw : l.arch_get_mmap_end addr len flags < 2 ^ 64)
    (lm : l.mmap_min_addr ≤ l.arch_get_mmap_end addr len flags)
    (free : has flags map_fixed ≡ false) where
  mmap_end : ℕ
  mmap_end = l.arch_get_mmap_end addr len flags

  hint_lem :
      (rest : Option ℕ)
      → ltb (sub64 mmap_end l.mmap_min_addr) len ≡ false
      → Gets t len l.mmap_min_addr mmap_end rest
      → Gets t len l.mmap_min_addr mmap_end (
          if has flags map_fixed
          then some addr
          else (if is_set addr && takes_hint t l mmap_end len (page_align addr)
              then some (page_align addr)
              else rest))
  unfolding mmap_end
  hint_lem rest fits found = rw free (
      if_lem (Gets t len l.mmap_min_addr mmap_end)
        (is_set addr && takes_hint t l mmap_end len (page_align addr)) _ _
        (λ taken. (
          page_align addr,
          refl,
          inr (
              takes_hint-IsFree t l mmap_end len laws lp hp hw lm (ground arith) (page_align addr)
                (ground arith)),
        ))
        (λ refused. found))

  -- Without MAP_FIXED the search from below answers -ENOMEM, or an address whose range is free and
  -- lies between mmap_min_addr and the end of the address space, be it the hint or another. That
  -- end is a word that is not 0 and not below mmap_min_addr, and the length is not 0.
  pub generic_get_unmapped_area-finds :
      (given : ℕ) × (generic_get_unmapped_area t l addr len pgoff flags ≡ some given)
      × IsArea t len l.mmap_min_addr (l.arch_get_mmap_end addr len flags) given
  unfolding generic_get_unmapped_area mmap_end
  generic_get_unmapped_area-finds =
      if_lem (Gets t len l.mmap_min_addr mmap_end) _ _ _ (λ long. (err64 enomem, refl, inl refl))
        (λ fits.
          hint_lem _ fits
            (search_within t _ l.mmap_min_addr mmap_end laws room hp (omega arith) hw lp lw refl))

  fall_back-finds :
      (found : Option ℕ)
      → Gets t len l.mmap_min_addr mmap_end found
      → Gets t len l.mmap_min_addr mmap_end (fall_back t l mmap_end len found)
  unfolding fall_back mmap_end
  fall_back-finds none (given, found, area) = ground arith
  fall_back-finds (some first) (given, found, area) =
      if_lem (Gets t len l.mmap_min_addr mmap_end) (is_set (offset_in_page first)) _ _
        (λ failed.
          search_within t _ l.mmap_min_addr mmap_end laws room hp (omega arith) hw lp lw refl)
        (λ good. (given, found, area))

  -- Without MAP_FIXED the search from above, with its fallback to the one from below, answers
  -- -ENOMEM, or an address whose range is free and lies between mmap_min_addr and the end of the
  -- address space. That end is a word that is not 0 and not below mmap_min_addr, the length is not
  -- 0, and the base of the process's mappings is not 0 and not past the end.
  pub generic_get_unmapped_area_topdown-finds :
      (let base = l.arch_get_mmap_base (if is_set addr then page_align addr else 0) l.mmap_base in
        (0 < base) × (base ≤ l.arch_get_mmap_end addr len flags))
      → (given : ℕ) × (generic_get_unmapped_area_topdown t l addr len pgoff flags ≡ some given)
        × IsArea t len l.mmap_min_addr (l.arch_get_mmap_end addr len flags) given
  unfolding generic_get_unmapped_area_topdown mmap_end
  generic_get_unmapped_area_topdown-finds (bp, bw) =
      if_lem (Gets t len l.mmap_min_addr mmap_end) _ _ _ (λ long. (err64 enomem, refl, inl refl))
        (λ fits. hint_lem _ fits (
          fall_back-finds _
            (search_within t _ l.mmap_min_addr mmap_end laws room bp bw hw lp lw refl)))

-- An error number as a word.
abbrev IsError : ℕ → Type 0
IsError addr = is_err_value addr ≡ true

-- What the checks of get_unmapped_area let through, whatever function chose the address, is an
-- error or a whole page with the range inside the address space of the task, and then it is the
-- address that the function chose. The hooks of the architecture and of the security modules answer
-- 0 or an error number, and the address space is below 2 ^ 63.
pub get_unmapped_area-checked :
    (l : Layout) (fs : AreaFunctions) (file : Option (Option GetArea))
    (addr len pgoff flags given : ℕ)
    → l.task_size < 2 ^ 63
    → ((a : ℕ)
        → is_set (l.security_mmap_addr a) ≡ true
        → is_err_value (l.security_mmap_addr a) ≡ true)
    → ((a n f : ℕ)
        → is_set (l.arch_mmap_check a n f) ≡ true
        → is_err_value (l.arch_mmap_check a n f) ≡ true)
    → get_unmapped_area l fs file addr len pgoff flags ≡ some given
    → IsError given
      ⊎ ((given % 4096 ≡ 0)
          × (given + len ≤ l.task_size)
          × (choose_area fs file flags addr len (if is_some file then pgoff else 0) flags
              ≡ some given))
unfolding get_unmapped_area check_area
get_unmapped_area-checked l fs file addr len pgoff flags given small security arch answer =
    elim (Option-cases
      (choose_area fs file flags addr len (if is_some file then pgoff else 0) flags)) [
        | inl stuck ↦ ground (arith, arch addr len flags)
        | inr (a, chosen) ↦ ground (arith, arch addr len flags, security a)
      ]

-- It answers where the function that it chooses does.
pub get_unmapped_area-some :
    (l : Layout) (fs : AreaFunctions) (file : Option (Option GetArea)) (addr len pgoff flags a : ℕ)
    → choose_area fs file flags addr len (if is_some file then pgoff else 0) flags ≡ some a
    → (given : ℕ) × (get_unmapped_area l fs file addr len pgoff flags ≡ some given)
unfolding get_unmapped_area
get_unmapped_area-some l fs file addr len pgoff flags a chosen = (
  if is_set (l.arch_mmap_check addr len flags)
      then l.arch_mmap_check addr len flags
      else (if ltb l.task_size len then err64 enomem else check_area l len a),
  ground arith,
)
