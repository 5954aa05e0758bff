-- ===== src/Mm/Unmapped/Found.antt =====
-- What vm_unmapped_area of mm/mmap.c answers.
use vd2024_so2_private_code.Base.{
  if_lem, false, ℕ, suc, ◌+◌, ◌^◌, ◌<◌, ◌≡◌, max, inl, refl, Option, some, arith, ltb, add64, err64,
  enomem, if◌then◌else◌,
}
use vd2024_so2_private_code.Mm.Types.{has}
use vd2024_so2_private_code.Mm.Tree.{VmaTree, IsTree}
use vd2024_so2_private_code.Mm.Unmapped.{
  VmUnmappedAreaInfo, vm_unmapped_area_topdown, unmapped_area, unmapped_area_topdown,
  vm_unmapped_area,
}
use vd2024_so2_private_code.Mm.Unmapped.Search.{IsArea, search_up-finds}
use vd2024_so2_private_code.Mm.Unmapped.Down.{HasRoom, search_down-finds}

abbrev FoundAt : VmaTree → VmUnmappedAreaInfo → ℕ → Option ℕ → Type 0
FoundAt t info low found =
    (addr : ℕ) × (found ≡ some addr) × IsArea t info.length low info.high_limit addr

lower_limit : (a b : ℕ) → (if ltb a b then b else a) ≡ max a b
lower_limit a b = ground arith

no_overflow : (a b : ℕ) → a < 2 ^ 64 → b < 2 ^ 64 → ltb (add64 a b) a ≡ false → add64 a b ≡ a + b
no_overflow a b h k fits = ground arith

module _ (t : VmaTree) (info : VmUnmappedAreaInfo) (mmap_min_addr : ℕ) (laws : IsTree t)
    (hp : 0 < info.high_limit) (hw : info.high_limit < 2 ^ 64) (lp : 0 < info.length)
    (lw : info.length < 2 ^ 64) (mw : info.align_mask < 2 ^ 64) where
  abbrev low : ℕ
  low = max info.low_limit mmap_min_addr

  unmapped_area-finds : FoundAt t info low (unmapped_area t info mmap_min_addr)
  unfolding unmapped_area
  unmapped_area-finds =
      if_lem (FoundAt t info low) _ _ _ (λ full. (err64 enomem, refl, inl refl))
        (λ fits.
          rw
            (
              lower_limit info.low_limit mmap_min_addr,
              no_overflow info.length info.align_mask lw mw fits,
            )
            (search_up-finds t info laws (suc info.high_limit) low hp hw lp (omega arith)
              (omega arith)))

  unmapped_area_topdown-finds :
      HasRoom t → FoundAt t info low (unmapped_area_topdown t info mmap_min_addr)
  unfolding unmapped_area_topdown
  unmapped_area_topdown-finds room =
      let h = info.high_limit in
      if_lem (FoundAt t info low) _ _ _ (λ full. (err64 enomem, refl, inl refl))
        (λ fits.
          rw
            (
              lower_limit info.low_limit mmap_min_addr,
              no_overflow info.length info.align_mask lw mw fits,
            )
            (search_down-finds t info laws room (suc h) low h hp hw lp (omega arith) (omega arith)))

  -- A request of vm_unmapped_area always gets its answer: -ENOMEM, or an address whose range is
  -- free and lies between the higher of the lower limit and mmap_min_addr, and the upper limit.
  -- The length and the upper limit are words that are not 0, the mask is a word, the tree keeps its
  -- laws, and no vma or guard gap begins at the address 0.
  pub vm_unmapped_area-finds :
      HasRoom t
      → (addr : ℕ) × (vm_unmapped_area t info mmap_min_addr ≡ some addr)
        × IsArea t info.length (max info.low_limit mmap_min_addr) info.high_limit addr
  unfolding vm_unmapped_area
  vm_unmapped_area-finds room =
      if_lem (FoundAt t info low) (has info.flags vm_unmapped_area_topdown) _ _
        (λ down. unmapped_area_topdown-finds room) (λ up. unmapped_area-finds)
