-- ===== src/Mm/Accounting/Counters.antt =====
-- The counters of pages of mm/mmap.c.
use vd2024_so2_private_code.Base.{
  ℕ, ◌+◌, ◌-◌, ◌/◌, ◌^◌, ◌≤◌, ◌<◌, ◌≡◌, List, [], ◌∷◌, arith, max, min, add64, sub64, shr_page,
}
use vd2024_so2_private_code.Mm.Types.{Vma, MmStruct}
use vd2024_so2_private_code.Mm.Accounting.{
  MappingKinds, vm_stat_account, count_pages, count_vma_pages_range,
}

-- The counters are words.
pub record AreWords (mm : MmStruct) : Type 0 where
  pub total : mm.total_vm < 2 ^ 64
  pub data_pages : mm.data_vm < 2 ^ 64
  pub exec : mm.exec_vm < 2 ^ 64
  pub stack : mm.stack_vm < 2 ^ 64

-- Pages that are accounted and then accounted with the opposite sign, as when a mapping is
-- removed, leave every counter as it was, whatever the flags and even if a counter wrapped.
pub stat_account_undone :
    (k : MappingKinds) (mm : MmStruct) (flags npages : ℕ)
    → AreWords mm
    → npages < 2 ^ 64
    → vm_stat_account k (vm_stat_account k mm flags npages) flags (sub64 0 npages) ≡ mm
unfolding vm_stat_account
stat_account_undone k mm flags npages w h = ground arith

-- Vmas as an iterator meets them between `addr` and `end`: not empty, in the range, in order and
-- apart, from `cursor` on.
abbrev pub InRange : ℕ → ℕ → ℕ → List Vma → Type 0
InRange addr end cursor [] = Unit {0}
InRange addr end cursor (v ∷ vs) =
    (cursor ≤ max addr v.vm_start)
    × (v.vm_start < v.vm_end)
    × (v.vm_start < end)
    × (addr < v.vm_end)
    × InRange addr end (min end v.vm_end) vs

count_pages-le :
    (addr end cursor nr_pages : ℕ) (vmas : List Vma)
    → addr ≤ end
    → cursor ≤ end
    → end < 2 ^ 64
    → nr_pages + (end - cursor) / 4096 < 2 ^ 64
    → InRange addr end cursor vmas
    → count_pages addr end nr_pages vmas ≤ nr_pages + (end - cursor) / 4096
unfolding count_pages
count_pages-le addr end cursor nr_pages [] o a b c h = omega arith
count_pages-le addr end cursor nr_pages (v ∷ vs) o a b c (h0, h1, h2, h3, h4) =
    let lo = max addr v.vm_start in
    let hi = min end v.vm_end in
    let counted : add64 nr_pages (shr_page (sub64 hi lo)) ≡ nr_pages + (hi - lo) / 4096 =
      omega arith in
    rw counted (
      omega (
        arith,
        count_pages-le addr end hi (nr_pages + (hi - lo) / 4096) vs o (omega arith) b (omega arith)
            h4,
      ))

-- The pages that a fixed mapping would take away are at most those that it asks for, so mmap_region
-- subtracts them from its own without wrapping.
pub count_range-le :
    (addr end : ℕ) (vmas : List Vma)
    → addr ≤ end
    → end < 2 ^ 64
    → InRange addr end addr vmas
    → count_vma_pages_range addr end vmas ≤ (end - addr) / 4096
unfolding count_vma_pages_range
count_range-le addr end vmas a b h =
    omega (arith, count_pages-le addr end addr 0 vmas a a b (omega arith) h)

pub vm_stat_account-total :
    (k : MappingKinds) (mm : MmStruct) (flags npages : ℕ)
    → (vm_stat_account k mm flags npages).total_vm ≡ add64 mm.total_vm npages
unfolding vm_stat_account
vm_stat_account-total k mm flags npages = ground arith

pub vm_stat_account_keeps :
    (k : MappingKinds) (mm : MmStruct) (flags npages : ℕ)
    → let mm' = vm_stat_account k mm flags npages in
      (mm'.locked_vm ≡ mm.locked_vm)
      × (mm'.map_count ≡ mm.map_count)
      × (mm'.brk ≡ mm.brk)
      × (mm'.def_flags ≡ mm.def_flags)
unfolding vm_stat_account
vm_stat_account_keeps k mm flags npages = ground arith
