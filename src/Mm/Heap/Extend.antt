-- ===== src/Mm/Heap/Extend.antt =====
-- do_brk_flags: a vma of the heap takes in the range after it.
use vd2024_so2_private_code.Base.{
  ℕ, ◌+◌, ◌%◌, ◌^◌, ◌<◌, ◌≡◌, ◌⊎◌, inl, inr, refl, List, none, true, ◌&&◌, ◌||◌, ltb, leb, arith,
  add64, shr_page, bit_and, Bool-cases,
}
use vd2024_so2_private_code.Mm.Types.{Vma, complement, vm_softdirty, vm_locked}
use vd2024_so2_private_code.Mm.Merge.{Attributes, vma_pages, can_vma_merge_after}
use vd2024_so2_private_code.Mm.Merge.Allowed.{can_vma_merge_after-IsAlike}
use vd2024_so2_private_code.Mm.Space.{Space}
use vd2024_so2_private_code.Mm.Vmas.{
  All, Mem, IsVma, IsOrdered, IsApart, IsWithin, IsMapleTree, holds, page_of,
}
use vd2024_so2_private_code.Mm.Vmas.Order.{All-map, All-both}
use vd2024_so2_private_code.Mm.Vmas.Member.{All-Mem, at-Mem, Mem-IsApart}
use vd2024_so2_private_code.Mm.Vmas.Pages.{IsOrdered-IsVma}
use vd2024_so2_private_code.Mm.Vmas.Store.{IsStored, over-fits, over-IsStored}
use vd2024_so2_private_code.Mm.Vmas.Accounted.{IsAccounted}
use vd2024_so2_private_code.Mm.Split.{
  init_vma_prep, init_multi_vma_prep, vma_complete, store_inserted,
}
use vd2024_so2_private_code.Mm.Heap.{HeapEnv, count_brk, can_extend, extended_vma, extend}
use vd2024_so2_private_code.Mm.Heap.Flags.{softdirty_hidden, softdirty_locked, mergeable-flags}
use vd2024_so2_private_code.Mm.Heap.Grow.{
  heap_page, IsMapped, Grows, unacct_fail-Grows, counted-IsAccounted,
}

module _ (e : HeapEnv) (laws : IsMapleTree e.unmap.split.tree) (addr len : ℕ)
    (low : addr % 4096 ≡ 0) (whole : len % 4096 ≡ 0) (some_pages : 0 < len)
    (high : addr + len < 2 ^ 64) where
  -- What the test on extending a vma makes sure of.
  record Extends (vma : Vma) (flags : ℕ) : Type 0 where
    ends : vma.vm_end ≡ addr
    policy : vma.vm_policy ≡ none
    file : vma.vm_file ≡ none
    pgoff : add64 vma.vm_pgoff (vma_pages vma) ≡ shr_page addr
    alike : bit_and vma.vm_flags (complement vm_softdirty) ≡ bit_and flags (complement vm_softdirty)
    locked : bit_and vma.vm_flags vm_locked ≡ bit_and flags vm_locked

  can_extend-Extends :
      (vma : Vma) (flags : ℕ) → can_extend e vma addr flags ≡ true → Extends vma flags
  unfolding can_extend
  can_extend-Extends vma flags can =
      let a : Attributes = record {
        vm_flags = flags;
        anon_vma = none;
        file = none;
        vm_userfaultfd_ctx = none;
        anon_name = none;
      } in
      let merges : can_vma_merge_after e.merge vma a (shr_page addr) ≡ true = ground (arith, can) in
      let ((alike, file), pgoff) =
        can_vma_merge_after-IsAlike e.merge vma a (shr_page addr) merges in
      let (same, locked) = mergeable-flags vma.vm_flags flags alike in
      record {
        ends = ground (arith, can);
        policy = ground (arith, can);
        file = file;
        pgoff = pgoff;
        alike = same;
        locked = locked;
      }

  extended_vma-page :
      (vma : Vma) (flags a : ℕ)
      → Extends vma flags
      → IsVma vma
      → (holds (extended_vma e vma addr len) a
          ≡ (holds vma a || (leb addr a && ltb a (addr + len))))
        × (holds vma a ≡ true → page_of (extended_vma e vma addr len) a ≡ page_of vma a)
        × ((leb addr a && ltb a (addr + len)) ≡ true
            → page_of (extended_vma e vma addr len) a ≡ heap_page flags a)
  unfolding extended_vma
  extended_vma-page vma flags a h g =
      let top : add64 addr len ≡ addr + len = omega arith in
      let hidden = softdirty_hidden vma.vm_flags in
      (
        rw top (ground (arith, h.ends)),
        λ inside. ground (arith, hidden),
        λ inside. ground (arith, inside, h.ends, h.policy, h.file, h.pgoff, h.alike, hidden),
      )

  beside :
      (vma : Vma) (vs : List Vma)
      → vma.vm_end ≡ addr
      → IsOrdered 0 vs
      → Mem vma vs
      → All (IsApart addr (addr + len)) vs
      → All (λ w. (w.vm_start ≡ vma.vm_start) ⊎ IsApart vma.vm_start (addr + len) w) vs
  beside vma vs ends o m apart =
      All-map
        (λ w.
          IsVma w × (((w ≡ vma) ⊎ IsApart vma.vm_start vma.vm_end w) × IsApart addr (addr + len) w))
        (λ w. (w.vm_start ≡ vma.vm_start) ⊎ IsApart vma.vm_start (addr + len) w) vs
        (λ w h. both w h)
        (All-both IsVma
          (λ w. ((w ≡ vma) ⊎ IsApart vma.vm_start vma.vm_end w) × IsApart addr (addr + len) w) vs
          (IsOrdered-IsVma 0 vs o)
          (All-both (λ w. (w ≡ vma) ⊎ IsApart vma.vm_start vma.vm_end w) (IsApart addr (addr + len))
            vs (Mem-IsApart vma 0 vs o m) apart))
    where
      both :
          (w : Vma)
          → IsVma w
            × (((w ≡ vma) ⊎ IsApart vma.vm_start vma.vm_end w) × IsApart addr (addr + len) w)
          → (w.vm_start ≡ vma.vm_start) ⊎ IsApart vma.vm_start (addr + len) w
      both w (good, (inl same, h)) = inl (rw same refl)
      both w (good, (inr c, h)) = ground (arith, good, c, h, ends)

  extended-IsMapped :
      (vma : Vma) (flags : ℕ) (s : Space)
      → IsAccounted s
      → All (IsApart addr (addr + len)) s.vmas
      → Mem vma s.vmas
      → can_extend e vma addr flags ≡ true
      → IsMapped addr (addr + len) (heap_page flags) s (
          count_brk e len flags (
            vma_complete e.unmap.split.tree (init_vma_prep vma) (record s {
              committed = add64 s.committed (shr_page len);
              vmas = e.unmap.split.tree.vma_iter_store (extended_vma e vma addr len) s.vmas;
            })))
  unfolding count_brk init_vma_prep init_multi_vma_prep vma_complete store_inserted extended_vma
  extended-IsMapped vma flags s acc apart m can =
      let vs = s.vmas in
      let v = extended_vma e vma addr len in
      let top : add64 addr len ≡ addr + len = omega arith in
      let fits = can_extend-Extends vma flags can in
      let old_good = All-Mem IsVma vma vs (IsOrdered-IsVma 0 vs acc.ordered) m in
      let good : IsVma v =
        (omega (arith, fits.ends, old_good), omega arith, old_good.2, omega arith) in
      let part : IsWithin v.vm_start v.vm_end vma = (omega arith, omega (arith, fits.ends)) in
      let rest : All (λ w. (w.vm_start ≡ vma.vm_start) ⊎ IsApart v.vm_start v.vm_end w) vs =
        rw top (beside vma vs fits.ends acc.ordered m apart) in
      let law = laws.store v vs acc.ordered (over-fits v vma good vs acc.ordered m part rest) in
      let stored = over-IsStored v vma good vs acc.ordered m part rest in
      let t = record s {
        committed = add64 s.committed (shr_page len);
        vmas = e.unmap.split.tree.vma_iter_store v vs;
      } in
      let stored' : IsStored v (λ f. f vma) vs t.vmas = rw law stored in
      let locked_eq = softdirty_locked vma.vm_flags in
      let same_locked = fits.locked in
      record {
        accounted =
            counted-IsAccounted e laws addr len low whole some_pages high v (λ f. f vma) flags s t
              acc stored' (omega arith) refl refl (omega (arith, fits.ends, old_good))
              (ground (arith, locked_eq, same_locked, fits.ends, old_good));
        page = λ a. ground (
          arith,
          stored'.at_addr a,
          at-Mem vma 0 vs a acc.ordered m,
          extended_vma-page vma flags a fits old_good,
        );
        lock = refl;
        kernel = refl;
        brk = refl;
        def_flags = refl;
      }

  -- A vma of the heap that takes in the range after it.
  pub extend-Grows :
      (vma : Vma) (flags : ℕ) (s : Space)
      → IsAccounted s
      → All (IsApart addr (addr + len)) s.vmas
      → s.committed < 2 ^ 64
      → Mem vma s.vmas
      → can_extend e vma addr flags ≡ true
      → Grows addr len flags s
          (extend e vma addr len flags (record s { committed = add64 s.committed (shr_page len) }))
  unfolding extend count_brk init_vma_prep init_multi_vma_prep vma_complete store_inserted
  extend-Grows vma flags s acc apart h m can =
      let t = record s { committed = add64 s.committed (shr_page len) } in
      elim (Bool-cases (e.unmap.split.vma_iter_prealloc s.vmas (extended_vma e vma addr len))) [
        | inl refused ↦
            rw refused (unacct_fail-Grows e laws addr len low whole some_pages high flags s h)
        | inr room ↦ rw room (inr (refl, extended-IsMapped vma flags s acc apart m can, refl))
      ]
