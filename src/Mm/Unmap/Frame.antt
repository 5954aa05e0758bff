-- ===== src/Mm/Unmap/Frame.antt =====
-- What unmapping never touches, whatever the vmas are, and when it drops the lock.
use vd2024_so2_private_code.Base.{
  ℕ, ◌≡◌, inl, inr, refl, List, [], ◌∷◌, Bool, true, false, ltb, ◌&&◌, if◌then◌else◌, ℤ, pos, ◌==ℤ◌,
  arith, Bool-cases, sub64, add64,
}
use vd2024_so2_private_code.Mm.Types.{Vma, has, vm_account}
use vd2024_so2_private_code.Mm.Merge.{vma_pages}
use vd2024_so2_private_code.Mm.Accounting.{MappingKinds, vm_stat_account}
use vd2024_so2_private_code.Mm.Accounting.Counters.{vm_stat_account_keeps}
use vd2024_so2_private_code.Mm.Space.{Space}
use vd2024_so2_private_code.Mm.Vmas.{from}
use vd2024_so2_private_code.Mm.Split.Frame.{IsFramed, IsFramed-trans, split_vma_unchecked-IsFramed}
use vd2024_so2_private_code.Mm.Unmap.{
  UnmapEnv, Gathered, vm_unacct_memory, remove_vmas, remove_mt, unlocked, split_first, split_end,
  detach, gather_one, gather, cleared, clear_range, gather_from, do_vmi_align_munmap, do_vma_munmap,
}

remove_vmas-IsFramed :
    (k : MappingKinds) (nr : ℕ) (vs : List Vma) (s : Space) → IsFramed s (remove_vmas k nr vs s)
unfolding remove_vmas vm_unacct_memory
remove_vmas-IsFramed k nr [] s = (refl, refl, refl, refl)
remove_vmas-IsFramed k nr (v ∷ vs) s =
    let t = record s { mm = vm_stat_account k s.mm v.vm_flags (sub64 0 (vma_pages v)) } in
    let nr' = if has v.vm_flags vm_account then add64 nr (vma_pages v) else nr in
    let (locked, count, brk, def_flags) =
      vm_stat_account_keeps k s.mm v.vm_flags (sub64 0 (vma_pages v)) in
    IsFramed-trans s t (remove_vmas k nr' vs t) (refl, refl, brk, def_flags)
      (remove_vmas-IsFramed k nr' vs t)

-- The lock is dropped on success only, if that was asked for.
abbrev pub Drops : Bool → Space → ℤ × Space → Type 0
Drops unlock s (r, s') =
    (s'.mmap_lock ≡ (if (r ==ℤ pos 0) && unlock then false else s.mmap_lock))
    × (s'.kernel ≡ s.kernel)
    × (s'.mm.brk ≡ s.mm.brk)
    × (s'.mm.def_flags ≡ s.mm.def_flags)

module _ (e : UnmapEnv) (start end : ℕ) where
  split_end-IsFramed : (next : Vma) (s : Space) → IsFramed s (split_end e start end next s).2
  unfolding split_end
  split_end-IsFramed next s = ground (arith, split_vma_unchecked-IsFramed e.split next end false s)

  split_first-IsFramed : (vma : Vma) (s : Space) → IsFramed s (split_first e start end vma s).2
  unfolding split_first
  split_first-IsFramed vma s = ground (arith, split_vma_unchecked-IsFramed e.split vma start true s)

  gather_one-IsFramed :
      (next : Vma) (g : Gathered) (s : Space) → IsFramed s (gather_one e start end next g s).2
  unfolding gather_one detach
  gather_one-IsFramed next g s = ground (arith, split_end-IsFramed next s)

  gather-IsFramed :
      (next : Vma) (rest : List Vma) (g : Gathered) (s : Space)
      → IsFramed s (gather e start end next rest g s).2
  unfolding gather
  gather-IsFramed next [] g s = gather_one-IsFramed next g s
  gather-IsFramed next (after ∷ rest) g s =
      let (r, g', s') = gather_one e start end next g s in
      let one = gather_one-IsFramed next g s in
      elim (Bool-cases ((r ==ℤ pos 0) && ltb after.vm_start end)) [
        | inl again ↦
            rw (gather, again)
              (IsFramed-trans s s' (gather e start end after rest g' s').2 one
                (gather-IsFramed after rest g' s'))
        | inr stop ↦ rw (gather, stop) one
      ]

  cleared-Drops :
      (unlock : Bool) (g : Gathered) (s s1 : Space)
      → IsFramed s s1
      → Drops unlock s (pos 0, cleared e start end unlock g s1)
  unfolding cleared remove_mt
  cleared-Drops unlock g s s1 h =
      let t = record s1 {
        vmas = e.split.tree.vma_iter_clear start end s1.vmas;
        mm = record s1.mm {
          locked_vm = sub64 s1.mm.locked_vm g.locked_vm;
          map_count = sub64 s1.mm.map_count g.count;
        };
      } in
      unlocked-Drops unlock s (remove_vmas e.kinds 0 g.detached t) (
        IsFramed-trans s s1 (remove_vmas e.kinds 0 g.detached t) h
          (remove_vmas-IsFramed e.kinds 0 g.detached t))
    where
      unlocked-Drops :
          (unlock : Bool) (s u : Space) → IsFramed s u → Drops unlock s (pos 0, unlocked unlock u)
      unlocked-Drops true s u (a, b, c, d) = (refl, b, c, d)
      unlocked-Drops false s u h = h

  fails-Drops :
      (unlock : Bool) (r : ℤ) (s s1 : Space)
      → (r ==ℤ pos 0) ≡ false
      → IsFramed s s1
      → Drops unlock s (r, s1)
  fails-Drops unlock r s s1 failed h = rw failed h

  clear_range-Drops :
      (unlock : Bool) (r : ℤ) (g : Gathered) (s s1 : Space)
      → IsFramed s s1
      → Drops unlock s (clear_range e start end unlock (r, g, s1))
  unfolding clear_range
  clear_range-Drops unlock r g s s1 h = elim (Bool-cases (r ==ℤ pos 0)) [
    | inr failed ↦ rw failed (fails-Drops unlock r s s1 failed h)
    | inl ok ↦ elim (Bool-cases (e.vma_iter_clear_gfp s1.vmas start end ==ℤ pos 0)) [
      | inr failed ↦
          rw (ok, failed)
            (fails-Drops unlock (e.vma_iter_clear_gfp s1.vmas start end) s s1 failed h)
      | inl done ↦ rw (ok, done) (cleared-Drops unlock g s s1 h)
    ]
  ]

  pub do_vmi_align_munmap-Drops :
      (vma : Vma) (unlock : Bool) (s : Space)
      → Drops unlock s (do_vmi_align_munmap e start end vma unlock s)
  unfolding do_vmi_align_munmap gather_from
  do_vmi_align_munmap-Drops vma unlock s =
      let (r, v, s1) = split_first e start end vma s in
      let framed = split_first-IsFramed vma s in
      let g : Gathered = record { count = 0; locked_vm = 0; detached = [] } in
      let rest = from v.vm_end s1.vmas in
      let (r2, g2, s2) = gather e start end v rest g s1 in
      elim (Bool-cases (r ==ℤ pos 0)) [
        | inr failed ↦ rw failed (fails-Drops unlock r s s1 failed framed)
        | inl ok ↦ rw ok (
            clear_range-Drops unlock r2 g2 s s2
              (IsFramed-trans s s1 s2 framed (gather-IsFramed v rest g s1)))
      ]

  pub do_vma_munmap-Drops :
      (vma : Vma) (unlock : Bool) (s : Space)
      → e.arch_unmap start end s ≡ s
      → Drops unlock s (do_vma_munmap e start end vma unlock s)
  unfolding do_vma_munmap
  do_vma_munmap-Drops vma unlock s h = rw h (do_vmi_align_munmap-Drops vma unlock s)
