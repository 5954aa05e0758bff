-- ===== src/Mm/Unmap/First.antt =====
-- do_vmi_align_munmap: what it promises, and the split at the start of the range.
use vd2024_so2_private_code.Base.{
  ℕ, ◌%◌, ◌^◌, ◌≤◌, ◌<◌, ◌≡◌, ◌⊎◌, inl, inr, refl, none, Bool, true, false, ◌&&◌, ltb, leb,
  if◌then◌else◌, arith, ℤ, pos, ◌==ℤ◌, Bool-cases, ltb→lt,
}
use vd2024_so2_private_code.Mm.Types.{Vma}
use vd2024_so2_private_code.Mm.Space.{Space}
use vd2024_so2_private_code.Mm.Vmas.{All, Mem, IsVma, IsCut, IsMapleTree, page}
use vd2024_so2_private_code.Mm.Vmas.Order.{All-map}
use vd2024_so2_private_code.Mm.Vmas.Member.{All-Mem}
use vd2024_so2_private_code.Mm.Vmas.Pages.{IsOrdered-IsVma}
use vd2024_so2_private_code.Mm.Vmas.Accounted.{IsAccounted, Kept, Kept-self}
use vd2024_so2_private_code.Mm.Split.{split_vma_unchecked}
use vd2024_so2_private_code.Mm.Split.Answer.{split_vma_unchecked-Cut, Cut-Kept}
use vd2024_so2_private_code.Mm.Unmap.{UnmapEnv, split_first}

-- `vma` is the first vma that ends above `start`, and it begins below `end`.
pub record IsFirst (start end : ℕ) (vma : Vma) (s : Space) : Type 0 where
  pub member : Mem vma s.vmas
  pub ends : start < vma.vm_end
  pub begins : vma.vm_start < end
  pub before : All (λ w. (w.vm_end ≤ start) ⊎ (vma.vm_start ≤ w.vm_start)) s.vmas

-- What unmapping [start, end) promises: nothing is at an address in it, every other address has the
-- page that it had, and the lock is dropped if that was asked for.
pub record IsUnmapped (start end : ℕ) (unlock : Bool) (s s' : Space) : Type 0 where
  pub accounted : IsAccounted s'
  pub page :
      (addr : ℕ)
      → page s'.vmas addr ≡ (if leb start addr && ltb addr end then none else page s.vmas addr)
  pub lock : s'.mmap_lock ≡ (if unlock then false else s.mmap_lock)
  pub kernel : s'.kernel ≡ s.kernel
  pub brk : s'.mm.brk ≡ s.mm.brk
  pub def_flags : s'.mm.def_flags ≡ s.mm.def_flags
  pub committed : s.committed < 2 ^ 64 → s'.committed < 2 ^ 64

-- After an error nothing has changed for the process.
abbrev pub Unmaps : ℕ → ℕ → Bool → Space → ℤ × Space → Type 0
Unmaps start end unlock s (r, s') =
    (((r ==ℤ pos 0) ≡ false) × Kept s s') ⊎ ((r ≡ pos 0) × IsUnmapped start end unlock s s')

module _ (e : UnmapEnv) (laws : IsMapleTree e.split.tree) (start end : ℕ) (low : start % 4096 ≡ 0)
    (high : end % 4096 ≡ 0) (some_pages : start < end) where
  -- Where the loop begins: at the first vma of the range, none of which is partly below it.
  abbrev pub Begins : Space → ℤ × Vma × Space → Type 0
  Begins s (r, v, s') =
      Kept s s'
      × (((r ==ℤ pos 0) ≡ false)
          ⊎ ((r ≡ pos 0)
              × IsFirst start end v s'
              × (start ≤ v.vm_start)
              × All (IsCut start) s'.vmas))

  pub split_first-Begins :
      (vma : Vma) (s : Space)
      → IsAccounted s
      → IsFirst start end vma s
      → Begins s (split_first e start end vma s)
  unfolding split_first
  split_first-Begins vma s acc first =
      let good = All-Mem IsVma vma s.vmas (IsOrdered-IsVma 0 s.vmas acc.ordered) first.member in
      let result = split_vma_unchecked e.split vma start true s in
      elim (Bool-cases (ltb vma.vm_start start)) [
        | inr within ↦
            let above : start ≤ vma.vm_start = ground (arith, within) in
            rw within (
              Kept-self s acc,
              inr (
                refl,
                first,
                above,
                All-map (λ w. (w.vm_end ≤ start) ⊎ (vma.vm_start ≤ w.vm_start)) (IsCut start) s.vmas
                    (λ w h. lower w above h) first.before,
              ),
            )
        | inl below ↦
            let below' = ltb→lt vma.vm_start start below in
            elim (Bool-cases
              (ltb end vma.vm_end && leb e.split.sysctl_max_map_count s.mm.map_count)) [
                | inl full ↦ rw (below, full) (Kept-self s acc, inl refl)
                | inr room ↦
                    let (kept, answer) =
                      Cut-Kept e.split laws vma start true s acc.ordered first.member good below'
                        first.ends low result acc
                        (split_vma_unchecked-Cut e.split laws vma start true s acc.ordered
                          first.member good below' first.ends low) in
                    rw (below, room)
                      (
                        kept,
                        elim answer [
                          | inl (failed, same) ↦ inl failed
                          | inr (ok, parted) ↦
                              let (p0, p1, p2, p3, p4) = parted.parts in
                              let place = parted.place in
                              inr (
                                ok,
                                record {
                                  member = parted.member;
                                  ends = ground arith;
                                  begins = omega arith;
                                  before =
                                      All-map (IsCut start)
                                        (λ w. (w.vm_end ≤ start) ⊎ (result.1.vm_start ≤ w.vm_start))
                                        result.2.vmas (λ w h. upper w result.1 place h) parted.cut;
                                },
                                omega arith,
                                parted.cut,
                              )
                        ],
                      )
              ]
      ]
    where
      lower : {a : ℕ} (w : Vma) → start ≤ a → (w.vm_end ≤ start) ⊎ (a ≤ w.vm_start) → IsCut start w
      lower w h k = ground arith

      upper :
          (w v : Vma)
          → v.vm_start ≡ start
          → IsCut start w
          → (w.vm_end ≤ start) ⊎ (v.vm_start ≤ w.vm_start)
      upper w v h k = ground arith
