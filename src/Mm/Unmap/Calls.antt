-- ===== src/Mm/Unmap/Calls.antt =====
-- munmap and the other calls that unmap a range: their checks, their lock, and what is left.
use vd2024_so2_private_code.Base.{
  ℕ, ◌+◌, ◌%◌, ◌^◌, ◌≤◌, ◌<◌, ◌≡◌, ◌⊎◌, inl, inr, refl, Option, none, some, Bool, true, false, ◌&&◌,
  ◌||◌, ltb, leb, ◌==◌, is_set, if◌then◌else◌, arith, add64, sub64, page_align, offset_in_page, ℤ,
  pos, neg, ◌==ℤ◌, Bool-cases, Option-cases, einval, eintr,
}
use vd2024_so2_private_code.Mm.Types.{Vma}
use vd2024_so2_private_code.Mm.Space.{Space, mmap_write_lock_killable, mmap_write_unlock}
use vd2024_so2_private_code.Mm.Vmas.{All, IsApart, IsMapleTree, page}
use vd2024_so2_private_code.Mm.Vmas.Pages.{IsOrdered-IsVma}
use vd2024_so2_private_code.Mm.Vmas.Empty.{at-IsApart}
use vd2024_so2_private_code.Mm.Vmas.Accounted.{IsAccounted, IsAccounted-lock}
use vd2024_so2_private_code.Mm.Unmap.{
  UnmapEnv, do_vma_munmap, munmap_found, find_and_munmap, do_vmi_munmap, unlock_munmap,
  munmap_locked, vm_munmap_range, vm_munmap, munmap,
}
use vd2024_so2_private_code.Mm.Unmap.First.{IsFirst, IsUnmapped, Unmaps}
use vd2024_so2_private_code.Mm.Unmap.Range.{unlocked-IsUnmapped, do_vmi_align_munmap-Unmaps}

-- What is relied on: the tree does what it says, the architecture has nothing of its own to unmap,
-- and a process has whole pages below the end of the words.
pub record IsUnmapEnv (e : UnmapEnv) : Type 0 where
  pub tree : IsMapleTree e.split.tree
  pub arch : (start end : ℕ) (s : Space) → e.arch_unmap start end s ≡ s
  pub size : e.task_size + 4096 ≤ 2 ^ 64

-- A range that munmap takes: whole pages, at least one byte, within the process.
abbrev pub IsRange : UnmapEnv → ℕ → ℕ → Type 0
IsRange e start len = (start % 4096 ≡ 0) × (0 < len) × (start + len ≤ e.task_size)

abbrev pub Decides : UnmapEnv → ℕ → ℕ → Bool → Space → ℤ × Space → Type 0
Decides e start len unlock s (r, s') =
    ((IsRange e start len → ⊥) × (r ≡ neg einval) × (s' ≡ s))
    ⊎ (IsRange e start len × Unmaps start (start + page_align len) unlock s (r, s'))

module _ (e : UnmapEnv) (env : IsUnmapEnv e) where
  -- A range without vmas is unmapped already.
  nothing-IsUnmapped :
      (start end : ℕ) (s : Space)
      → IsAccounted s
      → All (IsApart start end) s.vmas
      → IsUnmapped start end false s s
  nothing-IsUnmapped start end s acc apart = record {
    accounted = acc;
    page = λ addr. elim (Bool-cases (leb start addr && ltb addr end)) [
      | inl inside ↦
          rw
            (
              inside,
              at-IsApart start end s.vmas addr (IsOrdered-IsVma 0 s.vmas acc.ordered) apart inside,
            )
            refl
      | inr outside ↦ rw outside refl
    ];
    lock = refl;
    kernel = refl;
    brk = refl;
    def_flags = refl;
    committed = λ c. c;
  }

  find_and_munmap-Unmaps :
      (start end : ℕ) (unlock : Bool) (s : Space)
      → start % 4096 ≡ 0
      → end % 4096 ≡ 0
      → start < end
      → IsAccounted s
      → Unmaps start end unlock s (find_and_munmap e start end unlock s)
  unfolding find_and_munmap munmap_found
  find_and_munmap-Unmaps start end unlock s low high some_pages acc =
      rw (env.arch start end s) (elim (Option-cases (e.split.tree.vma_find start end s.vmas)) [
        | inl missing ↦ rw missing (
            inr (
              refl,
              unlocked-IsUnmapped e env.tree start end low high some_pages unlock s s (
                  nothing-IsUnmapped start end s acc
                    (env.tree.find_none start end s.vmas acc.ordered missing)),
            ))
        | inr (vma, found) ↦
            let (member, ends, begins, before) =
              env.tree.find start end s.vmas vma acc.ordered found in
            rw found (
              do_vmi_align_munmap-Unmaps e env.tree start end low high some_pages vma unlock s acc
                (record { member = member; ends = ends; begins = begins; before = before }))
      ])

  -- The tests of do_vmi_munmap on machine words.
  bad-range :
      (start len : ℕ)
      → start < 2 ^ 64
      → len < 2 ^ 64
      → (is_set (offset_in_page start)
          || ltb e.task_size start
          || ltb (sub64 e.task_size start) len)
        ≡ true
      → IsRange e start len
      → ⊥
  bad-range start len hs hl bad range = let size = env.size in ground (arith, bad, range, size)

  good-range :
      (start len : ℕ)
      → start < 2 ^ 64
      → len < 2 ^ 64
      → (is_set (offset_in_page start)
          || ltb e.task_size start
          || ltb (sub64 e.task_size start) len)
        ≡ false
      → (start % 4096 ≡ 0) × (start + len ≤ e.task_size)
  good-range start len hs hl good = let size = env.size in ground (arith, good, size)

  empty-range :
      (start len : ℕ)
      → len < 2 ^ 64
      → IsRange e start len
      → ((start + page_align len) == start) ≡ true
      → ⊥
  empty-range start len hl range empty = let size = env.size in ground (arith, range, empty, size)

  -- A range that is not whole pages of the process is refused; the arithmetic of the check and of
  -- the end cannot wrap. Any other is unmapped as a whole, or the call fails and changes no page.
  pub do_vmi_munmap-Decides :
      (start len : ℕ) (unlock : Bool) (s : Space)
      → start < 2 ^ 64
      → len < 2 ^ 64
      → IsAccounted s
      → Decides e start len unlock s (do_vmi_munmap e start len unlock s)
  unfolding do_vmi_munmap
  do_vmi_munmap-Decides start len unlock s hs hl acc =
      let size = env.size in
      elim (Bool-cases (
        is_set (offset_in_page start)
        || ltb e.task_size start
        || ltb (sub64 e.task_size start) len)) [
          | inl bad ↦ rw bad (inl (bad-range start len hs hl bad, refl, refl))
          | inr good ↦
              let (whole, fits) = good-range start len hs hl good in
              let end_eq : add64 start (page_align len) ≡ start + page_align len = omega arith in
              elim (Bool-cases ((start + page_align len) == start)) [
                | inl empty ↦
                    rw (good, end_eq, empty)
                      (inl (λ range. empty-range start len hl range empty, refl, refl))
                | inr some_pages ↦
                    let pages : start < start + page_align len = ground (arith, some_pages) in
                    rw (good, end_eq, some_pages)
                      (inr (
                        (whole, omega (arith, pages), fits),
                        find_and_munmap-Unmaps start (start + page_align len) unlock s whole
                            (omega arith) pages acc,
                      ))
              ]
        ]

  -- The answer of a call that takes the lock itself, which is free before and after: it was
  -- interrupted, or it refused the range, or it unmapped it or failed.
  abbrev pub Munmaps : ℕ → ℕ → Space → Option (ℤ × Space) → Type 0
  Munmaps start len s none = ⊥
  Munmaps start len s (some (r, s')) =
      (s'.mmap_lock ≡ false)
      × (s'.kernel ≡ s.kernel)
      × IsAccounted s'
      × (((e.interrupted ≡ true) × (r ≡ neg eintr) × (s' ≡ s))
          ⊎ ((IsRange e start len → ⊥)
              × (r ≡ neg einval)
              × ((addr : ℕ) → page s'.vmas addr ≡ page s.vmas addr))
          ⊎ (IsRange e start len
              × ((((r ==ℤ pos 0) ≡ false) × ((addr : ℕ) → page s'.vmas addr ≡ page s.vmas addr))
                  ⊎ ((r ≡ pos 0)
                      × ((addr : ℕ)
                          → page s'.vmas addr ≡ (
                              if leb start addr && ltb addr (start + page_align len)
                              then none
                              else page s.vmas addr))))))

  unlock_munmap-Munmaps :
      (start len : ℕ) (unlock : Bool) (s : Space) (result : ℤ × Space)
      → IsAccounted s
      → Decides e start len unlock (record s { mmap_lock = true }) result
      → Munmaps start len s (unlock_munmap e unlock result)
  unfolding unlock_munmap mmap_write_unlock
  unlock_munmap-Munmaps start len unlock s (r, s') acc (inl (bad, refused, same)) =
      rw (refused, same)
        (refl, refl, IsAccounted-lock false s acc, inr (inl (bad, refl, λ addr. refl)))
  unlock_munmap-Munmaps start len unlock s (r, s') acc (inr (range, inl (failed, kept))) =
      rw (failed, kept.lock)
        (
          refl,
          kept.kernel,
          IsAccounted-lock false s' kept.accounted,
          inr (inr (range, inl (failed, kept.page))),
        )
  unlock_munmap-Munmaps start len true s (r, s') acc (inr (range, inr (ok, h))) =
      rw ok (h.lock, h.kernel, h.accounted, inr (inr (range, inr (refl, h.page))))
  unlock_munmap-Munmaps start len false s (r, s') acc (inr (range, inr (ok, h))) =
      rw (ok, h.lock)
        (
          refl,
          h.kernel,
          IsAccounted-lock false s' h.accounted,
          inr (inr (range, inr (refl, h.page))),
        )

  vm_munmap_range-stops :
      (start len : ℕ) (unlock : Bool) (s : Space)
      → e.interrupted ≡ true
      → vm_munmap_range e start len unlock s ≡ some (neg eintr, s)
  unfolding vm_munmap_range mmap_write_lock_killable
  vm_munmap_range-stops start len unlock s h = rw h refl

  vm_munmap_range-waits :
      (start len : ℕ) (unlock : Bool) (s : Space)
      → e.interrupted ≡ false
      → s.mmap_lock ≡ false
      → vm_munmap_range e start len unlock s
        ≡ munmap_locked e start len unlock (record s { mmap_lock = true })
  unfolding vm_munmap_range mmap_write_lock_killable
  vm_munmap_range-waits start len unlock s h k = ground (arith, h, k)

  vm_munmap_range-Munmaps :
      (start len : ℕ) (unlock : Bool) (s : Space)
      → start < 2 ^ 64
      → len < 2 ^ 64
      → s.mmap_lock ≡ false
      → IsAccounted s
      → Munmaps start len s (vm_munmap_range e start len unlock s)
  unfolding munmap_locked
  vm_munmap_range-Munmaps start len unlock s hs hl free acc =
      let taken = record s { mmap_lock = true } in
      elim (Bool-cases e.interrupted) [
        | inl stopped ↦
            rw (vm_munmap_range-stops start len unlock s stopped)
              (free, refl, acc, inl (stopped, refl, refl))
        | inr waits ↦ rw (vm_munmap_range-waits start len unlock s waits free) (
            unlock_munmap-Munmaps start len unlock s (do_vmi_munmap e start len unlock taken) acc
              (do_vmi_munmap-Decides start len unlock taken hs hl (IsAccounted-lock true s acc)))
      ]

  -- munmap always returns, with the lock free. A fatal signal ends it before anything is done, a
  -- range that is not whole pages of the process is refused, and after any other error each address
  -- has its page. After an answer of 0 exactly the range is without pages. The counters of vmas, of
  -- pages and of locked pages agree with the vmas in each case.
  pub munmap-Munmaps :
      (addr len : ℕ) (s : Space)
      → e.untagged_addr addr < 2 ^ 64
      → len < 2 ^ 64
      → s.mmap_lock ≡ false
      → IsAccounted s
      → Munmaps (e.untagged_addr addr) len s (munmap e addr len s)
  unfolding munmap
  munmap-Munmaps addr len s ha hl free acc =
      vm_munmap_range-Munmaps (e.untagged_addr addr) len true s ha hl free acc

  pub vm_munmap-Munmaps :
      (start len : ℕ) (s : Space)
      → start < 2 ^ 64
      → len < 2 ^ 64
      → s.mmap_lock ≡ false
      → IsAccounted s
      → Munmaps start len s (vm_munmap e start len s)
  unfolding vm_munmap
  vm_munmap-Munmaps start len s hs hl free acc =
      vm_munmap_range-Munmaps start len false s hs hl free acc

  pub do_vma_munmap-Unmaps :
      (start end : ℕ) (vma : Vma) (unlock : Bool) (s : Space)
      → start % 4096 ≡ 0
      → end % 4096 ≡ 0
      → start < end
      → IsAccounted s
      → IsFirst start end vma s
      → Unmaps start end unlock s (do_vma_munmap e start end vma unlock s)
  unfolding do_vma_munmap
  do_vma_munmap-Unmaps start end vma unlock s low high some_pages acc first =
      rw (env.arch start end s)
        (do_vmi_align_munmap-Unmaps e env.tree start end low high some_pages vma unlock s acc first)
