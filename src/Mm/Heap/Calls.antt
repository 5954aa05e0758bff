-- ===== src/Mm/Heap/Calls.antt =====
-- vm_brk_flags: a range of the process becomes anonymous memory.
use vd2024_so2_private_code.Base.{
  ℕ, ◌+◌, ◌%◌, ◌^◌, ◌<◌, ◌≡◌, ◌⊎◌, inl, inr, refl, sym, ap, ◌∙◌, Option, none, some, Bool, true,
  false, ◌&&◌, ltb, leb, ◌==◌, if◌then◌else◌, arith, page_align, bit_and, is_set, ℤ, pos, neg,
  ◌==ℤ◌, if_lem, Bool-cases, Option-cases, eintr,
}
use vd2024_so2_private_code.Mm.Types.{MmStruct, has, complement, vm_exec, vm_locked}
use vd2024_so2_private_code.Mm.Brk.{check_brk_limits, mm_populate}
use vd2024_so2_private_code.Mm.Brk.Answer.{AreaTotal, check_brk_limits-some}
use vd2024_so2_private_code.Mm.Space.{Space, mmap_write_lock_killable, mmap_write_unlock}
use vd2024_so2_private_code.Mm.Vmas.{Page, page}
use vd2024_so2_private_code.Mm.Vmas.Empty.{page-IsApart}
use vd2024_so2_private_code.Mm.Vmas.Accounted.{IsAccounted, IsAccounted-of}
use vd2024_so2_private_code.Mm.Unmap.{do_vmi_munmap}
use vd2024_so2_private_code.Mm.Unmap.First.{IsUnmapped}
use vd2024_so2_private_code.Mm.Unmap.Calls.{IsUnmapEnv, Decides, do_vmi_munmap-Decides}
use vd2024_so2_private_code.Mm.Heap.{
  HeapEnv, brk_flags, do_brk_flags, as_int, unlock_and, populate_heap, brk_after_munmap,
  brk_with_limits, lock_and_brk, vm_brk_flags,
}
use vd2024_so2_private_code.Mm.Heap.Grow.{heap_page}
use vd2024_so2_private_code.Mm.Heap.Ops.{IsGiven, do_brk_flags-Grows}

unmapped_in : (b : Bool) (x y : Option Page) → b ≡ true → x ≡ (if b then none else y) → x ≡ none
unmapped_in true x y h k = k
unmapped_in false x y h k = absurd (ground (arith, h))

-- A page that came to a range after it was unmapped.
page_over :
    (b : Bool) (x y z : Option Page) (p q : Page)
    → x ≡ (if b then some p else y)
    → y ≡ (if b then none else z)
    → p ≡ q
    → x ≡ (if b then some q else z)
page_over true x y z p q h k e = h ∙ ap (λ p. some p) e
page_over false x y z p q h k e = h ∙ k

-- What vm_brk_flags answers and leaves, with the lock free. An error leaves each address its page,
-- unless the range was unmapped before the memory was refused.
abbrev pub Brks : HeapEnv → ℕ → ℕ → ℕ → Space → Option (ℤ × Space) → Type 0
Brks e addr len flags s none = ⊥
Brks e addr len flags s (some (r, s')) =
    (s'.mmap_lock ≡ false)
    × (s'.kernel ≡ s.kernel)
    × IsAccounted s'
    × ((((r ==ℤ pos 0) ≡ false) × ((addr' : ℕ) → page s'.vmas addr' ≡ page s.vmas addr'))
        ⊎ (((r ==ℤ pos 0) ≡ false)
            × ((a : ℕ)
                → page s'.vmas a
                  ≡ (if leb addr a && ltb a (addr + len) then none else page s.vmas a)))
        ⊎ ((r ≡ pos 0)
            × ((a : ℕ)
                → page s'.vmas a ≡ (
                    if leb addr a && ltb a (addr + len)
                    then some (heap_page (brk_flags e s.mm flags) a)
                    else page s.vmas a))))

module _ (e : HeapEnv) (env : IsUnmapEnv e.unmap) where
  -- The end of a call that had the lock keeps the vmas, the counters and the limits.
  abbrev Unlocks : ℤ → Space → Option (ℤ × Space) → Type 0
  Unlocks r s none = ⊥
  Unlocks r s (some (r', s')) =
      (r' ≡ r)
      × (s'.mmap_lock ≡ false)
      × (s'.kernel ≡ s.kernel)
      × (s'.vmas ≡ s.vmas)
      × (s'.mm ≡ s.mm)

  unlock_and-Unlocks : (r : ℤ) (s : Space) → s.mmap_lock ≡ true → Unlocks r s (unlock_and e r s)
  unfolding unlock_and mmap_write_unlock
  unlock_and-Unlocks r s h = rw h (refl, refl, refl, refl, refl)

  populate_heap-Unlocks :
      (addr len : ℕ) (r : ℤ) (s : Space)
      → s.mmap_lock ≡ true
      → Unlocks r s (populate_heap e addr len (r, s))
  unfolding populate_heap mmap_write_unlock mm_populate
  populate_heap-Unlocks addr len r s h =
      elim (Bool-cases (has s.mm.def_flags vm_locked && (r ==ℤ pos 0))) [
        | inl populates ↦ rw (populates, h) (refl, refl, refl, refl, refl)
        | inr plain ↦ rw (plain, h) (refl, refl, refl, refl, refl)
      ]

  -- What was so before the lock was dropped.
  Unlocks-Brks :
      (addr len flags : ℕ) (r : ℤ) (s s' : Space) (o : Option (ℤ × Space))
      → Unlocks r s' o
      → s'.kernel ≡ s.kernel
      → IsAccounted s'
      → ((((r ==ℤ pos 0) ≡ false) × ((a : ℕ) → page s'.vmas a ≡ page s.vmas a))
          ⊎ (((r ==ℤ pos 0) ≡ false)
              × ((a : ℕ)
                  → page s'.vmas a
                    ≡ (if leb addr a && ltb a (addr + len) then none else page s.vmas a)))
          ⊎ ((r ≡ pos 0)
              × ((a : ℕ)
                  → page s'.vmas a ≡ (
                      if leb addr a && ltb a (addr + len)
                      then some (heap_page (brk_flags e s.mm flags) a)
                      else page s.vmas a))))
      → Brks e addr len flags s o
  Unlocks-Brks addr len flags r s s' none u k acc cases = absurd u
  Unlocks-Brks addr len flags r s s' (some (r', s'')) (same, free, kernel, vmas, mm) k acc cases =
      (free, kernel ∙ k, IsAccounted-of s' s'' vmas mm acc, rw (same, vmas) cases)

  prev-IsGiven :
      (addr len : ℕ) (s : Space)
      → addr % 4096 ≡ 0
      → len % 4096 ≡ 0
      → 0 < len
      → addr + len < 2 ^ 64
      → IsAccounted s
      → IsGiven (e.unmap.split.tree.vma_prev addr s.vmas) s
  prev-IsGiven addr len s low whole n high acc =
      elim (Option-cases (e.unmap.split.tree.vma_prev addr s.vmas)) [
        | inl missing ↦ rw missing tt
        | inr (vma, found) ↦ rw found ((env.tree.prev addr s.vmas vma acc.ordered found).0)
      ]

  brk_flags_same :
      (flags : ℕ) (a b : MmStruct)
      → a.def_flags ≡ b.def_flags
      → brk_flags e a flags ≡ brk_flags e b flags
  unfolding brk_flags
  brk_flags_same flags a b h = ground (arith, h)

  -- The range was unmapped: the memory is given or refused.
  grown-Brks :
      (addr len flags : ℕ) (s s1 : Space)
      → addr % 4096 ≡ 0
      → len % 4096 ≡ 0
      → 0 < len
      → addr + len < 2 ^ 64
      → s.committed < 2 ^ 64
      → IsUnmapped addr (addr + len) false (record s { mmap_lock = true }) s1
      → Brks e addr len flags s (
          populate_heap e addr len
            (do_brk_flags e (e.unmap.split.tree.vma_prev addr s1.vmas) addr len flags s1))
  grown-Brks addr len flags s s1 low whole n high c h =
      let vma = e.unmap.split.tree.vma_prev addr s1.vmas in
      let apart =
        page-IsApart addr (addr + len) s1.vmas (omega arith) h.accounted.ordered (λ a inside.
          unmapped_in (leb addr a && ltb a (addr + len)) (page s1.vmas a) (page s.vmas a) inside
            (h.page a)) in
      let grows =
        do_brk_flags-Grows e env.tree addr len low whole n high vma flags s1 h.accounted apart
          (h.committed c) (prev-IsGiven addr len s1 low whole n high h.accounted) in
      let (r, s2) = do_brk_flags e vma addr len flags s1 in
      elim grows [
        | inl (failed, same) ↦
            Unlocks-Brks addr len flags r s s2 (populate_heap e addr len (r, s2))
              (populate_heap-Unlocks addr len r s2 (rw same h.lock)) (rw same h.kernel)
              (rw same h.accounted) (inr (inl (rw failed refl, rw same h.page)))
        | inr (ok, mapped, charge) ↦
            Unlocks-Brks addr len flags r s s2 (populate_heap e addr len (r, s2))
              (populate_heap-Unlocks addr len r s2 (mapped.lock ∙ h.lock))
              (mapped.kernel ∙ h.kernel) mapped.accounted
              (inr (
                inr (
                  ok,
                  λ a.
                      page_over (leb addr a && ltb a (addr + len)) (page s2.vmas a) (page s1.vmas a)
                        (page s.vmas a) (heap_page (brk_flags e s1.mm flags) a)
                        (heap_page (brk_flags e s.mm flags) a) (mapped.page a) (h.page a)
                        (ap (λ f. heap_page f a) (brk_flags_same flags s1.mm s.mm h.def_flags)),
                )))
      ]

  brk_after_munmap-Brks :
      (addr len flags : ℕ) (s : Space) (result : ℤ × Space)
      → len % 4096 ≡ 0
      → len < 2 ^ 64
      → s.committed < 2 ^ 64
      → IsAccounted s
      → Decides e.unmap addr len false (record s { mmap_lock = true }) result
      → Brks e addr len flags s (brk_after_munmap e addr len flags result)
  unfolding brk_after_munmap
  brk_after_munmap-Brks addr len flags s (r, s1) whole small c acc (inl (bad, refused, same)) =
      let failed : (r ==ℤ pos 0) ≡ false = rw refused refl in
      rw failed (
        Unlocks-Brks addr len flags r s s1 (unlock_and e r s1)
          (unlock_and-Unlocks r s1 (rw same refl)) (rw same refl)
          (rw same (IsAccounted-of s (record s { mmap_lock = true }) refl refl acc))
          (inl (failed, rw same (λ a. refl))))
  brk_after_munmap-Brks addr len flags s (r, s1) whole small c acc
        (inr (range, inl (failed, kept))) =
      rw failed (
        Unlocks-Brks addr len flags r s s1 (unlock_and e r s1) (unlock_and-Unlocks r s1 kept.lock)
          kept.kernel kept.accounted (inl (failed, kept.page)))
  brk_after_munmap-Brks addr len flags s (r, s1) whole small c acc (inr (range, inr (ok, h))) =
      let size = env.size in
      let same : page_align len ≡ len = omega (arith, range.2) in
      rw ok (
        grown-Brks addr len flags s s1 range.0 whole range.1 (omega (arith, range.2)) c
          (rw (sym same) h))

  as_int-fails : (error : ℕ) → is_set error ≡ true → (as_int e error ==ℤ pos 0) ≡ false
  unfolding as_int
  as_int-fails error h = ground (arith, h)

  brk_with_limits-Brks :
      (addr len flags error : ℕ) (s : Space)
      → addr < 2 ^ 64
      → len % 4096 ≡ 0
      → len < 2 ^ 64
      → s.committed < 2 ^ 64
      → IsAccounted s
      → Brks e addr len flags s
          (brk_with_limits e addr len flags (some error) (record s { mmap_lock = true }))
  unfolding brk_with_limits
  brk_with_limits-Brks addr len flags error s ha whole small c acc =
      let t = record s { mmap_lock = true } in
      let acc' : IsAccounted t = IsAccounted-of s t refl refl acc in
      if_lem (Brks e addr len flags s) (is_set error) (unlock_and e (as_int e error) t)
        (brk_after_munmap e addr len flags (do_vmi_munmap e.unmap addr len false t))
        (λ refused.
          Unlocks-Brks addr len flags (as_int e error) s t (unlock_and e (as_int e error) t)
            (unlock_and-Unlocks (as_int e error) t refl) refl acc'
            (inl (as_int-fails error refused, λ a. refl)))
        (λ allowed.
          brk_after_munmap-Brks addr len flags s (do_vmi_munmap e.unmap addr len false t) whole
            small c acc (do_vmi_munmap-Decides e.unmap env addr len false t ha small acc'))

  locked_brk_lem :
      (addr len flags : ℕ) (s : Space)
      → AreaTotal e.brk
      → addr < 2 ^ 64
      → len % 4096 ≡ 0
      → len < 2 ^ 64
      → s.committed < 2 ^ 64
      → IsAccounted s
      → Brks e addr len flags s (
          brk_with_limits e addr len flags
            (check_brk_limits e.brk s.mm addr len)
            (record s { mmap_lock = true }))
  locked_brk_lem addr len flags s total ha whole small c acc =
      let (error, checked) = check_brk_limits-some e.brk s.mm addr len total in
      rw checked (brk_with_limits-Brks addr len flags error s ha whole small c acc)

  lock_and_brk-stops :
      (addr len flags : ℕ) (s : Space)
      → e.unmap.interrupted ≡ true
      → lock_and_brk e addr len flags s ≡ some (neg eintr, s)
  unfolding lock_and_brk mmap_write_lock_killable
  lock_and_brk-stops addr len flags s h = rw h refl

  lock_and_brk-waits :
      (addr len flags : ℕ) (s : Space)
      → e.unmap.interrupted ≡ false
      → s.mmap_lock ≡ false
      → lock_and_brk e addr len flags s
        ≡ brk_with_limits e addr len flags
            (check_brk_limits e.brk s.mm addr len)
            (record s { mmap_lock = true })
  unfolding lock_and_brk mmap_write_lock_killable
  lock_and_brk-waits addr len flags s h k = ground (arith, h, k)

  lock_and_brk-Brks :
      (addr len flags : ℕ) (s : Space)
      → AreaTotal e.brk
      → addr < 2 ^ 64
      → len % 4096 ≡ 0
      → len < 2 ^ 64
      → s.mmap_lock ≡ false
      → s.committed < 2 ^ 64
      → IsAccounted s
      → Brks e addr len flags s (lock_and_brk e addr len flags s)
  lock_and_brk-Brks addr len flags s total ha whole small free c acc =
      elim (Bool-cases e.unmap.interrupted) [
        | inl stopped ↦
            rw (lock_and_brk-stops addr len flags s stopped)
              (free, refl, acc, inl (refl, λ a. refl))
        | inr waits ↦
            rw (lock_and_brk-waits addr len flags s waits free)
              (locked_brk_lem addr len flags s total ha whole small c acc)
      ]

  -- vm_brk_flags always returns with the lock free. Unless it fails, exactly the range of the pages
  -- of the request is anonymous memory with the flags of the heap. A failure leaves each address its
  -- page, or, when the memory is refused, the range unmapped. The counters agree with the vmas.
  pub vm_brk_flags-Brks :
      (addr request flags : ℕ) (s : Space)
      → AreaTotal e.brk
      → addr < 2 ^ 64
      → s.mmap_lock ≡ false
      → s.committed < 2 ^ 64
      → IsAccounted s
      → Brks e addr (page_align request) flags s (vm_brk_flags e addr request flags s)
  unfolding vm_brk_flags
  vm_brk_flags-Brks addr request flags s total ha free c acc =
      let len = page_align request in
      let same = λ (a : ℕ). refl {a = page s.vmas a} in
      elim (Bool-cases (ltb len request)) [
        | inl wraps ↦ rw wraps (free, refl, acc, inl (refl, same))
        | inr fits ↦ elim (Bool-cases (len == 0)) [
          | inl empty ↦
              let none_in : (a : ℕ) → (leb addr a && ltb a (addr + len)) ≡ false =
                λ a. ground (arith, empty) in
              rw (fits, empty) (free, refl, acc, inr (inr (refl, λ a. rw (none_in a) refl)))
          | inr some_pages ↦ elim (Bool-cases (is_set (bit_and flags (complement vm_exec)))) [
            | inl refused ↦ rw (fits, some_pages, refused) (free, refl, acc, inl (refl, same))
            | inr fine ↦
                rw (fits, some_pages, fine)
                  (lock_and_brk-Brks addr len flags s total ha (omega arith) (omega arith) free c
                    acc)
          ]
        ]
      ]
