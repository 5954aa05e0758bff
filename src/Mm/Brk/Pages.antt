-- ===== src/Mm/Brk/Pages.antt =====
-- What brk of mm/mmap.c does to the pages of the process, with the operations of Mm/Heap that it
-- ends in.
use vd2024_so2_private_code.Base.{
  ℕ, ◌+◌, ◌-◌, ◌^◌, ◌≤◌, ◌<◌, ◌≡◌, ◌⊎◌, inl, inr, refl, sym, ap, ◌∙◌, Option, none, some, Bool,
  true, false, ◌&&◌, arith, if◌then◌else◌, ltb, leb, ◌==◌, ℤ, add64, sub64, page_align, page_size,
  err64, eintr, List, ◌∷◌, Bool-cases, Option-cases,
}
use vd2024_so2_private_code.Limits.Table.{lookup}
use vd2024_so2_private_code.Limits.Access.{accepts}
use vd2024_so2_private_code.Mm.Types.{Vma, has, vm_locked}
use vd2024_so2_private_code.Mm.Space.{Space, mmap_write_lock_killable, mmap_write_unlock}
use vd2024_so2_private_code.Mm.Vmas.{All, Mem, IsApart, page}
use vd2024_so2_private_code.Mm.Vmas.Order.{All-map}
use vd2024_so2_private_code.Mm.Vmas.Accounted.{IsAccounted}
use vd2024_so2_private_code.Mm.Unmap.{do_vma_munmap}
use vd2024_so2_private_code.Mm.Unmap.First.{Unmaps}
use vd2024_so2_private_code.Mm.Unmap.Calls.{IsUnmapEnv, do_vma_munmap-Unmaps}
use vd2024_so2_private_code.Mm.Heap.{HeapEnv, brk_flags, do_brk_flags}
use vd2024_so2_private_code.Mm.Heap.Grow.{Grows, IsMapped, heap_page}
use vd2024_so2_private_code.Mm.Heap.Ops.{IsGiven, do_brk_flags-Grows}
use vd2024_so2_private_code.Mm.Heap.Brk.{heap_ops, heap_ops-IsBrkOps}
use vd2024_so2_private_code.Mm.Brk.{
  IsBrkOps, set_brk, mm_populate, refuse, finish_shrink, shrink_vma, too_near, populate_locked,
  finish_grow, grow, move_brk, min_brk, checked_brk, brk_locked, brk,
}
use vd2024_so2_private_code.Mm.Brk.Answer.{AreaTotal, check_brk_limits-some, in_kernel_lem}

-- The searches of brk are those of the tree, and a guard gap is below its vma.
pub record IsHeapEnv (e : HeapEnv) : Type 0 where
  pub unmap : IsUnmapEnv e.unmap
  pub find : (vs : List Vma) (a b : ℕ) → e.brk.vma_find vs a b ≡ e.unmap.split.tree.vma_find a b vs
  pub prev : (vs : List Vma) (a b : ℕ) (v : Vma) → e.brk.vma_prev_limit vs a b ≡ some v → Mem v vs
  pub gap : (v : Vma) → e.brk.vm_start_gap v ≤ v.vm_start

-- The answer and the address space. The call was interrupted and left the
-- counters, the break and the vmas as they were; or the break is the
-- old one, as the answer says, and each address has its page; or the break is the new one, as the
-- answer says, and there is no whole page between the two, or those are gone, or they are pages of the
-- heap.
abbrev pub Changes : HeapEnv → ℕ → ℕ → Space → ℕ → Space → Type 0
Changes e new old s r s' =
    ((r ≡ err64 eintr) × (s'.mm ≡ s.mm) × (s'.vmas ≡ s.vmas))
    ⊎ ((r ≡ old) × (s'.mm.brk ≡ old) × ((a : ℕ) → page s'.vmas a ≡ page s.vmas a))
    ⊎ ((r ≡ new)
        × (s'.mm.brk ≡ new)
        × (page_align new ≡ page_align old)
        × ((a : ℕ) → page s'.vmas a ≡ page s.vmas a))
    ⊎ ((r ≡ new)
        × (s'.mm.brk ≡ new)
        × (page_align new < page_align old)
        × ((a : ℕ)
            → page s'.vmas a
              ≡ (if leb (page_align new) a && ltb a (page_align old) then none else page s.vmas a)))
    ⊎ ((r ≡ new)
        × (s'.mm.brk ≡ new)
        × (page_align old < page_align new)
        × ((a : ℕ)
            → page s'.vmas a ≡ (
                if leb (page_align old) a && ltb a (page_align new)
                then some (heap_page (brk_flags e s.mm 0) a)
                else page s.vmas a)))

abbrev pub Moves : HeapEnv → ℕ → ℕ → Space → Option (ℕ × Space) → Type 0
Moves e new old s none = ⊥
Moves e new old s (some (r, s')) = IsAccounted s' × Changes e new old s r s'

-- The break and the lock are no part of the counters.
IsAccounted-brk :
    (b : ℕ) (l : Bool) (s : Space)
    → IsAccounted s
    → IsAccounted (record s { mm = record s.mm { brk = b }; mmap_lock = l })
IsAccounted-brk b l s h = record {
  ordered = h.ordered;
  count = h.count;
  pages = h.pages;
  locked = h.locked;
}

module _ (e : HeapEnv) (env : IsHeapEnv e) where
  refuse-Moves :
      (new old : ℕ) (s t : Space)
      → t.mmap_lock ≡ true
      → IsAccounted t
      → ((a : ℕ) → page t.vmas a ≡ page s.vmas a)
      → Moves e new old s (refuse e.brk (heap_ops e) old t)
  unfolding refuse set_brk mmap_write_unlock
  refuse-Moves new old s t h acc same =
      rw h (IsAccounted-brk old false t acc, inr (inl (refl, refl, same)))

  finish_shrink-Moves :
      (new old : ℕ) (s t : Space) (result : ℤ × Space)
      → t.mmap_lock ≡ true
      → t.mm.brk ≡ new
      → t.vmas ≡ s.vmas
      → page_align new < page_align old
      → Unmaps (page_align new) (page_align old) true t result
      → Moves e new old s (finish_shrink e.brk (heap_ops e) new old result)
  unfolding finish_shrink
  finish_shrink-Moves new old s t (r, u) h b v below (inl (failed, kept)) = rw failed (
      refuse-Moves new old s u (kept.lock ∙ h) kept.accounted
        (λ a. kept.page a ∙ ap (λ vs. page vs a) v))
  finish_shrink-Moves new old s t (r, u) h b v below (inr (ok, un)) =
      rw ok (un.accounted, inr (inr (inr (inl (refl, un.brk ∙ b, below, rw (sym v) un.page)))))

  shrink_vma-Moves :
      (new old : ℕ) (found : Option Vma) (s : Space)
      → s.mmap_lock ≡ true
      → IsAccounted s
      → page_align new < page_align old
      → e.unmap.split.tree.vma_find (page_align new) (page_align old) s.vmas ≡ found
      → Moves e new old s
          (shrink_vma e.brk (heap_ops e) new (page_align new) (page_align old) old found s)
  unfolding shrink_vma set_brk heap_ops
  shrink_vma-Moves new old none s h acc below is_found = refuse-Moves new old s s h acc (λ a. refl)
  shrink_vma-Moves new old (some v) s h acc below is_found =
      let (member, ends, begins, before) =
        env.unmap.tree.find (page_align new) (page_align old) s.vmas v acc.ordered is_found in
      let t = record s { mm = record s.mm { brk = new } } in
      let acc' : IsAccounted t = record {
        ordered = acc.ordered;
        count = acc.count;
        pages = acc.pages;
        locked = acc.locked;
      } in
      elim (Bool-cases (leb (page_align old) v.vm_start)) [
        | inl above ↦ rw above (refuse-Moves new old s s h acc (λ a. refl))
        | inr reaches ↦ rw reaches (
            finish_shrink-Moves new old s t
              (do_vma_munmap e.unmap (page_align new) (page_align old) v true t) h refl refl below
              (do_vma_munmap-Unmaps e.unmap env.unmap (page_align new) (page_align old) v true t
                (omega arith) (omega arith) below acc'
                (record { member = member; ends = ends; begins = begins; before = before })))
      ]

  -- The range up to the new break is free.
  below-next :
      (new old : ℕ) (limit : ℕ) (s : Space)
      → IsAccounted s
      → page_align new + 4096 < 2 ^ 64
      → page_align old < page_align new
      → page_align new ≤ limit
      → too_near e.brk (heap_ops e) (page_align new) (e.brk.vma_find s.vmas (page_align old) limit)
        ≡ false
      → All (IsApart (page_align old) (page_align new)) s.vmas
  unfolding too_near
  below-next new old limit s acc room above within near =
      let vs = s.vmas in
      let same = env.find vs (page_align old) limit in
      elim (Option-cases (e.unmap.split.tree.vma_find (page_align old) limit vs)) [
        | inl missing ↦
            All-map (IsApart (page_align old) limit) (IsApart (page_align old) (page_align new)) vs
              (λ w h. closer w within h)
              (env.unmap.tree.find_none (page_align old) limit vs acc.ordered missing)
        | inr (next, found) ↦
            let (member, ends, begins, before) =
              env.unmap.tree.find (page_align old) limit vs next acc.ordered found in
            let gap = env.gap next in
            let near' : ltb (e.brk.vm_start_gap next) (add64 (page_align new) page_size) ≡ false =
              ground (arith, near, same, found) in
            All-map (λ w. (w.vm_end ≤ page_align old) ⊎ (next.vm_start ≤ w.vm_start))
              (IsApart (page_align old) (page_align new)) vs
              (λ w h. over w next (ground (arith, near', gap, room)) h) before
      ]
    where
      closer :
          (w : Vma)
          → page_align new ≤ limit
          → IsApart (page_align old) limit w
          → IsApart (page_align old) (page_align new) w
      closer w h k = ground (arith, h, k)

      over :
          (w next : Vma)
          → page_align new ≤ next.vm_start
          → (w.vm_end ≤ page_align old) ⊎ (next.vm_start ≤ w.vm_start)
          → IsApart (page_align old) (page_align new) w
      over w next h k = ground (arith, h, k)

  -- The counters and pages do not depend on what else the end of the call changes.
  grown-Moves :
      (new old : ℕ) (s u : Space) (populated : List (ℕ × ℕ))
      → page_align old < page_align new
      → IsMapped
          (page_align old)
          (page_align old + (page_align new - page_align old))
          (heap_page (brk_flags e s.mm 0))
          s
          u
      → Moves e new old s (
          some (
            new,
            record u { mm = record u.mm { brk = new }; mmap_lock = false; populated = populated },
          ))
  grown-Moves new old s u populated below mapped =
      let top : page_align old + (page_align new - page_align old) ≡ page_align new = omega arith in
      (
        record {
          ordered = mapped.accounted.ordered;
          count = mapped.accounted.count;
          pages = mapped.accounted.pages;
          locked = mapped.accounted.locked;
        },
        inr (inr (inr (inr (refl, refl, below, rw (sym top) mapped.page)))),
      )

  finish_grow-Moves :
      (new old : ℕ) (s : Space) (result : ℤ × Space)
      → s.mmap_lock ≡ true
      → IsAccounted s
      → page_align old < page_align new
      → page_align new < 2 ^ 64
      → Grows (page_align old) (page_align new - page_align old) (brk_flags e s.mm 0) s result
      → Moves e new old s
          (finish_grow e.brk (heap_ops e) new (page_align new) (page_align old) old result)
  unfolding finish_grow set_brk mmap_write_unlock populate_locked mm_populate
  finish_grow-Moves new old s (r, u) h acc below high (inl (failed, same)) =
      rw failed (refuse-Moves new old s u (rw same h) (rw same acc) (rw same (λ a. refl)))
  finish_grow-Moves new old s (r, u) h acc below high (inr (ok, mapped, charge)) =
      let held : u.mmap_lock ≡ true = mapped.lock ∙ h in
      elim (Bool-cases (has u.mm.def_flags vm_locked)) [
        | inl locks ↦
            rw (ok, held, locks)
              (grown-Moves new old s u
                ((page_align old, sub64 (page_align new) (page_align old)) ∷ u.populated) below
                mapped)
        | inr plain ↦ rw (ok, held, plain) (grown-Moves new old s u u.populated below mapped)
      ]

  prev-IsGiven : (s : Space) (a b : ℕ) → IsGiven (e.brk.vma_prev_limit s.vmas a b) s
  prev-IsGiven s a b = elim (Option-cases (e.brk.vma_prev_limit s.vmas a b)) [
    | inl missing ↦ rw missing tt
    | inr (v, found) ↦ rw found (env.prev s.vmas a b v found)
  ]

  -- The new break is far enough from the end of the words.
  laws : IsBrkOps (heap_ops e)
  laws = heap_ops-IsBrkOps e env.unmap

  module _ (new : ℕ) (room : new + 8192 + e.brk.stack_guard_gap < 2 ^ 64)
      (total : AreaTotal e.brk) where
    grow-Moves :
        (old : ℕ) (s : Space)
        → s.mmap_lock ≡ true
        → IsAccounted s
        → s.committed < 2 ^ 64
        → page_align old < page_align new
        → Moves e new old s (grow e.brk (heap_ops e) new (page_align new) (page_align old) old s)
    unfolding grow heap_ops
    grow-Moves old s h acc c below =
        let len = sub64 (page_align new) (page_align old) in
        let len_eq : len ≡ page_align new - page_align old = omega arith in
        let limit = add64 (add64 (page_align new) page_size) e.brk.stack_guard_gap in
        let (error, checked) = check_brk_limits-some e.brk s.mm (page_align old) len total in
        let refused = refuse-Moves new old s s h acc (λ a. refl) in
        let prev = e.brk.vma_prev_limit s.vmas (page_align old) s.mm.start_brk in
        elim (Bool-cases (error == 0)) [
          | inr fails ↦ rw (grow, checked, fails) refused
          | inl fine ↦
              elim (Bool-cases (
                too_near e.brk (heap_ops e) (page_align new)
                  (e.brk.vma_find s.vmas (page_align old) limit))) [
                    | inl near ↦ rw (grow, checked, fine, near) refused
                    | inr free ↦
                        let apart =
                          below-next new old limit s acc (omega arith) below (omega arith) free in
                        rw (grow, checked, fine, free)
                          (finish_grow-Moves new old s
                            (do_brk_flags e prev (page_align old) len 0 s) h acc below (omega arith)
                            (rw len_eq (
                              do_brk_flags-Grows e env.unmap.tree (page_align old)
                                (page_align new - page_align old) (omega arith) (omega arith)
                                (omega arith) (omega arith) prev 0 s acc (rw (top below) apart) c
                                (prev-IsGiven s (page_align old) s.mm.start_brk))))
                  ]
        ]
      where
        top :
            page_align old < page_align new
            → page_align old + (page_align new - page_align old) ≡ page_align new
        top below = omega arith

    move_brk-Moves :
        (s : Space)
        → s.mmap_lock ≡ true
        → IsAccounted s
        → s.committed < 2 ^ 64
        → s.mm.brk + 4096 < 2 ^ 64
        → Moves e new s.mm.brk s
            (move_brk e.brk (heap_ops e) new (page_align new) (page_align s.mm.brk) s.mm.brk s)
    unfolding move_brk set_brk mmap_write_unlock
    move_brk-Moves s h acc c high =
        let old = s.mm.brk in
        elim (Bool-cases (page_align old == page_align new)) [
          | inl same ↦
              rw (same, h)
                (
                  IsAccounted-brk new false s acc,
                  inr (inr (inl (refl, refl, ground (arith, same), λ a. refl))),
                )
          | inr moved ↦ elim (Bool-cases (leb new old)) [
            | inl down ↦
                rw (moved, down)
                  (shrink_vma-Moves new old
                    (e.brk.vma_find s.vmas (page_align new) (page_align old)) s h acc
                    (ground (arith, moved, down))
                    (sym (env.find s.vmas (page_align new) (page_align old))))
            | inr up ↦ rw (moved, up) (grow-Moves old s h acc c (ground (arith, moved, up)))
          ]
        ]

    checked_brk-Moves :
        (accepted : Bool) (s : Space)
        → s.mmap_lock ≡ true
        → IsAccounted s
        → s.committed < 2 ^ 64
        → s.mm.brk + 4096 < 2 ^ 64
        → Moves e new s.mm.brk s (checked_brk e.brk (heap_ops e) new s.mm.brk accepted s)
    unfolding checked_brk
    checked_brk-Moves true s h acc c high = move_brk-Moves s h acc c high
    checked_brk-Moves false s h acc c high = refuse-Moves new s.mm.brk s s h acc (λ a. refl)

    brk_locked-Moves :
        (s : Space)
        → s.kernel.memory_list_mutex ≡ false
        → s.mmap_lock ≡ true
        → IsAccounted s
        → s.committed < 2 ^ 64
        → s.mm.brk + 4096 < 2 ^ 64
        → Moves e new s.mm.brk s (brk_locked e.brk (heap_ops e) new s)
    unfolding brk_locked
    brk_locked-Moves s mutex h acc c high =
        let bytes = sub64 (page_align new) (page_align s.mm.brk) in
        let refused = refuse-Moves new s.mm.brk s s h acc (λ a. refl) in
        let accepted =
          accepts bytes (lookup e.brk.pid s.kernel.memory_list)
            (e.brk.usac.find_task_by_vpid e.brk.pid) in
        elim (Bool-cases (ltb new (min_brk e.brk (heap_ops e) s.mm))) [
          | inl below ↦ rw (brk_locked, below) refused
          | inr above ↦
              elim (Bool-cases (
                e.brk.check_data_rlimit e.brk.rlimits.rlimit_data new s.mm.start_brk s.mm.end_data
                  s.mm.start_data)) [
                    | inl over ↦ rw (brk_locked, above, over) refused
                    | inr fits ↦
                        let checked : brk_locked e.brk (heap_ops e) new s
                            ≡ checked_brk e.brk (heap_ops e) new s.mm.brk accepted s =
                          ground (
                            arith,
                            above,
                            fits,
                            in_kernel_lem e.brk (heap_ops e) laws bytes s mutex,
                          ) in
                        rw checked (checked_brk-Moves accepted s h acc c high)
                  ]
        ]

    -- brk, with do_vma_munmap and do_brk_flags under it, answers -EINTR and leaves the counters, the
    -- break and the vmas; or answers the old break, which is still the break, and each address has
    -- its page; or answers the new break, which is the break, and exactly the whole pages between the
    -- two are gone or are memory of the heap. The counters agree with the vmas in each case. The new
    -- break is below the end of the words by the guard gap, both locks are free before the call, and
    -- the search for a fixed address answers.
    pub brk-Moves :
        (s : Space)
        → s.kernel.memory_list_mutex ≡ false
        → s.mmap_lock ≡ false
        → IsAccounted s
        → s.committed < 2 ^ 64
        → s.mm.brk + 4096 < 2 ^ 64
        → Moves e new s.mm.brk s (brk e.brk (heap_ops e) new s)
    unfolding brk mmap_write_lock_killable
    brk-Moves s mutex free acc c high =
        let t = record s { mmap_lock = true } in
        let moves = brk_locked-Moves t mutex refl (IsAccounted-brk s.mm.brk true s acc) c high in
        elim (Bool-cases e.brk.interrupted) [
          | inl stopped ↦ rw (brk_stops s stopped) (acc, inl (refl, refl, refl))
          | inr waits ↦ rw (brk_waits s waits free) moves
        ]
      where
        brk_stops :
            (s : Space)
            → e.brk.interrupted ≡ true
            → brk e.brk (heap_ops e) new s ≡ some (err64 eintr, s)
        brk_stops s h = rw h refl

        brk_waits :
            (s : Space)
            → e.brk.interrupted ≡ false
            → s.mmap_lock ≡ false
            → brk e.brk (heap_ops e) new s
              ≡ brk_locked e.brk (heap_ops e) new (record s { mmap_lock = true })
        brk_waits s h k = ground (arith, h, k)
