-- ===== src/Mm/Brk/Answer.antt =====
-- What brk of mm/mmap.c answers, and what the limits of main.c make of it.
use vd2024_so2_private_code.Base.{
  ℕ, ◌≡◌, ◌⊎◌, refl, Option, none, some, Bool, true, false, arith, if◌then◌else◌, ℤ, pos, ◌==ℤ◌,
  sub64, page_align, is_err_value, err64, eintr, eagain,
}
use vd2024_so2_private_code.Limits.{Kernel, is_request_accepted}
use vd2024_so2_private_code.Limits.Table.{lookup}
use vd2024_so2_private_code.Limits.Access.{accepts, is_request_accepted_lem}
use vd2024_so2_private_code.Mm.Types.{Vma, MmStruct}
use vd2024_so2_private_code.Mm.Area.{choose_area, map_fixed}
use vd2024_so2_private_code.Mm.Area.Answer.{get_unmapped_area-some}
use vd2024_so2_private_code.Mm.Accounting.{mlock_future_ok}
use vd2024_so2_private_code.Mm.Space.{Space, mmap_write_lock_killable, mmap_write_unlock}
use vd2024_so2_private_code.Mm.Brk.{
  BrkEnv, BrkOps, IsBrkOps, set_brk, in_kernel, mm_populate, check_brk_limits, refuse,
  finish_shrink, shrink_vma, populate_locked, finish_grow, grow, move_brk, checked_brk, brk_locked,
  brk,
}

-- The end of a call that had the lock: the lock is free, the limits are as before, the answer is
-- the break, and that is the new one or the old one.
abbrev pub Ends : ℕ → ℕ → Kernel → Option (ℕ × Space) → Type 0
Ends new old kernel none = ⊥
Ends new old kernel (some (r, s)) =
    (s.mmap_lock ≡ false) × (s.kernel ≡ kernel) × (s.mm.brk ≡ r) × ((r ≡ new) ⊎ (r ≡ old))

-- The search for a fixed address always answers.
abbrev pub AreaTotal : BrkEnv → Type 0
AreaTotal e =
    (addr len flags : ℕ)
    → (given : ℕ) × (choose_area e.areas none flags addr len 0 flags ≡ some given)

pub check_brk_limits-some :
    (e : BrkEnv) (mm : MmStruct) (addr len : ℕ)
    → AreaTotal e
    → (error : ℕ) × (check_brk_limits e mm addr len ≡ some error)
unfolding check_brk_limits
check_brk_limits-some e mm addr len total =
    let (a, chosen) = total addr len map_fixed in
    let (given, answer) =
      get_unmapped_area-some e.layout e.areas none addr len 0 map_fixed a chosen in
    (
      if is_err_value given
          then given
          else (if mlock_future_ok e.rlimits mm mm.def_flags len then 0 else err64 eagain),
      rw (check_brk_limits, answer) refl,
    )

module _ (e : BrkEnv) (o : BrkOps) (laws : IsBrkOps o) where
  refuse-Ends :
      (new old : ℕ) (s : Space) → s.mmap_lock ≡ true → Ends new old s.kernel (refuse e o old s)
  unfolding refuse set_brk mmap_write_unlock
  refuse-Ends new old s h = ground arith

  finish_shrink-Ends :
      (new old : ℕ) (r : ℤ) (s : Space)
      → s.mmap_lock ≡ (if r ==ℤ pos 0 then false else true)
      → s.mm.brk ≡ new
      → Ends new old s.kernel (finish_shrink e o new old (r, s))
  unfolding finish_shrink
  finish_shrink-Ends new old r s h k = ground (arith, refuse-Ends new old s)

  shrink_vma-Ends :
      (new newbrk oldbrk old : ℕ) (found : Option Vma) (s : Space)
      → s.mmap_lock ≡ true
      → Ends new old s.kernel (shrink_vma e o new newbrk oldbrk old found s)
  unfolding shrink_vma set_brk
  shrink_vma-Ends new newbrk oldbrk old none s h = refuse-Ends new old s h
  shrink_vma-Ends new newbrk oldbrk old (some v) s h =
      let moved = record s { mm = record s.mm { brk = new } } in
      let (r, s') = o.do_vma_munmap v newbrk oldbrk moved in
      ground (
        arith,
        refuse-Ends new old s h,
        laws.munmap_lock v newbrk oldbrk moved,
        laws.munmap_brk v newbrk oldbrk moved,
        finish_shrink-Ends new old r s',
      )

  finish_grow-Ends :
      (new newbrk oldbrk old : ℕ) (r : ℤ) (s : Space)
      → s.mmap_lock ≡ true
      → Ends new old s.kernel (finish_grow e o new newbrk oldbrk old (r, s))
  unfolding finish_grow set_brk mmap_write_unlock populate_locked mm_populate
  finish_grow-Ends new newbrk oldbrk old r s h = ground (arith, refuse-Ends new old s h)

  grow-Ends :
      (new newbrk oldbrk old : ℕ) (s : Space)
      → AreaTotal e
      → s.mmap_lock ≡ true
      → Ends new old s.kernel (grow e o new newbrk oldbrk old s)
  unfolding grow
  grow-Ends new newbrk oldbrk old s total h =
      let len = sub64 newbrk oldbrk in
      let (error, checked) = check_brk_limits-some e s.mm oldbrk len total in
      let prev = e.vma_prev_limit s.vmas oldbrk s.mm.start_brk in
      let (r, s') = o.do_brk_flags prev oldbrk len 0 s in
      ground (
        arith,
        checked,
        refuse-Ends new old s h,
        laws.flags_keep prev oldbrk len 0 s,
        finish_grow-Ends new newbrk oldbrk old r s',
      )

  move_brk-Ends :
      (new newbrk oldbrk old : ℕ) (s : Space)
      → AreaTotal e
      → s.mmap_lock ≡ true
      → Ends new old s.kernel (move_brk e o new newbrk oldbrk old s)
  unfolding move_brk set_brk mmap_write_unlock
  move_brk-Ends new newbrk oldbrk old s total h = ground (
    arith,
    shrink_vma-Ends new newbrk oldbrk old (e.vma_find s.vmas newbrk oldbrk) s h,
    grow-Ends new newbrk oldbrk old s total h,
  )

  checked_brk-Ends :
      (new old : ℕ) (accepted : Bool) (s : Space)
      → AreaTotal e
      → s.mmap_lock ≡ true
      → Ends new old s.kernel (checked_brk e o new old accepted s)
  unfolding checked_brk
  checked_brk-Ends new old accepted s total h = ground (
    arith,
    refuse-Ends new old s h,
    move_brk-Ends new (page_align new) (page_align old) old s total h,
  )

  -- The check of main.c within the call.
  pub in_kernel_lem :
      (bytes : ℕ) (s : Space)
      → s.kernel.memory_list_mutex ≡ false
      → in_kernel (is_request_accepted e.usac e.pid bytes) s
        ≡ some
            (accepts bytes (lookup e.pid s.kernel.memory_list) (e.usac.find_task_by_vpid e.pid), s)
  unfolding in_kernel
  in_kernel_lem bytes s h =
      rw (in_kernel, is_request_accepted_lem e.usac e.pid bytes s.kernel h) refl

  brk_locked-Ends :
      (new : ℕ) (s : Space)
      → AreaTotal e
      → s.kernel.memory_list_mutex ≡ false
      → s.mmap_lock ≡ true
      → Ends new s.mm.brk s.kernel (brk_locked e o new s)
  unfolding brk_locked
  brk_locked-Ends new s total mutex h =
      let bytes = sub64 (page_align new) (page_align s.mm.brk) in
      let accepted =
        accepts bytes (lookup e.pid s.kernel.memory_list) (e.usac.find_task_by_vpid e.pid) in
      ground (
        arith,
        refuse-Ends new s.mm.brk s h,
        in_kernel_lem bytes s mutex,
        checked_brk-Ends new s.mm.brk accepted s total h,
      )

  -- With both locks free, brk returns -EINTR and changes nothing, or it returns the break that the
  -- process then has, which is the one asked for or the one before. It releases the lock on each
  -- way out, and leaves the limits as they were. The operations that brk ends in keep their laws,
  -- and the search for a fixed address answers.
  pub brk-returns :
      (new : ℕ) (s : Space)
      → AreaTotal e
      → s.kernel.memory_list_mutex ≡ false
      → s.mmap_lock ≡ false
      → (brk e o new s ≡ some (err64 eintr, s)) ⊎ Ends new s.mm.brk s.kernel (brk e o new s)
  unfolding brk mmap_write_lock_killable
  brk-returns new s total mutex h =
      ground (arith, brk_locked-Ends new (record s { mmap_lock = true }) total mutex refl)

  -- With both locks free and no fatal signal, a request that main.c refuses, be it to grow or to
  -- shrink, leaves the break and the rest of
  -- the space as they were, and brk returns the old break.
  pub brk-denied :
      (new : ℕ) (s : Space)
      → s.kernel.memory_list_mutex ≡ false
      → s.mmap_lock ≡ false
      → e.interrupted ≡ false
      → accepts
          (sub64 (page_align new) (page_align s.mm.brk))
          (lookup e.pid s.kernel.memory_list)
          (e.usac.find_task_by_vpid e.pid)
        ≡ false
      → brk e o new s ≡ some (s.mm.brk, s)
  unfolding brk mmap_write_lock_killable brk_locked checked_brk refuse set_brk mmap_write_unlock
  brk-denied new s mutex h runs denied = ground (
    arith,
    in_kernel_lem (sub64 (page_align new) (page_align s.mm.brk)) (record s { mmap_lock = true })
        mutex,
  )
