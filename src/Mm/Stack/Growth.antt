-- ===== src/Mm/Stack/Growth.antt =====
-- What the growth of a stack in mm/mmap.c promises.
use vd2024_so2_private_code.Base.{
  ℕ, ◌+◌, ◌-◌, ◌/◌, ◌%◌, ◌^◌, ◌≤◌, ◌<◌, ◌≡◌, ◌⊎◌, inl, inr, refl, if◌then◌else◌, ◌∷◌, ◌*◌,
  Bool-cases, arith, Option, none, some, true, false, ℤ, pos, ◌==ℤ◌, add64, page_mask,
}
use vd2024_so2_private_code.Mm.Types.{Vma, has, vm_growsdown, vm_locked}
use vd2024_so2_private_code.Mm.Accounting.Counters.{vm_stat_account-total, vm_stat_account_keeps}
use vd2024_so2_private_code.Mm.Stack.{
  Stack, GrowEnv, anon_vma_lock_write, anon_vma_unlock_write, near_prev, store_growth, grow_locked,
  expand_locked, expand_downwards,
}

-- The counters, the tree and the locks after `vma` has grown to `v`.
pub record IsGrown (vma v : Vma) (s s' : Stack) : Type 0 where
  pub total_vm : s'.mm.total_vm ≡ add64 s.mm.total_vm ((vma.vm_start - v.vm_start) / 4096)
  pub locked_vm : s'.mm.locked_vm ≡ (
      if has vma.vm_flags vm_locked
      then add64 s.mm.locked_vm ((vma.vm_start - v.vm_start) / 4096)
      else s.mm.locked_vm)
  pub stored : s'.stored ≡ v ∷ s.stored
  pub mmap_lock : s'.mmap_lock ≡ s.mmap_lock
  pub anon_lock : s'.anon_lock ≡ s.anon_lock

-- The end of an attempt to grow `vma` down to `page`: refused, or not needed since the page is in the
-- vma, with the vma and the space as they were; or with the page as its start, its end, its flags and
-- what it maps at `x` kept, the new pages counted and the vma stored in the tree.
abbrev pub Grows : Vma → ℕ → ℕ → Stack → (ℤ × Vma) × Stack → Type 0
Grows vma page x s ((error, v), s') =
    (((error ==ℤ pos 0) ≡ false) × (v ≡ vma) × (s' ≡ s))
    ⊎ ((error ≡ pos 0) × (vma.vm_start ≤ page) × (v ≡ vma) × (s' ≡ s))
    ⊎ ((error ≡ pos 0)
        × (page < vma.vm_start)
        × (v.vm_start ≡ page)
        × (v.vm_end ≡ vma.vm_end)
        × (v.vm_flags ≡ vma.vm_flags)
        × (v.vm_pgoff + (x - v.vm_start) / 4096 ≡ vma.vm_pgoff + (x - vma.vm_start) / 4096)
        × IsGrown vma v s s')

-- A vma of whole pages, with words for its numbers.
pub record IsPaged (vma : Vma) : Type 0 where
  pub start_page : vma.vm_start % 4096 ≡ 0
  pub start_word : vma.vm_start < 2 ^ 64
  pub pgoff_word : vma.vm_pgoff < 2 ^ 64

module _ (e : GrowEnv) where
  counted :
      (vma : Vma) (s : Stack) (grow : ℕ)
      → let mm' = (store_growth e vma (vma.vm_start - grow * 4096) grow s).1.mm in
        (mm'.total_vm ≡ add64 s.mm.total_vm grow)
        × (mm'.locked_vm
            ≡ (if has vma.vm_flags vm_locked then add64 s.mm.locked_vm grow else s.mm.locked_vm))
  unfolding store_growth
  counted vma s grow =
      let locked = record s.mm { locked_vm = add64 s.mm.locked_vm grow } in
      elim (Bool-cases (has vma.vm_flags vm_locked)) [
        | inl locks ↦ rw locks (
          vm_stat_account-total e.kinds locked vma.vm_flags grow,
          (vm_stat_account_keeps e.kinds locked vma.vm_flags grow).0,
        )
        | inr plain ↦ rw plain (
          vm_stat_account-total e.kinds s.mm vma.vm_flags grow,
          (vm_stat_account_keeps e.kinds s.mm vma.vm_flags grow).0,
        )
      ]

  store_growth-Grows :
      (vma : Vma) (page x : ℕ) (s : Stack)
      → IsPaged vma
      → page % 4096 ≡ 0
      → page < vma.vm_start
      → vma.vm_start ≤ x
      → (vma.vm_start - page) / 4096 ≤ vma.vm_pgoff
      → let (v, s') = store_growth e vma page ((vma.vm_start - page) / 4096) s in
        Grows vma page x s ((pos 0, v), s')
  unfolding store_growth
  store_growth-Grows vma page x s w p lt le fits =
      let grow = (vma.vm_start - page) / 4096 in
      inr (
        inr (
          refl,
          lt,
          refl,
          refl,
          refl,
          omega arith,
          record {
            total_vm = (counted vma s grow).0;
            locked_vm = (counted vma s grow).1;
            stored = refl;
            mmap_lock = refl;
            anon_lock = refl;
          },
        ))

  grow_locked-Grows :
      (vma : Vma) (page x : ℕ) (s : Stack)
      → IsPaged vma
      → s.mm.total_vm < 2 ^ 64
      → page % 4096 ≡ 0
      → vma.vm_start ≤ x
      → Grows vma page x s (grow_locked e vma page s)
  unfolding grow_locked
  grow_locked-Grows vma page x s w t p le =
      ground (arith, w.start_word, w.start_page, store_growth-Grows vma page x s w p)

  expand_locked-Grows :
      (vma : Vma) (page x : ℕ) (s : Stack)
      → IsPaged vma
      → s.mm.total_vm < 2 ^ 64
      → page % 4096 ≡ 0
      → vma.vm_start ≤ x
      → s.anon_lock ≡ false
      → (answer : (ℤ × Vma) × Stack) × (expand_locked e vma page s ≡ some answer)
        × Grows vma page x s answer
  unfolding expand_locked anon_vma_lock_write anon_vma_unlock_write
  expand_locked-Grows vma page x s w t p le free =
      let held = record s { anon_lock = true } in
      let ((error, v), s') = grow_locked e vma page held in
      let grows = grow_locked-Grows vma page x held w t p le in
      (((error, v), record s' { anon_lock = false }), ground (arith, grows), ground (arith, grows))

  -- The vma before, if any, leaves a guard gap above it, unless it is a stack itself or cannot be
  -- reached, or reaches above the page.
  abbrev pub IsGuarded : ℕ → Option Vma → Type 0
  IsGuarded page none = Unit {0}
  IsGuarded page (some prev) =
      (has prev.vm_flags vm_growsdown ≡ true)
      ⊎ (e.vma_is_accessible prev ≡ false)
      ⊎ (prev.vm_end + e.stack_guard_gap ≤ page)
      ⊎ (page < prev.vm_end)

  -- What the tests before the growth have made sure of.
  abbrev pub Guarded : Vma → ℕ → Type 0
  Guarded vma page =
      (has vma.vm_flags vm_growsdown ≡ true)
      × (e.mmap_min_addr ≤ page)
      × (e.first_user_address ≤ page)
      × IsGuarded page (e.tree.mas_prev vma.vm_start)

  near_prev-IsGuarded :
      (page : ℕ) (prev : Option Vma)
      → page < 2 ^ 64
      → near_prev e page prev ≡ false
      → IsGuarded page prev
  unfolding near_prev
  near_prev-IsGuarded page none w h = tt
  near_prev-IsGuarded page (some prev) w h = ground (arith, h)

  abbrev pub Expands : Vma → ℕ → ℕ → Stack → Option ((ℤ × Vma) × Stack) → Type 0
  Expands vma page x s none = ⊥
  Expands vma page x s (some ((error, v), s')) =
      (((error ==ℤ pos 0) ≡ false) × (v ≡ vma) × (s' ≡ s))
      ⊎ (Guarded vma page × Grows (e.raced vma) page x s ((error, v), s'))

  -- An attempt to expand a stack down to an address returns with the lock of its anon_vma free. It
  -- is refused with an error and changes nothing, or the tests for a stack, for low addresses and
  -- for the guard gap held, and then the vma that the lock found grows as it should.
  pub expand_downwards-Expands :
      (vma : Vma) (address x : ℕ) (s : Stack)
      → IsPaged (e.raced vma)
      → s.mm.total_vm < 2 ^ 64
      → (e.raced vma).vm_start ≤ x
      → s.anon_lock ≡ false
      → address < 2 ^ 64
      → Expands vma (page_mask address) x s (expand_downwards e vma address s)
  unfolding expand_downwards
  expand_downwards-Expands vma address x s w t le free word =
      let page = page_mask address in
      let (answer, locked, grows) =
        expand_locked-Grows (e.raced vma) page x s w t (omega arith) le free in
      let guarded = near_prev-IsGuarded page (e.tree.mas_prev vma.vm_start) (omega arith) in
      ground (arith, locked, grows, guarded)
