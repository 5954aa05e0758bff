-- ===== src/Mm/Locks/Take.antt =====
-- mm_take_all_locks of mm/mmap.c, and what the pair of functions promises.
use vd2024_so2_private_code.Base.{
  ℕ, List, [], ◌∷◌, Option, none, some, Bool, true, false, not, ◌&&◌, ◌||◌, ◌≡◌, ◌⊎◌, inl, inr,
  refl, ◌∙◌, arith, if◌then◌else◌, ℤ, pos, neg, eintr,
}
use vd2024_so2_private_code.Base.State.{M}
use vd2024_so2_private_code.Mm.Types.{Vma}
use vd2024_so2_private_code.Mm.Locks.{
  AllLocks, LockEnv, roots_of, vma_start_write, mapping_of, each_vma, lock_mapping_if, lock_anon,
  mm_drop_all_locks, unless_interrupted, loops, mm_take_all_locks,
}
use vd2024_so2_private_code.Mm.Locks.Pair.{
  is_it, Within, Sub, Took, Took-after, Took-done, on_chain-Took, on_some_mapping-Took,
}
use vd2024_so2_private_code.Mm.Locks.Loops.{any_of, Looped, each_vma-Looped}
use vd2024_so2_private_code.Mm.Locks.Drop.{roots, mappings, IsFree, HoldsAll, drop_all-Within}

-- How the loops end: with -EINTR and every lock free, or with the locks of all the loops.
abbrev Ended :
    (ℕ → Bool) → (ℕ → Bool) → (ℕ → Bool) → (ℕ → Bool) → AllLocks → Option (ℤ × AllLocks) → Type 0
Ended u v x y s none = ⊥
Ended u v x y s (some (r, s')) =
    ((r ≡ neg eintr) × IsFree s') ⊎ ((r ≡ pos 0) × Took u v x y s (some (tt, s')))

module _ (e : LockEnv) (vmas : List Vma) where
  abbrev u : ℕ → Bool
  u = any_of roots vmas

  abbrev v : ℕ → Bool
  v = any_of (mappings e) vmas

  Ended-after :
      (x y x' y' : ℕ → Bool) (s s' : AllLocks) (r : Option (ℤ × AllLocks))
      → Took u v x y s (some (tt, s'))
      → Ended u v x' y' s' r
      → Ended u v (λ i. x i || x' i) (λ i. y i || y' i) s r
  Ended-after x y x' y' s s' none t h = h
  Ended-after x y x' y' s s' (some (r, s'')) t (inl stopped) = inl stopped
  Ended-after x y x' y' s s' (some (r, s'')) (w, z, k, g, h) (inr (ok, t)) =
      inr (ok, Took-after u v x y x' y' s s' (some (tt, s'')) k g h t)

  -- A loop, and the ones after it where it was not interrupted.
  loop-Ended :
      (x y x' y' : ℕ → Bool) (s : AllLocks) (r : Option (Bool × AllLocks)) (k : M AllLocks ℤ)
      → s.mutex ≡ true
      → Looped u v x y s r
      → ((s' : AllLocks)
          → Within u s'.anon
          → Within v s'.mapping
          → s'.mutex ≡ true
          → Ended u v x' y' s' (k s'))
      → Ended u v
          (λ i. x i || x' i)
          (λ i. y i || y' i)
          s
          (elim r [
            | none ↦ none
            | some (interrupted, s') ↦ unless_interrupted e vmas k interrupted s'
          ])
  unfolding unless_interrupted
  loop-Ended x y x' y' s none k m l h = l
  loop-Ended x y x' y' s (some (true, s')) k m (w, z, q, g, j) h =
      let (t, dropped, free) = drop_all-Within e vmas s' w z (q ∙ m) in
      rw (unless_interrupted, dropped) (inl (refl, free))
  loop-Ended x y x' y' s (some (false, s')) k m (w, z, q, g, j) h =
      Ended-after x y x' y' s s' (k s') (w, z, q, g, j) (h s' w z (q ∙ m))

  loops-Ended :
      (body : Vma → M AllLocks (Unit {0})) (bodies : List (Vma → M AllLocks (Unit {0})))
      (x y : Vma → ℕ → Bool) (x' y' : ℕ → Bool) (s : AllLocks)
      → ((vma : Vma) (s : AllLocks)
          → Sub (x vma) u
          → Sub (y vma) v
          → Within u s.anon
          → Within v s.mapping
          → Took u v (x vma) (y vma) s (body vma s))
      → Sub (any_of x vmas) u
      → Sub (any_of y vmas) v
      → ((s' : AllLocks)
          → Within u s'.anon
          → Within v s'.mapping
          → s'.mutex ≡ true
          → Ended u v x' y' s' (loops e vmas bodies s'))
      → Within u s.anon
      → Within v s.mapping
      → s.mutex ≡ true
      → Ended u v
          (λ i. any_of x vmas i || x' i)
          (λ i. any_of y vmas i || y' i)
          s
          (loops e vmas (body ∷ bodies) s)
  unfolding loops
  loops-Ended body bodies x y x' y' s step hx hy rest a m h =
      loop-Ended (any_of x vmas) (any_of y vmas) x' y' s (each_vma e body vmas s)
        (loops e vmas bodies) h (each_vma-Looped u v e body x y vmas s step hx hy a m) rest

  loops-done :
      (s : AllLocks)
      → Within u s.anon
      → Within v s.mapping
      → Ended u v (λ i. false) (λ i. false) s (loops e vmas [] s)
  unfolding loops
  loops-done s a m = inr (refl, Took-done u v tt s a m)

abbrev nothing : Vma → ℕ → Bool
nothing vma i = false

any_of-nothing : (vmas : List Vma) (i : ℕ) → any_of nothing vmas i ≡ false
any_of-nothing [] i = refl
any_of-nothing (vma ∷ vmas) i = any_of-nothing vmas i

-- The mapping that one of the two loops on files takes.
abbrev chosen : LockEnv → Bool → Vma → Option ℕ
chosen e huge vma =
    if e.is_vm_hugetlb_page vma
    then (if huge then mapping_of e vma else none)
    else (if huge then none else mapping_of e vma)

chosen-within :
    (e : LockEnv) (huge : Bool) (vmas : List Vma)
    → Sub (any_of (λ vma. is_it (chosen e huge vma)) vmas) (any_of (mappings e) vmas)
chosen-within e huge [] i = refl
chosen-within e true (vma ∷ vmas) i = ground (arith, chosen-within e true vmas i)
chosen-within e false (vma ∷ vmas) i = ground (arith, chosen-within e false vmas i)

chosen-all :
    (e : LockEnv) (vmas : List Vma) (i : ℕ)
    → (any_of (mappings e) vmas i
        && not (
            any_of (λ vma. is_it (chosen e true vma)) vmas i
            || any_of (λ vma. is_it (chosen e false vma)) vmas i))
      ≡ false
chosen-all e [] i = refl
chosen-all e (vma ∷ vmas) i = ground (arith, chosen-all e vmas i)

module _ (e : LockEnv) (u v : ℕ → Bool) where
  write-Took :
      (vma : Vma) (s : AllLocks)
      → Sub (nothing vma) u
      → Sub (nothing vma) v
      → Within u s.anon
      → Within v s.mapping
      → Took u v (nothing vma) (nothing vma) s (vma_start_write vma s)
  unfolding vma_start_write
  write-Took vma s h k a m = (a, m, refl, (λ i. ground arith), (λ i. ground arith))

  mapping-Took :
      (huge : Bool) (vma : Vma) (s : AllLocks)
      → Sub (nothing vma) u
      → Sub (is_it (chosen e huge vma)) v
      → Within u s.anon
      → Within v s.mapping
      → Took u v (nothing vma) (is_it (chosen e huge vma)) s (lock_mapping_if e huge vma s)
  unfolding lock_mapping_if
  mapping-Took huge vma s h k a m = on_some_mapping-Took u v e (chosen e huge vma) s k a m

  anon-Took :
      (vma : Vma) (s : AllLocks)
      → Sub (roots vma) u
      → Sub (nothing vma) v
      → Within u s.anon
      → Within v s.mapping
      → Took u v (roots vma) (nothing vma) s (lock_anon e vma s)
  unfolding lock_anon
  anon-Took vma s h k a m = on_chain-Took u v (roots_of vma) s h a m

module _ (e : LockEnv) (vmas : List Vma) where
  abbrev used : ℕ → Bool
  used = any_of roots vmas

  abbrev mapped : ℕ → Bool
  mapped = any_of (mappings e) vmas

  abbrev mapped_by : Bool → ℕ → Bool
  mapped_by huge = any_of (λ vma. is_it (chosen e huge vma)) vmas

  abbrev idle : ℕ → Bool
  idle = any_of nothing vmas

  none_used : Sub idle used
  none_used i = ground (arith, any_of-nothing vmas i)

  none_mapped : Sub idle mapped
  none_mapped i = ground (arith, any_of-nothing vmas i)

  anon_loop :
      (s : AllLocks)
      → Within used s.anon
      → Within mapped s.mapping
      → s.mutex ≡ true
      → Ended used mapped
          (λ i. used i || false)
          (λ i. idle i || false)
          s
          (loops e vmas (lock_anon e ∷ []) s)
  anon_loop s a m h =
      loops-Ended e vmas (lock_anon e) [] roots nothing (λ i. false) (λ i. false) s
        (anon-Took e used mapped) (λ i. ground arith) none_mapped
        (λ t a' m' h'. loops-done e vmas t a' m') a m h

  small_loop :
      (s : AllLocks)
      → Within used s.anon
      → Within mapped s.mapping
      → s.mutex ≡ true
      → Ended used mapped
          (λ i. idle i || (used i || false))
          (λ i. mapped_by false i || (idle i || false))
          s
          (loops e vmas (lock_mapping_if e false ∷ lock_anon e ∷ []) s)
  small_loop s a m h =
      loops-Ended e vmas (lock_mapping_if e false) (lock_anon e ∷ []) nothing
        (λ w. is_it (chosen e false w)) (λ i. used i || false) (λ i. idle i || false) s
        (mapping-Took e used mapped false) none_used (chosen-within e false vmas) anon_loop a m h

  huge_loop :
      (s : AllLocks)
      → Within used s.anon
      → Within mapped s.mapping
      → s.mutex ≡ true
      → Ended used mapped
          (λ i. idle i || (idle i || (used i || false)))
          (λ i. mapped_by true i || (mapped_by false i || (idle i || false)))
          s
          (loops e vmas (lock_mapping_if e true ∷ lock_mapping_if e false ∷ lock_anon e ∷ []) s)
  huge_loop s a m h =
      loops-Ended e vmas (lock_mapping_if e true) (lock_mapping_if e false ∷ lock_anon e ∷ [])
        nothing (λ w. is_it (chosen e true w)) (λ i. idle i || (used i || false))
        (λ i. mapped_by false i || (idle i || false)) s (mapping-Took e used mapped true) none_used
        (chosen-within e true vmas) small_loop a m h

  all_loops :
      (s : AllLocks)
      → Within used s.anon
      → Within mapped s.mapping
      → s.mutex ≡ true
      → Ended used mapped
          (λ i. idle i || (idle i || (idle i || (used i || false))))
          (λ i. idle i || (mapped_by true i || (mapped_by false i || (idle i || false))))
          s
          (loops e vmas
            (vma_start_write ∷ lock_mapping_if e true ∷ lock_mapping_if e false ∷ lock_anon e ∷ [])
            s)
  all_loops s a m h =
      loops-Ended e vmas vma_start_write
        (lock_mapping_if e true ∷ lock_mapping_if e false ∷ lock_anon e ∷ []) nothing nothing
        (λ i. idle i || (idle i || (used i || false)))
        (λ i. mapped_by true i || (mapped_by false i || (idle i || false))) s
        (write-Took e used mapped) none_used none_mapped huge_loop a m h

  abbrev Taken : Option (ℤ × AllLocks) → Type 0
  Taken result =
      (r : ℤ) × (s' : AllLocks) × (result ≡ some (r, s'))
      × (((r ≡ neg eintr) × IsFree s') ⊎ ((r ≡ pos 0) × HoldsAll e vmas s'))

  Ended-Taken :
      (s : AllLocks) (result : Option (ℤ × AllLocks))
      → s.mutex ≡ true
      → Ended used mapped
          (λ i. idle i || (idle i || (idle i || (used i || false))))
          (λ i. idle i || (mapped_by true i || (mapped_by false i || (idle i || false))))
          s
          result
      → Taken result
  Ended-Taken s none h t = absurd t
  Ended-Taken s (some (r, s')) h (inl stopped) = (r, s', refl, inl stopped)
  Ended-Taken s (some (r, s')) h (inr (ok, (w, z, q, g, k))) = (
    r,
    s',
    refl,
    inr (
      ok,
      (
        (λ i. ground (arith, w i, g i)),
        (λ i. ground (arith, z i, k i, chosen-all e vmas i)),
        q ∙ h,
      ),
    ),
  )

  -- From free locks mm_take_all_locks returns, without a bug and without waiting for itself: it
  -- answers 0 and holds exactly the locks of the vmas, each marked, or it was interrupted, answers
  -- -EINTR and leaves every lock free.
  pub mm_take_all_locks-HoldsAll :
      (s : AllLocks)
      → IsFree s
      → (r : ℤ) × (s' : AllLocks) × (mm_take_all_locks e vmas s ≡ some (r, s'))
        × (((r ≡ neg eintr) × IsFree s') ⊎ ((r ≡ pos 0) × HoldsAll e vmas s'))
  unfolding mm_take_all_locks
  mm_take_all_locks-HoldsAll s free =
      let taken : AllLocks = record s { mutex = true } in
      rw (mm_take_all_locks, free.2)
        (Ended-Taken taken _ refl
          (all_loops taken (λ i. ground (arith, free.0 i)) (λ i. ground (arith, free.1 i)) refl))

  -- mm_drop_all_locks gives back what mm_take_all_locks holds: every lock is free again.
  pub mm_drop_all_locks-IsFree :
      (s : AllLocks)
      → HoldsAll e vmas s
      → (s' : AllLocks) × (mm_drop_all_locks e vmas s ≡ some (tt, s')) × IsFree s'
  mm_drop_all_locks-IsFree s (a, m, h) =
      drop_all-Within e vmas s (λ i. ground (arith, a i)) (λ i. ground (arith, m i)) h
