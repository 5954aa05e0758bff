-- ===== src/Mm/Locks/Loops.antt =====
-- The loops of mm_take_all_locks of mm/mmap.c.
use vd2024_so2_private_code.Base.{
  ℕ, List, [], ◌∷◌, Option, none, some, Bool, true, false, ◌||◌, ◌≡◌, refl, arith,
}
use vd2024_so2_private_code.Base.State.{M}
use vd2024_so2_private_code.Mm.Types.{Vma}
use vd2024_so2_private_code.Mm.Locks.{AllLocks, LockEnv, signal_pending, each_vma}
use vd2024_so2_private_code.Mm.Locks.Pair.{Within, Sub, Took, Took-after, Took-done}

-- The locks that a loop takes, one set for each vma.
abbrev pub any_of : (Vma → ℕ → Bool) → List Vma → ℕ → Bool
any_of x [] i = false
any_of x (vma ∷ vmas) i = x vma i || any_of x vmas i

-- The end of a loop: interrupted, with what it took within the sets, or with all of its locks.
abbrev pub Looped :
    (ℕ → Bool) → (ℕ → Bool) → (ℕ → Bool) → (ℕ → Bool) → AllLocks → Option (Bool × AllLocks) → Type 0
Looped u v x y s none = ⊥
Looped u v x y s (some (true, s')) = Took u v (λ i. false) (λ i. false) s (some (tt, s'))
Looped u v x y s (some (false, s')) = Took u v x y s (some (tt, s'))

-- Whether there is a signal changes no lock.
Signals : AllLocks → Type 0
Signals s = (b : Bool) × (l : List Bool) × (signal_pending s ≡ some (b, record s { signals = l }))

signal_pending-cases : (s : AllLocks) (l : List Bool) → s.signals ≡ l → Signals s
unfolding signal_pending Signals
signal_pending-cases s [] h = (false, s.signals, ground arith)
signal_pending-cases s (b ∷ rest) h = (b, rest, rw (signal_pending, h) refl)

module _ (u v : ℕ → Bool) where
  Looped-after :
      (x y x' y' : ℕ → Bool) (s s' : AllLocks) (r : Option (Bool × AllLocks))
      → Took u v x y s (some (tt, s'))
      → Looped u v x' y' s' r
      → Looped u v (λ i. x i || x' i) (λ i. y i || y' i) s r
  Looped-after x y x' y' s s' none t h = h
  Looped-after x y x' y' s s' (some (true, s'')) (w, z, e, g, k) h =
      let (w', z', e', g', k') =
        Took-after u v x y (λ i. false) (λ i. false) s s' (some (tt, s'')) e g k h in
      (w', z', e', (λ i. ground (arith, g' i)), (λ i. ground (arith, k' i)))
  Looped-after x y x' y' s s' (some (false, s'')) (w, z, e, g, k) h =
      Took-after u v x y x' y' s s' (some (tt, s'')) e g k h

  after_body :
      (x y x' y' : ℕ → Bool) (s : AllLocks) (r : Option (Unit {0} × AllLocks))
      (k : AllLocks → Option (Bool × AllLocks))
      → Took u v x y s r
      → ((s' : AllLocks) → Within u s'.anon → Within v s'.mapping → Looped u v x' y' s' (k s'))
      → Looped u v
          (λ i. x i || x' i)
          (λ i. y i || y' i)
          s
          (elim r [ none ↦ none | some (a, s') ↦ k s' ])
  after_body x y x' y' s none k t h = t
  after_body x y x' y' s (some (a, s')) k (w, z, e, g, g') h =
      Looped-after x y x' y' s s' (k s') (w, z, e, g, g') (h s' w z)

  Looped-signals :
      (x y : ℕ → Bool) (s : AllLocks) (l : List Bool) (r : Option (Bool × AllLocks))
      → Looped u v x y (record s { signals = l }) r
      → Looped u v x y s r
  Looped-signals x y s l none h = h
  Looped-signals x y s l (some (true, s')) h = h
  Looped-signals x y s l (some (false, s')) h = h

  -- One round, once the signals were looked at.
  round-Looped :
      (x y x' y' : ℕ → Bool) (s : AllLocks) (b : Bool) (r : Option (Unit {0} × AllLocks))
      (k : AllLocks → Option (Bool × AllLocks))
      → Within u s.anon
      → Within v s.mapping
      → Took u v x y s r
      → ((s' : AllLocks) → Within u s'.anon → Within v s'.mapping → Looped u v x' y' s' (k s'))
      → Looped u v
          (λ i. x i || x' i)
          (λ i. y i || y' i)
          s
          (elim b [ true ↦ some (true, s) | false ↦ elim r [ none ↦ none | some (a, s') ↦ k s' ] ])
  round-Looped x y x' y' s true r k a m t h = Took-done u v tt s a m
  round-Looped x y x' y' s false r k a m t h = after_body x y x' y' s r k t h

  pub each_vma-Looped :
      (e : LockEnv) (body : Vma → M AllLocks (Unit {0})) (x y : Vma → ℕ → Bool) (vmas : List Vma)
      (s : AllLocks)
      → ((vma : Vma) (s : AllLocks)
          → Sub (x vma) u
          → Sub (y vma) v
          → Within u s.anon
          → Within v s.mapping
          → Took u v (x vma) (y vma) s (body vma s))
      → Sub (any_of x vmas) u
      → Sub (any_of y vmas) v
      → Within u s.anon
      → Within v s.mapping
      → Looped u v (any_of x vmas) (any_of y vmas) s (each_vma e body vmas s)
  unfolding each_vma Signals
  each_vma-Looped e body x y [] s step hx hy a m = Took-done u v tt s a m
  each_vma-Looped e body x y (vma ∷ vmas) s step hx hy a m =
      let (b, l, signal) = signal_pending-cases s s.signals refl in
      let s' : AllLocks = record s { signals = l } in
      rw (each_vma, signal)
        (Looped-signals (any_of x (vma ∷ vmas)) (any_of y (vma ∷ vmas)) s l _ (
          round-Looped (x vma) (y vma) (any_of x vmas) (any_of y vmas) s' b (body vma s')
            (each_vma e body vmas) a m
            (step vma s' (λ i. ground (arith, hx i)) (λ i. ground (arith, hy i)) a m)
            (λ t a' m'.
              each_vma-Looped e body x y vmas t step (λ i. ground (arith, hx i))
                (λ i. ground (arith, hy i)) a' m')))
