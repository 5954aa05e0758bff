-- ===== src/Mm/Locks/Drop.antt =====
-- mm_drop_all_locks of mm/mmap.c, and what the pair of functions promises.
use vd2024_so2_private_code.Base.{
  ℕ, List, [], ◌∷◌, Option, none, some, Bool, true, false, not, ◌&&◌, ◌||◌, ◌==◌, ◌≡◌, refl, ◌∙◌,
  arith,
}
use vd2024_so2_private_code.Base.State.{M}
use vd2024_so2_private_code.Mm.Types.{Vma}
use vd2024_so2_private_code.Mm.Locks.{
  AllLocks, LockEnv, drop_lock, on_anon, on_mapping, on_chain, roots_of, mapping_of,
  on_some_mapping, drop_vma, drop_vmas, mm_drop_all_locks,
}
use vd2024_so2_private_code.Mm.Locks.Pair.{both, drop_lock_lem, put-Without, elem, is_it, Within}
use vd2024_so2_private_code.Mm.Locks.Loops.{any_of}

-- Locks that were within two sets, without those of two others.
abbrev Dropped :
    (ℕ → Bool)
    → (ℕ → Bool)
    → (ℕ → Bool)
    → (ℕ → Bool)
    → AllLocks
    → Option (Unit {0} × AllLocks)
    → Type 0
Dropped u v x y s none = ⊥
Dropped u v x y s (some (a, s')) =
    Within (λ i. u i && not (x i)) s'.anon
    × Within (λ i. v i && not (y i)) s'.mapping
    × (s'.mutex ≡ s.mutex)

on_anon-Dropped :
    (u v : ℕ → Bool) (root : ℕ) (s : AllLocks)
    → Within u s.anon
    → Within v s.mapping
    → Dropped u v (λ i. i == root) (λ i. false) s (on_anon drop_lock root s)
unfolding on_anon
on_anon-Dropped u v root s a m =
    rw (on_anon, drop_lock_lem (s.anon root) (a root).0)
      (put-Without u s.anon root a, (λ i. ground (arith, m i)), refl)

on_mapping-Dropped :
    (u v : ℕ → Bool) (k : ℕ) (s : AllLocks)
    → Within u s.anon
    → Within v s.mapping
    → Dropped u v (λ i. false) (λ i. i == k) s (on_mapping drop_lock k s)
unfolding on_mapping
on_mapping-Dropped u v k s a m =
    rw (on_mapping, drop_lock_lem (s.mapping k) (m k).0)
      ((λ i. ground (arith, a i)), put-Without v s.mapping k m, refl)

Dropped-after :
    (u v x y x' y' : ℕ → Bool) (s s' : AllLocks) (r : Option (Unit {0} × AllLocks))
    → s'.mutex ≡ s.mutex
    → Dropped (λ i. u i && not (x i)) (λ i. v i && not (y i)) x' y' s' r
    → Dropped u v (λ i. x i || x' i) (λ i. y i || y' i) s r
Dropped-after u v x y x' y' s s' none e h = h
Dropped-after u v x y x' y' s s' (some (a, s'')) e (w, z, e') =
    ((λ i. ground (arith, w i)), (λ i. ground (arith, z i)), e' ∙ e)

-- One step after another drops what both drop.
Dropped-then :
    (u v x y x' y' : ℕ → Bool) (s : AllLocks) (r : Option (Unit {0} × AllLocks))
    (k : M AllLocks (Unit {0}))
    → Dropped u v x y s r
    → ((s' : AllLocks)
        → Within (λ i. u i && not (x i)) s'.anon
        → Within (λ i. v i && not (y i)) s'.mapping
        → Dropped (λ i. u i && not (x i)) (λ i. v i && not (y i)) x' y' s' (k s'))
    → Dropped u v
        (λ i. x i || x' i)
        (λ i. y i || y' i)
        s
        (elim r [ none ↦ none | some (a, s') ↦ k s' ])
Dropped-then u v x y x' y' s none k d h = d
Dropped-then u v x y x' y' s (some (a, s')) k (w, z, e) h =
    Dropped-after u v x y x' y' s s' (k s') e (h s' w z)

Dropped-none :
    (u v : ℕ → Bool) (s : AllLocks)
    → Within u s.anon
    → Within v s.mapping
    → Dropped u v (λ i. false) (λ i. false) s (some (tt, s))
Dropped-none u v s a m = ((λ i. ground (arith, a i)), (λ i. ground (arith, m i)), refl)

on_chain-Dropped :
    (u v : ℕ → Bool) (roots : List ℕ) (s : AllLocks)
    → Within u s.anon
    → Within v s.mapping
    → Dropped u v (elem roots) (λ i. false) s (on_chain drop_lock roots s)
unfolding on_chain
on_chain-Dropped u v [] s a m = Dropped-none u v s a m
on_chain-Dropped u v (root ∷ roots) s a m =
    Dropped-then u v (λ i. i == root) (λ i. false) (elem roots) (λ i. false) s
      (on_anon drop_lock root s) (on_chain drop_lock roots) (on_anon-Dropped u v root s a m)
      (on_chain-Dropped (λ i. u i && not (i == root)) (λ i. v i && not false) roots)

on_some_mapping-Dropped :
    (e : LockEnv) (u v : ℕ → Bool) (k : Option ℕ) (s : AllLocks)
    → Within u s.anon
    → Within v s.mapping
    → Dropped u v (λ i. false) (is_it k) s (on_some_mapping e drop_lock k s)
unfolding on_some_mapping
on_some_mapping-Dropped e u v none s a m = Dropped-none u v s a m
on_some_mapping-Dropped e u v (some k) s a m = on_mapping-Dropped u v k s a m

-- The roots and the mapping of a vma.
abbrev pub roots : Vma → ℕ → Bool
roots vma = elem (roots_of vma)

abbrev pub mappings : LockEnv → Vma → ℕ → Bool
mappings e vma = is_it (mapping_of e vma)

drop_vma-Dropped :
    (e : LockEnv) (u v : ℕ → Bool) (vma : Vma) (s : AllLocks)
    → Within u s.anon
    → Within v s.mapping
    → Dropped u v (λ i. roots vma i || false) (mappings e vma) s (drop_vma e vma s)
unfolding drop_vma
drop_vma-Dropped e u v vma s a m =
    Dropped-then u v (roots vma) (λ i. false) (λ i. false) (mappings e vma) s
      (on_chain drop_lock (roots_of vma) s) (on_some_mapping e drop_lock (mapping_of e vma))
      (on_chain-Dropped u v (roots_of vma) s a m)
      (on_some_mapping-Dropped e (λ i. u i && not (roots vma i)) (λ i. v i && not false)
        (mapping_of e vma))

drop_vmas-Dropped :
    (e : LockEnv) (u v : ℕ → Bool) (vmas : List Vma) (s : AllLocks)
    → Within u s.anon
    → Within v s.mapping
    → Dropped u v
        (any_of (λ vma i. roots vma i || false) vmas)
        (any_of (mappings e) vmas)
        s
        (drop_vmas e vmas s)
unfolding drop_vmas
drop_vmas-Dropped e u v [] s a m = Dropped-none u v s a m
drop_vmas-Dropped e u v (vma ∷ vmas) s a m =
    Dropped-then u v (λ i. roots vma i || false) (mappings e vma)
      (any_of (λ w i. roots w i || false) vmas) (any_of (mappings e) vmas) s (drop_vma e vma s)
      (drop_vmas e vmas) (drop_vma-Dropped e u v vma s a m)
      (drop_vmas-Dropped e (λ i. u i && not (roots vma i || false))
        (λ i. v i && not (mappings e vma i)) vmas)

roots-or :
    (vmas : List Vma) (i : ℕ) → any_of (λ vma i. roots vma i || false) vmas i ≡ any_of roots vmas i
roots-or [] i = refl
roots-or (vma ∷ vmas) i = ground (arith, roots-or vmas i)

-- Every lock is free and unmarked, and so is the mutex.
abbrev pub IsFree : AllLocks → Type 0
IsFree s =
    ((i : ℕ) → s.anon i ≡ both false) × ((i : ℕ) → s.mapping i ≡ both false) × (s.mutex ≡ false)

-- Exactly the locks of the vmas are held and marked, and the mutex is held.
abbrev pub HoldsAll : LockEnv → List Vma → AllLocks → Type 0
HoldsAll e vmas s =
    ((i : ℕ) → s.anon i ≡ both (any_of roots vmas i))
    × ((i : ℕ) → s.mapping i ≡ both (any_of (mappings e) vmas i))
    × (s.mutex ≡ true)

-- All that was taken is given back.
pub drop_all-Within :
    (e : LockEnv) (vmas : List Vma) (s : AllLocks)
    → Within (any_of roots vmas) s.anon
    → Within (any_of (mappings e) vmas) s.mapping
    → s.mutex ≡ true
    → (s' : AllLocks) × (mm_drop_all_locks e vmas s ≡ some (tt, s')) × IsFree s'
unfolding mm_drop_all_locks
drop_all-Within e vmas s a m h =
    go (drop_vmas e vmas s) refl
      (drop_vmas-Dropped e (any_of roots vmas) (any_of (mappings e) vmas) vmas s a m)
  where
    go :
        (r : Option (Unit {0} × AllLocks))
        → drop_vmas e vmas s ≡ r
        → Dropped
            (any_of roots vmas)
            (any_of (mappings e) vmas)
            (any_of (λ vma i. roots vma i || false) vmas)
            (any_of (mappings e) vmas)
            s
            r
        → (s' : AllLocks) × (mm_drop_all_locks e vmas s ≡ some (tt, s')) × IsFree s'
    go none q d = absurd d
    go (some (t, s')) q (w, z, k) = (
      record s' { mutex = false },
      rw (mm_drop_all_locks, h, q) refl,
      ((λ i. ground (arith, w i, roots-or vmas i)), (λ i. ground (arith, z i)), refl),
    )
