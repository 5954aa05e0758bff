-- ===== src/Mm/Locks/Pair.antt =====
-- What mm_take_all_locks and mm_drop_all_locks of mm/mmap.c do to the locks.
use vd2024_so2_private_code.Base.{
  ℕ, List, [], ◌∷◌, Option, none, some, Bool, true, false, not, ◌&&◌, ◌||◌, ◌==◌, ◌≡◌, refl, ◌∙◌,
  arith,
}
use vd2024_so2_private_code.Base.State.{M}
use vd2024_so2_private_code.Mm.Locks.{
  Lock, AllLocks, LockEnv, put, take_lock, drop_lock, on_anon, on_mapping, on_chain,
  on_some_mapping,
}

-- A lock whose bit tells whether it is held.
abbrev pub both : Bool → Lock
both b = record { bit = b; rwsem = b }

take_lock_lem : (l : Lock) → l.rwsem ≡ l.bit → take_lock l ≡ some (both true)
unfolding take_lock
take_lock_lem l h = ground arith

pub drop_lock_lem : (l : Lock) → l.rwsem ≡ l.bit → drop_lock l ≡ some (both false)
unfolding drop_lock
drop_lock_lem l h = ground arith

-- Sets of locks.
abbrev pub elem : List ℕ → ℕ → Bool
elem [] i = false
elem (x ∷ xs) i = i == x || elem xs i

abbrev pub is_it : Option ℕ → ℕ → Bool
is_it none i = false
is_it (some k) i = i == k

abbrev pub Within : (ℕ → Bool) → (ℕ → Lock) → Type 0
Within used locks =
    (i : ℕ) → ((locks i).rwsem ≡ (locks i).bit) × (((locks i).bit && not (used i)) ≡ false)

-- Locks that grew, and now hold a set.
abbrev pub Grew : (ℕ → Bool) → (ℕ → Lock) → (ℕ → Lock) → Type 0
Grew taken locks locks' = (i : ℕ) → ((((locks i).bit || taken i) && not (locks' i).bit) ≡ false)

put-Within :
    (used : ℕ → Bool) (locks : ℕ → Lock) (k : ℕ)
    → used k ≡ true
    → Within used locks
    → Within used (put locks k (both true))
unfolding put
put-Within used locks k h w i = ground (arith, w i)

put-Grew : (locks : ℕ → Lock) (k : ℕ) → Grew (λ i. i == k) locks (put locks k (both true))
unfolding put
put-Grew locks k i = ground arith

pub put-Without :
    (used : ℕ → Bool) (locks : ℕ → Lock) (k : ℕ)
    → Within used locks
    → Within (λ i. used i && not (i == k)) (put locks k (both false))
unfolding put
put-Without used locks k w i = ground (arith, w i)

Grew-refl : (locks : ℕ → Lock) → Grew (λ i. false) locks locks
Grew-refl locks i = ground arith

Grew-trans :
    (x y : ℕ → Bool) (a b c : ℕ → Lock) → Grew x a b → Grew y b c → Grew (λ i. x i || y i) a c
Grew-trans x y a b c h k i = ground (arith, h i, k i)

abbrev pub Sub : (ℕ → Bool) → (ℕ → Bool) → Type 0
Sub x y = (i : ℕ) → (x i && not (y i)) ≡ false

-- A step that keeps the locks within two sets, and takes those of two others.
abbrev pub Took :
    {A : Type 0}
    → (ℕ → Bool)
    → (ℕ → Bool)
    → (ℕ → Bool)
    → (ℕ → Bool)
    → AllLocks
    → Option (A × AllLocks)
    → Type 0
Took u v x y s none = ⊥
Took u v x y s (some (a, s')) =
    Within u s'.anon
    × Within v s'.mapping
    × (s'.mutex ≡ s.mutex)
    × Grew x s.anon s'.anon
    × Grew y s.mapping s'.mapping

module _ (u v : ℕ → Bool) where
  on_anon-Took :
      (root : ℕ) (s : AllLocks)
      → u root ≡ true
      → Within u s.anon
      → Within v s.mapping
      → Took u v (λ i. i == root) (λ i. false) s (on_anon take_lock root s)
  unfolding on_anon
  on_anon-Took root s h a m =
      rw (on_anon, take_lock_lem (s.anon root) (a root).0)
        (put-Within u s.anon root h a, m, refl, put-Grew s.anon root, Grew-refl s.mapping)

  on_mapping-Took :
      (k : ℕ) (s : AllLocks)
      → v k ≡ true
      → Within u s.anon
      → Within v s.mapping
      → Took u v (λ i. false) (λ i. i == k) s (on_mapping take_lock k s)
  unfolding on_mapping
  on_mapping-Took k s h a m =
      rw (on_mapping, take_lock_lem (s.mapping k) (m k).0)
        (a, put-Within v s.mapping k h m, refl, Grew-refl s.anon, put-Grew s.mapping k)

  pub Took-after :
      {A : Type 0} (x y x' y' : ℕ → Bool) (s s' : AllLocks) (r : Option (A × AllLocks))
      → s'.mutex ≡ s.mutex
      → Grew x s.anon s'.anon
      → Grew y s.mapping s'.mapping
      → Took u v x' y' s' r
      → Took u v (λ i. x i || x' i) (λ i. y i || y' i) s r
  Took-after x y x' y' s s' none e g h t = t
  Took-after x y x' y' s s' (some (a, s'')) e g h (w, z, e', g', h') = (
    w,
    z,
    e' ∙ e,
    Grew-trans x x' s.anon s'.anon s''.anon g g',
    Grew-trans y y' s.mapping s'.mapping s''.mapping h h',
  )

  -- One step after another takes what both take.
  pub Took-then :
      {A B : Type 0} (x y x' y' : ℕ → Bool) (s : AllLocks) (r : Option (A × AllLocks))
      (k : A → M AllLocks B)
      → Took u v x y s r
      → ((a : A) (s' : AllLocks)
          → Within u s'.anon
          → Within v s'.mapping
          → Took u v x' y' s' (k a s'))
      → Took u v
          (λ i. x i || x' i)
          (λ i. y i || y' i)
          s
          (elim r [ none ↦ none | some (a, s') ↦ k a s' ])
  Took-then x y x' y' s none k t h = t
  Took-then x y x' y' s (some (a, s')) k (w, z, e, g, g') h =
      Took-after x y x' y' s s' (k a s') e g g' (h a s' w z)

  pub Took-done :
      {A : Type 0} (a : A) (s : AllLocks)
      → Within u s.anon
      → Within v s.mapping
      → Took u v (λ i. false) (λ i. false) s (some (a, s))
  Took-done a s w z = (w, z, refl, Grew-refl s.anon, Grew-refl s.mapping)

  pub on_chain-Took :
      (roots : List ℕ) (s : AllLocks)
      → Sub (elem roots) u
      → Within u s.anon
      → Within v s.mapping
      → Took u v (elem roots) (λ i. false) s (on_chain take_lock roots s)
  unfolding on_chain
  on_chain-Took [] s h a m = Took-done tt s a m
  on_chain-Took (root ∷ roots) s h a m =
      Took-then (λ i. i == root) (λ i. false) (elem roots) (λ i. false) s (on_anon take_lock root s)
        (λ t. on_chain take_lock roots) (on_anon-Took root s (ground (arith, h root)) a m)
        (λ t s' a' m'. on_chain-Took roots s' (λ i. ground (arith, h i)) a' m')

  pub on_some_mapping-Took :
      (e : LockEnv) (k : Option ℕ) (s : AllLocks)
      → Sub (is_it k) v
      → Within u s.anon
      → Within v s.mapping
      → Took u v (λ i. false) (is_it k) s (on_some_mapping e take_lock k s)
  unfolding on_some_mapping
  on_some_mapping-Took e none s h a m = Took-done tt s a m
  on_some_mapping-Took e (some k) s h a m = on_mapping-Took k s (ground (arith, h k)) a m
