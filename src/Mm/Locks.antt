-- ===== src/Mm/Locks.antt =====
-- mm/mmap.c, mm_take_all_locks and mm_drop_all_locks.
pub mod Pair
pub mod Loops
pub mod Drop
pub mod Take
use vd2024_so2_private_code.Base.{
  ℕ, List, [], ◌∷◌, Option, none, some, Bool, true, false, not, ◌&&◌, ◌==◌, if◌then◌else◌, ℤ, pos,
  neg, eintr, is_some,
}
use vd2024_so2_private_code.Base.State.{M, ◌>>=◌, ◌>>◌, ret, gets, puts}
use vd2024_so2_private_code.Mm.Types.{Vma}

-- A lock with the bit that marks it as taken by mm_take_all_locks: the lowest bit of the rb_node of
-- an anon_vma's root, or AS_MM_ALL_LOCKS of a mapping.
pub record Lock : Type 0 where
  pub bit : Bool
  pub rwsem : Bool

-- The locks of the roots of anon_vmas and those of the mappings of files, `mm_all_locks_mutex`, the
-- answers that `signal_pending` has still to give (no signal after them), and the vmas that
-- `vma_start_write` marked.
pub record AllLocks : Type 0 where
  pub anon : ℕ → Lock
  pub mapping : ℕ → Lock
  pub mutex : Bool
  pub signals : List Bool
  pub written : List Vma

-- `vma->vm_file->f_mapping` of a file, and whether a vma is of huge pages. The roots of the
-- anon_vmas on the chain of a vma are in its `anon_vma_chain`.
pub record LockEnv : Type 0 where
  pub f_mapping : ℕ → Option ℕ
  pub is_vm_hugetlb_page : Vma → Bool

pub put : (ℕ → Lock) → ℕ → Lock → ℕ → Lock
put f k v i = if i == k then v else f i

-- `none` is a BUG, or a lock that is taken twice or released while free.
pub take_lock : Lock → Option Lock
take_lock l =
    if l.bit then some l else (if l.rwsem then none else some (record { bit = true; rwsem = true }))

pub drop_lock : Lock → Option Lock
drop_lock l =
    if l.bit
    then (if l.rwsem then some (record { bit = false; rwsem = false }) else none)
    else some l

-- `vm_lock_anon_vma` and `vm_unlock_anon_vma`
pub on_anon : (Lock → Option Lock) → ℕ → M AllLocks (Unit {0})
unfolding put
on_anon f root s = elim (f (s.anon root)) [
  | none ↦ none
  | some l ↦ some (tt, record s { anon = put s.anon root l })
]

-- `vm_lock_mapping` and `vm_unlock_mapping`
pub on_mapping : (Lock → Option Lock) → ℕ → M AllLocks (Unit {0})
unfolding put
on_mapping f mapping s = elim (f (s.mapping mapping)) [
  | none ↦ none
  | some l ↦ some (tt, record s { mapping = put s.mapping mapping l })
]

pub on_chain : (Lock → Option Lock) → List ℕ → M AllLocks (Unit {0})
unfolding on_anon
on_chain f [] s = some (tt, s)
on_chain f (root ∷ roots) s = elim (on_anon f root s) [
  | none ↦ none
  | some (u, s') ↦ on_chain f roots s'
]

-- `if (vma->anon_vma)`
pub roots_of : Vma → List ℕ
roots_of vma = if is_some vma.anon_vma then vma.anon_vma_chain else []

pub signal_pending : M AllLocks Bool
signal_pending s = elim s.signals [
  | [] ↦ some (false, s)
  | signal ∷ rest ↦ some (signal, record s { signals = rest })
]

pub vma_start_write : Vma → M AllLocks (Unit {0})
vma_start_write vma = puts (λ s. record s { written = vma ∷ s.written })

module _ (e : LockEnv) where
  -- `vma->vm_file && vma->vm_file->f_mapping`
  pub mapping_of : Vma → Option ℕ
  mapping_of vma = elim vma.vm_file [ none ↦ none | some file ↦ e.f_mapping file ]

  pub on_some_mapping : (Lock → Option Lock) → Option ℕ → M AllLocks (Unit {0})
  unfolding on_mapping
  on_some_mapping f none = ret tt
  on_some_mapping f (some mapping) = on_mapping f mapping

  -- A loop of mm_take_all_locks, whose answer is whether it was interrupted.
  pub each_vma : (Vma → M AllLocks (Unit {0})) → List Vma → M AllLocks Bool
  unfolding signal_pending
  each_vma body [] s = some (false, s)
  each_vma body (vma ∷ vmas) s = elim (signal_pending s) [
    | none ↦ none
    | some (signal, s') ↦ elim signal [
      | true ↦ some (true, s')
      | false ↦ elim (body vma s') [ none ↦ none | some (u, s'') ↦ each_vma body vmas s'' ]
    ]
  ]

  pub lock_mapping_if : Bool → Vma → M AllLocks (Unit {0})
  unfolding mapping_of on_some_mapping take_lock
  lock_mapping_if huge vma = on_some_mapping take_lock (
      if e.is_vm_hugetlb_page vma
      then (if huge then mapping_of vma else none)
      else (if huge then none else mapping_of vma))

  pub lock_anon : Vma → M AllLocks (Unit {0})
  unfolding roots_of on_chain take_lock
  lock_anon vma = on_chain take_lock (roots_of vma)

  pub drop_vma : Vma → M AllLocks (Unit {0})
  unfolding roots_of on_chain mapping_of on_some_mapping drop_lock
  drop_vma vma s = elim (on_chain drop_lock (roots_of vma) s) [
    | none ↦ none
    | some (u, s') ↦ on_some_mapping drop_lock (mapping_of vma) s'
  ]

  pub drop_vmas : List Vma → M AllLocks (Unit {0})
  unfolding drop_vma
  drop_vmas [] s = some (tt, s)
  drop_vmas (vma ∷ vmas) s = elim (drop_vma vma s) [
    | none ↦ none
    | some (u, s') ↦ drop_vmas vmas s'
  ]

  pub mm_drop_all_locks : List Vma → M AllLocks (Unit {0})
  unfolding drop_vmas
  mm_drop_all_locks vmas s = elim s.mutex [
    | false ↦ none
    | true ↦ elim (drop_vmas vmas s) [
      | none ↦ none
      | some (u, s') ↦ some (tt, record s' { mutex = false })
    ]
  ]

  -- `out_unlock:` where a loop was interrupted, or the loops that follow.
  pub unless_interrupted : List Vma → M AllLocks ℤ → Bool → M AllLocks ℤ
  unfolding mm_drop_all_locks
  unless_interrupted vmas rest interrupted s = elim interrupted [
    | false ↦ rest s
    | true ↦ elim (mm_drop_all_locks vmas s) [ none ↦ none | some (u, s') ↦ some (neg eintr, s') ]
  ]

  pub loops : List Vma → List (Vma → M AllLocks (Unit {0})) → M AllLocks ℤ
  unfolding each_vma unless_interrupted
  loops vmas [] s = some (pos 0, s)
  loops vmas (body ∷ bodies) s = elim (each_vma body vmas s) [
    | none ↦ none
    | some (interrupted, s') ↦ unless_interrupted vmas (loops vmas bodies) interrupted s'
  ]

  pub mm_take_all_locks : List Vma → M AllLocks ℤ
  unfolding loops lock_mapping_if lock_anon vma_start_write
  mm_take_all_locks vmas s = elim s.mutex [
    | true ↦ none
    | false ↦
        loops vmas (vma_start_write ∷ lock_mapping_if true ∷ lock_mapping_if false ∷ lock_anon ∷ [])
          (record s { mutex = true })
  ]
