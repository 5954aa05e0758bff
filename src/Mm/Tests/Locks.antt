-- ===== src/Mm/Tests/Locks.antt =====
-- The locks of mm/mmap.c at concrete inputs, and their theorems there.
use vd2024_so2_private_code.Base.{
  List, [], ◌∷◌, some, true, false, ◌≡◌, ◌⊎◌, refl, ℤ, pos, neg, eintr,
}
use vd2024_so2_private_code.Mm.Types.{Vma}
use vd2024_so2_private_code.Mm.Locks.{AllLocks, LockEnv, mm_take_all_locks, mm_drop_all_locks}
use vd2024_so2_private_code.Mm.Locks.Pair.{both}
use vd2024_so2_private_code.Mm.Locks.Loops.{any_of}
use vd2024_so2_private_code.Mm.Locks.Drop.{roots, mappings, IsFree, HoldsAll}
use vd2024_so2_private_code.Mm.Locks.Take.{mm_take_all_locks-HoldsAll, mm_drop_all_locks-IsFree}
use vd2024_so2_private_code.Mm.Tests.{one}

-- The file 5 has the mapping 6; a signal comes in the third loop.
abbrev lock_env : LockEnv
lock_env = record { f_mapping = λ f. some 6; is_vm_hugetlb_page = λ v. false }

-- Two vmas that share their anon_vma and their file.
abbrev two : List Vma
two = one ∷ one ∷ []

abbrev free : AllLocks
free = record {
  anon = λ i. both false;
  mapping = λ i. both false;
  mutex = false;
  signals = false ∷ false ∷ false ∷ false ∷ false ∷ true ∷ [];
  written = [];
}

abbrev held : AllLocks
held = record free {
  anon = λ i. both (any_of roots two i);
  mapping = λ i. both (any_of (mappings lock_env) two i);
  mutex = true;
}

mm_take_all_locks-HoldsAll_example :
    (r : ℤ) × (s' : AllLocks) × (mm_take_all_locks lock_env two free ≡ some (r, s'))
    × (((r ≡ neg eintr) × IsFree s') ⊎ ((r ≡ pos 0) × HoldsAll lock_env two s'))
mm_take_all_locks-HoldsAll_example =
    mm_take_all_locks-HoldsAll lock_env two free ((λ i. refl), (λ i. refl), refl)

mm_drop_all_locks-IsFree_example :
    (s' : AllLocks) × (mm_drop_all_locks lock_env two held ≡ some (tt, s')) × IsFree s'
mm_drop_all_locks-IsFree_example =
    mm_drop_all_locks-IsFree lock_env two held ((λ i. refl), (λ i. refl), refl)
