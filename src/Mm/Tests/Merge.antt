-- ===== src/Mm/Tests/Merge.antt =====
-- The tests on merging of mm/mmap.c at concrete inputs, and their theorems there.
use vd2024_so2_private_code.Base.{◌≡◌, refl, none, some, true}
use vd2024_so2_private_code.Mm.Types.{Vma}
use vd2024_so2_private_code.Mm.Merge.{
  MergeEnv, Attributes, can_vma_merge_after, find_mergeable_anon_vma,
}
use vd2024_so2_private_code.Mm.Tests.{one, tree}

abbrev attributes : Attributes
attributes = record {
  vm_flags = 0;
  anon_vma = some 9;
  file = some 5;
  vm_userfaultfd_ctx = none;
  anon_name = none;
}

abbrev merge_env : MergeEnv
merge_env = record {
  is_mergeable_vm_userfaultfd_ctx = λ v c. true;
  anon_vma_name_eq = λ a b. true;
  mpol_equal = λ a b. true;
}

may_merge_after : can_vma_merge_after merge_env one attributes 3 ≡ true
unfolding can_vma_merge_after
may_merge_after = refl

-- The vma before `one`.
abbrev before : Vma
before = record one { vm_start = 0xf000; vm_end = 0x10000; vm_pgoff = 1; anon_vma = none }

shares_one : find_mergeable_anon_vma merge_env tree before ≡ some 9
unfolding find_mergeable_anon_vma
shares_one = refl
