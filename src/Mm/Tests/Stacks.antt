-- ===== src/Mm/Tests/Stacks.antt =====
-- The growth of a stack of mm/mmap.c at concrete inputs, and its theorems there.
use vd2024_so2_private_code.Base.{◌≡◌, refl, arith, [], some, true, false}
use vd2024_so2_private_code.Mm.Types.{Vma}
use vd2024_so2_private_code.Mm.Area.{find_vma_prev}
use vd2024_so2_private_code.Mm.Stack.{Stack, GrowEnv, read_locked, expand_downwards, expand_stack}
use vd2024_so2_private_code.Mm.Stack.Growth.{IsPaged, Expands, expand_downwards-Expands}
use vd2024_so2_private_code.Mm.Stack.Fault.{Faulted, IsRaced, expand_stack-Faulted}
use vd2024_so2_private_code.Mm.Tests.{one, tree, tree-IsTree, counters, rlimits, kinds}

-- The one vma as a stack that nobody else expands.
abbrev grow_env : GrowEnv
grow_env = record {
  tree = tree;
  kinds = kinds;
  stack_env = record {
    is_hugepage_only_range = λ a n. false;
    security_vm_enough_memory_mm = λ n. false;
  };
  rlimits = rlimits;
  mmap_min_addr = 0x1000;
  first_user_address = 0;
  stack_guard_gap = 0x1000;
  vma_is_accessible = λ v. true;
  mas_preallocate = true;
  anon_vma_prepare = true;
  raced = λ v. v;
  interrupted = false;
}

abbrev stack_vma : Vma
stack_vma = record one { vm_flags = 0x100 }

abbrev stack : Stack
stack = record { mm = counters; mmap_lock = read_locked; anon_lock = false; stored = [] }

stack_vma-IsPaged : IsPaged stack_vma
stack_vma-IsPaged = record {
  start_page = omega arith;
  start_word = omega arith;
  pgoff_word = omega arith;
}

expand_downwards-Expands_example :
    Expands grow_env stack_vma 0xf000 0x10800 stack
      (expand_downwards grow_env stack_vma 0xf123 stack)
expand_downwards-Expands_example =
    expand_downwards-Expands grow_env stack_vma 0xf123 0x10800 stack stack_vma-IsPaged (omega arith)
      (omega arith) refl (omega arith)

found_one : (vma : Vma) → (find_vma_prev tree 0xf123).0 ≡ some vma → IsRaced vma vma
unfolding find_vma_prev
found_one vma h = (
  record { start_page = ground arith; start_word = ground arith; pgoff_word = ground arith },
  refl,
)

expand_stack-Faulted_example : Faulted 0xf123 (expand_stack grow_env 0xf123 stack)
expand_stack-Faulted_example =
    expand_stack-Faulted grow_env tree-IsTree 0xf123 (omega arith) stack refl refl (omega arith)
      found_one
