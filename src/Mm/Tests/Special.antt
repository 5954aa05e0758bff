-- ===== src/Mm/Tests/Special.antt =====
-- Vmas that are inserted, special mappings and the end of an address space at concrete inputs.
use vd2024_so2_private_code.Base.{◌≡◌, refl, [], ◌∷◌, none, some, true, false, arith, ◌==◌}
use vd2024_so2_private_code.Mm.Types.{Vma}
use vd2024_so2_private_code.Mm.Space.{Space}
use vd2024_so2_private_code.Mm.Insert.{InsertEnv, place_vma, insert_vm_struct}
use vd2024_so2_private_code.Mm.Insert.Answer.{Inserts, insert_vm_struct-Inserts}
use vd2024_so2_private_code.Mm.Special.{
  SpecialEnv, VmSpecialMapping, special, legacy, special_mapping_fault, install_mapping,
}
use vd2024_so2_private_code.Mm.Special.Answer.{
  Installs, at_index, install_mapping-Installs, special_mapping_fault_lem,
}
use vd2024_so2_private_code.Mm.Exit.{ExitEnv, exit_mmap}
use vd2024_so2_private_code.Mm.Exit.Answer.{ended, exit_mmap-ended}
use vd2024_so2_private_code.Mm.Tests.{kinds}
use vd2024_so2_private_code.Mm.Tests.Spaces.{
  list_tree, list_tree-IsMapleTree, process, process-IsAccounted,
}

abbrev insert_env : InsertEnv
insert_env = record {
  tree = list_tree;
  vma_iter_prealloc = λ vs v. false;
  security_vm_enough_memory_mm = λ n c. false;
}

-- Two accounted pages between those of the process, before and after they are placed.
abbrev new_vma : Vma
new_vma = record {
  vm_start = 0x16000;
  vm_end = 0x18000;
  vm_pgoff = 0;
  vm_flags = 0x100073;
  vm_page_prot = 3;
  vm_file = none;
  vm_ops = none;
  anon_vma = none;
  anon_vma_chain = [];
  vm_policy = none;
  vm_userfaultfd_ctx = none;
  anon_name = none;
}

abbrev placed_vma : Vma
placed_vma = record new_vma { vm_pgoff = 0x16 }

new_vma-placed_vma : place_vma new_vma ≡ some placed_vma
unfolding place_vma
new_vma-placed_vma = refl

insert_vm_struct-Inserts_example :
    Inserts placed_vma process (insert_vm_struct insert_env new_vma process)
insert_vm_struct-Inserts_example =
    insert_vm_struct-Inserts insert_env list_tree-IsMapleTree new_vma placed_vma new_vma-placed_vma
      (omega arith, omega arith, refl, refl) process process-IsAccounted (omega arith)

abbrev special_env : SpecialEnv
special_env = record {
  insert = insert_env;
  kinds = kinds;
  vm_area_alloc = λ vs. true;
  vm_get_page_prot = λ f. 1;
}

abbrev vdso : VmSpecialMapping
vdso = record { identity = 7; pages = 101 ∷ 102 ∷ []; fault = none; mremap = none }

install_mapping-Installs_example :
    Installs special_env 0x30000 0x2000 0x2055
      (special vdso)
      process
      (install_mapping special_env 0x30000 0x2000 0x2055 (special vdso) process)
install_mapping-Installs_example =
    install_mapping-Installs special_env list_tree-IsMapleTree 0x30000 0x2000 refl refl
      (omega arith) (omega arith) 0x2055 (special vdso) process process-IsAccounted (omega arith)

special_mapping_fault_lem_example :
    (special_mapping_fault (legacy 8 (103 ∷ [])) 1 ≡ some (at_index (103 ∷ []) 1))
    × (vdso.fault ≡ none → special_mapping_fault (special vdso) 1 ≡ some (at_index vdso.pages 1))
special_mapping_fault_lem_example = special_mapping_fault_lem vdso 8 (103 ∷ []) 1

-- The copy of an address space that ran out of memory at its second vma.
abbrev exit_env : ExitEnv
exit_env = record { xa_is_zero = λ v. v.vm_start == 0x20000 }

abbrev half_copied : Space
half_copied = record process { mm = record process.mm { map_count = 1 } }

exit_mmap-ended_example : exit_mmap exit_env half_copied ≡ some (tt, ended exit_env half_copied)
exit_mmap-ended_example =
    exit_mmap-ended exit_env half_copied refl refl (omega arith) (omega arith) (omega arith)
