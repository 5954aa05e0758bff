-- ===== src/Mm/Tests/Expand.antt =====
-- A vma that grows over the one after it, at concrete inputs.
use vd2024_so2_private_code.Base.{refl, sym, inl, inr, [], ◌∷◌, none, some, false, arith, pos}
use vd2024_so2_private_code.Mm.Types.{Vma}
use vd2024_so2_private_code.Mm.Space.{Space}
use vd2024_so2_private_code.Mm.Expand.{ExpandEnv, vma_expand}
use vd2024_so2_private_code.Mm.Expand.Answer.{IsExpandEnv, Expands, vma_expand-Expands}
use vd2024_so2_private_code.Mm.Tests.Spaces.{list_tree, list_tree-IsMapleTree, process, heap_vma}

abbrev expand_env : ExpandEnv
expand_env = record {
  tree = list_tree;
  vma_iter_prealloc = λ vs v. false;
  anon_vma_clone = λ dst src. (pos 0, record dst { anon_vma_chain = 9 ∷ [] });
  unlink_anon_vmas = λ v. record v { anon_vma = none; anon_vma_chain = [] };
}

expand_env-IsExpandEnv : IsExpandEnv expand_env
expand_env-IsExpandEnv = record {
  tree = list_tree-IsMapleTree;
  clone = λ dst src fresh empty. inr (
    refl,
    (9 ∷ [], refl),
    λ i. record dst { anon_vma = sym fresh i; anon_vma_chain = sym empty i },
  );
}

-- Four pages without an anon_vma, two pages with one, and a hole of a page between them.
abbrev fresh_vma : Vma
fresh_vma = record heap_vma { anon_vma = none; anon_vma_chain = [] }

abbrev next_vma : Vma
next_vma = record heap_vma { vm_start = 0x15000; vm_end = 0x17000; vm_pgoff = 0x15 }

abbrev two_vmas : Space
two_vmas = record process { vmas = fresh_vma ∷ next_vma ∷ [] }

abbrev whole_vma : Vma
whole_vma = record fresh_vma { vm_end = 0x17000 }

vma_expand-Expands_example :
    Expands whole_vma two_vmas
      (vma_expand expand_env fresh_vma 0x10000 0x17000 0x10 (some next_vma) two_vmas)
vma_expand-Expands_example =
    vma_expand-Expands expand_env expand_env-IsExpandEnv fresh_vma 0x10000 0x17000 0x10
      (omega arith, omega arith, refl, refl) two_vmas
      (
        omega arith,
        (omega arith, omega arith, refl, refl),
        (omega arith, (omega arith, omega arith, refl, refl), tt),
      )
      refl (omega arith) (inl refl)
      (inr (omega arith, omega arith), (inr (omega arith, omega arith), tt)) (some next_vma)
      (inr (refl, omega arith, refl)) (λ h. refl)
