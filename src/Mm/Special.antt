-- ===== src/Mm/Special.antt =====
-- mm/mmap.c, the special mappings: pages of the kernel, such as those of the vDSO, that a process
-- sees.
pub mod Answer
use vd2024_so2_private_code.Base.{
  ℕ, zero, suc, ◌+◌, ◌-◌, ◌/◌, ◌^◌, ◌%◌, List, [], ◌∷◌, Option, none, some, Bool, true, false, ◌&&◌,
  ◌||◌, not, ◌==◌, if◌then◌else◌, ℤ, pos, neg, ◌==ℤ◌, add64, shr_page, bit_and, bit_or, enomem,
  einval, efault,
}
use vd2024_so2_private_code.Mm.Types.{
  Vma, VmOps, MmStruct, complement, vm_softdirty, vm_dontexpand, vm_locked,
}
use vd2024_so2_private_code.Mm.Accounting.{MappingKinds, vm_stat_account}
use vd2024_so2_private_code.Mm.Space.{Space}
use vd2024_so2_private_code.Mm.Insert.{InsertEnv, insert_vm_struct}

-- What a fault gives: a page, or a signal, or the code of the mapping's own function.
pub data FaultAnswer : Type 0 where
  found_page : ℕ → FaultAnswer
  sigbus : FaultAnswer
  own_answer : ℕ → FaultAnswer

-- `struct vm_special_mapping`, by its identity, with its functions and its pages, an array that ends
-- with NULL.
pub record VmSpecialMapping : Type 0 where
  pub identity : ℕ
  pub pages : List ℕ
  pub fault : Option (ℕ → ℕ)
  pub mremap : Option (Vma → ℤ)

-- `vm_ops` with `vm_private_data`: a special mapping, the array of a legacy one, or another kind of
-- vma with whatever it has there.
pub data Private : Type 0 where
  special : VmSpecialMapping → Private
  legacy : ℕ → List ℕ → Private
  other_ops : ℕ → Private

-- VM_LOCKED_MASK is VM_LOCKED | VM_LOCKONFAULT.
abbrev pub vm_locked_mask : ℕ
vm_locked_mask = 0x82000

pub special_mapping_split : Vma → ℕ → ℤ
special_mapping_split vma addr = neg einval

pub special_mapping_mremap : Bool → VmSpecialMapping → Vma → ℤ
special_mapping_mremap same_mm sm new_vma =
    if not same_mm
    then neg efault
    else elim sm.mremap [ none ↦ pos 0 | some mremap ↦ mremap new_vma ]

-- `for (pgoff = vmf->pgoff; pgoff && *pages; ++pages) pgoff--;`
pub skip_pages : ℕ → List ℕ → List ℕ
skip_pages zero pages = pages
skip_pages (suc pgoff) [] = []
skip_pages (suc pgoff) (page ∷ pages) = skip_pages pgoff pages

pub give_page : List ℕ → FaultAnswer
give_page [] = sigbus
give_page (page ∷ pages) = found_page page

-- The function belongs to the two kinds of special mapping only.
pub special_mapping_fault : Private → ℕ → Option FaultAnswer
unfolding skip_pages give_page
special_mapping_fault (legacy identity pages) pgoff = some (give_page (skip_pages pgoff pages))
special_mapping_fault (special sm) pgoff = elim sm.fault [
  | some fault ↦ some (own_answer (fault pgoff))
  | none ↦ some (give_page (skip_pages pgoff sm.pages))
]
special_mapping_fault (other_ops data_of) pgoff = none

-- `vm_private_data` is compared by its address.
pub vma_is_special_mapping : Private → VmSpecialMapping → Bool
vma_is_special_mapping (special sm') sm = sm'.identity == sm.identity
vma_is_special_mapping (legacy identity pages) sm = identity == sm.identity
vma_is_special_mapping (other_ops data_of) sm = false

pub record SpecialEnv : Type 0 where
  pub insert : InsertEnv
  pub kinds : MappingKinds
  pub vm_area_alloc : List Vma → Bool
  pub vm_get_page_prot : ℕ → ℕ

module _ (e : SpecialEnv) where
  pub special_flags : MmStruct → ℕ → ℕ
  special_flags mm vm_flags =
      bit_and (bit_or (bit_or vm_flags mm.def_flags) (bit_or vm_dontexpand vm_softdirty))
        (complement vm_locked_mask)

  -- Both tables of operations have a `close`.
  pub special_vma : MmStruct → ℕ → ℕ → ℕ → Vma
  unfolding special_flags
  special_vma mm addr len vm_flags =
      let flags = special_flags mm vm_flags in
      record {
        vm_start = addr;
        vm_end = add64 addr len;
        vm_pgoff = 0;
        vm_flags = flags;
        vm_page_prot = e.vm_get_page_prot flags;
        vm_file = none;
        vm_ops =
            some (record { has_close = true; has_page_mkwrite = false; has_pfn_mkwrite = false });
        anon_vma = none;
        anon_vma_chain = [];
        vm_policy = none;
        vm_userfaultfd_ctx = none;
        anon_name = none;
      }

  -- The rest of __install_special_mapping, on what the insertion answered.
  pub account_special : Vma → ℕ → Private → ℤ × Space → ℤ × Option (Vma × Private) × Space
  account_special vma len priv (r, s) =
      if r ==ℤ pos 0
      then (
        pos 0,
        some (vma, priv),
        record s { mm = vm_stat_account e.kinds s.mm vma.vm_flags (shr_page len) },
      )
      else (r, none, s)

  -- __install_special_mapping: the error or the vma with its private data, and the address space.
  pub install_mapping : ℕ → ℕ → ℕ → Private → Space → Option (ℤ × Option (Vma × Private) × Space)
  unfolding special_vma account_special
  install_mapping addr len vm_flags priv s =
      let vma = special_vma s.mm addr len vm_flags in
      if not (e.vm_area_alloc s.vmas)
      then some (neg enomem, none, s)
      else elim (insert_vm_struct e.insert vma s) [
        | none ↦ none
        | some result ↦ some (account_special vma len priv result)
      ]

  -- _install_special_mapping
  pub install_special :
      ℕ → ℕ → ℕ → VmSpecialMapping → Space → Option (ℤ × Option (Vma × Private) × Space)
  unfolding install_mapping
  install_special addr len vm_flags spec s = install_mapping addr len vm_flags (special spec) s

  pub install_special_mapping : ℕ → ℕ → ℕ → ℕ → List ℕ → Space → Option (ℤ × Space)
  unfolding install_mapping
  install_special_mapping addr len vm_flags identity pages s =
      elim (install_mapping addr len vm_flags (legacy identity pages) s) [
        | none ↦ none
        | some (r, vma, s') ↦ some (r, s')
      ]
