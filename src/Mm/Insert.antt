-- ===== src/Mm/Insert.antt =====
-- mm/mmap.c, vma_link and insert_vm_struct: a vma that is ready is put among the others. The reverse
-- map of its file is left out.
pub mod Answer
use vd2024_so2_private_code.Base.{
  ℕ, ◌+◌, ◌/◌, ◌^◌, ◌%◌, List, Option, none, some, Bool, true, false, ◌&&◌, if◌then◌else◌, is_some,
  ℤ, pos, neg, ◌==ℤ◌, add64, shr_page, enomem,
}
use vd2024_so2_private_code.Mm.Types.{Vma, MmStruct, has, vm_account}
use vd2024_so2_private_code.Mm.Merge.{vma_pages}
use vd2024_so2_private_code.Mm.Space.{Space}
use vd2024_so2_private_code.Mm.Vmas.{MapleTree}
use vd2024_so2_private_code.Mm.Split.{count_vma}
use vd2024_so2_private_code.Mm.Unmap.{vm_unacct_memory}

-- The tree, whether there is no memory for its nodes, and the overcommit accounting, which charges
-- the pages that it does not refuse.
pub record InsertEnv : Type 0 where
  pub tree : MapleTree
  pub vma_iter_prealloc : List Vma → Vma → Bool
  pub security_vm_enough_memory_mm : ℕ → ℕ → Bool

-- `if (vma->vm_flags & VM_ACCOUNT)` around a charge and its opposite.
pub charge : Vma → Space → Space
charge vma s = record s {
  committed =
      if has vma.vm_flags vm_account then add64 s.committed (vma_pages vma) else s.committed;
}

pub uncharge : Vma → Space → Space
uncharge vma s = if has vma.vm_flags vm_account then vm_unacct_memory (vma_pages vma) s else s

pub finish_insert : Vma → ℤ × Space → ℤ × Space
finish_insert vma (r, s) = if r ==ℤ pos 0 then (pos 0, s) else (neg enomem, uncharge vma s)

-- vma_is_anonymous(vma): the BUG_ON is a fault.
unfoldable pub place_vma : Vma → Option Vma
place_vma vma = elim vma.vm_ops [
  | some ops ↦ some vma
  | none ↦
      if is_some vma.anon_vma then none else some (record vma { vm_pgoff = shr_page vma.vm_start })
]

module _ (e : InsertEnv) where
  pub vma_link : Vma → Space → ℤ × Space
  vma_link vma s =
      if e.vma_iter_prealloc s.vmas vma
      then (neg enomem, s)
      else (pos 0, count_vma (record s { vmas = e.tree.vma_iter_store vma s.vmas }))

  pub insert_charged : Vma → Space → Option (ℤ × Space)
  insert_charged vma s = elim (place_vma vma) [
    | none ↦ none
    | some placed ↦ some (finish_insert placed (vma_link placed s))
  ]

  pub insert_vm_struct : Vma → Space → Option (ℤ × Space)
  insert_vm_struct vma s =
      if is_some (e.tree.vma_find vma.vm_start vma.vm_end s.vmas)
      then some (neg enomem, s)
      else (if has vma.vm_flags vm_account
            && e.security_vm_enough_memory_mm (vma_pages vma) s.committed
          then some (neg enomem, s)
          else insert_charged vma (charge vma s))
