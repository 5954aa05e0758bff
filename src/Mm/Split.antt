-- ===== src/Mm/Split.antt =====
-- mm/mmap.c, __split_vma and split_vma, with the helpers that prepare and complete a change to a
-- vma (init_multi_vma_prep, init_vma_prep, vma_complete), as far as they are about the vmas: the
-- locks and the reverse maps of files and of anonymous memory are left out.
pub mod Pieces
pub mod Frame
pub mod Answer
use vd2024_so2_private_code.Base.{
  ℕ, ◌+◌, ◌-◌, ◌/◌, ◌^◌, ◌%◌, ◌*◌, List, Option, none, some, Bool, true, false, not, ◌&&◌, ltb, leb,
  if◌then◌else◌, is_some, ℤ, pos, neg, ◌==ℤ◌, add64, sub64, shr_page, enomem, [],
}
use vd2024_so2_private_code.Mm.Types.{Vma, VmOps, MmStruct}
use vd2024_so2_private_code.Mm.Space.{Space}
use vd2024_so2_private_code.Mm.Vmas.{MapleTree, set_vma}

-- What a split takes from the rest of the kernel: the operation of a driver, whether memory is given
-- for a vma and for the nodes of the tree, and the copies of a policy and of the chain of anon_vmas.
-- A copy of a policy says the same as the policy, and the two are not told apart.
pub record SplitEnv : Type 0 where
  pub tree : MapleTree
  pub may_split : VmOps → Option (Vma → ℕ → ℤ)
  pub vm_area_dup : List Vma → Vma → Bool
  pub vma_iter_prealloc : List Vma → Vma → Bool
  pub vma_dup_policy : Vma → ℤ
  pub anon_vma_clone : Vma → Vma → ℤ × List ℕ
  pub sysctl_max_map_count : ℕ

-- `struct vma_prepare`
pub record VmaPrepare : Type 0 where
  pub vma : Vma
  pub adj_next : Option Vma
  pub file : Option ℕ
  pub anon_vma : Option ℕ
  pub insert : Option Vma
  pub remove : Option Vma
  pub remove2 : Option Vma

anon_vma_of : Option Vma → Option ℕ
anon_vma_of none = none
anon_vma_of (some v) = v.anon_vma

unfoldable pub init_multi_vma_prep : Vma → Option Vma → Option Vma → Option Vma → VmaPrepare
unfolding anon_vma_of
init_multi_vma_prep vma next remove remove2 = record {
  vma = vma;
  adj_next = next;
  file = vma.vm_file;
  anon_vma = if is_some vma.anon_vma then vma.anon_vma else anon_vma_of next;
  insert = none;
  remove = remove;
  remove2 = remove2;
}

unfoldable pub init_vma_prep : Vma → VmaPrepare
unfolding init_multi_vma_prep
init_vma_prep vma = init_multi_vma_prep vma none none none

unfoldable pub count_vma : Space → Space
count_vma s = record s { mm = record s.mm { map_count = add64 s.mm.map_count 1 } }

unfoldable pub uncount_vma : Option Vma → Space → Space
uncount_vma none s = s
uncount_vma (some removed) s = record s { mm = record s.mm { map_count = sub64 s.mm.map_count 1 } }

module _ (t : MapleTree) where
  unfoldable pub store_inserted : Option Vma → Space → Space
  unfolding count_vma
  store_inserted none s = s
  store_inserted (some v) s = count_vma (record s { vmas = t.vma_iter_store v s.vmas })

  -- The second vma is looked at only where there is a first.
  unfoldable pub vma_complete : VmaPrepare → Space → Space
  unfolding store_inserted uncount_vma
  vma_complete vp s =
      let stored = if is_some vp.remove && is_some vp.file then s else store_inserted vp.insert s in
      if is_some vp.remove then uncount_vma vp.remove2 (uncount_vma vp.remove stored) else stored

-- The new vma and what is left of the old one.
pub split_pieces : Vma → List ℕ → ℕ → Bool → Vma × Vma
split_pieces vma chain addr new_below =
    let offset = add64 vma.vm_pgoff (shr_page (sub64 addr vma.vm_start)) in
    let copy = record vma { anon_vma_chain = chain } in
    if new_below
    then (record copy { vm_end = addr }, record vma { vm_start = addr; vm_pgoff = offset })
    else (record copy { vm_start = addr; vm_pgoff = offset }, record vma { vm_end = addr })

module _ (e : SplitEnv) where
  -- `vma->vm_ops && vma->vm_ops->may_split`, and its answer.
  pub ask_may_split : Vma → ℕ → Option VmOps → ℤ
  ask_may_split vma addr none = pos 0
  ask_may_split vma addr (some ops) = elim (e.may_split ops) [
    | none ↦ pos 0
    | some may_split ↦ may_split vma addr
  ]

  -- The result is the error, the vma as it is afterwards, and the address space.
  pub finish_split : Vma → ℕ → Bool → List ℕ → Space → ℤ × Vma × Space
  unfolding init_vma_prep init_multi_vma_prep vma_complete split_pieces set_vma
  finish_split vma addr new_below chain s =
      let (new, rest) = split_pieces vma chain addr new_below in
      let vp = record (init_vma_prep vma) { insert = some new } in
      (pos 0, rest, vma_complete e.tree vp (record s { vmas = set_vma vma rest s.vmas }))

  -- The copy has the chain of no anon_vma until it is cloned.
  pub clone_and_split : Vma → ℕ → Bool → Space → ℤ × Vma × Space
  unfolding split_pieces finish_split
  clone_and_split vma addr new_below s =
      let new = (split_pieces vma [] addr new_below).0 in
      if e.vma_iter_prealloc s.vmas new
      then (neg enomem, vma, s)
      else (if not (e.vma_dup_policy vma ==ℤ pos 0)
          then (e.vma_dup_policy vma, vma, s)
          else (let (error, chain) = e.anon_vma_clone new vma in
              if not (error ==ℤ pos 0)
              then (error, vma, s)
              else finish_split vma addr new_below chain s))

  -- __split_vma
  pub split_vma_unchecked : Vma → ℕ → Bool → Space → ℤ × Vma × Space
  unfolding ask_may_split clone_and_split
  split_vma_unchecked vma addr new_below s =
      if not (ask_may_split vma addr vma.vm_ops ==ℤ pos 0)
      then (ask_may_split vma addr vma.vm_ops, vma, s)
      else (if not (e.vm_area_dup s.vmas vma)
          then (neg enomem, vma, s)
          else clone_and_split vma addr new_below s)

  pub split_vma : Vma → ℕ → Bool → Space → ℤ × Vma × Space
  unfolding split_vma_unchecked
  split_vma vma addr new_below s =
      if leb e.sysctl_max_map_count s.mm.map_count
      then (neg enomem, vma, s)
      else split_vma_unchecked vma addr new_below s
