-- ===== src/Mm/Expand.antt =====
-- mm/mmap.c, dup_anon_vma and vma_expand: a vma grows, also over the one after it. Locks, reverse
-- maps and huge pages are left out.
pub mod Answer
use vd2024_so2_private_code.Base.{
  ℕ, ◌+◌, ◌^◌, ◌%◌, List, Option, none, some, Bool, true, false, ◌&&◌, not, ◌==◌, if◌then◌else◌,
  is_some, ℤ, pos, neg, ◌==ℤ◌, enomem,
}
use vd2024_so2_private_code.Mm.Types.{Vma}
use vd2024_so2_private_code.Mm.Space.{Space}
use vd2024_so2_private_code.Mm.Vmas.{MapleTree, set_vma}
use vd2024_so2_private_code.Mm.Split.{init_multi_vma_prep, vma_complete}

-- The tree, whether there is no memory for its nodes, and mm/rmap.c, which writes the vma that it
-- is given as well.
pub record ExpandEnv : Type 0 where
  pub tree : MapleTree
  pub vma_iter_prealloc : List Vma → Vma → Bool
  pub anon_vma_clone : Vma → Vma → ℤ × Vma
  pub unlink_anon_vmas : Vma → Vma

-- The answer, the destination, and whether it is set in `*dup`.
pub dup_answer : ℤ × Vma → ℤ × Vma × Bool
dup_answer (ret, dst) = (ret, dst, ret ==ℤ pos 0)

-- Vmas are told apart by where they start.
pub removes_next : Vma → ℕ → Vma → Bool
removes_next vma end next = not (vma.vm_start == next.vm_start) && end == next.vm_end

module _ (e : ExpandEnv) where
  pub dup_anon_vma : Vma → Vma → ℤ × Vma × Bool
  unfolding dup_answer
  dup_anon_vma dst src =
      if is_some src.anon_vma && not (is_some dst.anon_vma)
      then dup_answer (e.anon_vma_clone (record dst { anon_vma = src.anon_vma }) src)
      else (pos 0, dst, false)

  -- `nomem:`
  pub expand_nomem : Vma → Vma → Bool → Space → ℤ × Space
  expand_nomem vma dst anon_dup s = (
    neg enomem,
    if anon_dup then record s { vmas = set_vma vma (e.unlink_anon_vmas dst) s.vmas } else s,
  )

  -- With the vma that goes away, if any, and what dup_anon_vma made of the vma. The vma is written
  -- in the tree where it is stored.
  pub expand_over : Vma → ℕ → ℕ → ℕ → Option Vma → Vma → Bool → Space → ℤ × Space
  unfolding expand_nomem
  expand_over vma start end pgoff remove dst anon_dup s =
      if e.vma_iter_prealloc s.vmas dst
      then expand_nomem vma dst anon_dup s
      else (let v = record dst { vm_start = start; vm_end = end; vm_pgoff = pgoff } in
          (
            pos 0,
            vma_complete e.tree (init_multi_vma_prep dst none remove none)
                (record s { vmas = e.tree.vma_iter_store v s.vmas }),
          ))

  pub expand_dup : Vma → ℕ → ℕ → ℕ → Vma → ℤ × Vma × Bool → Space → ℤ × Space
  unfolding expand_over
  expand_dup vma start end pgoff next (ret, dst, anon_dup) s =
      if ret ==ℤ pos 0
      then expand_over vma start end pgoff (some next) dst anon_dup s
      else (ret, record s { vmas = set_vma vma dst s.vmas })

  pub vma_expand : Vma → ℕ → ℕ → ℕ → Option Vma → Space → ℤ × Space
  unfolding expand_over expand_dup removes_next
  vma_expand vma start end pgoff none s = expand_over vma start end pgoff none vma false s
  vma_expand vma start end pgoff (some next) s =
      if removes_next vma end next
      then expand_dup vma start end pgoff next (dup_anon_vma vma next) s
      else expand_over vma start end pgoff none vma false s
