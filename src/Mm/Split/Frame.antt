-- ===== src/Mm/Split/Frame.antt =====
-- What a split never touches, whatever the vmas are.
use vd2024_so2_private_code.Base.{ℕ, ◌≡◌, refl, ◌∙◌, List, [], Bool, arith}
use vd2024_so2_private_code.Mm.Types.{Vma}
use vd2024_so2_private_code.Mm.Space.{Space}
use vd2024_so2_private_code.Mm.Split.{
  SplitEnv, init_vma_prep, init_multi_vma_prep, count_vma, store_inserted, vma_complete,
  split_pieces, finish_split, clone_and_split, split_vma_unchecked,
}

-- The lock, the limits, the break and the default flags.
abbrev pub IsFramed : Space → Space → Type 0
IsFramed s s' =
    (s'.mmap_lock ≡ s.mmap_lock)
    × (s'.kernel ≡ s.kernel)
    × (s'.mm.brk ≡ s.mm.brk)
    × (s'.mm.def_flags ≡ s.mm.def_flags)

pub IsFramed-trans : (s t u : Space) → IsFramed s t → IsFramed t u → IsFramed s u
IsFramed-trans s t u (a, b, c, d) (a', b', c', d') = (a' ∙ a, b' ∙ b, c' ∙ c, d' ∙ d)

module _ (e : SplitEnv) (vma : Vma) (addr : ℕ) (below : Bool) (s : Space) where
  finish_split-IsFramed : (chain : List ℕ) → IsFramed s (finish_split e vma addr below chain s).2
  unfolding finish_split init_vma_prep init_multi_vma_prep vma_complete store_inserted count_vma
  finish_split-IsFramed chain = (refl, refl, refl, refl)

  clone_and_split-IsFramed : IsFramed s (clone_and_split e vma addr below s).2
  unfolding clone_and_split
  clone_and_split-IsFramed =
      let new = (split_pieces vma [] addr below).0 in
      ground (arith, finish_split-IsFramed (e.anon_vma_clone new vma).1)

  pub split_vma_unchecked-IsFramed : IsFramed s (split_vma_unchecked e vma addr below s).2
  unfolding split_vma_unchecked
  split_vma_unchecked-IsFramed = ground (arith, clone_and_split-IsFramed)
