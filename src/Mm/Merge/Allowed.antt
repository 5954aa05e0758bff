-- ===== src/Mm/Merge/Allowed.antt =====
-- What a vma and a mapping have in common when they may merge.
use vd2024_so2_private_code.Base.{
  ℕ, ◌≡◌, refl, ap, Option, none, some, Bool, true, false, arith, bit_and, bit_xor, add64, ==_iff,
}
use vd2024_so2_private_code.Mm.Types.{Vma, complement, vm_softdirty}
use vd2024_so2_private_code.Mm.Merge.{
  MergeEnv, Attributes, is_mergeable_vma, can_vma_merge_before, can_vma_merge_after, vma_pages,
  same_pointer,
}

pub same_pointer_lem : (a b : Option ℕ) → same_pointer a b ≡ true → a ≡ b
unfolding same_pointer
same_pointer_lem none none h = refl
same_pointer_lem none (some b) h = absurd (ground (arith, h))
same_pointer_lem (some a) none h = absurd (ground (arith, h))
same_pointer_lem (some a) (some b) h = ap (λ x. some x) ((==_iff a b).0 h)

-- The flags but VM_SOFTDIRTY, and the file.
abbrev pub IsAlike : Vma → Attributes → Type 0
IsAlike vma a =
    (bit_and (bit_xor vma.vm_flags a.vm_flags) (complement vm_softdirty) ≡ 0)
    × (vma.vm_file ≡ a.file)

module _ (e : MergeEnv) (vma : Vma) (a : Attributes) where
  is_mergeable_vma-IsAlike :
      (may_remove : Bool) → is_mergeable_vma e vma a may_remove ≡ true → IsAlike vma a
  unfolding is_mergeable_vma
  is_mergeable_vma-IsAlike may_remove h =
      let same : same_pointer vma.vm_file a.file ≡ true = ground (arith, h) in
      (ground (arith, h), same_pointer_lem vma.vm_file a.file same)

  pub can_vma_merge_after-IsAlike :
      (pgoff : ℕ)
      → can_vma_merge_after e vma a pgoff ≡ true
      → IsAlike vma a × (add64 vma.vm_pgoff (vma_pages vma) ≡ pgoff)
  unfolding can_vma_merge_after
  can_vma_merge_after-IsAlike pgoff h =
      let alike : is_mergeable_vma e vma a false ≡ true = ground (arith, h) in
      (is_mergeable_vma-IsAlike false alike, ground (arith, h))

  pub can_vma_merge_before-IsAlike :
      (pgoff : ℕ)
      → can_vma_merge_before e vma a pgoff ≡ true
      → IsAlike vma a × (vma.vm_pgoff ≡ pgoff)
  unfolding can_vma_merge_before
  can_vma_merge_before-IsAlike pgoff h =
      let alike : is_mergeable_vma e vma a true ≡ true = ground (arith, h) in
      (is_mergeable_vma-IsAlike true alike, ground (arith, h))
