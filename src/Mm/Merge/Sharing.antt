-- ===== src/Mm/Merge/Sharing.antt =====
-- What the tests of mm/mmap.c on merging and on tracking writes promise.
use vd2024_so2_private_code.Base.{
  ℕ, ◌+◌, ◌-◌, ◌/◌, ◌%◌, ◌^◌, ◌≤◌, ◌<◌, ◌≡◌, ◌⊎◌, inl, inr, refl, arith, Option, none, some, true,
  false, Option-cases,
}
use vd2024_so2_private_code.Mm.Types.{Vma}
use vd2024_so2_private_code.Mm.Tree.{VmaTree}
use vd2024_so2_private_code.Mm.Merge.{
  same_pointer, list_is_singular, MergeEnv, Attributes, anon_vma_compatible, reusable_anon_vma,
  try_prev, try_next, find_mergeable_anon_vma, is_mergeable_vma, can_vma_merge_before,
  can_vma_merge_after, may_close, DirtyEnv, vm_pgprot_modify, vma_needs_dirty_tracking,
  vma_wants_writenotify,
}

same_pointer_lem : (p q : Option ℕ) → same_pointer p q ≡ true → p ≡ q
unfolding same_pointer
same_pointer_lem none none h = refl
same_pointer_lem none (some b) h = ground arith
same_pointer_lem (some a) none h = ground arith
same_pointer_lem (some a) (some b) h = ground arith

-- The page of the file that a mapping from `start` on at the offset `pgoff` shows at `x`.
abbrev pub page_at : ℕ → ℕ → ℕ → ℕ
page_at start pgoff x = pgoff + (x - start) / 4096

-- A mapping that may be merged behind a vma is of the same file, and the vma, once grown over the
-- mapping, shows at each of its addresses the page that the mapping does. The vma is of whole
-- pages, not empty, and its page offsets are words.
pub merge_after-linear :
    (e : MergeEnv) (vma : Vma) (a : Attributes) (pgoff x : ℕ)
    → vma.vm_start < vma.vm_end
    → vma.vm_end < 2 ^ 64
    → vma.vm_start % 4096 ≡ 0
    → vma.vm_end % 4096 ≡ 0
    → vma.vm_pgoff + (vma.vm_end - vma.vm_start) / 4096 < 2 ^ 64
    → vma.vm_end ≤ x
    → can_vma_merge_after e vma a pgoff ≡ true
    → (vma.vm_file ≡ a.file) × (page_at vma.vm_start vma.vm_pgoff x ≡ page_at vma.vm_end pgoff x)
unfolding can_vma_merge_after is_mergeable_vma
merge_after-linear e vma a pgoff x o w sa ea fits le h =
    ground (arith, same_pointer_lem vma.vm_file a.file)

-- A mapping from `addr` to the start of a vma that may be merged in front of it is of the same
-- file, the vma has no close operation, and the mapping, once grown over the vma, shows at each
-- of its addresses the page that the vma does.
pub merge_before-linear :
    (e : MergeEnv) (vma : Vma) (a : Attributes) (addr pgoff x : ℕ)
    → addr < vma.vm_start
    → addr % 4096 ≡ 0
    → vma.vm_start % 4096 ≡ 0
    → vma.vm_start ≤ x
    → can_vma_merge_before e vma a (pgoff + (vma.vm_start - addr) / 4096) ≡ true
    → (vma.vm_file ≡ a.file)
      × (may_close vma.vm_ops ≡ false)
      × (page_at addr pgoff x ≡ page_at vma.vm_start vma.vm_pgoff x)
unfolding can_vma_merge_before is_mergeable_vma
merge_before-linear e vma a addr pgoff x o sa ea le h =
    ground (arith, same_pointer_lem vma.vm_file a.file)

-- A neighbour whose anon_vma may be shared.
abbrev pub Shares : Vma → Vma → ℕ → Type 0
Shares vma n anon_vma =
    (n.anon_vma ≡ some anon_vma)
    × (list_is_singular n.anon_vma_chain ≡ true)
    × (n.vm_file ≡ vma.vm_file)
    × ((vma.vm_end ≡ n.vm_start) ⊎ (n.vm_end ≡ vma.vm_start))

try_next-Shares :
    (e : MergeEnv) (vma next : Vma) (anon_vma : ℕ)
    → try_next e vma (some next) ≡ some anon_vma
    → Shares vma next anon_vma
unfolding try_next reusable_anon_vma anon_vma_compatible
try_next-Shares e vma next anon_vma h = ground (arith, same_pointer_lem vma.vm_file next.vm_file)

try_prev-Shares :
    (e : MergeEnv) (vma prev : Vma) (anon_vma : ℕ)
    → try_prev e vma (some prev) ≡ some anon_vma
    → Shares vma prev anon_vma
unfolding try_prev reusable_anon_vma anon_vma_compatible
try_prev-Shares e vma prev anon_vma h = ground (arith, same_pointer_lem prev.vm_file vma.vm_file)

try_next-none : (e : MergeEnv) (vma : Vma) → try_next e vma none ≡ none
unfolding try_next
try_next-none e vma = refl

try_prev-none : (e : MergeEnv) (vma : Vma) → try_prev e vma none ≡ none
unfolding try_prev
try_prev-none e vma = refl

-- The anon_vma that find_mergeable_anon_vma gives is that of a neighbour in the tree, which touches
-- the vma, maps the same file, and has no other anon_vma on its chain.
pub find_mergeable_anon_vma-Shares :
    (e : MergeEnv) (t : VmaTree) (vma : Vma) (anon_vma : ℕ)
    → find_mergeable_anon_vma e t vma ≡ some anon_vma
    → (n : Vma) × ((t.mas_walk vma.vm_end ≡ some n) ⊎ (t.mas_prev vma.vm_start ≡ some n))
      × Shares vma n anon_vma
unfolding find_mergeable_anon_vma
find_mergeable_anon_vma-Shares e t vma anon_vma h =
    elim (Option-cases (try_next e vma (t.mas_walk vma.vm_end))) [
      | inr (found, shared) ↦ elim (Option-cases (t.mas_walk vma.vm_end)) [
        | inl last ↦ absurd (ground (arith, try_next-none e vma))
        | inr (next, at) ↦ (next, inl at, try_next-Shares e vma next anon_vma (ground arith))
      ]
      | inl unshared ↦ elim (Option-cases (t.mas_prev vma.vm_start)) [
        | inl first ↦ absurd (ground (arith, try_prev-none e vma))
        | inr (prev, at) ↦ (prev, inr at, try_prev-Shares e vma prev anon_vma (ground arith))
      ]
    ]

-- Where the page protection survives, the writes to a vma that needs its dirty pages tracked are
-- notified: vma_wants_writenotify misses none.
pub tracking-writenotify :
    (e : DirtyEnv) (vma : Vma) (prot : ℕ)
    → prot ≡ vm_pgprot_modify e prot vma.vm_flags
    → vma_needs_dirty_tracking e vma ≡ true
    → vma_wants_writenotify e vma prot ≡ true
unfolding vma_needs_dirty_tracking vma_wants_writenotify
tracking-writenotify e vma prot kept h = ground arith
