-- ===== src/Mm/Tree.antt =====
-- The maple tree of an address space, which lib/maple_tree.c implements, as mm/mmap.c reads it
-- between two changes, with the guard gaps of mm.h.
use vd2024_so2_private_code.Base.{
  arith, ℕ, ◌+◌, ◌-◌, ◌≤◌, ◌<◌, ◌≡◌, ◌⊎◌, List, [], ◌∷◌, Option, none, some,
}
use vd2024_so2_private_code.Mm.Types.{Vma}

-- `mas_empty_area` and its reverse give the first and the last address of a gap of a size between
-- two limits; `mas_next` and `mas_prev` the entry after and before a gap that holds an address.
pub record VmaTree : Type 0 where
  pub entries : List Vma
  pub mas_empty_area : ℕ → ℕ → ℕ → Option ℕ
  pub mas_empty_area_rev : ℕ → ℕ → ℕ → Option ℕ
  pub mas_next : ℕ → Option Vma
  pub mas_prev : ℕ → Option Vma
  pub mas_walk : ℕ → Option Vma
  pub mt_find : ℕ → ℕ → Option Vma
  pub vm_start_gap : Vma → ℕ
  pub vm_end_gap : Vma → ℕ

-- No vma of the list meets [a, b).
abbrev pub IsFree : List Vma → ℕ → ℕ → Type 0
IsFree [] a b = Unit {0}
IsFree (v ∷ vs) a b = ((v.vm_end ≤ a) ⊎ (b ≤ v.vm_start)) × IsFree vs a b

-- What the documentation of the maple tree and of the gaps says of them.
pub record IsTree (t : VmaTree) : Type 0 where
  pub empty_area :
      (low high size i : ℕ)
      → t.mas_empty_area low high size ≡ some i
      → (low ≤ i) × (i + size ≤ high + 1) × IsFree t.entries i (i + size)
  pub empty_area_rev :
      (low high size l : ℕ)
      → t.mas_empty_area_rev low high size ≡ some l
      → (low + size ≤ l + 1) × (l ≤ high) × IsFree t.entries (l + 1 - size) (l + 1)
  pub next : (i : ℕ) (v : Vma) → t.mas_next i ≡ some v → (i < v.vm_start) × (v.vm_start < v.vm_end)
  pub prev : (i : ℕ) (v : Vma) → t.mas_prev i ≡ some v → (v.vm_end ≤ i) × (v.vm_start < v.vm_end)
  pub walk : (i : ℕ) (v : Vma) → t.mas_walk i ≡ some v → (v.vm_start ≤ i) × (i < v.vm_end)
  pub gap :
      (i b : ℕ)
      → t.mas_walk i ≡ none
      → (t.mas_next i ≡ none) ⊎ ((v : Vma) × (t.mas_next i ≡ some v) × (b ≤ v.vm_start))
      → IsFree t.entries i b
  pub start_gap : (v : Vma) → t.vm_start_gap v ≤ v.vm_start
  pub end_gap : (v : Vma) → v.vm_end ≤ t.vm_end_gap v

pub IsFree-within : (vs : List Vma) (a b c d : ℕ) → a ≤ c → d ≤ b → IsFree vs a b → IsFree vs c d
IsFree-within [] a b c d h k f = tt
IsFree-within (v ∷ vs) a b c d h k f = (omega arith, IsFree-within vs a b c d h k f.1)
