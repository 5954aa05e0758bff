-- ===== src/Mm/Vmas.antt =====
-- The maple tree of vmas while mm/mmap.c changes it: the operations of lib/maple_tree.c on it, what
-- their documentation says of them, and what a process sees of its vmas, which is a page at an
-- address.
pub mod Order
pub mod Member
pub mod Pages
pub mod Empty
pub mod Store
pub mod From
pub mod Accounted
use vd2024_so2_private_code.Base.{
  ℕ, ◌+◌, ◌-◌, ◌/◌, ◌%◌, ◌^◌, ◌≤◌, ◌<◌, ◌≡◌, ◌⊎◌, List, [], ◌∷◌, Option, none, some, Bool, true,
  false, ◌&&◌, ltb, leb, ◌==◌, if◌then◌else◌, add64, shr_page, bit_and,
}
use vd2024_so2_private_code.Mm.Types.{Vma, complement, vm_softdirty}

-- All vmas of a list, one of them, and a sum over them.
abbrev pub All : (Vma → Type 0) → List Vma → Type 0
All P [] = Unit {0}
All P (v ∷ vs) = P v × All P vs

abbrev pub Mem : Vma → List Vma → Type 0
Mem v [] = ⊥
Mem v (w ∷ ws) = (v ≡ w) ⊎ Mem v ws

abbrev pub total : (Vma → ℕ) → List Vma → ℕ
total f [] = 0
total f (v ∷ vs) = f v + total f vs

-- A vma has whole pages, and at least one.
abbrev pub IsVma : Vma → Type 0
IsVma v =
    (v.vm_start < v.vm_end) × (v.vm_end < 2 ^ 64) × (v.vm_start % 4096 ≡ 0) × (v.vm_end % 4096 ≡ 0)

-- Vmas in order and apart from each other, from `low` on.
abbrev pub IsOrdered : ℕ → List Vma → Type 0
IsOrdered low [] = Unit {0}
IsOrdered low (v ∷ vs) = (low ≤ v.vm_start) × IsVma v × IsOrdered v.vm_end vs

-- Outside of [start, end), or in it.
abbrev pub IsApart : ℕ → ℕ → Vma → Type 0
IsApart start end w = (w.vm_end ≤ start) ⊎ (end ≤ w.vm_start)

abbrev pub IsWithin : ℕ → ℕ → Vma → Type 0
IsWithin start end w = (start ≤ w.vm_start) × (w.vm_end ≤ end)

-- No part on both sides of `addr`.
abbrev pub IsCut : ℕ → Vma → Type 0
IsCut addr w = (w.vm_end ≤ addr) ⊎ (addr ≤ w.vm_start)

abbrev pub holds : Vma → ℕ → Bool
holds v addr = leb v.vm_start addr && ltb addr v.vm_end

-- The vma at an address.
abbrev pub at : List Vma → ℕ → Option Vma
at [] addr = none
at (v ∷ vs) addr = if holds v addr then some v else at vs addr

-- What a process has at an address: a page of a file or of memory of its own, with what it may do
-- there. VM_SOFTDIRTY only records that there was a change, and is left out.
pub record Page : Type 0 where
  pub pgoff : ℕ
  pub flags : ℕ
  pub file : Option ℕ
  pub policy : Option ℕ

abbrev pub page_of : Vma → ℕ → Page
page_of v addr = record {
  pgoff = add64 v.vm_pgoff (shr_page (addr - v.vm_start));
  flags = bit_and v.vm_flags (complement vm_softdirty);
  file = v.vm_file;
  policy = v.vm_policy;
}

abbrev page_in : Option Vma → ℕ → Option Page
page_in none addr = none
page_in (some v) addr = some (page_of v addr)

abbrev pub page : List Vma → ℕ → Option Page
page vs addr = page_in (at vs addr) addr

-- `without start end vs` has no vma that begins in [start, end), `within` those, and `insert` puts
-- a vma in its place.
abbrev pub begins : ℕ → ℕ → Vma → Bool
begins start end w = leb start w.vm_start && ltb w.vm_start end

abbrev pub without : ℕ → ℕ → List Vma → List Vma
without start end [] = []
without start end (w ∷ ws) =
    let rest = without start end ws in if begins start end w then rest else w ∷ rest

abbrev pub insert : Vma → List Vma → List Vma
insert v [] = v ∷ []
insert v (w ∷ ws) =
    let rest = insert v ws in if leb v.vm_end w.vm_start then v ∷ w ∷ ws else w ∷ rest

-- `f` on the vmas that begin in [start, end).
abbrev pub begun : ℕ → ℕ → (Vma → ℕ) → Vma → ℕ
begun start end f w = if begins start end w then f w else 0

-- The vmas from an address on.
abbrev pub from : ℕ → List Vma → List Vma
from addr [] = []
from addr (w ∷ ws) = let rest = from addr ws in if ltb w.vm_start addr then rest else w ∷ ws

-- The operations of the maple tree: a vma is stored over its range, a range is cleared, and the
-- first vma that ends above `start` is found, if it begins below `end`.
pub record MapleTree : Type 0 where
  pub vma_iter_store : Vma → List Vma → List Vma
  pub vma_iter_clear : ℕ → ℕ → List Vma → List Vma
  pub vma_find : ℕ → ℕ → List Vma → Option Vma
  pub vma_prev : ℕ → List Vma → Option Vma

-- What is relied on, of vmas in order of which none is only partly in the range.
pub record IsMapleTree (t : MapleTree) : Type 0 where
  pub store :
      (v : Vma) (vs : List Vma)
      → IsOrdered 0 vs
      → All (λ w. IsApart v.vm_start v.vm_end w ⊎ IsWithin v.vm_start v.vm_end w) vs
      → t.vma_iter_store v vs ≡ insert v (without v.vm_start v.vm_end vs)
  pub clear :
      (start end : ℕ) (vs : List Vma)
      → IsOrdered 0 vs
      → All (λ w. IsApart start end w ⊎ IsWithin start end w) vs
      → t.vma_iter_clear start end vs ≡ without start end vs
  pub find :
      (start end : ℕ) (vs : List Vma) (v : Vma)
      → IsOrdered 0 vs
      → t.vma_find start end vs ≡ some v
      → Mem v vs
        × (start < v.vm_end)
        × (v.vm_start < end)
        × All (λ w. (w.vm_end ≤ start) ⊎ (v.vm_start ≤ w.vm_start)) vs
  pub find_none :
      (start end : ℕ) (vs : List Vma)
      → IsOrdered 0 vs
      → t.vma_find start end vs ≡ none
      → All (IsApart start end) vs
  pub prev :
      (addr : ℕ) (vs : List Vma) (v : Vma)
      → IsOrdered 0 vs
      → t.vma_prev addr vs ≡ some v
      → Mem v vs × (v.vm_start < addr)

-- The fields of the vma `old` are written.
unfoldable pub set_vma : Vma → Vma → List Vma → List Vma
set_vma old v [] = []
set_vma old v (w ∷ ws) =
    let rest = set_vma old v ws in if w.vm_start == old.vm_start then v ∷ ws else w ∷ rest
