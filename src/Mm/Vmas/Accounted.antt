-- ===== src/Mm/Vmas/Accounted.antt =====
-- The counters of an address space against its vmas.
use vd2024_so2_private_code.Base.{
  ℕ, ◌+◌, ◌/◌, ◌^◌, ◌≤◌, ◌≡◌, refl, ◌∙◌, List, [], ◌∷◌, Bool, arith, if◌then◌else◌,
}
use vd2024_so2_private_code.Mm.Types.{Vma, has, vm_locked}
use vd2024_so2_private_code.Mm.Merge.{vma_pages}
use vd2024_so2_private_code.Mm.Space.{Space}
use vd2024_so2_private_code.Mm.Vmas.{total, IsOrdered, page}

abbrev pub one : Vma → ℕ
one v = 1

abbrev pub locked_pages : Vma → ℕ
locked_pages v = if has v.vm_flags vm_locked then vma_pages v else 0

-- The vmas are in order, and the counters of vmas, of pages and of locked pages are theirs.
pub record IsAccounted (s : Space) : Type 0 where
  pub ordered : IsOrdered 0 s.vmas
  pub count : s.mm.map_count ≡ total one s.vmas
  pub pages : s.mm.total_vm ≡ total vma_pages s.vmas
  pub locked : s.mm.locked_vm ≡ total locked_pages s.vmas

-- A change that a process does not see: each address has its page, and only the counters of vmas
-- may differ.
pub record Kept (s s' : Space) : Type 0 where
  pub accounted : IsAccounted s'
  pub page : (addr : ℕ) → page s'.vmas addr ≡ page s.vmas addr
  pub lock : s'.mmap_lock ≡ s.mmap_lock
  pub kernel : s'.kernel ≡ s.kernel
  pub brk : s'.mm.brk ≡ s.mm.brk
  pub committed : s'.committed ≡ s.committed
  pub def_flags : s'.mm.def_flags ≡ s.mm.def_flags

pub Kept-self : (s : Space) → IsAccounted s → Kept s s
Kept-self s h = record {
  accounted = h;
  page = λ a. refl;
  lock = refl;
  kernel = refl;
  brk = refl;
  committed = refl;
  def_flags = refl;
}

pub Kept-trans : (s t u : Space) → Kept s t → Kept t u → Kept s u
Kept-trans s t u h k = record {
  accounted = k.accounted;
  page = λ a. k.page a ∙ h.page a;
  lock = k.lock ∙ h.lock;
  kernel = k.kernel ∙ h.kernel;
  brk = k.brk ∙ h.brk;
  committed = k.committed ∙ h.committed;
  def_flags = k.def_flags ∙ h.def_flags;
}

-- The pages of vmas in order are fewer than those of the machine, and there is no vma without one.
pub total-pages-le :
    (low : ℕ) (vs : List Vma)
    → IsOrdered low vs
    → low ≤ 2 ^ 64
    → low / 4096 + total vma_pages vs ≤ 2 ^ 52
total-pages-le low [] o h = omega arith
total-pages-le low (v ∷ vs) (l, p, o) h = omega (arith, total-pages-le v.vm_end vs o (omega arith))

pub total-one-le : (low : ℕ) (vs : List Vma) → IsOrdered low vs → total one vs ≤ total vma_pages vs
total-one-le low [] o = omega arith
total-one-le low (v ∷ vs) (l, p, o) = omega (arith, total-one-le v.vm_end vs o)

pub total-locked-le : (vs : List Vma) → total locked_pages vs ≤ total vma_pages vs
total-locked-le [] = omega arith
total-locked-le (v ∷ vs) = ground (arith, total-locked-le vs)

pub IsAccounted-lock :
    (b : Bool) (s : Space) → IsAccounted s → IsAccounted (record s { mmap_lock = b })
IsAccounted-lock b s h = record {
  ordered = h.ordered;
  count = h.count;
  pages = h.pages;
  locked = h.locked;
}

pub map_count-le : (s : Space) → IsAccounted s → s.mm.map_count ≤ 2 ^ 52
map_count-le s h = omega (
  arith,
  h.count,
  total-one-le 0 s.vmas h.ordered,
  total-pages-le 0 s.vmas h.ordered (omega arith),
)

pub IsAccounted-of :
    (s s' : Space) → s'.vmas ≡ s.vmas → s'.mm ≡ s.mm → IsAccounted s → IsAccounted s'
IsAccounted-of s s' v m h = record {
  ordered = rw v h.ordered;
  count = rw (v, m) h.count;
  pages = rw (v, m) h.pages;
  locked = rw (v, m) h.locked;
}
