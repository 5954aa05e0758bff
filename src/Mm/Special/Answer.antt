-- ===== src/Mm/Special/Answer.antt =====
-- The special mappings: what their installation does, on success and on an error, and which page a
-- fault gives.
use vd2024_so2_private_code.Base.{
  ℕ, zero, suc, ◌+◌, ◌-◌, ◌%◌, ◌^◌, ◌<◌, ◌≡◌, ◌⊎◌, inl, inr, refl, ◌∙◌, ap, sym, List, [], ◌∷◌,
  Option, none, some, true, false, ◌&&◌, ltb, leb, if◌then◌else◌, arith, add64, shr_page, bit_and,
  bit_or, ℤ, pos, neg, Bool-cases, enomem, get_elem?,
}
use vd2024_so2_private_code.Base.Bits.{and_clear}
use vd2024_so2_private_code.Mm.Types.{
  Vma, MmStruct, has, complement, vm_softdirty, vm_dontexpand, vm_locked, vm_account,
}
use vd2024_so2_private_code.Mm.Merge.{vma_pages}
use vd2024_so2_private_code.Mm.Accounting.{vm_stat_account}
use vd2024_so2_private_code.Mm.Accounting.Counters.{vm_stat_account-total, vm_stat_account_keeps}
use vd2024_so2_private_code.Mm.Space.{Space}
use vd2024_so2_private_code.Mm.Vmas.{IsVma, IsMapleTree, holds, Page, page, page_of}
use vd2024_so2_private_code.Mm.Vmas.Accounted.{IsAccounted, one, locked_pages, total-pages-le}
use vd2024_so2_private_code.Mm.Heap.Grow.{IsMapped}
use vd2024_so2_private_code.Mm.Insert.{place_vma, insert_vm_struct}
use vd2024_so2_private_code.Mm.Insert.Answer.{
  place_vma_with_ops, IsInserted, Inserts, insert_vm_struct-Inserts,
}
use vd2024_so2_private_code.Mm.Special.{
  FaultAnswer, found_page, sigbus, Private, special, legacy, VmSpecialMapping, skip_pages,
  give_page, special_mapping_fault, SpecialEnv, special_flags, special_vma, account_special,
  install_mapping, vm_locked_mask,
}

-- The page of an array, or a signal past its end.
abbrev pub at_index : List ℕ → ℕ → FaultAnswer
at_index pages pgoff = elim (get_elem? pages pgoff) [ none ↦ sigbus | some page ↦ found_page page ]

skip_pages-at :
    (pages : List ℕ) (pgoff : ℕ) → give_page (skip_pages pgoff pages) ≡ at_index pages pgoff
unfolding skip_pages give_page
skip_pages-at [] zero = refl
skip_pages-at [] (suc pgoff) = refl
skip_pages-at (page ∷ pages) zero = refl
skip_pages-at (page ∷ pages) (suc pgoff) = skip_pages-at pages pgoff

-- A page that a process sees of a special mapping.
abbrev pub special_page : ℕ → ℕ → ℕ → Page
special_page addr flags a = record {
  pgoff = shr_page (a - addr);
  flags = bit_and flags (complement vm_softdirty);
  file = none;
  policy = none;
}

-- The vma is among the others and its pages counted and, with VM_ACCOUNT, charged.
abbrev pub Installs :
    SpecialEnv → ℕ → ℕ → ℕ → Private → Space → Option (ℤ × Option (Vma × Private) × Space) → Type 0
Installs e addr len flags priv s none = ⊥
Installs e addr len flags priv s (some (r, vma, s')) =
    ((r ≡ neg enomem) × (vma ≡ none) × (s' ≡ s))
    ⊎ ((r ≡ pos 0)
        × (vma ≡ some (special_vma e s.mm addr len flags, priv))
        × IsMapped addr (addr + len) (special_page addr (special_flags e s.mm flags)) s s'
        × (s'.committed ≡ (
            if has (special_flags e s.mm flags) vm_account
            then add64 s.committed (shr_page len)
            else s.committed)))

module _ (e : SpecialEnv) (laws : IsMapleTree e.insert.tree) (addr len : ℕ) (low : addr % 4096 ≡ 0)
    (whole : len % 4096 ≡ 0) (some_pages : 0 < len) (high : addr + len < 2 ^ 64) where
  special_flags_unlocked :
      (mm : MmStruct) (flags : ℕ) → has (special_flags e mm flags) vm_locked ≡ false
  unfolding special_flags
  special_flags_unlocked mm flags =
      let clear =
        and_clear (bit_or (bit_or flags mm.def_flags) (bit_or vm_dontexpand vm_softdirty))
          (complement vm_locked_mask) vm_locked refl in
      rw clear refl

  placed_lem :
      (mm : MmStruct) (flags : ℕ)
      → place_vma (special_vma e mm addr len flags) ≡ some (special_vma e mm addr len flags)
  unfolding special_vma
  placed_lem mm flags = place_vma_with_ops (special_vma e mm addr len flags) _ refl

  special_vma-IsVma : (mm : MmStruct) (flags : ℕ) → IsVma (special_vma e mm addr len flags)
  unfolding special_vma
  special_vma-IsVma mm flags = (omega arith, omega arith, low, omega arith)

  special_vma-page :
      (mm : MmStruct) (flags a : ℕ)
      → (holds (special_vma e mm addr len flags) a ≡ (leb addr a && ltb a (addr + len)))
        × ((leb addr a && ltb a (addr + len)) ≡ true
            → page_of (special_vma e mm addr len flags) a
              ≡ special_page addr (special_flags e mm flags) a)
  unfolding special_vma
  special_vma-page mm flags a =
      let top : add64 addr len ≡ addr + len = omega arith in
      (rw top refl, λ inside. ground (arith, inside))

  special_vma-pages :
      (mm : MmStruct) (flags : ℕ) → vma_pages (special_vma e mm addr len flags) ≡ shr_page len
  unfolding special_vma
  special_vma-pages mm flags = omega arith

  special_vma-locked :
      (mm : MmStruct) (flags : ℕ) → locked_pages (special_vma e mm addr len flags) ≡ 0
  unfolding special_vma
  special_vma-locked mm flags = rw (special_flags_unlocked mm flags) refl

  -- The counters after the vma was put among the others.
  accounted-IsMapped :
      (flags : ℕ) (s t : Space)
      → IsAccounted s
      → IsInserted (special_vma e s.mm addr len flags) s t
      → IsMapped addr (addr + len) (special_page addr (special_flags e s.mm flags)) s (record t {
        mm = vm_stat_account e.kinds t.mm (special_flags e s.mm flags) (shr_page len);
      })
  accounted-IsMapped flags s t acc i =
      let mm = s.mm in
      let v = special_vma e mm addr len flags in
      let f = special_flags e mm flags in
      let bound = total-pages-le 0 t.vmas i.stored.ordered (omega arith) in
      let total = vm_stat_account-total e.kinds t.mm f (shr_page len) in
      let (locked, count, brk, def_flags) = vm_stat_account_keeps e.kinds t.mm f (shr_page len) in
      record {
        accounted = record {
          ordered = i.stored.ordered;
          count = omega (arith, count, i.count, acc.count, i.stored.sum one);
          pages = omega (
            arith,
            total,
            i.total_vm,
            acc.pages,
            i.stored.sum vma_pages,
            bound,
            special_vma-pages mm flags,
          );
          locked = omega (
            arith,
            locked,
            i.locked_vm,
            acc.locked,
            i.stored.sum locked_pages,
            special_vma-locked mm flags,
          );
        };
        page = λ a.
            let (inside, same) = special_vma-page mm flags a in
            ground (arith, i.stored.at_addr a, inside, same);
        lock = i.lock;
        kernel = i.kernel;
        brk = brk ∙ i.brk;
        def_flags = def_flags ∙ i.def_flags;
      }

  account_special-Installs :
      (flags : ℕ) (priv : Private) (s : Space)
      → IsAccounted s
      → (result : Option (ℤ × Space)) → Inserts (special_vma e s.mm addr len flags) s result
      → Installs e addr len flags priv s (elim result [
        | none ↦ none
        | some result ↦ some (account_special e (special_vma e s.mm addr len flags) len priv result)
      ])
  unfolding account_special special_vma
  account_special-Installs flags priv s acc none i = i
  account_special-Installs flags priv s acc (some (r, t)) (inl (failed, same)) =
      rw failed (inl (refl, refl, same))
  account_special-Installs flags priv s acc (some (r, t)) (inr (done, i)) = rw done (
      inr (
        refl,
        refl,
        accounted-IsMapped flags s t acc i,
        rw (sym (special_vma-pages s.mm flags)) i.committed,
      ))

  -- A special mapping is installed: the range, free before, has the vma, whose counters and, with
  -- VM_ACCOUNT, charge are right, and which is not locked; or -ENOMEM is returned, and nothing has
  -- changed.
  pub install_mapping-Installs :
      (flags : ℕ) (priv : Private) (s : Space)
      → IsAccounted s
      → s.committed < 2 ^ 64
      → Installs e addr len flags priv s (install_mapping e addr len flags priv s)
  unfolding install_mapping
  install_mapping-Installs flags priv s acc bound = elim (Bool-cases (e.vm_area_alloc s.vmas)) [
    | inr refused ↦ rw refused (inl (refl, refl, refl))
    | inl given ↦ rw given (
        account_special-Installs flags priv s acc
          (insert_vm_struct e.insert (special_vma e s.mm addr len flags) s)
          (insert_vm_struct-Inserts e.insert laws (special_vma e s.mm addr len flags)
            (special_vma e s.mm addr len flags) (placed_lem s.mm flags)
            (special_vma-IsVma s.mm flags) s acc bound))
  ]

-- A fault on a special mapping without a function of its own gives the page of its array at the
-- offset, and a signal past the end of the array; so does one on a legacy mapping. A function of its
-- own answers instead.
pub special_mapping_fault_lem :
    (sm : VmSpecialMapping) (identity : ℕ) (pages : List ℕ) (pgoff : ℕ)
    → (special_mapping_fault (legacy identity pages) pgoff ≡ some (at_index pages pgoff))
      × (sm.fault ≡ none
          → special_mapping_fault (special sm) pgoff ≡ some (at_index sm.pages pgoff))
unfolding special_mapping_fault
special_mapping_fault_lem sm identity pages pgoff = (
  ap some (skip_pages-at pages pgoff),
  λ plain. rw plain (ap some (skip_pages-at sm.pages pgoff)),
)
