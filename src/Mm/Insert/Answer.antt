-- ===== src/Mm/Insert/Answer.antt =====
-- insert_vm_struct: a vma is put where there was none, or nothing changes.
use vd2024_so2_private_code.Base.{
  ◌+◌, ◌^◌, ◌<◌, ◌≡◌, ◌⊎◌, inl, inr, refl, ap, Option, none, some, ◌&&◌, if◌then◌else◌, arith,
  add64, sub64, ℤ, pos, neg, Bool-cases, Option-cases, is_some, enomem,
}
use vd2024_so2_private_code.Mm.Types.{Vma, VmOps, has, vm_account}
use vd2024_so2_private_code.Mm.Merge.{vma_pages}
use vd2024_so2_private_code.Mm.Space.{Space}
use vd2024_so2_private_code.Mm.Vmas.{All, IsVma, IsApart, IsMapleTree}
use vd2024_so2_private_code.Mm.Vmas.Store.{IsStored, free-fits, free-IsStored}
use vd2024_so2_private_code.Mm.Vmas.Accounted.{IsAccounted, map_count-le}
use vd2024_so2_private_code.Mm.Split.{count_vma}
use vd2024_so2_private_code.Mm.Unmap.{vm_unacct_memory}
use vd2024_so2_private_code.Mm.Insert.{
  InsertEnv, vma_link, charge, uncharge, finish_insert, place_vma, insert_charged, insert_vm_struct,
}

-- The vma `v` is among the others, counted and, with VM_ACCOUNT, charged; the page counters are left
-- to the caller.
pub record IsInserted (v : Vma) (s s' : Space) : Type 0 where
  pub stored : IsStored v (λ f. 0) s.vmas s'.vmas
  pub count : s'.mm.map_count ≡ s.mm.map_count + 1
  pub total_vm : s'.mm.total_vm ≡ s.mm.total_vm
  pub locked_vm : s'.mm.locked_vm ≡ s.mm.locked_vm
  pub brk : s'.mm.brk ≡ s.mm.brk
  pub def_flags : s'.mm.def_flags ≡ s.mm.def_flags
  pub lock : s'.mmap_lock ≡ s.mmap_lock
  pub kernel : s'.kernel ≡ s.kernel
  pub committed :
      s'.committed
      ≡ (if has v.vm_flags vm_account then add64 s.committed (vma_pages v) else s.committed)

abbrev pub Inserts : Vma → Space → Option (ℤ × Space) → Type 0
Inserts v s none = ⊥
Inserts v s (some (r, s')) = ((r ≡ neg enomem) × (s' ≡ s)) ⊎ ((r ≡ pos 0) × IsInserted v s s')

-- Where a vma lies and its flags do not depend on whether it is anonymous.
place_vma-same :
    (vma v : Vma)
    → place_vma vma ≡ some v
    → (v.vm_start ≡ vma.vm_start) × (v.vm_end ≡ vma.vm_end) × (v.vm_flags ≡ vma.vm_flags)
unfolding place_vma
place_vma-same vma v h = elim (Option-cases vma.vm_ops) [
  | inl anonymous ↦ elim (Bool-cases (is_some vma.anon_vma)) [
    | inl shared ↦ ground (arith, anonymous, shared, h)
    | inr fresh ↦ ground (arith, anonymous, fresh, h)
  ]
  | inr (ops, has_ops) ↦ ground (arith, has_ops, h)
]

-- A vma with operations is taken as it is.
pub place_vma_with_ops :
    (vma : Vma) (ops : VmOps) → vma.vm_ops ≡ some ops → place_vma vma ≡ some vma
unfolding place_vma
place_vma_with_ops vma ops h = rw h refl

uncharge-charge :
    (vma v : Vma) (s : Space)
    → place_vma vma ≡ some v
    → s.committed < 2 ^ 64
    → uncharge v (charge vma s) ≡ s
unfolding uncharge charge vm_unacct_memory
uncharge-charge vma v s h bound =
    let (a, b, c) = place_vma-same vma v h in
    let back : sub64 (add64 s.committed (vma_pages vma)) (vma_pages vma) ≡ s.committed =
      omega arith in
    elim (Bool-cases (has vma.vm_flags vm_account)) [
      | inl charged ↦ rw (a, b, c, charged) (ap (λ x. record s { committed = x }) back)
      | inr free ↦ rw (c, free) refl
    ]

module _ (e : InsertEnv) (laws : IsMapleTree e.tree) (vma v : Vma) (placed : place_vma vma ≡ some v)
    (good : IsVma vma) (s : Space) (acc : IsAccounted s) (bound : s.committed < 2 ^ 64) where
  linked-IsInserted :
      All (IsApart vma.vm_start vma.vm_end) s.vmas
      → IsInserted v s
          (count_vma (record (charge vma s) { vmas = e.tree.vma_iter_store v (charge vma s).vmas }))
  unfolding count_vma charge
  linked-IsInserted apart =
      let vs = s.vmas in
      let (start, end, flags) = place_vma-same vma v placed in
      let good' : IsVma v = rw (start, end) good in
      let apart' : All (IsApart v.vm_start v.vm_end) vs = rw (start, end) apart in
      let law = laws.store v vs acc.ordered (free-fits v good' vs acc.ordered apart') in
      let stored = free-IsStored v good' vs acc.ordered apart' in
      record {
        stored = rw law stored;
        count = omega (arith, map_count-le s acc);
        total_vm = refl;
        locked_vm = refl;
        brk = refl;
        def_flags = refl;
        lock = refl;
        kernel = refl;
        committed = rw (start, end, flags) refl;
      }

  finish-Inserts :
      All (IsApart vma.vm_start vma.vm_end) s.vmas
      → Inserts v s (insert_charged e vma (charge vma s))
  unfolding insert_charged finish_insert vma_link
  finish-Inserts apart =
      rw (insert_charged, placed)
        (elim (Bool-cases (e.vma_iter_prealloc (charge vma s).vmas v)) [
          | inl refused ↦ rw refused (inl (refl, uncharge-charge vma v s placed bound))
          | inr room ↦ rw room (inr (refl, linked-IsInserted apart))
        ])

  -- insert_vm_struct puts a vma of whole pages among the others where none of them meets it, with
  -- one vma more in the count and, with VM_ACCOUNT, its pages charged; or it fails with -ENOMEM, and
  -- nothing has changed, the charge included. The BUG_ON does not fire when the vma is not anonymous
  -- or has no anon_vma.
  pub insert_vm_struct-Inserts : Inserts v s (insert_vm_struct e vma s)
  unfolding insert_vm_struct
  insert_vm_struct-Inserts =
      let refused_by =
        has vma.vm_flags vm_account && e.security_vm_enough_memory_mm (vma_pages vma) s.committed in
      elim (Option-cases (e.tree.vma_find vma.vm_start vma.vm_end s.vmas)) [
        | inr (other, meets) ↦ rw meets (inl (refl, refl))
        | inl free ↦
            let apart = laws.find_none vma.vm_start vma.vm_end s.vmas acc.ordered free in
            elim (Bool-cases refused_by) [
              | inl refused ↦ rw (free, refused) (inl (refl, refl))
              | inr enough ↦ rw (free, enough) (finish-Inserts apart)
            ]
      ]
