-- ===== src/Mm/Unmap/Removed.antt =====
-- remove_mt: what the loop over the removed vmas takes from the counters.
use vd2024_so2_private_code.Base.{
  ℕ, ◌+◌, ◌^◌, ◌≤◌, ◌<◌, ◌≡◌, refl, ◌∙◌, List, [], ◌∷◌, if◌then◌else◌, arith, add64, sub64,
}
use vd2024_so2_private_code.Mm.Types.{Vma, has, vm_account}
use vd2024_so2_private_code.Mm.Merge.{vma_pages}
use vd2024_so2_private_code.Mm.Accounting.{MappingKinds, vm_stat_account}
use vd2024_so2_private_code.Mm.Accounting.Counters.{vm_stat_account-total, vm_stat_account_keeps}
use vd2024_so2_private_code.Mm.Space.{Space}
use vd2024_so2_private_code.Mm.Vmas.{total}
use vd2024_so2_private_code.Mm.Unmap.{vm_unacct_memory, remove_vmas, remove_mt}

-- The pages that the overcommit accounting has charged for a vma.
abbrev pub accounted_pages : Vma → ℕ
accounted_pages v = if has v.vm_flags vm_account then vma_pages v else 0

-- What removing vmas leaves.
pub record IsRemoved (vs : List Vma) (s s' : Space) : Type 0 where
  pub vmas : s'.vmas ≡ s.vmas
  pub total_vm : s'.mm.total_vm + total vma_pages vs ≡ s.mm.total_vm
  pub locked_vm : s'.mm.locked_vm ≡ s.mm.locked_vm
  pub map_count : s'.mm.map_count ≡ s.mm.map_count
  pub brk : s'.mm.brk ≡ s.mm.brk
  pub def_flags : s'.mm.def_flags ≡ s.mm.def_flags
  pub lock : s'.mmap_lock ≡ s.mmap_lock
  pub kernel : s'.kernel ≡ s.kernel
  pub committed : s'.committed < 2 ^ 64

module _ (k : MappingKinds) where
  remove_vmas-IsRemoved :
      (nr : ℕ) (vs : List Vma) (s : Space)
      → total vma_pages vs ≤ s.mm.total_vm
      → s.mm.total_vm < 2 ^ 64
      → IsRemoved vs s (remove_vmas k nr vs s)
  unfolding remove_vmas vm_unacct_memory
  remove_vmas-IsRemoved nr [] s h w = record {
    vmas = refl;
    total_vm = omega arith;
    locked_vm = refl;
    map_count = refl;
    brk = refl;
    def_flags = refl;
    lock = refl;
    kernel = refl;
    committed = omega arith;
  }
  remove_vmas-IsRemoved nr (v ∷ vs) s h w =
      let nrpages = vma_pages v in
      let nr' = if has v.vm_flags vm_account then add64 nr nrpages else nr in
      let t = record s { mm = vm_stat_account k s.mm v.vm_flags (sub64 0 nrpages) } in
      let sum = vm_stat_account-total k s.mm v.vm_flags (sub64 0 nrpages) in
      let (locked, count, brk, def_flags) =
        vm_stat_account_keeps k s.mm v.vm_flags (sub64 0 nrpages) in
      let rest = remove_vmas-IsRemoved nr' vs t (omega (arith, sum)) (omega (arith, sum)) in
      record {
        vmas = rest.vmas;
        total_vm = omega (arith, rest.total_vm, sum);
        locked_vm = rest.locked_vm ∙ locked;
        map_count = rest.map_count ∙ count;
        brk = rest.brk ∙ brk;
        def_flags = rest.def_flags ∙ def_flags;
        lock = rest.lock;
        kernel = rest.kernel;
        committed = rest.committed;
      }

  pub remove_mt-IsRemoved :
      (vs : List Vma) (s : Space)
      → total vma_pages vs ≤ s.mm.total_vm
      → s.mm.total_vm < 2 ^ 64
      → IsRemoved vs s (remove_mt k vs s)
  unfolding remove_mt
  remove_mt-IsRemoved vs s h w = remove_vmas-IsRemoved 0 vs s h w

  -- The charge of the removed vmas is given back, if it was made.
  remove_vmas-uncharges :
      (nr : ℕ) (vs : List Vma) (s : Space)
      → nr + total accounted_pages vs ≤ s.committed
      → s.committed < 2 ^ 64
      → (remove_vmas k nr vs s).committed + nr + total accounted_pages vs ≡ s.committed
  unfolding remove_vmas vm_unacct_memory
  remove_vmas-uncharges nr [] s h w = omega arith
  remove_vmas-uncharges nr (v ∷ vs) s h w =
      let nr' = if has v.vm_flags vm_account then add64 nr (vma_pages v) else nr in
      let t = record s { mm = vm_stat_account k s.mm v.vm_flags (sub64 0 (vma_pages v)) } in
      let sum : nr' + total accounted_pages vs ≡ nr + total accounted_pages (v ∷ vs) =
        ground arith in
      omega (arith, sum, remove_vmas-uncharges nr' vs t (omega (arith, sum)) w)

  pub remove_mt-uncharges :
      (vs : List Vma) (s : Space)
      → total accounted_pages vs ≤ s.committed
      → s.committed < 2 ^ 64
      → (remove_mt k vs s).committed + total accounted_pages vs ≡ s.committed
  unfolding remove_mt
  remove_mt-uncharges vs s h w = omega (arith, remove_vmas-uncharges 0 vs s (omega (arith, h)) w)
