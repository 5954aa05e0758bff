-- ===== src/Mm/Accounting/Limits.antt =====
-- The limits of mm/mmap.c hold what they promise.
use vd2024_so2_private_code.Base.{
  ℕ, ◌+◌, ◌*◌, ◌/◌, ◌%◌, ◌^◌, ◌≤◌, ◌<◌, ◌≡◌, ◌⊎◌, true, false, arith, leb, ◌==◌, if◌then◌else◌,
}
use vd2024_so2_private_code.Mm.Types.{MmStruct, Rlimits, has, vm_locked}
use vd2024_so2_private_code.Mm.Accounting.{
  FileKind, file_mmap_size_max, file_mmap_ok, mlock_future_ok, may_expand_vm, MappingKinds,
  round_hint_to_min,
}

-- The end of what can be mapped of a file. The special case of 0 stands for all of 2 ^ 64.
abbrev pub file_end : FileKind → ℕ
file_end f = if file_mmap_size_max f == 0 then 2 ^ 64 else file_mmap_size_max f

-- A mapping of a file is allowed exactly when its last byte is within what can be mapped: neither
-- the shifted offset nor the sum can wrap round the check.
pub file_mmap_ok-fits :
    (f : FileKind) (pgoff len : ℕ)
    → 0 < len
    → len < 2 ^ 64
    → file_mmap_ok f pgoff len ≡ leb (pgoff * 4096 + len) (file_end f)
unfolding file_mmap_ok
file_mmap_ok-fits f pgoff len h k = ground arith

-- A hint becomes 0 or a whole page that is not below mmap_min_addr.
pub hint_bounds :
    (mmap_min_addr hint : ℕ)
    → mmap_min_addr + 4096 ≤ 2 ^ 64
    → let addr = round_hint_to_min mmap_min_addr hint in
      (addr % 4096 ≡ 0) × ((addr ≡ 0) ⊎ (mmap_min_addr ≤ addr))
unfolding round_hint_to_min
hint_bounds mmap_min_addr hint h = ground arith

-- Who may not pass the limit on locked memory stays within it with what it locks next.
pub mlock_within :
    (r : Rlimits) (mm : MmStruct) (flags bytes : ℕ)
    → has flags vm_locked ≡ true
    → r.cap_ipc_lock ≡ false
    → bytes / 4096 + mm.locked_vm < 2 ^ 64
    → mlock_future_ok r mm flags bytes ≡ true
    → (bytes / 4096 + mm.locked_vm) * 4096 ≤ r.rlimit_memlock
unfolding mlock_future_ok
mlock_within r mm flags bytes locked bound fits ok = ground arith

-- What may be mapped keeps the address space within its limit, and the data as well: within its
-- limit, or, where that is 0, within the hard limit. Only the boot option lets data pass both.
pub expand_within :
    (k : MappingKinds) (r : Rlimits) (mm : MmStruct) (flags npages : ℕ)
    → mm.total_vm + npages < 2 ^ 64
    → mm.data_vm + npages < 2 ^ 64
    → r.ignore_rlimit_data ≡ false
    → may_expand_vm k r mm flags npages ≡ true
    → ((mm.total_vm + npages) * 4096 ≤ r.rlimit_as)
      × ((k.is_data_mapping flags ≡ false)
          ⊎ ((mm.data_vm + npages) * 4096 ≤ r.rlimit_data)
          ⊎ ((r.rlimit_data ≡ 0) × ((mm.data_vm + npages) * 4096 ≤ r.rlimit_data_max)))
unfolding may_expand_vm
expand_within k r mm flags npages t d o ok = ground arith
