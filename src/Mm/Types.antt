-- ===== src/Mm/Types.antt =====
-- The structures of the kernel's headers that mm/mmap.c works on, as far as it reads them, and the
-- constants of those headers.
use vd2024_so2_private_code.Base.{List, ℕ, ◌-◌, ◌^◌, Option, Bool, bit_and, is_set}

-- `struct vm_area_struct`. A file, an anon_vma, a policy, a userfaultfd context and a name are known
-- by their identity, NULL being `none`. `anon_vma_chain` lists the roots of the anon_vmas on the
-- chain. `vm_ops` is what the code asks of the operations.
pub record VmOps : Type 0 where
  pub has_close : Bool
  pub has_page_mkwrite : Bool
  pub has_pfn_mkwrite : Bool

pub record Vma : Type 0 where
  pub vm_start : ℕ
  pub vm_end : ℕ
  pub vm_pgoff : ℕ
  pub vm_flags : ℕ
  pub vm_page_prot : ℕ
  pub vm_file : Option ℕ
  pub vm_ops : Option VmOps
  pub anon_vma : Option ℕ
  pub anon_vma_chain : List ℕ
  pub vm_policy : Option ℕ
  pub vm_userfaultfd_ctx : Option ℕ
  pub anon_name : Option ℕ

-- The counters of `struct mm_struct`, in pages, and its limits.
pub record MmStruct : Type 0 where
  pub total_vm : ℕ
  pub locked_vm : ℕ
  pub data_vm : ℕ
  pub exec_vm : ℕ
  pub stack_vm : ℕ
  pub map_count : ℕ
  pub def_flags : ℕ
  pub mmap_base : ℕ
  pub start_code : ℕ
  pub start_data : ℕ
  pub end_data : ℕ
  pub start_brk : ℕ
  pub brk : ℕ

-- The limits of a process (in bytes), and whether it may pass the one on locked memory.
pub record Rlimits : Type 0 where
  pub rlimit_as : ℕ
  pub rlimit_data : ℕ
  pub rlimit_data_max : ℕ
  pub rlimit_memlock : ℕ
  pub rlimit_stack : ℕ
  pub cap_ipc_lock : Bool
  pub ignore_rlimit_data : Bool

abbrev pub vm_read : ℕ
vm_read = 1

abbrev pub vm_write : ℕ
vm_write = 2

abbrev pub vm_exec : ℕ
vm_exec = 4

abbrev pub vm_shared : ℕ
vm_shared = 8

abbrev pub vm_mayread : ℕ
vm_mayread = 0x10

abbrev pub vm_maywrite : ℕ
vm_maywrite = 0x20

abbrev pub vm_mayexec : ℕ
vm_mayexec = 0x40

abbrev pub vm_mayshare : ℕ
vm_mayshare = 0x80

abbrev pub vm_growsdown : ℕ
vm_growsdown = 0x100

abbrev pub vm_growsup : ℕ
vm_growsup = 0

abbrev pub vm_pfnmap : ℕ
vm_pfnmap = 0x400

abbrev pub vm_locked : ℕ
vm_locked = 0x2000

abbrev pub vm_dontexpand : ℕ
vm_dontexpand = 0x40000

abbrev pub vm_account : ℕ
vm_account = 0x100000

abbrev pub vm_noreserve : ℕ
vm_noreserve = 0x200000

abbrev pub vm_softdirty : ℕ
vm_softdirty = 0x8000000

-- Whether `flags & mask` is not 0.
abbrev pub has : ℕ → ℕ → Bool
has flags mask = is_set (bit_and flags mask)

-- `~mask` in a word.
abbrev pub complement : ℕ → ℕ
complement mask = 2 ^ 64 - 1 - mask
