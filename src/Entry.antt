-- ===== src/Entry.antt =====
-- arch/x86/entry/common.c: how a system call enters the kernel and leaves it.
pub mod Long
pub mod Compat
pub mod Dispatch
pub mod Bounds
pub mod Sysret
pub mod Tracking
mod Tests
use vd2024_so2_private_code.Base.{
  ℕ, ◌-◌, ◌%◌, ◌^◌, Bool, if◌then◌else◌, ltb, ℤ, pos, negsuc, err64, enosys,
}
use vd2024_so2_private_code.Monitor.Usage.{Timespec, Counters}

-- The registers of `struct pt_regs` that the code reads or writes.
pub record PtRegs : Type 0 where
  pub ax : ℕ
  pub orig_ax : ℕ
  pub cx : ℕ
  pub r11 : ℕ
  pub ip : ℕ
  pub sp : ℕ
  pub bp : ℕ
  pub flags : ℕ
  pub cs : ℕ
  pub ss : ℕ

-- The registers, the counters of syscall2.c, the TS_COMPAT bit of the thread, and the rest of the
-- kernel.
pub record State (W : Type 0) : Type 0 where
  pub regs : PtRegs
  pub counters : Counters
  pub ts_compat : Bool
  pub world : W

-- The kernel around the file: its configuration, its tables of handlers, which may change
-- everything, and the hooks of the generic entry code. `get_user` gives whether the read of a word
-- of user memory fails, and the word.
pub record Platform (W : Type 0) : Type 0 where
  pub nr_syscalls : ℕ
  pub x32_nr_syscalls : ℕ
  pub ia32_nr_syscalls : ℕ
  pub x86_64 : Bool
  pub x86_x32_abi : Bool
  pub ia32_emulation : Bool
  pub xenpv : Bool
  pub sys_call_table : ℕ → State W → ℕ × State W
  pub x32_sys_call_table : ℕ → State W → ℕ × State W
  pub ia32_sys_call_table : ℕ → State W → ℕ × State W
  pub enter_from_user_mode : State W → State W
  pub syscall_enter_from_user_mode_prepare : State W → State W
  pub irqentry_exit_to_user_mode : State W → State W
  pub syscall_enter_from_user_mode : ℤ → State W → ℤ × State W
  pub syscall_enter_from_user_mode_work : ℤ → State W → ℤ × State W
  pub syscall_exit_to_user_mode : State W → State W
  pub get_user : ℕ → State W → Bool × ℕ
  pub user_mode : PtRegs → Bool
  pub apic_isr_0x80 : State W → Bool
  pub ktime_get_real_ts64 : State W → Timespec
  pub landing_pad : ℕ
  pub user_cs : ℕ
  pub user32_cs : ℕ
  pub user_ds : ℕ
  pub task_size_max : ℕ

-- The conversions between `int`, `unsigned int` and the low half of a register.
abbrev pub to_uint : ℤ → ℕ
to_uint (pos n) = n % 2 ^ 32
to_uint (negsuc n) = 2 ^ 32 - 1 - n % 2 ^ 32

abbrev pub to_int : ℕ → ℤ
to_int n = if ltb (n % 2 ^ 32) (2 ^ 31) then pos (n % 2 ^ 32) else negsuc (2 ^ 32 - 1 - n % 2 ^ 32)

-- array_index_nospec(index, size) of nospec.h.
abbrev pub array_index_nospec : ℕ → ℕ → ℕ
array_index_nospec index size = if ltb index size then index else 0

abbrev pub x32_syscall_bit : ℕ
x32_syscall_bit = 0x4000_0000

abbrev pub x86_eflags_tf : ℕ
x86_eflags_tf = 0x100

abbrev pub x86_eflags_if : ℕ
x86_eflags_if = 0x200

abbrev pub x86_eflags_rf : ℕ
x86_eflags_rf = 0x1_0000

abbrev pub x86_eflags_vm : ℕ
x86_eflags_vm = 0x2_0000

abbrev pub set_ax : {W : Type 0} → ℕ → State W → State W
set_ax ax s = record s { regs = record s.regs { ax = ax } }

-- `regs->ax = table[nr](regs)`
abbrev pub call_handler : {W : Type 0} → (ℕ → State W → ℕ × State W) → ℕ → State W → State W
call_handler table nr s = let (ax, s') = table nr s in set_ax ax s'

-- `sys_ni_syscall`
abbrev pub ni_syscall : ℕ
ni_syscall = err64 enosys
