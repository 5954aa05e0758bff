-- ===== src/Entry/Tests.antt =====
-- The code of common.c at concrete inputs, and its theorems there.
use vd2024_so2_private_code.Base.{
  ℕ, suc, min, ap, ◌≡◌, ◌↔◌, refl, [], ◌∷◌, some, true, false, arith, pos, negsuc,
}
use vd2024_so2_private_code.Monitor.Usage.{Counters, unused, track_syscall}
use vd2024_so2_private_code.Entry.{PtRegs, State, Platform, ni_syscall, set_ax}
use vd2024_so2_private_code.Entry.Long.{
  do_syscall_x64, do_syscall_x32, dispatch, track, may_sysret, leave, finish, do_syscall_64,
}
use vd2024_so2_private_code.Entry.Compat.{
  int80_emulation, do_int80_syscall_32, do_fast_syscall_32, do_sysenter_32, do_syscall_32_irqs_on,
}
use vd2024_so2_private_code.Entry.Sysret.{IsSysretSafe, sysret_iff}
use vd2024_so2_private_code.Entry.Tracking.{
  Tracked, syscall_64-Tracked, Uncounted, compat-Uncounted,
}
use vd2024_so2_private_code.Entry.Dispatch.{dispatch-answer}
use vd2024_so2_private_code.Entry.Bounds.{with_tables, table_bounds}

-- The rest of the kernel is a count of the calls made.
abbrev World : Type 0
World = ℕ

abbrev handler : ℕ → State World → ℕ × State World
handler i s = (i, record s { world = suc s.world })

abbrev platform : Platform World
platform = record {
  nr_syscalls = 463;
  x32_nr_syscalls = 548;
  ia32_nr_syscalls = 463;
  x86_64 = true;
  x86_x32_abi = false;
  ia32_emulation = true;
  xenpv = false;
  sys_call_table = handler;
  x32_sys_call_table = handler;
  ia32_sys_call_table = handler;
  enter_from_user_mode = λ s. s;
  syscall_enter_from_user_mode_prepare = λ s. s;
  irqentry_exit_to_user_mode = λ s. s;
  syscall_enter_from_user_mode = λ nr s. (nr, s);
  syscall_enter_from_user_mode_work = λ nr s. (nr, s);
  syscall_exit_to_user_mode = λ s. s;
  get_user = λ addr s. (false, 5);
  user_mode = λ regs. true;
  apic_isr_0x80 = λ s. false;
  ktime_get_real_ts64 = λ s. record { tv_sec = 9; tv_nsec = 0 };
  landing_pad = 0x1000;
  user_cs = 0x33;
  user32_cs = 0x23;
  user_ds = 0x2b;
  task_size_max = 0x7fff_ffff_f000;
}

abbrev regs : PtRegs
regs = record {
  ax = 0;
  orig_ax = 1;
  cx = 0x4000;
  r11 = 0x246;
  ip = 0x4000;
  sp = 0x9000;
  bp = 0x9000;
  flags = 0x246;
  cs = 0x33;
  ss = 0x2b;
}

abbrev regs32 : PtRegs
regs32 = record regs { cs = 0x23 }

abbrev counters : Counters
counters = some (unused ∷ unused ∷ unused ∷ unused ∷ [])

abbrev user : State World
user = record { regs = regs; counters = counters; ts_compat = false; world = 0 }

abbrev user32 : State World
user32 = record user { regs = regs32 }

-- After `write`: its result, and a use of the second counter.
abbrev written : State World
written = record {
  regs = record regs { ax = 1 };
  counters = some (
      unused
      ∷ record { count = 1; time_last_used = record { tv_sec = 9; tv_nsec = 0 } }
      ∷ unused
      ∷ unused
      ∷ []);
  ts_compat = false;
  world = 1;
}

write_returns : do_syscall_64 platform (pos 1) user ≡ some (true, written)
unfolding do_syscall_64 dispatch do_syscall_x64 do_syscall_x32 track track_syscall finish leave
    may_sysret
write_returns = refl

sysret_iff_example : (true ≡ true) ↔ IsSysretSafe platform written.regs
sysret_iff_example = sysret_iff platform (pos 1) user written true write_returns

syscall_64-Tracked_example :
    Tracked platform (pos 1) (dispatch platform (pos 1) user) (do_syscall_64 platform (pos 1) user)
unfolding dispatch do_syscall_x64 do_syscall_x32
syscall_64-Tracked_example = syscall_64-Tracked platform (pos 1) user (λ v. refl) refl

compat-Uncounted_example :
    Uncounted platform user32 (int80_emulation platform user32)
    × ((do_int80_syscall_32 platform user32).counters ≡ counters)
    × ((do_fast_syscall_32 platform user32).1.counters ≡ counters)
    × ((do_sysenter_32 platform user32).1.counters ≡ counters)
compat-Uncounted_example = compat-Uncounted platform user32 (record {
  handlers = λ i v. refl;
  enters = λ nr v. refl;
  works = λ nr v. refl;
  begins = λ v. refl;
  prepares = λ v. refl;
  exits = λ v. refl;
  irq_exits = λ v. refl;
})

dispatch-answer_example : dispatch platform (negsuc 1) user ≡ set_ax ni_syscall user
dispatch-answer_example = dispatch-answer platform (negsuc 1) user (omega arith) (omega arith)

-- A table that differs past the end.
abbrev longer : ℕ → State World → ℕ × State World
longer i s = handler (min i 462) s

table_bounds_example :
    (do_syscall_64 platform (negsuc 3) user
      ≡ do_syscall_64 (with_tables platform longer handler handler) (negsuc 3) user)
    × (do_syscall_32_irqs_on platform (negsuc 3) user
        ≡ do_syscall_32_irqs_on (with_tables platform longer handler handler) (negsuc 3) user)
table_bounds_example =
    table_bounds platform longer handler handler (negsuc 3) user
      (λ i s h. ap (λ (k : ℕ). handler k s) (omega arith)) (λ i s h. refl) (λ i s h. refl)
