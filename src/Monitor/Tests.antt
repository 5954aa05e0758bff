-- ===== src/Monitor/Tests.antt =====
-- The code of kernel/usac/project1 at concrete inputs, and its theorems there.
use vd2024_so2_private_code.Base.{ℕ, ◌≡◌, refl, [], ◌∷◌, ◌++◌, none, some, true, false, pos}
use vd2024_so2_private_code.Monitor.Usage.{Timespec, unused}
use vd2024_so2_private_code.Monitor.Usage.Counts.{call, query, run, run_counts, uses, last_use}
use vd2024_so2_private_code.Monitor.Throttle.{IoStats, Task, Env, State}

abbrev at : ℕ → Timespec
at s = record { tv_sec = s; tv_nsec = 0 }

run_counts_example :
    run
      (call (at 1) (pos 0) ∷ query false true ∷ []
        ++ query true true
          ∷ call (at 2) (pos 56)
          ∷ call (at 3) (pos 57)
          ∷ call (at 4) (pos 0)
          ∷ call (at 5) (pos 56)
          ∷ [])
      none
    ≡ some (
        some (
          record { count = 1; time_last_used = at 4 }
          ∷ unused
          ∷ unused
          ∷ record { count = 2; time_last_used = at 5 }
          ∷ []))
unfolding uses last_use
run_counts_example =
    run_counts (call (at 1) (pos 0) ∷ query false true ∷ [])
      (call (at 2) (pos 56)
        ∷ call (at 3) (pos 57)
        ∷ call (at 4) (pos 0)
        ∷ call (at 5) (pos 56)
        ∷ [])
      true (refl, tt)

abbrev stack : IoStats
stack = record {
  bytes_read = 0;
  bytes_written = 0;
  bytes_read_disk = 0;
  bytes_written_disk = 0;
  io_wait_time = 99;
}

abbrev reader : Task
reader = record { rchar = 10; wchar = 20; read_bytes = 30; write_bytes = 40; blkio_delay = none }

abbrev unaccounted : Env
unaccounted = record {
  find_task_by_vpid = λ _. some reader;
  delay_acct = true;
  copied = true;
  kstats = stack;
}

abbrev idle : State
idle = record { alloc_lock = false; stats = none }
