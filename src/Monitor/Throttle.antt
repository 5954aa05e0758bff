-- ===== src/Monitor/Throttle.antt =====
-- kernel/usac/project1/syscall3.c: the input and output statistics of a process.
use vd2024_so2_private_code.Base.{
  ℕ, ◌≡◌, ◌⊎◌, Option, none, some, Bool, true, false, arith, if◌then◌else◌, ℤ, pos, neg, esrch,
  efault,
}
use vd2024_so2_private_code.Base.State.{M, ◌>>=◌, ◌>>◌, ret, puts}

-- `struct io_stats`
pub record IoStats : Type 0 where
  pub bytes_read : ℕ
  pub bytes_written : ℕ
  pub bytes_read_disk : ℕ
  pub bytes_written_disk : ℕ
  pub io_wait_time : ℕ

-- What the call reads of `struct task_struct`: its I/O accounting, and the delay accounting, which
-- may be absent.
pub record Task : Type 0 where
  pub rchar : ℕ
  pub wchar : ℕ
  pub read_bytes : ℕ
  pub write_bytes : ℕ
  pub blkio_delay : Option ℕ

-- `delay_acct` is CONFIG_TASK_DELAY_ACCT, `copied` whether copy_to_user succeeds, and `kstats` what
-- the stack holds where the call places its structure.
pub record Env : Type 0 where
  pub find_task_by_vpid : ℤ → Option Task
  pub delay_acct : Bool
  pub copied : Bool
  pub kstats : IoStats

-- The lock of the task, and the caller's memory.
pub record State : Type 0 where
  pub alloc_lock : Bool
  pub stats : Option IoStats

task_lock : M State (Unit {0})
task_lock s = elim s.alloc_lock [ true ↦ none | false ↦ some (tt, record s { alloc_lock = true }) ]

task_unlock : M State (Unit {0})
task_unlock s = elim s.alloc_lock [
  | true ↦ some (tt, record s { alloc_lock = false })
  | false ↦ none
]

-- The assignments under the lock. Nothing is assigned to `io_wait_time` without delay accounting.
read_wait : Bool → Option ℕ → ℕ → ℕ
read_wait false delays before = before
read_wait true none before = before
read_wait true (some blkio_delay) before = blkio_delay

read_stats : Env → Task → IoStats
unfolding read_wait
read_stats e task = record {
  bytes_read = task.rchar;
  bytes_written = task.wchar;
  bytes_read_disk = task.read_bytes;
  bytes_written_disk = task.write_bytes;
  io_wait_time = read_wait e.delay_acct task.blkio_delay e.kstats.io_wait_time;
}

copy_stats : Env → IoStats → M State ℤ
copy_stats e kstats =
    if e.copied
    then (do puts (λ s. record s { stats = some kstats }); ret (pos 0))
    else ret (neg efault)

pub matus_get_io_throttle : Env → ℤ → M State ℤ
unfolding task_lock task_unlock read_stats copy_stats
matus_get_io_throttle e pid = elim (e.find_task_by_vpid pid) [
  | none ↦ ret (neg esrch)
  | some task ↦ do task_lock; kstats ← ret (read_stats e task); task_unlock; copy_stats e kstats
]

-- The answer for a process, and what it leaves in the caller's memory. The waiting time is that of the
-- task where the kernel accounts for delays and the task has its account; otherwise it is what the
-- kernel's stack held there.
abbrev pub Waited : Env → Task → ℕ → Type 0
Waited e task wait =
    ((e.delay_acct ≡ true) × (task.blkio_delay ≡ some wait))
    ⊎ (((e.delay_acct ≡ false) ⊎ (task.blkio_delay ≡ none)) × (e.kstats.io_wait_time ≡ wait))

abbrev pub Reports : Env → Option Task → State → Option (ℤ × State) → Type 0
Reports e found s none = ⊥
Reports e none s (some (r, t)) = (r ≡ neg esrch) × (t.alloc_lock ≡ false) × (t.stats ≡ s.stats)
Reports e (some task) s (some (r, t)) =
    (t.alloc_lock ≡ false)
    × (((e.copied ≡ false) × (r ≡ neg efault) × (t.stats ≡ s.stats))
        ⊎ ((e.copied ≡ true)
            × (r ≡ pos 0)
            × ((wait : ℕ) × Waited e task wait
                × (t.stats
                    ≡ some (record {
                      bytes_read = task.rchar;
                      bytes_written = task.wchar;
                      bytes_read_disk = task.read_bytes;
                      bytes_written_disk = task.write_bytes;
                      io_wait_time = wait;
                    })))))

-- A call that returns with the lock free, and left the caller's memory alone unless it succeeded.
abbrev pub Settled : State → Option (ℤ × State) → Type 0
Settled s none = ⊥
Settled s (some (r, t)) = (t.alloc_lock ≡ false) × ((r ≡ pos 0) ⊎ (t ≡ s))

-- Every call returns with the lock free, and a failed one leaves the caller's memory alone.
pub throttle_settles :
    (e : Env) (pid : ℤ) (s : State)
    → s.alloc_lock ≡ false
    → Settled s (matus_get_io_throttle e pid s)
unfolding matus_get_io_throttle
throttle_settles e pid s free = ground arith
