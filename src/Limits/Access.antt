-- ===== src/Limits/Access.antt =====
-- The check of main.c that `brk` and `mmap` make before they map memory.
use vd2024_so2_private_code.Base.{
  ℕ, ◌+◌, ◌-◌, ◌*◌, ◌/◌, ◌%◌, ◌^◌, ◌≤◌, ◌<◌, ◌≡◌, ◌≢◌, inl, inr, List, [], ◌∷◌, Option, none, some,
  Bool, true, false, arith, leb, ℤ, add64, sub64, page_align, leb→le, Option-cases,
}
use vd2024_so2_private_code.Limits.{
  MemoryLimitation, Mm, Task, Env, Kernel, current_usage, check_entries, check_list,
  is_request_accepted,
}
use vd2024_so2_private_code.Limits.Table.{lookup}

-- The decision, as the table tells it: no limit admits everything.
abbrev pub within : ℕ → Option ℕ → Bool
within total none = true
within total (some limit) = leb total limit

abbrev pub mm_accepts : ℕ → Option ℕ → Option Mm → Bool
mm_accepts bytes limit none = false
mm_accepts bytes limit (some mm) = within (add64 (current_usage mm) bytes) limit

abbrev pub accepts : ℕ → Option ℕ → Option Task → Bool
accepts bytes limit none = false
accepts bytes limit (some task) = mm_accepts bytes limit task.mm

check_entries_lem :
    (pid : ℤ) (total : ℕ) (es : List MemoryLimitation) (s : Kernel)
    → s.memory_list_mutex ≡ true
    → check_entries pid total es s
      ≡ some (within total (lookup pid es), record s { memory_list_mutex = false })
unfolding check_entries lookup
check_entries_lem pid total [] s h = ground arith
check_entries_lem pid total (e ∷ es) s h = ground (arith, check_entries_lem pid total es s h)

check_list_lem :
    (pid : ℤ) (total : ℕ) (s : Kernel)
    → s.memory_list_mutex ≡ false
    → check_list pid total s ≡ some (within total (lookup pid s.memory_list), s)
unfolding check_list
check_list_lem pid total s h =
    ground
      (arith, check_entries_lem pid total s.memory_list (record s { memory_list_mutex = true }))

-- With the mutex free the check returns, and leaves the kernel as it was.
pub is_request_accepted_lem :
    (e : Env) (pid : ℤ) (bytes : ℕ) (s : Kernel)
    → s.memory_list_mutex ≡ false
    → is_request_accepted e pid bytes s
      ≡ some (accepts bytes (lookup pid s.memory_list) (e.find_task_by_vpid pid), s)
unfolding is_request_accepted
is_request_accepted_lem e pid bytes s h = elim (Option-cases (e.find_task_by_vpid pid)) [
  | inl missing ↦ ground arith
  | inr (task, found) ↦ elim (Option-cases task.mm) [
    | inl kernel_thread ↦ ground arith
    | inr (mm, user) ↦ ground (arith, check_list_lem pid (add64 (current_usage mm) bytes) s h)
  ]
]

-- A process that the environment finds, with its mm.
abbrev pub Finds : Env → ℤ → Task → Mm → Type 0
Finds e pid task mm = (e.find_task_by_vpid pid ≡ some task) × (task.mm ≡ some mm)

accepted_within :
    (e : Env) (pid : ℤ) (bytes : ℕ) (s : Kernel) (task : Task) (mm : Mm) (limit : ℕ)
    → s.memory_list_mutex ≡ false
    → Finds e pid task mm
    → lookup pid s.memory_list ≡ some limit
    → is_request_accepted e pid bytes s ≡ some (leb (add64 (current_usage mm) bytes) limit, s)
accepted_within e pid bytes s task mm limit h f l =
    ground (arith, is_request_accepted_lem e pid bytes s h)

-- Where usage and request add up below 2 ^ 64, a limited process gets a request exactly when the
-- sum is within the limit, and the check changes nothing.
pub request_enforced :
    (e : Env) (pid : ℤ) (bytes : ℕ) (s : Kernel) (task : Task) (mm : Mm) (limit : ℕ)
    → s.memory_list_mutex ≡ false
    → Finds e pid task mm
    → lookup pid s.memory_list ≡ some limit
    → mm.total_vm * 4096 + bytes < 2 ^ 64
    → is_request_accepted e pid bytes s ≡ some (leb (mm.total_vm * 4096 + bytes) limit, s)
request_enforced e pid bytes s task mm limit h f l fits =
    ground (arith, accepted_within e pid bytes s task mm limit h f l)

-- `brk` asks for `newbrk - oldbrk`, which wraps when the heap shrinks. The sum wraps back: the
-- answer is whether what is left after the shrink is within the limit. So a process that stays
-- above its limit is refused even that.
pub shrink_enforced :
    (e : Env) (pid : ℤ) (newbrk oldbrk : ℕ) (s : Kernel) (task : Task) (mm : Mm) (limit : ℕ)
    → s.memory_list_mutex ≡ false
    → Finds e pid task mm
    → lookup pid s.memory_list ≡ some limit
    → newbrk < oldbrk
    → oldbrk < 2 ^ 64
    → oldbrk - newbrk ≤ mm.total_vm * 4096
    → mm.total_vm * 4096 < 2 ^ 64
    → is_request_accepted e pid (sub64 newbrk oldbrk) s
      ≡ some (leb (mm.total_vm * 4096 - (oldbrk - newbrk)) limit, s)
shrink_enforced e pid newbrk oldbrk s task mm limit h f l shrinks small fits mapped =
    ground (arith, accepted_within e pid (sub64 newbrk oldbrk) s task mm limit h f l)

-- The sum is not guarded against overflow: a process within its limit is granted every request
-- that carries the sum past 2 ^ 64.
pub request_wraps :
    (e : Env) (pid : ℤ) (bytes : ℕ) (s : Kernel) (task : Task) (mm : Mm) (limit : ℕ)
    → s.memory_list_mutex ≡ false
    → Finds e pid task mm
    → lookup pid s.memory_list ≡ some limit
    → mm.total_vm * 4096 ≤ limit
    → limit < 2 ^ 64
    → bytes < 2 ^ 64
    → 2 ^ 64 ≤ mm.total_vm * 4096 + bytes
    → is_request_accepted e pid bytes s ≡ some (true, s)
request_wraps e pid bytes s task mm limit h f l ok_now small word wraps =
    ground (arith, accepted_within e pid bytes s task mm limit h f l)

-- The check sees the length that the caller asks for, and the mapping takes whole pages. Where usage
-- and request, with a page more, do not overflow, a limited process stays after an accepted request
-- within its limit rounded up to whole pages.
pub accepted_pages :
    (e : Env) (pid : ℤ) (len : ℕ) (s : Kernel) (task : Task) (mm : Mm) (limit : ℕ)
    → s.memory_list_mutex ≡ false
    → Finds e pid task mm
    → lookup pid s.memory_list ≡ some limit
    → mm.total_vm * 4096 + len + 4096 ≤ 2 ^ 64
    → is_request_accepted e pid len s ≡ some (true, s)
    → mm.total_vm * 4096 + page_align len ≤ (limit + 4095) / 4096 * 4096
accepted_pages e pid len s task mm limit h f l fits accepted =
    let ok : leb (mm.total_vm * 4096 + len) limit ≡ true =
      ground (arith, request_enforced e pid len s task mm limit h f l) in
    let le : mm.total_vm * 4096 + len ≤ limit = leb→le _ _ ok in omega arith

-- The rounding is not idle: at a limit that is no whole number of pages a request is accepted
-- whose mapping takes the process past its limit.
pub accepted_past_limit :
    (e : Env) (pid : ℤ) (len : ℕ) (s : Kernel) (task : Task) (mm : Mm) (limit : ℕ)
    → s.memory_list_mutex ≡ false
    → Finds e pid task mm
    → lookup pid s.memory_list ≡ some limit
    → mm.total_vm * 4096 + len ≡ limit
    → limit % 4096 ≢ 0
    → limit + 4096 ≤ 2 ^ 64
    → (is_request_accepted e pid len s ≡ some (true, s))
      × (limit < mm.total_vm * 4096 + page_align len)
accepted_past_limit e pid len s task mm limit h f l exact odd fits =
    (ground (arith, request_enforced e pid len s task mm limit h f l), omega arith)
