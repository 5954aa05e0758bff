-- ===== src/Limits/Guards.antt =====
-- Where the four calls of main.c guard differently from one another.
use vd2024_so2_private_code.Base.{
  ℕ, ◌^◌, ◌≤◌, ◌<◌, ◌≡◌, none, some, true, false, arith, is_some, is_neg, ℤ, neg, einval, ==ℤ_self,
}
use vd2024_so2_private_code.Limits.{
  Task, Env, Kernel, matus_add_memory_limit, matus_update_memory_limit,
}
use vd2024_so2_private_code.Limits.Table.{lookup, update_entry-Changes}
use vd2024_so2_private_code.Limits.Calls.{Returns}

-- `matus_add_memory_limit` reads the usage of a process without asking whether it has an mm, as
-- `is_request_accepted` does: at every kernel thread it goes through a NULL pointer.
pub add_kernel_thread :
    (e : Env) (pid : ℤ) (limit : ℕ) (s : Kernel) (task : Task)
    → is_neg pid ≡ false
    → e.find_task_by_vpid pid ≡ some task
    → task.mm ≡ none
    → e.capable ≡ true
    → limit < 2 ^ 63
    → matus_add_memory_limit e pid limit s ≡ none
unfolding matus_add_memory_limit
add_kernel_thread e pid limit s task p f m c l = ground arith

-- A limit that is negative as a `long` is refused when it is added. The test of the update is made
-- on an unsigned number and never fails, so the same limit replaces the one in the list.
pub update_unguarded :
    (e : Env) (pid : ℤ) (limit : ℕ) (s : Kernel) (task : Task)
    → is_neg pid ≡ false
    → e.find_task_by_vpid pid ≡ some task
    → e.capable ≡ true
    → s.memory_list_mutex ≡ false
    → is_some (lookup pid s.memory_list) ≡ true
    → 2 ^ 63 ≤ limit
    → (matus_add_memory_limit e pid limit s ≡ some (neg einval, s))
      × Returns
          (λ s'. lookup pid s'.memory_list ≡ some limit)
          (matus_update_memory_limit e pid limit s)
unfolding matus_add_memory_limit matus_update_memory_limit
update_unguarded e pid limit s task p f c u l h =
    (ground arith, ground (arith, update_entry-Changes pid limit s.memory_list pid, ==ℤ_self pid))
