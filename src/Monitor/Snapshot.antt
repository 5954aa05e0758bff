-- ===== src/Monitor/Snapshot.antt =====
-- kernel/usac/project1/syscall1.c, a snapshot of the system's memory, and
-- kernel/usac/examples/syscall1.c, the time of day.
use vd2024_so2_private_code.Base.{
  ℕ, Option, some, Bool, not, if◌then◌else◌, ℤ, pos, neg, add64, einval, efault,
}
use vd2024_so2_private_code.Monitor.Usage.{Timespec}

-- `struct memory_snapshot`
pub record MemorySnapshot : Type 0 where
  pub total_pages : ℕ
  pub free_pages : ℕ
  pub active_pages : ℕ
  pub cache_pages : ℕ
  pub swap_pages : ℕ

-- The items of `enum node_stat_item` that are read.
pub data NodeStatItem : Type 0 where
  nr_active_anon nr_active_file nr_file_pages nr_swapcache : NodeStatItem

-- What si_meminfo and global_node_page_state tell.
pub record MemoryInfo : Type 0 where
  pub totalram : ℕ
  pub freeram : ℕ
  pub global_node_page_state : NodeStatItem → ℕ

kernel_snapshot : MemoryInfo → MemorySnapshot
kernel_snapshot info = record {
  total_pages = info.totalram;
  free_pages = info.freeram;
  active_pages =
      add64 (info.global_node_page_state nr_active_anon)
        (info.global_node_page_state nr_active_file);
  cache_pages = info.global_node_page_state nr_file_pages;
  swap_pages = info.global_node_page_state nr_swapcache;
}

-- `has_pointer` is whether the user's pointer is not NULL, `copied` whether copy_to_user succeeds.
-- The result holds the reply and what the caller's memory holds afterwards.
pub matus_capture_memory_snapshot :
    Bool → Bool → MemoryInfo → Option MemorySnapshot → ℤ × Option MemorySnapshot
unfolding kernel_snapshot
matus_capture_memory_snapshot has_pointer copied info user_snapshot =
    if not has_pointer
    then (neg einval, user_snapshot)
    else (if copied then (pos 0, some (kernel_snapshot info)) else (neg efault, user_snapshot))

-- `now` is what ktime_get_real_ts64 reads.
pub matus_get_realtime : Timespec → ℤ
matus_get_realtime now = pos now.tv_sec
