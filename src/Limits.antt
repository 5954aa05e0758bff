-- ===== src/Limits.antt =====
-- kernel/usac/project3/main.c: the list of memory limits behind its mutex, the four system calls
-- that administer it, and the check that `brk` and `mmap` make.
pub mod Table
pub mod Access
pub mod Calls
pub mod Guards
mod Tests
pub mod Listing
pub mod Spec
pub mod Refine
use vd2024_so2_private_code.Base.{
  ℕ, zero, suc, ◌+◌, ◌^◌, List, [], ◌∷◌, Option, none, some, Bool, true, false, not, ◌||◌, ltb, leb,
  if◌then◌else◌, ℤ, pos, neg, is_neg, ◌==ℤ◌, add64, shl_page, eperm, esrch, einval, enomem, efault,
  take, set,
}
use vd2024_so2_private_code.Base.State.{M, ◌>>=◌, ◌>>◌, ret, gets, puts, deref}

-- `struct memory_limitation`; an entry of the list adds the link only.
pub record MemoryLimitation : Type 0 where
  pub pid : ℤ
  pub memory_limit : ℕ

-- What the module reads of `struct mm_struct` and `struct task_struct`. A kernel thread has no mm.
pub record Mm : Type 0 where
  pub total_vm : ℕ

pub record Task : Type 0 where
  pub mm : Option Mm

-- What the kernel around the module answers to a call, one value for each function.
-- `kmalloc` and `kmalloc_array` may fail, and the memory of an array holds anything at first.
-- `copy_to_user` gives what lands in user memory, and whether some of it is missing.
pub record Env : Type 0 where
  pub find_task_by_vpid : ℤ → Option Task
  pub capable : Bool
  pub kmalloc : ℕ → Bool
  pub kmalloc_array : ℕ → Option (List MemoryLimitation)
  pub copy_to_user : List MemoryLimitation → List MemoryLimitation × Bool
  pub put_user : Bool

-- The module's state, the number of objects that it holds from kmalloc, and the two places of user
-- memory that it writes.
pub record Kernel : Type 0 where
  pub memory_list : List MemoryLimitation
  pub memory_list_mutex : Bool
  pub allocated : ℕ
  pub processes_buffer : List MemoryLimitation
  pub processes_returned : Option ℕ

pub init : Kernel
init = record {
  memory_list = [];
  memory_list_mutex = false;
  allocated = 0;
  processes_buffer = [];
  processes_returned = none;
}

mutex_lock : M Kernel (Unit {0})
mutex_lock s = elim s.memory_list_mutex [
  | true ↦ none
  | false ↦ some (tt, record s { memory_list_mutex = true })
]

mutex_unlock : M Kernel (Unit {0})
mutex_unlock s = elim s.memory_list_mutex [
  | true ↦ some (tt, record s { memory_list_mutex = false })
  | false ↦ none
]

alloc : M Kernel (Unit {0})
alloc = puts (λ s. record s { allocated = suc s.allocated })

kfree : M Kernel (Unit {0})
kfree s = elim s.allocated [ zero ↦ none | suc n ↦ some (tt, record s { allocated = n }) ]

-- `task->mm->total_vm << PAGE_SHIFT`
abbrev pub current_usage : Mm → ℕ
current_usage mm = shl_page mm.total_vm

-- The walk of `is_request_accepted`, which releases the mutex on each way out.
pub check_entries : ℤ → ℕ → List MemoryLimitation → M Kernel Bool
unfolding mutex_unlock
check_entries pid total [] = do mutex_unlock; ret true
check_entries pid total (entry ∷ rest) =
    if entry.pid ==ℤ pid
    then (if ltb entry.memory_limit total
        then (do mutex_unlock; ret false)
        else (do mutex_unlock; ret true))
    else check_entries pid total rest

pub check_list : ℤ → ℕ → M Kernel Bool
unfolding mutex_lock
check_list pid total = do
  mutex_lock
  entries ← gets (λ s. s.memory_list)
  check_entries pid total entries

pub is_request_accepted : Env → ℤ → ℕ → M Kernel Bool
is_request_accepted e pid requested_memory = elim (e.find_task_by_vpid pid) [
  | none ↦ ret false
  | some task ↦ elim task.mm [
    | none ↦ ret false
    | some mm ↦ check_list pid (add64 (current_usage mm) requested_memory)
  ]
]

-- Whether the walk of `matus_add_memory_limit` meets the process.
pub listed : ℤ → List MemoryLimitation → Bool
listed pid [] = false
listed pid (tmp ∷ rest) = if tmp.pid ==ℤ pid then true else listed pid rest

abbrev sizeof_memory_limit_entry : ℕ
sizeof_memory_limit_entry = 32

kmalloc_entry : Env → M Kernel Bool
unfolding alloc
kmalloc_entry e = if e.kmalloc sizeof_memory_limit_entry then (do alloc; ret true) else ret false

list_add : MemoryLimitation → M Kernel (Unit {0})
list_add entry = puts (λ s. record s { memory_list = entry ∷ s.memory_list })

insert_entry : ℤ → ℕ → Bool → M Kernel ℤ
unfolding mutex_unlock list_add
insert_entry process_pid memory_limit entry =
    if entry
    then (do
      list_add (record { pid = process_pid; memory_limit = memory_limit })
      mutex_unlock
      ret (pos 0))
    else (do mutex_unlock; ret (neg enomem))

add_entry : Env → ℤ → ℕ → M Kernel ℤ
unfolding mutex_lock mutex_unlock kmalloc_entry insert_entry listed
add_entry e process_pid memory_limit = do
  mutex_lock
  entries ← gets (λ s. s.memory_list)
  (if listed process_pid entries
      then (do mutex_unlock; ret (neg 101))
      else (do entry ← kmalloc_entry e; insert_entry process_pid memory_limit entry))

-- The rest of `matus_add_memory_limit` once the process is found: a process with no mm faults.
add_limit : Env → ℤ → ℕ → Task → M Kernel ℤ
unfolding add_entry
add_limit e process_pid memory_limit task =
    if not e.capable
    then ret (neg eperm)
    else (if leb (2 ^ 63) memory_limit then ret (neg einval) else (do
      mm ← deref task.mm
      (if ltb memory_limit (current_usage mm)
          then ret (neg 100)
          else add_entry e process_pid memory_limit)))

pub matus_add_memory_limit : Env → ℤ → ℕ → M Kernel ℤ
unfolding add_limit
matus_add_memory_limit e process_pid memory_limit =
    if is_neg process_pid then ret (neg einval) else elim (e.find_task_by_vpid process_pid) [
      | none ↦ ret (neg esrch)
      | some task ↦ add_limit e process_pid memory_limit task
    ]

-- The copying loop: entry number `count` goes to that index of the kernel's buffer.
pub fill : List MemoryLimitation → ℕ → ℕ → List MemoryLimitation → ℕ × List MemoryLimitation
fill [] max_entries count buffer = (count, buffer)
fill (entry ∷ rest) max_entries count buffer =
    let next = fill rest max_entries (count + 1) (set buffer count entry) in
    if leb max_entries count then (count, buffer) else next

put_count : Env → ℕ → M Kernel ℤ
unfolding kfree
put_count e count =
    if e.put_user
    then (do kfree; ret (neg efault))
    else (do puts (λ s. record s { processes_returned = some count }); kfree; ret (pos 0))

pub copy_out : Env → ℕ × List MemoryLimitation → M Kernel ℤ
unfolding kfree put_count
copy_out e (count, buffer) =
    let (landed, missing) = e.copy_to_user (take count buffer) in
    do
      puts (λ s. record s { processes_buffer = landed })
      if missing then (do kfree; ret (neg efault)) else put_count e count

pub matus_get_memory_limits : Env → Bool → ℕ → Bool → M Kernel ℤ
unfolding mutex_lock mutex_unlock alloc fill copy_out
matus_get_memory_limits e has_buffer max_entries has_returned =
    if not has_buffer || not has_returned
    then ret (neg einval)
    else (if leb max_entries 0 then ret (neg einval) else elim (e.kmalloc_array max_entries) [
      | none ↦ ret (neg enomem)
      | some k_processes_buffer ↦ do
        alloc
        mutex_lock
        entries ← gets (λ s. s.memory_list)
        mutex_unlock
        copy_out e (fill entries max_entries 0 k_processes_buffer)
    ])

-- The walk of `matus_update_memory_limit`; `none` when it ends with no match.
pub update_entry : ℤ → ℕ → List MemoryLimitation → Option (List MemoryLimitation)
update_entry pid limit [] = none
update_entry pid limit (entry ∷ rest) =
    if entry.pid ==ℤ pid
    then some (record entry { memory_limit = limit } ∷ rest)
    else elim (update_entry pid limit rest) [ none ↦ none | some rest' ↦ some (entry ∷ rest') ]

pub matus_update_memory_limit : Env → ℤ → ℕ → M Kernel ℤ
unfolding mutex_lock mutex_unlock update_entry
matus_update_memory_limit e process_pid memory_limit =
    if not e.capable
    then ret (neg eperm)
    else (if is_neg process_pid
        then ret (neg einval)
        else (if ltb memory_limit 0 then ret (neg einval) else (do
          mutex_lock
          entries ← gets (λ s. s.memory_list)
          elim (update_entry process_pid memory_limit entries) [
            | none ↦ do mutex_unlock; ret (neg 102)
            | some entries' ↦ do
              puts (λ s. record s { memory_list = entries' })
              mutex_unlock
              ret (pos 0)
          ])))

-- `list_del` at the first entry of the process; `none` when there is none.
pub list_del : ℤ → List MemoryLimitation → Option (List MemoryLimitation)
list_del pid [] = none
list_del pid (entry ∷ rest) =
    if entry.pid ==ℤ pid
    then some rest
    else elim (list_del pid rest) [ none ↦ none | some rest' ↦ some (entry ∷ rest') ]

pub matus_remove_memory_limit : Env → ℤ → M Kernel ℤ
unfolding mutex_lock mutex_unlock kfree list_del
matus_remove_memory_limit e process_pid =
    if not e.capable
    then ret (neg eperm)
    else (if is_neg process_pid then ret (neg einval) else (do
      mutex_lock
      entries ← gets (λ s. s.memory_list)
      elim (list_del process_pid entries) [
        | none ↦ do mutex_unlock; ret (neg 102)
        | some entries' ↦ do
          puts (λ s. record s { memory_list = entries' })
          kfree
          mutex_unlock
          ret (pos 0)
      ]))
