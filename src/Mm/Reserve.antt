-- ===== src/Mm/Reserve.antt =====
-- The memory that mm/mmap.c keeps back for users and for the administrator.
use vd2024_so2_private_code.Base.{
  ℕ, ◌*◌, ◌/◌, ◌%◌, ◌^◌, ◌≤◌, ◌≡◌, min, arith, ltb, ◌&&◌, if◌then◌else◌,
}

pub record Reserves : Type 0 where
  pub user_reserve_kbytes : ℕ
  pub admin_reserve_kbytes : ℕ

-- `action` of the notifier.
pub data Action : Type 0 where
  mem_online mem_offline other : Action

-- `K(x)`: pages to kilobytes.
abbrev pub kbytes : ℕ → ℕ
kbytes pages = pages * 4 % 2 ^ 64

-- `free` is global_zone_page_state(NR_FREE_PAGES), which does not change while the code runs.
pub init_user_reserve : ℕ → Reserves → Reserves
init_user_reserve free r = record r { user_reserve_kbytes = min (kbytes free / 32) (2 ^ 17) }

pub init_admin_reserve : ℕ → Reserves → Reserves
init_admin_reserve free r = record r { admin_reserve_kbytes = min (kbytes free / 32) (2 ^ 13) }

online_user : ℕ → Reserves → Reserves
unfolding init_user_reserve
online_user free r =
    let tmp = r.user_reserve_kbytes in
    if ltb 0 tmp && ltb tmp (2 ^ 17) then init_user_reserve free r else r

online_admin : ℕ → Reserves → Reserves
unfolding init_admin_reserve
online_admin free r =
    let tmp = r.admin_reserve_kbytes in
    if ltb 0 tmp && ltb tmp (2 ^ 13) then init_admin_reserve free r else r

offline_user : ℕ → Reserves → Reserves
unfolding init_user_reserve
offline_user free r =
    if ltb (kbytes free) r.user_reserve_kbytes then init_user_reserve free r else r

offline_admin : ℕ → Reserves → Reserves
unfolding init_admin_reserve
offline_admin free r =
    if ltb (kbytes free) r.admin_reserve_kbytes then init_admin_reserve free r else r

pub reserve_mem_notifier : Action → ℕ → Reserves → Reserves
unfolding online_user online_admin offline_user offline_admin
reserve_mem_notifier mem_online free r = online_admin free (online_user free r)
reserve_mem_notifier mem_offline free r = offline_admin free (offline_user free r)
reserve_mem_notifier other free r = r

-- A reserve after an event, by its default maximum: one that stands at 0 or at its maximum and
-- above was chosen by the administrator, and only a loss of memory that leaves less than it takes
-- it back; one between follows the memory when some is added.
abbrev pub kept : Action → ℕ → ℕ → ℕ → ℕ
kept mem_online free top now = if ltb 0 now && ltb now top then min (kbytes free / 32) top else now
kept mem_offline free top now = if ltb (kbytes free) now then min (kbytes free / 32) top else now
kept other free top now = now

-- The notifier keeps both reserves by one rule, each with its own bound: after memory is added, a
-- reserve that is set and below its bound is computed anew; after memory is taken away, one that is
-- more than what is free is.
pub notifier-kept :
    (action : Action) (free : ℕ) (r : Reserves)
    → reserve_mem_notifier action free r ≡ record {
      user_reserve_kbytes = kept action free (2 ^ 17) r.user_reserve_kbytes;
      admin_reserve_kbytes = kept action free (2 ^ 13) r.admin_reserve_kbytes;
    }
unfolding reserve_mem_notifier
notifier-kept mem_online free r = ground arith
notifier-kept mem_offline free r = ground arith
notifier-kept other free r = ground arith

-- After memory is taken away neither reserve is more than what is free.
pub offline_fits :
    (free : ℕ) (r : Reserves)
    → let r' = reserve_mem_notifier mem_offline free r in
      (r'.user_reserve_kbytes ≤ kbytes free) × (r'.admin_reserve_kbytes ≤ kbytes free)
unfolding reserve_mem_notifier
offline_fits free r = ground arith
