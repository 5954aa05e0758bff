-- ===== src/Mm/Map/Checks.antt =====
-- What do_mmap of mm/mmap.c has checked when it makes a mapping.
use vd2024_so2_private_code.Base.{
  ℕ, ◌+◌, ◌%◌, ◌^◌, ◌≤◌, ◌<◌, ◌≡◌, ◌⊎◌, inl, inr, refl, arith, Option, none, some, Bool, true,
  false, not, ◌&&◌, ◌||◌, ◌==◌, if◌then◌else◌, is_set, is_some, page_align, is_err_value, bit_and,
  bit_or,
}
use vd2024_so2_private_code.Mm.Types.{has, complement, vm_exec}
use vd2024_so2_private_code.Mm.Accounting.{file_mmap_ok, round_hint_to_min}
use vd2024_so2_private_code.Mm.Area.{choose_area}
use vd2024_so2_private_code.Mm.Area.Answer.{get_unmapped_area-checked, get_unmapped_area-some}
use vd2024_so2_private_code.Mm.Map.{
  File, MapEnv, Checked, fails, passes, private_file, shared_file, file_checks, anonymous_checks,
  reserve, type_checks, implied_prot, map_vm_flags, refuse_map, make_region, map_at, file_area,
  do_mmap,
}
use vd2024_so2_private_code.Mm.Flags.{
  map_fixed_noreplace, map_type, map_shared_validate, prot_write,
}
use vd2024_so2_private_code.Mm.Area.{map_shared, map_fixed}

-- A shared type of mapping.
abbrev pub is_shared : ℕ → Bool
is_shared flags =
    bit_and flags map_type == map_shared || (bit_and flags map_type == map_shared_validate)

private_file-passes :
    (file : File) (flags vm_flags pgoff flags' vm_flags' pgoff' : ℕ)
    → private_file file flags vm_flags pgoff ≡ passes flags' vm_flags' pgoff'
    → (file.fmode_read ≡ true)
      × (file.has_mmap ≡ true)
      × ((file.path_noexec && has vm_flags vm_exec) ≡ false)
      × (pgoff' ≡ pgoff)
unfolding private_file
private_file-passes file flags vm_flags pgoff flags' vm_flags' pgoff' h = ground arith

shared_file-passes :
    (mask : ℕ) (file : File) (prot flags vm_flags pgoff flags' vm_flags' pgoff' : ℕ)
    → shared_file mask file prot flags vm_flags pgoff ≡ passes flags' vm_flags' pgoff'
    → (file.fmode_read ≡ true)
      × (file.has_mmap ≡ true)
      × ((has prot prot_write && not file.fmode_write) ≡ false)
      × ((has prot prot_write && file.is_swapfile) ≡ false)
      × ((file.is_append && file.fmode_write) ≡ false)
      × (pgoff' ≡ pgoff)
unfolding shared_file
shared_file-passes mask file prot flags vm_flags pgoff flags' vm_flags' pgoff' h =
    let shared = bit_or vm_flags (bit_or 8 0x80) in
    ground (
      arith,
      private_file-passes file flags shared pgoff flags' vm_flags' pgoff',
      private_file-passes file flags (bit_and shared (complement (bit_or 0x20 8))) pgoff flags'
          vm_flags' pgoff',
    )

-- A mapping of a file that passes the checks is of a file that is open for reading and can be
-- mapped, and its range fits the file. If it is shared it does not write to a file that is not
-- open for writing or is swapped to, nor is the file both appended to and open for writing.
pub file_checks-passes :
    (mask : ℕ) (file : File) (len prot flags vm_flags pgoff flags' vm_flags' pgoff' : ℕ)
    → file_checks mask file len prot flags vm_flags pgoff ≡ passes flags' vm_flags' pgoff'
    → (file.fmode_read ≡ true)
      × (file.has_mmap ≡ true)
      × (file_mmap_ok file.kind pgoff len ≡ true)
      × ((is_shared flags && has prot prot_write && not file.fmode_write) ≡ false)
      × ((is_shared flags && has prot prot_write && file.is_swapfile) ≡ false)
      × ((is_shared flags && file.is_append && file.fmode_write) ≡ false)
      × (pgoff' ≡ pgoff)
unfolding file_checks
file_checks-passes mask file len prot flags vm_flags pgoff flags' vm_flags' pgoff' h = ground (
  arith,
  private_file-passes file flags vm_flags pgoff flags' vm_flags' pgoff',
  shared_file-passes mask file prot flags vm_flags pgoff flags' vm_flags' pgoff',
  shared_file-passes mask file prot (bit_and flags mask) vm_flags pgoff flags' vm_flags' pgoff',
)

-- An error number of a check.
abbrev IsErrno : Checked → Type 0
IsErrno (fails error) = (0 < error) × (error < 4096)
IsErrno (passes flags vm_flags pgoff) = Unit {0}

private_file-IsErrno :
    (file : File) (flags vm_flags pgoff : ℕ) → IsErrno (private_file file flags vm_flags pgoff)
unfolding private_file
private_file-IsErrno file flags vm_flags pgoff = ground arith

shared_file-IsErrno :
    (mask : ℕ) (file : File) (prot flags vm_flags pgoff : ℕ)
    → IsErrno (shared_file mask file prot flags vm_flags pgoff)
unfolding shared_file
shared_file-IsErrno mask file prot flags vm_flags pgoff =
    let shared = bit_or vm_flags (bit_or 8 0x80) in
    ground (
      arith,
      private_file-IsErrno file flags shared pgoff,
      private_file-IsErrno file flags (bit_and shared (complement (bit_or 0x20 8))) pgoff,
    )

file_checks-IsErrno :
    (mask : ℕ) (file : File) (len prot flags vm_flags pgoff : ℕ)
    → IsErrno (file_checks mask file len prot flags vm_flags pgoff)
unfolding file_checks
file_checks-IsErrno mask file len prot flags vm_flags pgoff = ground (
  arith,
  private_file-IsErrno file flags vm_flags pgoff,
  shared_file-IsErrno mask file prot flags vm_flags pgoff,
  shared_file-IsErrno mask file prot (bit_and flags mask) vm_flags pgoff,
)

type_checks-IsErrno :
    (e : MapEnv) (file : Option File) (addr len prot flags vm_flags pgoff : ℕ)
    → IsErrno (type_checks e file addr len prot flags vm_flags pgoff)
unfolding type_checks anonymous_checks
type_checks-IsErrno e none addr len prot flags vm_flags pgoff = ground arith
type_checks-IsErrno e (some f) addr len prot flags vm_flags pgoff =
    file_checks-IsErrno e.legacy_map_mask f len prot flags vm_flags pgoff

-- A call that refuses: an error number, and the state as it was.
abbrev pub Refuses : {S : Type 0} → S → Option ((ℕ × ℕ) × S) → Type 0
Refuses s none = ⊥
Refuses s (some ((error, populate), s')) = (is_err_value error ≡ true) × (populate ≡ 0) × (s' ≡ s)

module _ (e : MapEnv) (file : Option File) {S : Type 0}
    (mmap_region : Option File → ℕ → ℕ → ℕ → ℕ → S → ℕ × S) where
  -- A call that makes a region at an address, for some flags and page offset.
  abbrev Makes : ℕ → ℕ → S → Option ((ℕ × ℕ) × S) → Type 0
  Makes addr len s result =
      (vm_flags : ℕ) × (pgoff : ℕ) × (populate : ℕ) × (result ≡ (
        let (mapped, s') = mmap_region file addr len vm_flags pgoff s in
        some ((mapped, populate), s')))

  make_region-Ends :
      (addr len : ℕ) (c : Checked) (s : S)
      → IsErrno c
      → Refuses s (make_region e file mmap_region addr len c s)
        ⊎ Makes addr len s (make_region e file mmap_region addr len c s)
  unfolding make_region refuse_map
  make_region-Ends addr len (fails error) s h = inl (ground arith, refl, refl)
  make_region-Ends addr len (passes flags vm_flags pgoff) s h =
      inr (reserve e file flags vm_flags, pgoff, _, refl)

  abbrev Maps : ℕ → ℕ → S → Option ((ℕ × ℕ) × S) → Type 0
  Maps addr len s result = Refuses s result ⊎ Makes addr len s result

  map_at-Ends :
      (addr len prot flags vm_flags pgoff : ℕ) (s : S)
      → Maps addr len s (map_at e file mmap_region addr len prot flags vm_flags pgoff s)
  unfolding map_at refuse_map
  map_at-Ends addr len prot flags vm_flags pgoff s =
      let vm = map_vm_flags e file prot flags vm_flags in
      let c = type_checks e file addr len prot flags vm pgoff in
      let ok = type_checks-IsErrno e file addr len prot flags vm pgoff in
      ground (arith, make_region-Ends addr len c s ok)

  -- The same, or a region at a whole page that lies within the address space of the task.
  abbrev pub MapsChecked : ℕ → S → Option ((ℕ × ℕ) × S) → Type 0
  MapsChecked len s result =
      Refuses s result
      ⊎ ((given : ℕ) × (given % 4096 ≡ 0)
          × (0 < page_align len)
          × (given + page_align len ≤ e.layout.task_size)
          × Makes given (page_align len) s result)

  -- do_mmap either refuses, with an error number, nothing to populate and the state as it was, or
  -- it makes a region at a whole page, whose whole pages lie within the address space of the task.
  -- The hooks of the architecture and of the security modules answer 0 or an error number, the
  -- function that chooses the address answers, and the address space is below 2 ^ 63.
  pub do_mmap-maps :
      (addr len prot flags vm_flags pgoff : ℕ) (s : S)
      → e.layout.task_size < 2 ^ 63
      → ((a : ℕ)
          → is_set (e.layout.security_mmap_addr a) ≡ true
          → is_err_value (e.layout.security_mmap_addr a) ≡ true)
      → ((a n f : ℕ)
          → is_set (e.layout.arch_mmap_check a n f) ≡ true
          → is_err_value (e.layout.arch_mmap_check a n f) ≡ true)
      → ((a n o f : ℕ)
          → (given : ℕ) × (choose_area e.areas (file_area file) f a n o f ≡ some given))
      → MapsChecked len s (do_mmap e file mmap_region addr len prot flags vm_flags pgoff s)
  unfolding do_mmap refuse_map
  do_mmap-maps addr len prot flags vm_flags pgoff s small security arch total =
      let flags' = if has flags map_fixed_noreplace then bit_or flags map_fixed else flags in
      let hint =
        if has flags' map_fixed then addr else round_hint_to_min e.layout.mmap_min_addr addr in
      let size = page_align len in
      let p = if is_some (file_area file) then pgoff else 0 in
      let (a, chosen) = total hint size p flags' in
      let (given, found) =
        get_unmapped_area-some e.layout e.areas (file_area file) hint size pgoff flags' a chosen in
      let checked =
        get_unmapped_area-checked e.layout e.areas (file_area file) hint size pgoff flags' given
          small security arch found in
      ground (
        arith,
        found,
        checked,
        map_at-Ends given size (implied_prot e file prot) flags' vm_flags pgoff s,
      )
