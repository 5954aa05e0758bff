-- ===== src/Mm/Map.antt =====
-- mm/mmap.c, do_mmap: the checks that a new mapping passes before mmap_region makes it.
pub mod Checks
pub mod Entry
use vd2024_so2_private_code.Base.{
  ℕ, ◌+◌, ◌-◌, ◌*◌, ◌^◌, ◌≡◌, List, Option, none, some, Bool, true, false, not, ◌&&◌, ◌||◌, ltb,
  leb, ◌==◌, if◌then◌else◌, is_set, is_some, ℤ, pos, neg, is_neg, add64, sub64, shr_page,
  page_align, is_err_value, err64, bit_and, bit_or, eperm, ebadf, eagain, enomem, eacces, eexist,
  enodev, einval, etxtbsy, eoverflow, eopnotsupp,
}
use vd2024_so2_private_code.Base.State.{M, ◌>>=◌, ◌>>◌, ret, deref}
use vd2024_so2_private_code.Mm.Types.{
  Vma, MmStruct, Rlimits, has, complement, vm_exec, vm_shared, vm_mayread, vm_maywrite, vm_mayexec,
  vm_mayshare, vm_growsdown, vm_growsup, vm_locked, vm_noreserve,
}
use vd2024_so2_private_code.Mm.Tree.{VmaTree}
use vd2024_so2_private_code.Mm.Accounting.{
  FileKind, round_hint_to_min, mlock_future_ok, file_mmap_ok,
}
use vd2024_so2_private_code.Mm.Area.{
  Layout, AreaFunctions, GetArea, get_unmapped_area, find_vma_intersection, map_fixed, map_shared,
}
use vd2024_so2_private_code.Mm.Flags.{
  prot_read, prot_write, prot_exec, map_private, map_shared_validate, map_type, map_fixed_noreplace,
  map_locked, map_noreserve, map_populate, map_nonblock,
}

-- What the code asks of an open file; `huge_page_size` is for a file of huge pages.
pub record File : Type 0 where
  pub kind : FileKind
  pub fmode_read : Bool
  pub fmode_write : Bool
  pub path_noexec : Bool
  pub mmap_supported_flags : ℕ
  pub is_swapfile : Bool
  pub is_append : Bool
  pub has_mmap : Bool
  pub huge_page_size : Option ℕ
  pub file_get_unmapped_area : Option GetArea

-- What do_mmap takes from the process and from the rest of the kernel.
pub record MapEnv : Type 0 where
  pub mm : MmStruct
  pub tree : VmaTree
  pub layout : Layout
  pub areas : AreaFunctions
  pub rlimits : Rlimits
  pub read_implies_exec : Bool
  pub sysctl_max_map_count : ℕ
  pub execute_only_pkey : ℤ
  pub calc_vm_prot_bits : ℕ → ℤ → ℕ
  pub calc_vm_flag_bits : ℕ → ℕ
  pub can_do_mlock : Bool
  pub legacy_map_mask : ℕ
  pub overcommit_never : Bool

-- How the switch on the type of the mapping ends: in an error, or with the flags, the vm_flags and
-- the page offset to go on with.
pub data Checked : Type 0 where
  fails : ℕ → Checked
  passes : ℕ → ℕ → ℕ → Checked

-- Whether there is a file of huge pages.
pub is_file_hugepages : Option File → Bool
is_file_hugepages none = false
is_file_hugepages (some file) = is_some file.huge_page_size

unfoldable pub file_area : Option File → Option (Option GetArea)
file_area none = none
file_area (some file) = some file.file_get_unmapped_area

-- `case MAP_PRIVATE` of a file.
pub private_file : File → ℕ → ℕ → ℕ → Checked
private_file file flags vm_flags pgoff =
    if not file.fmode_read
    then fails eacces
    else (if file.path_noexec && has vm_flags vm_exec
        then fails eperm
        else (if not file.has_mmap
            then fails enodev
            else (let vm_flags' =
                  if file.path_noexec then bit_and vm_flags (complement vm_mayexec) else vm_flags in
                if has vm_flags' (bit_or vm_growsdown vm_growsup)
                then fails einval
                else passes flags vm_flags' pgoff)))

-- `case MAP_SHARED_VALIDATE` of a file, which falls through.
pub shared_file : ℕ → File → ℕ → ℕ → ℕ → ℕ → Checked
unfolding private_file
shared_file legacy_map_mask file prot flags vm_flags pgoff =
    let flags_mask = bit_or legacy_map_mask file.mmap_supported_flags in
    if has flags (complement flags_mask)
    then fails eopnotsupp
    else (if has prot prot_write && not file.fmode_write
        then fails eacces
        else (if has prot prot_write && file.is_swapfile
            then fails etxtbsy
            else (if file.is_append && file.fmode_write
                then fails eacces
                else (let shared = bit_or vm_flags (bit_or vm_shared vm_mayshare) in
                    private_file file flags
                      (if file.fmode_write
                        then shared
                        else bit_and shared (complement (bit_or vm_maywrite vm_shared)))
                      pgoff))))

-- `if (file)`
unfoldable pub file_checks : ℕ → File → ℕ → ℕ → ℕ → ℕ → ℕ → Checked
unfolding private_file shared_file
file_checks legacy_map_mask file len prot flags vm_flags pgoff =
    let type = bit_and flags map_type in
    if not (file_mmap_ok file.kind pgoff len)
    then fails eoverflow
    else (if type == map_shared
        then shared_file legacy_map_mask file prot (bit_and flags legacy_map_mask) vm_flags pgoff
        else (if type == map_shared_validate
            then shared_file legacy_map_mask file prot flags vm_flags pgoff
            else (if type == map_private
                then private_file file flags vm_flags pgoff
                else fails einval)))

pub anonymous_checks : ℕ → ℕ → ℕ → Checked
anonymous_checks addr flags vm_flags =
    let type = bit_and flags map_type in
    if type == map_shared
    then (if has vm_flags (bit_or vm_growsdown vm_growsup)
        then fails einval
        else passes flags (bit_or vm_flags (bit_or vm_shared vm_mayshare)) 0)
    else (if type == map_private then passes flags vm_flags (shr_page addr) else fails einval)

module _ (e : MapEnv) (file : Option File) where
  -- `if (flags & MAP_NORESERVE)`
  pub reserve : ℕ → ℕ → ℕ
  unfolding is_file_hugepages
  reserve flags vm_flags =
      if has flags map_noreserve && (not e.overcommit_never || is_file_hugepages file)
      then bit_or vm_flags vm_noreserve
      else vm_flags

  pub type_checks : ℕ → ℕ → ℕ → ℕ → ℕ → ℕ → Checked
  unfolding file_checks anonymous_checks
  type_checks addr len prot flags vm_flags pgoff = elim file [
    | none ↦ anonymous_checks addr flags vm_flags
    | some f ↦ file_checks e.legacy_map_mask f len prot flags vm_flags pgoff
  ]

  -- `prot` after READ_IMPLIES_EXEC.
  pub implied_prot : ℕ → ℕ
  implied_prot prot =
      if has prot prot_read && e.read_implies_exec
      then elim file [
        | none ↦ bit_or prot prot_exec
        | some f ↦ if f.path_noexec then prot else bit_or prot prot_exec
      ]
      else prot

  -- execute_only_pkey may also keep the key in `mm->context`, which nothing here reads.
  pub map_vm_flags : ℕ → ℕ → ℕ → ℕ
  map_vm_flags prot flags vm_flags =
      let pkey =
        if prot == prot_exec && not (is_neg e.execute_only_pkey)
        then e.execute_only_pkey
        else pos 0 in
      bit_or vm_flags (
        bit_or (bit_or (e.calc_vm_prot_bits prot pkey) (e.calc_vm_flag_bits flags))
          (bit_or e.mm.def_flags (bit_or vm_mayread (bit_or vm_maywrite vm_mayexec))))

  module _ {S : Type 0} (mmap_region : Option File → ℕ → ℕ → ℕ → ℕ → S → ℕ × S) where
    -- The address and what to populate.
    pub refuse_map : ℕ → M S (ℕ × ℕ)
    refuse_map error = ret (error, 0)

    pub make_region : ℕ → ℕ → Checked → M S (ℕ × ℕ)
    unfolding refuse_map reserve
    make_region addr len (fails error) s = refuse_map (err64 error) s
    make_region addr len (passes flags vm_flags pgoff) s =
        let vm_flags' = reserve flags vm_flags in
        let (mapped, s') = mmap_region file addr len vm_flags' pgoff s in
        let populate =
          not (is_err_value mapped)
          && (has vm_flags' vm_locked
              || (bit_and flags (bit_or map_populate map_nonblock) == map_populate)) in
        some ((mapped, if populate then len else 0), s')

    -- From the answer of get_unmapped_area on.
    pub map_at : ℕ → ℕ → ℕ → ℕ → ℕ → ℕ → M S (ℕ × ℕ)
    unfolding refuse_map map_vm_flags type_checks make_region
    map_at addr len prot flags vm_flags pgoff =
        if is_err_value addr
        then refuse_map addr
        else (if has flags map_fixed_noreplace
              && is_some (find_vma_intersection e.tree addr (add64 addr len))
            then refuse_map (err64 eexist)
            else (let vm_flags' = map_vm_flags prot flags vm_flags in
                if has flags map_locked && not e.can_do_mlock
                then refuse_map (err64 eperm)
                else (if not (mlock_future_ok e.rlimits e.mm vm_flags' len)
                    then refuse_map (err64 eagain)
                    else make_region addr len (type_checks addr len prot flags vm_flags' pgoff))))

    pub do_mmap : ℕ → ℕ → ℕ → ℕ → ℕ → ℕ → M S (ℕ × ℕ)
    unfolding refuse_map implied_prot map_at file_area
    do_mmap addr len prot flags vm_flags pgoff =
        let flags' = if has flags map_fixed_noreplace then bit_or flags map_fixed else flags in
        let hint =
          if has flags' map_fixed then addr else round_hint_to_min e.layout.mmap_min_addr addr in
        let size = page_align len in
        if len == 0
        then refuse_map (err64 einval)
        else (if size == 0
            then refuse_map (err64 enomem)
            else (if ltb (add64 pgoff (shr_page size)) pgoff
                then refuse_map (err64 eoverflow)
                else (if ltb e.sysctl_max_map_count e.mm.map_count
                    then refuse_map (err64 enomem)
                    else (do
                      given ← deref (
                          get_unmapped_area e.layout e.areas (file_area file) hint size pgoff
                            flags')
                      map_at given size (implied_prot prot) flags' vm_flags pgoff))))
