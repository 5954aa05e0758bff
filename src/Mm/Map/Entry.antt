-- ===== src/Mm/Map/Entry.antt =====
-- mm/mmap.c, ksys_mmap_pgoff with the check of main.c, and the system calls on it.
pub mod Answer
use vd2024_so2_private_code.Base.{
  ℕ, zero, suc, ◌+◌, ◌-◌, ◌*◌, ◌/◌, ◌%◌, ◌^◌, ◌≡◌, Option, none, some, Bool, true, false, not, ◌&&◌,
  if◌then◌else◌, is_set, add64, sub64, shr_page, offset_in_page, err64, ℤ, bit_and, ebadf, enomem,
  einval, efault,
}
use vd2024_so2_private_code.Base.State.{M, ◌>>=◌, ◌>>◌, ret, gets, puts, deref}
use vd2024_so2_private_code.Limits.{Env, Kernel, is_request_accepted}
use vd2024_so2_private_code.Mm.Types.{has, complement}
use vd2024_so2_private_code.Mm.Map.{File, is_file_hugepages}

abbrev pub map_anonymous : ℕ
map_anonymous = 0x20

abbrev pub map_hugetlb : ℕ
map_hugetlb = 0x40000

-- MAP_HUGE_SHIFT is 26 and MAP_HUGE_MASK 0x3f.
abbrev pub huge_size : ℕ → ℕ
huge_size flags = bit_and (flags / 2 ^ 26) 0x3f

-- ALIGN(len, size)
abbrev pub align : ℕ → ℕ → ℕ
align len size = bit_and (add64 len (sub64 size 1)) (complement (sub64 size 1))

-- The limits of main.c, the references to files that the call holds, and the address space, which
-- only vm_mmap_pgoff changes.
pub record MapState (S : Type 0) : Type 0 where
  pub kernel : Kernel
  pub files : ℕ
  pub space : S

-- A file of hugetlb_file_setup, or its error as a word.
pub data Setup : Type 0 where
  made : File → Setup
  refused : ℕ → Setup

-- What the calls take from the rest of the kernel. `vm_mmap_pgoff` of mm/util.c calls do_mmap.
pub record EntryEnv (S : Type 0) : Type 0 where
  pub usac : Env
  pub pid : ℤ
  pub fget : ℕ → Option File
  pub hstate_sizelog : ℕ → Option ℕ
  pub hugetlb_file_setup : ℕ → ℕ → Setup
  pub vm_mmap_pgoff : Option File → ℕ → ℕ → ℕ → ℕ → ℕ → S → ℕ × S

-- `struct mmap_arg_struct`
pub record MmapArgStruct : Type 0 where
  pub addr : ℕ
  pub len : ℕ
  pub prot : ℕ
  pub flags : ℕ
  pub fd : ℕ
  pub offset : ℕ

module _ {S : Type 0} (e : EntryEnv S) where
  pub get_file : M (MapState S) (Unit {0})
  get_file = puts (λ s. record s { files = suc s.files })

  -- A reference that is not held is not given back.
  pub fput : Option File → M (MapState S) (Unit {0})
  fput none s = some (tt, s)
  fput (some file) s = elim s.files [ zero ↦ none | suc n ↦ some (tt, record s { files = n }) ]

  -- `out_fput:`
  pub out_fput : Option File → ℕ → M (MapState S) ℕ
  unfolding fput
  out_fput file retval = do fput file; ret retval

  pub with_limits : {A : Type 0} → M Kernel A → M (MapState S) A
  with_limits m s = elim (m s.kernel) [
    | none ↦ none
    | some (a, kernel) ↦ some (a, record s { kernel = kernel })
  ]

  pub map_accepted : Option File → ℕ → ℕ → ℕ → ℕ → ℕ → Bool → M (MapState S) ℕ
  unfolding out_fput
  map_accepted file addr len prot flags pgoff accepted s = elim accepted [
    | false ↦ out_fput file (err64 enomem) s
    | true ↦
        let (retval, space) = e.vm_mmap_pgoff file addr len prot flags pgoff s.space in
        out_fput file retval (record s { space = space })
  ]

  -- From the check of main.c on.
  pub check_and_map : Option File → ℕ → ℕ → ℕ → ℕ → ℕ → M (MapState S) ℕ
  unfolding with_limits map_accepted
  check_and_map file addr len prot flags pgoff = do
    accepted ← with_limits (is_request_accepted e.usac e.pid len)
    map_accepted file addr len prot flags pgoff accepted

  pub map_file : Option File → ℕ → ℕ → ℕ → ℕ → ℕ → M (MapState S) ℕ
  unfolding get_file out_fput check_and_map
  map_file none addr len prot flags pgoff = ret (err64 ebadf)
  map_file (some file) addr len prot flags pgoff = do
    get_file
    elim file.huge_page_size [
      | some size ↦ check_and_map (some file) addr (align len size) prot flags pgoff
      | none ↦
          if has flags map_hugetlb
          then out_fput (some file) (err64 einval)
          else check_and_map (some file) addr len prot flags pgoff
    ]

  pub map_huge : Setup → ℕ → ℕ → ℕ → ℕ → ℕ → M (MapState S) ℕ
  unfolding get_file check_and_map
  map_huge (refused error) addr len prot flags pgoff = ret error
  map_huge (made file) addr len prot flags pgoff = do
    get_file
    check_and_map (some file) addr len prot flags pgoff

  pub ksys_mmap_pgoff : ℕ → ℕ → ℕ → ℕ → ℕ → ℕ → M (MapState S) ℕ
  unfolding check_and_map map_file map_huge
  ksys_mmap_pgoff addr len prot flags fd pgoff =
      if not (has flags map_anonymous)
      then map_file (e.fget fd) addr len prot flags pgoff
      else (if has flags map_hugetlb
          then elim (e.hstate_sizelog (huge_size flags)) [
            | none ↦ ret (err64 einval)
            | some size ↦
                let len' = align len size in
                map_huge (e.hugetlb_file_setup len' (huge_size flags)) addr len' prot flags pgoff
          ]
          else check_and_map none addr len prot flags pgoff)

  pub mmap_pgoff : ℕ → ℕ → ℕ → ℕ → ℕ → ℕ → M (MapState S) ℕ
  unfolding ksys_mmap_pgoff
  mmap_pgoff addr len prot flags fd pgoff = ksys_mmap_pgoff addr len prot flags fd pgoff

  -- `none` is an argument that cannot be copied.
  pub old_mmap : Option MmapArgStruct → M (MapState S) ℕ
  unfolding ksys_mmap_pgoff
  old_mmap none = ret (err64 efault)
  old_mmap (some a) =
      if is_set (offset_in_page a.offset)
      then ret (err64 einval)
      else ksys_mmap_pgoff a.addr a.len a.prot a.flags a.fd (shr_page a.offset)
