-- ===== src/Mm/Map/Entry/Answer.antt =====
-- What the limits of main.c make of mmap, and that it gives its files back.
use vd2024_so2_private_code.Base.{
  ℕ, suc, ◌≡◌, inl, inr, refl, arith, Option, none, some, Bool, true, false, if◌then◌else◌, err64,
  enomem, Option-cases,
}
use vd2024_so2_private_code.Limits.{Kernel, is_request_accepted}
use vd2024_so2_private_code.Limits.Table.{lookup}
use vd2024_so2_private_code.Limits.Access.{accepts, is_request_accepted_lem}
use vd2024_so2_private_code.Mm.Types.{has}
use vd2024_so2_private_code.Mm.Map.{File}
use vd2024_so2_private_code.Mm.Map.Entry.{
  MapState, Setup, made, refused, EntryEnv, get_file, fput, out_fput, with_limits, map_accepted,
  check_and_map, map_file, map_huge, ksys_mmap_pgoff, map_anonymous, map_hugetlb, align, huge_size,
}

-- A call ends with as many references to files as before and the same limits.
abbrev pub Balanced : {S : Type 0} → Kernel → ℕ → Option (ℕ × MapState S) → Type 0
Balanced kernel files none = ⊥
Balanced kernel files (some (r, s)) = (s.files ≡ files) × (s.kernel ≡ kernel)

-- The references that a call holds for a file.
abbrev held : Option File → ℕ → ℕ
held none n = n
held (some file) n = suc n

module _ {S : Type 0} (e : EntryEnv S) where
  abbrev decision : ℕ → MapState S → Bool
  decision len s = accepts len (lookup e.pid s.kernel.memory_list) (e.usac.find_task_by_vpid e.pid)

  with_limits_lem :
      (len : ℕ) (s : MapState S)
      → s.kernel.memory_list_mutex ≡ false
      → with_limits e (is_request_accepted e.usac e.pid len) s ≡ some (decision len s, s)
  unfolding with_limits
  with_limits_lem len s h =
      rw (with_limits, is_request_accepted_lem e.usac e.pid len s.kernel h) refl

  out_fput-Balanced :
      (file : Option File) (retval files : ℕ) (s : MapState S)
      → s.files ≡ held file files
      → Balanced s.kernel files (out_fput e file retval s)
  unfolding out_fput fput
  out_fput-Balanced none retval files s h = ground arith
  out_fput-Balanced (some file) retval files s h = ground arith

  check_and_map-Balanced :
      (file : Option File) (addr len prot flags pgoff files : ℕ) (s : MapState S)
      → s.kernel.memory_list_mutex ≡ false
      → s.files ≡ held file files
      → Balanced s.kernel files (check_and_map e file addr len prot flags pgoff s)
  unfolding check_and_map map_accepted
  check_and_map-Balanced file addr len prot flags pgoff files s m h =
      let (retval, space) = e.vm_mmap_pgoff file addr len prot flags pgoff s.space in
      ground (
        arith,
        with_limits_lem len s m,
        out_fput-Balanced file (err64 enomem) files s h,
        out_fput-Balanced file retval files (record s { space = space }) h,
      )

  map_file-Balanced :
      (file : Option File) (addr len prot flags pgoff : ℕ) (s : MapState S)
      → s.kernel.memory_list_mutex ≡ false
      → Balanced s.kernel s.files (map_file e file addr len prot flags pgoff s)
  unfolding map_file get_file
  map_file-Balanced none addr len prot flags pgoff s m = (refl, refl)
  map_file-Balanced (some file) addr len prot flags pgoff s m =
      let s' = record s { files = suc s.files } in
      elim (Option-cases file.huge_page_size) [
        | inl small ↦ ground (
          arith,
          out_fput-Balanced (some file) (err64 22) s.files s' refl,
          check_and_map-Balanced (some file) addr len prot flags pgoff s.files s' m refl,
        )
        | inr (size, huge) ↦ ground (
          arith,
          check_and_map-Balanced (some file) addr (align len size) prot flags pgoff s.files s' m
              refl,
        )
      ]

  map_huge-Balanced :
      (setup : Setup) (addr len prot flags pgoff : ℕ) (s : MapState S)
      → s.kernel.memory_list_mutex ≡ false
      → Balanced s.kernel s.files (map_huge e setup addr len prot flags pgoff s)
  unfolding map_huge get_file
  map_huge-Balanced (refused error) addr len prot flags pgoff s m = (refl, refl)
  map_huge-Balanced (made file) addr len prot flags pgoff s m =
      let s' = record s { files = suc s.files } in
      check_and_map-Balanced (some file) addr len prot flags pgoff s.files s' m refl

  -- With the mutex of main.c free mmap returns, and on each way out it has given back the references to files that it took, and
  -- the limits are as they were.
  pub ksys_mmap_pgoff-Balanced :
      (addr len prot flags fd pgoff : ℕ) (s : MapState S)
      → s.kernel.memory_list_mutex ≡ false
      → Balanced s.kernel s.files (ksys_mmap_pgoff e addr len prot flags fd pgoff s)
  unfolding ksys_mmap_pgoff
  ksys_mmap_pgoff-Balanced addr len prot flags fd pgoff s m =
      elim (Option-cases (e.hstate_sizelog (huge_size flags))) [
        | inl unknown ↦ ground (
          arith,
          map_file-Balanced (e.fget fd) addr len prot flags pgoff s m,
          check_and_map-Balanced none addr len prot flags pgoff s.files s m refl,
        )
        | inr (size, known) ↦
            let setup = e.hugetlb_file_setup (align len size) (huge_size flags) in
            ground (
              arith,
              map_file-Balanced (e.fget fd) addr len prot flags pgoff s m,
              map_huge-Balanced setup addr (align len size) prot flags pgoff s m,
              check_and_map-Balanced none addr len prot flags pgoff s.files s m refl,
            )
      ]

  -- Anonymous memory in pages of the normal size is mapped when main.c accepts the length, and
  -- only then; otherwise mmap returns -ENOMEM and changes nothing.
  pub ksys_mmap_pgoff-decided :
      (addr len prot flags fd pgoff : ℕ) (s : MapState S)
      → s.kernel.memory_list_mutex ≡ false
      → has flags map_anonymous ≡ true
      → has flags map_hugetlb ≡ false
      → ksys_mmap_pgoff e addr len prot flags fd pgoff s ≡ (
          let (retval, space) = e.vm_mmap_pgoff none addr len prot flags pgoff s.space in
          if accepts len (lookup e.pid s.kernel.memory_list) (e.usac.find_task_by_vpid e.pid)
          then some (retval, record s { space = space })
          else some (err64 enomem, s))
  unfolding ksys_mmap_pgoff check_and_map map_accepted out_fput fput
  ksys_mmap_pgoff-decided addr len prot flags fd pgoff s m anonymous normal =
      ground (arith, with_limits_lem len s m)

  -- A file of pages of the normal size that main.c refuses: -ENOMEM, and the reference that fget
  -- took is given back.
  pub ksys_mmap_pgoff-denied :
      (addr len prot flags fd pgoff : ℕ) (file : File) (s : MapState S)
      → s.kernel.memory_list_mutex ≡ false
      → has flags map_anonymous ≡ false
      → has flags map_hugetlb ≡ false
      → e.fget fd ≡ some file
      → file.huge_page_size ≡ none
      → accepts len (lookup e.pid s.kernel.memory_list) (e.usac.find_task_by_vpid e.pid) ≡ false
      → ksys_mmap_pgoff e addr len prot flags fd pgoff s ≡ some (err64 enomem, s)
  unfolding ksys_mmap_pgoff map_file get_file check_and_map map_accepted out_fput fput
  ksys_mmap_pgoff-denied addr len prot flags fd pgoff file s m named normal open_file small denied =
      ground (arith, with_limits_lem len (record s { files = suc s.files }) m)
