-- ===== src/Tamalloc/Tests.antt =====
-- The code of syscall_tamalloc.c at a concrete input, and its theorem there.
use vd2024_so2_private_code.Base.{◌≡◌, arith}
use vd2024_so2_private_code.Tamalloc.{VmMmap, matus_tamalloc, tamalloc_lem}

-- A `vm_mmap` that tells the length that it is asked for.
abbrev echo : VmMmap
echo = record { vm_mmap = λ addr len prot flags offset. len }

tamalloc_lem_example : matus_tamalloc echo 4097 ≡ 8192
tamalloc_lem_example = tamalloc_lem echo 4097 2 (omega arith) (omega arith) (omega arith)
