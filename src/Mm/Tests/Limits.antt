-- ===== src/Mm/Tests/Limits.antt =====
-- The accounting of mm/mmap.c at concrete inputs, and its theorems there.
use vd2024_so2_private_code.Base.{◌+◌, ◌*◌, ◌^◌, ◌≤◌, ◌≡◌, ◌⊎◌, refl, arith, true, false}
use vd2024_so2_private_code.Mm.Accounting.{may_expand_vm}
use vd2024_so2_private_code.Mm.Accounting.Limits.{expand_within}
use vd2024_so2_private_code.Mm.Tests.{counters, rlimits, kinds}

may_expand : may_expand_vm kinds rlimits counters 2 5 ≡ true
unfolding may_expand_vm
may_expand = refl

expand_within_example :
    ((10 + 5) * 4096 ≤ 2 ^ 30)
    × ((kinds.is_data_mapping 2 ≡ false)
        ⊎ ((4 + 5) * 4096 ≤ 2 ^ 20)
        ⊎ ((2 ^ 20 ≡ 0) × ((4 + 5) * 4096 ≤ 2 ^ 20)))
expand_within_example =
    expand_within kinds rlimits counters 2 5 (omega arith) (omega arith) refl may_expand
