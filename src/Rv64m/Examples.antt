-- ===== src/Rv64m/Examples.antt =====
-- Runs of src/rv64core/inst/inst_rv64m.rs.
use riscv64_emu_rust.Base.{◌+◌, ◌-◌, ◌*◌, ◌%◌, ◌^◌, ◌≡◌, refl, arith}
use riscv64_emu_rust.Rv64m.{wrapping_div, wrapping_rem, div_at, rem_at, mulh, sext}
use riscv64_emu_rust.Rv64m.Laws.{div_at-rem_at}

-- -7 by 2.
div_rounds_to_zero : div_at 64 (2 ^ 64 - 7) 2 ≡ 2 ^ 64 - 3
unfolding div_at wrapping_div
div_rounds_to_zero = refl

rem_has_sign_of_dividend : rem_at 64 (2 ^ 64 - 7) 2 ≡ 2 ^ 64 - 1
unfolding rem_at wrapping_rem
rem_has_sign_of_dividend = refl

-- -1 times -1.
mulh_of_minus_ones : mulh (2 ^ 64 - 1) (2 ^ 64 - 1) ≡ 0
unfolding mulh sext
mulh_of_minus_ones = refl

div_at-rem_at_example :
    (div_at 32 0x80000000 0xffffffff * 0xffffffff + rem_at 32 0x80000000 0xffffffff) % 2 ^ 32
    ≡ 0x80000000
div_at-rem_at_example =
    div_at-rem_at 32 0x80000000 0xffffffff (omega arith) (omega arith) (omega arith)
