-- ===== src/Rv64i/Examples.antt =====
-- Runs of src/rv64core/inst/inst_rv64i.rs.
use riscv64_emu_rust.Base.{true, false, some, none, ◌^◌, ◌-◌, ◌≡◌, refl}
use riscv64_emu_rust.Gpr.{new, read}
use riscv64_emu_rust.Trap.{instruction_address_misaligned}
use riscv64_emu_rust.Rv64m.{sext}
use riscv64_emu_rust.Rv64i.{
  parse_format_b, signed_lt, taken, cond_blt, cond_beq, branch, jump_to, trapped,
}
use riscv64_emu_rust.Rv64i.Alu.{op_sraw, op_slliw, alu, sext_word, shift_right_signed}

minus_one_is_less : taken cond_blt (2 ^ 64 - 1) 0 ≡ true
unfolding taken signed_lt
minus_one_is_less = refl

-- -8 shifted by 1 is -4.
shift_keeps_sign : alu op_sraw (2 ^ 32 - 8) 1 ≡ some (2 ^ 64 - 4)
unfolding alu sext_word sext shift_right_signed
shift_keeps_sign = refl

slliw_panics : alu op_slliw 1 64 ≡ none
unfolding alu
slliw_panics = refl

-- BEQ x0, x0, -2 without the extension C.
branch_traps :
    branch cond_beq false 0xfe000fe3 0x1000 0x1004 new
    ≡ some (trapped (instruction_address_misaligned 0xffe))
unfolding branch parse_format_b taken jump_to read new sext
branch_traps = refl
