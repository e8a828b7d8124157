-- ===== src/Rv64i/Alu.antt =====
-- The register-register and register-immediate instructions of src/rv64core/inst/inst_rv64i.rs.
use riscv64_emu_rust.Base.{
  Bool, true, false, Option, some, ◌>>=◌, assert, to_nat, if◌then◌else◌, ℕ, ◌+◌, ◌-◌, ◌*◌, ◌/◌, ◌%◌,
  ◌^◌, ltb, bit_and, bit_or, bit_xor,
}
use riscv64_emu_rust.Gpr.{Gpr, read, write}
use riscv64_emu_rust.Rv64m.{sext, is_neg, parse_format_r}
use riscv64_emu_rust.Rv64i.{parse_format_i, signed_lt}

unfoldable pub add : ℕ → ℕ → ℕ
add a b = (a + b) % 2 ^ 64

unfoldable pub sub : ℕ → ℕ → ℕ
sub a b = (a + 2 ^ 64 - b) % 2 ^ 64

-- `as i32 as i64 as u64`.
unfoldable pub sext_word : ℕ → ℕ
unfolding sext
sext_word x = sext 32 64 (x % 2 ^ 32)

-- The arithmetic shift to the right, of `w` bits.
unfoldable pub shift_right_signed : ℕ → ℕ → ℕ → ℕ
shift_right_signed w x s = if is_neg w x then 2 ^ w - 1 - (2 ^ w - 1 - x) / 2 ^ s else x / 2 ^ s

pub data Op : Type 0 where
  op_addi op_slti op_sltiu op_xori op_ori op_andi op_slli op_srli op_srai : Op
  op_addiw op_slliw op_srliw op_sraiw : Op
  op_add op_sub op_sll op_slt op_sltu op_xor op_srl op_sra op_or op_and : Op
  op_addw op_subw op_sllw op_srlw op_sraw : Op

-- Whether the second operand is a register.
abbrev pub is_register : Op → Bool
is_register op_addi = false
is_register op_slti = false
is_register op_sltiu = false
is_register op_xori = false
is_register op_ori = false
is_register op_andi = false
is_register op_slli = false
is_register op_srli = false
is_register op_srai = false
is_register op_addiw = false
is_register op_slliw = false
is_register op_srliw = false
is_register op_sraiw = false
is_register _ = true

-- The value that is written back. A shift by the whole immediate panics where that is the width or
-- more; the other shifts mask their amount.
unfoldable pub alu : Op → ℕ → ℕ → Option ℕ
unfolding add sub sext_word shift_right_signed signed_lt
alu op_addi a b = some (add a b)
alu op_slti a b = some (to_nat (signed_lt a b))
alu op_sltiu a b = some (to_nat (ltb a b))
alu op_xori a b = some (bit_xor a b)
alu op_ori a b = some (bit_or a b)
alu op_andi a b = some (bit_and a b)
alu op_slli a b = some (a * 2 ^ bit_and b 0x3f % 2 ^ 64)
alu op_srli a b = some (a / 2 ^ bit_and b 0x3f)
alu op_srai a b = some (shift_right_signed 64 a (bit_and b 0x3f))
alu op_addiw a b = some (sext_word (add a b))
alu op_slliw a b = assert (ltb b 64) (some (sext_word (a * 2 ^ b % 2 ^ 64)))
alu op_srliw a b = assert (ltb b 32) (some (sext_word (a % 2 ^ 32 / 2 ^ b)))
alu op_sraiw a b = some (sext_word (shift_right_signed 32 (a % 2 ^ 32) (bit_and b 0x1f)))
alu op_add a b = some (add a b)
alu op_sub a b = some (sub a b)
alu op_sll a b = some (a * 2 ^ (b % 2 ^ 32 % 64) % 2 ^ 64)
alu op_slt a b = some (to_nat (signed_lt a b))
alu op_sltu a b = some (to_nat (ltb a b))
alu op_xor a b = some (bit_xor a b)
alu op_srl a b = some (a / 2 ^ (b % 2 ^ 32 % 64))
alu op_sra a b = some (shift_right_signed 64 a (b % 2 ^ 32 % 64))
alu op_or a b = some (bit_or a b)
alu op_and a b = some (bit_and a b)
alu op_addw a b = some (sext_word (add a b))
alu op_subw a b = some (sext_word (sub a b))
alu op_sllw a b = some (sext_word (a * 2 ^ bit_and b 0x1f % 2 ^ 64))
alu op_srlw a b = some (sext_word (a % 2 ^ 32 / 2 ^ bit_and b 0x1f))
alu op_sraw a b = some (sext_word (shift_right_signed 32 (a % 2 ^ 32) (bit_and b 0x1f)))

unfoldable pub execute_register : Op → ℕ → Gpr → Option Gpr
execute_register op inst gpr = do
  rs1 ← read (parse_format_r inst).rs1 gpr
  rs2 ← read (parse_format_r inst).rs2 gpr
  wb_value ← alu op rs1 rs2
  write (parse_format_r inst).rd wb_value gpr

unfoldable pub execute_immediate : Op → ℕ → Gpr → Option Gpr
execute_immediate op inst gpr = do
  rs1 ← read (parse_format_i inst).rs1 gpr
  wb_value ← alu op rs1 ((parse_format_i inst).imm)
  write (parse_format_i inst).rd wb_value gpr

unfoldable pub execute : Op → ℕ → Gpr → Option Gpr
unfolding execute_register execute_immediate
execute op inst gpr =
    if is_register op then execute_register op inst gpr else execute_immediate op inst gpr
