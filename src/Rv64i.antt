-- ===== src/Rv64i.antt =====
-- The arithmetic, the branches and the jumps of src/rv64core/inst/inst_rv64i.rs, and the formats of
-- src/rv64core/inst/inst_base.rs that they decode. A register is a number below 2 ^ 64, and a signed
-- integer the number with the same bits. `none` is a panic: a register out of range, or a shift by
-- the width or more.
pub mod Alu
pub mod Laws
pub mod Immediate
mod Examples
use riscv64_emu_rust.Base.{
  Bool, true, false, not, ◌&&◌, Option, none, some, ◌>>=◌, if◌then◌else◌, ℕ, ◌+◌, ◌-◌, ◌*◌, ◌/◌,
  ◌%◌, ◌^◌, ◌==◌, ltb, bit_and, bit_or,
}
use riscv64_emu_rust.Gpr.{Gpr, read, write}
use riscv64_emu_rust.Trap.{TrapType, instruction_address_misaligned}
use riscv64_emu_rust.Rv64m.{sext, is_neg, FormatR, parse_format_r}

-- The bits of the sign, where bit 31 is up.
abbrev pub sign_bits : ℕ → ℕ → ℕ
sign_bits word mask = if bit_and word 0x80000000 == 0x80000000 then mask else 0

pub record FormatI : Type 0 where
  pub rd : ℕ
  pub rs1 : ℕ
  pub imm : ℕ

unfoldable pub parse_format_i : ℕ → FormatI
parse_format_i word = record {
  rd = bit_and (word / 2 ^ 7) 0x1f;
  rs1 = bit_and (word / 2 ^ 15) 0x1f;
  imm = sext 32 64 (bit_or (sign_bits word 0xfffff800) (bit_and (word / 2 ^ 20) 0x7ff));
}

pub record FormatB : Type 0 where
  pub rs1 : ℕ
  pub rs2 : ℕ
  pub imm : ℕ

-- `word << 4` drops the bits that leave the word.
unfoldable pub parse_format_b : ℕ → FormatB
parse_format_b word = record {
  rs1 = bit_and (word / 2 ^ 15) 0x1f;
  rs2 = bit_and (word / 2 ^ 20) 0x1f;
  imm = sext 32 64 (
      bit_or
        (bit_or (bit_or (sign_bits word 0xfffff000) (bit_and (word * 2 ^ 4 % 2 ^ 32) 0x800))
          (bit_and (word / 2 ^ 20) 0x7e0))
        (bit_and (word / 2 ^ 7) 0x1e));
}

pub record FormatJ : Type 0 where
  pub rd : ℕ
  pub imm : ℕ

unfoldable pub parse_format_j : ℕ → FormatJ
parse_format_j word = record {
  rd = bit_and (word / 2 ^ 7) 0x1f;
  imm = sext 32 64 (
      bit_or
        (bit_or (bit_or (sign_bits word 0xfff00000) (bit_and word 0xff000))
          (bit_and word 0x100000 / 2 ^ 9))
        (bit_and word 0x7fe00000 / 2 ^ 20));
}

pub record FormatU : Type 0 where
  pub rd : ℕ
  pub imm : ℕ

unfoldable pub parse_format_u : ℕ → FormatU
parse_format_u word = record {
  rd = bit_and (word / 2 ^ 7) 0x1f;
  imm = bit_or (sign_bits word 0xffffffff00000000) (bit_and word 0xfffff000);
}

-- The order of signed integers of 64 bits.
unfoldable pub signed_lt : ℕ → ℕ → Bool
signed_lt a b =
    if is_neg 64 a
    then (if is_neg 64 b then ltb a b else true)
    else (if is_neg 64 b then false else ltb a b)

-- What an instruction that may jump leaves: the registers and the next pc, or a trap.
pub data Outcome : Type 0 where
  retired : Gpr → ℕ → Outcome
  trapped : TrapType → Outcome

-- `compressed` says whether the configuration has the extension C.
unfoldable pub jump_to : Bool → ℕ → Gpr → Outcome
jump_to compressed next_pc gpr =
    if not compressed && not (bit_and next_pc 3 == 0)
    then trapped (instruction_address_misaligned next_pc)
    else retired gpr next_pc

pub data Cond : Type 0 where
  cond_beq cond_bne cond_blt cond_bge cond_bltu cond_bgeu : Cond

unfoldable pub taken : Cond → ℕ → ℕ → Bool
unfolding signed_lt
taken cond_beq rs1 rs2 = rs1 == rs2
taken cond_bne rs1 rs2 = not (rs1 == rs2)
taken cond_blt rs1 rs2 = signed_lt rs1 rs2
taken cond_bge rs1 rs2 = not (signed_lt rs1 rs2)
taken cond_bltu rs1 rs2 = ltb rs1 rs2
taken cond_bgeu rs1 rs2 = not (ltb rs1 rs2)

unfoldable pub branch : Cond → Bool → ℕ → ℕ → ℕ → Gpr → Option Outcome
branch cond compressed inst pc npc gpr = do
  rs1 ← read (parse_format_b inst).rs1 gpr
  rs2 ← read (parse_format_b inst).rs2 gpr
  some (
      if taken cond rs1 rs2
      then jump_to compressed ((pc + (parse_format_b inst).imm) % 2 ^ 64) gpr
      else retired gpr npc)

-- A jump that traps writes no register.
abbrev pub link : ℕ → ℕ → Outcome → Option Outcome
link rd pc (trapped t) = some (trapped t)
link rd pc (retired gpr next_pc) =
    write rd ((pc + 4) % 2 ^ 64) gpr >>= λ gpr'. some (retired gpr' next_pc)

unfoldable pub jal : Bool → ℕ → ℕ → Gpr → Option Outcome
jal compressed inst pc gpr =
    link (parse_format_j inst).rd pc
      (jump_to compressed ((pc + (parse_format_j inst).imm) % 2 ^ 64) gpr)

-- `& !1` makes the target even.
unfoldable pub jalr : Bool → ℕ → ℕ → Gpr → Option Outcome
jalr compressed inst pc gpr = do
  rs1 ← read (parse_format_i inst).rs1 gpr
  link (parse_format_i inst).rd pc
      (jump_to compressed (bit_and ((rs1 + (parse_format_i inst).imm) % 2 ^ 64) (2 ^ 64 - 2)) gpr)

unfoldable pub lui : ℕ → Gpr → Option Gpr
lui inst gpr = write (parse_format_u inst).rd (parse_format_u inst).imm gpr

unfoldable pub auipc : ℕ → ℕ → Gpr → Option Gpr
auipc inst pc gpr = write (parse_format_u inst).rd ((pc + (parse_format_u inst).imm) % 2 ^ 64) gpr
