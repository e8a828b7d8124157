-- ===== src/Rv64c/Expand.antt =====
-- The base instructions that the specification of the compressed ones gives for those of
-- src/rv64core/inst/inst_rv64c.rs, with their operands taken from the word by arithmetic, apart from the
-- formats of the code.
use riscv64_emu_rust.Base.{Option, ◌>>=◌, if◌then◌else◌, ℕ, ◌+◌, ◌-◌, ◌*◌, ◌/◌, ◌%◌, ◌^◌, ltb}
use riscv64_emu_rust.Gpr.{Gpr, read, write}
use riscv64_emu_rust.Rv64i.{lui}
use riscv64_emu_rust.Rv64i.Alu.{
  Op, op_addi, op_addiw, op_slli, op_srli, op_srai, op_andi, op_add, op_and, op_or, op_xor, op_sub,
  op_addw, op_subw, alu,
}
use riscv64_emu_rust.Rv64c.{
  CompressedOp, c_li, c_lui, c_addi, c_addiw, c_addi16sp, c_slli, c_srli, c_srai, c_andi, c_mv,
  c_add, c_and, c_or, c_xor, c_sub, c_addw, c_subw,
}

-- `w` bits of an instruction word from bit `lo` on.
abbrev pub word_field : ℕ → ℕ → ℕ → ℕ
word_field lo w inst = inst / 2 ^ lo % 2 ^ w

-- A number of `n` bits as a signed one, in `w` bits.
abbrev pub sign_from : ℕ → ℕ → ℕ → ℕ
sign_from n w x = if ltb x (2 ^ (n - 1)) then x else x + (2 ^ w - 2 ^ n)

-- The immediate of six bits that most of them have: imm[5] in bit 12, imm[4:0] in bits 6 to 2.
abbrev pub six : ℕ → ℕ
six inst = word_field 2 5 inst + word_field 12 1 inst * 2 ^ 5

-- nzimm[9] in bit 12, nzimm[4|6|8:7|5] in bits 6 to 2.
abbrev pub sixteen_times : ℕ → ℕ
sixteen_times inst =
    word_field 6 1 inst * 2 ^ 4
    + word_field 2 1 inst * 2 ^ 5
    + word_field 5 1 inst * 2 ^ 6
    + word_field 3 2 inst * 2 ^ 7
    + word_field 12 1 inst * 2 ^ 9

-- nzuimm[5:4|9:6|2|3] in bits 12 to 5.
abbrev pub four_times : ℕ → ℕ
four_times inst =
    word_field 6 1 inst * 2 ^ 2
    + word_field 5 1 inst * 2 ^ 3
    + word_field 11 2 inst * 2 ^ 4
    + word_field 7 4 inst * 2 ^ 6

-- A base instruction with its operands: the destination, the first register, and an immediate or the
-- second register; or LUI with the destination and its twenty bits.
pub data Expansion : Type 0 where
  immediate register : Op → ℕ → ℕ → ℕ → Expansion
  upper : ℕ → ℕ → Expansion

abbrev pub run : Expansion → Gpr → Option Gpr
run (immediate op rd rs1 imm) gpr = read rs1 gpr >>= λ x. alu op x imm >>= λ wb. write rd wb gpr
run (register op rd rs1 rs2) gpr =
    read rs1 gpr >>= λ x. read rs2 gpr >>= λ y. alu op x y >>= λ wb. write rd wb gpr
run (upper rd imm) gpr = lui (imm * 2 ^ 12 + rd * 2 ^ 7 + 0x37) gpr

-- The register of bits 11 to 7, and the two of x8 to x15 in three bits.
abbrev pub named : ℕ → ℕ
named = word_field 7 5

abbrev pub first : ℕ → ℕ
first inst = 8 + word_field 7 3 inst

abbrev pub second : ℕ → ℕ
second inst = 8 + word_field 2 3 inst

abbrev pub in_place : Op → ℕ → Expansion
in_place op inst = register op (first inst) (first inst) (second inst)

abbrev pub expand : CompressedOp → ℕ → Expansion
expand c_li inst = immediate op_addi (named inst) 0 (sign_from 6 64 (six inst))
expand c_lui inst = upper (named inst) (sign_from 6 20 (six inst))
expand c_addi inst = immediate op_addi (named inst) (named inst) (sign_from 6 64 (six inst))
expand c_addiw inst = immediate op_addiw (named inst) (named inst) (sign_from 6 64 (six inst))
expand c_addi16sp inst = immediate op_addi 2 2 (sign_from 10 64 (sixteen_times inst))
expand c_slli inst = immediate op_slli (named inst) (named inst) (six inst)
expand c_srli inst = immediate op_srli (first inst) (first inst) (six inst)
expand c_srai inst = immediate op_srai (first inst) (first inst) (six inst)
expand c_andi inst = immediate op_andi (first inst) (first inst) (sign_from 6 64 (six inst))
expand c_mv inst = register op_add (named inst) 0 (word_field 2 5 inst)
expand c_add inst = register op_add (named inst) (named inst) (word_field 2 5 inst)
expand c_and inst = in_place op_and inst
expand c_or inst = in_place op_or inst
expand c_xor inst = in_place op_xor inst
expand c_sub inst = in_place op_sub inst
expand c_addw inst = in_place op_addw inst
expand c_subw inst = in_place op_subw inst
