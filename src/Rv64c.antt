-- ===== src/Rv64c.antt =====
-- The compressed instructions of src/rv64core/inst/inst_rv64c.rs but C.EBREAK, and C.NOP, which does
-- nothing. `none` is a panic: a register out of range, or a shift by 64 or more.
pub mod Formats
pub mod Expand
mod Words
pub mod Immediates
pub mod Memory
pub mod Laws
mod Examples
use riscv64_emu_rust.Base.{
  Bool, true, false, not, Option, none, some, ◌>>=◌, assert, if◌then◌else◌, ℕ, ◌+◌, ◌-◌, ◌*◌, ◌/◌,
  ◌%◌, ◌^◌, ◌==◌, ltb, bit_and, bit_or, bit_xor,
}
use riscv64_emu_rust.Access.{Result, value, raise}
use riscv64_emu_rust.Bus.{check_aligned}
use riscv64_emu_rust.Gpr.{Gpr, read, write}
use riscv64_emu_rust.Rv64i.{Outcome, retired, trapped}
use riscv64_emu_rust.Rv64i.Alu.{add, sub, sext_word, shift_right_signed}
use riscv64_emu_rust.Trap.{TrapType, illegal_instruction, instruction_address_misaligned}
use Formats.{
  parse_format_cr, parse_format_ci, parse_format_ciw, parse_format_ca, parse_format_cb, imm_c_li,
  imm_c_lui, imm_c_addi16sp, imm_c_addi4spn, imm_c_slli, imm_c_srli, imm_c_andi, imm_c_beqz,
  jump_target, imm_c_j,
}

-- The arithmetic ones that raise no exception.
pub data CompressedOp : Type 0 where
  c_li c_lui c_addi c_addiw c_addi16sp c_slli c_srli c_srai c_andi : CompressedOp
  c_mv c_add c_and c_or c_xor c_sub c_addw c_subw : CompressedOp

-- One register and an immediate, to the same register.
abbrev pub on_rd : ℕ → (ℕ → Option ℕ) → Gpr → Option Gpr
on_rd rd f gpr = read rd gpr >>= λ rd_data. f rd_data >>= λ wb. write rd wb gpr

-- Two registers, the second operand read first, to the first.
abbrev pub on_both : ℕ → ℕ → (ℕ → ℕ → ℕ) → Gpr → Option Gpr
on_both rd rs2 f gpr =
    read rs2 gpr >>= λ rs2_data. read rd gpr >>= λ rd_data. write rd (f rs2_data rd_data) gpr

unfoldable pub execute_compressed : CompressedOp → ℕ → Gpr → Option Gpr
unfolding parse_format_cr parse_format_ci parse_format_ca parse_format_cb imm_c_li imm_c_lui
    imm_c_addi16sp imm_c_slli imm_c_srli imm_c_andi add sub sext_word shift_right_signed read write
execute_compressed c_li inst gpr =
    write (parse_format_ci inst).rd_rs1 (imm_c_li (parse_format_ci inst)) gpr
execute_compressed c_lui inst gpr =
    write (parse_format_ci inst).rd_rs1 (imm_c_lui (parse_format_ci inst)) gpr
execute_compressed c_addi inst gpr =
    on_rd (parse_format_ci inst).rd_rs1 (λ x. some (add x (imm_c_li (parse_format_ci inst)))) gpr
execute_compressed c_addiw inst gpr =
    on_rd (parse_format_ci inst).rd_rs1
      (λ x. some (sext_word (add x (imm_c_li (parse_format_ci inst))))) gpr
execute_compressed c_addi16sp inst gpr =
    on_rd 2 (λ x. some (add x (imm_c_addi16sp (parse_format_ci inst)))) gpr
execute_compressed c_slli inst gpr =
    let shamt : ℕ = imm_c_slli (parse_format_ci inst) in
    on_rd (parse_format_ci inst).rd_rs1 (λ x. assert (ltb shamt 64) (some (x * 2 ^ shamt % 2 ^ 64)))
      gpr
execute_compressed c_srli inst gpr =
    let shamt : ℕ = imm_c_srli (parse_format_cb inst) in
    on_rd (parse_format_cb inst).rd (λ x. assert (ltb shamt 64) (some (x / 2 ^ shamt))) gpr
execute_compressed c_srai inst gpr =
    let shamt : ℕ = imm_c_srli (parse_format_cb inst) in
    on_rd (parse_format_cb inst).rd
      (λ x. assert (ltb shamt 64) (some (shift_right_signed 64 x shamt))) gpr
execute_compressed c_andi inst gpr =
    on_rd (parse_format_cb inst).rd (λ x. some (bit_and x (imm_c_andi (parse_format_cb inst)))) gpr
execute_compressed c_mv inst gpr = read (parse_format_cr inst).rs2 gpr >>= λ rs2_data.
    write (parse_format_cr inst).rd_rs1 rs2_data gpr
execute_compressed c_add inst gpr =
    on_both (parse_format_cr inst).rd_rs1 (parse_format_cr inst).rs2 (λ b a. add b a) gpr
execute_compressed c_and inst gpr =
    on_both (parse_format_ca inst).rd (parse_format_ca inst).rs2 (λ b a. bit_and b a) gpr
execute_compressed c_or inst gpr =
    on_both (parse_format_ca inst).rd (parse_format_ca inst).rs2 (λ b a. bit_or b a) gpr
execute_compressed c_xor inst gpr =
    on_both (parse_format_ca inst).rd (parse_format_ca inst).rs2 (λ b a. bit_xor b a) gpr
execute_compressed c_sub inst gpr =
    on_both (parse_format_ca inst).rd (parse_format_ca inst).rs2 (λ b a. sub a b) gpr
execute_compressed c_addw inst gpr =
    on_both (parse_format_ca inst).rd (parse_format_ca inst).rs2 (λ b a. sext_word (add b a)) gpr
execute_compressed c_subw inst gpr =
    on_both (parse_format_ca inst).rd (parse_format_ca inst).rs2 (λ b a. sext_word (sub a b)) gpr

-- The all-zero immediate is reserved.
unfoldable pub c_addi4spn : ℕ → Gpr → Option (Result Gpr)
unfolding parse_format_ciw imm_c_addi4spn add read write
c_addi4spn inst gpr =
    let imm : ℕ = imm_c_addi4spn (parse_format_ciw inst) in
    if imm == 0
    then some (raise (illegal_instruction inst))
    else (read 2 gpr >>= λ x2_data.
        write (parse_format_ciw inst).rd (add x2_data imm) gpr >>= λ gpr'. some (value gpr'))

-- The code takes the hart's own `pc`, which is the one an instruction gets.
unfoldable pub c_j : ℕ → ℕ → Gpr → Option Outcome
unfolding jump_target imm_c_j
c_j inst pc gpr = some (retired gpr ((pc + imm_c_j (jump_target inst)) % 2 ^ 64))

unfoldable pub c_jr : ℕ → Gpr → Option Outcome
unfolding parse_format_cr read
c_jr inst gpr = read (parse_format_cr inst).rd_rs1 gpr >>= λ rs1_data. some (retired gpr rs1_data)

unfoldable pub c_jalr : ℕ → ℕ → Gpr → Option Outcome
unfolding parse_format_cr read write
c_jalr inst pc gpr = read (parse_format_cr inst).rd_rs1 gpr >>= λ rs1_data.
    write 1 ((pc + 2) % 2 ^ 64) gpr >>= λ gpr'. some (retired gpr' rs1_data)

-- C.BEQZ where `on_zero`, and C.BNEZ else.
unfoldable pub c_branch : Bool → ℕ → ℕ → ℕ → Gpr → Option Outcome
unfolding parse_format_cb imm_c_beqz read check_aligned
c_branch on_zero inst pc npc gpr = read (parse_format_cb inst).rd gpr >>= λ rs1.
    let next_pc : ℕ = (pc + imm_c_beqz (parse_format_cb inst)) % 2 ^ 64 in
    let jump = check_aligned next_pc 2 >>= λ aligned.
    some
      (if aligned then retired gpr next_pc else trapped (instruction_address_misaligned next_pc)) in
    if (if on_zero then rs1 == 0 else not (rs1 == 0)) then jump else some (retired gpr npc)
