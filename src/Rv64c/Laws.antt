-- ===== src/Rv64c/Laws.antt =====
-- The compressed instructions of src/rv64core/inst/inst_rv64c.rs against the ones of
-- src/rv64core/inst/inst_rv64i.rs that they stand for.
use riscv64_emu_rust.Base.{
  Option-cases, if◌then◌else◌, ◌==◌, inl, inr, Option, some, ◌>>=◌, assert, ℕ, ◌*◌, ◌/◌, ◌%◌, ◌^◌,
  ◌<◌, ltb, lt→ltb, ◌≡◌, refl, ap, ◌∙◌, arith, bit_and, bit_or, bit_xor,
}
use native.Mathlib.Nat.{mod-eq_of_lt}
use riscv64_emu_rust.Base.Bits.{bit_and_mask, bit_or_comm}
use riscv64_emu_rust.Base.Bits.Comm.{bit_and_comm, bit_xor_comm}
use riscv64_emu_rust.Gpr.{Gpr, read, write}
use riscv64_emu_rust.Rv64i.Alu.{
  Op, op_addi, op_addiw, op_slli, op_srli, op_srai, op_andi, op_add, op_and, op_or, op_xor, op_sub,
  op_addw, op_subw, alu, add, sub, sext_word, shift_right_signed,
}
use riscv64_emu_rust.Rv64i.Laws.{AreWords, read-lt}
use riscv64_emu_rust.Access.{value, raise}
use riscv64_emu_rust.Trap.{illegal_instruction}
use riscv64_emu_rust.Rv64i.{lui}
use riscv64_emu_rust.Rv64c.Expand.{
  word_field, sign_from, six, sixteen_times, four_times, immediate, register, run, named, first,
  second, expand,
}
use riscv64_emu_rust.Rv64c.Immediates.{
  rd_ci, li_lem, imm_slli_lem, lui_lem, addi16sp_lem, addi4spn_lem, fields_cr, fields_ca, fields_cb,
  upper_lem,
}
use riscv64_emu_rust.Rv64c.{
  CompressedOp, c_li, c_lui, c_addi, c_addiw, c_addi16sp, c_slli, c_srli, c_srai, c_andi, c_mv,
  c_add, c_and, c_or, c_xor, c_sub, c_addw, c_subw, on_rd, on_both, execute_compressed, c_addi4spn,
}

sign_from-lt : (x : ℕ) → x < 2 ^ 6 → sign_from 6 64 x < 2 ^ 64
sign_from-lt x h = ground arith

read_x0 : (gpr : Gpr) → read 0 gpr ≡ some 0
unfolding read
read_x0 gpr = refl

add_x0 : (v : ℕ) → v < 2 ^ 64 → add 0 v ≡ v
unfolding add
add_x0 v h = omega arith

-- An immediate loaded is one added to `x0`.
load_immediate :
    (rd imm : ℕ) (gpr : Gpr)
    → imm < 2 ^ 64
    → write rd imm gpr ≡ run (immediate op_addi rd 0 imm) gpr
unfolding alu
load_immediate rd imm gpr h = rw (read_x0 gpr, add_x0 imm h) refl

shift_mask : (shamt : ℕ) → shamt < 64 → bit_and shamt 0x3f ≡ shamt
shift_mask shamt h = bit_and_mask 6 shamt ∙ mod-eq_of_lt h

slli_lem :
    (x shamt : ℕ)
    → shamt < 64
    → assert (ltb shamt 64) (some (x * 2 ^ shamt % 2 ^ 64)) ≡ alu op_slli x shamt
unfolding alu
slli_lem x shamt h = rw (lt→ltb shamt 64 h, shift_mask shamt h) refl

srli_lem :
    (x shamt : ℕ) → shamt < 64 → assert (ltb shamt 64) (some (x / 2 ^ shamt)) ≡ alu op_srli x shamt
unfolding alu
srli_lem x shamt h = rw (lt→ltb shamt 64 h, shift_mask shamt h) refl

srai_lem :
    (x shamt : ℕ)
    → shamt < 64
    → assert (ltb shamt 64) (some (shift_right_signed 64 x shamt)) ≡ alu op_srai x shamt
unfolding alu
srai_lem x shamt h = rw (lt→ltb shamt 64 h, shift_mask shamt h) refl

on_rd_lem :
    (op : Op) (rd imm : ℕ) (f : ℕ → Option ℕ) (gpr : Gpr)
    → ((x : ℕ) → f x ≡ alu op x imm)
    → on_rd rd f gpr ≡ run (immediate op rd rd imm) gpr
on_rd_lem op rd imm f gpr h = elim (Option-cases (read rd gpr)) [
  | inl e ↦ rw e refl
  | inr (x, e) ↦ rw (e, h x) refl
]

on_both_lem :
    (op : Op) (rd rs2 : ℕ) (f : ℕ → ℕ → ℕ) (gpr : Gpr)
    → ((x y : ℕ) → some (f y x) ≡ alu op x y)
    → on_both rd rs2 f gpr ≡ run (register op rd rd rs2) gpr
on_both_lem op rd rs2 f gpr h = elim (Option-cases (read rd gpr)) [
  | inl e ↦ elim (Option-cases (read rs2 gpr)) [
    | inl e' ↦ rw (e, e') refl
    | inr (y, e') ↦ rw (e, e') refl
  ]
  | inr (x, e) ↦ elim (Option-cases (read rs2 gpr)) [
    | inl e' ↦ rw (e, e') refl
    | inr (y, e') ↦ rw (e, e', ← h x y) refl
  ]
]

move_lem :
    (rd rs2 : ℕ) (gpr : Gpr)
    → AreWords gpr
    → (read rs2 gpr >>= λ y. write rd y gpr) ≡ run (register op_add rd 0 rs2) gpr
unfolding alu
move_lem rd rs2 gpr w = elim (Option-cases (read rs2 gpr)) [
  | inl e ↦ rw (read_x0 gpr, e) refl
  | inr (y, e) ↦ rw (read_x0 gpr, e, add_x0 y (read-lt rs2 y gpr w e)) refl
]

add_comm : (a b : ℕ) → add a b ≡ add b a
unfolding add
add_comm a b = ap (λ (t : ℕ). t % 2 ^ 64) (omega arith)

six-lt : (inst : ℕ) → six inst < 64
six-lt inst = omega arith

c_lui-run : (inst : ℕ) (gpr : Gpr) → execute_compressed c_lui inst gpr ≡ run (expand c_lui inst) gpr
unfolding execute_compressed lui
c_lui-run inst gpr =
    let (reg, imm) = upper_lem (named inst) (six inst) (omega arith) (six-lt inst) in
    rw (rd_ci inst, lui_lem inst, reg, imm) refl

expand_lem :
    (op : CompressedOp) (inst : ℕ) (gpr : Gpr)
    → AreWords gpr
    → execute_compressed op inst gpr ≡ run (expand op inst) gpr
unfolding execute_compressed alu
expand_lem c_li inst gpr w =
    rw (rd_ci inst, li_lem inst)
      (load_immediate (named inst) (sign_from 6 64 (six inst)) gpr
        (sign_from-lt (six inst) (six-lt inst)))
expand_lem c_lui inst gpr w = c_lui-run inst gpr
expand_lem c_addi inst gpr w =
    rw (rd_ci inst, li_lem inst)
      (on_rd_lem op_addi (named inst) (sign_from 6 64 (six inst))
        (λ x. some (add x (sign_from 6 64 (six inst)))) gpr (λ x. refl))
expand_lem c_addiw inst gpr w =
    rw (rd_ci inst, li_lem inst)
      (on_rd_lem op_addiw (named inst) (sign_from 6 64 (six inst))
        (λ x. some (sext_word (add x (sign_from 6 64 (six inst))))) gpr (λ x. refl))
expand_lem c_addi16sp inst gpr w = rw (addi16sp_lem inst) (
    on_rd_lem op_addi 2 (sign_from 10 64 (sixteen_times inst))
      (λ x. some (add x (sign_from 10 64 (sixteen_times inst)))) gpr (λ x. refl))
expand_lem c_slli inst gpr w =
    rw (rd_ci inst, imm_slli_lem inst)
      (on_rd_lem op_slli (named inst) (six inst)
        (λ x. assert (ltb (six inst) 64) (some (x * 2 ^ six inst % 2 ^ 64))) gpr
        (λ x. slli_lem x (six inst) (six-lt inst)))
expand_lem c_srli inst gpr w =
    let (reg, shamt, imm) = fields_cb inst in
    rw (reg, shamt)
      (on_rd_lem op_srli (first inst) (six inst)
        (λ x. assert (ltb (six inst) 64) (some (x / 2 ^ six inst))) gpr
        (λ x. srli_lem x (six inst) (six-lt inst)))
expand_lem c_srai inst gpr w =
    let (reg, shamt, imm) = fields_cb inst in
    rw (reg, shamt)
      (on_rd_lem op_srai (first inst) (six inst)
        (λ x. assert (ltb (six inst) 64) (some (shift_right_signed 64 x (six inst)))) gpr
        (λ x. srai_lem x (six inst) (six-lt inst)))
expand_lem c_andi inst gpr w =
    let (reg, shamt, imm) = fields_cb inst in
    rw (reg, imm)
      (on_rd_lem op_andi (first inst) (sign_from 6 64 (six inst))
        (λ x. some (bit_and x (sign_from 6 64 (six inst)))) gpr (λ x. refl))
expand_lem c_mv inst gpr w =
    let (reg, rs2) = fields_cr inst in
    rw (reg, rs2) (move_lem (named inst) (word_field 2 5 inst) gpr w)
expand_lem c_add inst gpr w =
    let (reg, rs2) = fields_cr inst in
    rw (reg, rs2)
      (on_both_lem op_add (named inst) (word_field 2 5 inst) (λ y x. add y x) gpr
        (λ x y. ap some (add_comm y x)))
expand_lem c_and inst gpr w =
    let (reg, rs2) = fields_ca inst in
    rw (reg, rs2)
      (on_both_lem op_and (first inst) (second inst) (λ y x. bit_and y x) gpr
        (λ x y. ap some (bit_and_comm y x)))
expand_lem c_or inst gpr w =
    let (reg, rs2) = fields_ca inst in
    rw (reg, rs2)
      (on_both_lem op_or (first inst) (second inst) (λ y x. bit_or y x) gpr
        (λ x y. ap some (bit_or_comm y x)))
expand_lem c_xor inst gpr w =
    let (reg, rs2) = fields_ca inst in
    rw (reg, rs2)
      (on_both_lem op_xor (first inst) (second inst) (λ y x. bit_xor y x) gpr
        (λ x y. ap some (bit_xor_comm y x)))
expand_lem c_sub inst gpr w =
    let (reg, rs2) = fields_ca inst in
    rw (reg, rs2) (on_both_lem op_sub (first inst) (second inst) (λ y x. sub x y) gpr (λ x y. refl))
expand_lem c_addw inst gpr w =
    let (reg, rs2) = fields_ca inst in
    rw (reg, rs2)
      (on_both_lem op_addw (first inst) (second inst) (λ y x. sext_word (add y x)) gpr
        (λ x y. ap (λ (t : ℕ). some (sext_word t)) (add_comm y x)))
expand_lem c_subw inst gpr w =
    let (reg, rs2) = fields_ca inst in
    rw (reg, rs2)
      (on_both_lem op_subw (first inst) (second inst) (λ y x. sext_word (sub x y)) gpr
        (λ x y. refl))

c_addi4spn-run :
    (inst : ℕ) (gpr : Gpr)
    → c_addi4spn inst gpr ≡ (
        if four_times inst == 0
        then some (raise (illegal_instruction inst))
        else (run (immediate op_addi (second inst) 2 (four_times inst)) gpr >>= λ gpr'.
            some (value gpr')))
unfolding c_addi4spn alu read write
c_addi4spn-run inst gpr = let (imm, reg) = addi4spn_lem inst in rw (imm, reg) refl

-- A compressed arithmetic instruction does what the base instruction that the specification gives for it
-- does, on the registers and the immediate that the specification takes from its word, whatever the
-- word: it writes the same register with the same word, and panics where that one does. C.LUI does what
-- LUI does with the word of 32 bits that it stands for, and C.ADDI4SPN is an ADDI to the stack pointer,
-- but an illegal instruction where its immediate is 0. The shifts are never by 64 or more. The registers
-- hold words of 64 bits.
pub execute_compressed-run :
    (op : CompressedOp) (inst : ℕ) (gpr : Gpr)
    → AreWords gpr
    → (execute_compressed op inst gpr ≡ run (expand op inst) gpr)
      × (c_addi4spn inst gpr ≡ (
          if four_times inst == 0
          then some (raise (illegal_instruction inst))
          else (run (immediate op_addi (second inst) 2 (four_times inst)) gpr >>= λ gpr'.
              some (value gpr'))))
execute_compressed-run op inst gpr w = (expand_lem op inst gpr w, c_addi4spn-run inst gpr)
