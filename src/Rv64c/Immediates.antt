-- ===== src/Rv64c/Immediates.antt =====
-- The fields and immediates of src/rv64core/inst/inst_base.rs for compressed instructions are the ones of
-- the specification.
use riscv64_emu_rust.Base.{ℕ, ◌+◌, ◌*◌, ◌/◌, ◌%◌, ◌^◌, ◌<◌, ◌≡◌, refl, ap, ◌∙◌, arith, bit_or}
use riscv64_emu_rust.Base.Bits.{bit_and_mask}
use riscv64_emu_rust.Rv64m.{sext}
use riscv64_emu_rust.Rv64i.{parse_format_u}
use riscv64_emu_rust.Rv64i.Immediate.{parse_format_u-imm}
use riscv64_emu_rust.Rv64c.Formats.{
  bits, parse_format_cr, parse_format_ci, parse_format_ciw, parse_format_ca, parse_format_cb,
  imm_c_li, imm_c_lui, imm_c_addi16sp, imm_c_addi4spn, imm_c_slli, imm_c_srli, imm_c_andi,
}
use riscv64_emu_rust.Rv64c.Expand.{
  word_field, sign_from, six, sixteen_times, four_times, named, first, second,
}
use riscv64_emu_rust.Rv64c.Words.{
  sign_extended_6, sign_extended_10, sign_extended_18, or_high, or_at,
}

-- Six bits out of two fields.
six_or :
    (high low : ℕ)
    → bit_or (bits 0 1 high * 2 ^ 5) (bits 0 0x1f low) ≡ low % 2 ^ 5 + high % 2 * 2 ^ 5
six_or high low =
    let h : bits 0 1 high ≡ high / 2 ^ 0 % 2 ^ 1 = bit_and_mask 1 (high / 2 ^ 0) in
    let l : bits 0 0x1f low ≡ low / 2 ^ 0 % 2 ^ 5 = bit_and_mask 5 (low / 2 ^ 0) in
    rw (h, l, or_high 5 (high / 2 ^ 0 % 2 ^ 1) (low / 2 ^ 0 % 2 ^ 5) (omega arith)) (omega arith)

pub rd_ci : (inst : ℕ) → (parse_format_ci inst).rd_rs1 ≡ named inst
unfolding parse_format_ci
rd_ci inst = bit_and_mask 5 (inst / 2 ^ 7)

fields_ci :
    (inst : ℕ)
    → ((parse_format_ci inst).imm2_6 ≡ word_field 2 5 inst)
      × ((parse_format_ci inst).imm12 ≡ word_field 12 1 inst)
unfolding parse_format_ci
fields_ci inst = (bit_and_mask 5 (inst / 2 ^ 2), bit_and_mask 1 (inst / 2 ^ 12))

six_ci :
    (inst : ℕ)
    → bit_or
        (bits 0 1 (parse_format_ci inst).imm12 * 2 ^ 5)
        (bits 0 0x1f (parse_format_ci inst).imm2_6)
      ≡ six inst
six_ci inst =
    six_or (parse_format_ci inst).imm12 (parse_format_ci inst).imm2_6
    ∙ (let (low, high) = fields_ci inst in rw (low, high) (omega arith))

pub li_lem : (inst : ℕ) → imm_c_li (parse_format_ci inst) ≡ sign_from 6 64 (six inst)
unfolding imm_c_li
li_lem inst = rw (six_ci inst) (sign_extended_6 (six inst) (omega arith))

pub imm_slli_lem : (inst : ℕ) → imm_c_slli (parse_format_ci inst) ≡ six inst
unfolding imm_c_slli
imm_slli_lem inst = six_ci inst

pub lui_lem : (inst : ℕ) → imm_c_lui (parse_format_ci inst) ≡ sign_from 18 64 (six inst * 2 ^ 12)
unfolding imm_c_lui
lui_lem inst =
    let (low, high) = fields_ci inst in
    let h : bits 0 1 (word_field 12 1 inst) ≡ word_field 12 1 inst / 2 ^ 0 % 2 ^ 1 =
      bit_and_mask 1 (word_field 12 1 inst / 2 ^ 0) in
    let l : bits 0 0x1f (word_field 2 5 inst) ≡ word_field 2 5 inst / 2 ^ 0 % 2 ^ 5 =
      bit_and_mask 5 (word_field 2 5 inst / 2 ^ 0) in
    let sum : bit_or (bits 0 1 (parse_format_ci inst).imm12 * 2 ^ 17)
          (bits 0 0x1f (parse_format_ci inst).imm2_6 * 2 ^ 12)
        ≡ six inst * 2 ^ 12 =
      rw
        (
          low,
          high,
          h,
          l,
          or_high 17 (word_field 12 1 inst / 2 ^ 0 % 2 ^ 1)
              (word_field 2 5 inst / 2 ^ 0 % 2 ^ 5 * 2 ^ 12) (omega arith),
        )
        (omega arith) in
    rw sum (sign_extended_18 (six inst * 2 ^ 12) (omega arith))

-- The bits that the immediate of C.ADDI16SP is put together from.
parts_16 :
    (high low : ℕ)
    → bit_or
        (bit_or
          (bit_or (bit_or (bits 0 1 high * 2 ^ 9) (bits 1 3 low * 2 ^ 7)) (bits 3 1 low * 2 ^ 6))
          (bits 0 1 low * 2 ^ 5))
        (bits 4 1 low * 2 ^ 4)
      ≡ low / 16 % 2 * 16 + low % 2 * 32 + low / 8 % 2 * 64 + low / 2 % 4 * 128 + high % 2 * 512
parts_16 high low =
    let a : bits 0 1 high ≡ high / 2 ^ 0 % 2 ^ 1 = bit_and_mask 1 (high / 2 ^ 0) in
    let b : bits 1 3 low ≡ low / 2 ^ 1 % 2 ^ 2 = bit_and_mask 2 (low / 2 ^ 1) in
    let c : bits 3 1 low ≡ low / 2 ^ 3 % 2 ^ 1 = bit_and_mask 1 (low / 2 ^ 3) in
    let d : bits 0 1 low ≡ low / 2 ^ 0 % 2 ^ 1 = bit_and_mask 1 (low / 2 ^ 0) in
    let e : bits 4 1 low ≡ low / 2 ^ 4 % 2 ^ 1 = bit_and_mask 1 (low / 2 ^ 4) in
    let ab = or_at 9 7 (high / 2 ^ 0 % 2 ^ 1) (low / 2 ^ 1 % 2 ^ 2) 2 refl (omega arith) in
    let abc =
      or_at 7 6 (high / 2 ^ 0 % 2 ^ 1 * 2 ^ 2 + low / 2 ^ 1 % 2 ^ 2) (low / 2 ^ 3 % 2 ^ 1) 1 refl
        (omega arith) in
    let abcd =
      or_at 6 5 ((high / 2 ^ 0 % 2 ^ 1 * 2 ^ 2 + low / 2 ^ 1 % 2 ^ 2) * 2 ^ 1 + low / 2 ^ 3 % 2 ^ 1)
        (low / 2 ^ 0 % 2 ^ 1) 1 refl (omega arith) in
    let all =
      or_at 5 4
        (((high / 2 ^ 0 % 2 ^ 1 * 2 ^ 2 + low / 2 ^ 1 % 2 ^ 2) * 2 ^ 1 + low / 2 ^ 3 % 2 ^ 1)
            * 2 ^ 1
          + low / 2 ^ 0 % 2 ^ 1)
        (low / 2 ^ 4 % 2 ^ 1) 1 refl (omega arith) in
    rw (a, b, c, d, e, ab, abc, abcd, all) (omega arith)

pub addi16sp_lem :
    (inst : ℕ) → imm_c_addi16sp (parse_format_ci inst) ≡ sign_from 10 64 (sixteen_times inst)
unfolding imm_c_addi16sp
addi16sp_lem inst =
    let (low, high) = fields_ci inst in
    let sum : bit_or
          (bit_or
            (bit_or
              (bit_or (bits 0 1 (parse_format_ci inst).imm12 * 2 ^ 9)
                (bits 1 3 (parse_format_ci inst).imm2_6 * 2 ^ 7))
              (bits 3 1 (parse_format_ci inst).imm2_6 * 2 ^ 6))
            (bits 0 1 (parse_format_ci inst).imm2_6 * 2 ^ 5))
          (bits 4 1 (parse_format_ci inst).imm2_6 * 2 ^ 4)
        ≡ sixteen_times inst =
      parts_16 (parse_format_ci inst).imm12 (parse_format_ci inst).imm2_6
      ∙ rw (low, high) (omega arith) in
    rw sum (sign_extended_10 (sixteen_times inst) (omega arith))

parts_4 :
    (x : ℕ)
    → bit_or
        (bit_or (bit_or (bits 2 0xf x * 2 ^ 6) (bits 6 3 x * 2 ^ 4)) (bits 0 1 x * 2 ^ 3))
        (bits 1 1 x * 2 ^ 2)
      ≡ x / 2 % 2 * 4 + x % 2 * 8 + x / 64 % 4 * 16 + x / 4 % 16 * 64
parts_4 x =
    let a : bits 2 0xf x ≡ x / 2 ^ 2 % 2 ^ 4 = bit_and_mask 4 (x / 2 ^ 2) in
    let b : bits 6 3 x ≡ x / 2 ^ 6 % 2 ^ 2 = bit_and_mask 2 (x / 2 ^ 6) in
    let c : bits 0 1 x ≡ x / 2 ^ 0 % 2 ^ 1 = bit_and_mask 1 (x / 2 ^ 0) in
    let d : bits 1 1 x ≡ x / 2 ^ 1 % 2 ^ 1 = bit_and_mask 1 (x / 2 ^ 1) in
    let ab = or_at 6 4 (x / 2 ^ 2 % 2 ^ 4) (x / 2 ^ 6 % 2 ^ 2) 2 refl (omega arith) in
    let abc =
      or_at 4 3 (x / 2 ^ 2 % 2 ^ 4 * 2 ^ 2 + x / 2 ^ 6 % 2 ^ 2) (x / 2 ^ 0 % 2 ^ 1) 1 refl
        (omega arith) in
    let all =
      or_at 3 2 ((x / 2 ^ 2 % 2 ^ 4 * 2 ^ 2 + x / 2 ^ 6 % 2 ^ 2) * 2 ^ 1 + x / 2 ^ 0 % 2 ^ 1)
        (x / 2 ^ 1 % 2 ^ 1) 1 refl (omega arith) in
    rw (a, b, c, d, ab, abc, all) (omega arith)

pub addi4spn_lem :
    (inst : ℕ)
    → (imm_c_addi4spn (parse_format_ciw inst) ≡ four_times inst)
      × ((parse_format_ciw inst).rd ≡ second inst)
unfolding imm_c_addi4spn parse_format_ciw
addi4spn_lem inst =
    let x : bits 5 0xff inst ≡ inst / 2 ^ 5 % 2 ^ 8 = bit_and_mask 8 (inst / 2 ^ 5) in
    let r : bits 2 7 inst ≡ inst / 2 ^ 2 % 2 ^ 3 = bit_and_mask 3 (inst / 2 ^ 2) in
    (parts_4 (bits 5 0xff inst) ∙ rw x (omega arith), rw r (omega arith))

pub fields_cr :
    (inst : ℕ)
    → ((parse_format_cr inst).rd_rs1 ≡ named inst)
      × ((parse_format_cr inst).rs2 ≡ word_field 2 5 inst)
unfolding parse_format_cr
fields_cr inst = (bit_and_mask 5 (inst / 2 ^ 7), bit_and_mask 5 (inst / 2 ^ 2))

pub fields_ca :
    (inst : ℕ)
    → ((parse_format_ca inst).rd ≡ first inst) × ((parse_format_ca inst).rs2 ≡ second inst)
unfolding parse_format_ca
fields_ca inst =
    let d : bits 7 7 inst ≡ inst / 2 ^ 7 % 2 ^ 3 = bit_and_mask 3 (inst / 2 ^ 7) in
    let s : bits 2 7 inst ≡ inst / 2 ^ 2 % 2 ^ 3 = bit_and_mask 3 (inst / 2 ^ 2) in
    (rw d (omega arith), rw s (omega arith))

pub fields_cb :
    (inst : ℕ)
    → ((parse_format_cb inst).rd ≡ first inst)
      × (imm_c_srli (parse_format_cb inst) ≡ six inst)
      × (imm_c_andi (parse_format_cb inst) ≡ sign_from 6 64 (six inst))
unfolding parse_format_cb imm_c_srli imm_c_andi
fields_cb inst =
    let d : bits 7 7 inst ≡ inst / 2 ^ 7 % 2 ^ 3 = bit_and_mask 3 (inst / 2 ^ 7) in
    let top : bits 10 7 inst ≡ inst / 2 ^ 10 % 2 ^ 3 = bit_and_mask 3 (inst / 2 ^ 10) in
    let low : bits 2 0x1f inst ≡ inst / 2 ^ 2 % 2 ^ 5 = bit_and_mask 5 (inst / 2 ^ 2) in
    let h : bits 2 1 (inst / 2 ^ 10 % 2 ^ 3) ≡ inst / 2 ^ 10 % 2 ^ 3 / 2 ^ 2 % 2 ^ 1 =
      bit_and_mask 1 (inst / 2 ^ 10 % 2 ^ 3 / 2 ^ 2) in
    let l : bits 0 0x1f (inst / 2 ^ 2 % 2 ^ 5) ≡ inst / 2 ^ 2 % 2 ^ 5 / 2 ^ 0 % 2 ^ 5 =
      bit_and_mask 5 (inst / 2 ^ 2 % 2 ^ 5 / 2 ^ 0) in
    let sum : bit_or (bits 2 1 (bits 10 7 inst) * 2 ^ 5) (bits 0 0x1f (bits 2 0x1f inst))
        ≡ six inst =
      rw
        (
          top,
          low,
          h,
          l,
          or_high 5 (inst / 2 ^ 10 % 2 ^ 3 / 2 ^ 2 % 2 ^ 1) (inst / 2 ^ 2 % 2 ^ 5 / 2 ^ 0 % 2 ^ 5)
              (omega arith),
        )
        (omega arith) in
    (rw d (omega arith), sum, rw sum (sign_extended_6 (six inst) (omega arith)))

upper_digits :
    (a r : ℕ) → a < 2 ^ 20 → r < 2 ^ 5 → (a * 2 ^ 12 + r * 2 ^ 7 + 0x37) / 2 ^ 12 % 2 ^ 20 ≡ a
upper_digits a r h hr = omega arith

lower_digits : (a r : ℕ) → r < 2 ^ 5 → (a * 2 ^ 12 + r * 2 ^ 7 + 0x37) / 2 ^ 7 % 2 ^ 5 ≡ r
lower_digits a r hr = omega arith

word-lt : (a r : ℕ) → a < 2 ^ 20 → r < 2 ^ 5 → a * 2 ^ 12 + r * 2 ^ 7 + 0x37 < 2 ^ 32
word-lt a r h hr = omega arith

parse_format_u-rd : (word : ℕ) → (parse_format_u word).rd ≡ word / 2 ^ 7 % 2 ^ 5
unfolding parse_format_u
parse_format_u-rd word = bit_and_mask 5 (word / 2 ^ 7)

sext_upper :
    (imm : ℕ)
    → imm < 2 ^ 6
    → sext 32 64 (sign_from 6 20 imm * 2 ^ 12) ≡ sign_from 18 64 (imm * 2 ^ 12)
unfolding sext
sext_upper imm h = ground arith

-- What LUI does with the word that C.LUI stands for.
pub upper_lem :
    (r imm : ℕ)
    → r < 2 ^ 5
    → imm < 2 ^ 6
    → ((parse_format_u (sign_from 6 20 imm * 2 ^ 12 + r * 2 ^ 7 + 0x37)).rd ≡ r)
      × ((parse_format_u (sign_from 6 20 imm * 2 ^ 12 + r * 2 ^ 7 + 0x37)).imm
          ≡ sign_from 18 64 (imm * 2 ^ 12))
upper_lem r imm hr hi =
    let top : sign_from 6 20 imm < 2 ^ 20 = ground arith in
    let word : ℕ = sign_from 6 20 imm * 2 ^ 12 + r * 2 ^ 7 + 0x37 in
    let digits : word / 2 ^ 12 % 2 ^ 20 ≡ sign_from 6 20 imm =
      upper_digits (sign_from 6 20 imm) r top hr in
    (
      parse_format_u-rd word ∙ lower_digits (sign_from 6 20 imm) r hr,
      parse_format_u-imm word (word-lt (sign_from 6 20 imm) r top hr)
          ∙ ap (λ (t : ℕ). sext 32 64 (t * 2 ^ 12)) digits
          ∙ sext_upper imm hi,
    )
