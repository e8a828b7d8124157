-- ===== src/Rv64c/Formats.antt =====
-- The formats of the compressed instructions in src/rv64core/inst/inst_base.rs, and `sign_extended` of
-- src/tools.rs. An immediate that the code holds as a signed integer is the word with the same bits.
use riscv64_emu_rust.Base.{ℕ, ◌+◌, ◌-◌, ◌*◌, ◌/◌, ◌%◌, ◌^◌, bit_and, bit_or}
use riscv64_emu_rust.Rv64i.Alu.{shift_right_signed}

-- `(word >> lo) & mask`.
abbrev pub bits : ℕ → ℕ → ℕ → ℕ
bits lo mask word = bit_and (word / 2 ^ lo) mask

-- A shift to the top of the word and an arithmetic one back.
unfoldable pub sign_extended : ℕ → ℕ → ℕ
unfolding shift_right_signed
sign_extended x nbits = shift_right_signed 64 (x * 2 ^ (64 - nbits) % 2 ^ 64) (64 - nbits)

pub record FormatCr : Type 0 where
  pub rd_rs1 : ℕ
  pub rs2 : ℕ

unfoldable pub parse_format_cr : ℕ → FormatCr
parse_format_cr word = record { rd_rs1 = bits 7 0x1f word; rs2 = bits 2 0x1f word }

pub record FormatCi : Type 0 where
  pub rd_rs1 : ℕ
  pub imm2_6 : ℕ
  pub imm12 : ℕ

unfoldable pub parse_format_ci : ℕ → FormatCi
parse_format_ci word = record {
  rd_rs1 = bits 7 0x1f word;
  imm2_6 = bits 2 0x1f word;
  imm12 = bits 12 1 word;
}

unfoldable pub imm_c_lwsp : FormatCi → ℕ
imm_c_lwsp f =
    bit_or (bit_or (bits 0 3 f.imm2_6 * 2 ^ 6) (bits 0 1 f.imm12 * 2 ^ 5))
      (bits 2 7 f.imm2_6 * 2 ^ 2)

unfoldable pub imm_c_ldsp : FormatCi → ℕ
imm_c_ldsp f =
    bit_or (bit_or (bits 0 7 f.imm2_6 * 2 ^ 6) (bits 0 1 f.imm12 * 2 ^ 5))
      (bits 3 3 f.imm2_6 * 2 ^ 3)

unfoldable pub imm_c_slli : FormatCi → ℕ
imm_c_slli f = bit_or (bits 0 1 f.imm12 * 2 ^ 5) (bits 0 0x1f f.imm2_6)

unfoldable pub imm_c_li : FormatCi → ℕ
unfolding sign_extended
imm_c_li f = sign_extended (bit_or (bits 0 1 f.imm12 * 2 ^ 5) (bits 0 0x1f f.imm2_6)) 6

unfoldable pub imm_c_lui : FormatCi → ℕ
unfolding sign_extended
imm_c_lui f = sign_extended (bit_or (bits 0 1 f.imm12 * 2 ^ 17) (bits 0 0x1f f.imm2_6 * 2 ^ 12)) 18

unfoldable pub imm_c_addi16sp : FormatCi → ℕ
unfolding sign_extended
imm_c_addi16sp f =
    sign_extended
      (bit_or
        (bit_or
          (bit_or (bit_or (bits 0 1 f.imm12 * 2 ^ 9) (bits 1 3 f.imm2_6 * 2 ^ 7))
            (bits 3 1 f.imm2_6 * 2 ^ 6))
          (bits 0 1 f.imm2_6 * 2 ^ 5))
        (bits 4 1 f.imm2_6 * 2 ^ 4))
      10

pub record FormatCss : Type 0 where
  pub rs2 : ℕ
  pub imm7_12 : ℕ

unfoldable pub parse_format_css : ℕ → FormatCss
parse_format_css word = record { rs2 = bits 2 0x1f word; imm7_12 = bits 7 0x3f word }

unfoldable pub imm_c_swsp : FormatCss → ℕ
imm_c_swsp f = bit_or (bits 0 3 f.imm7_12 * 2 ^ 6) (bits 2 0xf f.imm7_12 * 2 ^ 2)

unfoldable pub imm_c_sdsp : FormatCss → ℕ
imm_c_sdsp f = bit_or (bits 0 7 f.imm7_12 * 2 ^ 6) (bits 3 7 f.imm7_12 * 2 ^ 3)

-- The three bits of a compressed register name one of `x8` to `x15`.
pub record FormatCiw : Type 0 where
  pub rd : ℕ
  pub imm5_12 : ℕ

unfoldable pub parse_format_ciw : ℕ → FormatCiw
parse_format_ciw word = record { rd = bits 2 7 word + 8; imm5_12 = bits 5 0xff word }

unfoldable pub imm_c_addi4spn : FormatCiw → ℕ
imm_c_addi4spn f =
    bit_or
      (bit_or (bit_or (bits 2 0xf f.imm5_12 * 2 ^ 6) (bits 6 3 f.imm5_12 * 2 ^ 4))
        (bits 0 1 f.imm5_12 * 2 ^ 3))
      (bits 1 1 f.imm5_12 * 2 ^ 2)

pub record FormatCl : Type 0 where
  pub rd : ℕ
  pub rs1 : ℕ
  pub imm5_6 : ℕ
  pub imm10_12 : ℕ

unfoldable pub parse_format_cl : ℕ → FormatCl
parse_format_cl word = record {
  rd = bits 2 7 word + 8;
  rs1 = bits 7 7 word + 8;
  imm5_6 = bits 5 3 word;
  imm10_12 = bits 10 7 word;
}

unfoldable pub imm_c_lw : FormatCl → ℕ
imm_c_lw f =
    bit_or (bit_or (bits 0 1 f.imm5_6 * 2 ^ 6) (bits 0 7 f.imm10_12 * 2 ^ 3))
      (bits 1 1 f.imm5_6 * 2 ^ 2)

unfoldable pub imm_c_ld : FormatCl → ℕ
imm_c_ld f = bit_or (bits 0 3 f.imm5_6 * 2 ^ 6) (bits 0 7 f.imm10_12 * 2 ^ 3)

pub record FormatCs : Type 0 where
  pub rs1 : ℕ
  pub rs2 : ℕ
  pub imm5_6 : ℕ
  pub imm10_12 : ℕ

unfoldable pub parse_format_cs : ℕ → FormatCs
parse_format_cs word = record {
  rs1 = bits 7 7 word + 8;
  rs2 = bits 2 7 word + 8;
  imm5_6 = bits 5 3 word;
  imm10_12 = bits 10 7 word;
}

unfoldable pub imm_c_sw : FormatCs → ℕ
imm_c_sw f =
    bit_or (bit_or (bits 0 1 f.imm5_6 * 2 ^ 6) (bits 0 7 f.imm10_12 * 2 ^ 3))
      (bits 1 1 f.imm5_6 * 2 ^ 2)

unfoldable pub imm_c_sd : FormatCs → ℕ
imm_c_sd f = bit_or (bits 0 3 f.imm5_6 * 2 ^ 6) (bits 0 7 f.imm10_12 * 2 ^ 3)

pub record FormatCa : Type 0 where
  pub rs2 : ℕ
  pub rd : ℕ

unfoldable pub parse_format_ca : ℕ → FormatCa
parse_format_ca word = record { rs2 = bits 2 7 word + 8; rd = bits 7 7 word + 8 }

pub record FormatCb : Type 0 where
  pub rd : ℕ
  pub offset2_6 : ℕ
  pub offset10_12 : ℕ

unfoldable pub parse_format_cb : ℕ → FormatCb
parse_format_cb word = record {
  rd = bits 7 7 word + 8;
  offset2_6 = bits 2 0x1f word;
  offset10_12 = bits 10 7 word;
}

unfoldable pub imm_c_beqz : FormatCb → ℕ
unfolding sign_extended
imm_c_beqz f =
    sign_extended
      (bit_or
        (bit_or
          (bit_or (bit_or (bits 2 1 f.offset10_12 * 2 ^ 8) (bits 3 3 f.offset2_6 * 2 ^ 6))
            (bits 0 1 f.offset2_6 * 2 ^ 5))
          (bits 0 3 f.offset10_12 * 2 ^ 3))
        (bits 1 3 f.offset2_6 * 2))
      9

unfoldable pub imm_c_srli : FormatCb → ℕ
imm_c_srli f = bit_or (bits 2 1 f.offset10_12 * 2 ^ 5) (bits 0 0x1f f.offset2_6)

unfoldable pub imm_c_andi : FormatCb → ℕ
unfolding sign_extended imm_c_srli
imm_c_andi f = sign_extended (imm_c_srli f) 6

unfoldable pub jump_target : ℕ → ℕ
jump_target word = bits 2 0x7ff word

unfoldable pub imm_c_j : ℕ → ℕ
unfolding sign_extended
imm_c_j target =
    sign_extended
      (bit_or
        (bit_or
          (bit_or
            (bit_or
              (bit_or
                (bit_or (bit_or (bits 10 1 target * 2 ^ 11) (bits 6 1 target * 2 ^ 10))
                  (bits 7 3 target * 2 ^ 8))
                (bits 4 1 target * 2 ^ 7))
              (bits 5 1 target * 2 ^ 6))
            (bits 0 1 target * 2 ^ 5))
          (bits 9 1 target * 2 ^ 4))
        (bits 1 7 target * 2))
      12
