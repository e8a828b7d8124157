-- ===== src/Rv64m.antt =====
-- The multiplications and divisions of src/rv64core/inst/inst_rv64m.rs. A register is a number below
-- 2 ^ 64; a signed integer of `w` bits is the number below 2 ^ w with the same bits.
pub mod Laws
mod Examples
use riscv64_emu_rust.Base.{
  Bool, true, false, ◌&&◌, Option, none, some, ◌>>=◌, if◌then◌else◌, ℕ, ◌+◌, ◌-◌, ◌*◌, ◌/◌, ◌%◌,
  ◌^◌, ◌==◌, leb,
}
use riscv64_emu_rust.Gpr.{Gpr, read, write}

abbrev pub is_neg : ℕ → ℕ → Bool
is_neg w x = leb (2 ^ (w - 1)) x

-- `-x`, which wraps around at 0 and at the least integer.
abbrev pub neg : ℕ → ℕ → ℕ
neg w x = (2 ^ w - x) % 2 ^ w

abbrev pub abs : ℕ → ℕ → ℕ
abs w x = if is_neg w x then 2 ^ w - x else x

-- A conversion from `w` bits to more.
unfoldable pub sext : ℕ → ℕ → ℕ → ℕ
sext w v x = if is_neg w x then x + 2 ^ v - 2 ^ w else x

-- Rust's division of signed integers rounds towards zero, and the remainder has the dividend's sign.
unfoldable pub wrapping_div : ℕ → ℕ → ℕ → ℕ
wrapping_div w a b =
    let q : ℕ = abs w a / abs w b in
    if is_neg w a
    then (if is_neg w b then q % 2 ^ w else neg w q)
    else (if is_neg w b then neg w q else q)

unfoldable pub wrapping_rem : ℕ → ℕ → ℕ → ℕ
wrapping_rem w a b = let r : ℕ = abs w a % abs w b in if is_neg w a then neg w r else r

unfoldable pub mul : ℕ → ℕ → ℕ
mul rs1 rs2 = rs1 * rs2 % 2 ^ 64

unfoldable pub mulh : ℕ → ℕ → ℕ
unfolding sext
mulh rs1 rs2 = sext 64 128 rs1 * sext 64 128 rs2 % 2 ^ 128 / 2 ^ 64

unfoldable pub mulhsu : ℕ → ℕ → ℕ
unfolding sext
mulhsu rs1 rs2 = sext 64 128 rs1 * rs2 % 2 ^ 128 / 2 ^ 64

unfoldable pub mulhu : ℕ → ℕ → ℕ
mulhu rs1 rs2 = rs1 * rs2 % 2 ^ 128 / 2 ^ 64

-- DIV at 64 bits, and DIVW at 32.
unfoldable pub div_at : ℕ → ℕ → ℕ → ℕ
div_at w rs1 rs2 =
    if rs2 == 0
    then 2 ^ w - 1
    else if (rs1 == 2 ^ (w - 1)) && (rs2 == 2 ^ w - 1)
    then 2 ^ (w - 1)
    else wrapping_div w rs1 rs2

unfoldable pub rem_at : ℕ → ℕ → ℕ → ℕ
rem_at w rs1 rs2 =
    if rs2 == 0
    then rs1
    else if (rs1 == 2 ^ (w - 1)) && (rs2 == 2 ^ w - 1)
    then 0
    else wrapping_rem w rs1 rs2

unfoldable pub divu_at : ℕ → ℕ → ℕ → ℕ
divu_at w rs1 rs2 = if rs2 == 0 then 2 ^ w - 1 else rs1 / rs2

unfoldable pub remu_at : ℕ → ℕ → ℕ → ℕ
remu_at w rs1 rs2 = if rs2 == 0 then rs1 else rs1 % rs2

abbrev pub low_word : ℕ → ℕ
low_word x = x % 2 ^ 32

-- The value that each instruction writes back.
pub data Op : Type 0 where
  op_mul op_mulh op_mulhsu op_mulhu op_div op_divu op_rem op_remu : Op
  op_mulw op_divw op_divuw op_remw op_remuw : Op

unfoldable pub wb_value : Op → ℕ → ℕ → ℕ
wb_value op_mul rs1 rs2 = mul rs1 rs2
wb_value op_mulh rs1 rs2 = mulh rs1 rs2
wb_value op_mulhsu rs1 rs2 = mulhsu rs1 rs2
wb_value op_mulhu rs1 rs2 = mulhu rs1 rs2
wb_value op_div rs1 rs2 = div_at 64 rs1 rs2
wb_value op_divu rs1 rs2 = divu_at 64 rs1 rs2
wb_value op_rem rs1 rs2 = rem_at 64 rs1 rs2
wb_value op_remu rs1 rs2 = remu_at 64 rs1 rs2
wb_value op_mulw rs1 rs2 = sext 32 64 (low_word (mul rs1 rs2))
wb_value op_divw rs1 rs2 = sext 32 64 (div_at 32 (low_word rs1) (low_word rs2))
wb_value op_divuw rs1 rs2 = sext 32 64 (divu_at 32 (low_word rs1) (low_word rs2))
wb_value op_remw rs1 rs2 = sext 32 64 (rem_at 32 (low_word rs1) (low_word rs2))
wb_value op_remuw rs1 rs2 = sext 32 64 (remu_at 32 (low_word rs1) (low_word rs2))

-- The fields of an R-type instruction word.
pub record FormatR : Type 0 where
  pub rd : ℕ
  pub rs1 : ℕ
  pub rs2 : ℕ

unfoldable pub parse_format_r : ℕ → FormatR
parse_format_r word = record {
  rd = word / 2 ^ 7 % 2 ^ 5;
  rs1 = word / 2 ^ 15 % 2 ^ 5;
  rs2 = word / 2 ^ 20 % 2 ^ 5;
}

unfoldable pub operation : Op → ℕ → Gpr → Option Gpr
unfolding parse_format_r
operation op inst gpr = do
  rs1 ← read (parse_format_r inst).rs1 gpr
  rs2 ← read (parse_format_r inst).rs2 gpr
  write (parse_format_r inst).rd (wb_value op rs1 rs2) gpr
