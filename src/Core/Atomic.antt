-- ===== src/Core/Atomic.antt =====
-- src/rv64core/inst/inst_rv64a.rs: LR and SC with their reservation, and the atomic memory operations.
-- `none` is a panic, and among others an exception of an atomic operation's write, which the code
-- unwraps.
use riscv64_emu_rust.Base.{
  Bool, true, false, Option, none, some, ◌>>=◌, if◌then◌else◌, ℕ, ◌+◌, ◌-◌, ◌%◌, ◌^◌, ◌==◌, ltb,
  bit_and, bit_or, bit_xor,
}
use riscv64_emu_rust.Access.{load, store, amo, Result, value, raise, Caches}
use riscv64_emu_rust.Gpr
use riscv64_emu_rust.Mmu.{Tlb}
use riscv64_emu_rust.Rv64m.{sext, is_neg, parse_format_r}
use riscv64_emu_rust.Core.{Core, read, write}
use riscv64_emu_rust.Core.LoadStore.{write_back}

-- The reservation that no aligned address equals.
abbrev pub cleared : ℕ
cleared = 2 ^ 64 - 1

module _ {M T : Type 0} where
  unfoldable pub lr_sc_reservation_set : ℕ → Core M T → Core M T
  lr_sc_reservation_set addr core = record core { reservation = addr }

  unfoldable pub lr_sc_reservation_check_and_clear : ℕ → Core M T → Bool × Core M T
  lr_sc_reservation_check_and_clear addr core =
      (core.reservation == addr, record core { reservation = cleared })

  abbrev pub reserve : ℕ → Result ℕ × Core M T → Result ℕ × Core M T
  reserve addr (raise t, core) = (raise t, core)
  reserve addr (value r_data, core) = (value r_data, lr_sc_reservation_set addr core)

  abbrev pub set_rd : ℕ → ℕ → Core M T → Option (Result Unit × Core M T)
  set_rd rd wdata core =
      Gpr.write rd wdata core.gpr >>= λ gpr. some (value tt, record core { gpr = gpr })

  -- `rd` is 0 after a store that went through.
  abbrev pub stored : ℕ → Result ℕ × Core M T → Option (Result Unit × Core M T)
  stored rd (raise t, core) = some (raise t, core)
  stored rd (value _, core) = set_rd rd 0 core

-- What goes on after an `unwrap`.
abbrev pub unwrapped : {A : Type 0} → Option A → Result ℕ → Option A
unwrapped next (raise _) = none
unwrapped next (value _) = next

-- The operations of 4 and of 8 bytes.
pub data Width : Type 0 where
  word double : Width

abbrev pub width_len : Width → ℕ
width_len word = 4
width_len double = 8

-- `as i32 as i64 as u64` of a word of 4 bytes.
abbrev pub sign_extended : Width → ℕ → ℕ
sign_extended word r_data = sext 32 64 (r_data % 2 ^ 32)
sign_extended double r_data = r_data

pub data AmoOp : Type 0 where
  amoswap amoxor amoor amominu amomin amomaxu amomax amoand amoadd : AmoOp

-- The order of signed integers of `n` bits.
unfoldable pub signed_lt_at : ℕ → ℕ → ℕ → Bool
signed_lt_at n x y =
    if is_neg n x
    then (if is_neg n y then ltb x y else true)
    else (if is_neg n y then false else ltb x y)

abbrev pub min : (ℕ → ℕ → Bool) → ℕ → ℕ → ℕ
min lt x y = if lt y x then y else x

abbrev pub max : (ℕ → ℕ → Bool) → ℕ → ℕ → ℕ
max lt x y = if lt y x then x else y

-- The word that each operation writes, from the one in memory and the register; the write keeps as
-- many bytes as the width has.
unfoldable pub amo_w : AmoOp → ℕ → ℕ → ℕ
unfolding signed_lt_at sext
amo_w amoswap tmp rs2 = rs2
amo_w amoxor tmp rs2 = bit_xor tmp rs2
amo_w amoor tmp rs2 = bit_or tmp rs2
amo_w amominu tmp rs2 = min ltb (tmp % 2 ^ 32) (rs2 % 2 ^ 32)
amo_w amomin tmp rs2 = sext 32 64 (min (signed_lt_at 32) (tmp % 2 ^ 32) (rs2 % 2 ^ 32))
amo_w amomaxu tmp rs2 = max ltb (tmp % 2 ^ 32) (rs2 % 2 ^ 32)
amo_w amomax tmp rs2 = sext 32 64 (max (signed_lt_at 32) (tmp % 2 ^ 32) (rs2 % 2 ^ 32))
amo_w amoand tmp rs2 = bit_and (tmp % 2 ^ 32) (rs2 % 2 ^ 32)
amo_w amoadd tmp rs2 = (tmp % 2 ^ 32 + rs2 % 2 ^ 32) % 2 ^ 32

unfoldable pub amo_d : AmoOp → ℕ → ℕ → ℕ
unfolding signed_lt_at
amo_d amoswap tmp rs2 = rs2
amo_d amoxor tmp rs2 = bit_xor tmp rs2
amo_d amoor tmp rs2 = bit_or tmp rs2
amo_d amominu tmp rs2 = min ltb tmp rs2
amo_d amomin tmp rs2 = min (signed_lt_at 64) tmp rs2
amo_d amomaxu tmp rs2 = max ltb tmp rs2
amo_d amomax tmp rs2 = max (signed_lt_at 64) tmp rs2
amo_d amoand tmp rs2 = bit_and tmp rs2
amo_d amoadd tmp rs2 = (tmp + rs2) % 2 ^ 64

abbrev pub amo_write : Width → AmoOp → ℕ → ℕ → ℕ
amo_write word = amo_w
amo_write double = amo_d

module _ {M T : Type 0} (caches : Caches M) (tlb : Tlb T) where
  unfoldable pub execute_lr : Width → ℕ → Core M T → Option (Result Unit × Core M T)
  unfolding parse_format_r Gpr.read Gpr.write read sext lr_sc_reservation_set
  execute_lr width inst core = Gpr.read (parse_format_r inst).rs1 core.gpr >>= λ rs1.
      read caches tlb rs1 (width_len width) (load rs1) core >>= λ r.
      write_back (parse_format_r inst).rd (sign_extended width) (reserve rs1 r)

  unfoldable pub execute_sc : Width → ℕ → Core M T → Option (Result Unit × Core M T)
  unfolding parse_format_r Gpr.read Gpr.write write lr_sc_reservation_check_and_clear
  execute_sc width inst core = Gpr.read (parse_format_r inst).rs1 core.gpr >>= λ rs1.
      Gpr.read (parse_format_r inst).rs2 core.gpr >>= λ rs2.
      let checked = lr_sc_reservation_check_and_clear rs1 core in
      if checked.0
      then (write caches tlb rs1 rs2 (width_len width) (store rs1) checked.1
          >>= stored (parse_format_r inst).rd)
      else set_rd (parse_format_r inst).rd 1 checked.1

  -- After the read: the write is unwrapped, and `rd` is set to what was read.
  abbrev pub modify :
      Width → AmoOp → ℕ → ℕ → ℕ → Result ℕ × Core M T → Option (Result Unit × Core M T)
  modify width op rd rs1 rs2 (raise t, core) = some (raise t, core)
  modify width op rd rs1 rs2 (value tmp, core) =
      write caches tlb rs1 (amo_write width op tmp rs2) (width_len width) (amo rs1) core
      >>= λ (r, core'). unwrapped (set_rd rd (sign_extended width tmp) core') r

  unfoldable pub execute_amo : Width → AmoOp → ℕ → Core M T → Option (Result Unit × Core M T)
  unfolding parse_format_r Gpr.read Gpr.write read write sext amo_w amo_d
  execute_amo width op inst core = Gpr.read (parse_format_r inst).rs1 core.gpr >>= λ rs1.
      Gpr.read (parse_format_r inst).rs2 core.gpr >>= λ rs2.
      read caches tlb rs1 (width_len width) (amo rs1) core
      >>= modify width op (parse_format_r inst).rd rs1 rs2
