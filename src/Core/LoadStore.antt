-- ===== src/Core/LoadStore.antt =====
-- The loads and stores of src/rv64core/inst/inst_rv64i.rs, and `parse_format_s` of
-- src/rv64core/inst/inst_base.rs. `none` is a panic.
use riscv64_emu_rust.Base.{Option, some, ◌>>=◌, ℕ, ◌+◌, ◌/◌, ◌%◌, ◌^◌, bit_and, bit_or}
use riscv64_emu_rust.Access.{load, store, Result, value, raise, Caches}
use riscv64_emu_rust.Gpr
use riscv64_emu_rust.Mmu.{Tlb}
use riscv64_emu_rust.Rv64m.{sext}
use riscv64_emu_rust.Rv64i.{parse_format_i, sign_bits}
use riscv64_emu_rust.Core.{Core, read, write}

pub record FormatS : Type 0 where
  pub rs1 : ℕ
  pub rs2 : ℕ
  pub imm : ℕ

unfoldable pub parse_format_s : ℕ → FormatS
parse_format_s word = record {
  rs1 = bit_and (word / 2 ^ 15) 0x1f;
  rs2 = bit_and (word / 2 ^ 20) 0x1f;
  imm = sext 32 64 (
      bit_or (bit_or (sign_bits word 0xfffff000) (bit_and (word / 2 ^ 20) 0xfe0))
        (bit_and (word / 2 ^ 7) 0x1f));
}

pub data LoadOp : Type 0 where
  lb lh lw ld lbu lhu lwu : LoadOp

abbrev pub load_len : LoadOp → ℕ
load_len lb = 1
load_len lh = 2
load_len lw = 4
load_len ld = 8
load_len lbu = 1
load_len lhu = 2
load_len lwu = 4

-- The register's value: `as i8 as i64 as u64`, `as u8 as u64` and so on.
unfoldable pub extended : LoadOp → ℕ → ℕ
unfolding sext
extended lb mem_data = sext 8 64 (mem_data % 2 ^ 8)
extended lh mem_data = sext 16 64 (mem_data % 2 ^ 16)
extended lw mem_data = sext 32 64 (mem_data % 2 ^ 32)
extended ld mem_data = mem_data
extended lbu mem_data = mem_data % 2 ^ 8
extended lhu mem_data = mem_data % 2 ^ 16
extended lwu mem_data = mem_data % 2 ^ 32

pub data StoreOp : Type 0 where
  sb sh sw sd : StoreOp

abbrev pub store_len : StoreOp → ℕ
store_len sb = 1
store_len sh = 2
store_len sw = 4
store_len sd = 8

-- `as u8`, `as u16`, `as u32`, or the whole register.
unfoldable pub truncated : StoreOp → ℕ → ℕ
truncated sb rs2 = rs2 % 2 ^ 8
truncated sh rs2 = rs2 % 2 ^ 16
truncated sw rs2 = rs2 % 2 ^ 32
truncated sd rs2 = rs2

module _ {M T : Type 0} where
  -- A register written with the value read, or the exception passed on.
  abbrev pub write_back : ℕ → (ℕ → ℕ) → Result ℕ × Core M T → Option (Result Unit × Core M T)
  write_back rd f (raise t, core) = some (raise t, core)
  write_back rd f (value word, core) =
      Gpr.write rd (f word) core.gpr >>= λ gpr. some (value tt, record core { gpr = gpr })

  abbrev pub finish : Result ℕ × Core M T → Option (Result Unit × Core M T)
  finish (raise t, core) = some (raise t, core)
  finish (value _, core) = some (value tt, core)

module _ {M T : Type 0} (caches : Caches M) (tlb : Tlb T) where
  unfoldable pub execute_load : LoadOp → ℕ → Core M T → Option (Result Unit × Core M T)
  unfolding parse_format_i Gpr.read Gpr.write read extended
  execute_load op inst core = Gpr.read (parse_format_i inst).rs1 core.gpr >>= λ rs1.
      let mem_addr : ℕ = (rs1 + (parse_format_i inst).imm) % 2 ^ 64 in
      read caches tlb mem_addr (load_len op) (load mem_addr) core
      >>= write_back (parse_format_i inst).rd (extended op)

  unfoldable pub execute_store : StoreOp → ℕ → Core M T → Option (Result Unit × Core M T)
  unfolding parse_format_s Gpr.read write truncated
  execute_store op inst core = Gpr.read (parse_format_s inst).rs1 core.gpr >>= λ rs1.
      Gpr.read (parse_format_s inst).rs2 core.gpr >>= λ rs2.
      let mem_addr : ℕ = (rs1 + (parse_format_s inst).imm) % 2 ^ 64 in
      write caches tlb mem_addr (truncated op rs2) (store_len op) (store mem_addr) core >>= finish
