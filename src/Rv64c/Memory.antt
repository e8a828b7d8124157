-- ===== src/Rv64c/Memory.antt =====
-- The compressed loads and stores of src/rv64core/inst/inst_rv64c.rs. `none` is a panic.
use riscv64_emu_rust.Base.{Option, ◌>>=◌, ℕ, ◌+◌, ◌%◌, ◌^◌}
use riscv64_emu_rust.Access.{load, store, Result, Caches}
use riscv64_emu_rust.Gpr
use riscv64_emu_rust.Mmu.{Tlb}
use riscv64_emu_rust.Core.{Core, read, write}
use riscv64_emu_rust.Core.LoadStore.{lw, ld, extended, write_back, finish}
use riscv64_emu_rust.Rv64c.Formats.{
  parse_format_ci, parse_format_css, parse_format_cl, parse_format_cs, imm_c_lwsp, imm_c_ldsp,
  imm_c_swsp, imm_c_sdsp, imm_c_lw, imm_c_ld, imm_c_sw, imm_c_sd,
}

module _ {M T : Type 0} (caches : Caches M) (tlb : Tlb T) where
  -- `f` makes of the data in memory what `rd` gets.
  abbrev pub load_at : ℕ → ℕ → ℕ → ℕ → (ℕ → ℕ) → Core M T → Option (Result Unit × Core M T)
  load_at base imm len rd f core = Gpr.read base core.gpr >>= λ x.
      let mem_addr : ℕ = (x + imm) % 2 ^ 64 in
      read caches tlb mem_addr len (load mem_addr) core >>= write_back rd f

  abbrev pub store_at : ℕ → ℕ → ℕ → ℕ → Core M T → Option (Result Unit × Core M T)
  store_at rs2 base imm len core = Gpr.read rs2 core.gpr >>= λ wdata.
      Gpr.read base core.gpr >>= λ x.
      let mem_addr : ℕ = (x + imm) % 2 ^ 64 in
      write caches tlb mem_addr wdata len (store mem_addr) core >>= finish

  unfoldable pub c_lwsp : ℕ → Core M T → Option (Result Unit × Core M T)
  c_lwsp inst =
      load_at 2 (imm_c_lwsp (parse_format_ci inst)) 4 (parse_format_ci inst).rd_rs1 (extended lw)

  unfoldable pub c_ldsp : ℕ → Core M T → Option (Result Unit × Core M T)
  c_ldsp inst =
      load_at 2 (imm_c_ldsp (parse_format_ci inst)) 8 (parse_format_ci inst).rd_rs1 (extended ld)

  unfoldable pub c_swsp : ℕ → Core M T → Option (Result Unit × Core M T)
  c_swsp inst = store_at (parse_format_css inst).rs2 2 (imm_c_swsp (parse_format_css inst)) 4

  unfoldable pub c_sdsp : ℕ → Core M T → Option (Result Unit × Core M T)
  c_sdsp inst = store_at (parse_format_css inst).rs2 2 (imm_c_sdsp (parse_format_css inst)) 8

  unfoldable pub c_lw : ℕ → Core M T → Option (Result Unit × Core M T)
  c_lw inst =
      load_at (parse_format_cl inst).rs1 (imm_c_lw (parse_format_cl inst)) 4
        (parse_format_cl inst).rd (extended lw)

  unfoldable pub c_ld : ℕ → Core M T → Option (Result Unit × Core M T)
  c_ld inst =
      load_at (parse_format_cl inst).rs1 (imm_c_ld (parse_format_cl inst)) 8
        (parse_format_cl inst).rd (extended ld)

  unfoldable pub c_sw : ℕ → Core M T → Option (Result Unit × Core M T)
  c_sw inst =
      store_at (parse_format_cs inst).rs2 (parse_format_cs inst).rs1
        (imm_c_sw (parse_format_cs inst)) 4

  unfoldable pub c_sd : ℕ → Core M T → Option (Result Unit × Core M T)
  c_sd inst =
      store_at (parse_format_cs inst).rs2 (parse_format_cs inst).rs1
        (imm_c_sd (parse_format_cs inst)) 8
