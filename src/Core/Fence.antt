-- ===== src/Core/Fence.antt =====
-- SFENCE.VMA and FENCE.I of src/rv64core/inst/inst_rv64z.rs. `none` is a panic.
use riscv64_emu_rust.Base.{Option, some, ◌>>=◌, not, if◌then◌else◌, ℕ, ◌%◌, ◌^◌}
use riscv64_emu_rust.Base.Bits.{get_bit}
use riscv64_emu_rust.Access.{Result, value, raise, Caches}
use riscv64_emu_rust.Cache.{HashIter}
use riscv64_emu_rust.Cache.Icache.{CacheSystem, system_clear}
use riscv64_emu_rust.Csr.Xstatus.{tvm}
use riscv64_emu_rust.Gpr
use riscv64_emu_rust.Mmu.{Tlb}
use riscv64_emu_rust.Mmu.Fence.{fence_vma}
use riscv64_emu_rust.Rv64m.{parse_format_r}
use riscv64_emu_rust.Trap.{illegal_instruction, supervisor, machine, check_priv}
use riscv64_emu_rust.Core.{Core}

module _ {M T : Type 0} (tlb : Tlb T) where
  unfoldable pub sfence_vma : ℕ → Core M T → Option (Result Unit × Core M T)
  unfolding parse_format_r Gpr.read get_bit check_priv fence_vma
  sfence_vma inst core =
      let f = parse_format_r inst in
      let require_priv = if get_bit tvm core.mmu.mstatus then machine else supervisor in
      Gpr.read f.rs1 core.gpr >>= λ rs1_data. Gpr.read f.rs2 core.gpr >>= λ rs2_data.
      if not (check_priv require_priv core.mmu.cur_priv)
      then some (raise (illegal_instruction inst), core)
      else (fence_vma tlb rs1_data (rs2_data % 2 ^ 16) core.mmu >>= λ mmu.
          some (value tt, record core { mmu = mmu }))

module _ {M T : Type 0} (order : HashIter) (bus : Caches M) where
  unfoldable pub fence_i : Core (CacheSystem M) T → Option (Result Unit × Core (CacheSystem M) T)
  unfolding system_clear
  fence_i core = system_clear order bus core.memory >>= λ memory.
      some (value tt, record core { memory = memory })
