-- ===== src/Cpu.antt =====
-- `CpuCore` of src/rv64core/cpu_core.rs: the registers that taking a trap and returning from one
-- touch. The csrs are the shared words of src/rv64core/csr_regs.rs.
pub mod Traps
pub mod Return
pub mod Laws
mod Examples
use riscv64_emu_rust.Base.{ℕ}
use riscv64_emu_rust.Trap.{PrivilegeLevels}

pub record CpuCore : Type 0 where
  pub pc : ℕ
  pub npc : ℕ
  pub cur_priv : PrivilegeLevels
  pub xstatus : ℕ
  pub xip : ℕ
  pub xie : ℕ
  pub mtvec : ℕ
  pub stvec : ℕ
  pub mcause : ℕ
  pub scause : ℕ
  pub medeleg : ℕ
  pub mideleg : ℕ
  pub mepc : ℕ
  pub sepc : ℕ
  pub mtval : ℕ
  pub stval : ℕ
