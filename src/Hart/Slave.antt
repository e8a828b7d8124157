-- ===== src/Hart/Slave.antt =====
-- The hart of src/rv64core/cpu_core.rs as the debug module sees it: the trait `DebugModuleSlave` of
-- src/dbg/dm_interface.rs for `CpuCore`.
use riscv64_emu_rust.Base.{Bool, true, false, Option, none, some, ◌>>=◌, ℕ}
use riscv64_emu_rust.Access.{Caches}
use riscv64_emu_rust.Bus.{Reply, ok, err}
use riscv64_emu_rust.Gpr
use riscv64_emu_rust.Csr.File.{read_raw, write_raw}
use riscv64_emu_rust.Dbg.{Slave}
use riscv64_emu_rust.Hart.{DebugState, CpuState, running, haltd, stopped, aborted, CpuCore}

abbrev pub is_haltd : CpuState → Bool
is_haltd haltd = true
is_haltd running = false
is_haltd stopped = false
is_haltd aborted = false

module _ {M S : Type 0} where
  abbrev pub with_debug : (DebugState → DebugState) → CpuCore M S → CpuCore M S
  with_debug f cpu = record cpu { debug_state = f cpu.debug_state }

  -- An access that the bus refuses is `none`.
  abbrev pub answered : CpuCore M S → Reply ℕ × M → Option (Option ℕ × CpuCore M S)
  answered cpu (ok word, m) = some (some word, record cpu { memory = m })
  answered cpu (err _, m) = some (none, record cpu { memory = m })

abbrev pub slave : {M S : Type 0} → Caches M → Slave (CpuCore M S)
slave caches = record {
  read_gpr = λ n cpu. Gpr.read n cpu.gpr;
  write_gpr = λ n word cpu. Gpr.write n word cpu.gpr >>= λ gpr. some (record cpu { gpr = gpr });
  read_memory = λ address length cpu. caches.dcache_read address length cpu.memory >>= answered cpu;
  write_memory = λ address length word cpu.
      caches.dcache_write address word length cpu.memory >>= answered cpu;
  read_csr = λ addr cpu. read_raw addr cpu.csr_regs;
  write_csr = λ addr word cpu.
      write_raw addr word cpu.csr_regs >>= λ regs. some (record cpu { csr_regs = regs });
  set_haltreq = λ v cpu. with_debug (λ d. record d { haltreq_signal = v }) cpu;
  resumereq = λ cpu. with_debug (λ d. record d { resumereq_flag = true; resumeack = false }) cpu;
  halted = λ cpu. is_haltd cpu.cpu_state;
  resume_ack = λ cpu. cpu.debug_state.resumeack;
  set_reset_req = λ v cpu. with_debug (λ d. record d { resetreq_signal = v }) cpu;
  havereset = λ cpu. cpu.debug_state.havereset;
  clear_havereset = λ cpu. with_debug (λ d. record d { havereset = false }) cpu;
}
