-- ===== src/Hart/Run.antt =====
-- The loop of src/rv64core/cpu_core.rs, `execute`, and what it calls. The instructions, which Rv64i, Rv64m,
-- Rv64c, Core and Csr model, are the parameter `Insns` here, with the reset of the decoder and of the
-- caches. `none` is a panic.
use riscv64_emu_rust.Base.{
  Bool, true, false, not, Option, some, ◌>>=◌, assert, if◌then◌else◌, ℕ, zero, suc, ◌+◌, ◌^◌, ltb,
}
use riscv64_emu_rust.Access.{Result, value, raise}
use riscv64_emu_rust.Gpr
use riscv64_emu_rust.Cpu.Traps.{handle_exceptions, handle_interrupt}
use riscv64_emu_rust.Csr.Cells.{Cell}
use riscv64_emu_rust.Csr.File
use riscv64_emu_rust.Csr.File.{Config}
use riscv64_emu_rust.Hart.{
  debug_new, CpuState, running, haltd, stopped, aborted, CpuCore, halt_req, step, get_cell,
  set_cell, enter_debug_mode, resume_proc, on_traps,
}

-- An instruction at `npc`: `inst_fetch`, `advance_pc` and `decode_and_excute`.
pub record Insns (M S : Type 0) : Type 0 where
  pub instruction : CpuCore M S → Option (Result Unit × CpuCore M S)
  pub clear : M → S → M × S

abbrev pub is_running : CpuState → Bool
is_running running = true
is_running _ = false

module _ {M S : Type 0} where
  -- `cycle + 1` or `instret + 1`, which panics at the greatest word.
  abbrev pub count : Cell → CpuCore M S → Option (CpuCore M S)
  count c cpu =
      assert (ltb (get_cell c cpu + 1) (2 ^ 64)) (some (set_cell c (get_cell c cpu + 1) cpu))

  abbrev pub completed : Result Unit × CpuCore M S → Option (CpuCore M S)
  unfolding on_traps handle_exceptions
  completed (raise trap_type, cpu) = on_traps (handle_exceptions trap_type) cpu
  completed (value _, cpu) = count Cell.instret cpu

module _ {M S : Type 0} (config : Config) (insns : Insns M S) where
  -- The privilege stays.
  unfoldable pub reset : CpuCore M S → CpuCore M S
  unfolding Gpr.new File.reset debug_new
  reset cpu =
      let (memory, rest) = insns.clear cpu.memory cpu.rest in
      record cpu {
        gpr = Gpr.new;
        csr_regs = File.reset config cpu.csr_regs;
        npc = 0x80000000;
        cpu_state = running;
        debug_state = debug_new;
        memory = memory;
        rest = rest;
      }

  unfoldable pub real_excute : CpuCore M S → Option (CpuCore M S)
  unfolding on_traps handle_exceptions
  real_excute cpu = assert (not cpu.debug_state.debug_mode) (
      assert (is_running cpu.cpu_state)
        (count Cell.cycle cpu >>= λ cpu'. insns.instruction cpu' >>= completed))

  unfoldable pub single_step_proc : CpuCore M S → Option (CpuCore M S)
  unfolding real_excute enter_debug_mode
  single_step_proc cpu = assert cpu.debug_state.singlestep_flag (
      let cpu' = record cpu { debug_state = record cpu.debug_state { singlestep_flag = false } } in
      real_excute cpu' >>= λ cpu''. some (enter_debug_mode step cpu''.npc cpu''))

  -- A round of a hart that runs.
  unfoldable pub run_round : CpuCore M S → Option (CpuCore M S)
  unfolding reset enter_debug_mode single_step_proc real_excute on_traps handle_interrupt
  run_round cpu =
      if cpu.debug_state.resetreq_signal
      then some (reset (record cpu { debug_state = record cpu.debug_state { havereset = true } }))
      else if cpu.debug_state.haltreq_signal
      then some (enter_debug_mode halt_req cpu.npc cpu)
      else if cpu.debug_state.singlestep_flag
      then single_step_proc cpu
      else (real_excute cpu >>= on_traps handle_interrupt)

  unfoldable pub halted_round : CpuCore M S → Option (CpuCore M S)
  unfolding resume_proc
  halted_round cpu = if cpu.debug_state.resumereq_flag then resume_proc cpu else some cpu

  -- A hart that is stopped leaves the loop.
  unfoldable pub execute : ℕ → CpuCore M S → Option (CpuCore M S)
  execute zero cpu = some cpu
  execute (suc n) cpu = elim cpu.cpu_state [
    | running ↦ run_round cpu >>= execute n
    | haltd ↦ halted_round cpu >>= execute n
    | stopped ↦ some cpu
    | aborted ↦ some cpu
  ]
