-- ===== src/Hart/Laws.antt =====
-- The hart of src/rv64core/cpu_core.rs under the debug module of src/dbg/debug_module.rs: it halts and
-- resumes as the debugger asks, and steps.
pub mod Step
pub mod Access
use riscv64_emu_rust.Base.{
  Bool-cases, Option-cases, inl, inr, Bool, true, false, Option, some, none, ◌>>=◌, assert,
  if◌then◌else◌, ℕ, ◌+◌, ◌*◌, ◌%◌, ◌^◌, ◌==◌, ltb, ◌≡◌, refl, ap, ◌∙◌, sym, arith, to_nat,
}
use riscv64_emu_rust.Base.Bits.{get_bit, set_bit, get_field, set_field, get_bit-set_bit}
use riscv64_emu_rust.Base.Fields.{get_field-set_field, get_bit-set_field}
use riscv64_emu_rust.Access.{Caches}
use riscv64_emu_rust.Trap.{PrivilegeLevels, user, supervisor, machine, priv_num, priv_from_usize}
use riscv64_emu_rust.Csr.Cells.{Cell, Store, put}
use riscv64_emu_rust.Csr.Define.{dcsr_step, set_prv}
use riscv64_emu_rust.Csr.File.{Config}
use riscv64_emu_rust.Dbg.{DebugModule}
use riscv64_emu_rust.Dbg.Dmi.{dmi_write, control_hart}
use riscv64_emu_rust.Dbg.Registers.{haltreq, resumereq, ndmreset, ackhavereset}
use riscv64_emu_rust.Hart.{
  DebugState, CpuState, running, haltd, CpuCore, DebugCause, cause_num, halt_req, step, get_cell,
  enter_debug_mode, resume_proc, resumed, left_machine,
}
use riscv64_emu_rust.Hart.Run.{
  Insns, run_round, halted_round, execute, single_step_proc, real_excute,
}
use riscv64_emu_rust.Hart.Slave.{slave}
use riscv64_emu_rust.Hart.Control.{saved_priv, after_control, dmi_write-control}

module _ {M S : Type 0} (config : Config) (insns : Insns M S) (cpu : CpuCore M S) where
  pub execute-halt :
      cpu.cpu_state ≡ running
      → cpu.debug_state.resetreq_signal ≡ false
      → cpu.debug_state.haltreq_signal ≡ true
      → execute config insns 1 cpu ≡ some (enter_debug_mode halt_req cpu.npc cpu)
  unfolding execute run_round
  execute-halt s r h = rw (s, r, h) refl

  pub execute-resume :
      (privi : PrivilegeLevels)
      → cpu.cpu_state ≡ haltd
      → cpu.debug_state.debug_mode ≡ true
      → cpu.debug_state.resumereq_flag ≡ true
      → priv_from_usize (get_field 0 2 (get_cell Cell.dcsr cpu)) ≡ some privi
      → execute config insns 1 cpu ≡ some (resumed privi cpu)
  unfolding execute halted_round resume_proc
  execute-resume privi s d r e = rw (s, r, d, e) refl

module _ {M S : Type 0} (caches : Caches M) (config : Config) (insns : Insns M S) where
  -- A debugger that asks a running hart to halt and then to resume, each by a write of dmcontrol and each
  -- followed by one round of the loop: the write is answered, and the hart halts in that round, in
  -- machine mode. After the second round it runs again at the instruction where it would have gone on
  -- and with the privilege that it had, and it acknowledges. Its integer registers and its memory are as before,
  -- and so is the status word, but that MPRV is cleared below machine mode. The reset is not asked for.
  pub halt-resume :
      (dm : DebugModule) (cpu : CpuCore M S) (halt resume : ℕ)
      → cpu.cpu_state ≡ running
      → get_bit haltreq (halt % 2 ^ 32) ≡ true
      → get_bit ndmreset (halt % 2 ^ 32) ≡ false
      → get_bit haltreq (resume % 2 ^ 32) ≡ false
      → get_bit resumereq (resume % 2 ^ 32) ≡ true
      → (dm1 : DebugModule) × (cpu1 : CpuCore M S) × (dmi_write (slave caches) 0x10 halt dm cpu
          ≡ some (true, dm1, cpu1))
        × (cpu2 : CpuCore M S) × (execute config insns 1 cpu1 ≡ some cpu2)
        × (cpu2.cpu_state ≡ haltd)
        × (cpu2.cur_priv ≡ machine)
        × (dm3 : DebugModule) × (cpu3 : CpuCore M S) × (dmi_write
              (slave caches)
              0x10
              resume
              dm1
              cpu2
            ≡ some (true, dm3, cpu3))
        × (cpu4 : CpuCore M S) × (execute config insns 1 cpu3 ≡ some cpu4)
        × (cpu4.cpu_state ≡ running)
        × (cpu4.npc ≡ cpu.npc)
        × (cpu4.cur_priv ≡ cpu.cur_priv)
        × (cpu4.debug_state.resumeack ≡ true)
        × (cpu4.gpr ≡ cpu.gpr)
        × (cpu4.memory ≡ cpu.memory)
        × (get_cell Cell.xstatus cpu4 ≡ left_machine cpu.cur_priv cpu)
  unfolding enter_debug_mode
  halt-resume dm cpu halt resume runs h1 h2 r1 r2 =
      let cpu1 = after_control caches dm cpu halt in
      let cpu2 = enter_debug_mode halt_req cpu.npc cpu1 in
      let dm1 = record dm { dmcontrol = halt % 2 ^ 32 } in
      let cpu3 = after_control caches dm1 cpu2 resume in
      (
        dm1,
        cpu1,
        dmi_write-control caches dm cpu halt,
        cpu2,
        execute-halt config insns cpu1 runs h2 h1,
        refl,
        refl,
        record dm1 { dmcontrol = resume % 2 ^ 32 },
        cpu3,
        dmi_write-control caches dm1 cpu2 resume,
        resumed cpu.cur_priv cpu3,
        execute-resume config insns cpu3 cpu.cur_priv refl refl (rw (r1, r2) refl)
            (saved_priv cpu.cur_priv _),
        refl,
        refl,
        refl,
        refl,
        refl,
        refl,
        refl,
      )
