-- ===== src/Hart.antt =====
-- `CpuCore` of src/rv64core/cpu_core.rs with its debug mode: the state that its loop, its traps and the
-- debug module work on. `M` holds the caches and the bus, and `S` the MMU and the decoder. `none` is a
-- panic.
pub mod Run
pub mod Slave
pub mod Control
pub mod Laws
mod Examples
use riscv64_emu_rust.Base.{
  Bool, true, false, Option, some, ◌>>=◌, assert, if◌then◌else◌, ℕ, ◌==◌, ltb,
}
use riscv64_emu_rust.Base.Bits.{get_bit, set_bit, get_field, set_field}
use riscv64_emu_rust.Gpr
use riscv64_emu_rust.Gpr.{Gpr}
use riscv64_emu_rust.Trap.{
  TrapType, breakpoint, PrivilegeLevels, user, supervisor, machine, priv_num, priv_from_usize,
}
use riscv64_emu_rust.Cpu
use riscv64_emu_rust.Cpu.Traps
use riscv64_emu_rust.Csr.Cells.{Cell, Store, put}
use riscv64_emu_rust.Csr.Define.{dcsr_step, ebreaku, ebreaks, ebreakm, set_prv}
use riscv64_emu_rust.Csr.File
use riscv64_emu_rust.Csr.File.{Config, CsrRegs}
use riscv64_emu_rust.Csr.Xstatus.{mprv}
use riscv64_emu_rust.Access.{Result, value, raise}

pub record DebugState : Type 0 where
  pub resumereq_flag : Bool
  pub singlestep_flag : Bool
  pub resetreq_signal : Bool
  pub haltreq_signal : Bool
  pub resumeack : Bool
  pub havereset : Bool
  pub debug_mode : Bool

unfoldable pub debug_new : DebugState
debug_new = record {
  resumereq_flag = false;
  singlestep_flag = false;
  resetreq_signal = false;
  haltreq_signal = false;
  resumeack = false;
  havereset = false;
  debug_mode = false;
}

pub data CpuState : Type 0 where
  running haltd stopped aborted : CpuState

pub record CpuCore (M S : Type 0) : Type 0 where
  pub gpr : Gpr
  pub csr_regs : CsrRegs
  pub pc : ℕ
  pub npc : ℕ
  pub cur_priv : PrivilegeLevels
  pub cpu_state : CpuState
  pub debug_state : DebugState
  pub memory : M
  pub rest : S

pub data DebugCause : Type 0 where
  no_debug ebreak trigger halt_req step reset_halt_req group : DebugCause

abbrev pub cause_num : DebugCause → ℕ
cause_num no_debug = 0
cause_num ebreak = 1
cause_num trigger = 2
cause_num halt_req = 3
cause_num step = 4
cause_num reset_halt_req = 5
cause_num group = 6

-- Which bit of dcsr sends an EBREAK of a privilege to the debugger.
abbrev pub ebreak_bit : PrivilegeLevels → ℕ
ebreak_bit machine = ebreakm
ebreak_bit supervisor = ebreaks
ebreak_bit user = ebreaku

-- The cells with those registers in them.
abbrev pub trap_cells : Cpu.CpuCore → Store → Store
trap_cells c s Cell.xstatus = c.xstatus
trap_cells c s Cell.xip = c.xip
trap_cells c s Cell.xie = c.xie
trap_cells c s Cell.mtvec = c.mtvec
trap_cells c s Cell.stvec = c.stvec
trap_cells c s Cell.mcause = c.mcause
trap_cells c s Cell.scause = c.scause
trap_cells c s Cell.medeleg = c.medeleg
trap_cells c s Cell.mideleg = c.mideleg
trap_cells c s Cell.mepc = c.mepc
trap_cells c s Cell.sepc = c.sepc
trap_cells c s Cell.mtval = c.mtval
trap_cells c s Cell.stval = c.stval
trap_cells c s cell = s cell

module _ {M S : Type 0} where
  abbrev pub get_cell : Cell → CpuCore M S → ℕ
  get_cell c cpu = cpu.csr_regs.cells c

  abbrev pub set_cell : Cell → ℕ → CpuCore M S → CpuCore M S
  set_cell c v cpu = record cpu {
    csr_regs = record cpu.csr_regs { cells = put c v cpu.csr_regs.cells };
  }

  unfoldable pub enter_debug_mode : DebugCause → ℕ → CpuCore M S → CpuCore M S
  unfolding priv_num set_bit set_field
  enter_debug_mode cause pc cpu =
      let dcsr : ℕ = set_bit 5 false (
        set_prv (priv_num cpu.cur_priv)
          (set_field 6 3 (cause_num cause) (get_cell Cell.dcsr cpu))) in
      let cpu' = set_cell Cell.dpc pc (set_cell Cell.dcsr dcsr cpu) in
      record cpu' {
        debug_state = record cpu.debug_state { debug_mode = true };
        cpu_state = haltd;
        cur_priv = machine;
      }

  -- MPRV is cleared where the hart leaves machine mode.
  abbrev pub left_machine : PrivilegeLevels → CpuCore M S → ℕ
  left_machine privi cpu =
      if ltb (priv_num privi) (priv_num machine)
      then set_bit mprv false (get_cell Cell.xstatus cpu)
      else get_cell Cell.xstatus cpu

  abbrev pub resumed : PrivilegeLevels → CpuCore M S → CpuCore M S
  resumed privi cpu =
      let single = get_bit dcsr_step (get_cell Cell.dcsr cpu) in
      let cpu' = set_cell Cell.xstatus (left_machine privi cpu) cpu in
      record cpu' {
        npc = get_cell Cell.dpc cpu;
        cur_priv = privi;
        cpu_state = running;
        debug_state = record cpu.debug_state {
          resumereq_flag = false;
          debug_mode = false;
          resumeack = true;
          singlestep_flag = if single then true else cpu.debug_state.singlestep_flag;
        };
      }

  unfoldable pub resume_proc : CpuCore M S → Option (CpuCore M S)
  unfolding priv_num priv_from_usize get_bit set_bit get_field
  resume_proc cpu = assert cpu.debug_state.debug_mode (
      priv_from_usize (get_field 0 2 (get_cell Cell.dcsr cpu)) >>= λ privi.
      some (resumed privi cpu))

  -- In debug mode it does nothing.
  unfoldable pub handle_ebreak : ℕ → CpuCore M S → Result Unit × CpuCore M S
  unfolding enter_debug_mode get_bit
  handle_ebreak pc cpu =
      if cpu.debug_state.debug_mode
      then (value tt, cpu)
      else if get_bit (ebreak_bit cpu.cur_priv) (get_cell Cell.dcsr cpu)
      then (value tt, enter_debug_mode ebreak pc cpu)
      else (raise (breakpoint pc), cpu)

  -- The registers that a trap reads and writes.
  unfoldable pub trap_registers : CpuCore M S → Cpu.CpuCore
  trap_registers cpu = record {
    pc = cpu.pc;
    npc = cpu.npc;
    cur_priv = cpu.cur_priv;
    xstatus = get_cell Cell.xstatus cpu;
    xip = get_cell Cell.xip cpu;
    xie = get_cell Cell.xie cpu;
    mtvec = get_cell Cell.mtvec cpu;
    stvec = get_cell Cell.stvec cpu;
    mcause = get_cell Cell.mcause cpu;
    scause = get_cell Cell.scause cpu;
    medeleg = get_cell Cell.medeleg cpu;
    mideleg = get_cell Cell.mideleg cpu;
    mepc = get_cell Cell.mepc cpu;
    sepc = get_cell Cell.sepc cpu;
    mtval = get_cell Cell.mtval cpu;
    stval = get_cell Cell.stval cpu;
  }

  unfoldable pub with_registers : Cpu.CpuCore → CpuCore M S → CpuCore M S
  with_registers c cpu = record cpu {
    pc = c.pc;
    npc = c.npc;
    cur_priv = c.cur_priv;
    csr_regs = record cpu.csr_regs { cells = trap_cells c cpu.csr_regs.cells };
  }

  unfoldable pub on_traps : (Cpu.CpuCore → Option Cpu.CpuCore) → CpuCore M S → Option (CpuCore M S)
  unfolding trap_registers with_registers
  on_traps act cpu = act (trap_registers cpu) >>= λ c. some (with_registers c cpu)
