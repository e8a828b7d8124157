-- ===== src/Hart/Examples.antt =====
-- A new hart of src/rv64core/cpu_core.rs, without caches, under a debugger.
use riscv64_emu_rust.Base.{
  true, false, ◌∷◌, none, some, ◌⊎◌, replicate, ◌+◌, ◌*◌, ◌^◌, ◌≡◌, refl, arith,
}
use riscv64_emu_rust.Base.Bits.{get_bit, set_bit, get_field, set_field}
use riscv64_emu_rust.Access.{Caches, value}
use riscv64_emu_rust.Bus.{ok}
use riscv64_emu_rust.Gpr
use riscv64_emu_rust.Mmu.Words.{sv39}
use riscv64_emu_rust.Trap.{user, machine, priv_from_usize}
use riscv64_emu_rust.Csr.Cells.{Cell}
use riscv64_emu_rust.Csr.File
use riscv64_emu_rust.Csr.File.{Config}
use riscv64_emu_rust.Dbg
use riscv64_emu_rust.Dbg.{DebugModule}
use riscv64_emu_rust.Dbg.Dmi.{dmi_write, dmi_read}
use riscv64_emu_rust.Hart.{CpuCore, debug_new, running, haltd, get_cell, set_cell, left_machine}
use riscv64_emu_rust.Hart.Run.{Insns, execute, real_excute}
use riscv64_emu_rust.Hart.Slave.{slave}
use riscv64_emu_rust.Hart.Laws.{halt-resume}
use riscv64_emu_rust.Hart.Laws.Step.{step_once, reset_forgets}
use riscv64_emu_rust.Hart.Laws.Access.{IsGprCommand, gpr_through_debugger}

abbrev config : Config
config = record {
  isa_m = true;
  isa_a = true;
  isa_c = true;
  isa_f = false;
  s_mode = true;
  u_mode = true;
  mmu_type = sv39;
}

-- Every read gives 7, and a write is dropped.
abbrev sevens : Caches Unit
sevens = record {
  dcache_read = λ addr len m. some (ok 7, m);
  dcache_write = λ addr wdata len m. some (ok 0, m);
  icache_read = λ addr len m. some (ok 7, m);
}

-- Every instruction is a NOP of four bytes.
abbrev nops : Insns Unit Unit
nops = record {
  instruction = λ cpu. some (value tt, record cpu { pc = cpu.npc; npc = cpu.npc + 4 });
  clear = λ m s. (m, s);
}

abbrev hart : CpuCore Unit Unit
unfolding Gpr.new debug_new
hart = record {
  gpr = Gpr.new;
  csr_regs = File.new 0 config;
  pc = 0x80000000;
  npc = 0x80000000;
  cur_priv = machine;
  cpu_state = running;
  debug_state = debug_new;
  memory = tt;
  rest = tt;
}

halt-resume_example :
    (dm1 : DebugModule) × (cpu1 : CpuCore Unit Unit) × (dmi_write
        (slave sevens)
        0x10
        0x80000001
        Dbg.new
        hart
      ≡ some (true, dm1, cpu1))
    × (cpu2 : CpuCore Unit Unit) × (execute config nops 1 cpu1 ≡ some cpu2)
    × (cpu2.cpu_state ≡ haltd)
    × (cpu2.cur_priv ≡ machine)
    × (dm3 : DebugModule) × (cpu3 : CpuCore Unit Unit) × (dmi_write
          (slave sevens)
          0x10
          0x40000001
          dm1
          cpu2
        ≡ some (true, dm3, cpu3))
    × (cpu4 : CpuCore Unit Unit) × (execute config nops 1 cpu3 ≡ some cpu4)
    × (cpu4.cpu_state ≡ running)
    × (cpu4.npc ≡ hart.npc)
    × (cpu4.cur_priv ≡ hart.cur_priv)
    × (cpu4.debug_state.resumeack ≡ true)
    × (cpu4.gpr ≡ hart.gpr)
    × (cpu4.memory ≡ hart.memory)
    × (get_cell Cell.xstatus cpu4 ≡ left_machine hart.cur_priv hart)
unfolding get_bit hart
halt-resume_example =
    halt-resume sevens config nops Dbg.new hart 0x80000001 0x40000001 refl refl refl refl refl

-- The hart in debug mode, to be stepped from `0x80000010` in user mode.
abbrev to_step : CpuCore Unit Unit
unfolding debug_new
to_step = record (set_cell Cell.dpc 0x80000010 (set_cell Cell.dcsr 4 hart)) {
  cpu_state = haltd;
  debug_state = record debug_new { debug_mode = true; resumereq_flag = true };
}

step_once_example :
    (start : CpuCore Unit Unit) × (start.npc ≡ 0x80000010)
    × (start.cur_priv ≡ user)
    × (start.cpu_state ≡ running)
    × (start.debug_state.debug_mode ≡ false)
    × (start.gpr ≡ to_step.gpr)
    × (start.memory ≡ to_step.memory)
    × (get_cell Cell.xstatus start ≡ left_machine user to_step)
    × (((real_excute config nops start ≡ none) × (execute config nops 2 to_step ≡ none))
        ⊎ ((done : CpuCore Unit Unit) × (cpu' : CpuCore Unit Unit) × (real_excute config nops start
              ≡ some done)
            × (execute config nops 2 to_step ≡ some cpu')
            × (cpu'.cpu_state ≡ haltd)
            × (cpu'.cur_priv ≡ machine)
            × (cpu'.debug_state.debug_mode ≡ true)
            × (get_cell Cell.dpc cpu' ≡ done.npc)
            × (get_field 6 3 (get_cell Cell.dcsr cpu') ≡ 4)
            × (priv_from_usize (get_field 0 2 (get_cell Cell.dcsr cpu')) ≡ some done.cur_priv)
            × (cpu'.gpr ≡ done.gpr)
            × (cpu'.memory ≡ done.memory)))
unfolding get_bit get_field priv_from_usize to_step hart debug_new
step_once_example = step_once config nops to_step user refl refl refl refl refl refl refl

-- A running hart in user mode whose debugger writes the reset of the hart and no other bit but that the
-- module is active.
abbrev in_user_mode : CpuCore Unit Unit
unfolding debug_new
in_user_mode = record hart { cur_priv = user }

reset_forgets_example :
    (dm1 : DebugModule) × (cpu1 : CpuCore Unit Unit) × (dmi_write
        (slave sevens)
        0x10
        3
        Dbg.new
        in_user_mode
      ≡ some (true, dm1, cpu1))
    × (cpu2 : CpuCore Unit Unit) × (execute config nops 1 cpu1 ≡ some cpu2)
    × (cpu2.cpu_state ≡ running)
    × (cpu2.npc ≡ 0x80000000)
    × (cpu2.gpr ≡ Gpr.new)
    × (cpu2.cur_priv ≡ in_user_mode.cur_priv)
    × (get_bit 18 (dmi_read (slave sevens) 0x11 dm1 cpu2).0 ≡ false)
    × (get_bit 19 (dmi_read (slave sevens) 0x11 dm1 cpu2).0 ≡ false)
unfolding get_bit in_user_mode hart
reset_forgets_example = reset_forgets sevens config nops Dbg.new in_user_mode 3 refl refl

-- The module with the words 5 and 6 in its first argument.
abbrev ready : DebugModule
unfolding Dbg.new
ready = record Dbg.new { abstract_data = 5 ∷ 6 ∷ replicate 4 0 }

abbrev stopped : CpuCore Unit Unit
stopped = record hart { cpu_state = haltd }

-- The command that writes the register `a0`, 64 bits, and the one that reads it.
writes_a0 : IsGprCommand 10 true 0x33100a
unfolding get_bit
writes_a0 = record {
  small = omega arith;
  access = refl;
  transfers = refl;
  number = refl;
  writes = refl;
}

reads_a0 : IsGprCommand 10 false 0x32100a
unfolding get_bit
reads_a0 = record {
  small = omega arith;
  access = refl;
  transfers = refl;
  number = refl;
  writes = refl;
}

gpr_through_debugger_example :
    (dm1 : DebugModule) × (cpu1 : CpuCore Unit Unit) × (dmi_write
        (slave sevens)
        0x17
        0x33100a
        ready
        stopped
      ≡ some (true, dm1, cpu1))
    × (Gpr.read 10 cpu1.gpr ≡ some (5 + 6 * 2 ^ 32))
    × (dm2 : DebugModule) × (dmi_write (slave sevens) 0x17 0x32100a ready cpu1
        ≡ some (true, dm2, cpu1))
    × ((dmi_read (slave sevens) 4 dm2 cpu1).0 ≡ 5)
    × ((dmi_read (slave sevens) 5 dm2 cpu1).0 ≡ 6)
unfolding Dbg.new Gpr.new get_bit get_field set_bit set_field hart
gpr_through_debugger_example =
    gpr_through_debugger sevens 10 (omega arith) ready ready stopped 0x33100a 0x32100a 5 6
      (λ e. ground arith) refl refl writes_a0 refl reads_a0 refl refl refl (refl, refl)
      (omega arith) (omega arith)
