-- ===== src/Cpu/Examples.antt =====
-- Traps and returns on concrete states, of src/rv64core/cpu_core.rs.
use riscv64_emu_rust.Base.{true, some, ℕ, ◌≡◌, ◌≤◌, refl, arith}
use riscv64_emu_rust.Base.Bits.{get_bit}
use riscv64_emu_rust.Trap.{
  idx, is_interrupt, get_irq_num, get_exception_num, illegal_instruction, breakpoint,
  machine_timer_interrupt, user, supervisor, machine, priv_num,
}
use riscv64_emu_rust.Csr.Xip.{get_priority_interrupt}
use riscv64_emu_rust.Csr.Xstatus.{mie, sie}
use riscv64_emu_rust.Cpu.{CpuCore}
use riscv64_emu_rust.Cpu.Traps.{exception_to_s, handle_exceptions, handle_interrupt}
use riscv64_emu_rust.Cpu.Return.{mret, sret, ok}
use riscv64_emu_rust.Cpu.Laws.{Resumed, mret-exception, sret-exception}
use riscv64_emu_rust.Cpu.Laws.Interrupts.{
  rank, get_priority_interrupt-highest, handle_interrupt-masked, mret-interrupt,
}

-- Breakpoints are delegated, illegal instructions are not; the timer and the software interrupt wait.
abbrev running : CpuCore
running = record {
  pc = 0x80000100;
  npc = 0x80000104;
  cur_priv = user;
  xstatus = 0xa;
  xip = 0x88;
  xie = 0x80;
  mtvec = 0x80000001;
  stvec = 0x80200000;
  mcause = 0;
  scause = 0;
  medeleg = 0x8;
  mideleg = 0;
  mepc = 0;
  sepc = 0;
  mtval = 0;
  stval = 0;
}

abbrev masked : CpuCore
masked = record running { cur_priv = machine; xstatus = 0 }

mret-exception_example :
    (c' : CpuCore) × (d : CpuCore) × (handle_exceptions (illegal_instruction 0) running ≡ some c')
    × (c'.cur_priv ≡ machine)
    × (mret true c' ≡ some d)
    × Resumed 0x80000100 mie running d
unfolding exception_to_s get_exception_num is_interrupt idx priv_num get_bit
mret-exception_example = mret-exception true (illegal_instruction 0) running refl (omega arith)

sret-exception_example :
    (c' : CpuCore) × (d : CpuCore) × (handle_exceptions (breakpoint 0) running ≡ some c')
    × (c'.cur_priv ≡ supervisor)
    × (sret 0x10200073 c' ≡ ok d)
    × Resumed 0x80000100 sie running d
unfolding exception_to_s get_exception_num is_interrupt idx priv_num get_bit
sret-exception_example = sret-exception 0x10200073 (breakpoint 0) running refl (omega arith) refl

mret-interrupt_example :
    (c' : CpuCore) × (d : CpuCore) × (handle_interrupt running ≡ some c')
    × (c'.cur_priv ≡ machine)
    × (c'.mcause ≡ idx machine_timer_interrupt)
    × (mret true c' ≡ some d)
    × Resumed 0x80000104 mie running d
unfolding get_priority_interrupt get_bit priv_num
mret-interrupt_example =
    mret-interrupt true machine_timer_interrupt running refl refl (omega arith) (omega arith)

get_priority_interrupt-highest_example :
    (k : ℕ) × (get_irq_num machine_timer_interrupt ≡ some k)
    × (get_bit k 0xa0 ≡ true)
    × (rank k ≤ rank 5)
unfolding get_priority_interrupt get_bit
get_priority_interrupt-highest_example =
    get_priority_interrupt-highest 0xa0 machine_timer_interrupt 5 refl refl

handle_interrupt-masked_example : handle_interrupt masked ≡ some masked
unfolding get_bit
handle_interrupt-masked_example = handle_interrupt-masked masked refl refl
