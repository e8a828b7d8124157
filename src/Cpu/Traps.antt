-- ===== src/Cpu/Traps.antt =====
-- `handle_exceptions` and `handle_interrupt` of src/rv64core/cpu_core.rs. `none` is a panic, of
-- `get_exception_num`, `get_trap_pc` or `get_priority_interupt`.
use riscv64_emu_rust.Base.{
  Bool, false, not, ◌&&◌, ◌||◌, Option, some, ◌>>=◌, if◌then◌else◌, ℕ, ◌==◌, leb, ltb, bit_and,
}
use riscv64_emu_rust.Base.Bits.{get_bit, set_bit, bit_not}
use riscv64_emu_rust.Trap.{
  TrapType, idx, get_exception_num, get_tval, PrivilegeLevels, user, supervisor, machine, priv_num,
}
use riscv64_emu_rust.Csr.Xip.{get_priority_interrupt}
use riscv64_emu_rust.Csr.Xstatus.{sie, mie, spie, mpie, spp, set_mpp}
use riscv64_emu_rust.Csr.Xtvec.{get_trap_pc}
use riscv64_emu_rust.Cpu.{CpuCore}

-- The status word that a trap into supervisor mode leaves.
unfoldable pub status_s : PrivilegeLevels → ℕ → ℕ
unfolding priv_num
status_s cur_priv mstatus =
    let m : ℕ = set_bit spp (not (priv_num cur_priv == priv_num user)) mstatus in
    let m' : ℕ = set_bit spie (get_bit sie m) m in set_bit sie false m'

-- The status word that an exception into machine mode leaves.
unfoldable pub exception_status_m : PrivilegeLevels → ℕ → ℕ
unfolding priv_num
exception_status_m cur_priv mstatus =
    let m : ℕ = set_bit mpie (get_bit mie mstatus) mstatus in
    set_mpp (priv_num cur_priv) (set_bit mie false m)

-- And an interrupt, which writes the fields in another order.
unfoldable pub interrupt_status_m : PrivilegeLevels → ℕ → ℕ
unfolding priv_num
interrupt_status_m cur_priv mstatus =
    let m : ℕ = set_bit mpie (get_bit mie mstatus) mstatus in
    set_bit mie false (set_mpp (priv_num cur_priv) m)

-- Whether an exception goes to supervisor mode.
unfoldable pub exception_to_s : TrapType → CpuCore → Option Bool
unfolding priv_num
exception_to_s trap_type cpu = get_exception_num trap_type >>= λ n.
    some (get_bit n cpu.medeleg && leb (priv_num cpu.cur_priv) (priv_num supervisor))

unfoldable pub exception_s : TrapType → CpuCore → Option CpuCore
unfolding status_s
exception_s trap_type cpu = do
  npc' ← get_trap_pc trap_type cpu.stvec
  some (record cpu {
    npc = npc';
    cur_priv = supervisor;
    xstatus = status_s cpu.cur_priv cpu.xstatus;
    sepc = cpu.pc;
    scause = idx trap_type;
    stval = get_tval trap_type;
  })

unfoldable pub exception_m : TrapType → CpuCore → Option CpuCore
unfolding exception_status_m
exception_m trap_type cpu = do
  npc' ← get_trap_pc trap_type cpu.mtvec
  some (record cpu {
    npc = npc';
    cur_priv = machine;
    xstatus = exception_status_m cpu.cur_priv cpu.xstatus;
    mepc = cpu.pc;
    mcause = idx trap_type;
    mtval = get_tval trap_type;
  })

unfoldable pub handle_exceptions : TrapType → CpuCore → Option CpuCore
unfolding exception_s exception_m
handle_exceptions trap_type cpu = do
  to_s ← exception_to_s trap_type cpu
  if to_s then exception_s trap_type cpu else exception_m trap_type cpu

abbrev pub int_to_m_enable : CpuCore → Bool
unfolding priv_num
int_to_m_enable cpu =
    (get_bit mie cpu.xstatus && (priv_num cpu.cur_priv == priv_num machine))
    || ltb (priv_num cpu.cur_priv) (priv_num machine)

abbrev pub int_to_s_enable : CpuCore → Bool
unfolding priv_num
int_to_s_enable cpu =
    (get_bit sie cpu.xstatus && (priv_num cpu.cur_priv == priv_num supervisor))
    || ltb (priv_num cpu.cur_priv) (priv_num supervisor)

abbrev pub int_to_m_pending : CpuCore → ℕ
int_to_m_pending cpu = bit_and (bit_and cpu.xie cpu.xip) (bit_not 64 cpu.mideleg)

abbrev pub int_to_s_pending : CpuCore → ℕ
int_to_s_pending cpu = bit_and (bit_and cpu.xie cpu.xip) cpu.mideleg

unfoldable pub interrupt_m : CpuCore → Option CpuCore
unfolding interrupt_status_m
interrupt_m cpu = do
  cause ← get_priority_interrupt (int_to_m_pending cpu)
  npc' ← get_trap_pc cause cpu.mtvec
  some (record cpu {
    npc = npc';
    cur_priv = machine;
    xstatus = interrupt_status_m cpu.cur_priv cpu.xstatus;
    mepc = cpu.npc;
    mcause = idx cause;
  })

unfoldable pub interrupt_s : CpuCore → Option CpuCore
unfolding status_s
interrupt_s cpu = do
  cause ← get_priority_interrupt (int_to_s_pending cpu)
  npc' ← get_trap_pc cause cpu.stvec
  some (record cpu {
    npc = npc';
    cur_priv = supervisor;
    xstatus = status_s cpu.cur_priv cpu.xstatus;
    sepc = cpu.npc;
    scause = idx cause;
  })

unfoldable pub handle_interrupt : CpuCore → Option CpuCore
unfolding interrupt_m interrupt_s
handle_interrupt cpu =
    if bit_and cpu.xie cpu.xip == 0
    then some cpu
    else if int_to_m_enable cpu && not (int_to_m_pending cpu == 0)
    then interrupt_m cpu
    else if int_to_s_enable cpu && not (int_to_s_pending cpu == 0)
    then interrupt_s cpu
    else some cpu
