-- ===== src/Csr/Xip.antt =====
-- `XipIn` of src/rv64core/csr_regs_define.rs: the interrupt-pending word.
use riscv64_emu_rust.Base.{Option, none, some, ℕ, if◌then◌else◌}
use riscv64_emu_rust.Base.Bits.{get_bit}
use riscv64_emu_rust.Trap.{
  TrapType, machine_external_interrupt, machine_software_interrupt, machine_timer_interrupt,
  supervisor_external_interrupt, supervisor_software_interrupt, supervisor_timer_interrupt,
}

abbrev pub ssip : ℕ
ssip = 1

abbrev pub msip : ℕ
msip = 3

abbrev pub stip : ℕ
stip = 5

abbrev pub mtip : ℕ
mtip = 7

abbrev pub seip : ℕ
seip = 9

abbrev pub meip : ℕ
meip = 11

-- `none` is the panic "no interrupt".
unfoldable pub get_priority_interrupt : ℕ → Option TrapType
get_priority_interrupt x =
    if get_bit meip x
    then some machine_external_interrupt
    else if get_bit msip x
    then some machine_software_interrupt
    else if get_bit mtip x
    then some machine_timer_interrupt
    else if get_bit seip x
    then some supervisor_external_interrupt
    else if get_bit ssip x
    then some supervisor_software_interrupt
    else if get_bit stip x
    then some supervisor_timer_interrupt
    else none
