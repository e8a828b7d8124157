-- ===== src/Csr/Xtvec.antt =====
-- `XtvecIn` of src/rv64core/csr_regs_define.rs: the trap vector. Mode 0 is direct, 1 vectored, and any
-- other is reserved.
use riscv64_emu_rust.Base.{
  ◌&&◌, Option, none, some, ◌>>=◌, assert, ℕ, ◌+◌, ◌*◌, ◌/◌, ◌%◌, ◌^◌, ◌==◌, ltb, leb,
  if◌then◌else◌,
}
use riscv64_emu_rust.Trap.{TrapType, is_interrupt, get_irq_num}

abbrev pub mode : ℕ → ℕ
mode x = x % 4

abbrev pub base : ℕ → ℕ
base x = x / 4

-- `none` is a panic: a reserved mode, or a sum past 64 bits.
unfoldable pub get_trap_pc : TrapType → ℕ → Option ℕ
get_trap_pc trap x =
    let aligned = base x * 4 in
    let vectored : Option ℕ = get_irq_num trap >>= λ irq.
    assert (ltb (aligned + 4 * irq) (2 ^ 64)) (some (aligned + 4 * irq)) in
    if mode x == 1 && is_interrupt trap
    then vectored
    else if leb (mode x) 1
    then some aligned
    else none
