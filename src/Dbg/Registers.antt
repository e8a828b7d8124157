-- ===== src/Dbg/Registers.antt =====
-- The fields of the bitfield structs of src/dbg/debug_module_register.rs that the debug module uses.
use riscv64_emu_rust.Base.{ℕ, ◌%◌, ◌/◌, ◌^◌}
use riscv64_emu_rust.Base.Bits.{get_field, set_field}

-- `DMStatus`.
abbrev pub authenticated : ℕ
authenticated = 7

-- The first of two bits with the same value, "any" and "all".
abbrev pub halted_bits : ℕ
halted_bits = 8

abbrev pub running_bits : ℕ
running_bits = 10

abbrev pub unavail_bits : ℕ
unavail_bits = 12

abbrev pub nonexistent_bits : ℕ
nonexistent_bits = 14

abbrev pub resumeack_bits : ℕ
resumeack_bits = 16

abbrev pub havereset_bits : ℕ
havereset_bits = 18

-- `DMControl`.
abbrev pub dmactive : ℕ
dmactive = 0

abbrev pub ndmreset : ℕ
ndmreset = 1

abbrev pub ackhavereset : ℕ
ackhavereset = 28

abbrev pub hartreset : ℕ
hartreset = 29

abbrev pub resumereq : ℕ
resumereq = 30

abbrev pub haltreq : ℕ
haltreq = 31

-- `Abstractcs`.
abbrev pub cmderr : ℕ → ℕ
cmderr = get_field 8 3

abbrev pub set_cmderr : ℕ → ℕ → ℕ
set_cmderr = set_field 8 3

abbrev pub busy : ℕ
busy = 12

abbrev pub cmderr_none : ℕ
cmderr_none = 0

abbrev pub cmderr_busy : ℕ
cmderr_busy = 1

abbrev pub cmderr_notsup : ℕ
cmderr_notsup = 2

abbrev pub cmderr_halt_resume : ℕ
cmderr_halt_resume = 4

abbrev pub cmderr_bus : ℕ
cmderr_bus = 5

-- `Command`, `CommandReg` and `CommandMem`.
abbrev pub cmdtype : ℕ → ℕ
cmdtype command = command / 2 ^ 24 % 2 ^ 8

abbrev pub regno : ℕ → ℕ
regno command = command % 2 ^ 16

abbrev pub cmd_write : ℕ
cmd_write = 16

abbrev pub transfer : ℕ
transfer = 17

-- `aarsize`, and `aamsize` of an access of the memory.
abbrev pub cmd_size : ℕ → ℕ
cmd_size command = command / 2 ^ 20 % 2 ^ 3

abbrev pub aamvirtual : ℕ
aamvirtual = 23
