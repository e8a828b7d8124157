-- ===== src/Bus/Examples.antt =====
-- Runs of src/rv64core/bus.rs: a machine with a memory of 32 bytes, a hart and one interrupt source.
use riscv64_emu_rust.Base.{
  true, false, [], ◌∷◌, Option, none, some, ℕ, ◌<◌, ◌%◌, ◌^◌, ltb, leb, ◌≡◌, ◌↔◌, refl, arith, Any,
  replicate, if◌then◌else◌,
}
use riscv64_emu_rust.Base.Bits.{get_bit}
use riscv64_emu_rust.Csr.Xip.{mtip}
use riscv64_emu_rust.Memory.{DeviceMemory}
use riscv64_emu_rust.Plic.{PlicContext, SifvePlic, Cells}
use riscv64_emu_rust.Plic.Mmio.{Setter}
use riscv64_emu_rust.Plic.Laws.{IsWellFormed}
use riscv64_emu_rust.Plic.Laws.Level.{WaitsFor}
use riscv64_emu_rust.Clint.{ClintHart, Clint}
use riscv64_emu_rust.Clint.Laws.{Separate}
use riscv64_emu_rust.Bus.{
  check_area, check_aligned, ok, Ops, DeviceType, Bus, read, write, update_devices, update,
}
use riscv64_emu_rust.Bus.Laws.{memory_ops, read-write_memory, update_lem}

abbrev pub strict : ℕ → Option ℕ
strict v = if ltb v 8 then some v else none

pub strict-lt : (v : ℕ) {u : ℕ} → strict v ≡ some u → u < 8
strict-lt v {u} h = ground arith

pub strict_small : (v : ℕ) → v < 8 → strict v ≡ some v
strict_small v h = ground arith

abbrev pub strict_setter : Setter
strict_setter = record { fit = strict; fit_small = strict_small; fit-lt = strict-lt }

abbrev hart_context : PlicContext
hart_context = record { mmode = true; xip = 0; threshold = 0; enable = 2 ∷ 0 ∷ []; claim = 0 }

abbrev plic : SifvePlic
plic = record {
  irq_sources = record { id = 1; pending = 0 } ∷ [];
  vec_irq_priority = replicate 64 1;
  irq_pending = replicate 2 0;
  claimed = replicate 64 false;
  context = hart_context ∷ [];
}

plic-IsWellFormed : IsWellFormed plic
plic-IsWellFormed = record {
  small_ids = (omega arith, tt);
  ids_differ = (tt, tt);
  priorities = refl;
  words = refl;
  claims = refl;
  contexts = (refl, tt);
}

abbrev hart : ClintHart
hart = record { mtimecmp = 10; xip = 0 }

abbrev clint : Clint
clint = record { harts = hart ∷ []; mtime = 9 }

clint-Separate : Separate (clint.harts)
unfolding Separate
clint-Separate = (tt, tt)

abbrev pub memory : DeviceType DeviceMemory
memory = record { start = 0x80000000; len = 32; state = record { bytes = replicate 32 0 } }

abbrev pub machine_bus : Bus DeviceMemory
machine_bus = record { clint = clint; plic = plic; devices = memory ∷ [] }

abbrev pub cells : Cells
cells = record { lines = λ k. true; xips = λ k. 0 }

read-write_memory_example :
    (bus' : Bus DeviceMemory) × (write strict_setter memory_ops 0x80000008 0x1234 4 machine_bus
        cells
      ≡ some (ok 0x1234, bus', cells))
    × (read strict_setter memory_ops 0x80000008 4 bus' cells
        ≡ some (ok (0x1234 % 256 ^ 4), bus', cells))
unfolding check_area check_aligned
read-write_memory_example =
    read-write_memory strict_setter 0x80000008 0x1234 4 machine_bus cells [] memory [] refl tt refl
      refl (omega arith) (omega arith)

-- A device that takes its line down in its update, as memory does not.
abbrev lowering_ops : Ops DeviceMemory
lowering_ops = record memory_ops { do_update = λ m c. some (m, record c { lines = λ k. false }) }

abbrev lowered : Cells
lowered = record cells { lines = λ k. false }

update_lem_example :
    (bus' : Bus DeviceMemory) × (cells' : Cells) × (update lowering_ops 1 machine_bus cells
      ≡ some (bus', cells'))
    × IsWellFormed bus'.plic
    × (get_bit mtip (cells'.xips 0) ≡ leb 10 bus'.clint.mtime)
    × ((get_bit 11 (cells'.xips 0) ≡ true)
        ↔ Any (WaitsFor plic lowered.lines hart_context) plic.irq_sources)
unfolding update_devices
update_lem_example =
    update_lem lowering_ops 1 machine_bus cells lowered {ds = memory ∷ []} 0 hart [] hart_context []
      refl (omega arith) clint-Separate plic-IsWellFormed refl refl tt
