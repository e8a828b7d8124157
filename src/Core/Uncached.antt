-- ===== src/Core/Uncached.antt =====
-- The caches of src/rv64core/cache/cpu_dcache.rs and cpu_icache.rs where they are switched off, with
-- sizes of 0: no address is cacheable, and every access goes to the bus.
use riscv64_emu_rust.Base.{Option, some, ◌>>=◌, ℕ}
use riscv64_emu_rust.Access.{Caches}
use riscv64_emu_rust.Bus
use riscv64_emu_rust.Bus.{Reply, Bus, Ops}
use riscv64_emu_rust.Plic.{Cells}
use riscv64_emu_rust.Plic.Mmio.{Setter}

-- The bus and the shared cells as one state.
abbrev pub paired :
    {S : Type 0} → Option (Reply ℕ × Bus S × Cells) → Option (Reply ℕ × (Bus S × Cells))
paired o = o >>= λ (reply, bus, cells). some (reply, (bus, cells))

abbrev pub uncached : {S : Type 0} → Setter → Ops S → Caches (Bus S × Cells)
uncached setter ops = record {
  dcache_read = λ addr len m. paired (Bus.read setter ops addr len m.0 m.1);
  dcache_write = λ addr word len m. paired (Bus.write setter ops addr word len m.0 m.1);
  icache_read = λ addr len m. paired (Bus.read setter ops addr len m.0 m.1);
}
