-- ===== src/Bus/Laws.antt =====
-- What src/rv64core/bus.rs promises of the devices together: memory behind the bus, and the two
-- interrupt sources side by side.
use mathlib.Core.Path.{subst}
use riscv64_emu_rust.Base.{
  Bool, true, false, List, [], ◌∷◌, ◌++◌, Option, some, ◌>>=◌, ℕ, ◌+◌, ◌-◌, ◌%◌, ◌^◌, ◌<◌, ◌≤◌, ◌≡◌,
  ◌≢◌, ◌↔◌, ◌⊎◌, refl, ◌∙◌, arith, length, All, Any, get_elem?, leb,
}
use riscv64_emu_rust.Base.Bits.{get_bit}
use riscv64_emu_rust.Csr.Xip.{mtip}
use riscv64_emu_rust.Memory
use riscv64_emu_rust.Memory.{DeviceMemory}
use riscv64_emu_rust.Memory.Laws.{do_write-outcome}
use riscv64_emu_rust.Plic.{Cells, PlicContext, xip_bit}
use riscv64_emu_rust.Plic.Mmio.{Setter}
use riscv64_emu_rust.Plic.Laws.{IsWellFormed, tick_total}
use riscv64_emu_rust.Plic.Laws.Level.{WaitsFor, tick_level, tick_frame}
use riscv64_emu_rust.Clint.{ClintHart}
use riscv64_emu_rust.Clint.Laws.{Separate, tick-outcome}
use riscv64_emu_rust.Bus.{
  check_area, check_aligned, ok, Ops, DeviceType, Bus, access, read, write, update_devices,
  clint_ticks, update,
}

-- Main memory as a device of the bus.
abbrev pub memory_ops : Ops DeviceMemory
memory_ops = record {
  do_read = λ addr len m. Memory.do_read addr len m >>= λ v. some (v, m);
  do_write = Memory.do_write;
  do_update = λ m cells. some (m, cells);
}

module _ {S : Type 0} where
  abbrev pub Misses : ℕ → DeviceType S → Type 0
  Misses addr d = check_area d.start d.len addr ≡ some false

  -- The first device that has the address serves it.
  access_at :
      (act : ℕ → S → Option (ℕ × S)) (addr : ℕ) (before : List (DeviceType S)) (d : DeviceType S)
      (after : List (DeviceType S)) (v : ℕ) (s : S)
      → All (Misses addr) before
      → check_area d.start d.len addr ≡ some true
      → act (addr - d.start) d.state ≡ some (v, s)
      → access act addr (before ++ d ∷ after)
        ≡ some (some (v, before ++ record d { state = s } ∷ after))
  unfolding access
  access_at act addr [] d after v s out hit run = rw (hit, run) refl
  access_at act addr (e ∷ before) d after v s (miss, out) hit run =
      rw (miss, access_at act addr before d after v s out hit run) refl

-- A write to a memory of the bus that is the first device at its address succeeds, and a read of the
-- same place through the bus gives the value back, cut to the bytes written. The access is aligned,
-- at most eight bytes, and within the memory.
pub read-write_memory :
    (setter : Setter) (addr value len : ℕ) (bus : Bus DeviceMemory) (cells : Cells)
    (before : List (DeviceType DeviceMemory)) (d : DeviceType DeviceMemory)
    (after : List (DeviceType DeviceMemory))
    → bus.devices ≡ before ++ d ∷ after
    → All (Misses addr) before
    → check_area d.start d.len addr ≡ some true
    → check_aligned addr len ≡ some true
    → len ≤ 8
    → addr - d.start + len ≤ length d.state.bytes
    → (bus' : Bus DeviceMemory) × (write setter memory_ops addr value len bus cells
        ≡ some (ok value, bus', cells))
      × (read setter memory_ops addr len bus' cells ≡ some (ok (value % 256 ^ len), bus', cells))
unfolding write read
read-write_memory setter addr value len bus cells before d after at out hit aligned small fits =
    let m = do_write-outcome (addr - d.start) value len d.state small fits in
    let d' : DeviceType DeviceMemory = record d { state = m.0 } in
    let wrote =
      access_at (λ offset s. Memory.do_write offset value len s) addr before d after value m.0 out
        hit m.1 in
    let reads =
      access_at (λ offset s. memory_ops.do_read offset len s) addr before d' after
        (value % 256 ^ len) m.0 out hit (rw (m.2) refl) in
    (
      record bus { devices = before ++ d' ∷ after },
      rw (at, aligned, wrote) refl,
      rw (aligned, reads) refl,
    )

update-outcome :
    {S : Type 0} (ops : Ops S) (interval_cycle : ℕ) (bus : Bus S) (cells cells1 : Cells)
    {ds : List (DeviceType S)}
    → update_devices ops bus.devices cells ≡ some (ds, cells1)
    → bus.clint.mtime + clint_ticks interval_cycle < 2 ^ 64
    → Separate bus.clint.harts
    → IsWellFormed bus.plic
    → (bus' : Bus S) × (cells' : Cells) × (update ops interval_cycle bus cells
        ≡ some (bus', cells'))
      × IsWellFormed bus'.plic
      × ((i : ℕ) (hart : ClintHart)
          → get_elem? bus.clint.harts i ≡ some hart
          → get_bit mtip (cells'.xips hart.xip) ≡ leb hart.mtimecmp bus'.clint.mtime)
      × ((before : List PlicContext) (c : PlicContext) (after : List PlicContext)
          → bus.plic.context ≡ before ++ c ∷ after
          → All (λ d. (d.xip ≢ c.xip) ⊎ (xip_bit d.mmode ≢ xip_bit c.mmode)) after
          → (get_bit (xip_bit c.mmode) (cells'.xips c.xip) ≡ true)
            ↔ Any (WaitsFor bus.plic cells1.lines c) bus.plic.irq_sources)
unfolding update
update-outcome ops interval_cycle bus cells cells1 {ds} run small apart w =
    let (clint', mid, ticked, time, harts, timer, others, away, lines) =
      tick-outcome (clint_ticks interval_cycle) bus.clint cells1 small apart in
    let (plic', cells', ran, w') = tick_total bus.plic mid w in
    (
      record { clint = clint'; plic = plic'; devices = ds },
      cells',
      rw (run, ticked, ran) refl,
      w',
      λ i hart at.
          let kept =
            tick_frame bus.plic mid {p' = plic'} {cells' = cells'} hart.xip 7 ran (λ e. omega arith)
              (λ e. omega arith) in
          kept.1 ∙ timer i hart at ∙ rw time refl,
      λ before c after at alone.
          subst
            (λ (ls : ℕ → Bool).
              (get_bit (xip_bit c.mmode) (cells'.xips c.xip) ≡ true)
              ↔ Any (WaitsFor bus.plic ls c) bus.plic.irq_sources)
            lines
            (tick_level bus.plic mid {p' = plic'} {cells' = cells'} before c after at alone ran),
    )

-- The devices of the bus update without a panic and leave the shared cells `cells1`, with the lines that
-- they set. Where the time stays within 64 bits, no two harts share an interrupt-pending word and the
-- interrupt controller is well-formed, the round of updates succeeds and keeps the controller
-- well-formed. After it the timer interrupt of a hart says whether its time has come, and the external
-- interrupt of a context whether a source waits for it by the lines that the devices set in this very
-- round, where no later context stands for the same bit of the same word: neither the interruptor nor
-- the controller undoes what the other sets.
pub update_lem :
    {S : Type 0} (ops : Ops S) (interval_cycle : ℕ) (bus : Bus S) (cells cells1 : Cells)
    {ds : List (DeviceType S)} (i : ℕ) (hart : ClintHart) (before : List PlicContext)
    (c : PlicContext) (after : List PlicContext)
    → update_devices ops bus.devices cells ≡ some (ds, cells1)
    → bus.clint.mtime + clint_ticks interval_cycle < 2 ^ 64
    → Separate bus.clint.harts
    → IsWellFormed bus.plic
    → get_elem? bus.clint.harts i ≡ some hart
    → bus.plic.context ≡ before ++ c ∷ after
    → All (λ d. (d.xip ≢ c.xip) ⊎ (xip_bit d.mmode ≢ xip_bit c.mmode)) after
    → (bus' : Bus S) × (cells' : Cells) × (update ops interval_cycle bus cells
        ≡ some (bus', cells'))
      × IsWellFormed bus'.plic
      × (get_bit mtip (cells'.xips hart.xip) ≡ leb hart.mtimecmp bus'.clint.mtime)
      × ((get_bit (xip_bit c.mmode) (cells'.xips c.xip) ≡ true)
          ↔ Any (WaitsFor bus.plic cells1.lines c) bus.plic.irq_sources)
update_lem ops interval_cycle bus cells cells1 {ds} i hart before c after run small apart w at split
      alone =
    let (bus', cells', ran, w', timer, external) =
      update-outcome ops interval_cycle bus cells cells1 {ds = ds} run small apart w in
    (bus', cells', ran, w', timer i hart at, external before c after split alone)
