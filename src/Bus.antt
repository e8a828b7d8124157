-- ===== src/Bus.antt =====
-- src/rv64core/bus.rs, with `check_area` and `check_aligned` of src/tools.rs: which device answers an
-- access. The devices that the machine adds are behind the trait `DeviceBase`, so they are the
-- parameter `Ops` here: the operations of a device on its own state. The interruptor and the
-- interrupt controller are those of Clint and Plic. `none` is a panic.
pub mod Laws
pub mod Examples
use riscv64_emu_rust.Base.{
  Bool, true, false, ◌&&◌, List, [], ◌∷◌, ◌++◌, Option, none, some, ◌>>=◌, assert, if◌then◌else◌, ℕ,
  ◌+◌, ◌-◌, ◌/◌, ◌^◌, ◌==◌, leb, ltb, bit_and,
}
use riscv64_emu_rust.Plic.{SifvePlic, Cells}
use riscv64_emu_rust.Plic.Mmio.{Setter}
use riscv64_emu_rust.Plic
use riscv64_emu_rust.Clint
use riscv64_emu_rust.Clint.{Clint}

-- The whole of it below the address 2 ^ 64, or the sum panics.
unfoldable pub check_area : ℕ → ℕ → ℕ → Option Bool
check_area start len addr =
    assert (ltb (start + len) (2 ^ 64)) (some (leb start addr && ltb addr (start + len)))

-- `len - 1` panics at 0.
unfoldable pub check_aligned : ℕ → ℕ → Option Bool
check_aligned addr len = assert (leb 1 len) (some (bit_and addr (len - 1) == 0))

pub data RvErr : Type 0 where
  addr_misalign csr_not_permit not_find_device : RvErr

pub data Reply (A : Type 0) : Type 0 where
  ok : A → Reply A
  err : RvErr → Reply A

-- `DeviceBase` for states of type `S`. An update may set the interrupt lines, which are shared cells.
pub record Ops (S : Type 0) : Type 0 where
  pub do_read : ℕ → ℕ → S → Option (ℕ × S)
  pub do_write : ℕ → ℕ → ℕ → S → Option (ℕ × S)
  pub do_update : S → Cells → Option (S × Cells)

pub record DeviceType (S : Type 0) : Type 0 where
  pub start : ℕ
  pub len : ℕ
  pub state : S

pub record Bus (S : Type 0) : Type 0 where
  pub clint : Clint
  pub plic : SifvePlic
  pub devices : List (DeviceType S)

abbrev pub clint_start : ℕ
clint_start = 0x02000000

abbrev pub clint_len : ℕ
clint_len = 0x10000

abbrev pub plic_start : ℕ
plic_start = 0x0C000000

abbrev pub plic_len : ℕ
plic_len = 0x04000000

unfoldable pub new : {S : Type 0} → Bus S
unfolding Clint.new Plic.new
new = record { clint = Clint.new; plic = Plic.new; devices = [] }

unfoldable pub add_device : {S : Type 0} → DeviceType S → Bus S → Bus S
add_device device bus = record bus { devices = bus.devices ++ device ∷ [] }

module _ {S : Type 0} where
  -- What the first device whose area holds the address does to its state: the value that it returns
  -- and the devices after it, or `none` where there is no such device.
  unfoldable pub access :
      (ℕ → S → Option (ℕ × S)) → ℕ → List (DeviceType S) → Option (Option (ℕ × List (DeviceType S)))
  access act addr [] = some none
  access act addr (d ∷ ds) =
      let rest = access act addr ds in
      let here : Option (Option (ℕ × List (DeviceType S))) =
        act (addr - d.start) d.state >>= λ (v, s). some (some (v, record d { state = s } ∷ ds)) in
      check_area d.start d.len addr >>= λ hit.
      if hit then here else (rest >>= λ found. some (found >>= λ (v, ds'). some (v, d ∷ ds')))

module _ {S : Type 0} (setter : Setter) (ops : Ops S) where
  unfoldable pub special_read : ℕ → ℕ → Bus S → Cells → Option (Reply ℕ × Bus S × Cells)
  special_read addr len bus cells = do
    to_clint ← check_area clint_start clint_len addr
    to_plic ← check_area plic_start plic_len addr
    if to_clint
        then (Clint.do_read (addr - clint_start) len bus.clint cells >>= λ v.
            some (ok v, bus, cells))
        else if to_plic
        then (Plic.Mmio.do_read (addr - plic_start) len bus.plic cells >>= λ (v, p, cells').
            some (ok v, record bus { plic = p }, cells'))
        else some (err not_find_device, bus, cells)

  unfoldable pub special_write : ℕ → ℕ → ℕ → Bus S → Cells → Option (Reply ℕ × Bus S × Cells)
  special_write addr value len bus cells = do
    to_clint ← check_area clint_start clint_len addr
    to_plic ← check_area plic_start plic_len addr
    if to_clint
        then (Clint.do_write (addr - clint_start) value len bus.clint cells >>= λ (c, cells').
            some (ok 0, record bus { clint = c }, cells'))
        else if to_plic
        then (Plic.Mmio.do_write setter (addr - plic_start) value len bus.plic >>= λ (v, p).
            some (ok v, record bus { plic = p }, cells))
        else some (err not_find_device, bus, cells)

  -- The devices are asked before the interruptor and the interrupt controller.
  abbrev pub answer :
      Bus S
      → Cells
      → Option (Reply ℕ × Bus S × Cells)
      → Option (ℕ × List (DeviceType S))
      → Option (Reply ℕ × Bus S × Cells)
  answer bus cells special none = special
  answer bus cells special (some (v, ds)) = some (ok v, record bus { devices = ds }, cells)

  unfoldable pub read : ℕ → ℕ → Bus S → Cells → Option (Reply ℕ × Bus S × Cells)
  read addr len bus cells =
      let special = special_read addr len bus cells in
      let general = access (λ offset s. ops.do_read offset len s) addr bus.devices in
      check_aligned addr len >>= λ aligned.
      if aligned
      then (general >>= answer bus cells special)
      else some (err addr_misalign, bus, cells)

  unfoldable pub write : ℕ → ℕ → ℕ → Bus S → Cells → Option (Reply ℕ × Bus S × Cells)
  write addr value len bus cells =
      let special = special_write addr value len bus cells in
      let general = access (λ offset s. ops.do_write offset value len s) addr bus.devices in
      check_aligned addr len >>= λ aligned.
      if aligned
      then (general >>= answer bus cells special)
      else some (err addr_misalign, bus, cells)

-- `max(interval_cycle / 10, 1)`.
abbrev pub clint_ticks : ℕ → ℕ
clint_ticks interval_cycle = if leb 1 (interval_cycle / 10) then interval_cycle / 10 else 1

module _ {S : Type 0} (ops : Ops S) where
  -- The devices one after the other.
  unfoldable pub update_devices : List (DeviceType S) → Cells → Option (List (DeviceType S) × Cells)
  update_devices [] cells = some ([], cells)
  update_devices (d ∷ ds) cells = do
    (s, cells') ← ops.do_update d.state cells
    (ds', cells'') ← update_devices ds cells'
    some (record d { state = s } ∷ ds', cells'')

  unfoldable pub update : ℕ → Bus S → Cells → Option (Bus S × Cells)
  update interval_cycle bus cells = do
    (ds, cells1) ← update_devices bus.devices cells
    (c, cells2) ← Clint.tick (clint_ticks interval_cycle) bus.clint cells1
    (p, cells3) ← Plic.Tick.tick bus.plic cells2
    some (record { clint = c; plic = p; devices = ds }, cells3)
