-- ===== src/Clint/Laws/Registers.antt =====
-- The registers of a hart in src/device/device_sifive_clint.rs, by words of 4 bytes and whole.
use riscv64_emu_rust.Base.{
  true, false, set, get_elem?-set_self, get_elem?-some, ◌-◌, ◌/◌, some, ℕ, ◌+◌, ◌*◌, ◌%◌, ◌^◌, ◌<◌,
  get_elem?, arith, ◌≡◌, refl,
}
use riscv64_emu_rust.Base.Bits.{bit_and_mask, bit_or_disjoint}
use riscv64_emu_rust.Plic.{Cells}
use riscv64_emu_rust.Clint.{
  ClintHart, Clint, mtimecmp_write, mtimecmph_read, mtimecmph_write, do_read, do_write, in_range,
}

high_part : (v : ℕ) → v * 2 ^ 32 % 2 ^ 64 ≡ v % 2 ^ 32 * 2 ^ 32
high_part v = omega arith

mtimecmp-mtimecmph_write :
    (v : ℕ) (hart : ClintHart)
    → (mtimecmph_write v hart).mtimecmp ≡ hart.mtimecmp % 2 ^ 32 + v % 2 ^ 32 * 2 ^ 32
unfolding mtimecmph_write
mtimecmp-mtimecmph_write v hart =
    rw (bit_and_mask 32 hart.mtimecmp, high_part v)
      (bit_or_disjoint 32 (hart.mtimecmp % 2 ^ 32) (v % 2 ^ 32) (omega arith))

-- A write of the high half of a comparison value is read back from the high half, and leaves the low
-- half as it was.
pub mtimecmph_read-mtimecmph_write :
    (v : ℕ) (hart : ClintHart)
    → (mtimecmph_read (mtimecmph_write v hart) ≡ v % 2 ^ 32)
      × ((mtimecmph_write v hart).mtimecmp % 2 ^ 32 ≡ hart.mtimecmp % 2 ^ 32)
unfolding mtimecmph_read
mtimecmph_read-mtimecmph_write v hart =
    (omega (arith, mtimecmp-mtimecmph_write v hart), omega (arith, mtimecmp-mtimecmph_write v hart))

-- A hart in its place.
abbrev pub with_hart : ℕ → ClintHart → Clint → Clint
with_hart i hart clint = record clint { harts = set clint.harts i hart }

pub with_hart_at :
    (i : ℕ) (old hart : ClintHart) (clint : Clint)
    → get_elem? clint.harts i ≡ some old
    → get_elem? (with_hart i hart clint).harts i ≡ some hart
with_hart_at i old hart clint at =
    get_elem?-set_self clint.harts i hart (get_elem?-some clint.harts i at)

-- The two registers of 4 bytes of hart `i`.
low_place :
    (i : ℕ)
    → i < 4095
    → (in_range 0 0x3fff (0x4000 + 8 * i) ≡ false)
      × (in_range 0x4000 0xbff7 (0x4000 + 8 * i) ≡ true)
      × ((0x4000 + 8 * i - 0x4000) / 8 ≡ i)
      × ((0x4000 + 8 * i - 0x4000) % 8 ≡ 0)
low_place i h = (ground arith, ground arith, omega arith, omega arith)

high_place :
    (i : ℕ)
    → i < 4095
    → (in_range 0 0x3fff (0x4004 + 8 * i) ≡ false)
      × (in_range 0x4000 0xbff7 (0x4004 + 8 * i) ≡ true)
      × ((0x4004 + 8 * i - 0x4000) / 8 ≡ i)
      × ((0x4004 + 8 * i - 0x4000) % 8 ≡ 4)
high_place i h = (ground arith, ground arith, omega arith, omega arith)

pub write_low :
    (i w : ℕ) (clint : Clint) (cells : Cells) (hart : ClintHart)
    → get_elem? clint.harts i ≡ some hart
    → i < 4095
    → do_write (0x4000 + 8 * i) w 4 clint cells
      ≡ some (with_hart i (mtimecmp_write w hart) clint, cells)
unfolding do_write
write_low i w clint cells hart at h = let (a, b, c, d) = low_place i h in rw (a, b, c, d, at) refl

pub write_high :
    (i v : ℕ) (clint : Clint) (cells : Cells) (hart : ClintHart)
    → get_elem? clint.harts i ≡ some hart
    → i < 4095
    → do_write (0x4004 + 8 * i) v 4 clint cells
      ≡ some (with_hart i (mtimecmph_write v hart) clint, cells)
unfolding do_write
write_high i v clint cells hart at h = let (a, b, c, d) = high_place i h in rw (a, b, c, d, at) refl

pub read_low :
    (i len : ℕ) (clint : Clint) (cells : Cells) (hart : ClintHart)
    → get_elem? clint.harts i ≡ some hart
    → i < 4095
    → do_read (0x4000 + 8 * i) len clint cells ≡ some hart.mtimecmp
unfolding do_read
read_low i len clint cells hart at h = let (a, b, c, d) = low_place i h in rw (a, b, c, d, at) refl

pub read_high :
    (i len : ℕ) (clint : Clint) (cells : Cells) (hart : ClintHart)
    → get_elem? clint.harts i ≡ some hart
    → i < 4095
    → do_read (0x4004 + 8 * i) len clint cells ≡ some (mtimecmph_read hart)
unfolding do_read
read_high i len clint cells hart at h =
    let (a, b, c, d) = high_place i h in rw (a, b, c, d, at) refl

pub halves_high :
    (v : ℕ) (hart : ClintHart) → v < 2 ^ 32 → mtimecmph_read (mtimecmph_write v hart) ≡ v
halves_high v hart h = omega (arith, mtimecmph_read-mtimecmph_write v hart)

pub halves_low :
    (v w : ℕ) (hart : ClintHart)
    → v < 2 ^ 32
    → w < 2 ^ 32
    → (mtimecmph_write v (mtimecmp_write w hart)).mtimecmp ≡ w + v * 2 ^ 32
unfolding mtimecmp_write
halves_low v w hart hv hw = omega (arith, mtimecmp-mtimecmph_write v (mtimecmp_write w hart))

pub half_high : (w : ℕ) (hart : ClintHart) → w < 2 ^ 32 → mtimecmph_read (mtimecmp_write w hart) ≡ 0
unfolding mtimecmph_read mtimecmp_write
half_high w hart h = omega arith

pub half_low : (w : ℕ) (hart : ClintHart) → (mtimecmp_write w hart).mtimecmp ≡ w
unfolding mtimecmp_write
half_low w hart = refl
