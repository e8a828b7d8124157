-- ===== src/Clint.antt =====
-- src/device/device_sifive_clint.rs: the core-local interruptor, its timer and the software
-- interrupts. A hart's interrupt-pending word is a location that the interruptor shares with the hart
-- and with the interrupt controller of Plic; the time is a cell that the harts only read, so it is a
-- field. `none` is a panic.
pub mod Laws
mod Examples
use riscv64_emu_rust.Base.{
  Bool, true, false, ◌&&◌, ◌||◌, not, List, [], ◌∷◌, ◌++◌, Option, none, some, ◌>>=◌, assert,
  if◌then◌else◌, ℕ, ◌+◌, ◌-◌, ◌*◌, ◌/◌, ◌%◌, ◌^◌, ◌==◌, ltb, leb, bit_and, bit_or, get_elem?, set,
  to_nat,
}
use riscv64_emu_rust.Base.Bits.{get_bit, set_bit}
use riscv64_emu_rust.Csr.Xip.{msip, mtip}
use riscv64_emu_rust.Plic.{Cells, update}

pub record ClintHart : Type 0 where
  pub mtimecmp : ℕ
  pub xip : ℕ

pub record Clint : Type 0 where
  pub harts : List ClintHart
  pub mtime : ℕ

unfoldable pub new_hart : ℕ → ClintHart
new_hart xip_share = record { mtimecmp = 2 ^ 64 - 1; xip = xip_share }

-- The bit of the interrupt-pending word that belongs to a hart.
abbrev pub set_xip : ℕ → Bool → ClintHart → Cells → Cells
set_xip k level hart cells = record cells {
  xips = update cells.xips hart.xip (set_bit k level (cells.xips hart.xip));
}

unfoldable pub msip_read : ClintHart → Cells → ℕ
msip_read hart cells = to_nat (get_bit msip (cells.xips hart.xip))

unfoldable pub msip_write : ℕ → ClintHart → Cells → Cells
msip_write value hart cells = set_xip msip (value == 1) hart cells

unfoldable pub mtimecmp_write : ℕ → ClintHart → ClintHart
mtimecmp_write value hart = record hart { mtimecmp = value }

unfoldable pub mtimecmph_read : ClintHart → ℕ
mtimecmph_read hart = hart.mtimecmp / 2 ^ 32

-- `data << 32` drops the bits that leave the word.
unfoldable pub mtimecmph_write : ℕ → ClintHart → ClintHart
mtimecmph_write value hart = record hart {
  mtimecmp = bit_or (bit_and hart.mtimecmp 0xffffffff) (value * 2 ^ 32 % 2 ^ 64);
}

unfoldable pub new : Clint
new = record { harts = []; mtime = 0 }

unfoldable pub add_hart : ℕ → Clint → Clint
unfolding new_hart
add_hart xip_share clint = record clint { harts = clint.harts ++ new_hart xip_share ∷ [] }

-- The sum panics past 64 bits.
unfoldable pub mtime_inc : ℕ → Clint → Option Clint
mtime_inc inc clint =
    assert (ltb (clint.mtime + inc) (2 ^ 64)) (some (record clint { mtime = clint.mtime + inc }))

-- The loop over the harts.
unfoldable pub update_harts : ℕ → List ClintHart → Cells → Cells
update_harts mtime [] cells = cells
update_harts mtime (hart ∷ harts) cells =
    update_harts mtime harts (set_xip mtip (leb hart.mtimecmp mtime) hart cells)

unfoldable pub tick : ℕ → Clint → Cells → Option (Clint × Cells)
unfolding mtime_inc
tick inc clint cells = do
  clint' ← mtime_inc inc clint
  some (clint', update_harts clint'.mtime clint'.harts cells)

abbrev pub in_range : ℕ → ℕ → ℕ → Bool
in_range first last addr = leb first addr && leb addr last

unfoldable pub do_read : ℕ → ℕ → Clint → Cells → Option ℕ
unfolding msip_read mtimecmph_read
do_read addr len clint cells =
    if in_range 0 0x3fff addr && (len == 4)
    then (get_elem? clint.harts (addr / 4) >>= λ hart. some (msip_read hart cells))
    else if in_range 0x4000 0xbff7 addr
    then (get_elem? clint.harts ((addr - 0x4000) / 8) >>= λ hart.
        some (if (addr - 0x4000) % 8 == 4 then mtimecmph_read hart else hart.mtimecmp))
    else if in_range 0xbff8 0xbfff addr
    then some (if addr == 0xbffc then clint.mtime / 2 ^ 32 else clint.mtime)
    else none

unfoldable pub do_write : ℕ → ℕ → ℕ → Clint → Cells → Option (Clint × Cells)
unfolding msip_write mtimecmp_write mtimecmph_write
do_write addr value len clint cells =
    if in_range 0 0x3fff addr && (len == 4)
    then (get_elem? clint.harts (addr / 4) >>= λ hart. some (clint, msip_write value hart cells))
    else if in_range 0x4000 0xbff7 addr
    then (get_elem? clint.harts ((addr - 0x4000) / 8) >>= λ hart. some (
      record clint {
        harts = set clint.harts ((addr - 0x4000) / 8) (
            if (addr - 0x4000) % 8 == 4
            then mtimecmph_write value hart
            else mtimecmp_write value hart);
      },
      cells,
    ))
    else if (addr == 0xbff8) && (len == 8)
    then some (record clint { mtime = value }, cells)
    else none
