-- ===== src/Memory.antt =====
-- src/device/device_memory.rs: an array of bytes, read and written as little-endian words of up to
-- eight bytes. `none` is a slice out of range.
pub mod Laws
use riscv64_emu_rust.Base.{
  Bool, true, false, List, [], ◌∷◌, ◌++◌, Option, none, some, assert, ℕ, zero, suc, ◌+◌, ◌-◌, ◌*◌,
  ◌/◌, ◌%◌, leb, replicate, length, set, take, drop,
}

pub record DeviceMemory : Type 0 where
  pub bytes : List ℕ

unfoldable pub new : ℕ → DeviceMemory
new size = record { bytes = replicate size 0 }

-- The `n` low bytes of a word, the lowest first.
unfoldable pub to_le_bytes : ℕ → ℕ → List ℕ
to_le_bytes zero value = []
to_le_bytes (suc n) value = value % 256 ∷ to_le_bytes n (value / 256)

unfoldable pub from_le_bytes : List ℕ → ℕ
from_le_bytes [] = 0
from_le_bytes (b ∷ bs) = b + 256 * from_le_bytes bs

-- The bytes from `addr` on overwritten one by one.
unfoldable pub overwrite : List ℕ → ℕ → List ℕ → List ℕ
overwrite bytes addr [] = bytes
overwrite bytes addr (b ∷ bs) = overwrite (set bytes addr b) (suc addr) bs

unfoldable pub copy_from_slice : ℕ → List ℕ → DeviceMemory → Option DeviceMemory
copy_from_slice addr slice memory =
    assert (leb (addr + length slice) (length memory.bytes))
      (some (record { bytes = overwrite memory.bytes addr slice }))

unfoldable pub load_binary : List ℕ → DeviceMemory → Option DeviceMemory
unfolding copy_from_slice
load_binary slice memory = copy_from_slice 0 slice memory

-- The slice that a caller's buffer of `len` bytes receives.
unfoldable pub copy_to_slice : ℕ → ℕ → DeviceMemory → Option (List ℕ)
copy_to_slice addr len memory =
    assert (leb (addr + len) (length memory.bytes)) (some (take len (drop addr memory.bytes)))

unfoldable pub do_read : ℕ → ℕ → DeviceMemory → Option ℕ
do_read addr len memory = assert (leb len 8) (
    assert (leb (addr + len) (length memory.bytes))
      (some (from_le_bytes (take len (drop addr memory.bytes) ++ replicate (8 - len) 0))))

unfoldable pub do_write : ℕ → ℕ → ℕ → DeviceMemory → Option (ℕ × DeviceMemory)
do_write addr value len memory = assert (leb len 8) (
    assert (leb (addr + len) (length memory.bytes)) (
      some
        (value, record { bytes = overwrite memory.bytes addr (take len (to_le_bytes 8 value)) })))
