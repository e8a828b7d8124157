-- ===== src/Cache.antt =====
-- The lines of src/rv64core/cache/cpu_dcache.rs, and the hash maps of the caches: association lists, with the
-- order of `HashMap::iter` as the parameter `HashIter`. `none` is a panic.
pub mod Dcache
pub mod Icache
pub mod Laws
mod Examples
use riscv64_emu_rust.Base.{
  Bool, true, false, List, [], ◌∷◌, Option, none, some, ◌>>=◌, assert, if◌then◌else◌, ℕ, ◌+◌, ◌%◌,
  ◌^◌, ◌==◌, ltb,
}
use riscv64_emu_rust.Memory

pub record HashIter : Type 1 where
  pub iter : {A : Type 0} → List (ℕ × A) → List (ℕ × A)

module _ {A : Type 0} where
  unfoldable pub get : ℕ → List (ℕ × A) → Option A
  get key [] = none
  get key ((k, v) ∷ items) = if k == key then some v else get key items

  unfoldable pub delete : ℕ → List (ℕ × A) → List (ℕ × A)
  delete key [] = []
  delete key ((k, v) ∷ items) =
      let rest = delete key items in if k == key then rest else (k, v) ∷ rest

  unfoldable pub insert : ℕ → A → List (ℕ × A) → List (ℕ × A)
  unfolding delete
  insert key v items = (key, v) ∷ delete key items

  -- The first key in the order, or the default key, and the item that goes with it.
  abbrev pub next_key : List (ℕ × A) → ℕ
  next_key [] = 0
  next_key ((k, v) ∷ items) = k

  unfoldable pub remove_random : HashIter → List (ℕ × A) → Option A × List (ℕ × A)
  unfolding get delete
  remove_random order items =
      let key : ℕ = next_key (order.iter items) in (get key items, delete key items)

-- A counter of accesses, which panics at the greatest word.
abbrev pub count : ℕ → Option ℕ
count n = assert (ltb (n + 1) (2 ^ 64)) (some (n + 1))

pub record CacheLine : Type 0 where
  pub dirty : Bool
  pub lru : ℕ
  pub tag : ℕ
  pub data_bytes : List ℕ

unfoldable pub line_read : ℕ → ℕ → CacheLine → Option ℕ
unfolding Memory.do_read
line_read addr len line = Memory.do_read addr len (record { bytes = line.data_bytes })

unfoldable pub line_write : ℕ → ℕ → ℕ → CacheLine → Option CacheLine
unfolding Memory.do_write
line_write addr word len line =
    Memory.do_write addr word len (record { bytes = line.data_bytes }) >>= λ (_, memory).
    some (record line { lru = (line.lru + 1) % 256; data_bytes = memory.bytes; dirty = true })
