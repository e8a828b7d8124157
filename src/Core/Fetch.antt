-- ===== src/Core/Fetch.antt =====
-- `fetch_from_mem` and `advance_pc` of src/rv64core/cpu_core.rs, with `is_compressed_instruction` of
-- src/rv64core/inst/inst_base.rs. `none` is a panic.
use riscv64_emu_rust.Base.{
  Bool, not, Option, some, ◌>>=◌, assert, if◌then◌else◌, ℕ, zero, suc, ◌+◌, ◌*◌, ◌/◌, ◌%◌, ◌^◌,
  ◌==◌, ltb, leb, bit_and,
}
use riscv64_emu_rust.Access.{Result, value, raise, Caches}
use riscv64_emu_rust.Bus.{check_aligned}
use riscv64_emu_rust.Mmu.{Tlb}
use riscv64_emu_rust.Trap.{load_address_misaligned}
use riscv64_emu_rust.Core.{Core, icahce_read}

abbrev pub is_compressed_instruction : ℕ → Bool
is_compressed_instruction inst = not (bit_and inst 3 == 3)

-- The address of the next instruction in memory.
unfoldable pub advance_pc : ℕ → ℕ → ℕ
advance_pc pc inst = (pc + (if is_compressed_instruction inst then 2 else 4)) % 2 ^ 64

module _ {M T : Type 0} where
  -- Two bytes that were read go into `data_bytes` at `i`, of which there are four; `more` reads on
  -- where what is there is no compressed instruction.
  abbrev pub put_half :
      ℕ
      → ℕ
      → (ℕ → Core M T → Option (Result ℕ × Core M T))
      → Result ℕ × Core M T
      → Option (Result ℕ × Core M T)
  put_half i data_bytes more (raise t, core) = some (raise t, core)
  put_half i data_bytes more (value byte, core) =
      let filled : ℕ = data_bytes + byte % 2 ^ 16 * 2 ^ (8 * i) in
      let rest = more filled core in
      assert (leb (i + 2) 4)
        (if is_compressed_instruction filled then some (value filled, core) else rest)

module _ {M T : Type 0} (caches : Caches M) (tlb : Tlb T) where
  -- The loop over every second `i`, for the rounds that are left.
  unfoldable pub fetch_halves : ℕ → ℕ → ℕ → ℕ → Core M T → Option (Result ℕ × Core M T)
  unfolding icahce_read
  fetch_halves zero addr i data_bytes core = some (value data_bytes, core)
  fetch_halves (suc n) addr i data_bytes core = assert (ltb (addr + i) (2 ^ 64)) (
      icahce_read caches tlb (addr + i) 2 core
      >>= put_half i data_bytes (fetch_halves n addr (i + 2)))

  -- The flag says whether the extension `c` is enabled.
  unfoldable pub fetch_from_mem : Bool → ℕ → ℕ → Core M T → Option (Result ℕ × Core M T)
  unfolding icahce_read fetch_halves check_aligned
  fetch_from_mem enable_c addr size core = check_aligned addr 4 >>= λ aligned.
      if aligned
      then icahce_read caches tlb addr 4 core
      else if enable_c
      then fetch_halves ((size + 1) / 2) addr 0 0 core
      else some (raise (load_address_misaligned addr), core)
