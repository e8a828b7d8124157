-- ===== src/Access.antt =====
-- `AccessType` of src/rv64core/inst/inst_base.rs: what a memory access is for, and the exceptions that
-- it raises; the result of code that may raise one; and the operations of the caches of
-- src/rv64core/cache/ that the MMU and the hart call.
use riscv64_emu_rust.Base.{Bool, true, false, Option, ℕ}
use riscv64_emu_rust.Bus.{Reply}
use riscv64_emu_rust.Trap.{
  TrapType, instruction_address_misaligned, instruction_access_fault, instruction_page_fault,
  load_address_misaligned, load_access_fault, load_page_fault, store_address_misaligned,
  store_access_fault, store_page_fault,
}

-- Each with the address that the trap value reports.
pub data AccessType : Type 0 where
  load store fetch amo : ℕ → AccessType

abbrev pub is_store : AccessType → Bool
is_store (load _) = false
is_store (store _) = true
is_store (fetch _) = false
is_store (amo _) = true

abbrev pub is_fetch : AccessType → Bool
is_fetch (load _) = false
is_fetch (store _) = false
is_fetch (fetch _) = true
is_fetch (amo _) = false

abbrev pub throw_page_exception : AccessType → TrapType
throw_page_exception (fetch tval) = instruction_page_fault tval
throw_page_exception (load tval) = load_page_fault tval
throw_page_exception (store tval) = store_page_fault tval
throw_page_exception (amo tval) = store_page_fault tval

abbrev pub throw_access_exception : AccessType → TrapType
throw_access_exception (fetch tval) = instruction_access_fault tval
throw_access_exception (load tval) = load_access_fault tval
throw_access_exception (store tval) = store_access_fault tval
throw_access_exception (amo tval) = store_access_fault tval

abbrev pub throw_addr_misaligned_exception : AccessType → TrapType
throw_addr_misaligned_exception (fetch tval) = instruction_address_misaligned tval
throw_addr_misaligned_exception (load tval) = load_address_misaligned tval
throw_addr_misaligned_exception (store tval) = store_address_misaligned tval
throw_addr_misaligned_exception (amo tval) = store_address_misaligned tval

-- `Result<_, TrapType>`.
pub data Result (A : Type 0) : Type 0 where
  value : A → Result A
  raise : TrapType → Result A

-- The caches on states of type `M`, which hold the bus behind them.
pub record Caches (M : Type 0) : Type 0 where
  pub dcache_read : ℕ → ℕ → M → Option (Reply ℕ × M)
  pub dcache_write : ℕ → ℕ → ℕ → M → Option (Reply ℕ × M)
  pub icache_read : ℕ → ℕ → M → Option (Reply ℕ × M)
