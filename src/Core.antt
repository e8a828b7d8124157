-- ===== src/Core.antt =====
-- The memory accesses of src/rv64core/cpu_core.rs, `read`, `icahce_read` and `write`: an address is
-- translated, and the caches are asked at the physical address. The reservation of LR and SC, which
-- the bus keeps, is a field of the state here. `none` is a panic.
pub mod LoadStore
pub mod Atomic
pub mod Uncached
pub mod Fetch
pub mod Fence
pub mod Laws
mod Examples
use riscv64_emu_rust.Base.{
  Bool, true, false, not, Option, none, some, ◌>>=◌, assert, if◌then◌else◌, ℕ, ◌-◌, ◌^◌, ◌==◌,
}
use riscv64_emu_rust.Access.{
  AccessType, fetch, throw_access_exception, Result, value, raise, Caches,
}
use riscv64_emu_rust.Bus.{Reply, ok, err}
use riscv64_emu_rust.Gpr.{Gpr}
use riscv64_emu_rust.Mmu.{Tlb, Mmu, update_access_type}
use riscv64_emu_rust.Mmu.Walk.{translate}

-- The parts of a hart that an instruction of the memory reaches: its registers, the MMU, the caches
-- with the bus behind them, and `LrScReservation`.
pub record Core (M T : Type 0) : Type 0 where
  pub gpr : Gpr
  pub mmu : Mmu T
  pub memory : M
  pub reservation : ℕ

module _ {M T : Type 0} where
  -- What the caches answered, for the kind of access that asked.
  abbrev pub answered : AccessType → Core M T → Reply ℕ × M → Result ℕ × Core M T
  answered access_type core (ok word, m) = (value word, record core { memory = m })
  answered access_type core (err _, m) =
      (raise (throw_access_exception access_type), record core { memory = m })

  -- The physical address, or the exception of the translation.
  abbrev pub at_address :
      (ℕ → Core M T → Option (Result ℕ × Core M T))
      → Core M T
      → Result ℕ × Mmu T × M
      → Option (Result ℕ × Core M T)
  at_address act core (raise t, mmu, m) = some (raise t, record core { mmu = mmu; memory = m })
  at_address act core (value paddr, mmu, m) = act paddr (record core { mmu = mmu; memory = m })

module _ {M T : Type 0} (caches : Caches M) (tlb : Tlb T) where
  unfoldable pub read : ℕ → ℕ → AccessType → Core M T → Option (Result ℕ × Core M T)
  unfolding update_access_type translate
  read addr len access_type core = do
    mmu ← update_access_type access_type core.mmu
    r ← translate caches tlb addr len mmu core.memory
    at_address
        (λ paddr core'. caches.dcache_read paddr len core'.memory >>= λ reply.
          some (answered access_type core' reply))
        core r

  unfoldable pub icahce_read : ℕ → ℕ → Core M T → Option (Result ℕ × Core M T)
  unfolding update_access_type translate
  icahce_read addr len core = do
    mmu ← update_access_type (fetch addr) core.mmu
    r ← translate caches tlb addr len mmu core.memory
    at_address
        (λ paddr core'. assert (not (len == 0)) (
          caches.icache_read paddr len core'.memory >>= λ reply.
          some (answered (fetch addr) core' reply)))
        core r

  unfoldable pub write : ℕ → ℕ → ℕ → AccessType → Core M T → Option (Result ℕ × Core M T)
  unfolding update_access_type translate
  write addr word len access_type core = do
    mmu ← update_access_type access_type core.mmu
    r ← translate caches tlb addr len mmu core.memory
    at_address
        (λ paddr core'. caches.dcache_write paddr word len core'.memory >>= λ reply.
          some (answered access_type core' reply))
        core r
