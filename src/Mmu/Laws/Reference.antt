-- ===== src/Mmu/Laws/Reference.antt =====
-- The walk of src/rv64core/mmu/cpu_mmu.rs against the steps 2 to 4 that the privileged specification
-- gives, as a relation.
use riscv64_emu_rust.Base.{
  Bool, true, false, not, ◌&&◌, ◌||◌, ◌==◌, ◌/◌, ◌%◌, ◌^◌, Option, none, some, ℕ, zero, suc, ◌+◌,
  ◌*◌, ◌≡◌, arith, ◌⊎◌,
}
use riscv64_emu_rust.Access.{AccessType, throw_page_exception, Result, value, raise, Caches}
use riscv64_emu_rust.Bus.{ok}
use riscv64_emu_rust.Mmu.Words.{StapMode, get_ptesize, va_ppn}
use riscv64_emu_rust.Mmu.Pte
use riscv64_emu_rust.Mmu.{invalid_pte}
use riscv64_emu_rust.Mmu.Walk.{find_leaf}

-- Where a walk ends: at an entry, or past the last level.
pub data Stop : Type 0 where
  at_entry past_levels : Stop

-- Bits 54 to 63, and in a pointer the bits D, A and U as well.
abbrev pub is_reserved : ℕ → Bool
is_reserved pte =
    not (pte / 2 ^ 54 % 2 ^ 10 == 0)
    || (not (Pte.r pte || Pte.w pte || Pte.x pte) && (Pte.d pte || Pte.a pte || Pte.u pte))

module _ (mode : StapMode) (access_type : AccessType) (va : ℕ) (table : ℕ → ℕ) where
  -- The entry that the walk reads at a level, in the table at `a`.
  abbrev IsEntry : ℕ → ℕ → ℕ → Type 0
  IsEntry i a pte =
      (ppn : ℕ) × (va_ppn mode i va ≡ some ppn) × (pte ≡ table (a + ppn * get_ptesize mode))

  -- Step 3 faults at an entry that is not valid, that is writable but not readable, or that has a
  -- reserved bit. Step 4 takes a leaf, or follows a pointer, and faults where no level is left.
  pub data Resolves : ℕ → ℕ → Stop → Result (ℕ × ℕ) → Type 0 where
    not_valid :
        (i a pte : ℕ)
        → IsEntry i a pte
        → Pte.v pte ≡ false
        → Resolves i a at_entry (raise (throw_page_exception access_type))
    write_only :
        (i a pte : ℕ)
        → IsEntry i a pte
        → Pte.r pte ≡ false
        → Pte.w pte ≡ true
        → Resolves i a at_entry (raise (throw_page_exception access_type))
    reserved :
        (i a pte : ℕ)
        → IsEntry i a pte
        → is_reserved pte ≡ true
        → Resolves i a at_entry (raise (throw_page_exception access_type))
    leaf :
        (i a pte : ℕ)
        → IsEntry i a pte
        → is_reserved pte ≡ false
        → Pte.v pte ≡ true
        → (Pte.r pte ≡ true) ⊎ ((Pte.w pte ≡ false) × (Pte.x pte ≡ true))
        → Resolves i a at_entry (value (pte, i))
    pointer :
        (i a pte : ℕ) (stop : Stop) (r : Result (ℕ × ℕ))
        → IsEntry (suc i) a pte
        → is_reserved pte ≡ false
        → Pte.v pte ≡ true
        → Pte.r pte ≡ false
        → Pte.w pte ≡ false
        → Pte.x pte ≡ false
        → Resolves i (Pte.ppn_all pte * 4096) stop r
        → Resolves (suc i) a stop r
    last_pointer :
        (a pte : ℕ)
        → IsEntry zero a pte
        → is_reserved pte ≡ false
        → Pte.v pte ≡ true
        → Pte.r pte ≡ false
        → Pte.w pte ≡ false
        → Pte.x pte ≡ false
        → Resolves zero a past_levels (raise (throw_page_exception access_type))

valid-cases :
    (pte : ℕ)
    → invalid_pte pte ≡ false
    → (Pte.v pte ≡ true) × ((Pte.r pte ≡ true) ⊎ (Pte.w pte ≡ false))
unfolding invalid_pte
valid-cases pte h = ground arith

module _ {M : Type 0} (caches : Caches M) where
  -- The rest of the walk below a level.
  abbrev below : StapMode → AccessType → ℕ → ℕ → ℕ → M → Option (Result (ℕ × ℕ) × M)
  below mode access_type va zero a m = none
  below mode access_type va (suc i) a m = find_leaf caches mode access_type va i a m

-- Memory that answers every read of an entry with the table's, and is not changed by it.
abbrev pub Holds : {M : Type 0} → Caches M → StapMode → (ℕ → ℕ) → M → Type 0
Holds caches mode table m =
    (addr : ℕ) → caches.dcache_read addr (get_ptesize mode) m ≡ some (ok (table addr), m)

module _ {M : Type 0} (caches : Caches M) (mode : StapMode) (access_type : AccessType) (va : ℕ)
    (table : ℕ → ℕ) (m : M) (holds : Holds caches mode table m)
    (plain : (addr : ℕ) → is_reserved (table addr) ≡ false) where
  abbrev IsWalk : ℕ → ℕ → Result (ℕ × ℕ) × M → Type 0
  IsWalk i a (r, m') = Resolves mode access_type va table i a at_entry r × (m' ≡ m)

  -- What the code gives where the relation has a result: past the last level it panics.
  abbrev ends : Stop → Result (ℕ × ℕ) → Option (Result (ℕ × ℕ) × M)
  ends at_entry r = some (r, m)
  ends past_levels r = none
