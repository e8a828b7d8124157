-- ===== src/Mmu/Words.antt =====
-- The virtual addresses of src/rv64core/mmu/sv39.rs, sv48.rs and sv57.rs, and `StapMode` and `SatpIn`
-- of src/rv64core/csr_regs_define.rs. `none` is a panic.
use riscv64_emu_rust.Base.{
  if◌then◌else◌, ◌==◌, Option, none, some, ℕ, zero, suc, ◌+◌, ◌*◌, ◌/◌, ◌%◌, ◌^◌,
}

pub data StapMode : Type 0 where
  bare sv39 sv48 sv57 sv64 : StapMode

unfoldable pub from_bits : ℕ → Option StapMode
from_bits v =
    if v == 0
    then some bare
    else if v == 8
    then some sv39
    else if v == 9
    then some sv48
    else if v == 10
    then some sv57
    else if v == 11
    then some sv64
    else none

abbrev pub get_levels : StapMode → ℕ
get_levels bare = 0
get_levels sv39 = 3
get_levels sv48 = 4
get_levels sv57 = 5
get_levels sv64 = 6

abbrev pub get_ptesize : StapMode → ℕ
get_ptesize bare = 0
get_ptesize sv39 = 8
get_ptesize sv48 = 8
get_ptesize sv57 = 8
get_ptesize sv64 = 8

abbrev pub satp_ppn : ℕ → ℕ
satp_ppn satp = satp % 2 ^ 44

abbrev pub satp_asid : ℕ → ℕ
satp_asid satp = satp / 2 ^ 44 % 2 ^ 16

abbrev pub satp_mode : ℕ → Option StapMode
satp_mode satp = from_bits (satp / 2 ^ 60 % 2 ^ 4)

-- The fields `ppn0`, `ppn1`, ... of a virtual address.
abbrev pub va_field : ℕ → ℕ → ℕ
va_field idx va = va / 2 ^ (12 + 9 * idx) % 2 ^ 9

abbrev pub offset : ℕ → ℕ
offset va = va % 2 ^ 12

unfoldable pub sv39_va_ppn : ℕ → ℕ → Option ℕ
sv39_va_ppn zero va = some (va_field 0 va)
sv39_va_ppn (suc zero) va = some (va_field 1 va)
sv39_va_ppn (suc (suc zero)) va = some (va_field 2 va)
sv39_va_ppn _ va = none

unfoldable pub sv48_va_ppn : ℕ → ℕ → Option ℕ
sv48_va_ppn zero va = some (va_field 0 va)
sv48_va_ppn (suc zero) va = some (va_field 1 va)
sv48_va_ppn (suc (suc zero)) va = some (va_field 2 va)
sv48_va_ppn (suc (suc (suc zero))) va = some (va_field 3 va)
sv48_va_ppn _ va = none

unfoldable pub sv57_va_ppn : ℕ → ℕ → Option ℕ
sv57_va_ppn zero va = some (va_field 0 va)
sv57_va_ppn (suc zero) va = some (va_field 1 va)
sv57_va_ppn (suc (suc zero)) va = some (va_field 2 va)
sv57_va_ppn (suc (suc (suc zero))) va = some (va_field 3 va)
sv57_va_ppn (suc (suc (suc (suc zero)))) va = some (va_field 4 va)
sv57_va_ppn _ va = none

-- The modes that are none of the three are read as Sv39.
unfoldable pub va_ppn : StapMode → ℕ → ℕ → Option ℕ
unfolding sv39_va_ppn sv48_va_ppn sv57_va_ppn
va_ppn sv48 idx va = sv48_va_ppn idx va
va_ppn sv57 idx va = sv57_va_ppn idx va
va_ppn _ idx va = sv39_va_ppn idx va
