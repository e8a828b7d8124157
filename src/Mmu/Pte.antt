-- ===== src/Mmu/Pte.antt =====
-- The page table entries of src/rv64core/mmu/sv39.rs, sv48.rs and sv57.rs, with `PTEops` of
-- src/rv64core/mmu/vm_info.rs. `none` is a panic.
use riscv64_emu_rust.Base.{Bool, Option, none, some, ℕ, zero, suc, ◌+◌, ◌*◌, ◌/◌, ◌%◌, ◌^◌, bit_and}
use riscv64_emu_rust.Base.Bits.{get_bit}
use riscv64_emu_rust.Mmu.Words.{StapMode, sv48, sv57}

-- The fields of a page table entry: `w` bits for `ppn` number `idx`.
abbrev pub field : ℕ → ℕ → ℕ → ℕ
field w idx pte = pte / 2 ^ (10 + 9 * idx) % 2 ^ w

unfoldable pub sv39_ppn : ℕ → ℕ → Option ℕ
sv39_ppn zero pte = some (field 9 0 pte)
sv39_ppn (suc zero) pte = some (field 9 1 pte)
sv39_ppn (suc (suc zero)) pte = some (field 26 2 pte)
sv39_ppn _ pte = none

unfoldable pub sv48_ppn : ℕ → ℕ → Option ℕ
sv48_ppn zero pte = some (field 9 0 pte)
sv48_ppn (suc zero) pte = some (field 9 1 pte)
sv48_ppn (suc (suc zero)) pte = some (field 9 2 pte)
sv48_ppn (suc (suc (suc zero))) pte = some (field 17 3 pte)
sv48_ppn _ pte = none

unfoldable pub sv57_ppn : ℕ → ℕ → Option ℕ
sv57_ppn zero pte = some (field 9 0 pte)
sv57_ppn (suc zero) pte = some (field 9 1 pte)
sv57_ppn (suc (suc zero)) pte = some (field 9 2 pte)
sv57_ppn (suc (suc (suc zero))) pte = some (field 9 3 pte)
sv57_ppn (suc (suc (suc (suc zero)))) pte = some (field 8 4 pte)
sv57_ppn _ pte = none

unfoldable pub get_ppn_by_idx : StapMode → ℕ → ℕ → Option ℕ
unfolding sv39_ppn sv48_ppn sv57_ppn
get_ppn_by_idx sv48 idx pte = sv48_ppn idx pte
get_ppn_by_idx sv57 idx pte = sv57_ppn idx pte
get_ppn_by_idx _ idx pte = sv39_ppn idx pte

abbrev pub ppn_all : ℕ → ℕ
ppn_all pte = bit_and (pte / 2 ^ 10) 0xfffffffffff

-- The flags of a page table entry.
abbrev pub v : ℕ → Bool
v pte = get_bit 0 pte

abbrev pub r : ℕ → Bool
r pte = get_bit 1 pte

abbrev pub w : ℕ → Bool
w pte = get_bit 2 pte

abbrev pub x : ℕ → Bool
x pte = get_bit 3 pte

abbrev pub u : ℕ → Bool
u pte = get_bit 4 pte

abbrev pub g : ℕ → Bool
g pte = get_bit 5 pte

abbrev pub a : ℕ → Bool
a pte = get_bit 6 pte

abbrev pub d : ℕ → Bool
d pte = get_bit 7 pte
