-- ===== src/Decode/Pattern.antt =====
-- `Instruction` and `inst_cmp` of src/rv64core/inst/inst_base.rs, and `sort_by` of a vector with it.
-- Only the mask and the match of an instruction are kept: its name is for logs, and its closure does
-- not bear on decoding.
use Prim.Native.Nat.{compare}
use Prim.Native.Nat
use riscv64_emu_rust.Base.{List, [], ◌∷◌, ℕ}

pub record Instruction : Type 0 where
  pub mask : ℕ
  pub match_data : ℕ

pub data Ordering : Type 0 where
  less equal greater : Ordering

abbrev pub cmp : ℕ → ℕ → Ordering
cmp a b = elim (compare a b) [
  | Prim.Native.Nat.Ordering.lt ↦ less
  | Prim.Native.Nat.Ordering.eq ↦ equal
  | Prim.Native.Nat.Ordering.gt ↦ greater
]

-- The greater match first, and of equal ones the greater mask.
abbrev pub reversed : Ordering → Ordering → Ordering
reversed less mask = greater
reversed greater mask = less
reversed equal equal = equal
reversed equal greater = less
reversed equal less = greater

unfoldable pub inst_cmp : Instruction → Instruction → Ordering
inst_cmp lhs rhs = reversed (cmp lhs.match_data rhs.match_data) (cmp lhs.mask rhs.mask)

-- Before the first element that is not less than it.
unfoldable pub insert : Instruction → List Instruction → List Instruction
unfolding inst_cmp
insert x [] = x ∷ []
insert x (y ∷ ys) =
    let rest = insert x ys in
    elim (inst_cmp x y) [ less ↦ x ∷ y ∷ ys | equal ↦ x ∷ y ∷ ys | greater ↦ y ∷ rest ]

-- A stable sort, as that of the standard library.
unfoldable pub sort_by_inst_cmp : List Instruction → List Instruction
unfolding insert
sort_by_inst_cmp [] = []
sort_by_inst_cmp (x ∷ xs) = insert x (sort_by_inst_cmp xs)
