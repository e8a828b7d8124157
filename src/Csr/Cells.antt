-- ===== src/Csr/Cells.antt =====
-- The cells that the registers of src/rv64core/csr_regs.rs stand on. Registers that share a cell, such as
-- mstatus and sstatus, are views of one word; the hart and the interruptor hold some of the cells too.
use riscv64_emu_rust.Base.{
  List, [], ◌∷◌, get_elem?, none, some, if◌then◌else◌, Bool-cases, inl, inr, ◌==◌, ==_refl, ==_iff,
  ℕ, ◌≡◌, ◌≢◌, refl, sym, ap, ◌∙◌, arith,
}

pub data Cell : Type 0 where
  xstatus xip xie mtvec stvec mcause scause medeleg mideleg mepc sepc satp mtval stval : Cell
  cycle instret dcsr dpc mscratch sscratch mcounteren scounteren dscratch0 dscratch1 : Cell
  marchid mvendorid mimpid time : Cell

abbrev pub cell_num : Cell → ℕ
cell_num Cell.xstatus = 0
cell_num Cell.xip = 1
cell_num Cell.xie = 2
cell_num Cell.mtvec = 3
cell_num Cell.stvec = 4
cell_num Cell.mcause = 5
cell_num Cell.scause = 6
cell_num Cell.medeleg = 7
cell_num Cell.mideleg = 8
cell_num Cell.mepc = 9
cell_num Cell.sepc = 10
cell_num Cell.satp = 11
cell_num Cell.mtval = 12
cell_num Cell.stval = 13
cell_num Cell.cycle = 14
cell_num Cell.instret = 15
cell_num Cell.dcsr = 16
cell_num Cell.dpc = 17
cell_num Cell.mscratch = 18
cell_num Cell.sscratch = 19
cell_num Cell.mcounteren = 20
cell_num Cell.scounteren = 21
cell_num Cell.dscratch0 = 22
cell_num Cell.dscratch1 = 23
cell_num Cell.marchid = 24
cell_num Cell.mvendorid = 25
cell_num Cell.mimpid = 26
cell_num Cell.time = 27

abbrev pub Store : Type 0
Store = Cell → ℕ

-- `Cell::set`.
abbrev pub put : Cell → ℕ → Store → Store
put c v s d = if cell_num d == cell_num c then v else s d

pub put_self : (c : Cell) (v : ℕ) (s : Store) → put c v s c ≡ v
put_self c v s = rw (==_refl (cell_num c)) refl

-- The cell of a number.
all_cells : List Cell
all_cells =
    Cell.xstatus ∷ Cell.xip ∷ Cell.xie ∷ Cell.mtvec ∷ Cell.stvec ∷ Cell.mcause ∷ Cell.scause
    ∷ Cell.medeleg ∷ Cell.mideleg ∷ Cell.mepc ∷ Cell.sepc ∷ Cell.satp ∷ Cell.mtval ∷ Cell.stval
    ∷ Cell.cycle ∷ Cell.instret ∷ Cell.dcsr ∷ Cell.dpc ∷ Cell.mscratch ∷ Cell.sscratch
    ∷ Cell.mcounteren ∷ Cell.scounteren ∷ Cell.dscratch0 ∷ Cell.dscratch1 ∷ Cell.marchid
    ∷ Cell.mvendorid ∷ Cell.mimpid ∷ Cell.time ∷ []

cell_of : ℕ → Cell
unfolding all_cells
cell_of n = elim (get_elem? all_cells n) [ none ↦ Cell.xstatus | some c ↦ c ]

cell_of-cell_num : (c : Cell) → cell_of (cell_num c) ≡ c
unfolding cell_of
cell_of-cell_num c = ground arith

pub put_other : (c d : Cell) (v : ℕ) (s : Store) → d ≢ c → put c v s d ≡ s d
put_other c d v s h = elim (Bool-cases (cell_num d == cell_num c)) [
  | inl e ↦ absurd (
      h (
        sym (cell_of-cell_num d)
        ∙ ap cell_of ((==_iff (cell_num d) (cell_num c)).0 e)
        ∙ cell_of-cell_num c))
  | inr e ↦ rw e refl
]
