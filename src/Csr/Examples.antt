-- ===== src/Csr/Examples.antt =====
-- Runs of the CSR instructions of src/rv64core/inst/inst_rv64z.rs on a new hart.
use riscv64_emu_rust.Base.{true, false, some, ◌∷◌, replicate, ℕ, ◌≡◌, refl}
use riscv64_emu_rust.Access.{value, raise}
use riscv64_emu_rust.Trap.{illegal_instruction, user, supervisor}
use riscv64_emu_rust.Mmu.Words.{sv39}
use riscv64_emu_rust.Csr.Cells.{Cell, put}
use riscv64_emu_rust.Csr.File.{Config, new, add_mtime}
use riscv64_emu_rust.Csr.Inst.{Hart, csrrw, csrrs, execute_csr}
use riscv64_emu_rust.Csr.Laws.{IsConfined}
use riscv64_emu_rust.Csr.Laws.Inst.{execute_csr-Undone, execute_csr-IsConfined}

abbrev config : Config
config = record {
  isa_m = true;
  isa_a = true;
  isa_c = true;
  isa_f = false;
  s_mode = true;
  u_mode = true;
  mmu_type = sv39;
}

abbrev hart : Hart
hart = record {
  gpr = record { regs = 0 ∷ 5 ∷ 7 ∷ replicate 29 0 };
  csr_regs = add_mtime (new 0 config);
  cur_priv = supervisor;
}

-- `csrrw x1, sscratch, x2`.
abbrev swap : ℕ
swap = 0x140110f3

abbrev swapped : Hart
swapped = record {
  gpr = record { regs = 0 ∷ 0 ∷ 7 ∷ replicate 29 0 };
  csr_regs = record hart.csr_regs {
    cells = put Cell.sscratch 7 hart.csr_regs.cells;
    cur_priv = supervisor;
  };
  cur_priv = supervisor;
}

swaps : execute_csr csrrw swap hart ≡ some (value tt, swapped)
unfolding execute_csr add_mtime new
swaps = refl

execute_csr-IsConfined_example :
    IsConfined hart.csr_regs.cells swapped.csr_regs.cells
    × (swapped.csr_regs.csr_map ≡ hart.csr_regs.csr_map)
unfolding add_mtime new
execute_csr-IsConfined_example =
    execute_csr-IsConfined csrrw swap 0 config hart swapped (value tt) (λ e. cc) refl swaps

-- `csrrs x1, mstatus, x2` in user mode.
abbrev pry : ℕ
pry = 0x300120f3

abbrev prying : Hart
prying = record hart { cur_priv = user }

abbrev pried : Hart
pried = record prying { csr_regs = record hart.csr_regs { cur_priv = user } }

pries : execute_csr csrrs pry prying ≡ some (raise (illegal_instruction 0), pried)
unfolding execute_csr add_mtime new
pries = refl

execute_csr-Undone_example :
    (illegal_instruction 0 ≡ illegal_instruction 0)
    × (pried.gpr ≡ prying.gpr)
    × (pried.csr_regs.cells ≡ prying.csr_regs.cells)
execute_csr-Undone_example = execute_csr-Undone csrrs pry prying pried (illegal_instruction 0) pries
