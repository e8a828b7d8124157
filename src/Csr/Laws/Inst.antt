-- ===== src/Csr/Laws/Inst.antt =====
-- The CSR instructions of src/rv64core/inst/inst_rv64z.rs: what one that raises an exception leaves, what
-- software below machine mode reaches with them, and the swap that a trap handler begins and ends with.
use riscv64_emu_rust.Base.{
  Post, Post-some, Post-step, Post-bind, Post-if, Post-mono, Post-both, ◌≢◌, some, ◌>>=◌,
  if◌then◌else◌, ℕ, ◌==◌, ◌≡◌, refl, sym, ◌∙◌,
}
use mathlib.Core.Path.{subst}
use riscv64_emu_rust.Access.{load, store, Result, value, raise}
use riscv64_emu_rust.Gpr
use riscv64_emu_rust.Gpr.{Gpr}
use riscv64_emu_rust.Trap.{TrapType, illegal_instruction, PrivilegeLevels, machine}
use riscv64_emu_rust.Csr.Define.{csr_read, csr_write}
use riscv64_emu_rust.Csr.File
use riscv64_emu_rust.Csr.File.{Config, CsrRegs, new, add_mtime, written, lookup, permitted}
use riscv64_emu_rust.Csr.Inst.{
  FormatCsr, parse_format_csr, Hart, CsrOp, operand, csr_wb_data, finish, update, execute_csr,
}
use riscv64_emu_rust.Csr.Laws.{IsConfined, IsConfined-refl, Leaves, permitted-Post, write-Leaves}

-- A read has no effect but the note of the privilege.
pub read-cells :
    (addr : ℕ) (privi : PrivilegeLevels) (regs : CsrRegs)
    → Post
        (λ p. (p.1.cells ≡ regs.cells) × (p.1.csr_map ≡ regs.csr_map))
        (File.read addr privi regs)
unfolding File.read
read-cells addr privi regs =
    permitted-Post (λ p. (p.1.cells ≡ regs.cells) × (p.1.csr_map ≡ regs.csr_map)) addr privi
      (load 0) (λ csr regs'. some (value (csr_read csr regs'.cells), regs')) regs (refl, refl)
      (λ csr found ok. (refl, refl))

-- What an instruction makes of the hart: an exception is of one kind, and leaves the registers and
-- the cells.
abbrev pub Undone : Hart → Result Unit × Hart → Type 0
Undone hart (value _, hart') = Unit
Undone hart (raise t, hart') =
    (t ≡ illegal_instruction 0)
    × (hart'.gpr ≡ hart.gpr)
    × (hart'.csr_regs.cells ≡ hart.csr_regs.cells)

abbrev Inert : {A : Type 0} → CsrRegs → Result A × CsrRegs → Type 0
Inert regs (value _, regs') = Unit
Inert regs (raise t, regs') = (t ≡ illegal_instruction 0) × (regs'.cells ≡ regs.cells)

read-Inert :
    (addr : ℕ) (privi : PrivilegeLevels) (regs : CsrRegs)
    → Post (Inert regs) (File.read addr privi regs)
unfolding File.read
read-Inert addr privi regs =
    permitted-Post (Inert regs) addr privi (load 0)
      (λ csr regs'. some (value (csr_read csr regs'.cells), regs')) regs (refl, refl)
      (λ csr found ok. tt)

write-Inert :
    (addr word : ℕ) (privi : PrivilegeLevels) (regs : CsrRegs)
    → Post (Inert regs) (File.write addr word privi regs)
unfolding File.write
write-Inert addr word privi regs =
    permitted-Post (Inert regs) addr privi (store 0) (written word) regs (refl, refl)
      (λ csr found ok.
        Post-step (Inert regs) (csr_write csr word regs.cells)
          (λ cells. some (value tt, record regs { cells = cells; cur_priv = privi }))
          (λ cells e. tt))

finish-Undone :
    (rd t : ℕ) (hart : Hart) (regs : CsrRegs) (p : Result Unit × CsrRegs)
    → regs.cells ≡ hart.csr_regs.cells
    → Inert regs p
    → Post (Undone hart) (finish rd t hart p)
finish-Undone rd t hart regs (raise trap, regs') e (f, g) = (f, refl, g ∙ e)
finish-Undone rd t hart regs (value _, regs') e h =
    Post-step (Undone hart) (Gpr.write rd t hart.gpr)
      (λ gpr. some (value tt, record hart { gpr = gpr; csr_regs = regs' })) (λ gpr e'. tt)

update-Undone :
    (op : CsrOp) (f : FormatCsr) (hart : Hart) (p : Result ℕ × CsrRegs)
    → p.1.cells ≡ hart.csr_regs.cells
    → Inert hart.csr_regs p
    → Post (Undone hart) (update op f hart p)
update-Undone op f hart (raise trap, regs) e (g, k) = (g, refl, k)
update-Undone op f hart (value t, regs) e h =
    Post-step (Undone hart) (operand op f.rs1 hart.gpr)
      (λ x.
        (if t == csr_wb_data op t x
          then some (value tt, regs)
          else File.write f.csr (csr_wb_data op t x) hart.cur_priv regs)
        >>= finish f.rd t hart)
      (λ x ex.
        Post-bind (Inert regs) (Undone hart) _ (finish f.rd t hart)
          (Post-if (Inert regs) (t == csr_wb_data op t x) (some (value tt, regs))
            (File.write f.csr (csr_wb_data op t x) hart.cur_priv regs) (λ same. tt)
            (λ other. write-Inert f.csr (csr_wb_data op t x) hart.cur_priv regs))
          (λ q i. finish-Undone f.rd t hart regs q e i))

-- A CSR instruction that raises an exception raises an illegal instruction with the value 0, and has
-- changed no register and no cell.
pub execute_csr-Undone :
    (op : CsrOp) (inst : ℕ) (hart hart' : Hart) (t : TrapType)
    → execute_csr op inst hart ≡ some (raise t, hart')
    → (t ≡ illegal_instruction 0)
      × (hart'.gpr ≡ hart.gpr)
      × (hart'.csr_regs.cells ≡ hart.csr_regs.cells)
unfolding execute_csr
execute_csr-Undone op inst hart hart' t h =
    let f = parse_format_csr inst in
    Post-some (Undone hart) (execute_csr op inst hart) (raise t, hart')
      (Post-bind (λ p. (p.1.cells ≡ hart.csr_regs.cells) × Inert hart.csr_regs p) (Undone hart)
        (File.read f.csr hart.cur_priv hart.csr_regs) (update op f hart)
        (Post-both _ _ (File.read f.csr hart.cur_priv hart.csr_regs)
          (Post-mono _ (λ p. p.1.cells ≡ hart.csr_regs.cells)
            (File.read f.csr hart.cur_priv hart.csr_regs) (λ p (a, b). a)
            (read-cells f.csr hart.cur_priv hart.csr_regs))
          (read-Inert f.csr hart.cur_priv hart.csr_regs))
        (λ p (a, b). update-Undone op f hart p a b))
      h

-- What an instruction leaves of the cells.
abbrev Keeps : Hart → Result Unit × Hart → Type 0
Keeps hart (_, hart') =
    IsConfined hart.csr_regs.cells hart'.csr_regs.cells
    × (hart'.csr_regs.csr_map ≡ hart.csr_regs.csr_map)

finish-Keeps :
    (rd t : ℕ) (hart : Hart) (p : Result Unit × CsrRegs)
    → Leaves hart.csr_regs p
    → Post (Keeps hart) (finish rd t hart p)
finish-Keeps rd t hart (raise trap, regs') l = l
finish-Keeps rd t hart (value _, regs') l =
    Post-step (Keeps hart) (Gpr.write rd t hart.gpr)
      (λ gpr. some (value tt, record hart { gpr = gpr; csr_regs = regs' })) (λ gpr e. l)

module _ (hart_id : ℕ) (config : Config) (op : CsrOp) (f : FormatCsr) (hart : Hart) where
  update-Keeps :
      (p : Result ℕ × CsrRegs)
      → hart.cur_priv ≢ machine
      → hart.csr_regs.csr_map ≡ (add_mtime (new hart_id config)).csr_map
      → p.1.cells ≡ hart.csr_regs.cells
      → p.1.csr_map ≡ hart.csr_regs.csr_map
      → Post (Keeps hart) (update op f hart p)
  update-Keeps (raise trap, regs) n table e m =
      (subst (IsConfined hart.csr_regs.cells) (sym e) (IsConfined-refl hart.csr_regs.cells), m)
  update-Keeps (value t, regs) n table e m =
      Post-step (Keeps hart) (operand op f.rs1 hart.gpr)
        (λ x.
          (if t == csr_wb_data op t x
            then some (value tt, regs)
            else File.write f.csr (csr_wb_data op t x) hart.cur_priv regs)
          >>= finish f.rd t hart)
        (λ x ex.
          Post-bind (Leaves hart.csr_regs) (Keeps hart) _ (finish f.rd t hart)
            (Post-if (Leaves hart.csr_regs) (t == csr_wb_data op t x) (some (value tt, regs))
              (File.write f.csr (csr_wb_data op t x) hart.cur_priv regs)
              (λ same. (
                subst (IsConfined hart.csr_regs.cells) (sym e)
                    (IsConfined-refl hart.csr_regs.cells),
                m,
              ))
              (λ other.
                Post-mono (Leaves regs) (Leaves hart.csr_regs)
                  (File.write f.csr (csr_wb_data op t x) hart.cur_priv regs)
                  (λ q (a, b). (subst (λ s. IsConfined s q.1.cells) e a, b ∙ m))
                  (write-Leaves hart_id f.csr (csr_wb_data op t x) config hart.cur_priv regs n
                    (m ∙ table))))
            (λ q l. finish-Keeps f.rd t hart q l))

-- Below machine mode, on the table of a hart as it is built, with the time of the bus in it, a CSR
-- instruction leaves every cell of the machine's as it was, and the table. Of the status word it leaves MIE, MPIE, MPP, MPRV, TVM, TW, TSR, SBE and MBE,
-- and of the interrupt-enable and the interrupt-pending word all bits but those of the supervisor's
-- three interrupts.
pub execute_csr-IsConfined :
    (op : CsrOp) (inst hart_id : ℕ) (config : Config) (hart hart' : Hart) (r : Result Unit)
    → hart.cur_priv ≢ machine
    → hart.csr_regs.csr_map ≡ (add_mtime (new hart_id config)).csr_map
    → execute_csr op inst hart ≡ some (r, hart')
    → IsConfined hart.csr_regs.cells hart'.csr_regs.cells
      × (hart'.csr_regs.csr_map ≡ hart.csr_regs.csr_map)
unfolding execute_csr
execute_csr-IsConfined op inst hart_id config hart hart' r n table h =
    let f = parse_format_csr inst in
    Post-some (Keeps hart) (execute_csr op inst hart) (r, hart')
      (Post-bind (λ p. (p.1.cells ≡ hart.csr_regs.cells) × (p.1.csr_map ≡ hart.csr_regs.csr_map))
        (Keeps hart) (File.read f.csr hart.cur_priv hart.csr_regs) (update op f hart)
        (read-cells f.csr hart.cur_priv hart.csr_regs)
        (λ p (a, b). update-Keeps hart_id config op f hart p n table a b))
      h
