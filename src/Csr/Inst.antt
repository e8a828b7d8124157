-- ===== src/Csr/Inst.antt =====
-- The CSR instructions of src/rv64core/inst/inst_rv64z.rs, on the parts of the hart that they reach.
-- `none` is a panic.
use riscv64_emu_rust.Base.{Option, some, ◌>>=◌, if◌then◌else◌, ℕ, ◌/◌, ◌^◌, ◌==◌, bit_and, bit_or}
use riscv64_emu_rust.Base.Bits.{bit_not}
use riscv64_emu_rust.Access.{Result, value, raise}
use riscv64_emu_rust.Gpr
use riscv64_emu_rust.Gpr.{Gpr}
use riscv64_emu_rust.Trap.{PrivilegeLevels}
use riscv64_emu_rust.Csr.File
use riscv64_emu_rust.Csr.File.{CsrRegs}

pub record FormatCsr : Type 0 where
  pub csr : ℕ
  pub rs1 : ℕ
  pub rd : ℕ

unfoldable pub parse_format_csr : ℕ → FormatCsr
parse_format_csr word = record {
  csr = bit_and (word / 2 ^ 20) 0xfff;
  rs1 = bit_and (word / 2 ^ 15) 0x1f;
  rd = bit_and (word / 2 ^ 7) 0x1f;
}

pub record Hart : Type 0 where
  pub gpr : Gpr
  pub csr_regs : CsrRegs
  pub cur_priv : PrivilegeLevels

pub data CsrOp : Type 0 where
  csrrw csrrs csrrc csrrwi csrrsi csrrci : CsrOp

-- The register, or the field itself.
unfoldable pub operand : CsrOp → ℕ → Gpr → Option ℕ
unfolding Gpr.read
operand csrrw rs1 gpr = Gpr.read rs1 gpr
operand csrrs rs1 gpr = Gpr.read rs1 gpr
operand csrrc rs1 gpr = Gpr.read rs1 gpr
operand csrrwi rs1 gpr = some rs1
operand csrrsi rs1 gpr = some rs1
operand csrrci rs1 gpr = some rs1

abbrev pub csr_wb_data : CsrOp → ℕ → ℕ → ℕ
csr_wb_data csrrw t x = x
csr_wb_data csrrs t x = bit_or t x
csr_wb_data csrrc t x = bit_and t (bit_not 64 x)
csr_wb_data csrrwi t x = x
csr_wb_data csrrsi t x = bit_or t x
csr_wb_data csrrci t x = bit_and t (bit_not 64 x)

-- The old value goes to `rd` unless the write raised an exception.
abbrev pub finish : ℕ → ℕ → Hart → Result Unit × CsrRegs → Option (Result Unit × Hart)
finish rd t hart (raise trap, regs) = some (raise trap, record hart { csr_regs = regs })
finish rd t hart (value _, regs) =
    Gpr.write rd t hart.gpr >>= λ gpr. some (value tt, record hart { gpr = gpr; csr_regs = regs })

-- A value that stays is not written.
abbrev pub update : CsrOp → FormatCsr → Hart → Result ℕ × CsrRegs → Option (Result Unit × Hart)
update op f hart (raise trap, regs) = some (raise trap, record hart { csr_regs = regs })
update op f hart (value t, regs) = operand op f.rs1 hart.gpr >>= λ x.
    let wb : ℕ = csr_wb_data op t x in
    let written = File.write f.csr wb hart.cur_priv regs in
    (if t == wb then some (value tt, regs) else written) >>= finish f.rd t hart

unfoldable pub execute_csr : CsrOp → ℕ → Hart → Option (Result Unit × Hart)
unfolding parse_format_csr operand File.read File.write Gpr.write
execute_csr op inst hart =
    File.read (parse_format_csr inst).csr hart.cur_priv hart.csr_regs
    >>= update op (parse_format_csr inst) hart
