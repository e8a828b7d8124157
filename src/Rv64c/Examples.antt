-- ===== src/Rv64c/Examples.antt =====
-- Runs of src/rv64core/inst/inst_rv64c.rs on registers that are all zero.
use riscv64_emu_rust.Base.{some, ◌>>=◌, ◌==◌, if◌then◌else◌, ℕ, ◌-◌, ◌^◌, ◌≡◌, refl, ◌∷◌, replicate}
use riscv64_emu_rust.Gpr.{new}
use riscv64_emu_rust.Rv64i.Laws.{AreWords, zeros-AreWords}
use riscv64_emu_rust.Rv64c.{c_addi, c_addi4spn, execute_compressed}
use riscv64_emu_rust.Rv64c.Formats.{imm_c_j, jump_target}
use riscv64_emu_rust.Access.{value, raise}
use riscv64_emu_rust.Trap.{illegal_instruction}
use riscv64_emu_rust.Rv64i.Alu.{op_addi}
use riscv64_emu_rust.Rv64c.Expand.{immediate, run, expand, four_times, second}
use riscv64_emu_rust.Rv64c.Laws.{execute_compressed-run}

-- `c.addi x1, -1`.
abbrev inst : ℕ
inst = 0x10fd

counts_down :
    execute_compressed c_addi inst new ≡ some (record { regs = 0 ∷ (2 ^ 64 - 1) ∷ replicate 30 0 })
unfolding execute_compressed new
counts_down = refl

back_by_2 : imm_c_j (jump_target 0x1fff) ≡ 2 ^ 64 - 2
unfolding imm_c_j jump_target
back_by_2 = refl

new-AreWords : AreWords new
unfolding new
new-AreWords = zeros-AreWords 32

-- As `c.addi4spn` the word would be one of no encoding; its immediate is 52 and its register x15.
execute_compressed-run_example :
    (execute_compressed c_addi inst new ≡ run (expand c_addi inst) new)
    × (c_addi4spn inst new ≡ (
        if four_times inst == 0
        then some (raise (illegal_instruction inst))
        else (run (immediate op_addi (second inst) 2 (four_times inst)) new >>= λ gpr.
            some (value gpr))))
execute_compressed-run_example = execute_compressed-run c_addi inst new new-AreWords
