-- ===== src/Hart/Laws/Access.antt =====
-- The registers of a halted hart through the abstract commands of src/dbg/debug_module.rs.
use riscv64_emu_rust.Base.{
  Bool, true, false, suc, List, [], ◌∷◌, some, ◌>>=◌, ℕ, ◌+◌, ◌-◌, ◌*◌, ◌/◌, ◌%◌, ◌^◌, ◌≤◌, ◌<◌,
  ◌==◌, leb, lt→ltb, ◌≡◌, ◌≢◌, refl, sym, ap, ◌∙◌, arith, length, get_elem?, bit_or, bind_assoc,
}
use native.Mathlib.Nat.{mod-eq_of_lt}
use riscv64_emu_rust.Base.Bits.{get_bit, set_bit, bit_or_disjoint}
use riscv64_emu_rust.Access.{Caches}
use riscv64_emu_rust.Gpr
use riscv64_emu_rust.Gpr.{Gpr}
use riscv64_emu_rust.Gpr.Laws.{read-write}
use riscv64_emu_rust.Dbg.{Slave, DebugModule, abstract_data_count, arg_read64, arg_write64}
use riscv64_emu_rust.Dbg.Command.{wdata, transfer_reg, access_reg, perform_abstract_command}
use riscv64_emu_rust.Dbg.Dmi.{write_command, dmi_write, dmi_read}
use riscv64_emu_rust.Dbg.Registers.{busy, cmderr, cmd_write, cmd_size, cmdtype, regno, transfer}
use riscv64_emu_rust.Hart.{CpuCore, haltd}
use riscv64_emu_rust.Hart.Slave.{slave}

-- A command that transfers the integer register `n`.
pub record IsGprCommand (n : ℕ) (write : Bool) (command : ℕ) : Type 0 where
  pub small : command < 2 ^ 32
  pub access : cmdtype command ≡ 0
  pub transfers : get_bit transfer command ≡ true
  pub number : regno command ≡ 0x1000 + n
  pub writes : get_bit cmd_write command ≡ write

-- The two words of the first argument.
abbrev pub Argument : ℕ → ℕ → DebugModule → Type 0
Argument low high dm =
    (get_elem? dm.abstract_data 0 ≡ some low) × (get_elem? dm.abstract_data 1 ≡ some high)

joined : (low high : ℕ) → low < 2 ^ 32 → bit_or low (high * 2 ^ 32) ≡ low + high * 2 ^ 32
joined low high h = bit_or_disjoint 32 low high h

arg_read64-Argument :
    (dm : DebugModule) (low high : ℕ)
    → Argument low high dm
    → low < 2 ^ 32
    → arg_read64 0 dm ≡ some (low + high * 2 ^ 32)
unfolding arg_read64
arg_read64-Argument dm low high (a, b) h = rw (a, b) (ap some (joined low high h))

module _ {H : Type 0} (slave : Slave H) (n : ℕ) (small : n < 32) (write : Bool) where
  perform-gpr :
      (dm : DebugModule) (hart0 : H)
      → IsGprCommand n write dm.command
      → slave.halted hart0 ≡ true
      → perform_abstract_command slave dm hart0
        ≡ transfer_reg slave (slave.read_gpr n) (slave.write_gpr n) dm hart0
  unfolding perform_abstract_command access_reg
  perform-gpr dm hart0 c halted =
      let above : leb (0x1000 + n) 0x0fff ≡ false = ground arith in
      let within : leb (0x1000 + n) 0x101f ≡ true = ground arith in
      let index : 0x1000 + n - 0x1000 ≡ n = omega arith in
      rw (halted, c.access, c.transfers, c.number, above, within, index) refl

  -- The module while a command is under way, and after it.
  abbrev started : ℕ → DebugModule → DebugModule
  started command dm = record dm { command = command; abstractcs = set_bit busy true dm.abstractcs }

  abbrev ended : DebugModule → DebugModule
  ended dm = record dm { abstractcs = set_bit busy false dm.abstractcs }

  command-gpr :
      (dm : DebugModule) (hart0 : H) (command : ℕ)
      → IsGprCommand n write command
      → slave.halted hart0 ≡ true
      → cmderr dm.abstractcs ≡ 0
      → dmi_write slave 0x17 command dm hart0 ≡ (
          transfer_reg slave (slave.read_gpr n) (slave.write_gpr n) (started command dm) hart0
          >>= λ (done, hart0'). some (true, ended done, hart0'))
  unfolding dmi_write write_command
  command-gpr dm hart0 command c halted ready =
      rw (mod-eq_of_lt c.small, ready, perform-gpr (started command dm) hart0 c halted)
        (bind_assoc
          (transfer_reg slave (slave.read_gpr n) (slave.write_gpr n) (started command dm) hart0)
          (λ (done, h). some (ended done, h)) (λ (dm', h). some (true, dm', h)))

arg_write64-Argument :
    (dm : DebugModule) (word a b : ℕ) (rest : List ℕ)
    → dm.abstract_data ≡ a ∷ b ∷ rest
    → arg_write64 0 word dm
      ≡ some (record dm { abstract_data = word % 2 ^ 32 ∷ (word / 2 ^ 32 % 2 ^ 32) ∷ rest })
unfolding arg_write64
arg_write64-Argument dm word a b rest e =
    let p : 0 < suc (suc (length rest)) = omega arith in
    let q : 1 < suc (suc (length rest)) = omega arith in
    rw (e, lt→ltb 0 (suc (suc (length rest))) p, lt→ltb 1 (suc (suc (length rest))) q) refl

nz-== : (n : ℕ) → n ≢ 0 → (n == 0) ≡ false
nz-== n h = ground arith

two_of : (xs : List ℕ) → 2 ≤ length xs → (a : ℕ) × (b : ℕ) × (rest : List ℕ) × (xs ≡ a ∷ b ∷ rest)
two_of [] h = absurd (omega arith)
two_of (a ∷ []) h = absurd (omega arith)
two_of (a ∷ b ∷ rest) h = (a, b, rest, refl)

module _ {M S : Type 0} (caches : Caches M) (n : ℕ) (small : n < 32) where
  -- The debugger writes the integer register `n` of a halted hart, whatever the 64 bits that the two words
  -- `low` and `high` make, and reads it. The write is answered, and the register holds the word. The
  -- read, by any module `dm'` with its memories and no error, is answered too, changes nothing of the
  -- hart, and leaves the two words where the debugger finds them. The register is not register 0, and
  -- no error stands.
  pub gpr_through_debugger :
      (dm dm' : DebugModule) (cpu : CpuCore M S) (write read low high : ℕ)
      → n ≢ 0
      → length cpu.gpr.regs ≡ 32
      → cpu.cpu_state ≡ haltd
      → IsGprCommand n true write
      → cmd_size write ≡ 3
      → IsGprCommand n false read
      → cmderr dm.abstractcs ≡ 0
      → cmderr dm'.abstractcs ≡ 0
      → length dm'.abstract_data ≡ abstract_data_count
      → Argument low high dm
      → low < 2 ^ 32
      → high < 2 ^ 32
      → (dm1 : DebugModule) × (cpu1 : CpuCore M S) × (dmi_write (slave caches) 0x17 write dm cpu
          ≡ some (true, dm1, cpu1))
        × (Gpr.read n cpu1.gpr ≡ some (low + high * 2 ^ 32))
        × (dm2 : DebugModule) × (dmi_write (slave caches) 0x17 read dm' cpu1
            ≡ some (true, dm2, cpu1))
        × ((dmi_read (slave caches) 4 dm2 cpu1).0 ≡ low)
        × ((dmi_read (slave caches) 5 dm2 cpu1).0 ≡ high)
  unfolding dmi_read wdata
  gpr_through_debugger dm dm' cpu write read low high nz regs halted w size r ready ready' sized arg
        l h =
      let hart = slave {M = M} {S = S} caches in
      let word : ℕ = low + high * 2 ^ 32 in
      let (gpr, wrote, wf, reads, other) =
        read-write n 0 word cpu.gpr small (λ e. nz (sym e)) regs in
      let reads' : Gpr.read n gpr ≡ some word = reads ∙ rw (nz-== n nz) refl in
      let cpu1 = record cpu { gpr = gpr } in
      let (a, b, rest, e) = two_of dm'.abstract_data (omega arith) in
      let low_word : word % 2 ^ 32 ≡ low = omega arith in
      let high_word : word / 2 ^ 32 % 2 ^ 32 ≡ high = omega arith in
      (
        ended hart n small true (started hart n small true write dm),
        cpu1,
        command-gpr hart n small true dm cpu write w (rw halted refl) ready
            ∙ rw
                (
                  w.writes,
                  size,
                  arg_read64-Argument (started hart n small true write dm) low high arg l,
                  wrote,
                )
                refl,
        reads',
        ended hart n small true (record (started hart n small true read dm') {
          abstract_data = word % 2 ^ 32 ∷ (word / 2 ^ 32 % 2 ^ 32) ∷ rest;
        }),
        command-gpr hart n small false dm' cpu1 read r (rw halted refl) ready'
            ∙ rw
                (
                  r.writes,
                  reads',
                  arg_write64-Argument (started hart n small false read dm') word a b rest e,
                )
                refl,
        low_word,
        high_word,
      )
