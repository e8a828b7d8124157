-- ===== src/Dbg/Command.antt =====
-- `perform_abstract_command` of src/dbg/debug_module.rs.
use riscv64_emu_rust.Base.{
  not, Option, none, some, ◌>>=◌, if◌then◌else◌, ℕ, zero, suc, ◌-◌, ◌==◌, leb,
}
use riscv64_emu_rust.Base.Bits.{get_bit, set_field}
use riscv64_emu_rust.Dbg.{Slave, DebugModule, arg_read32, arg_read64, arg_write64}
use riscv64_emu_rust.Dbg.Registers.{
  set_cmderr, cmderr_notsup, cmderr_halt_resume, cmderr_bus, cmdtype, regno, cmd_write, transfer,
  cmd_size, aamvirtual,
}

unfoldable pub failed : ℕ → DebugModule → DebugModule
unfolding set_field
failed err dm = record dm { abstractcs = set_cmderr err dm.abstractcs }

-- The argument of a write: 32 or 64 bits, or `none` where the size is not supported.
unfoldable pub wdata : ℕ → DebugModule → Option (Option ℕ)
unfolding arg_read32 arg_read64
wdata aarsize dm =
    if aarsize == 2
    then (arg_read32 0 dm >>= λ word. some (some word))
    else if aarsize == 3
    then (arg_read64 0 dm >>= λ word. some (some word))
    else some none

-- The bytes of an access of the memory.
abbrev pub mem_length : ℕ → Option ℕ
mem_length zero = some 1
mem_length (suc zero) = some 2
mem_length (suc (suc zero)) = some 4
mem_length (suc (suc (suc zero))) = some 8
mem_length _ = none

module _ {H : Type 0} (slave : Slave H) where
  -- A write of a register, `put` being that of the hart.
  abbrev pub write_reg : (ℕ → H → Option H) → DebugModule → H → Option ℕ → Option (DebugModule × H)
  write_reg put dm hart0 none = some (failed cmderr_notsup dm, hart0)
  write_reg put dm hart0 (some word) = put word hart0 >>= λ hart0'. some (dm, hart0')

  -- The first argument gets what a read returned, of whatever size.
  abbrev pub transfer_reg :
      (H → Option ℕ) → (ℕ → H → Option H) → DebugModule → H → Option (DebugModule × H)
  transfer_reg get put dm hart0 =
      if get_bit cmd_write dm.command
      then (wdata (cmd_size dm.command) dm >>= write_reg put dm hart0)
      else (get hart0 >>= λ word. arg_write64 0 word dm >>= λ dm'. some (dm', hart0))

  unfoldable pub access_reg : DebugModule → H → Option (DebugModule × H)
  unfolding failed wdata arg_write64 get_bit
  access_reg dm hart0 =
      let number : ℕ = regno dm.command in
      if not (get_bit transfer dm.command)
      then some (dm, hart0)
      else if leb number 0x0fff
      then transfer_reg (slave.read_csr number) (slave.write_csr number) dm hart0
      else if leb number 0x101f
      then transfer_reg (slave.read_gpr (number - 0x1000)) (slave.write_gpr (number - 0x1000)) dm
          hart0
      else some (failed cmderr_notsup dm, hart0)

  abbrev pub written : DebugModule → Option ℕ × H → Option (DebugModule × H)
  written dm (none, hart0) = some (failed cmderr_bus dm, hart0)
  written dm (some _, hart0) = some (dm, hart0)

  abbrev pub loaded : DebugModule → Option ℕ × H → Option (DebugModule × H)
  loaded dm (none, hart0) = some (failed cmderr_bus dm, hart0)
  loaded dm (some word, hart0) = arg_write64 0 word dm >>= λ dm'. some (dm', hart0)

  abbrev pub access_length : DebugModule → H → Option ℕ → Option (DebugModule × H)
  access_length dm hart0 none = some (failed cmderr_notsup dm, hart0)
  access_length dm hart0 (some length) = arg_read64 1 dm >>= λ address.
      if get_bit cmd_write dm.command
      then (arg_read64 0 dm >>= λ word. slave.write_memory address length word hart0 >>= written dm)
      else (slave.read_memory address length hart0 >>= loaded dm)

  unfoldable pub access_mem : DebugModule → H → Option (DebugModule × H)
  unfolding failed arg_read64 arg_write64 get_bit
  access_mem dm hart0 =
      if get_bit aamvirtual dm.command
      then some (failed cmderr_notsup dm, hart0)
      else access_length dm hart0 (mem_length (cmd_size dm.command))

  -- Quick access and other types are not supported.
  unfoldable pub perform_abstract_command : DebugModule → H → Option (DebugModule × H)
  unfolding failed access_reg access_mem
  perform_abstract_command dm hart0 =
      if not (slave.halted hart0)
      then some (failed cmderr_halt_resume dm, hart0)
      else if cmdtype dm.command == 0
      then access_reg dm hart0
      else if cmdtype dm.command == 2
      then access_mem dm hart0
      else some (failed cmderr_notsup dm, hart0)
