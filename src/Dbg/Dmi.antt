-- ===== src/Dbg/Dmi.antt =====
-- `dmi_read` and `dmi_write` of src/dbg/debug_module.rs. `none` is a panic, which a read never is.
use riscv64_emu_rust.Base.{
  Bool, true, false, not, ◌&&◌, Option, some, ◌>>=◌, if◌then◌else◌, ℕ, ◌+◌, ◌-◌, ◌%◌, ◌^◌, ◌==◌,
  leb, ltb, bit_and, get_elem?, set, length,
}
use riscv64_emu_rust.Base.Bits.{get_bit, set_bit, get_field, set_field, bit_not}
use riscv64_emu_rust.Gpr.{unwrap_or}
use riscv64_emu_rust.Dbg.{Slave, DebugModule, progbuf_count, abstract_data_count}
use riscv64_emu_rust.Dbg.Command.{perform_abstract_command}
use riscv64_emu_rust.Dbg.Registers.{
  halted_bits, running_bits, unavail_bits, nonexistent_bits, resumeack_bits, havereset_bits,
  ackhavereset, hartreset, ndmreset, resumereq, haltreq, cmderr, set_cmderr, busy, cmderr_none,
  cmderr_busy,
}

-- The "any" and the "all" bit of a state of the one hart.
abbrev pub set_both : ℕ → Bool → ℕ → ℕ
set_both k v word = set_bit (k + 1) v (set_bit k v word)

abbrev pub in_data : ℕ → Bool
in_data addr = leb 4 addr && ltb addr (4 + abstract_data_count)

abbrev pub in_progbuf : ℕ → Bool
in_progbuf addr = leb 0x20 addr && ltb addr (0x20 + progbuf_count)

-- The addresses whose writes are taken and do nothing.
abbrev pub is_ignored : ℕ → Bool
is_ignored addr =
    if addr == 0x11
    then true
    else if addr == 0x13
    then true
    else if addr == 0x14
    then true
    else if addr == 0x15
    then true
    else addr == 0x18

-- An error is cleared by ones written over it.
unfoldable pub write_abstractcs : ℕ → DebugModule → DebugModule
unfolding get_bit get_field set_field
write_abstractcs value dm = record dm {
  abstractcs =
      if get_bit busy value
      then set_cmderr cmderr_busy dm.abstractcs
      else set_cmderr (bit_and (cmderr dm.abstractcs) (bit_not 8 (cmderr value))) dm.abstractcs;
}

module _ {H : Type 0} (slave : Slave H) where
  unfoldable pub read_dmcontrol : DebugModule → H → ℕ
  unfolding set_bit set_field
  read_dmcontrol dm hart0 =
      set_field 16 10 0 (
        set_field 6 10 0
          (set_bit 26 false (set_bit hartreset (slave.havereset hart0) dm.dmcontrol)))

  unfoldable pub status_now : H → ℕ → ℕ
  unfolding set_bit
  status_now hart0 dmstatus = set_both running_bits (not (slave.halted hart0)) (
      set_both halted_bits (slave.halted hart0) (
        set_both resumeack_bits (slave.resume_ack hart0) (
          set_both havereset_bits (slave.havereset hart0)
            (set_both nonexistent_bits false (set_both unavail_bits false dmstatus)))))

  -- A read of the status keeps it. Of the addresses left, some are known and others not, and all read 0.
  unfoldable pub dmi_read : ℕ → DebugModule → H → ℕ × DebugModule
  unfolding read_dmcontrol status_now
  dmi_read addr dm hart0 =
      if in_data addr
      then (unwrap_or 0 (get_elem? dm.abstract_data (addr - 4)), dm)
      else if in_progbuf addr
      then (unwrap_or 0 (get_elem? dm.progbuf (addr - 0x20)), dm)
      else if addr == 0x10
      then (read_dmcontrol dm hart0, dm)
      else if addr == 0x11
      then (status_now hart0 dm.dmstatus, record dm { dmstatus = status_now hart0 dm.dmstatus })
      else if addr == 0x12
      then (dm.hartinfo, dm)
      else if addr == 0x16
      then (dm.abstractcs, dm)
      else (0, dm)

  -- The request to resume counts only where none to halt stands beside it.
  unfoldable pub control_hart : ℕ → H → H
  unfolding get_bit
  control_hart control hart0 =
      let h = if get_bit ackhavereset control then slave.clear_havereset hart0 else hart0 in
      let h' = slave.set_haltreq (get_bit haltreq control) h in
      let h'' =
        if get_bit haltreq control
        then h'
        else if get_bit resumereq control
        then slave.resumereq h'
        else h' in
      slave.set_reset_req (get_bit ndmreset control)
        (slave.set_reset_req (get_bit hartreset control) h'')

  unfoldable pub write_command : ℕ → DebugModule → H → Option (DebugModule × H)
  unfolding perform_abstract_command get_field set_bit
  write_command value dm hart0 =
      let dm' = record dm { command = value } in
      let started = record dm' { abstractcs = set_bit busy true dm.abstractcs } in
      if not (cmderr dm.abstractcs == cmderr_none)
      then some (dm', hart0)
      else (perform_abstract_command slave started hart0 >>= λ (done, hart0').
          some (record done { abstractcs = set_bit busy false done.abstractcs }, hart0'))

  -- The Boolean says whether the write is answered. The reset of the module is not implemented.
  unfoldable pub dmi_write : ℕ → ℕ → DebugModule → H → Option (Bool × DebugModule × H)
  unfolding control_hart write_abstractcs write_command
  dmi_write addr word dm hart0 =
      let value : ℕ = word % 2 ^ 32 in
      if in_data addr
      then some (
        ltb (addr - 4) (length dm.abstract_data),
        record dm { abstract_data = set dm.abstract_data (addr - 4) value },
        hart0,
      )
      else if in_progbuf addr
      then some (
        ltb (addr - 0x20) (length dm.progbuf),
        record dm { progbuf = set dm.progbuf (addr - 0x20) value },
        hart0,
      )
      else if addr == 0x10
      then some (true, record dm { dmcontrol = value }, control_hart value hart0)
      else if addr == 0x12
      then some (true, record dm { hartinfo = value }, hart0)
      else if addr == 0x16
      then some (true, write_abstractcs value dm, hart0)
      else if addr == 0x17
      then (write_command value dm hart0 >>= λ (dm', hart0'). some (true, dm', hart0'))
      else some (is_ignored addr, dm, hart0)
