-- ===== src/Dbg/Examples.antt =====
-- A command of a debugger to the module of src/dbg/debug_module.rs, with a hart that answers zeros.
use riscv64_emu_rust.Base.{true, false, some, ℕ, ◌≡◌, ◌≢◌, refl}
use riscv64_emu_rust.Base.Bits.{get_bit, set_bit, set_field}
use riscv64_emu_rust.Dbg.{Slave, DebugModule, new}
use riscv64_emu_rust.Dbg.Command.{failed}
use riscv64_emu_rust.Dbg.Dmi.{dmi_write}
use riscv64_emu_rust.Dbg.Laws.{IsIdle, dmi_write-IsIdle}
use riscv64_emu_rust.Dbg.Registers.{busy, cmderr}

-- A hart that runs, so that it takes no command.
abbrev zeros : Slave Unit
zeros = record {
  read_gpr = λ n h. some 0;
  write_gpr = λ n word h. some h;
  read_memory = λ address len h. some (some 0, h);
  write_memory = λ address len word h. some (some 0, h);
  read_csr = λ addr h. some 0;
  write_csr = λ addr word h. some h;
  set_haltreq = λ v h. h;
  resumereq = λ h. h;
  halted = λ h. false;
  resume_ack = λ h. false;
  set_reset_req = λ v h. h;
  havereset = λ h. false;
  clear_havereset = λ h. h;
}

-- The module after a command to read the register `a0`.
abbrev refused : DebugModule
unfolding new set_bit failed set_field
refused =
    let asked = record new { command = 0x3a100a; abstractcs = set_bit busy true new.abstractcs } in
    let told = failed 4 asked in record told { abstractcs = set_bit busy false told.abstractcs }

refuses : dmi_write zeros 0x17 0x3a100a new tt ≡ some (true, refused, tt)
unfolding dmi_write new
refuses = refl

new-IsIdle : IsIdle new
unfolding new get_bit
new-IsIdle = record { sizes = record { data_size = refl; progbuf_size = refl }; idle = refl }

dmi_write-IsIdle_example :
    IsIdle refused
    × (cmderr new.abstractcs ≢ 0
        → ◌≢◌ {A = ℕ} 0x17 0x16
        → cmderr refused.abstractcs ≡ cmderr new.abstractcs)
dmi_write-IsIdle_example =
    dmi_write-IsIdle zeros 0x17 0x3a100a new refused tt tt true new-IsIdle refuses
