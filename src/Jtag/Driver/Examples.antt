-- ===== src/Jtag/Driver/Examples.antt =====
-- A scan through the pins of src/dbg/jtag_driver.rs that asks the hart to halt.
use riscv64_emu_rust.Base.{Bool, false, some, ◌>>=◌, ℕ, ◌+◌, ◌*◌, ◌^◌, ◌%◌, ◌≡◌, refl, arith}
use riscv64_emu_rust.Base.Bits.{set_bit, set_field}
use riscv64_emu_rust.Dbg
use riscv64_emu_rust.Dbg.{Slave}
use riscv64_emu_rust.Jtag.{run_test_idle}
use riscv64_emu_rust.Jtag.Shifter
use riscv64_emu_rust.Jtag.Shifter.{bits_of, read_data}
use riscv64_emu_rust.Jtag.Driver.{JtagDriver, new, operate, register_of}
use riscv64_emu_rust.Jtag.Driver.Clocks.{dr_scan}
use riscv64_emu_rust.Jtag.Driver.Laws.{forty, operated, dr_scan-operate}

-- A hart that is the level of its halt request.
abbrev level : Slave Bool
level = record {
  read_gpr = λ n h. some 0;
  write_gpr = λ n word h. some h;
  read_memory = λ address len h. some (some 0, h);
  write_memory = λ address len word h. some (some 0, h);
  read_csr = λ addr h. some 0;
  write_csr = λ addr word h. some h;
  set_haltreq = λ v h. v;
  resumereq = λ h. h;
  halted = λ h. h;
  resume_ack = λ h. false;
  set_reset_req = λ v h. h;
  havereset = λ h. false;
  clear_havereset = λ h. h;
}

-- The idle driver with the instruction that selects the debug module interface.
abbrev driver : JtagDriver Bool
unfolding new Dbg.new Shifter.new set_bit set_field
driver = record (new Dbg.new false) {
  ir = record { data_reg = 0x11; len = 5; default = 0 };
  state = run_test_idle;
}

-- A write of haltreq and dmactive to dmcontrol.
abbrev ask : ℕ
ask = 0x10 * 2 ^ 34 + 0x80000001 * 4 + 2

dr_scan-operate_example :
    (o : Bool) × (dr_scan level ask driver ≡ (
      operate level ask driver.dm driver.hart0 >>= λ answer. some (
        bits_of 40 (driver.dmi_word % 2 ^ 40),
        operated level (record driver { dr = forty ask driver.dr; tdo = o }) answer,
      )))
unfolding driver read_data register_of
dr_scan-operate_example = dr_scan-operate level driver ask refl refl (omega arith)
