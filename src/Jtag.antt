-- ===== src/Jtag.antt =====
-- src/dbg/jtag_state.rs: the states of the TAP controller of the JTAG debug port, and the state
-- that each level of TMS leads to at a rising edge of TCK.
pub mod Walk
pub mod Shifter
pub mod Driver
mod Examples
use riscv64_emu_rust.Base.{Bool, true, false, List, [], ◌∷◌, if◌then◌else◌}

pub data JtagState : Type 0 where
  test_logic_reset run_test_idle : JtagState
  select_dr_scan capture_dr shift_dr exit1_dr pause_dr exit2_dr update_dr : JtagState
  select_ir_scan capture_ir shift_ir exit1_ir pause_ir exit2_ir update_ir : JtagState

unfoldable pub next_state : JtagState → Bool → JtagState
next_state test_logic_reset tms = if tms then test_logic_reset else run_test_idle
next_state run_test_idle tms = if tms then select_dr_scan else run_test_idle
next_state select_dr_scan tms = if tms then select_ir_scan else capture_dr
next_state capture_dr tms = if tms then exit1_dr else shift_dr
next_state shift_dr tms = if tms then exit1_dr else shift_dr
next_state exit1_dr tms = if tms then update_dr else pause_dr
next_state pause_dr tms = if tms then exit2_dr else pause_dr
next_state exit2_dr tms = if tms then update_dr else shift_dr
next_state update_dr tms = if tms then select_dr_scan else run_test_idle
next_state select_ir_scan tms = if tms then test_logic_reset else capture_ir
next_state capture_ir tms = if tms then exit1_ir else shift_ir
next_state shift_ir tms = if tms then exit1_ir else shift_ir
next_state exit1_ir tms = if tms then update_ir else pause_ir
next_state pause_ir tms = if tms then exit2_ir else pause_ir
next_state exit2_ir tms = if tms then update_ir else shift_ir
next_state update_ir tms = if tms then select_dr_scan else run_test_idle

unfoldable pub is_update_ir : JtagState → Bool
is_update_ir update_ir = true
is_update_ir _ = false

unfoldable pub is_update_dr : JtagState → Bool
is_update_dr update_dr = true
is_update_dr _ = false

unfoldable pub is_capture_ir : JtagState → Bool
is_capture_ir capture_ir = true
is_capture_ir _ = false

unfoldable pub is_capture_dr : JtagState → Bool
is_capture_dr capture_dr = true
is_capture_dr _ = false
