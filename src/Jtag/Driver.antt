-- ===== src/Jtag/Driver.antt =====
-- `JtagDriver` of src/dbg/jtag_driver.rs: the registers of the debug transport behind the pins of the JTAG
-- port, with the debug module and its hart. A bitfield struct is its number. `none` is a panic.
pub mod Clocks
pub mod Laws
mod Examples
use riscv64_emu_rust.Base.{
  Bool, true, false, not, ◌&&◌, Option, none, some, ◌>>=◌, if◌then◌else◌, to_nat, ℕ, ◌%◌, ◌^◌, ◌==◌,
  bit_and,
}
use riscv64_emu_rust.Base.Bits.{get_bit, get_field, set_field}
use riscv64_emu_rust.Dbg.{Slave, DebugModule}
use riscv64_emu_rust.Dbg.Dmi.{dmi_read, dmi_write}
use riscv64_emu_rust.Jtag.{
  JtagState, test_logic_reset, shift_dr, capture_dr, update_dr, shift_ir, capture_ir, next_state,
}
use riscv64_emu_rust.Jtag.Shifter
use riscv64_emu_rust.Jtag.Shifter.{ShifterRegister, clear, set_reg, shift_right, read_data}

pub data JtagDtmRegister : Type 0 where
  bypass0 idcode dtmcs dmi bypass1f : JtagDtmRegister

unfoldable pub register_of : ℕ → Option JtagDtmRegister
register_of val =
    if val == 0x00
    then some JtagDtmRegister.bypass0
    else if val == 0x01
    then some JtagDtmRegister.idcode
    else if val == 0x10
    then some JtagDtmRegister.dtmcs
    else if val == 0x11
    then some JtagDtmRegister.dmi
    else if val == 0x1f
    then some JtagDtmRegister.bypass1f
    else none

pub record JtagDriver (H : Type 0) : Type 0 where
  pub dm : DebugModule
  pub hart0 : H
  pub tck : Bool
  pub tms : Bool
  pub tdi : Bool
  pub tdo : Bool
  pub ir : ShifterRegister
  pub dr : ShifterRegister
  pub dtmcs_word : ℕ
  pub dmi_word : ℕ
  pub idcode_word : ℕ
  pub bypass : Bool
  pub state : JtagState

-- The fields of `DTMI`: the operation, the data and the address.
abbrev pub op : ℕ → ℕ
op = get_field 0 2

abbrev pub set_op : ℕ → ℕ → ℕ
set_op = set_field 0 2

abbrev pub data_of : ℕ → ℕ
data_of = get_field 2 32

abbrev pub put_data : ℕ → ℕ → ℕ
put_data = set_field 2 32

abbrev pub address : ℕ → ℕ
address = get_field 34 30

abbrev pub op_success : ℕ
op_success = 0

abbrev pub op_failed : ℕ
op_failed = 2

-- The bits of `DTMCS` whose resets are not implemented.
abbrev pub dmireset : ℕ
dmireset = 16

abbrev pub dtmhardreset : ℕ
dtmhardreset = 17

module _ {H : Type 0} where
  unfoldable pub new : DebugModule → H → JtagDriver H
  unfolding set_field Shifter.new
  new dm hart0 = record {
    dm = dm;
    hart0 = hart0;
    tck = false;
    tms = false;
    tdi = false;
    tdo = false;
    ir = Shifter.new 0 6;
    dr = Shifter.new 0 64;
    dtmcs_word = set_field 10 2 0 (set_field 4 6 6 (set_field 0 4 1 (set_field 18 3 0 0)));
    dmi_word = set_op op_success 0;
    idcode_word = 0xdeadbeef;
    bypass = false;
    state = test_logic_reset;
  }

  unfoldable pub reset : JtagDriver H → JtagDriver H
  unfolding clear
  reset d = record d { ir = clear d.ir; dr = clear d.dr; dmi_word = 0; state = test_logic_reset }

  -- The register that a scan shifts out.
  abbrev pub loaded : ℕ → ℕ → JtagDriver H → Option (JtagDriver H)
  unfolding set_reg
  loaded word len d = set_reg word len d.dr >>= λ dr. some (record d { dr = dr })

  abbrev pub capture : JtagDtmRegister → JtagDriver H → Option (JtagDriver H)
  unfolding set_reg
  capture JtagDtmRegister.idcode d = loaded d.idcode_word 32 d
  capture JtagDtmRegister.dtmcs d = loaded d.dtmcs_word 32 d
  capture JtagDtmRegister.dmi d = loaded d.dmi_word 40 d
  capture JtagDtmRegister.bypass0 d = loaded (to_nat d.bypass) 1 d
  capture JtagDtmRegister.bypass1f d = none

  -- The register that the instruction register names.
  abbrev pub selected : JtagDriver H → Option JtagDtmRegister
  unfolding read_data register_of
  selected d = read_data d.ir >>= λ word. register_of (word % 2 ^ 8)

  unfoldable pub on_capture : JtagDriver H → Option (JtagDriver H)
  unfolding read_data register_of set_reg
  on_capture d = selected d >>= λ register. capture register d

module _ {H : Type 0} (slave : Slave H) where
  -- The operation that a word of the debug module interface asks for, with the word that answers it. The
  -- reserved one is not implemented.
  unfoldable pub operate : ℕ → DebugModule → H → Option (ℕ × DebugModule × H)
  unfolding dmi_read dmi_write get_field set_field
  operate word dm hart0 =
      if op word == 0
      then some (word, dm, hart0)
      else if op word == 1
      then (let (rdata, dm') = dmi_read slave (address word) dm hart0 in
          some (set_op op_success (put_data (rdata % 2 ^ 32) word), dm', hart0))
      else if op word == 2
      then (dmi_write slave (address word) (data_of word) dm hart0 >>= λ (answered, dm', hart0').
          some (set_op (if answered then op_success else op_failed) word, dm', hart0'))
      else none

  abbrev pub update : JtagDtmRegister → JtagDriver H → Option (JtagDriver H)
  unfolding read_data operate get_bit
  update JtagDtmRegister.idcode d = some d
  update JtagDtmRegister.dtmcs d = read_data d.dr >>= λ word.
      if get_bit dmireset (word % 2 ^ 32)
      then none
      else if get_bit dtmhardreset (word % 2 ^ 32)
      then none
      else some d
  update JtagDtmRegister.bypass0 d =
      read_data d.dr >>= λ word. some (record d { bypass = not (word == 0) })
  update JtagDtmRegister.dmi d = read_data d.dr >>= λ word.
      operate word d.dm d.hart0 >>= λ (word', dm, hart0).
      some (record d { dmi_word = word'; dm = dm; hart0 = hart0 })
  update JtagDtmRegister.bypass1f d = none

  unfoldable pub on_update : JtagDriver H → Option (JtagDriver H)
  unfolding read_data register_of operate get_bit
  on_update d = selected d >>= λ register. update register d

  -- A call without a rising edge.
  abbrev pub fall : JtagState → JtagDriver H → Option (JtagDriver H)
  unfolding on_capture on_update set_reg read_data
  fall test_logic_reset d = set_reg 0x01 32 d.ir >>= λ ir. some (record d { ir = ir })
  fall capture_dr d = on_capture d
  fall update_dr d = on_update d
  fall capture_ir d = set_reg 0x01 5 d.ir >>= λ ir. some (record d { ir = ir })
  fall shift_dr d = read_data d.dr >>= λ word. some (record d { tdo = not (bit_and word 1 == 0) })
  fall shift_ir d = read_data d.ir >>= λ word. some (record d { tdo = not (bit_and word 1 == 0) })
  fall _ d = some d

  -- The shift at a rising edge.
  abbrev pub shift : JtagState → JtagDriver H → Option (JtagDriver H)
  unfolding shift_right
  shift shift_dr d = shift_right d.tdi d.dr >>= λ dr. some (record d { dr = dr })
  shift shift_ir d = shift_right d.tdi d.ir >>= λ ir. some (record d { ir = ir })
  shift _ d = some d

  abbrev pub rise : JtagDriver H → Option (JtagDriver H)
  unfolding shift_right next_state
  rise d = shift d.state d >>= λ d'. some (record d' { state = next_state d'.state d'.tms })

  unfoldable pub set_pins : Bool → Bool → Bool → JtagDriver H → Option (JtagDriver H)
  unfolding on_capture on_update set_reg read_data shift_right next_state
  set_pins new_tck new_tms new_tdi d =
      (if new_tck && not d.tck then rise d else fall d.state d) >>= λ d'.
      some (record d' { tck = new_tck; tms = new_tms; tdi = new_tdi })
