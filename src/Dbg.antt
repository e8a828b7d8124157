-- ===== src/Dbg.antt =====
-- The debug module of src/dbg/debug_module.rs and its registers, src/dbg/debug_module_register.rs, with the
-- hart behind the trait `DebugModuleSlave` of src/dbg/dm_interface.rs. A bitfield struct is its number.
-- `none` is a panic.
pub mod Registers
pub mod Command
pub mod Dmi
pub mod Laws
mod Examples
use riscv64_emu_rust.Base.{
  Bool, true, List, Option, some, ◌>>=◌, assert, ℕ, ◌+◌, ◌*◌, ◌/◌, ◌%◌, ◌^◌, ltb, bit_or, replicate,
  get_elem?, set, length,
}
use riscv64_emu_rust.Base.Bits.{set_bit, set_field}

-- `DebugModuleSlave` for harts of type `H`.
pub record Slave (H : Type 0) : Type 0 where
  pub read_gpr : ℕ → H → Option ℕ
  pub write_gpr : ℕ → ℕ → H → Option H
  pub read_memory : ℕ → ℕ → H → Option (Option ℕ × H)
  pub write_memory : ℕ → ℕ → ℕ → H → Option (Option ℕ × H)
  pub read_csr : ℕ → H → Option ℕ
  pub write_csr : ℕ → ℕ → H → Option H
  pub set_haltreq : Bool → H → H
  pub resumereq : H → H
  pub halted : H → Bool
  pub resume_ack : H → Bool
  pub set_reset_req : Bool → H → H
  pub havereset : H → Bool
  pub clear_havereset : H → H

pub record DebugModule : Type 0 where
  pub progbuf : List ℕ
  pub abstract_data : List ℕ
  pub dmcontrol : ℕ
  pub dmstatus : ℕ
  pub hartinfo : ℕ
  pub abstractcs : ℕ
  pub command : ℕ

abbrev pub progbuf_count : ℕ
progbuf_count = 16

abbrev pub abstract_data_count : ℕ
abstract_data_count = 6

unfoldable pub new : DebugModule
unfolding set_bit set_field
new = record {
  progbuf = replicate progbuf_count 0;
  abstract_data = replicate abstract_data_count 0;
  dmcontrol = 0;
  dmstatus = set_bit 7 true (set_field 0 4 2 0);
  hartinfo = 0;
  abstractcs = set_field 0 4 abstract_data_count (set_field 24 5 0 0);
  command = 0;
}

unfoldable pub arg_read32 : ℕ → DebugModule → Option ℕ
arg_read32 arg_idx dm = assert (ltb arg_idx 3) (get_elem? dm.abstract_data arg_idx)

unfoldable pub arg_read64 : ℕ → DebugModule → Option ℕ
arg_read64 arg_idx dm = assert (ltb arg_idx 3) (
    get_elem? dm.abstract_data (arg_idx * 2) >>= λ low.
    get_elem? dm.abstract_data (arg_idx * 2 + 1) >>= λ high. some (bit_or low (high * 2 ^ 32)))

-- A word set in a boxed slice, or a panic.
abbrev pub set_data : ℕ → ℕ → DebugModule → Option DebugModule
set_data i word dm =
    assert (ltb i (length dm.abstract_data))
      (some (record dm { abstract_data = set dm.abstract_data i word }))

unfoldable pub arg_write64 : ℕ → ℕ → DebugModule → Option DebugModule
arg_write64 arg_idx word dm = assert (ltb arg_idx 3) (
    set_data (arg_idx * 2) (word % 2 ^ 32) dm
    >>= set_data (arg_idx * 2 + 1) (word / 2 ^ 32 % 2 ^ 32))
