-- ===== src/Csr/Xstatus.antt =====
-- `XstatusIn` of src/rv64core/csr_regs_define.rs: the word that mstatus and sstatus are views of.
use riscv64_emu_rust.Base.{◌||◌, Option, ℕ, ◌==◌, bit_and, bit_or, if◌then◌else◌}
use riscv64_emu_rust.Base.Bits.{get_bit, set_bit, get_field, set_field, bit_not}
use riscv64_emu_rust.Trap.{PrivilegeLevels, user, supervisor, priv_from_usize}

abbrev pub sie : ℕ
sie = 1

abbrev pub mie : ℕ
mie = 3

abbrev pub spie : ℕ
spie = 5

abbrev pub ube : ℕ
ube = 6

abbrev pub mpie : ℕ
mpie = 7

abbrev pub spp : ℕ
spp = 8

abbrev pub mprv : ℕ
mprv = 17

abbrev pub sum : ℕ
sum = 18

abbrev pub mxr : ℕ
mxr = 19

abbrev pub tvm : ℕ
tvm = 20

abbrev pub tw : ℕ
tw = 21

abbrev pub tsr : ℕ
tsr = 22

abbrev pub sbe : ℕ
sbe = 36

abbrev pub mbe : ℕ
mbe = 37

abbrev pub sd : ℕ
sd = 63

abbrev pub vs : ℕ → ℕ
vs = get_field 9 2

abbrev pub mpp : ℕ → ℕ
mpp = get_field 11 2

abbrev pub set_mpp : ℕ → ℕ → ℕ
set_mpp = set_field 11 2

abbrev pub set_vs : ℕ → ℕ → ℕ
set_vs = set_field 9 2

abbrev pub set_fs : ℕ → ℕ → ℕ
set_fs = set_field 13 2

abbrev pub set_xs : ℕ → ℕ → ℕ
set_xs = set_field 15 2

abbrev pub set_uxl : ℕ → ℕ → ℕ
set_uxl = set_field 32 2

abbrev pub set_sxl : ℕ → ℕ → ℕ
set_sxl = set_field 34 2

abbrev pub fs : ℕ → ℕ
fs = get_field 13 2

abbrev pub xs : ℕ → ℕ
xs = get_field 15 2

unfoldable pub get_spp_priv : ℕ → PrivilegeLevels
get_spp_priv x = if get_bit spp x then supervisor else user

-- `none` is the panic at the reserved value 2.
unfoldable pub get_mpp_priv : ℕ → Option PrivilegeLevels
unfolding priv_from_usize
get_mpp_priv x = priv_from_usize (mpp x)

unfoldable pub update_sd : ℕ → ℕ
update_sd x = set_bit sd (fs x == 3 || xs x == 3 || vs x == 3) x

unfoldable pub write_with_mask : ℕ → ℕ → ℕ → ℕ
write_with_mask old value mask = bit_or (bit_and old (bit_not 64 mask)) (bit_and value mask)

-- A register that is a view of the shared word, through a mask to read and one to write.
pub record XstatusView : Type 0 where
  pub rmask : ℕ
  pub wmask : ℕ

unfoldable pub write : XstatusView → ℕ → ℕ → ℕ
unfolding write_with_mask update_sd
write r value inner = update_sd (write_with_mask inner value r.wmask)

unfoldable pub read : XstatusView → ℕ → ℕ
unfolding update_sd
read r inner = bit_and (update_sd inner) r.rmask
