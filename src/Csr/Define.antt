-- ===== src/Csr/Define.antt =====
-- The registers of src/rv64core/csr_regs_define.rs behind the trait `Csr`: what each reads and writes of
-- its cell, and who may. `none` is a panic.
use riscv64_emu_rust.Base.{
  Bool, true, false, not, ◌&&◌, Option, none, some, ◌>>=◌, assert, if◌then◌else◌, ℕ, ◌/◌, ◌%◌, ◌^◌,
  ◌==◌, leb, ltb, bit_and,
}
use riscv64_emu_rust.Base.Bits.{get_bit, set_bit, get_field, set_field}
use riscv64_emu_rust.Access.{AccessType, load, store, fetch, amo}
use riscv64_emu_rust.Trap.{
  PrivilegeLevels, supervisor, machine, priv_num, check_priv, priv_from_usize,
}
use riscv64_emu_rust.Mmu.Words.{
  StapMode, bare, sv39, sv48, sv57, sv64, satp_ppn, satp_asid, satp_mode, from_bits,
}
use riscv64_emu_rust.Csr.Xstatus.{XstatusView, write_with_mask, tvm}
use riscv64_emu_rust.Csr.Xstatus
use riscv64_emu_rust.Csr.Cells.{Cell, Store, put}

-- The registers with a mask hold it, and Satp the cell of the status word and the greatest mode.
pub data CsrEnum : Type 0 where
  read_only_csr misa : ℕ → CsrEnum
  common_csr xtvec xcause medeleg counter dcsr : Cell → CsrEnum
  xstatus : Cell → XstatusView → CsrEnum
  xie xip : Cell → ℕ → CsrEnum
  satp : Cell → Cell → StapMode → CsrEnum

-- Of a store AccessType::Store alone asks for a register that is not read-only.
unfoldable pub check_privilege : ℕ → PrivilegeLevels → AccessType → Bool
unfolding priv_num
check_privilege addr privi access_type =
    let has_privilege = leb (addr / 2 ^ 8 % 4) (priv_num privi) in
    let not_read_only = not (addr / 2 ^ 10 % 4 == 3) in
    elim access_type [
      | store _ ↦ not_read_only && has_privilege
      | load _ ↦ has_privilege
      | fetch _ ↦ has_privilege
      | amo _ ↦ has_privilege
    ]

abbrev pub mode_num : StapMode → ℕ
mode_num bare = 0
mode_num sv39 = 8
mode_num sv48 = 9
mode_num sv57 = 10
mode_num sv64 = 11

-- Satp answers by its own rule, and leaves the address and the kind of access aside.
unfoldable pub check_permission : CsrEnum → ℕ → PrivilegeLevels → AccessType → Store → Option Bool
unfolding check_privilege check_priv get_bit
check_permission (satp _ status _) addr privi access_type s =
    some (check_priv (if get_bit tvm (s status) then machine else supervisor) privi)
check_permission _ addr privi access_type s =
    assert (ltb addr 4096) (some (check_privilege addr privi access_type))

unfoldable pub csr_read : CsrEnum → Store → ℕ
unfolding Xstatus.read
csr_read (read_only_csr v) s = v
csr_read (misa v) s = v
csr_read (common_csr c) s = s c
csr_read (xtvec c) s = s c
csr_read (xcause c) s = s c
csr_read (medeleg c) s = s c
csr_read (counter c) s = s c
csr_read (dcsr c) s = s c
csr_read (xstatus c view) s = Xstatus.read view (s c)
csr_read (xie c mask) s = bit_and (s c) mask
csr_read (xip c mask) s = bit_and (s c) mask
csr_read (satp c _ _) s = s c

-- The mode is kept where the new one is greater than the greatest.
unfoldable pub satp_write : StapMode → ℕ → ℕ → Option ℕ
unfolding from_bits
satp_write max_satp_mode value old = satp_mode value >>= λ new_mode.
    let kept : ℕ =
      if ltb (mode_num max_satp_mode) (mode_num new_mode)
      then old
      else set_field 60 4 (mode_num new_mode) old in
    some (set_field 0 44 (satp_ppn value) (set_field 44 16 (satp_asid value) kept))

-- The bits of `DcsrIn`.
abbrev pub dcsr_step : ℕ
dcsr_step = 2

abbrev pub ebreaku : ℕ
ebreaku = 12

abbrev pub ebreaks : ℕ
ebreaks = 13

abbrev pub ebreakm : ℕ
ebreakm = 15

abbrev pub set_prv : ℕ → ℕ → ℕ
set_prv = set_field 0 2

-- A reserved privilege level is not taken.
abbrev pub new_prv : Option PrivilegeLevels → ℕ → ℕ
unfolding priv_num
new_prv none old = old
new_prv (some prv) old = set_prv (priv_num prv) old

unfoldable pub dcsr_write : ℕ → ℕ → ℕ
unfolding get_bit set_bit priv_from_usize
dcsr_write value old =
    let d : ℕ = set_bit 16 false (set_bit 17 false old) in
    let d' : ℕ = set_bit ebreakm (get_bit ebreakm value) d in
    let d'' : ℕ =
      set_bit ebreaku (get_bit ebreaku value) (set_bit ebreaks (get_bit ebreaks value) d') in
    let e : ℕ = set_bit dcsr_step (get_bit dcsr_step value) d'' in
    let e' : ℕ = new_prv (priv_from_usize (get_field 0 2 value)) e in
    let e'' : ℕ = set_bit 9 false (set_bit 10 false (set_bit 11 false e')) in
    set_bit 4 true (set_bit 5 false e'')

-- A counter, the misa and a read-only register ignore what is written.
unfoldable pub csr_write : CsrEnum → ℕ → Store → Option Store
unfolding Xstatus.write write_with_mask satp_write dcsr_write
csr_write (read_only_csr _) value s = some s
csr_write (misa _) value s = some s
csr_write (counter _) value s = some s
csr_write (common_csr c) value s = some (put c value s)
csr_write (xtvec c) value s = some (put c value s)
csr_write (xcause c) value s = some (put c value s)
csr_write (medeleg c) value s = some (put c value s)
csr_write (dcsr c) value s = some (put c (dcsr_write (value % 2 ^ 32) (s c)) s)
csr_write (xstatus c view) value s = some (put c (Xstatus.write view value (s c)) s)
csr_write (xie c mask) value s = some (put c (write_with_mask (s c) value mask) s)
csr_write (xip c mask) value s = some (put c (write_with_mask (s c) value mask) s)
csr_write (satp c _ max_mode) value s =
    satp_write max_mode value (s c) >>= λ new_val. some (put c new_val s)
