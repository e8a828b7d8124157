-- ===== src/Cpu/Return.antt =====
-- The instructions ECALL, MRET and SRET of src/rv64core/inst/inst_rv64z.rs.
use riscv64_emu_rust.Base.{Bool, true, false, Option, some, ◌>>=◌, if◌then◌else◌, ℕ, ◌==◌, not}
use riscv64_emu_rust.Base.Bits.{get_bit, set_bit}
use riscv64_emu_rust.Trap.{
  TrapType, illegal_instruction, environment_call_from_u_mode, environment_call_from_s_mode,
  environment_call_from_m_mode, PrivilegeLevels, user, supervisor, machine, priv_num,
}
use riscv64_emu_rust.Csr.Xstatus.{
  sie, mie, spie, mpie, spp, mprv, tsr, set_mpp, get_mpp_priv, get_spp_priv,
}
use riscv64_emu_rust.Cpu.{CpuCore}

-- An instruction that does not retire raises a trap.
pub data Result : Type 0 where
  ok : CpuCore → Result
  err : TrapType → Result

unfoldable pub ecall : CpuCore → Result
ecall cpu = elim (cpu.cur_priv) [
  | user ↦ err environment_call_from_u_mode
  | supervisor ↦ err environment_call_from_s_mode
  | machine ↦ err environment_call_from_m_mode
]

-- The status word that MRET leaves, `y` the privilege that it returns to.
unfoldable pub mret_status : Bool → PrivilegeLevels → ℕ → ℕ
unfolding priv_num
mret_status u_mode y mstatus =
    let m : ℕ = set_bit mpie true (set_bit mie (get_bit mpie mstatus) mstatus) in
    let m' : ℕ = set_mpp (if u_mode then priv_num user else priv_num machine) m in
    if not (priv_num y == priv_num machine) then set_bit mprv false m' else m'

-- `u_mode` is the configuration's. `none` is the panic of `get_mpp_priv`.
unfoldable pub mret : Bool → CpuCore → Option CpuCore
unfolding mret_status
mret u_mode cpu = do
  y ← get_mpp_priv cpu.xstatus
  some (record cpu { npc = cpu.mepc; cur_priv = y; xstatus = mret_status u_mode y cpu.xstatus })

unfoldable pub sret_status : PrivilegeLevels → ℕ → ℕ
unfolding priv_num
sret_status y mstatus =
    let m : ℕ = set_bit spie true (set_bit sie (get_bit spie mstatus) mstatus) in
    let m' : ℕ = set_bit spp false m in
    if not (priv_num y == priv_num machine) then set_bit mprv false m' else m'

unfoldable pub sret : ℕ → CpuCore → Result
unfolding sret_status get_spp_priv
sret inst cpu =
    if get_bit tsr cpu.xstatus
    then err (illegal_instruction inst)
    else ok (record cpu {
      npc = cpu.sepc;
      cur_priv = get_spp_priv cpu.xstatus;
      xstatus = sret_status (get_spp_priv cpu.xstatus) cpu.xstatus;
    })
