-- ===== src/Cpu/Laws.antt =====
-- Traps and the returns from them, in src/rv64core/cpu_core.rs and
-- src/rv64core/inst/inst_rv64z.rs.
mod Status
pub mod Interrupts
use riscv64_emu_rust.Base.{
  Bool, true, false, not, ◌&&◌, ◌||◌, Option, none, some, ◌>>=◌, if◌then◌else◌, ℕ, ◌+◌, ◌*◌, ◌/◌,
  ◌%◌, ◌^◌, ◌≤◌, ◌<◌, ◌==◌, leb, ltb, bit_and, ◌≡◌, refl, sym, ap, ◌∙◌, ◌⊎◌, inl, inr, arith,
  Bool-cases, Option-cases, assert, suc, zero,
}
use riscv64_emu_rust.Base.Bits.{get_bit, set_bit, get_field, set_field, get_bit-set_bit}
use riscv64_emu_rust.Base.Fields.{get_bit-set_field, get_field-set_field}
use riscv64_emu_rust.Trap.{
  TrapType, idx, get_tval, is_interrupt, get_exception_num, PrivilegeLevels, user, supervisor,
  machine, priv_num, priv_from_usize,
}
use riscv64_emu_rust.Csr.Xstatus.{
  sie, mie, spie, mpie, spp, mprv, tsr, mpp, set_mpp, get_mpp_priv, get_spp_priv,
}
use riscv64_emu_rust.Csr.Xtvec.{mode, get_trap_pc}
use riscv64_emu_rust.Cpu.{CpuCore}
use Status.{
  mpp-exception_status_m, mpp-interrupt_status_m, mie-mret_status, mpie-exception_status_m,
  mpie-interrupt_status_m, spp-status_s, spie-status_s, tsr-status_s, sie-sret_status,
}
use riscv64_emu_rust.Cpu.Traps.{
  status_s, exception_status_m, interrupt_status_m, exception_to_s, exception_s, exception_m,
  handle_exceptions, interrupt_m, interrupt_s, handle_interrupt,
}
use riscv64_emu_rust.Cpu.Return.{Result, ok, err, mret_status, mret, sret_status, sret}

-- What the state `d` after a return must share with the state `c` before the trap.
abbrev pub Resumed : ℕ → ℕ → CpuCore → CpuCore → Type 0
Resumed at flag c d =
    (d.npc ≡ at) × (d.cur_priv ≡ c.cur_priv) × (get_bit flag d.xstatus ≡ get_bit flag c.xstatus)

-- What a trap into machine mode keeps of the state before it.
abbrev pub SavedM : ℕ → CpuCore → CpuCore → Type 0
SavedM at c c' =
    (c'.mepc ≡ at)
    × (get_mpp_priv c'.xstatus ≡ some c.cur_priv)
    × (get_bit mpie c'.xstatus ≡ get_bit mie c.xstatus)

abbrev pub SavedS : ℕ → CpuCore → CpuCore → Type 0
SavedS at c c' =
    (c'.sepc ≡ at)
    × (get_spp_priv c'.xstatus ≡ c.cur_priv)
    × (get_bit spie c'.xstatus ≡ get_bit sie c.xstatus)
    × (get_bit tsr c'.xstatus ≡ get_bit tsr c.xstatus)

pub mret-SavedM :
    (u : Bool) (pc : ℕ) (c c' : CpuCore)
    → SavedM pc c c'
    → (d : CpuCore) × (mret u c' ≡ some d) × Resumed pc mie c d
unfolding mret
mret-SavedM u pc c c' (e, p, f) = (
  record c' { npc = c'.mepc; cur_priv = c.cur_priv; xstatus = mret_status u c.cur_priv c'.xstatus },
  rw p refl,
  (e, refl, mie-mret_status u c.cur_priv c'.xstatus ∙ f),
)

pub sret-SavedS :
    (inst pc : ℕ) (c c' : CpuCore)
    → SavedS pc c c'
    → get_bit tsr c.xstatus ≡ false
    → (d : CpuCore) × (sret inst c' ≡ ok d) × Resumed pc sie c d
unfolding sret
sret-SavedS inst pc c c' (e, p, f, g) clear = (
  record c' {
    npc = c'.sepc;
    cur_priv = get_spp_priv c'.xstatus;
    xstatus = sret_status (get_spp_priv c'.xstatus) c'.xstatus;
  },
  rw (g, clear) refl,
  (e, p, sie-sret_status (get_spp_priv c'.xstatus) c'.xstatus ∙ f),
)

-- An exception enters its handler at the base of the vector.
trap_pc-exception :
    (t : TrapType) (x : ℕ)
    → is_interrupt t ≡ false
    → mode x ≤ 1
    → get_trap_pc t x ≡ some (x / 4 * 4)
unfolding get_trap_pc
trap_pc-exception t x e h = rw e (ground arith)

exception_to_s-is_exception :
    (t : TrapType) (c : CpuCore) {b : Bool} → exception_to_s t c ≡ some b → is_interrupt t ≡ false
unfolding exception_to_s get_exception_num
exception_to_s-is_exception t c {b} h = elim (Bool-cases (is_interrupt t)) [
  | inl e ↦ absurd (ground arith)
  | inr e ↦ e
]

exception_to_s-low :
    (t : TrapType) (c : CpuCore)
    → exception_to_s t c ≡ some true
    → leb (priv_num c.cur_priv) 1 ≡ true
unfolding exception_to_s priv_num
exception_to_s-low t c h = elim (Option-cases (get_exception_num t)) [
  | inl e ↦ absurd (ground arith)
  | inr (n, e) ↦ ground arith
]

-- MRET after an exception that goes to machine mode resumes the program: at the instruction that
-- raised it, at the same privilege, with the same machine interrupt flag. The vector's mode is not a
-- reserved one; then neither the exception nor the return panics.
pub mret-exception :
    (u_mode : Bool) (t : TrapType) (c : CpuCore)
    → exception_to_s t c ≡ some false
    → mode c.mtvec ≤ 1
    → (c' : CpuCore) × (d : CpuCore) × (handle_exceptions t c ≡ some c')
      × (c'.cur_priv ≡ machine)
      × (mret u_mode c' ≡ some d)
      × Resumed c.pc mie c d
unfolding handle_exceptions exception_m
mret-exception u_mode t c to_m h =
    let c' : CpuCore = record c {
      npc = c.mtvec / 4 * 4;
      cur_priv = machine;
      xstatus = exception_status_m c.cur_priv c.xstatus;
      mepc = c.pc;
      mcause = idx t;
      mtval = get_tval t;
    } in
    let r : (d : CpuCore) × (mret u_mode c' ≡ some d) × Resumed c.pc mie c d =
      mret-SavedM u_mode c.pc c c' (
        refl,
        mpp-exception_status_m c.cur_priv c.xstatus,
        mpie-exception_status_m c.cur_priv c.xstatus,
      ) in
    (
      c',
      r.0,
      rw (to_m, trap_pc-exception t c.mtvec (exception_to_s-is_exception t c to_m) h) refl,
      refl,
      r.1,
      r.2,
    )

-- SRET after an exception that goes to supervisor mode resumes the program: at the instruction that
-- raised it, at the same privilege, with the same supervisor interrupt flag. The vector's mode is not
-- a reserved one, and `tsr` of the status word is clear.
pub sret-exception :
    (inst : ℕ) (t : TrapType) (c : CpuCore)
    → exception_to_s t c ≡ some true
    → mode c.stvec ≤ 1
    → get_bit tsr c.xstatus ≡ false
    → (c' : CpuCore) × (d : CpuCore) × (handle_exceptions t c ≡ some c')
      × (c'.cur_priv ≡ supervisor)
      × (sret inst c' ≡ ok d)
      × Resumed c.pc sie c d
unfolding handle_exceptions exception_s
sret-exception inst t c to_s h clear =
    let c' : CpuCore = record c {
      npc = c.stvec / 4 * 4;
      cur_priv = supervisor;
      xstatus = status_s c.cur_priv c.xstatus;
      sepc = c.pc;
      scause = idx t;
      stval = get_tval t;
    } in
    let r : (d : CpuCore) × (sret inst c' ≡ ok d) × Resumed c.pc sie c d =
      sret-SavedS inst c.pc c c'
        (
          refl,
          spp-status_s c.cur_priv c.xstatus (exception_to_s-low t c to_s),
          spie-status_s c.cur_priv c.xstatus,
          tsr-status_s c.cur_priv c.xstatus,
        )
        clear in
    (
      c',
      r.0,
      rw (to_s, trap_pc-exception t c.stvec (exception_to_s-is_exception t c to_s) h) refl,
      refl,
      r.1,
      r.2,
    )
