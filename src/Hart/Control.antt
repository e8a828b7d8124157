-- ===== src/Hart/Control.antt =====
-- What a write of dmcontrol makes of the hart of src/rv64core/cpu_core.rs, and the privilege that its
-- debug mode saves.
use riscv64_emu_rust.Base.{
  Bool-cases, inl, inr, true, false, some, if◌then◌else◌, ℕ, ◌%◌, ◌^◌, ◌≡◌, refl, ap, ◌∙◌,
}
use riscv64_emu_rust.Base.Bits.{get_bit, set_bit, get_field, get_bit-set_bit}
use riscv64_emu_rust.Base.Fields.{get_field-set_field}
use riscv64_emu_rust.Access.{Caches}
use riscv64_emu_rust.Trap.{PrivilegeLevels, user, supervisor, machine, priv_num, priv_from_usize}
use riscv64_emu_rust.Csr.Define.{set_prv}
use riscv64_emu_rust.Dbg.{DebugModule}
use riscv64_emu_rust.Dbg.Dmi.{dmi_write, control_hart}
use riscv64_emu_rust.Dbg.Registers.{haltreq, resumereq, ndmreset, ackhavereset}
use riscv64_emu_rust.Hart.{DebugState, CpuCore}
use riscv64_emu_rust.Hart.Slave.{slave}

priv_from_usize-priv_num : (p : PrivilegeLevels) → priv_from_usize (priv_num p) ≡ some p
unfolding priv_from_usize priv_num
priv_from_usize-priv_num user = refl
priv_from_usize-priv_num supervisor = refl
priv_from_usize-priv_num machine = refl

priv_num-field : (p : PrivilegeLevels) → priv_num p % 2 ^ 2 ≡ priv_num p
unfolding priv_num
priv_num-field user = refl
priv_num-field supervisor = refl
priv_num-field machine = refl

-- Bit 5 lies above the privilege in dcsr.
field-set_bit : (x : ℕ) → get_field 0 2 (set_bit 5 false x) ≡ get_field 0 2 x
unfolding get_field
field-set_bit x = rw (get_bit-set_bit 0 5 false x, get_bit-set_bit 1 5 false x) refl

-- The privilege that entering the debug mode saves.
pub saved_priv :
    (p : PrivilegeLevels) (x : ℕ)
    → priv_from_usize (get_field 0 2 (set_bit 5 false (set_prv (priv_num p) x))) ≡ some p
saved_priv p x =
    ap priv_from_usize (
      field-set_bit (set_prv (priv_num p) x)
      ∙ get_field-set_field 0 2 (priv_num p) x
      ∙ priv_num-field p)
    ∙ priv_from_usize-priv_num p

-- What a write of dmcontrol makes of the debug state: of two reset requests the later stands.
abbrev pub controlled : ℕ → DebugState → DebugState
controlled control d = record d {
  haltreq_signal = get_bit haltreq control;
  resetreq_signal = get_bit ndmreset control;
  havereset = if get_bit ackhavereset control then false else d.havereset;
  resumereq_flag =
      if get_bit haltreq control
      then d.resumereq_flag
      else if get_bit resumereq control
      then true
      else d.resumereq_flag;
  resumeack =
      if get_bit haltreq control
      then d.resumeack
      else if get_bit resumereq control
      then false
      else d.resumeack;
}

control_hart-slave :
    {M S : Type 0} (caches : Caches M) (control : ℕ) (cpu : CpuCore M S)
    → control_hart (slave caches) control cpu
      ≡ record cpu { debug_state = controlled control cpu.debug_state }
unfolding control_hart
control_hart-slave caches control cpu = elim (Bool-cases (get_bit ackhavereset control)) [
  | inl a ↦ elim (Bool-cases (get_bit haltreq control)) [
    | inl h ↦ rw (a, h) refl
    | inr h ↦ elim (Bool-cases (get_bit resumereq control)) [
      | inl r ↦ rw (a, h, r) refl
      | inr r ↦ rw (a, h, r) refl
    ]
  ]
  | inr a ↦ elim (Bool-cases (get_bit haltreq control)) [
    | inl h ↦ rw (a, h) refl
    | inr h ↦ elim (Bool-cases (get_bit resumereq control)) [
      | inl r ↦ rw (a, h, r) refl
      | inr r ↦ rw (a, h, r) refl
    ]
  ]
]

module _ {M S : Type 0} (caches : Caches M) (dm : DebugModule) (cpu : CpuCore M S) where
  abbrev pub after_control : ℕ → CpuCore M S
  after_control word = record cpu { debug_state = controlled (word % 2 ^ 32) cpu.debug_state }

  pub dmi_write-control :
      (word : ℕ)
      → dmi_write (slave caches) 0x10 word dm cpu
        ≡ some (true, record dm { dmcontrol = word % 2 ^ 32 }, after_control word)
  unfolding dmi_write
  dmi_write-control word = rw (control_hart-slave caches (word % 2 ^ 32) cpu) refl
