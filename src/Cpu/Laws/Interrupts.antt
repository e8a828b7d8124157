-- ===== src/Cpu/Laws/Interrupts.antt =====
-- Interrupts, in src/rv64core/cpu_core.rs and `get_priority_interupt` of
-- src/rv64core/csr_regs_define.rs.
use mathlib.Core.Path.{subst}
use riscv64_emu_rust.Base.{
  Bool, true, false, ◌&&◌, some, if◌then◌else◌, ℕ, ◌+◌, ◌*◌, ◌/◌, ◌^◌, ◌≤◌, ◌<◌, ◌==◌, ltb, bit_and,
  ◌≡◌, refl, ap, inl, inr, arith, Bool-cases,
}
use riscv64_emu_rust.Base.Bits.{get_bit}
use riscv64_emu_rust.Trap.{
  machine_external_interrupt, machine_software_interrupt, machine_timer_interrupt,
  supervisor_external_interrupt, supervisor_software_interrupt, supervisor_timer_interrupt,
  TrapType, get_irq_num, idx, is_interrupt, machine, priv_num,
}
use riscv64_emu_rust.Csr.Xstatus.{mie}
use riscv64_emu_rust.Base.Bits.{get_bit-bit_and, get_bit-zero, bit_not}
use riscv64_emu_rust.Base.{◌-◌, lt→ltb}
use riscv64_emu_rust.Csr.Xip.{ssip, msip, stip, mtip, seip, meip, get_priority_interrupt}
use riscv64_emu_rust.Csr.Xtvec.{mode, get_trap_pc}
use riscv64_emu_rust.Cpu.{CpuCore}
use riscv64_emu_rust.Cpu.Laws.{Resumed, mret-SavedM}
use riscv64_emu_rust.Cpu.Laws.Status.{mpp-interrupt_status_m, mpie-interrupt_status_m}
use riscv64_emu_rust.Cpu.Traps.{
  interrupt_status_m, interrupt_m, handle_interrupt, int_to_m_enable, int_to_s_enable,
  int_to_m_pending,
}
use riscv64_emu_rust.Cpu.Return.{mret}

-- The order of the privileged architecture: MEI, MSI, MTI, SEI, SSI, STI, by interrupt number.
unfoldable pub rank : ℕ → ℕ
rank k =
    if k == 11
    then 0
    else if k == 3
    then 1
    else if k == 7
    then 2
    else if k == 9
    then 3
    else if k == 1
    then 4
    else if k == 5
    then 5
    else 6

-- `t` is the interrupt number `k`, which waits in `x`, and none that comes before it does.
abbrev pub IsHighest : ℕ → TrapType → ℕ → Type 0
IsHighest x t k =
    (get_irq_num t ≡ some k)
    × (k < 12)
    × (get_bit k x ≡ true)
    × ((j : ℕ) → rank j < rank k → get_bit j x ≡ false)

injective : (s t : TrapType) → some s ≡ some t → s ≡ t
injective s t h = cc

highest : (x : ℕ) (t : TrapType) → get_priority_interrupt x ≡ some t → (k : ℕ) × IsHighest x t k
unfolding get_priority_interrupt rank get_irq_num
highest x t h = elim (Bool-cases (get_bit meip x)) [
  | inl e0 ↦
      subst (λ s. (k : ℕ) × IsHighest x s k) (injective machine_external_interrupt t (ground arith))
        (11, (refl, omega arith, e0, λ j q. ground arith))
  | inr e0 ↦ elim (Bool-cases (get_bit msip x)) [
    | inl e1 ↦
        subst (λ s. (k : ℕ) × IsHighest x s k)
          (injective machine_software_interrupt t (ground arith))
          (3, (refl, omega arith, e1, λ j q. ground arith))
    | inr e1 ↦ elim (Bool-cases (get_bit mtip x)) [
      | inl e2 ↦
          subst (λ s. (k : ℕ) × IsHighest x s k)
            (injective machine_timer_interrupt t (ground arith))
            (7, (refl, omega arith, e2, λ j q. ground arith))
      | inr e2 ↦ elim (Bool-cases (get_bit seip x)) [
        | inl e3 ↦
            subst (λ s. (k : ℕ) × IsHighest x s k)
              (injective supervisor_external_interrupt t (ground arith))
              (9, (refl, omega arith, e3, λ j q. ground arith))
        | inr e3 ↦ elim (Bool-cases (get_bit ssip x)) [
          | inl e4 ↦
              subst (λ s. (k : ℕ) × IsHighest x s k)
                (injective supervisor_software_interrupt t (ground arith))
                (1, (refl, omega arith, e4, λ j q. ground arith))
          | inr e4 ↦ elim (Bool-cases (get_bit stip x)) [
            | inl e5 ↦
                subst (λ s. (k : ℕ) × IsHighest x s k)
                  (injective supervisor_timer_interrupt t (ground arith))
                  (5, (refl, omega arith, e5, λ j q. ground arith))
            | inr e5 ↦ absurd (ground arith)
          ]
        ]
      ]
    ]
  ]
]

-- The interrupt that is taken waits, and any other that waits comes no earlier in the order of the
-- privileged architecture.
pub get_priority_interrupt-highest :
    (x : ℕ) (t : TrapType) (j : ℕ)
    → get_priority_interrupt x ≡ some t
    → get_bit j x ≡ true
    → (k : ℕ) × (get_irq_num t ≡ some k) × (get_bit k x ≡ true) × (rank k ≤ rank j)
get_priority_interrupt-highest x t j h waits =
    let (k, (irq, small, up, first)) = highest x t h in
    (
      k,
      irq,
      up,
      elim (Bool-cases (ltb (rank j) (rank k))) [
        | inl lower ↦ absurd (ground (arith, first j))
        | inr not_lower ↦ ground arith
      ],
    )

nonzero : (k x : ℕ) → get_bit k x ≡ true → (x == 0) ≡ false
nonzero k x h = elim (Bool-cases (x == 0)) [
  | inl e ↦
      let z : x ≡ 0 = ground arith in absurd (ground (arith, get_bit-zero k, ap (get_bit k) z))
  | inr e ↦ e
]

left_nonzero : (k x y : ℕ) → get_bit k (bit_and x y) ≡ true → (x == 0) ≡ false
left_nonzero k x y h = nonzero k x (ground (arith, get_bit-bit_and k x y))

-- The entry of the vector for an interrupt, in both modes.
trap_pc-interrupt :
    (t : TrapType) (k x : ℕ)
    → get_irq_num t ≡ some k
    → k < 12
    → mode x ≤ 1
    → x < 2 ^ 64 - 64
    → (v : ℕ) × (get_trap_pc t x ≡ some v)
unfolding get_trap_pc
trap_pc-interrupt t k x e small m bound = elim (Bool-cases (mode x == 1 && is_interrupt t)) [
  | inl b ↦ (x / 4 * 4 + 4 * k, rw (b, e, lt→ltb (x / 4 * 4 + 4 * k) (2 ^ 64) (omega arith)) refl)
  | inr b ↦ (x / 4 * 4, rw b (ground arith))
]

-- In machine mode with its interrupts disabled nothing is taken, whatever waits.
pub handle_interrupt-masked :
    (c : CpuCore)
    → c.cur_priv ≡ machine
    → get_bit mie c.xstatus ≡ false
    → handle_interrupt c ≡ some c
unfolding handle_interrupt priv_num
handle_interrupt-masked c e f =
    let not_m : int_to_m_enable c ≡ false = rw (e, f) refl in
    let not_s : int_to_s_enable c ≡ false = rw e (ground arith) in
    elim (Bool-cases (bit_and c.xie c.xip == 0)) [
      | inl q ↦ rw q refl
      | inr q ↦ rw (q, not_m, not_s) refl
    ]

-- MRET after an interrupt that goes to machine mode resumes the program where it was to go on.
pub mret-interrupt :
    (u_mode : Bool) (cause : TrapType) (c : CpuCore)
    → int_to_m_enable c ≡ true
    → get_priority_interrupt (int_to_m_pending c) ≡ some cause
    → mode c.mtvec ≤ 1
    → c.mtvec < 2 ^ 64 - 64
    → (c' : CpuCore) × (d : CpuCore) × (handle_interrupt c ≡ some c')
      × (c'.cur_priv ≡ machine)
      × (c'.mcause ≡ idx cause)
      × (mret u_mode c' ≡ some d)
      × Resumed c.npc mie c d
unfolding handle_interrupt interrupt_m
mret-interrupt u_mode cause c enabled waits m bound =
    let (k, (irq, small, up, first)) = highest (int_to_m_pending c) cause waits in
    let (v, at) = trap_pc-interrupt cause k c.mtvec irq small m bound in
    let c' : CpuCore = record c {
      npc = v;
      cur_priv = machine;
      xstatus = interrupt_status_m c.cur_priv c.xstatus;
      mepc = c.npc;
      mcause = idx cause;
    } in
    let r : (d : CpuCore) × (mret u_mode c' ≡ some d) × Resumed c.npc mie c d =
      mret-SavedM u_mode c.npc c c' (
        refl,
        mpp-interrupt_status_m c.cur_priv c.xstatus,
        mpie-interrupt_status_m c.cur_priv c.xstatus,
      ) in
    (
      c',
      r.0,
      rw
          (
            left_nonzero k (bit_and c.xie c.xip) (bit_not 64 c.mideleg) up,
            enabled,
            nonzero k (int_to_m_pending c) up,
            waits,
            at,
          )
          refl,
      refl,
      refl,
      r.1,
      r.2,
    )
