-- ===== src/Csr/Laws.antt =====
-- Who may write which registers of src/rv64core/csr_regs.rs, and what a write leaves alone.
pub mod Masks
pub mod Inst
use riscv64_emu_rust.Base.{
  All-of_forall, All-mono, Bool-cases, Option-cases, Post, Post-some, Post-assert, Post-step,
  Post-if, ==_iff, Bool, true, false, ◌&&◌, inl, inr, ◌⊎◌, ◌≢◌, List, [], ◌∷◌, All, Option, none,
  some, ◌>>=◌, assert, if◌then◌else◌, ℕ, ◌/◌, ◌%◌, ◌^◌, ◌<◌, ◌==◌, ltb, ◌≡◌, refl, sym, ap, ◌∙◌,
  arith,
}
use mathlib.Core.Path.{subst}
use riscv64_emu_rust.Base.Bits.{get_bit, set_bit, set_field}
use riscv64_emu_rust.Access.{AccessType, store, Result, value, raise}
use riscv64_emu_rust.Trap.{
  illegal_instruction, PrivilegeLevels, user, supervisor, machine, priv_num, check_priv,
}
use riscv64_emu_rust.Mmu.Words.{StapMode}
use riscv64_emu_rust.Csr.Cells.{Cell, cell_num, Store, put, put_other}
use riscv64_emu_rust.Csr.Xstatus
use riscv64_emu_rust.Csr.Xstatus.{XstatusView, write_with_mask}
use riscv64_emu_rust.Csr.Define.{
  CsrEnum, read_only_csr, misa, common_csr, xtvec, xcause, medeleg, counter, dcsr, xstatus, xie,
  xip, satp, check_privilege, check_permission, satp_write, csr_write,
}
use riscv64_emu_rust.Csr.File.{
  Config, CsrRegs, lookup, misa_val, sstatus_fields, sstatus_view, sip_mask, csr_map_new, new,
  add_mtime, permitted, written, write,
}
use Masks.{status_kept, sip_kept}

-- Whose a cell is; the status word and the interrupt words are shared bit by bit.
pub data Owner : Type 0 where
  machine_owned supervisor_owned shared : Owner

abbrev pub owner : Cell → Owner
owner Cell.xstatus = shared
owner Cell.xip = shared
owner Cell.xie = shared
owner Cell.stvec = supervisor_owned
owner Cell.scause = supervisor_owned
owner Cell.sepc = supervisor_owned
owner Cell.stval = supervisor_owned
owner Cell.satp = supervisor_owned
owner Cell.sscratch = supervisor_owned
owner Cell.scounteren = supervisor_owned
owner _ = machine_owned

-- MIE, MPIE, MPP, MPRV, TVM, TW, TSR, SBE and MBE.
abbrev pub machine_fields : List ℕ
machine_fields = 3 ∷ 7 ∷ 11 ∷ 12 ∷ 17 ∷ 20 ∷ 21 ∷ 22 ∷ 36 ∷ 37 ∷ []

-- The bits of an interrupt word but SSI, STI and SEI.
abbrev pub SameInterrupts : ℕ → ℕ → Type 0
SameInterrupts x y = (k : ℕ) → k < 64 → k ≢ 1 → k ≢ 5 → k ≢ 9 → get_bit k y ≡ get_bit k x

pub record IsConfined (s s' : Store) : Type 0 where
  pub cells : (c : Cell) → owner c ≡ machine_owned → s' c ≡ s c
  pub status : All (λ k. get_bit k (s' Cell.xstatus) ≡ get_bit k (s Cell.xstatus)) machine_fields
  pub enables : SameInterrupts (s Cell.xie) (s' Cell.xie)
  pub pending : SameInterrupts (s Cell.xip) (s' Cell.xip)

-- What a write through an entry of the table does where the privilege is not the machine's.
abbrev Confines : ℕ × CsrEnum → Type 0
Confines (a, csr) =
    (privi : PrivilegeLevels) (word : ℕ) (s s' : Store)
    → privi ≢ machine
    → check_permission csr a privi (store 0) s ≡ some true
    → csr_write csr word s ≡ some s'
    → IsConfined s s'

IsConfined-refl : (s : Store) → IsConfined s s
IsConfined-refl s = record {
  cells = λ c h. refl;
  status =
      All-of_forall {P = λ k. get_bit k (s Cell.xstatus) ≡ get_bit k (s Cell.xstatus)}
        machine_fields (λ k. refl);
  enables = λ k h n1 n5 n9. refl;
  pending = λ k h n1 n5 n9. refl;
}

put-IsConfined :
    (c : Cell) (v : ℕ) (s : Store) → owner c ≡ supervisor_owned → IsConfined s (put c v s)
put-IsConfined c v s h = record {
  cells = λ d hd. put_other c d v s (λ e. cc);
  status =
      All-of_forall {P = λ k. get_bit k (put c v s Cell.xstatus) ≡ get_bit k (s Cell.xstatus)}
        machine_fields (λ k. ap (get_bit k) (put_other c Cell.xstatus v s (λ e. cc)));
  enables = λ k l n1 n5 n9. ap (get_bit k) (put_other c Cell.xie v s (λ e. cc));
  pending = λ k l n1 n5 n9. ap (get_bit k) (put_other c Cell.xip v s (λ e. cc));
}

sstatus-IsConfined :
    (config : Config) (word : ℕ) (s : Store)
    → IsConfined s (put Cell.xstatus (Xstatus.write (sstatus_view config) word (s Cell.xstatus)) s)
unfolding get_bit set_bit set_field
sstatus-IsConfined config word s = record {
  cells = λ d hd. put_other Cell.xstatus d _ s (λ e. cc);
  status =
      All-mono (λ k. (k < 63) × (get_bit k sstatus_fields ≡ false)) _ machine_fields
        (λ k (l, f). status_kept k (s Cell.xstatus) word config l f) (ground arith);
  enables = λ k l n1 n5 n9. refl;
  pending = λ k l n1 n5 n9. refl;
}

denied :
    (a : ℕ) (csr : CsrEnum) (privi : PrivilegeLevels)
    → (a / 2 ^ 8 % 4 ≡ 3) ⊎ (a / 2 ^ 10 % 4 ≡ 3)
    → privi ≢ machine
    → check_privilege a privi (store 0) ≡ false
unfolding check_privilege priv_num
denied a csr user h n = ground arith
denied a csr supervisor h n = ground arith
denied a csr machine h n = absurd (n refl)

abbrev is_satp : CsrEnum → Bool
is_satp (satp _ _ _) = true
is_satp _ = false

-- A register of the machine's level, or one that is read-only, is refused.
refused :
    (a : ℕ) (csr : CsrEnum)
    → is_satp csr ≡ false
    → (a / 2 ^ 8 % 4 ≡ 3) ⊎ (a / 2 ^ 10 % 4 ≡ 3)
    → Confines (a, csr)
unfolding check_permission
refused a csr not_satp h privi word s s' n ok w =
    let d = denied a csr privi h n in absurd (ground arith)

-- A register that is a cell of the supervisor's.
owned :
    (a : ℕ) (csr : CsrEnum) (c : Cell)
    → owner c ≡ supervisor_owned
    → ((word : ℕ) (s : Store) → csr_write csr word s ≡ some (put c word s))
    → Confines (a, csr)
owned a csr c h f privi word s s' n ok w =
    let e : put c word s ≡ s' = ground (arith, f word s) in rw (← e) (put-IsConfined c word s h)

satp-Confines : (a : ℕ) (max_mode : StapMode) → Confines (a, satp Cell.satp Cell.xstatus max_mode)
unfolding csr_write
satp-Confines a max_mode privi word s s' n ok w =
    elim (Option-cases (satp_write max_mode word (s Cell.satp))) [
      | inl e ↦ absurd (ground arith)
      | inr (v, e) ↦
          let f : put Cell.satp v s ≡ s' = ground arith in
          rw (← f) (put-IsConfined Cell.satp v s refl)
    ]

sstatus-Confines :
    (a : ℕ) (config : Config) → Confines (a, xstatus Cell.xstatus (sstatus_view config))
unfolding csr_write
sstatus-Confines a config privi word s s' n ok w =
    let f : put Cell.xstatus (Xstatus.write (sstatus_view config) word (s Cell.xstatus)) s ≡ s' =
      ground arith in
    rw (← f) (sstatus-IsConfined config word s)

sip-Confines : (a : ℕ) → Confines (a, xip Cell.xip sip_mask)
unfolding csr_write
sip-Confines a privi word s s' n ok w =
    let f : put Cell.xip (write_with_mask (s Cell.xip) word sip_mask) s ≡ s' = ground arith in
    rw (← f) (record {
      cells = λ d hd. put_other Cell.xip d _ s (λ e. cc);
      status =
          All-of_forall {P = λ k. get_bit k (s Cell.xstatus) ≡ get_bit k (s Cell.xstatus)}
            machine_fields (λ k. refl);
      enables = λ k l n1 n5 n9. refl;
      pending = λ k l n1 n5 n9. sip_kept k (s Cell.xip) word l n1 n5 n9;
    })

sie-Confines : (a : ℕ) → Confines (a, xie Cell.xie sip_mask)
unfolding csr_write
sie-Confines a privi word s s' n ok w =
    let f : put Cell.xie (write_with_mask (s Cell.xie) word sip_mask) s ≡ s' = ground arith in
    rw (← f) (record {
      cells = λ d hd. put_other Cell.xie d _ s (λ e. cc);
      status =
          All-of_forall {P = λ k. get_bit k (s Cell.xstatus) ≡ get_bit k (s Cell.xstatus)}
            machine_fields (λ k. refl);
      enables = λ k l n1 n5 n9. sip_kept k (s Cell.xie) word l n1 n5 n9;
      pending = λ k l n1 n5 n9. refl;
    })

-- A table all of whose entries confine.
data AllConfine : List (ℕ × CsrEnum) → Type 0 where
  stop : AllConfine []
  row :
      {a : ℕ} {csr : CsrEnum} {csrs : List (ℕ × CsrEnum)}
      → Confines (a, csr)
      → AllConfine csrs
      → AllConfine ((a, csr) ∷ csrs)

infixr 5 ◌▹◌
abbrev ◌▹◌ :
    {a : ℕ} {csr : CsrEnum} {csrs : List (ℕ × CsrEnum)}
    → Confines (a, csr)
    → AllConfine csrs
    → AllConfine ((a, csr) ∷ csrs)
◌▹◌ = row

lookup-AllConfine :
    (addr : ℕ) (csrs : List (ℕ × CsrEnum)) (csr : CsrEnum)
    → AllConfine csrs
    → lookup addr csrs ≡ some csr
    → Confines (addr, csr)
unfolding lookup
lookup-AllConfine addr [] csr h e = absurd (ground arith)
lookup-AllConfine addr ((a, c) ∷ csrs) csr (row h hs) e = elim (Bool-cases (a == addr)) [
  | inl same ↦ let f : (a, c) ≡ (addr, csr) = ground arith in subst Confines f h
  | inr other ↦ lookup-AllConfine addr csrs csr hs (ground arith)
]

table-AllConfine : (hart_id : ℕ) (config : Config) → AllConfine (csr_map_new hart_id config)
unfolding csr_map_new csr_write
table-AllConfine hart_id config =
    refused 0x301 _ refl (inl refl)
    ▹ refused 0xf14 _ refl (inl refl)
    ▹ refused 0xf12 _ refl (inl refl)
    ▹ refused 0xf11 _ refl (inl refl)
    ▹ refused 0xf13 _ refl (inl refl)
    ▹ refused 0x300 _ refl (inl refl)
    ▹ sstatus-Confines 0x100 config
    ▹ refused 0x344 _ refl (inl refl)
    ▹ sip-Confines 0x144
    ▹ refused 0x304 _ refl (inl refl)
    ▹ sie-Confines 0x104
    ▹ refused 0x342 _ refl (inl refl)
    ▹ owned 0x142 _ Cell.scause refl (λ word s. refl)
    ▹ refused 0x305 _ refl (inl refl)
    ▹ owned 0x105 _ Cell.stvec refl (λ word s. refl)
    ▹ refused 0x302 _ refl (inl refl)
    ▹ refused 0x303 _ refl (inl refl)
    ▹ refused 0x341 _ refl (inl refl)
    ▹ owned 0x141 _ Cell.sepc refl (λ word s. refl)
    ▹ refused 0x343 _ refl (inl refl)
    ▹ owned 0x143 _ Cell.stval refl (λ word s. refl)
    ▹ satp-Confines 0x180 config.mmu_type
    ▹ refused 0x340 _ refl (inl refl)
    ▹ owned 0x140 _ Cell.sscratch refl (λ word s. refl)
    ▹ refused 0xb00 _ refl (inl refl)
    ▹ refused 0xc00 _ refl (inr refl)
    ▹ refused 0xb02 _ refl (inl refl)
    ▹ refused 0xc02 _ refl (inr refl)
    ▹ refused 0x306 _ refl (inl refl)
    ▹ owned 0x106 _ Cell.scounteren refl (λ word s. refl)
    ▹ refused 0x7a0 _ refl (inl refl)
    ▹ refused 0x7b0 _ refl (inl refl)
    ▹ refused 0x7b1 _ refl (inl refl)
    ▹ refused 0x7b2 _ refl (inl refl)
    ▹ refused 0x7b3 _ refl (inl refl)
    ▹ stop

pub permitted-Post :
    {A : Type 0} (Q : Result A × CsrRegs → Type 0) (addr : ℕ) (privi : PrivilegeLevels)
    (access_type : AccessType) (act : CsrEnum → CsrRegs → Option (Result A × CsrRegs))
    (regs : CsrRegs)
    → Q (raise (illegal_instruction 0), record regs { cur_priv = privi })
    → ((csr : CsrEnum)
        → lookup addr regs.csr_map ≡ some csr
        → check_permission csr addr privi access_type regs.cells ≡ some true
        → Post Q (act csr (record regs { cur_priv = privi })))
    → Post Q (permitted addr privi access_type act regs)
unfolding permitted
permitted-Post Q addr privi access_type act regs denies acts =
    Post-assert Q (ltb addr 4096) _ λ small. elim (Option-cases (lookup addr regs.csr_map)) [
      | inl e ↦ rw e denies
      | inr (csr, e) ↦ rw e (
          Post-step Q (check_permission csr addr privi access_type regs.cells) _
            (λ ok p. Post-if Q ok _ _ (λ yes'. acts csr e (p ∙ ap some yes')) (λ no'. denies)))
    ]

-- What a write, or an instruction, makes of the registers.
abbrev pub Leaves : {A : Type 0} → CsrRegs → A × CsrRegs → Type 0
Leaves regs (_, regs') = IsConfined regs.cells regs'.cells × (regs'.csr_map ≡ regs.csr_map)

-- The table of a hart as it is built, with the time of the bus.
built-AllConfine :
    (hart_id : ℕ) (config : Config) → AllConfine (add_mtime (new hart_id config)).csr_map
unfolding add_mtime new csr_write
built-AllConfine hart_id config = refused 0xc01 _ refl (inr refl) ▹ table-AllConfine hart_id config

-- A write of any register of a built hart's table, below machine mode.
pub write-Leaves :
    (hart_id addr word : ℕ) (config : Config) (privi : PrivilegeLevels) (regs : CsrRegs)
    → privi ≢ machine
    → regs.csr_map ≡ (add_mtime (new hart_id config)).csr_map
    → Post (Leaves regs) (write addr word privi regs)
unfolding write
write-Leaves hart_id addr word config privi regs n table =
    permitted-Post (Leaves regs) addr privi (store 0) (written word) regs
      (IsConfined-refl regs.cells, refl)
      (λ csr found ok.
        Post-step (Leaves regs) (csr_write csr word regs.cells)
          (λ cells. some (value tt, record regs { cells = cells; cur_priv = privi }))
          (λ cells e. (
            lookup-AllConfine addr (add_mtime (new hart_id config)).csr_map csr
                (built-AllConfine hart_id config) (ap (lookup addr) (sym table) ∙ found) privi word
                regs.cells cells n ok e,
            refl,
          )))
