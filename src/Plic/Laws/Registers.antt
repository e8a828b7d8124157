-- ===== src/Plic/Laws/Registers.antt =====
-- Reads and writes of the registers of src/device/device_sifive_plic.rs keep the state well-formed.
use mathlib.Core.Path.{subst}
use riscv64_emu_rust.Base.{
  Bool, true, false, Option, none, some, ◌>>=◌, ℕ, ◌-◌, ◌/◌, ◌%◌, ◌^◌, ◌≡◌, ◌∙◌, sym, arith, leb,
  ◌==◌, get_elem?, set, length-set, Bool-cases, Option-cases, inl, inr, if◌then◌else◌, bit_and,
}
use riscv64_emu_rust.Base.Bits.{bit_not}
use riscv64_emu_rust.Plic.{PlicContext, SifvePlic, Cells}
use riscv64_emu_rust.Plic.Claim.{context_claim, claim_best, context_complete}
use riscv64_emu_rust.Plic.Mmio.{
  Setter, priority_read, pending_read, pending_write, context_enable_read, context_enable_write,
  context_read, priority_write, context_write, do_read, do_write,
}
use riscv64_emu_rust.Plic.Laws.{IsWellFormed, HasTwoWords, All-set, All-get}
use riscv64_emu_rust.Plic.Laws.Selection.{Claimed, context_claim-Claimed}

-- A context may be given anew if it keeps its two enable words.
set_context-IsWellFormed :
    (p : SifvePlic) (idx : ℕ) (c : PlicContext)
    → IsWellFormed p
    → HasTwoWords c
    → IsWellFormed (record p { context = set p.context idx c })
set_context-IsWellFormed p idx c w two = record {
  small_ids = w.small_ids;
  ids_differ = w.ids_differ;
  priorities = w.priorities;
  words = w.words;
  claims = w.claims;
  contexts = All-set HasTwoWords p.context idx c w.contexts two;
}

set_claimed-IsWellFormed :
    (p : SifvePlic) (k : ℕ) (b : Bool)
    → IsWellFormed p
    → IsWellFormed (record p { claimed = set p.claimed k b })
set_claimed-IsWellFormed p k b w = record {
  small_ids = w.small_ids;
  ids_differ = w.ids_differ;
  priorities = w.priorities;
  words = w.words;
  claims = length-set p.claimed k b ∙ w.claims;
  contexts = w.contexts;
}

pub context_claim-IsWellFormed :
    (idx : ℕ) (p : SifvePlic) (cells : Cells) {id : ℕ} {p' : SifvePlic} {cells' : Cells}
    → context_claim idx p cells ≡ some (id, p', cells')
    → IsWellFormed p
    → IsWellFormed p'
unfolding context_claim claim_best
context_claim-IsWellFormed idx p cells {id} {p'} {cells'} h w =
    elim (Option-cases (get_elem? p.context idx)) [
      | inl e ↦ absurd (ground arith)
      | inr (c, at) ↦
          let r : Claimed idx p cells c id p' cells' = context_claim-Claimed idx p cells c at h in
          elim r.outcome [
            | inl (taken, zero_id, same, same') ↦ subst IsWellFormed (sym same) w
            | inr (free, result) ↦ subst IsWellFormed (ground arith) (
                set_context-IsWellFormed (record p { claimed = set p.claimed r.best.irq_id true })
                  idx (record c { claim = r.best.irq_id })
                  (set_claimed-IsWellFormed p r.best.irq_id true w)
                  (All-get HasTwoWords p.context idx w.contexts at))
          ]
    ]

context_complete-IsWellFormed :
    (val : ℕ) (p : SifvePlic) {p' : SifvePlic}
    → context_complete val p ≡ some p'
    → IsWellFormed p
    → IsWellFormed p'
unfolding context_complete
context_complete-IsWellFormed val p {p'} h w = elim (Option-cases (get_elem? p.claimed val)) [
  | inl e ↦ absurd (ground arith)
  | inr (old, e) ↦ subst IsWellFormed (ground arith) (set_claimed-IsWellFormed p val false w)
]

context_read-IsWellFormed :
    (offset : ℕ) (p : SifvePlic) (cells : Cells) {v : ℕ} {p' : SifvePlic} {cells' : Cells}
    → context_read offset p cells ≡ some (v, p', cells')
    → IsWellFormed p
    → IsWellFormed p'
unfolding context_read
context_read-IsWellFormed offset p cells {v} {p'} {cells'} h w =
    elim (Bool-cases (offset % 0x1000 == 0)) [
      | inl e ↦ elim (Option-cases (get_elem? p.context (offset / 0x1000))) [
        | inl n ↦ absurd (ground arith)
        | inr (c, at) ↦ subst IsWellFormed (ground arith) w
      ]
      | inr e ↦ elim (Bool-cases (offset % 0x1000 == 4)) [
        | inl f ↦
            context_claim-IsWellFormed (offset / 0x1000) p cells {id = v} {cells' = cells'}
              (ground arith) w
        | inr f ↦ absurd (ground arith)
      ]
    ]

plain_same :
    (r : Option ℕ) (p : SifvePlic) (cells : Cells) {v : ℕ} {p' : SifvePlic} {cells' : Cells}
    → ◌>>=◌ {B = ℕ × SifvePlic × Cells} r (λ x. some (x, p, cells)) ≡ some (v, p', cells')
    → IsWellFormed p
    → IsWellFormed p'
plain_same none p cells {v} {p'} {cells'} h w = absurd (ground arith)
plain_same (some x) p cells {v} {p'} {cells'} h w = subst IsWellFormed (ground arith) w

-- A read that does not panic keeps the state well-formed.
do_read-IsWellFormed :
    (addr len : ℕ) (p : SifvePlic) (cells : Cells) {v : ℕ} {p' : SifvePlic} {cells' : Cells}
    → do_read addr len p cells ≡ some (v, p', cells')
    → IsWellFormed p
    → IsWellFormed p'
unfolding do_read
do_read-IsWellFormed addr len p cells {v} {p'} {cells'} h w = elim (Bool-cases (len == 4)) [
  | inr e ↦ absurd (ground arith)
  | inl e ↦ elim (Bool-cases (leb addr 0xfff)) [
    | inl a ↦ plain_same (priority_read addr p) p cells {v = v} {cells' = cells'} (ground arith) w
    | inr a ↦ elim (Bool-cases (leb addr 0x1fff)) [
      | inl b ↦
          plain_same (pending_read (addr - 0x1000) p) p cells {v = v} {cells' = cells'}
            (ground arith) w
      | inr b ↦ elim (Bool-cases (leb addr 0x1fffff)) [
        | inl c ↦
            plain_same (context_enable_read (addr - 0x2000) p) p cells {v = v} {cells' = cells'}
              (ground arith) w
        | inr c ↦ elim (Bool-cases (leb addr 0xffffff)) [
          | inl d ↦
              context_read-IsWellFormed (addr - 0x200000) p cells {v = v} {cells' = cells'}
                (ground arith) w
          | inr d ↦ absurd (ground arith)
        ]
      ]
    ]
  ]
]

context_enable_write-IsWellFormed :
    (offset val : ℕ) (p : SifvePlic) {p' : SifvePlic}
    → context_enable_write offset val p ≡ some p'
    → IsWellFormed p
    → IsWellFormed p'
unfolding context_enable_write
context_enable_write-IsWellFormed offset val p {p'} h w =
    let idx = offset / 0x80 in
    let word = offset % 0x80 / 4 in
    let val' = if word == 0 then bit_and val (bit_not 32 1) else val in
    elim (Option-cases (get_elem? p.context idx)) [
      | inl e ↦ absurd (ground arith)
      | inr (c, at) ↦ elim (Option-cases (get_elem? c.enable word)) [
        | inl e ↦ absurd (ground arith)
        | inr (old, at') ↦ subst IsWellFormed (ground arith) (
            set_context-IsWellFormed p idx (record c { enable = set c.enable word val' }) w
              (length-set c.enable word val' ∙ All-get HasTwoWords p.context idx w.contexts at))
      ]
    ]

module _ (s : Setter) where
  priority_write-IsWellFormed :
      (offset val : ℕ) (p : SifvePlic) {p' : SifvePlic}
      → priority_write s offset val p ≡ some p'
      → IsWellFormed p
      → IsWellFormed p'
  unfolding priority_write
  priority_write-IsWellFormed offset val p {p'} h w =
      elim (Option-cases (get_elem? p.vec_irq_priority (offset / 4))) [
        | inl e ↦ absurd (ground arith)
        | inr (old, at) ↦ elim (Option-cases (s.fit (val % 256))) [
          | inl e ↦ absurd (ground arith)
          | inr (v, e) ↦ subst IsWellFormed (ground arith) (record {
            small_ids = w.small_ids;
            ids_differ = w.ids_differ;
            priorities = length-set p.vec_irq_priority (offset / 4) v ∙ w.priorities;
            words = w.words;
            claims = w.claims;
            contexts = w.contexts;
          })
        ]
      ]

  context_write-IsWellFormed :
      (offset val : ℕ) (p : SifvePlic) {p' : SifvePlic}
      → context_write s offset val p ≡ some p'
      → IsWellFormed p
      → IsWellFormed p'
  unfolding context_write
  context_write-IsWellFormed offset val p {p'} h w =
      let idx = offset / 0x1000 in
      elim (Bool-cases (offset % 0x1000 == 0)) [
        | inl e ↦ elim (Option-cases (get_elem? p.context idx)) [
          | inl n ↦ absurd (ground arith)
          | inr (c, at) ↦ elim (Option-cases (s.fit (val % 256))) [
            | inl n ↦ absurd (ground arith)
            | inr (t, f) ↦ subst IsWellFormed (ground arith) (
                set_context-IsWellFormed p idx (record c { threshold = t }) w
                  (All-get HasTwoWords p.context idx w.contexts at))
          ]
        ]
        | inr e ↦ elim (Bool-cases (offset % 0x1000 == 4)) [
          | inl f ↦ context_complete-IsWellFormed val p (ground arith) w
          | inr f ↦ absurd (ground arith)
        ]
      ]

  -- A write that does not panic keeps the state well-formed, and returns 0.
  do_write-IsWellFormed :
      (addr value len : ℕ) (p : SifvePlic) {v : ℕ} {p' : SifvePlic}
      → do_write s addr value len p ≡ some (v, p')
      → IsWellFormed p
      → IsWellFormed p' × (v ≡ 0)
  unfolding do_write pending_write
  do_write-IsWellFormed addr value len p {v} {p'} h w =
      let word = value % 2 ^ 32 in
      elim (Bool-cases (len == 4)) [
        | inr e ↦ absurd (ground arith)
        | inl e ↦ elim (Bool-cases (leb addr 0xfff)) [
          | inl a ↦ (
            priority_write-IsWellFormed addr word p
                (returned (priority_write s addr word p) (ground arith)).0 w,
            (returned (priority_write s addr word p) (ground arith)).1,
          )
          | inr a ↦ elim (Bool-cases (leb addr 0x1fff)) [
            | inl b ↦ (subst IsWellFormed (ground arith) w, ground arith)
            | inr b ↦ elim (Bool-cases (leb addr 0x1fffff)) [
              | inl c ↦
                  let r = returned (context_enable_write (addr - 0x2000) word p) (ground arith) in
                  (context_enable_write-IsWellFormed (addr - 0x2000) word p r.0 w, r.1)
              | inr c ↦ elim (Bool-cases (leb addr 0xffffff)) [
                | inl d ↦
                    let r = returned (context_write s (addr - 0x200000) word p) (ground arith) in
                    (context_write-IsWellFormed (addr - 0x200000) word p r.0 w, r.1)
                | inr d ↦ absurd (ground arith)
              ]
            ]
          ]
        ]
      ]
    where
      returned :
          (r : Option SifvePlic)
          → ◌>>=◌ {B = ℕ × SifvePlic} r (λ x. some (0, x)) ≡ some (v, p')
          → (r ≡ some p') × (v ≡ 0)
      returned none f = absurd (ground arith)
      returned (some x) f = (ground arith, ground arith)
