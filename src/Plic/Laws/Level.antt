-- ===== src/Plic/Laws/Level.antt =====
-- What `tick` of src/device/device_sifive_plic.rs tells the harts.
use mathlib.Core.Logic.{◌↔◌}
use riscv64_emu_rust.Base.{
  Bool, true, false, List, [], ◌∷◌, ◌++◌, some, ℕ, ◌<◌, get_elem?, Any, All, ◌≡◌, ◌≢◌, ◌∙◌, refl,
  sym, ap, arith, Option-cases, inl, inr, ◌⊎◌,
}
use riscv64_emu_rust.Base.Bits.{get_bit, get_bit-set_bit}
use riscv64_emu_rust.Plic.{
  IrqSource, PlicContext, SifvePlic, Cells, get_enable_by_id, update_xip, xip_bit,
}
use riscv64_emu_rust.Plic.Tick.{tick, update_pending, update_contexts, int_flag, raises}

-- A source waits for a context: its device raises the line, the context enables it, and its
-- priority is above the threshold of the context.
abbrev pub WaitsFor : SifvePlic → (ℕ → Bool) → PlicContext → IrqSource → Type 0
WaitsFor p lines c s =
    (lines s.pending ≡ true)
    × (get_enable_by_id s.id c ≡ some true)
    × ((priority : ℕ) × (get_elem? p.vec_irq_priority s.id ≡ some priority)
        × (c.threshold < priority))

raises-true :
    (p : SifvePlic) (lines : ℕ → Bool) (c : PlicContext) (s : IrqSource)
    → raises p.vec_irq_priority lines c s ≡ some true
    → WaitsFor p lines c s
unfolding raises
raises-true p lines c s h = elim (Option-cases (get_enable_by_id s.id c)) [
  | inl e ↦ absurd (ground arith)
  | inr (b, e) ↦ elim (Option-cases (get_elem? p.vec_irq_priority s.id)) [
    | inl e' ↦ absurd (ground arith)
    | inr (priority, e') ↦ (ground arith, e ∙ ap some (ground arith), (priority, e', ground arith))
  ]
]

raises-false :
    (p : SifvePlic) (lines : ℕ → Bool) (c : PlicContext) (s : IrqSource)
    → raises p.vec_irq_priority lines c s ≡ some false
    → WaitsFor p lines c s
    → ⊥
unfolding raises
raises-false p lines c s h w = ground (arith, w.2.1)

int_flag_iff :
    (p : SifvePlic) (lines : ℕ → Bool) (c : PlicContext) (items : List IrqSource) (b : Bool)
    → int_flag p.vec_irq_priority lines c items ≡ some b
    → (b ≡ true) ↔ Any (WaitsFor p lines c) items
unfolding int_flag
int_flag_iff p lines c [] b h = (λ e. ground arith, λ x. elim x [ ])
int_flag_iff p lines c (s ∷ items) b h = elim (Option-cases (raises p.vec_irq_priority lines c s)) [
  | inl e ↦ absurd (ground arith)
  | inr (true, e) ↦ (λ _. inl (raises-true p lines c s e), λ _. ground arith)
  | inr (false, e) ↦
      let rest = int_flag_iff p lines c items b (ground arith) in
      (
        λ t. inr (rest.0 t),
        λ x. elim x [
          | inl here ↦ absurd (raises-false p lines c s e here)
          | inr later ↦ rest.1 later
        ],
      )
]

update_xip-lines :
    (b : Bool) (d : PlicContext) (cells : Cells) → (update_xip b d cells).lines ≡ cells.lines
unfolding update_xip
update_xip-lines b d cells = refl

update_xip_self :
    (b : Bool) (d : PlicContext) (cells : Cells)
    → get_bit (xip_bit d.mmode) ((update_xip b d cells).xips d.xip) ≡ b
unfolding update_xip
update_xip_self b d cells =
    ground (arith, get_bit-set_bit (xip_bit d.mmode) (xip_bit d.mmode) b (cells.xips d.xip))

update_xip_other :
    (b : Bool) (d : PlicContext) (cells : Cells) (x j : ℕ)
    → (d.xip ≢ x) ⊎ (xip_bit d.mmode ≢ j)
    → get_bit j ((update_xip b d cells).xips x) ≡ get_bit j (cells.xips x)
unfolding update_xip
update_xip_other b d cells x j other =
    ground (arith, get_bit-set_bit j (xip_bit d.mmode) b (cells.xips d.xip))

-- The loop over the contexts leaves the lines alone, and each bit of an interrupt-pending word that
-- no context of the list stands for.
update_contexts_frame :
    (priorities : List ℕ) (items : List IrqSource) (cs : List PlicContext) (cells : Cells)
    {cells' : Cells} (x j : ℕ)
    → update_contexts priorities items cs cells ≡ some cells'
    → All (λ d. (d.xip ≢ x) ⊎ (xip_bit d.mmode ≢ j)) cs
    → (cells'.lines ≡ cells.lines) × (get_bit j (cells'.xips x) ≡ get_bit j (cells.xips x))
unfolding update_contexts
update_contexts_frame priorities items [] cells x j h f = (cc, cc)
update_contexts_frame priorities items (d ∷ cs) cells {cells'} x j h f =
    elim (Option-cases (int_flag priorities cells.lines d items)) [
      | inl e ↦ absurd (ground arith)
      | inr (b, e) ↦
          let rest =
            update_contexts_frame priorities items cs (update_xip b d cells) {cells' = cells'} x j
              (ground arith) f.1 in
          (rest.0 ∙ update_xip-lines b d cells, rest.1 ∙ update_xip_other b d cells x j f.0)
    ]

update_contexts_level :
    (p : SifvePlic) (before : List PlicContext) (c : PlicContext) (after : List PlicContext)
    (cells : Cells) {cells' : Cells}
    → All (λ d. (d.xip ≢ c.xip) ⊎ (xip_bit d.mmode ≢ xip_bit c.mmode)) after
    → update_contexts p.vec_irq_priority p.irq_sources (before ++ c ∷ after) cells ≡ some cells'
    → (get_bit (xip_bit c.mmode) (cells'.xips c.xip) ≡ true)
      ↔ Any (WaitsFor p cells.lines c) p.irq_sources
unfolding update_contexts
update_contexts_level p [] c after cells {cells'} alone h =
    elim (Option-cases (int_flag p.vec_irq_priority cells.lines c p.irq_sources)) [
      | inl e ↦ absurd (ground arith)
      | inr (b, e) ↦
          let kept =
            update_contexts_frame p.vec_irq_priority p.irq_sources after (update_xip b c cells)
              {cells' = cells'} c.xip (xip_bit c.mmode) (ground arith) alone in
          rw (kept.1 ∙ update_xip_self b c cells) (int_flag_iff p cells.lines c p.irq_sources b e)
    ]
update_contexts_level p (d ∷ before) c after cells {cells'} alone h =
    elim (Option-cases (int_flag p.vec_irq_priority cells.lines d p.irq_sources)) [
      | inl e ↦ absurd (ground arith)
      | inr (b, e) ↦ rw (update_xip-lines b d cells) at (
          update_contexts_level p before c after (update_xip b d cells) {cells' = cells'} alone
            (ground arith))
    ]

-- After `tick`, the external-interrupt bit that a context stands for (meip of its hart's word for an
-- M-mode context, seip for an S-mode one) is 1 exactly when some source waits for the context,
-- provided that no later context stands for the same bit of the same word.
pub tick_level :
    (p : SifvePlic) (cells : Cells) {p' : SifvePlic} {cells' : Cells} (before : List PlicContext)
    (c : PlicContext) (after : List PlicContext)
    → p.context ≡ before ++ c ∷ after
    → All (λ d. (d.xip ≢ c.xip) ⊎ (xip_bit d.mmode ≢ xip_bit c.mmode)) after
    → tick p cells ≡ some (p', cells')
    → (get_bit (xip_bit c.mmode) (cells'.xips c.xip) ≡ true)
      ↔ Any (WaitsFor p cells.lines c) p.irq_sources
unfolding tick
tick_level p cells {p'} {cells'} before c after at alone h =
    update_contexts_level p before c after cells {cells' = cells'} alone (ran h)
  where
    ran :
        tick p cells ≡ some (p', cells')
        → update_contexts p.vec_irq_priority p.irq_sources (before ++ c ∷ after) cells ≡ some cells'
    ran h = elim (Option-cases (update_pending p.irq_sources cells.lines p.irq_pending)) [
      | inl e ↦ absurd (ground arith)
      | inr (words, e) ↦
          elim (Option-cases (update_contexts p.vec_irq_priority p.irq_sources p.context cells)) [
            | inl e' ↦ absurd (ground arith)
            | inr (d, e') ↦ rw (← at) (e' ∙ ground arith)
          ]
    ]

two_bits : (m : Bool) (j : ℕ) → j ≢ 9 → j ≢ 11 → xip_bit m ≢ j
two_bits true j a b e = b (sym e)
two_bits false j a b e = a (sym e)

All-other :
    (cs : List PlicContext) (x j : ℕ)
    → j ≢ 9
    → j ≢ 11
    → All (λ d. (d.xip ≢ x) ⊎ (xip_bit d.mmode ≢ j)) cs
All-other [] x j a b = tt
All-other (d ∷ cs) x j a b = (inr (two_bits d.mmode j a b), All-other cs x j a b)

-- `tick` changes no device line, and of each hart's interrupt-pending word at most bits 9 and 11:
-- what the CLINT and the hart itself put there stays.
pub tick_frame :
    (p : SifvePlic) (cells : Cells) {p' : SifvePlic} {cells' : Cells} (x j : ℕ)
    → tick p cells ≡ some (p', cells')
    → j ≢ 9
    → j ≢ 11
    → (cells'.lines ≡ cells.lines) × (get_bit j (cells'.xips x) ≡ get_bit j (cells.xips x))
unfolding tick
tick_frame p cells {p'} {cells'} x j h a b =
    elim (Option-cases (update_pending p.irq_sources cells.lines p.irq_pending)) [
      | inl e ↦ absurd (ground arith)
      | inr (words, e) ↦
          elim (Option-cases (update_contexts p.vec_irq_priority p.irq_sources p.context cells)) [
            | inl e' ↦ absurd (ground arith)
            | inr (d, e') ↦
                update_contexts_frame p.vec_irq_priority p.irq_sources p.context cells
                  {cells' = cells'} x j (e' ∙ ground arith) (All-other p.context x j a b)
          ]
    ]
