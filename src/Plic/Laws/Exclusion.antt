-- ===== src/Plic/Laws/Exclusion.antt =====
-- Sequences of events of src/device/device_sifive_plic.rs, and the claims among them.
use mathlib.Core.Path.{subst}
use riscv64_emu_rust.Base.{
  Bool, true, false, List, [], ◌∷◌, Option, none, some, ◌>>=◌, ℕ, get_elem?, ◌≡◌, ◌≢◌, ◌∙◌, sym,
  arith, Option-cases, inl, inr, get_elem?-set_ne, All,
}
use riscv64_emu_rust.Plic.{SifvePlic, Cells, update}
use riscv64_emu_rust.Plic.Tick.{tick, update_pending, update_contexts}
use riscv64_emu_rust.Plic.Laws.Selection.{Claimed, context_claim-Claimed}
use riscv64_emu_rust.Plic.Claim.{context_claim, claim_best, context_complete}

-- What happens to the controller: a device sets its line, the bus calls `tick`, a hart claims
-- through a context, or completes an interrupt.
pub data Event : Type 0 where
  line : ℕ → Bool → Event
  ticked : Event
  claim : ℕ → Event
  complete : ℕ → Event

-- The interrupt that a claim hands out, and the state after the event.
unfoldable pub handle : Event → SifvePlic → Cells → Option (Option ℕ × SifvePlic × Cells)
handle (line k up) p cells = some (none, p, record cells { lines = update cells.lines k up })
handle ticked p cells = tick p cells >>= λ (p', cells'). some (none, p', cells')
handle (claim idx) p cells =
    context_claim idx p cells >>= λ (id, p', cells'). some (some id, p', cells')
handle (complete val) p cells = context_complete val p >>= λ p'. some (none, p', cells)

abbrev pub keep_id : Option ℕ → List ℕ → List ℕ
keep_id none ids = ids
keep_id (some id) ids = id ∷ ids

-- The interrupts that a sequence of events hands out.
unfoldable pub handle_all : List Event → SifvePlic → Cells → Option (List ℕ)
handle_all [] p cells = some []
handle_all (e ∷ es) p cells = handle e p cells >>= λ (id, p', cells').
    handle_all es p' cells' >>= λ ids. some (keep_id id ids)

abbrev pub CompletesOther : ℕ → Event → Type 0
CompletesOther k (complete val) = val ≢ k
CompletesOther k _ = Unit

abbrev pub Is : ℕ → Option ℕ → Type 0
Is k none = Unit
Is k (some id) = id ≢ k

tick-claimed :
    (p : SifvePlic) (cells : Cells) {p' : SifvePlic} {cells' : Cells}
    → tick p cells ≡ some (p', cells')
    → p'.claimed ≡ p.claimed
unfolding tick
tick-claimed p cells h =
    elim (Option-cases (update_pending p.irq_sources cells.lines p.irq_pending)) [
      | inl e ↦ absurd (ground arith)
      | inr (words, e) ↦
          elim (Option-cases (update_contexts p.vec_irq_priority p.irq_sources p.context cells)) [
            | inl e' ↦ absurd (ground arith)
            | inr (d, e') ↦ ground arith
          ]
    ]

claim-claimed :
    (idx k : ℕ) (p : SifvePlic) (cells : Cells) {id : ℕ} {p' : SifvePlic} {cells' : Cells}
    → k ≢ 0
    → get_elem? p.claimed k ≡ some true
    → context_claim idx p cells ≡ some (id, p', cells')
    → (id ≢ k) × (get_elem? p'.claimed k ≡ some true)
unfolding context_claim claim_best
claim-claimed idx k p cells {id} {p'} {cells'} pos busy h =
    elim (Option-cases (get_elem? p.context idx)) [
      | inl e ↦ absurd (ground arith)
      | inr (c, at) ↦
          let r : Claimed idx p cells c id p' cells' = context_claim-Claimed idx p cells c at h in
          elim r.outcome [
            | inl (taken, zero_id, same, same') ↦ (λ e. pos (sym e ∙ zero_id), ground arith)
            | inr (free, result) ↦
                let other : r.best.irq_id ≢ k = λ e. differ (sym busy ∙ (rw (← e) free)) in
                (
                  λ e. other (ground arith),
                  ground (arith, get_elem?-set_ne p.claimed r.best.irq_id k true other, busy),
                )
          ]
    ]
  where
    differ : some true ≡ some false → ⊥
    differ e = cc

complete-claimed :
    (val k : ℕ) (p : SifvePlic) {p' : SifvePlic}
    → val ≢ k
    → get_elem? p.claimed k ≡ some true
    → context_complete val p ≡ some p'
    → get_elem? p'.claimed k ≡ some true
unfolding context_complete
complete-claimed val k p {p'} other busy h = elim (Option-cases (get_elem? p.claimed val)) [
  | inl e ↦ absurd (ground arith)
  | inr (old, e) ↦ ground (arith, get_elem?-set_ne p.claimed val k false other)
]

handle-claimed :
    (e : Event) (k : ℕ) (p : SifvePlic) (cells : Cells) {id : Option ℕ} {p' : SifvePlic}
    {cells' : Cells}
    → k ≢ 0
    → CompletesOther k e
    → get_elem? p.claimed k ≡ some true
    → handle e p cells ≡ some (id, p', cells')
    → Is k id × (get_elem? p'.claimed k ≡ some true)
unfolding handle
handle-claimed (line l up) k p cells {id} {p'} {cells'} pos other busy h =
    let same : id ≡ none = ground arith in (subst (Is k) (sym same) tt, ground arith)
handle-claimed ticked k p cells {id} {p'} {cells'} pos other busy h =
    elim (Option-cases (tick p cells)) [
      | inl e ↦ absurd (ground arith)
      | inr ((p2, c2), e) ↦
          let same : id ≡ none = ground arith in
          let kept = tick-claimed p cells {p' = p2} {cells' = c2} e in
          (subst (Is k) (sym same) tt, ground (arith, kept))
    ]
handle-claimed (claim idx) k p cells {id} {p'} {cells'} pos other busy h =
    elim (Option-cases (context_claim idx p cells)) [
      | inl e ↦ absurd (ground arith)
      | inr ((i, p2, c2), e) ↦
          let kept = claim-claimed idx k p cells {id = i} {p' = p2} {cells' = c2} pos busy e in
          let same : id ≡ some i = ground arith in
          (subst (Is k) (sym same) kept.0, ground (arith, kept.1))
    ]
handle-claimed (complete val) k p cells {id} {p'} {cells'} pos other busy h =
    elim (Option-cases (context_complete val p)) [
      | inl e ↦ absurd (ground arith)
      | inr (p2, e) ↦
          let same : id ≡ none = ground arith in
          let kept = complete-claimed val k p {p' = p2} other busy e in
          (subst (Is k) (sym same) tt, ground (arith, kept))
    ]

-- While interrupt `k` (not 0) is claimed, no sequence of events hands it out again, through any
-- context, unless one of them completes it.
pub claimed_exclusive :
    (es : List Event) (k : ℕ) (p : SifvePlic) (cells : Cells) {ids : List ℕ}
    → k ≢ 0
    → All (CompletesOther k) es
    → get_elem? p.claimed k ≡ some true
    → handle_all es p cells ≡ some ids
    → All (λ id. id ≢ k) ids
unfolding handle_all
claimed_exclusive [] k p cells {ids} pos other busy h =
    let same : [] ≡ ids = ground arith in subst (All (λ id. id ≢ k)) same tt
claimed_exclusive (e ∷ es) k p cells {ids} pos other busy h =
    elim (Option-cases (handle e p cells)) [
      | inl x ↦ absurd (ground arith)
      | inr ((id, p2, c2), x) ↦
          let kept =
            handle-claimed e k p cells {id = id} {p' = p2} {cells' = c2} pos other.0 busy x in
          elim (Option-cases (handle_all es p2 c2)) [
            | inl y ↦ absurd (ground arith)
            | inr (later, y) ↦
                let same : keep_id id later ≡ ids = ground arith in
                let rest = claimed_exclusive es k p2 c2 {ids = later} pos other.1 kept.1 y in
                subst (All (λ i. i ≢ k)) same (join id later kept.0 rest)
          ]
    ]
  where
    join :
        (id : Option ℕ) (later : List ℕ)
        → Is k id
        → All (λ i. i ≢ k) later
        → All (λ i. i ≢ k) (keep_id id later)
    join none later a b = b
    join (some i) later a b = (a, b)
