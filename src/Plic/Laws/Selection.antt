-- ===== src/Plic/Laws/Selection.antt =====
-- Which interrupt a claim of src/device/device_sifive_plic.rs takes, and what it leaves behind.
use mathlib.Core.Path.{subst}
use riscv64_emu_rust.Base.{
  Bool, true, false, List, [], ◌∷◌, some, ℕ, ◌<◌, ◌≤◌, get_elem?, get_elem?-set_self,
  get_elem?-some, Any, All, ◌≡◌, ◌≢◌, ◌∙◌, refl, sym, arith, Option-cases, inl, inr, ◌⊎◌,
}
use riscv64_emu_rust.Plic.{IrqSource, PlicContext, SifvePlic, Cells}
use riscv64_emu_rust.Plic.Laws.{All-get}
use riscv64_emu_rust.Plic.Claim.{
  context_claim, claim_best, select, step_best, better, is_candidate, Best, no_candidate,
}

-- `b` ranks at least as high as a source with this id and priority: a higher priority, or the same
-- with an id that is not larger.
abbrev pub Outranks : Best → ℕ → ℕ → Type 0
Outranks b id priority =
    (priority < b.irq_priority) ⊎ ((priority ≡ b.irq_priority) × (b.irq_id ≤ id))

abbrev pub IsBeaten : List ℕ → (ℕ → Bool) → PlicContext → Best → IrqSource → Type 0
IsBeaten priorities lines c b s =
    is_candidate lines c s ≡ some true
    → (priority : ℕ) → get_elem? priorities s.id ≡ some priority
    → Outranks b s.id priority

-- Where the candidate stems from: nothing so far, or a source of the list.
abbrev pub StemsFrom : List ℕ → (ℕ → Bool) → PlicContext → Best → IrqSource → Type 0
StemsFrom priorities lines c b s =
    (is_candidate lines c s ≡ some true)
    × (s.id ≡ b.irq_id)
    × (get_elem? priorities s.id ≡ some b.irq_priority)
    × (b.line ≡ some s.pending)

better-Outranks :
    (item : IrqSource) (priority : ℕ) (b : Best)
    → Outranks (better item priority b) item.id priority
unfolding better
better-Outranks item priority b = ground arith

better_keeps :
    (item : IrqSource) (priority : ℕ) (b : Best) (id pr : ℕ)
    → Outranks b id pr
    → Outranks (better item priority b) id pr
unfolding better
better_keeps item priority b id pr h = ground arith

-- Source 0 does not exist: the candidate 0 stands for none, and any other has a positive priority.
abbrev pub IsPositive : Best → Type 0
IsPositive b = (b.irq_id ≡ 0) ⊎ (0 < b.irq_priority)

better-IsPositive :
    (item : IrqSource) (priority : ℕ) (b : Best)
    → IsPositive b
    → IsPositive (better item priority b)
unfolding better
better-IsPositive item priority b h = ground arith

better_source :
    (item : IrqSource) (priority : ℕ) (b : Best)
    → (better item priority b ≡ b)
      ⊎ ((item.id ≡ (better item priority b).irq_id)
          × (priority ≡ (better item priority b).irq_priority)
          × ((better item priority b).line ≡ some item.pending))
unfolding better
better_source item priority b = ground arith

module _ (priorities : List ℕ) (lines : ℕ → Bool) (c : PlicContext) where
  record Stepped (item : IrqSource) (b b' : Best) : Type 0 where
    keeps : (id pr : ℕ) → Outranks b id pr → Outranks b' id pr
    beaten : IsBeaten priorities lines c b' item
    positive : IsPositive b → IsPositive b'
    source : (b' ≡ b) ⊎ StemsFrom priorities lines c b' item

  step_best-Stepped :
      (item : IrqSource) (b : Best) {b' : Best}
      → step_best priorities lines c item b ≡ some b'
      → Stepped item b b'
  unfolding step_best
  step_best-Stepped item b {b'} h = elim (Option-cases (is_candidate lines c item)) [
    | inl e ↦ absurd (ground arith)
    | inr (false, e) ↦ record {
      keeps = λ id pr o. ground arith;
      beaten = λ w. absurd (ground arith);
      positive = λ q. ground arith;
      source = inl (ground arith);
    }
    | inr (true, e) ↦ elim (Option-cases (get_elem? priorities item.id)) [
      | inl e' ↦ absurd (ground arith)
      | inr (priority, e') ↦
          let same : better item priority b ≡ b' = ground arith in
          record {
            keeps = λ id pr o. rw (← same) (better_keeps item priority b id pr o);
            beaten = λ w q eq. rw (← same) (ground (arith, better-Outranks item priority b));
            positive = λ q. rw (← same) (better-IsPositive item priority b q);
            source = ground (arith, better_source item priority b);
          }
    ]
  ]

  pub record Selected (items : List IrqSource) (b b' : Best) : Type 0 where
    pub keeps : (id pr : ℕ) → Outranks b id pr → Outranks b' id pr
    pub beaten : All (IsBeaten priorities lines c b') items
    pub positive : IsPositive b → IsPositive b'
    pub source : (b' ≡ b) ⊎ Any (StemsFrom priorities lines c b') items

  select-Selected :
      (items : List IrqSource) (b : Best) {b' : Best}
      → select priorities lines c items b ≡ some b'
      → Selected items b b'
  unfolding select
  select-Selected [] b {b'} h = record {
    keeps = λ id pr o. ground arith;
    beaten = tt;
    positive = λ q. ground arith;
    source = inl (ground arith);
  }
  select-Selected (item ∷ items) b {b'} h =
      elim (Option-cases (step_best priorities lines c item b)) [
        | inl e ↦ absurd (ground arith)
        | inr (m, e) ↦
            let one = step_best-Stepped item b {b' = m} e in
            let more = select-Selected items m {b' = b'} (ground arith) in
            record {
              keeps = λ id pr o. more.keeps id pr (one.keeps id pr o);
              beaten = (λ w q eq. more.keeps item.id q (one.beaten w q eq), more.beaten);
              positive = λ q. more.positive (one.positive q);
              source = elim more.source [
                | inr later ↦ inr (inr later)
                | inl same ↦ elim one.source [
                  | inl still ↦ inl (same ∙ still)
                  | inr here ↦
                      inr (inl (subst (λ x. StemsFrom priorities lines c x item) (sym same) here))
                ]
              ];
            }
      ]

Any-map :
    {P Q : IrqSource → Type 0}
    → ((s : IrqSource) → P s → Q s)
    → (items : List IrqSource) → Any P items
    → Any Q items
Any-map f [] x = x
Any-map f (s ∷ items) (inl h) = inl (f s h)
Any-map f (s ∷ items) (inr h) = inr (Any-map f items h)

-- A claim that has run, taken apart.
pub record Claimed (idx : ℕ) (p : SifvePlic) (cells : Cells) (c : PlicContext) (id : ℕ)
    (p' : SifvePlic) (cells' : Cells) : Type 0 where
  pub best : Best
  pub selected : Selected p.vec_irq_priority cells.lines c p.irq_sources no_candidate best
  pub outcome :
      (get_elem? p.claimed best.irq_id ≡ some true) × (id ≡ 0) × (p' ≡ p) × (cells' ≡ cells)
      ⊎ (get_elem? p.claimed best.irq_id ≡ some false)
        × ((id, p', cells') ≡ claim_best idx c best p cells)

pub context_claim-Claimed :
    (idx : ℕ) (p : SifvePlic) (cells : Cells) (c : PlicContext) {id : ℕ} {p' : SifvePlic}
    {cells' : Cells}
    → get_elem? p.context idx ≡ some c
    → context_claim idx p cells ≡ some (id, p', cells')
    → Claimed idx p cells c id p' cells'
unfolding context_claim
context_claim-Claimed idx p cells c {id} {p'} {cells'} at h =
    elim (Option-cases (select p.vec_irq_priority cells.lines c p.irq_sources no_candidate)) [
      | inl e ↦ absurd (ground arith)
      | inr (b, e) ↦ record {
        best = b;
        selected = select-Selected p.vec_irq_priority cells.lines c p.irq_sources no_candidate e;
        outcome = elim (Option-cases (get_elem? p.claimed b.irq_id)) [
          | inl e' ↦ absurd (ground arith)
          | inr (true, e') ↦ inl (e', ground arith, ground arith, ground arith)
          | inr (false, e') ↦ inr (e', ground arith)
        ];
      }
    ]

-- A claim that returns an interrupt `id` other than 0 takes one that was not claimed: some source of
-- this id has its line up, is enabled for the context and has the priority `pr` above 0. Afterwards
-- its line is down and `id` is claimed.
pub claim_takes :
    (idx : ℕ) (p : SifvePlic) (cells : Cells) (c : PlicContext) {id : ℕ} {p' : SifvePlic}
    {cells' : Cells}
    → get_elem? p.context idx ≡ some c
    → context_claim idx p cells ≡ some (id, p', cells')
    → id ≢ 0
    → (get_elem? p.claimed id ≡ some false)
      × (get_elem? p'.claimed id ≡ some true)
      × ((pr : ℕ) × (0 < pr)
          × Any
              (λ s.
                (is_candidate cells.lines c s ≡ some true)
                × (s.id ≡ id)
                × (get_elem? p.vec_irq_priority s.id ≡ some pr)
                × (cells'.lines s.pending ≡ false))
              p.irq_sources)
unfolding claim_best
claim_takes idx p cells c {id} {p'} {cells'} at h pos = elim r.outcome [
  | inl (e, zero_id, same, same') ↦ absurd (pos zero_id)
  | inr (free, result) ↦ elim r.selected.source [
    | inl none_yet ↦ absurd (ground arith)
    | inr from ↦ (
      ground arith,
      ground (
        arith,
        get_elem?-set_self p.claimed r.best.irq_id true (get_elem?-some p.claimed _ free),
      ),
      (
        r.best.irq_priority,
        ground (arith, r.selected.positive (inl refl)),
        Any-map (λ s w. (w.0, ground arith, w.2, ground arith)) p.irq_sources from,
      ),
    )
  ]
]
  where
    r : Claimed idx p cells c id p' cells'
    r = context_claim-Claimed idx p cells c at h

-- A claim that returns an interrupt `id` other than 0 takes the most urgent one: a source `s` whose
-- line is up and which the context enables has a lower priority than `id`, or the same priority and
-- an id that is not smaller.
pub claim_highest :
    (idx : ℕ) (p : SifvePlic) (cells : Cells) (c : PlicContext) {id : ℕ} {p' : SifvePlic}
    {cells' : Cells} (j : ℕ) (s : IrqSource) (q : ℕ)
    → get_elem? p.context idx ≡ some c
    → context_claim idx p cells ≡ some (id, p', cells')
    → id ≢ 0
    → get_elem? p.irq_sources j ≡ some s
    → is_candidate cells.lines c s ≡ some true
    → get_elem? p.vec_irq_priority s.id ≡ some q
    → (pr : ℕ) × (get_elem? p.vec_irq_priority id ≡ some pr) × ((q < pr) ⊎ ((q ≡ pr) × (id ≤ s.id)))
unfolding claim_best
claim_highest idx p cells c {id} {p'} {cells'} j s q at h pos member wanted rank = elim r.outcome [
  | inl (e, zero_id, same, same') ↦ absurd (pos zero_id)
  | inr (free, result) ↦ elim r.selected.source [
    | inl none_yet ↦ absurd (ground arith)
    | inr from ↦
        let same : id ≡ r.best.irq_id = ground arith in
        (
          r.best.irq_priority,
          subst (λ k. get_elem? p.vec_irq_priority k ≡ some r.best.irq_priority) (sym same)
              (stems p.irq_sources from),
          subst (λ k. (q < r.best.irq_priority) ⊎ ((q ≡ r.best.irq_priority) × (k ≤ s.id)))
              (sym same)
              (All-get (IsBeaten p.vec_irq_priority cells.lines c r.best) p.irq_sources j
                r.selected.beaten member wanted q rank),
        )
  ]
]
  where
    r : Claimed idx p cells c id p' cells'
    r = context_claim-Claimed idx p cells c at h

    stems :
        (items : List IrqSource)
        → Any (StemsFrom p.vec_irq_priority cells.lines c r.best) items
        → get_elem? p.vec_irq_priority r.best.irq_id ≡ some r.best.irq_priority
    stems [] x = absurd x
    stems (t ∷ items) (inl f) = rw (← f.1) f.2
    stems (t ∷ items) (inr f) = stems items f
