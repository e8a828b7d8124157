-- ===== src/Plic/Claim.antt =====
-- Claiming and completing an interrupt, in src/device/device_sifive_plic.rs.
use riscv64_emu_rust.Base.{
  Bool, true, false, List, [], ◌∷◌, Option, none, some, ◌>>=◌, ℕ, ltb, ◌==◌, get_elem?, set,
  if◌then◌else◌,
}
use riscv64_emu_rust.Plic.{IrqSource, PlicContext, SifvePlic, Cells, get_enable_by_id, update}

-- The candidate so far: `line` is the cell that `irq_pendding` refers to, `none` the fresh cell that
-- it starts with, which nothing else refers to.
pub record Best : Type 0 where
  pub irq_id : ℕ
  pub irq_priority : ℕ
  pub line : Option ℕ

abbrev pub no_candidate : Best
no_candidate = record { irq_id = 0; irq_priority = 0; line = none }

unfoldable pub better : IrqSource → ℕ → Best → Best
better item priority best =
    if ltb best.irq_priority priority
    then (record { irq_id = item.id; irq_priority = priority; line = some item.pending })
    else if priority == best.irq_priority
    then (if ltb item.id best.irq_id
        then (record { irq_id = item.id; irq_priority = priority; line = some item.pending })
        else best)
    else best

-- The filter: `&&` looks at the enable word only if the flag is up.
unfoldable pub is_candidate : (ℕ → Bool) → PlicContext → IrqSource → Option Bool
is_candidate lines c item = if lines item.pending then get_enable_by_id item.id c else some false

-- One round of the filter and of `for_each`.
unfoldable pub step_best : List ℕ → (ℕ → Bool) → PlicContext → IrqSource → Best → Option Best
step_best priorities lines c item best = do
  wanted ← is_candidate lines c item
  if wanted
      then (get_elem? priorities item.id >>= λ priority. some (better item priority best))
      else some best

unfoldable pub select : List ℕ → (ℕ → Bool) → PlicContext → List IrqSource → Best → Option Best
select priorities lines c [] best = some best
select priorities lines c (item ∷ items) best =
    step_best priorities lines c item best >>= select priorities lines c items

abbrev pub drop_line : Option ℕ → Cells → Cells
drop_line none cells = cells
drop_line (some line) cells = record cells { lines = update cells.lines line false }

-- The branch in which the candidate is not claimed yet.
unfoldable pub claim_best : ℕ → PlicContext → Best → SifvePlic → Cells → ℕ × SifvePlic × Cells
claim_best context_idx c best p cells = (
  best.irq_id,
  record p {
    claimed = set p.claimed best.irq_id true;
    context = set p.context context_idx (record c { claim = best.irq_id });
  },
  drop_line best.line cells,
)

unfoldable pub context_claim : ℕ → SifvePlic → Cells → Option (ℕ × SifvePlic × Cells)
context_claim context_idx p cells = do
  c ← get_elem? p.context context_idx
  best ← select p.vec_irq_priority cells.lines c p.irq_sources no_candidate
  taken ← get_elem? p.claimed best.irq_id
  some (if taken then (0, p, cells) else claim_best context_idx c best p cells)

unfoldable pub context_complete : ℕ → SifvePlic → Option SifvePlic
context_complete val p = do
  old ← get_elem? p.claimed val
  some (record p { claimed = set p.claimed val false })
