-- ===== src/Plic/Tick.antt =====
-- `tick` of src/device/device_sifive_plic.rs: the pending words follow the flags of the devices, and
-- each context tells its hart whether an interrupt waits for it.
use riscv64_emu_rust.Base.{
  Bool, true, false, ◌&&◌, List, [], ◌∷◌, Option, some, ◌>>=◌, ℕ, ◌/◌, ◌%◌, ltb, get_elem?, set,
  if◌then◌else◌,
}
use riscv64_emu_rust.Plic.{
  IrqSource, PlicContext, SifvePlic, Cells, set_bool, get_enable_by_id, update_xip,
}

-- The loop that updates the pending bits.
unfoldable pub update_pending : List IrqSource → (ℕ → Bool) → List ℕ → Option (List ℕ)
update_pending [] lines words = some words
update_pending (item ∷ items) lines words = do
  word ← get_elem? words (item.id / 32)
  update_pending items lines
      (set words (item.id / 32) (set_bool (item.id % 32) (lines item.pending) word))

-- The test that `any` makes of a source.
unfoldable pub raises : List ℕ → (ℕ → Bool) → PlicContext → IrqSource → Option Bool
raises priorities lines c item = do
  enable_bit ← get_enable_by_id item.id c
  priority ← get_elem? priorities item.id
  some (lines item.pending && (enable_bit && ltb c.threshold priority))

-- `any` stops at the first source that passes.
unfoldable pub int_flag : List ℕ → (ℕ → Bool) → PlicContext → List IrqSource → Option Bool
int_flag priorities lines c [] = some false
int_flag priorities lines c (item ∷ items) =
    let rest = int_flag priorities lines c items in
    raises priorities lines c item >>= λ b. if b then some true else rest

-- The loop over the contexts.
unfoldable pub update_contexts : List ℕ → List IrqSource → List PlicContext → Cells → Option Cells
update_contexts priorities sources [] cells = some cells
update_contexts priorities sources (c ∷ cs) cells = do
  level ← int_flag priorities cells.lines c sources
  update_contexts priorities sources cs (update_xip level c cells)

unfoldable pub tick : SifvePlic → Cells → Option (SifvePlic × Cells)
tick p cells = do
  words ← update_pending p.irq_sources cells.lines p.irq_pending
  cells' ← update_contexts p.vec_irq_priority p.irq_sources p.context cells
  some (record p { irq_pending = words }, cells')
