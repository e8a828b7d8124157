-- ===== src/Plic/Examples.antt =====
-- Runs of src/device/device_sifive_plic.rs: two sources, and a machine context that enables both.
use riscv64_emu_rust.Base.{
  Option, none, ltb, if◌then◌else◌, true, false, List, [], ◌∷◌, some, ℕ, ◌<◌, ◌≤◌, ◌≡◌, ◌≢◌, ◌↔◌,
  ◌⊎◌, refl, arith, All, Any, get_elem?, set, replicate,
}
use riscv64_emu_rust.Base.Bits.{get_bit, set_bit}
use riscv64_emu_rust.Plic.{
  IrqSource, PlicContext, SifvePlic, Cells, get_enable_by_id, get_pending_bit, set_bool,
  set_pending_bit, clear_pending_bit, update_xip, update,
}
use riscv64_emu_rust.Plic.Tick.{update_pending, raises, int_flag, update_contexts, tick}
use riscv64_emu_rust.Plic.Claim.{better, is_candidate, step_best, select, claim_best, context_claim}
use riscv64_emu_rust.Plic.Mmio.{Setter, do_read, do_write}
use riscv64_emu_rust.Plic.Laws.Enable.{enable_write-read}
use riscv64_emu_rust.Plic.Laws.{IsWellFormed, tick_total}
use riscv64_emu_rust.Plic.Laws.Level.{WaitsFor, tick_level}
use riscv64_emu_rust.Plic.Laws.Selection.{claim_takes, claim_highest}
use riscv64_emu_rust.Plic.Laws.Exclusion.{
  Event, line, ticked, claim, handle, handle_all, claimed_exclusive,
}

abbrev hart : PlicContext
hart = record { mmode = true; xip = 0; threshold = 0; enable = 0xffff ∷ 0 ∷ []; claim = 0 }

abbrev first_source : IrqSource
first_source = record { id = 3; pending = 7 }

abbrev second_source : IrqSource
second_source = record { id = 5; pending = 8 }

abbrev board : SifvePlic
board = record {
  irq_sources = first_source ∷ second_source ∷ [];
  vec_irq_priority = set (set (replicate 64 0) 3 1) 5 2;
  irq_pending = replicate 2 0;
  claimed = replicate 64 false;
  context = hart ∷ [];
}

-- Both lines are up.
abbrev both_up : Cells
both_up = record { lines = λ k. true; xips = λ k. 0 }

board-IsWellFormed : IsWellFormed board
board-IsWellFormed = record {
  small_ids = (omega arith, (omega arith, tt));
  ids_differ = (((λ e. omega arith), tt), (tt, tt));
  priorities = refl;
  words = refl;
  claims = refl;
  contexts = (refl, tt);
}

tick_total_example :
    (p' : SifvePlic) × (cells' : Cells) × (tick board both_up ≡ some (p', cells')) × IsWellFormed p'
tick_total_example = tick_total board both_up board-IsWellFormed

abbrev ticked_board : SifvePlic
ticked_board = record board { irq_pending = 0x28 ∷ 0 ∷ [] }

abbrev ticked_cells : Cells
ticked_cells = record both_up { xips = update (λ k. 0) 0 0x800 }

board_ticks : tick board both_up ≡ some (ticked_board, ticked_cells)
unfolding tick update_pending update_contexts int_flag raises get_enable_by_id get_pending_bit
    set_bool set_pending_bit clear_pending_bit update_xip set_bit
board_ticks = refl

tick_level_example :
    (get_bit 11 (ticked_cells.xips 0) ≡ true)
    ↔ Any (WaitsFor board both_up.lines hart) board.irq_sources
tick_level_example =
    tick_level board both_up {p' = ticked_board} {cells' = ticked_cells} [] hart [] refl tt
      board_ticks

-- The second source has the higher priority.
abbrev claimed_board : SifvePlic
claimed_board = record board {
  claimed = set board.claimed 5 true;
  context = record hart { claim = 5 } ∷ [];
}

abbrev claimed_cells : Cells
claimed_cells = record both_up { lines = update (λ k. true) 8 false }

board_claims : context_claim 0 board both_up ≡ some (5, claimed_board, claimed_cells)
unfolding context_claim claim_best select step_best is_candidate better get_enable_by_id
    get_pending_bit
board_claims = refl

claim_takes_example :
    (get_elem? board.claimed 5 ≡ some false)
    × (get_elem? claimed_board.claimed 5 ≡ some true)
    × ((pr : ℕ) × (0 < pr)
        × Any
            (λ s.
              (is_candidate both_up.lines hart s ≡ some true)
              × (s.id ≡ 5)
              × (get_elem? board.vec_irq_priority s.id ≡ some pr)
              × (claimed_cells.lines s.pending ≡ false))
            board.irq_sources)
claim_takes_example =
    claim_takes 0 board both_up hart {id = 5} {p' = claimed_board} {cells' = claimed_cells} refl
      board_claims (λ e. omega arith)

claim_highest_example :
    (pr : ℕ) × (get_elem? board.vec_irq_priority 5 ≡ some pr) × ((1 < pr) ⊎ ((1 ≡ pr) × (5 ≤ 3)))
unfolding is_candidate get_enable_by_id get_pending_bit
claim_highest_example =
    claim_highest 0 board both_up hart {id = 5} {p' = claimed_board} {cells' = claimed_cells} 0
      first_source 1 refl board_claims (λ e. omega arith) refl refl refl

-- Interrupt 5 is claimed; its device raises the line again, the bus ticks, and the hart claims.
abbrev events : List Event
events = line 8 true ∷ ticked ∷ claim 0 ∷ []

claimed_exclusive_example : All (λ (id : ℕ). id ≢ 5) (0 ∷ [])
unfolding handle_all handle tick update_pending update_contexts int_flag raises update_xip
    context_claim claim_best select step_best is_candidate better get_enable_by_id get_pending_bit
claimed_exclusive_example =
    claimed_exclusive events 5 claimed_board claimed_cells {ids = 0 ∷ []} (λ e. omega arith)
      (tt, (tt, (tt, tt))) refl refl

-- A setter that refuses what the field cannot hold.
abbrev strict : ℕ → Option ℕ
strict v = if ltb v 8 then some v else none

strict-lt : (v : ℕ) {u : ℕ} → strict v ≡ some u → u < 8
strict-lt v {u} h = ground arith

abbrev strict_setter : Setter
strict_setter = record { fit = strict; fit_small = λ v h. ground arith; fit-lt = strict-lt }

enable_write-read_example :
    (p' : SifvePlic) × (do_write strict_setter 0x2000 0x29 4 board ≡ some (0, p'))
    × (do_read 0x2000 4 p' both_up ≡ some (0x28, p', both_up))
    × (get_elem? p'.context 1 ≡ get_elem? board.context 1)
    × (p'.vec_irq_priority ≡ board.vec_irq_priority)
    × (p'.irq_pending ≡ board.irq_pending)
    × (p'.claimed ≡ board.claimed)
enable_write-read_example =
    enable_write-read strict_setter board both_up hart 0 0 1 0xffff 0x29 refl refl (omega arith)
      (omega arith) (λ e. omega arith)
