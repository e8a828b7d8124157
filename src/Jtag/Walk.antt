-- ===== src/Jtag/Walk.antt =====
-- Walks of the TAP controller of src/dbg/jtag_state.rs under a sequence of TMS levels.
use riscv64_emu_rust.Base.{
  Bool, true, false, ◌||◌, List, [], ◌∷◌, ◌++◌, replicate, ◌≡◌, refl, ◌⊎◌, inl, inr, ◌∙◌, arith,
}
use riscv64_emu_rust.Jtag.{
  JtagState, test_logic_reset, run_test_idle, select_dr_scan, capture_dr, shift_dr, exit1_dr,
  pause_dr, exit2_dr, update_dr, select_ir_scan, capture_ir, shift_ir, exit1_ir, pause_ir, exit2_ir,
  update_ir, next_state, is_update_ir, is_update_dr, is_capture_ir, is_capture_dr,
}

-- The state after the rising edges at which TMS has the given levels.
abbrev pub walk : List Bool → JtagState → JtagState
walk [] s = s
walk (tms ∷ levels) s = walk levels (next_state s tms)

-- Whether the walk comes through a state that `p` accepts, the last one included.
abbrev pub visits : (JtagState → Bool) → List Bool → JtagState → Bool
visits p [] s = p s
visits p (tms ∷ levels) s = p s || visits p levels (next_state s tms)

-- The levels that lead from the reset state to each other state.
abbrev pub route : JtagState → List Bool
route test_logic_reset = []
route run_test_idle = false ∷ []
route select_dr_scan = false ∷ true ∷ []
route capture_dr = false ∷ true ∷ false ∷ []
route shift_dr = false ∷ true ∷ false ∷ false ∷ []
route exit1_dr = false ∷ true ∷ false ∷ true ∷ []
route pause_dr = false ∷ true ∷ false ∷ true ∷ false ∷ []
route exit2_dr = false ∷ true ∷ false ∷ true ∷ false ∷ true ∷ []
route update_dr = false ∷ true ∷ false ∷ true ∷ true ∷ []
route select_ir_scan = false ∷ true ∷ true ∷ []
route capture_ir = false ∷ true ∷ true ∷ false ∷ []
route shift_ir = false ∷ true ∷ true ∷ false ∷ false ∷ []
route exit1_ir = false ∷ true ∷ true ∷ false ∷ true ∷ []
route pause_ir = false ∷ true ∷ true ∷ false ∷ true ∷ false ∷ []
route exit2_ir = false ∷ true ∷ true ∷ false ∷ true ∷ false ∷ true ∷ []
route update_ir = false ∷ true ∷ true ∷ false ∷ true ∷ true ∷ []

walk-append : (a b : List Bool) (s : JtagState) → walk (a ++ b) s ≡ walk b (walk a s)
walk-append [] b s = refl
walk-append (t ∷ a) b s = walk-append a b (next_state s t)

five_reset : (s : JtagState) → walk (replicate 5 true) s ≡ test_logic_reset
unfolding next_state
five_reset test_logic_reset = refl
five_reset _ = refl

route_reaches : (t : JtagState) → walk (route t) test_logic_reset ≡ t
unfolding next_state
route_reaches test_logic_reset = refl
route_reaches _ = refl

-- From every state, five rising edges with TMS high reach the reset state, whatever levels were
-- applied before, and the route of any state leads on from there to that state.
pub walk-route :
    (before : List Bool) (s t : JtagState)
    → (walk (before ++ replicate 5 true) s ≡ test_logic_reset)
      × (walk (before ++ (replicate 5 true ++ route t)) s ≡ t)
walk-route before s t = (
  walk-append before (replicate 5 true) s ∙ five_reset (walk before s),
  walk-append before (replicate 5 true ++ route t) s
      ∙ walk-append (replicate 5 true) (route t) (walk before s)
      ∙ (rw (five_reset (walk before s)) (route_reaches t)),
)

-- The states of a scan of the data register, from its capture to its update, and likewise of the
-- instruction register.
abbrev pub in_dr : JtagState → Bool
in_dr capture_dr = true
in_dr shift_dr = true
in_dr exit1_dr = true
in_dr pause_dr = true
in_dr exit2_dr = true
in_dr update_dr = true
in_dr _ = false

abbrev pub in_ir : JtagState → Bool
in_ir capture_ir = true
in_ir shift_ir = true
in_ir exit1_ir = true
in_ir pause_ir = true
in_ir exit2_ir = true
in_ir update_ir = true
in_ir _ = false

visits_here :
    (p : JtagState → Bool) (levels : List Bool) (s : JtagState)
    → p s ≡ true
    → visits p levels s ≡ true
visits_here p [] s h = h
visits_here p (tms ∷ levels) s h = rw h

-- A walk from outside a region to a state inside it comes through a way in.
visits_entry :
    (inside entry exit : JtagState → Bool)
    → ((s : JtagState) (tms : Bool)
        → inside s ≡ false
        → (inside (next_state s tms) ≡ false) ⊎ (entry (next_state s tms) ≡ true))
    → ((s : JtagState) → exit s ≡ true → inside s ≡ true)
    → (levels : List Bool) (s : JtagState) → inside s ≡ false
    → exit (walk levels s) ≡ true
    → visits entry levels s ≡ true
visits_entry inside entry exit enter within [] s h u = ground (arith, within s u)
visits_entry inside entry exit enter within (tms ∷ levels) s h u = elim (enter s tms h) [
  | inl out ↦
      ground (arith, visits_entry inside entry exit enter within levels (next_state s tms) out u)
  | inr at ↦ ground (arith, visits_here entry levels (next_state s tms) at)
]

enter_dr :
    (s : JtagState) (tms : Bool)
    → in_dr s ≡ false
    → (in_dr (next_state s tms) ≡ false) ⊎ (is_capture_dr (next_state s tms) ≡ true)
unfolding next_state is_capture_dr
enter_dr s tms h = ground arith

enter_ir :
    (s : JtagState) (tms : Bool)
    → in_ir s ≡ false
    → (in_ir (next_state s tms) ≡ false) ⊎ (is_capture_ir (next_state s tms) ≡ true)
unfolding next_state is_capture_ir
enter_ir s tms h = ground arith

update_dr_inside : (s : JtagState) → is_update_dr s ≡ true → in_dr s ≡ true
unfolding is_update_dr
update_dr_inside s h = ground arith

update_ir_inside : (s : JtagState) → is_update_ir s ≡ true → in_ir s ≡ true
unfolding is_update_ir
update_ir_inside s h = ground arith

-- A walk that starts outside a scan of the data register and ends in its update has come through
-- its capture.
pub update_dr-capture_dr :
    (levels : List Bool) (s : JtagState)
    → in_dr s ≡ false
    → is_update_dr (walk levels s) ≡ true
    → visits is_capture_dr levels s ≡ true
update_dr-capture_dr = visits_entry in_dr is_capture_dr is_update_dr enter_dr update_dr_inside

-- A walk that starts outside a scan of the instruction register and ends in its update has come
-- through its capture.
pub update_ir-capture_ir :
    (levels : List Bool) (s : JtagState)
    → in_ir s ≡ false
    → is_update_ir (walk levels s) ≡ true
    → visits is_capture_ir levels s ≡ true
update_ir-capture_ir = visits_entry in_ir is_capture_ir is_update_ir enter_ir update_ir_inside
