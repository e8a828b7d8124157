-- ===== src/Jtag/Examples.antt =====
-- A run of src/dbg/jtag_state.rs.
use riscv64_emu_rust.Base.{true, false, [], ◌∷◌, ◌++◌, replicate, ◌≡◌}
use riscv64_emu_rust.Jtag.{test_logic_reset, pause_dr, shift_ir}
use riscv64_emu_rust.Jtag.Walk.{walk, route, walk-route}

walk-route_example :
    (walk ((true ∷ false ∷ []) ++ replicate 5 true) shift_ir ≡ test_logic_reset)
    × (walk ((true ∷ false ∷ []) ++ (replicate 5 true ++ route pause_dr)) shift_ir ≡ pause_dr)
walk-route_example = walk-route (true ∷ false ∷ []) shift_ir pause_dr
