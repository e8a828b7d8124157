-- ===== src/Clint/Examples.antt =====
-- Runs of src/device/device_sifive_clint.rs.
use riscv64_emu_rust.Base.{false, [], ◌∷◌, some, ◌+◌, ◌*◌, ◌^◌, ◌>>=◌, inl, ◌≡◌, refl, leb, arith}
use riscv64_emu_rust.Base.Bits.{get_bit}
use riscv64_emu_rust.Csr.Xip.{mtip}
use riscv64_emu_rust.Plic.{Cells}
use riscv64_emu_rust.Clint.{Clint, tick, do_read, do_write}
use riscv64_emu_rust.Clint.Laws.{Separate, tick_lem, low_write_loses_high}

abbrev two_harts : Clint
two_harts = record {
  harts = record { mtimecmp = 5; xip = 0 } ∷ record { mtimecmp = 100; xip = 1 } ∷ [];
  mtime = 4;
}

abbrev no_cells : Cells
no_cells = record { lines = λ k. false; xips = λ k. 0 }

two_harts-Separate : Separate (two_harts.harts)
unfolding Separate
two_harts-Separate = (((λ e. omega arith), tt), (tt, tt))

tick_lem_example :
    (clint' : Clint) × (cells' : Cells) × (tick 2 two_harts no_cells ≡ some (clint', cells'))
    × (clint'.mtime ≡ 4 + 2)
    × (clint'.harts ≡ two_harts.harts)
    × (get_bit mtip (cells'.xips 0) ≡ leb 5 (4 + 2))
    × (get_bit 3 (cells'.xips 1) ≡ get_bit 3 0)
    × (cells'.lines ≡ no_cells.lines)
tick_lem_example =
    tick_lem 2 two_harts no_cells 0 (record { mtimecmp = 5; xip = 0 }) 1 3 (omega arith)
      two_harts-Separate refl (inl (λ e. omega arith))

low_write_loses_high_example :
    (kept : Clint) × (lost : Clint) × ((do_write 0x4008 7 4 two_harts no_cells >>= λ (c, cells).
    do_write 0x400c 0xabcd 4 c cells)
      ≡ some (kept, no_cells))
    × ((do_write 0x400c 0xabcd 4 two_harts no_cells >>= λ (c, cells). do_write 0x4008 7 4 c cells)
        ≡ some (lost, no_cells))
    × (do_read 0x400c 4 kept no_cells ≡ some 0xabcd)
    × (do_read 0x4008 8 kept no_cells ≡ some (7 + 0xabcd * 2 ^ 32))
    × (do_read 0x400c 4 lost no_cells ≡ some 0)
    × (do_read 0x4008 8 lost no_cells ≡ some 7)
low_write_loses_high_example =
    low_write_loses_high two_harts no_cells 1 0xabcd 7 (record { mtimecmp = 100; xip = 1 }) refl
      (omega arith) (omega arith) (omega arith)
