-- ===== src/Core/Examples.antt =====
-- Runs of src/rv64core/inst/inst_rv64a.rs and of the loads and stores of
-- src/rv64core/inst/inst_rv64i.rs on a hart in machine mode.
use riscv64_emu_rust.Base.{
  true, ◌+◌, ◌*◌, [], ◌∷◌, none, some, ◌>>=◌, if◌then◌else◌, ℕ, ◌^◌, ◌%◌, ◌==◌, ◌≡◌, refl, arith,
  replicate,
}
use riscv64_emu_rust.Access.{fetch, load, store, value, Caches}
use riscv64_emu_rust.Base.Bits.{get_bit}
use riscv64_emu_rust.Bus
use riscv64_emu_rust.Bus.{Bus, ok, check_area, check_aligned}
use riscv64_emu_rust.Bus.Laws.{memory_ops}
use riscv64_emu_rust.Bus.Examples.{strict_setter, memory, machine_bus, cells}
use riscv64_emu_rust.Gpr
use riscv64_emu_rust.Gpr.{Gpr}
use riscv64_emu_rust.Memory
use riscv64_emu_rust.Memory.{DeviceMemory}
use riscv64_emu_rust.Mmu.{Tlb, Mmu}
use riscv64_emu_rust.Mmu.Words.{bare, from_bits}
use riscv64_emu_rust.Plic.{Cells}
use riscv64_emu_rust.Rv64i.{parse_format_i}
use riscv64_emu_rust.Rv64m.{parse_format_r, sext}
use riscv64_emu_rust.Trap.{machine}
use riscv64_emu_rust.Core.{Core, write}
use riscv64_emu_rust.Core.LoadStore.{lb, sb, extended, parse_format_s, execute_load, execute_store}
use riscv64_emu_rust.Core.Atomic.{
  cleared, set_rd, stored, word, double, width_len, execute_lr, execute_sc, sign_extended, amoadd,
  amo_write, execute_amo,
}
use riscv64_emu_rust.Core.Fetch.{advance_pc, fetch_from_mem}
use riscv64_emu_rust.Core.Laws.{sc_once, lr-sc}
use riscv64_emu_rust.Core.Laws.Memory.{load-store, amo_lem}
use riscv64_emu_rust.Core.Uncached.{uncached}

abbrev no_entries : Tlb Unit
no_entries = record {
  capacity = λ t. 0;
  clear = λ t. t;
  get = λ key t. (none, t);
  insert = λ key entry t. t;
  remove = λ key t. t;
  iter = λ t. [];
}

-- Every read gives 7, and a write is dropped.
abbrev sevens : Caches Unit
sevens = record {
  dcache_read = λ addr len m. some (ok 7, m);
  dcache_write = λ addr wdata len m. some (ok 0, m);
  icache_read = λ addr len m. some (ok 7, m);
}

abbrev mmu : Mmu Unit
mmu = record {
  access_type = load 0;
  mstatus = 0;
  satp = 0;
  cur_priv = machine;
  mmu_effective_priv = machine;
  satp_mode = bare;
  tlb = tt;
  tlb_hit = 0;
  tlb_miss = 0;
}

-- `x1` holds an address of the memory and `x2` the word 0x80.
abbrev gpr : Gpr
gpr = record { regs = 0 ∷ 0x80000008 ∷ 0x80 ∷ replicate 29 0 }

abbrev hart : Core Unit Unit
hart = record { gpr = gpr; mmu = mmu; memory = tt; reservation = cleared }

-- `rd` is `x3`, `rs1` is `x1` and `rs2` is `x2`.
abbrev inst : ℕ
inst = 0x2081a3

abbrev failed : Core Unit Unit
failed = record hart { gpr = record { regs = 0 ∷ 0x80000008 ∷ 0x80 ∷ 1 ∷ replicate 28 0 } }

fails : execute_sc sevens no_entries word inst hart ≡ some (value tt, failed)
unfolding execute_sc
fails = refl

sc_once_example :
    execute_sc sevens no_entries double inst failed ≡ set_rd (parse_format_r inst).rd 1 failed
unfolding Gpr.read parse_format_r
sc_once_example =
    sc_once sevens no_entries word double inst inst 0x80000008 0x80 (value tt) hart failed fails
      refl refl (λ e. ground arith)

abbrev reserved : Core Unit Unit
reserved = record hart {
  gpr = record { regs = 0 ∷ 0x80000008 ∷ 0x80 ∷ 7 ∷ replicate 28 0 };
  mmu = record mmu { access_type = load 0x80000008 };
  reservation = 0x80000008;
}

reserves : execute_lr sevens no_entries word inst hart ≡ some (value tt, reserved)
unfolding execute_lr check_aligned from_bits get_bit
reserves = refl

lr-sc_example : execute_sc sevens no_entries word inst reserved ≡ (
    if 0x80000008 == 0x80000008
    then (write sevens no_entries 0x80000008 0x80
          (width_len word)
          (store 0x80000008)
          (record reserved { reservation = cleared })
        >>= stored (parse_format_r inst).rd)
    else set_rd (parse_format_r inst).rd 1 (record reserved { reservation = cleared }))
unfolding Gpr.read parse_format_r
lr-sc_example =
    lr-sc sevens no_entries word word inst inst 0x80000008 0x80000008 0x80 hart reserved refl
      reserves refl refl

abbrev on_bus : Core (Bus DeviceMemory × Cells) Unit
on_bus = record { gpr = gpr; mmu = mmu; memory = (machine_bus, cells); reservation = cleared }

-- `sb x2, 0(x1)` and `lb x3, 0(x1)`.
load-store_example :
    (core1 : Core (Bus DeviceMemory × Cells) Unit) × (execute_store
        (uncached strict_setter memory_ops)
        no_entries
        sb
        0x208023
        on_bus
      ≡ some (value tt, core1))
    × (core2 : Core (Bus DeviceMemory × Cells) Unit) × (execute_load
          (uncached strict_setter memory_ops)
          no_entries
          lb
          0x8183
          core1
        ≡ (Gpr.write (parse_format_i 0x8183).rd (extended lb 0x80) gpr >>= λ g.
            some (value tt, record core2 { gpr = g })))
    × (core2.memory ≡ core1.memory)
unfolding Gpr.read parse_format_s parse_format_i check_area check_aligned from_bits get_bit sext
load-store_example =
    load-store strict_setter no_entries sb lb 0x208023 0x8183 0x80000008 0x80000008 0x80 0x80000008
      bare on_bus [] memory [] (refl, refl, refl) refl refl refl refl refl refl (omega arith) refl
      tt refl refl (omega arith)

all_zero :
    Bus.read strict_setter memory_ops 0x80000008 4 machine_bus cells
    ≡ some (ok 0, machine_bus, cells)
unfolding Bus.read Bus.access check_area check_aligned Memory.do_read Memory.from_le_bytes
all_zero = refl

-- `amoadd.w x3, x2, (x1)`.
amo_lem_example :
    (core1 : Core (Bus DeviceMemory × Cells) Unit) × (execute_amo
        (uncached strict_setter memory_ops)
        no_entries
        word
        amoadd
        inst
        on_bus
      ≡ (Gpr.write (parse_format_r inst).rd (sign_extended word 0) gpr >>= λ g.
          some (value tt, record core1 { gpr = g })))
    × (Bus.read strict_setter memory_ops 0x80000008 4 core1.memory.0 core1.memory.1
        ≡ some (ok (amo_write word amoadd 0 0x80 % 256 ^ 4), core1.memory.0, core1.memory.1))
unfolding Gpr.read parse_format_r check_area check_aligned from_bits get_bit
amo_lem_example =
    amo_lem strict_setter no_entries word amoadd inst 0x80000008 0x80 0 bare on_bus machine_bus
      cells [] memory [] (refl, refl, refl) refl refl refl all_zero refl tt refl refl (omega arith)

-- Two halves of an instruction across a boundary of four bytes; 7 does not end in a compressed one.
fetches :
    fetch_from_mem sevens no_entries true 0x80000002 4 hart
    ≡ some (
      value (7 + 7 * 2 ^ 16),
      record hart { mmu = record mmu { access_type = fetch 0x80000004 } },
    )
unfolding fetch_from_mem check_aligned from_bits get_bit
fetches = refl

skips_four : advance_pc 0x80000002 0x70007 ≡ 0x80000006
unfolding advance_pc
skips_four = refl
