-- ===== src/Mmu/Examples.antt =====
-- Translations by src/rv64core/mmu/cpu_mmu.rs: a page table of which every entry is a leaf.
use riscv64_emu_rust.Base.{true, false, [], none, some, ℕ, ◌^◌, ◌≡◌, ◌⊎◌, refl, arith}
use riscv64_emu_rust.Base.Bits.{get_bit}
use riscv64_emu_rust.Access.{
  AccessType, load, store, throw_page_exception, throw_addr_misaligned_exception, value, raise,
  Caches,
}
use riscv64_emu_rust.Bus.{ok, check_aligned}
use riscv64_emu_rust.Trap.{supervisor, machine, store_page_fault}
use riscv64_emu_rust.Mmu.Words.{sv39}
use riscv64_emu_rust.Mmu.{
  Tlb, Mmu, invalid_pte, denied, check_sum_bit, is_misalign_superpage, needs_update,
}
use riscv64_emu_rust.Mmu.Walk.{translate, va_translation_step8}
use riscv64_emu_rust.Mmu.Laws.{translate-raise, translate-aligned}

abbrev va : ℕ
va = 0x12345678

abbrev pa : ℕ
pa = 0x92345678

-- Valid, readable, accessed, for a page of a gigabyte at 0x80000000.
abbrev table : ℕ → ℕ
table addr = 0x20000043

abbrev caches : Caches Unit
caches = record {
  dcache_read = λ addr len m. some (ok (table addr), m);
  dcache_write = λ addr word len m. some (ok 0, m);
  icache_read = λ addr len m. some (ok 0, m);
}

abbrev no_entries : Tlb Unit
no_entries = record {
  capacity = λ t. 0;
  clear = λ t. t;
  get = λ key t. (none, t);
  insert = λ key entry t. t;
  remove = λ key t. t;
  iter = λ t. [];
}

abbrev mmu_for : AccessType → Mmu Unit
mmu_for access_type = record {
  access_type = access_type;
  mstatus = 0;
  satp = 0x8000000000000001;
  cur_priv = supervisor;
  mmu_effective_priv = machine;
  satp_mode = sv39;
  tlb = tt;
  tlb_hit = 0;
  tlb_miss = 0;
}

abbrev before_load : Mmu Unit
before_load = mmu_for (load 0x12345678)

abbrev before_store : Mmu Unit
before_store = mmu_for (store 0x12345678)

abbrev walked : Mmu Unit → Mmu Unit
walked mmu = record mmu { mmu_effective_priv = supervisor }

loads :
    translate caches no_entries 0x12345678 (2 ^ 3) before_load tt
    ≡ some (value 0x92345678, walked before_load, tt)
unfolding translate check_aligned get_bit invalid_pte denied check_sum_bit is_misalign_superpage
    needs_update va_translation_step8
loads = refl

stores :
    translate caches no_entries 0x12345678 8 before_store tt
    ≡ some (raise (store_page_fault 0x12345678), walked before_store, tt)
unfolding translate check_aligned get_bit invalid_pte denied
stores = refl

translate-raise_example :
    ((check_aligned 0x12345678 8 ≡ some false)
      × (store_page_fault 0x12345678 ≡ throw_addr_misaligned_exception (store 0x12345678)))
    ⊎ ((check_aligned 0x12345678 8 ≡ some true)
        × (store_page_fault 0x12345678 ≡ throw_page_exception (store 0x12345678)))
translate-raise_example =
    translate-raise caches no_entries 0x12345678 8 (store_page_fault 0x12345678) before_store
      (walked before_store) tt tt stores

translate-aligned_example : check_aligned 0x92345678 (2 ^ 3) ≡ some true
translate-aligned_example =
    translate-aligned caches no_entries 0x12345678 3 0x92345678 before_load (walked before_load) tt
      tt (omega arith) loads
