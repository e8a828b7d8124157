-- ===== src/Cache/Examples.antt =====
-- A data cache of one line of src/rv64core/cache/cpu_dcache.rs over a bus that answers zeros.
use riscv64_emu_rust.Base.{
  true, false, [], ◌∷◌, ◌++◌, some, replicate, ℕ, ◌+◌, ◌/◌, ◌%◌, ◌^◌, ◌≡◌, refl, arith,
}
use riscv64_emu_rust.Access.{Caches}
use riscv64_emu_rust.Bus.{Reply, ok}
use riscv64_emu_rust.Memory
use riscv64_emu_rust.Cache.{HashIter}
use riscv64_emu_rust.Cache.Dcache.{CpuDcache, new, cacheable, read, write}
use riscv64_emu_rust.Cache.Laws.Bound.{IsBounded, reads, writes, run, run-IsBounded}
use riscv64_emu_rust.Cache.Laws.Written.{read-write_cached}

abbrev as_listed : HashIter
as_listed = record { iter = λ items. items }

abbrev zeros : Caches Unit
zeros = record {
  dcache_read = λ addr len m. some (ok 0, m);
  dcache_write = λ addr word len m. some (ok word, m);
  icache_read = λ addr len m. some (ok 0, m);
}

-- After a write of 2 bytes to an address that missed.
abbrev written : CpuDcache
written = record {
  caches =
      (
        0x80000000 / 2 ^ 6,
        record {
          dirty = true;
          lru = 1;
          tag = 0x80000000 / 2 ^ 6;
          data_bytes = replicate 8 0 ++ 0x34 ∷ 0x12 ∷ replicate 54 0;
        },
      )
      ∷ [];
  dcache_size = 1;
  hit = 1;
  miss = 1;
}

misses : write as_listed zeros 0x80000008 0x51234 2 (new 1) tt ≡ some (ok 0, written, tt)
unfolding write new Memory.overwrite
misses = refl

read-write_cached_example :
    (◌≡◌ {A = Reply ℕ} (ok 0) (ok 0))
    × (read as_listed zeros 0x80000008 2 written tt
        ≡ some (ok (0x51234 % 256 ^ 2), record written { hit = 1 + 1 }, tt))
unfolding cacheable new
read-write_cached_example =
    read-write_cached as_listed zeros 0x80000008 0x51234 2 (new 1) written tt tt (ok 0) refl misses
      (omega arith)

-- The line goes for another one.
abbrev replaced : CpuDcache
replaced = record {
  caches =
      (
        0x80000040 / 2 ^ 6,
        record { dirty = false; lru = 0; tag = 0x80000040 / 2 ^ 6; data_bytes = replicate 64 0 },
      )
      ∷ [];
  dcache_size = 1;
  hit = 2;
  miss = 2;
}

runs :
    run as_listed zeros (writes 0x80000008 0x51234 2 ∷ reads 0x80000040 8 ∷ []) (new 1) tt
    ≡ some (replaced, tt)
unfolding run new Memory.overwrite
runs = refl

run-IsBounded_example : IsBounded 1 replaced
run-IsBounded_example =
    run-IsBounded as_listed zeros 1 (writes 0x80000008 0x51234 2 ∷ reads 0x80000040 8 ∷ []) replaced
      tt tt runs
