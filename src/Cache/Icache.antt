-- ===== src/Cache/Icache.antt =====
-- `CpuIcache` of src/rv64core/cache/cpu_icache.rs, and the two caches of
-- src/rv64core/cache/cache_system.rs as the hart calls them. `none` is a panic.
use riscv64_emu_rust.Base.{
  Bool, false, not, ◌&&◌, List, [], Option, none, some, ◌>>=◌, if◌then◌else◌, ℕ, ◌+◌, ◌%◌, ◌^◌,
  ◌==◌, leb, ltb, length,
}
use riscv64_emu_rust.Access.{Caches}
use riscv64_emu_rust.Bus.{Reply, ok, err}
use riscv64_emu_rust.Cache.{HashIter, get, insert, remove_random, count}
use riscv64_emu_rust.Cache.Dcache
use riscv64_emu_rust.Cache.Dcache.{CpuDcache}

pub record CpuIcache : Type 0 where
  pub inst_hash : List (ℕ × ℕ)
  pub icache_size : ℕ
  pub hit : ℕ
  pub miss : ℕ

unfoldable pub new : ℕ → CpuIcache
new size = record { inst_hash = []; icache_size = size; hit = 0; miss = 0 }

unfoldable pub cacheble : CpuIcache → ℕ → Bool
cacheble c addr =
    if c.icache_size == 0 then false else leb 0x80000000 addr && ltb addr (0x80000000 + 0x8000000)

abbrev pub clear : CpuIcache → CpuIcache
clear c = record c { inst_hash = [] }

module _ {M : Type 0} (order : HashIter) (bus : Caches M) where
  -- A word that the bus answered goes into the cache, its low 32 bits.
  abbrev pub keep : ℕ → CpuIcache → Reply ℕ × M → Option (Reply ℕ × CpuIcache × M)
  unfolding remove_random insert
  keep pc c (err e, m) = some (err e, c, m)
  keep pc c (ok word, m) = count c.miss >>= λ miss.
      let items =
        if leb c.icache_size (length c.inst_hash)
        then (remove_random order c.inst_hash).1
        else c.inst_hash in
      some (ok word, record c { miss = miss; inst_hash = insert pc (word % 2 ^ 32) items }, m)

  -- An entry answers for its address whatever the length.
  abbrev pub found : ℕ → ℕ → CpuIcache → M → Option ℕ → Option (Reply ℕ × CpuIcache × M)
  unfolding remove_random insert
  found pc len c m (some inst) = count c.hit >>= λ hit. some (ok inst, record c { hit = hit }, m)
  found pc len c m none = bus.icache_read pc len m >>= keep pc c

  unfoldable pub read : ℕ → ℕ → CpuIcache → M → Option (Reply ℕ × CpuIcache × M)
  unfolding cacheble get remove_random insert
  read pc len c m =
      if not (cacheble c pc)
      then (bus.icache_read pc len m >>= λ (reply, m'). some (reply, c, m'))
      else found pc len c m (get pc c.inst_hash)

pub record CacheSystem (M : Type 0) : Type 0 where
  pub icache : CpuIcache
  pub dcache : CpuDcache
  pub bus : M

module _ {M : Type 0} where
  unfoldable pub system_new : M → ℕ → ℕ → CacheSystem M
  unfolding new Dcache.new
  system_new bus icache_size dcache_size = record {
    icache = new icache_size;
    dcache = Dcache.new dcache_size;
    bus = bus;
  }

  abbrev pub with_dcache :
      CacheSystem M → Reply ℕ × CpuDcache × M → Option (Reply ℕ × CacheSystem M)
  with_dcache s (reply, c, m) = some (reply, record s { dcache = c; bus = m })

  abbrev pub with_icache :
      CacheSystem M → Reply ℕ × CpuIcache × M → Option (Reply ℕ × CacheSystem M)
  with_icache s (reply, c, m) = some (reply, record s { icache = c; bus = m })

module _ {M : Type 0} (order : HashIter) (bus : Caches M) where
  abbrev pub cached : Caches (CacheSystem M)
  unfolding read Dcache.read Dcache.write
  cached = record {
    dcache_read = λ addr len s. Dcache.read order bus addr len s.dcache s.bus >>= with_dcache s;
    dcache_write =
        λ addr word len s. Dcache.write order bus addr word len s.dcache s.bus >>= with_dcache s;
    icache_read = λ addr len s. read order bus addr len s.icache s.bus >>= with_icache s;
  }

  -- The icache first.
  unfoldable pub system_clear : CacheSystem M → Option (CacheSystem M)
  unfolding Dcache.clear
  system_clear s = Dcache.clear order bus s.dcache s.bus >>= λ (dcache, m).
      some (record s { icache = clear s.icache; dcache = dcache; bus = m })
