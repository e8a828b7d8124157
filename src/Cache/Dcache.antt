-- ===== src/Cache/Dcache.antt =====
-- `CpuDcache` of src/rv64core/cache/cpu_dcache.rs, on any bus. `none` is a panic.
use riscv64_emu_rust.Base.{
  Bool, false, not, ◌&&◌, List, [], ◌∷◌, ◌++◌, Option, none, some, ◌>>=◌, if◌then◌else◌, ℕ, zero,
  suc, ◌+◌, ◌-◌, ◌*◌, ◌/◌, ◌%◌, ◌^◌, ◌==◌, leb, ltb, length,
}
use riscv64_emu_rust.Access.{Caches}
use riscv64_emu_rust.Bus.{Reply, ok, err}
use riscv64_emu_rust.Cache.{
  HashIter, get, insert, remove_random, count, CacheLine, line_read, line_write,
}
use riscv64_emu_rust.Memory.{to_le_bytes}

pub record CpuDcache : Type 0 where
  pub caches : List (ℕ × CacheLine)
  pub dcache_size : ℕ
  pub hit : ℕ
  pub miss : ℕ

unfoldable pub new : ℕ → CpuDcache
new dcache_size = record { caches = []; dcache_size = dcache_size; hit = 0; miss = 0 }

abbrev pub tag_of : ℕ → ℕ
tag_of addr = addr / 2 ^ 6

abbrev pub offset : ℕ → ℕ
offset addr = addr % 2 ^ 6

abbrev pub cacheline_base : ℕ → ℕ
cacheline_base addr = addr - addr % 2 ^ 6

unfoldable pub cacheable : CpuDcache → ℕ → Bool
cacheable c addr =
    if c.dcache_size == 0 then false else leb 0x80000000 addr && ltb addr (0x80000000 + 0x8000000)

abbrev pub unwrap : {A M : Type 0} → Reply A × M → Option (A × M)
unwrap (ok v, m) = some (v, m)
unwrap (err _, m) = none

-- `bus` holds the accesses of the bus: those of caches that are switched off.
module _ {M : Type 0} (order : HashIter) (bus : Caches M) where
  -- The bytes of `n` words of 8 bytes from an address on.
  unfoldable pub fill : ℕ → ℕ → M → Option (List ℕ × M)
  unfolding to_le_bytes
  fill zero addr m = some ([], m)
  fill (suc n) addr m = bus.dcache_read addr 8 m >>= unwrap >>= λ (word, m').
      fill n (addr + 8) m' >>= λ (rest, m''). some (to_le_bytes 8 word ++ rest, m'')

  -- The `n` words of a line from an offset on go back to the bus.
  unfoldable pub write_back : ℕ → ℕ → CacheLine → M → Option M
  unfolding line_read
  write_back zero i line m = some m
  write_back (suc n) i line m = line_read i 8 line >>= λ word.
      bus.dcache_write (line.tag * 2 ^ 6 + i) word 8 m >>= unwrap >>= λ (_, m').
      write_back n (i + 8) line m'

  -- A line leaves where the cache is full, dirty or not.
  unfoldable pub make_room : CpuDcache → M → Option (CpuDcache × M)
  unfolding remove_random write_back
  make_room c m =
      let (line, rest) = remove_random order c.caches in
      if leb c.dcache_size (length c.caches)
      then (line >>= λ wb. write_back 8 0 wb m >>= λ m'. some (record c { caches = rest }, m'))
      else some (c, m)

  unfoldable pub alloc_cache_line : ℕ → CpuDcache → M → Option (CpuDcache × M)
  unfolding fill make_room insert
  alloc_cache_line addr c m = fill 8 (cacheline_base addr) m >>= λ (words, m').
      make_room c m' >>= λ (c', m'').
      let line : CacheLine = record {
        dirty = false;
        lru = 0;
        tag = tag_of addr;
        data_bytes = words;
      } in
      some (record c' { caches = insert (tag_of addr) line c'.caches }, m'')

  unfoldable pub hit_read : ℕ → ℕ → CpuDcache → M → CacheLine → Option (Reply ℕ × CpuDcache × M)
  unfolding line_read
  hit_read addr len c m line = count c.hit >>= λ hit.
      line_read (offset addr) len line >>= λ word. some (ok word, record c { hit = hit }, m)

  unfoldable pub hit_write :
      ℕ → ℕ → ℕ → CpuDcache → M → CacheLine → Option (Reply ℕ × CpuDcache × M)
  unfolding line_write insert
  hit_write addr word len c m line = count c.hit >>= λ hit.
      line_write (offset addr) word len line >>= λ line'.
      some (ok 0, record c { hit = hit; caches = insert (tag_of addr) line' c.caches }, m)

  -- After a miss the access is tried again, with the line there.
  unfoldable pub retry :
      ℕ
      → (CpuDcache → M → CacheLine → Option (Reply ℕ × CpuDcache × M))
      → CpuDcache
      → M
      → Option CacheLine
      → Option (Reply ℕ × CpuDcache × M)
  unfolding alloc_cache_line get
  retry addr act c m (some line) = act c m line
  retry addr act c m none = count c.miss >>= λ miss.
      alloc_cache_line addr (record c { miss = miss }) m >>= λ (c', m').
      get (tag_of addr) c'.caches >>= act c' m'

  unfoldable pub read : ℕ → ℕ → CpuDcache → M → Option (Reply ℕ × CpuDcache × M)
  unfolding cacheable get retry hit_read
  read addr len c m =
      if not (cacheable c addr)
      then (bus.dcache_read addr len m >>= λ (reply, m'). some (reply, c, m'))
      else retry addr (hit_read addr len) c m (get (tag_of addr) c.caches)

  unfoldable pub write : ℕ → ℕ → ℕ → CpuDcache → M → Option (Reply ℕ × CpuDcache × M)
  unfolding cacheable get retry hit_write
  write addr word len c m =
      if not (cacheable c addr)
      then (bus.dcache_write addr word len m >>= λ (reply, m'). some (reply, c, m'))
      else retry addr (hit_write addr word len) c m (get (tag_of addr) c.caches)

  -- The dirty lines go back.
  unfoldable pub clean : List (ℕ × CacheLine) → M → Option M
  unfolding write_back
  clean [] m = some m
  clean ((_, line) ∷ items) m =
      (if line.dirty then write_back 8 0 line m else some m) >>= clean items

  unfoldable pub clear : CpuDcache → M → Option (CpuDcache × M)
  unfolding clean
  clear c m = clean (order.iter c.caches) m >>= λ m'. some (record c { caches = [] }, m')
