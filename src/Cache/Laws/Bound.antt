-- ===== src/Cache/Laws/Bound.antt =====
-- How many lines the data cache of src/rv64core/cache/cpu_dcache.rs holds.
use riscv64_emu_rust.Base.{
  Post, Post-some, Post-step, Post-bind, Post-if, false, not, List, [], ◌∷◌, Option, none, some,
  ◌>>=◌, ℕ, ◌≤◌, ◌<◌, leb, ◌≡◌, refl, arith, length,
}
use riscv64_emu_rust.Access.{Caches}
use riscv64_emu_rust.Bus.{Reply}
use riscv64_emu_rust.Cache.{
  HashIter, get, insert, next_key, remove_random, count, CacheLine, line_read, line_write,
}
use riscv64_emu_rust.Cache.Dcache.{
  CpuDcache, new, tag_of, offset, cacheline_base, cacheable, fill, write_back, make_room,
  alloc_cache_line, hit_read, hit_write, retry, read, write,
}
use riscv64_emu_rust.Cache.Laws.{length-delete, delete-<}

-- As many lines as the size allows.
pub record IsBounded (size : ℕ) (c : CpuDcache) : Type 0 where
  pub same_size : c.dcache_size ≡ size
  pub bounded : length c.caches ≤ size

module _ {M : Type 0} (order : HashIter) (bus : Caches M) (size : ℕ) where
  abbrev Room : CpuDcache × M → Type 0
  Room (c, m) = (c.dcache_size ≡ size) × (length c.caches < size)

  make_room-Room :
      (c : CpuDcache) (m : M) → 0 < size → IsBounded size c → Post Room (make_room order bus c m)
  unfolding make_room remove_random
  make_room-Room c m pos b =
      let key : ℕ = next_key (order.iter c.caches) in
      Post-if Room (leb c.dcache_size (length c.caches)) _ _
        (λ full. Post-step Room (get key c.caches) _ (λ line e.
          Post-step Room (write_back order bus 8 0 line m) _ (λ m' e'. (
            b.same_size,
            let less = delete-< key line c.caches e in let le = b.bounded in omega arith,
          ))))
        (λ free. (b.same_size, let same = b.same_size in ground arith))

  abbrev Kept : CpuDcache × M → Type 0
  Kept (c, m) = IsBounded size c

  alloc_cache_line-IsBounded :
      (addr : ℕ) (c : CpuDcache) (m : M)
      → 0 < size
      → IsBounded size c
      → Post Kept (alloc_cache_line order bus addr c m)
  unfolding alloc_cache_line insert
  alloc_cache_line-IsBounded addr c m pos b =
      Post-step Kept (fill order bus 8 (cacheline_base addr) m) _ (λ (words, m') e.
        Post-bind Room Kept (make_room order bus c m') _ (make_room-Room c m' pos b)
          (λ (c', m'') (same, less).
            let le = length-delete (tag_of addr) c'.caches in
            record { same_size = same; bounded = omega arith }))

  -- After an access: the bound.
  abbrev Ends : Reply ℕ × CpuDcache × M → Type 0
  Ends (reply, c, m) = IsBounded size c

  -- An access that keeps the bound where it finds its line.
  abbrev Keeps : ℕ → (CpuDcache → M → CacheLine → Option (Reply ℕ × CpuDcache × M)) → Type 0
  Keeps addr act =
      (c : CpuDcache) (m : M) (line : CacheLine)
      → IsBounded size c
      → get (tag_of addr) c.caches ≡ some line
      → Post Ends (act c m line)

  retry-Ends :
      (addr : ℕ) (act : CpuDcache → M → CacheLine → Option (Reply ℕ × CpuDcache × M))
      → Keeps addr act
      → (c : CpuDcache) (m : M) (o : Option CacheLine) → 0 < size
      → IsBounded size c
      → get (tag_of addr) c.caches ≡ o
      → Post Ends (retry order bus addr act c m o)
  unfolding retry
  retry-Ends addr act k c m (some line) pos b e = k c m line b e
  retry-Ends addr act k c m none pos b e = Post-step Ends (count c.miss) _ (λ miss e'.
      Post-bind Kept Ends (alloc_cache_line order bus addr (record c { miss = miss }) m) _
        (alloc_cache_line-IsBounded addr (record c { miss = miss }) m pos
          (record { same_size = b.same_size; bounded = b.bounded }))
        (λ (c', m') b'.
          Post-step Ends (get (tag_of addr) c'.caches) _ (λ line found. k c' m' line b' found)))

  hit_read-Keeps : (addr len : ℕ) → Keeps addr (hit_read order bus addr len)
  unfolding hit_read
  hit_read-Keeps addr len c m line b e = Post-step Ends (count c.hit) _ (λ hit e'.
      Post-step Ends (line_read (offset addr) len line) _
        (λ word e''. record { same_size = b.same_size; bounded = b.bounded }))

  hit_write-Keeps : (addr word len : ℕ) → Keeps addr (hit_write order bus addr word len)
  unfolding hit_write insert
  hit_write-Keeps addr word len c m line b e = Post-step Ends (count c.hit) _ (λ hit e'.
      Post-step Ends (line_write (offset addr) word len line) _ (λ line' e''.
        let less = delete-< (tag_of addr) line c.caches e in
        let le = b.bounded in record { same_size = b.same_size; bounded = omega arith }))

  -- No line is there where the size is 0, which is not cacheable.
  cacheable-pos :
      (c : CpuDcache) (addr : ℕ) → IsBounded size c → not (cacheable c addr) ≡ false → 0 < size
  unfolding cacheable
  cacheable-pos c addr b h = let same = b.same_size in ground arith

  read-Ends :
      (addr len : ℕ) (c : CpuDcache) (m : M)
      → IsBounded size c
      → Post Ends (read order bus addr len c m)
  unfolding read
  read-Ends addr len c m b =
      Post-if Ends (not (cacheable c addr)) _ _
        (λ n. Post-step Ends (bus.dcache_read addr len m) _ (λ p e. b))
        (λ y.
          retry-Ends addr (hit_read order bus addr len) (hit_read-Keeps addr len) c m _
            (cacheable-pos c addr b y) b refl)

  write-Ends :
      (addr word len : ℕ) (c : CpuDcache) (m : M)
      → IsBounded size c
      → Post Ends (write order bus addr word len c m)
  unfolding write
  write-Ends addr word len c m b =
      Post-if Ends (not (cacheable c addr)) _ _
        (λ n. Post-step Ends (bus.dcache_write addr word len m) _ (λ p e. b))
        (λ y.
          retry-Ends addr (hit_write order bus addr word len) (hit_write-Keeps addr word len) c m _
            (cacheable-pos c addr b y) b refl)

pub data Access : Type 0 where
  reads : ℕ → ℕ → Access
  writes : ℕ → ℕ → ℕ → Access

module _ {M : Type 0} (order : HashIter) (bus : Caches M) where
  unfoldable pub run : List Access → CpuDcache → M → Option (CpuDcache × M)
  unfolding read write
  run [] c m = some (c, m)
  run (reads addr len ∷ accesses) c m =
      read order bus addr len c m >>= λ (_, c', m'). run accesses c' m'
  run (writes addr word len ∷ accesses) c m =
      write order bus addr word len c m >>= λ (_, c', m'). run accesses c' m'

  run-Kept :
      (size : ℕ) (accesses : List Access) (c : CpuDcache) (m : M)
      → IsBounded size c
      → Post (Kept order bus size) (run accesses c m)
  unfolding run
  run-Kept size [] c m b = b
  run-Kept size (reads addr len ∷ accesses) c m b =
      Post-bind (Ends order bus size) (Kept order bus size) (read order bus addr len c m) _
        (read-Ends order bus size addr len c m b)
        (λ (reply, c', m') b'. run-Kept size accesses c' m' b')
  run-Kept size (writes addr word len ∷ accesses) c m b =
      Post-bind (Ends order bus size) (Kept order bus size) (write order bus addr word len c m) _
        (write-Ends order bus size addr word len c m b)
        (λ (reply, c', m') b'. run-Kept size accesses c' m' b')

  -- A new data cache, after any reads and writes that end without a panic, has its size yet and no more
  -- lines than that, whatever the order of the hash map and the bus.
  pub run-IsBounded :
      (size : ℕ) (accesses : List Access) (c : CpuDcache) (m m' : M)
      → run accesses (new size) m ≡ some (c, m')
      → IsBounded size c
  unfolding new
  run-IsBounded size accesses c m m' h =
      Post-some (Kept order bus size) (run accesses (new size) m) (c, m')
        (run-Kept size accesses (new size) m (record { same_size = refl; bounded = omega arith })) h
