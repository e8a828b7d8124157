-- ===== src/Cache/Laws/Written.antt =====
-- What the data cache of src/rv64core/cache/cpu_dcache.rs gives back.
use riscv64_emu_rust.Base.{
  Post, Post-some, Post-step, Post-bind, Post-if, Option-cases, inl, inr, true, some, ℕ, ◌+◌, ◌%◌,
  ◌^◌, ◌<◌, leb, lt→ltb, ◌≡◌, refl, length,
}
use riscv64_emu_rust.Access.{Caches}
use riscv64_emu_rust.Bus.{Reply, ok}
use riscv64_emu_rust.Cache.{HashIter, get, remove_random, count, CacheLine, line_read, line_write}
use riscv64_emu_rust.Cache.Dcache.{
  CpuDcache, tag_of, offset, cacheline_base, cacheable, fill, write_back, make_room,
  alloc_cache_line, hit_read, hit_write, retry, read, write,
}
use riscv64_emu_rust.Cache.Laws.{get-insert, line_read-line_write}

module _ {M : Type 0} (order : HashIter) (bus : Caches M) (size : ℕ) where
  -- A write that finds its line, and what a read of the same place then finds.
  abbrev Written : ℕ → ℕ → ℕ → Reply ℕ × CpuDcache × M → Type 0
  Written addr word len (reply, c, m) =
      (reply ≡ ok 0)
      × (c.dcache_size ≡ size)
      × (line : CacheLine) × (get (tag_of addr) c.caches ≡ some line)
      × (line_read (offset addr) len line ≡ some (word % 256 ^ len))

  hit_write-Written :
      (addr word len : ℕ) (c : CpuDcache) (m : M) (line : CacheLine)
      → c.dcache_size ≡ size
      → Post (Written addr word len) (hit_write order bus addr word len c m line)
  unfolding hit_write
  hit_write-Written addr word len c m line s =
      Post-step (Written addr word len) (count c.hit) _ (λ hit e'.
        Post-bind (λ line'. line_read (offset addr) len line' ≡ some (word % 256 ^ len))
          (Written addr word len) (line_write (offset addr) word len line) _
          (line_read-line_write (offset addr) word len line)
          (λ line' back. (refl, s, line', get-insert (tag_of addr) line' c.caches, back)))

  abbrev Sized : CpuDcache × M → Type 0
  Sized (c, m) = c.dcache_size ≡ size

  alloc_cache_line-Sized :
      (addr : ℕ) (c : CpuDcache) (m : M)
      → c.dcache_size ≡ size
      → Post Sized (alloc_cache_line order bus addr c m)
  unfolding alloc_cache_line make_room
  alloc_cache_line-Sized addr c m s =
      Post-step Sized (fill order bus 8 (cacheline_base addr) m) _ (λ (words, m') e.
        Post-bind Sized Sized (make_room order bus c m') _
          (Post-if Sized (leb c.dcache_size (length c.caches)) _ _
            (λ full.
              Post-step Sized (remove_random order c.caches).0 _
                (λ line e'. Post-step Sized (write_back order bus 8 0 line m') _ (λ m'' e''. s)))
            (λ free. s))
          (λ p same. same))

  write-Written :
      (addr word len : ℕ) (c : CpuDcache) (m : M)
      → c.dcache_size ≡ size
      → cacheable c addr ≡ true
      → Post (Written addr word len) (write order bus addr word len c m)
  unfolding write retry
  write-Written addr word len c m s y = elim (Option-cases (get (tag_of addr) c.caches)) [
    | inr (line, e) ↦ rw (y, e) (hit_write-Written addr word len c m line s)
    | inl e ↦
        rw (y, e)
          (Post-step (Written addr word len) (count c.miss) _ (λ miss e'.
            Post-bind Sized (Written addr word len)
              (alloc_cache_line order bus addr (record c { miss = miss }) m) _
              (alloc_cache_line-Sized addr (record c { miss = miss }) m s)
              (λ (c', m') s'.
                Post-step (Written addr word len) (get (tag_of addr) c'.caches) _
                  (λ line found. hit_write-Written addr word len c' m' line s'))))
  ]

module _ {M : Type 0} (order : HashIter) (bus : Caches M) where
  -- A write to a cacheable address that ends without a panic, on a hit and after a miss alike, is
  -- answered with 0. A read of the same place then gives the word, cut to the bytes written, and it does
  -- so from the line: no line and nothing behind the cache changes, and one hit more is counted, for which
  -- the counter has room.
  pub read-write_cached :
      (addr word len : ℕ) (c c' : CpuDcache) (m m' : M) (reply : Reply ℕ)
      → cacheable c addr ≡ true
      → write order bus addr word len c m ≡ some (reply, c', m')
      → c'.hit + 1 < 2 ^ 64
      → (reply ≡ ok 0)
        × (read order bus addr len c' m'
            ≡ some (ok (word % 256 ^ len), record c' { hit = c'.hit + 1 }, m'))
  unfolding read retry hit_read cacheable
  read-write_cached addr word len c c' m m' reply y h room =
      let (answer, same, line, found, back) =
        Post-some (Written order bus c.dcache_size addr word len)
          (write order bus addr word len c m) (reply, c', m')
          (write-Written order bus c.dcache_size addr word len c m refl y) h in
      let y' : cacheable c' addr ≡ true = rw same y in
      (answer, rw (y', found, lt→ltb (c'.hit + 1) (2 ^ 64) room, back) refl)
