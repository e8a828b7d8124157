-- ===== src/Cache/Laws.antt =====
-- The hash maps and the lines of src/rv64core/cache/cpu_dcache.rs: what a change of them leaves.
pub mod Bound
pub mod Written
use riscv64_emu_rust.Base.{
  Post, Post-some, Post-step, Post-bind, Post-if, Post-assert, Bool-cases, Option-cases, inl, inr,
  Bool, true, false, not, List, [], ◌∷◌, Option, none, some, ◌>>=◌, assert, if◌then◌else◌, ℕ, suc,
  ◌+◌, ◌*◌, ◌%◌, ◌^◌, ◌≤◌, ◌<◌, ◌==◌, leb, ltb, lt→ltb, ◌≡◌, refl, ap, sym, ◌∙◌, arith, length,
}
use riscv64_emu_rust.Access.{Caches}
use riscv64_emu_rust.Bus.{Reply, ok}
use riscv64_emu_rust.Memory
use riscv64_emu_rust.Memory.{DeviceMemory}
use riscv64_emu_rust.Memory.Laws.{do_read-do_write}
use riscv64_emu_rust.Cache.{
  HashIter, get, delete, insert, next_key, remove_random, count, CacheLine, line_read, line_write,
}
use riscv64_emu_rust.Cache.Dcache.{
  CpuDcache, new, tag_of, offset, cacheline_base, cacheable, fill, write_back, make_room,
  alloc_cache_line, hit_read, hit_write, retry, read, write,
}

module _ {A : Type 0} where
  pub length-delete : (k : ℕ) (items : List (ℕ × A)) → length (delete k items) ≤ length items
  unfolding delete
  length-delete k [] = omega arith
  length-delete k ((j, v) ∷ items) = elim (Bool-cases (j == k)) [
    | inl e ↦ rw e (ground (arith, length-delete k items))
    | inr e ↦ rw e (ground (arith, length-delete k items))
  ]

  pub delete-< :
      (k : ℕ) (v : A) (items : List (ℕ × A))
      → get k items ≡ some v
      → length (delete k items) < length items
  unfolding delete get
  delete-< k v [] h = absurd (cc)
  delete-< k v ((j, w) ∷ items) h = elim (Bool-cases (j == k)) [
    | inl e ↦ rw e (ground (arith, length-delete k items))
    | inr e ↦
        let found : get k items ≡ some v = (rw e at h) in
        rw e (ground (arith, delete-< k v items found))
  ]

  pub get-insert : (k : ℕ) (v : A) (items : List (ℕ × A)) → get k (insert k v items) ≡ some v
  unfolding get insert
  get-insert k v items = let e : (k == k) ≡ true = ground arith in rw e refl

do_write-bounds :
    (addr word len : ℕ) (memory : DeviceMemory)
    → Post
        (λ p. (len ≤ 8) × (addr + len ≤ length memory.bytes))
        (Memory.do_write addr word len memory)
unfolding Memory.do_write
do_write-bounds addr word len memory =
    let Small : ℕ × DeviceMemory → Type 0 = λ p. (len ≤ 8) × (addr + len ≤ length memory.bytes) in
    Post-assert Small (leb len 8) _ (λ a.
      Post-assert Small (leb (addr + len) (length memory.bytes)) _
        (λ b. (ground arith, ground arith)))

do_write-back :
    (addr word len : ℕ) (memory : DeviceMemory)
    → Post
        (λ p. Memory.do_read addr len p.1 ≡ some (word % 256 ^ len))
        (Memory.do_write addr word len memory)
do_write-back addr word len memory = elim (Option-cases (Memory.do_write addr word len memory)) [
  | inl n ↦ rw n tt
  | inr (p, e) ↦
      let (small, fits) =
        Post-some _ (Memory.do_write addr word len memory) p (do_write-bounds addr word len memory)
          e in
      let (memory', wrote, back, same, rest) =
        do_read-do_write addr word len (addr + len) memory small fits (inr (omega arith)) in
      rw wrote back
]

-- A line that takes a write gives the bytes back.
pub line_read-line_write :
    (addr word len : ℕ) (line : CacheLine)
    → Post
        (λ line'. line_read addr len line' ≡ some (word % 256 ^ len))
        (line_write addr word len line)
unfolding line_read line_write
line_read-line_write addr word len line =
    Post-bind (λ p. Memory.do_read addr len p.1 ≡ some (word % 256 ^ len))
      (λ line'. line_read addr len line' ≡ some (word % 256 ^ len))
      (Memory.do_write addr word len (record { bytes = line.data_bytes })) _
      (do_write-back addr word len (record { bytes = line.data_bytes })) (λ (v, memory) back. back)
