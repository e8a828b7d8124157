-- ===== src/Plic/Mmio.antt =====
-- The registers of src/device/device_sifive_plic.rs as the bus reads and writes them.
--
-- The setter of a field of 3 bits is generated by the bitfield-struct crate. `fit` is what it stores
-- for a byte; a value that the field can hold is stored as it is, and no other is ever stored.
use riscv64_emu_rust.Base.{
  Option, none, some, ◌>>=◌, assert, ℕ, ◌-◌, ◌/◌, ◌%◌, ◌^◌, ◌<◌, ◌≡◌, leb, ◌==◌, get_elem?, set,
  if◌then◌else◌, bit_and,
}
use riscv64_emu_rust.Base.Bits.{bit_not}
use riscv64_emu_rust.Plic.{SifvePlic, Cells}
use riscv64_emu_rust.Plic.Claim.{context_claim, context_complete}

pub record Setter : Type 0 where
  pub fit : ℕ → Option ℕ
  pub fit_small : (v : ℕ) → v < 8 → fit v ≡ some v
  pub fit-lt : (v : ℕ) {u : ℕ} → fit v ≡ some u → u < 8

unfoldable pub priority_read : ℕ → SifvePlic → Option ℕ
priority_read offset p = get_elem? p.vec_irq_priority (offset / 4)

unfoldable pub pending_read : ℕ → SifvePlic → Option ℕ
pending_read offset p = get_elem? p.irq_pending (offset / 4)

-- The pending words are read-only.
unfoldable pub pending_write : ℕ → ℕ → SifvePlic → SifvePlic
pending_write irq_id val p = p

unfoldable pub context_enable_read : ℕ → SifvePlic → Option ℕ
context_enable_read offset p = do
  c ← get_elem? p.context (offset / 0x80)
  get_elem? c.enable (offset % 0x80 / 4)

-- Bit 0 of word 0 stays 0: there is no source 0.
unfoldable pub context_enable_write : ℕ → ℕ → SifvePlic → Option SifvePlic
context_enable_write offset val p =
    let context_idx = offset / 0x80 in
    let idx_word = offset % 0x80 / 4 in
    let val' = if idx_word == 0 then bit_and val (bit_not 32 1) else val in
    do
      c ← get_elem? p.context context_idx
      old ← get_elem? c.enable idx_word
      some (record p {
        context = set p.context context_idx (record c { enable = set c.enable idx_word val' });
      })

unfoldable pub context_read : ℕ → SifvePlic → Cells → Option (ℕ × SifvePlic × Cells)
context_read offset p cells =
    let context_idx = offset / 0x1000 in
    let context_offset = offset % 0x1000 in
    let threshold : Option (ℕ × SifvePlic × Cells) =
      get_elem? p.context context_idx >>= λ c. some (c.threshold, p, cells) in
    if context_offset == 0
    then threshold
    else if context_offset == 4
    then context_claim context_idx p cells
    else none

module _ (s : Setter) where
  unfoldable pub priority_write : ℕ → ℕ → SifvePlic → Option SifvePlic
  priority_write offset val p = do
    old ← get_elem? p.vec_irq_priority (offset / 4)
    priority ← s.fit (val % 256)
    some (record p { vec_irq_priority = set p.vec_irq_priority (offset / 4) priority })

  unfoldable pub context_write : ℕ → ℕ → SifvePlic → Option SifvePlic
  context_write offset val p =
      let context_idx = offset / 0x1000 in
      let context_offset = offset % 0x1000 in
      let threshold : Option SifvePlic = get_elem? p.context context_idx >>= λ c.
      s.fit (val % 256) >>= λ t.
      some (record p { context = set p.context context_idx (record c { threshold = t }) }) in
      if context_offset == 0
      then threshold
      else if context_offset == 4
      then context_complete val p
      else none

  -- The value that is written is cut to 32 bits. Every write returns 0.
  unfoldable pub do_write : ℕ → ℕ → ℕ → SifvePlic → Option (ℕ × SifvePlic)
  do_write addr data64 len p =
      let word = data64 % 2 ^ 32 in
      assert (len == 4) (
        (if leb addr 0xfff
          then priority_write addr word p
          else if leb addr 0x1fff
          then some (pending_write (addr - 0x1000) word p)
          else if leb addr 0x1fffff
          then context_enable_write (addr - 0x2000) word p
          else if leb addr 0xffffff
          then context_write (addr - 0x200000) word p
          else none)
        >>= λ p'. some (0, p'))

unfoldable pub do_read : ℕ → ℕ → SifvePlic → Cells → Option (ℕ × SifvePlic × Cells)
do_read addr len p cells =
    let plain : Option ℕ → Option (ℕ × SifvePlic × Cells) = λ r. r >>= λ v. some (v, p, cells) in
    assert (len == 4) (
      if leb addr 0xfff
      then plain (priority_read addr p)
      else if leb addr 0x1fff
      then plain (pending_read (addr - 0x1000) p)
      else if leb addr 0x1fffff
      then plain (context_enable_read (addr - 0x2000) p)
      else if leb addr 0xffffff
      then context_read (addr - 0x200000) p cells
      else none)
