-- ===== src/Plic/Laws/Enable.antt =====
-- The enable registers of src/device/device_sifive_plic.rs through the bus.
use riscv64_emu_rust.Base.{
  true, false, some, ℕ, ◌+◌, ◌-◌, ◌*◌, ◌/◌, ◌%◌, ◌^◌, ◌<◌, ◌≡◌, ◌≢◌, ◌∙◌, refl, sym, arith, leb,
  ◌==◌, get_elem?, set, get_elem?-some, get_elem?-set_self, get_elem?-set_ne, if◌then◌else◌,
  bit_and,
}
use riscv64_emu_rust.Base.Bits.{bit_not, bit_and_step, bit_and_mask}
use riscv64_emu_rust.Plic.{PlicContext, SifvePlic, Cells}
use riscv64_emu_rust.Plic.Mmio.{
  Setter, context_enable_read, context_enable_write, do_read, do_write,
}

-- The mask that clears bit 0.
without_bit_0 : (x : ℕ) → bit_and x (bit_not 32 1) ≡ x % 2 ^ 32 / 2 * 2
without_bit_0 x =
    let top : bit_and (x / 2) 0x7fffffff ≡ x / 2 % 2 ^ 31 = bit_and_mask 31 (x / 2) in
    bit_and_step x 0xfffffffe ∙ rw top (ground arith)

-- What a word written to the enable register `j` of a context is stored as: there is no source 0.
abbrev pub enables : ℕ → ℕ → ℕ
enables j val = if j == 0 then val % 2 ^ 32 / 2 * 2 else val % 2 ^ 32

stored_lem :
    (j val : ℕ)
    → (if j == 0 then bit_and (val % 2 ^ 32) (bit_not 32 1) else val % 2 ^ 32) ≡ enables j val
stored_lem j val = rw (without_bit_0 (val % 2 ^ 32)) (ground arith)

-- Where the register `j` of context `i` is.
place :
    (i j : ℕ)
    → i < 0x3fc0
    → j < 32
    → (leb (0x2000 + 0x80 * i + 4 * j) 0xfff ≡ false)
      × (leb (0x2000 + 0x80 * i + 4 * j) 0x1fff ≡ false)
      × (leb (0x2000 + 0x80 * i + 4 * j) 0x1fffff ≡ true)
      × ((0x2000 + 0x80 * i + 4 * j - 0x2000) / 0x80 ≡ i)
      × ((0x2000 + 0x80 * i + 4 * j - 0x2000) % 0x80 / 4 ≡ j)
place i j hi hj = (ground arith, ground arith, ground arith, omega arith, omega arith)

-- A write of 4 bytes to an enable register of a context is read back from it as the word that was
-- written, cut to 32 bits, but that bit 0 of the first register reads 0. Any other context is as it
-- was, and so are the priorities, the pending bits and the claims. The context and the register exist.
pub enable_write-read :
    (s : Setter) (p : SifvePlic) (cells : Cells) (c : PlicContext) (i j k old val : ℕ)
    → get_elem? p.context i ≡ some c
    → get_elem? c.enable j ≡ some old
    → i < 0x3fc0
    → j < 32
    → k ≢ i
    → (p' : SifvePlic) × (do_write s (0x2000 + 0x80 * i + 4 * j) val 4 p ≡ some (0, p'))
      × (do_read (0x2000 + 0x80 * i + 4 * j) 4 p' cells ≡ some (enables j val, p', cells))
      × (get_elem? p'.context k ≡ get_elem? p.context k)
      × (p'.vec_irq_priority ≡ p.vec_irq_priority)
      × (p'.irq_pending ≡ p.irq_pending)
      × (p'.claimed ≡ p.claimed)
unfolding do_write do_read context_enable_write context_enable_read
enable_write-read s p cells c i j k old val at word hi hj other =
    let c' = record c { enable = set c.enable j (enables j val) } in
    let p' = record p { context = set p.context i c' } in
    let (a, b, d, e, f) = place i j hi hj in
    let at' : get_elem? p'.context i ≡ some c' =
      get_elem?-set_self p.context i c' (get_elem?-some p.context i at) in
    let word' : get_elem? c'.enable j ≡ some (enables j val) =
      get_elem?-set_self c.enable j (enables j val) (get_elem?-some c.enable j word) in
    (
      p',
      rw (a, b, d, e, f, at, word, stored_lem j val) refl,
      rw (a, b, d, e, f, at', word') refl,
      get_elem?-set_ne p.context i k c' (λ same. other (sym same)),
      refl,
      refl,
      refl,
    )
