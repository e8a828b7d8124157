-- ===== src/Clint/Laws.antt =====
-- The timer and the memory-mapped registers of src/device/device_sifive_clint.rs.
pub mod Registers
use mathlib.Core.Path.{subst}
use riscv64_emu_rust.Base.{
  Bool, true, false, set, get_elem?-set_self, get_elem?-some, ◌-◌, ◌/◌, ◌>>=◌, List, [], ◌∷◌, some,
  ℕ, zero, suc, ◌+◌, ◌*◌, ◌%◌, ◌^◌, ◌<◌, ◌==◌, leb, get_elem?, arith, ◌≡◌, ◌≢◌, ◌⊎◌, refl, ap, ◌∙◌,
  Bool-cases, lt→ltb, inl, inr, All, ==_refl,
}
use riscv64_emu_rust.Base.Bits.{get_bit, get_bit-set_bit, bit_and_mask, bit_or_disjoint}
use riscv64_emu_rust.Csr.Xip.{mtip}
use riscv64_emu_rust.Plic.{Cells}
use riscv64_emu_rust.Clint.{
  ClintHart, Clint, set_xip, mtimecmp_write, mtimecmph_read, mtimecmph_write, mtime_inc,
  update_harts, tick, do_read, do_write, in_range,
}
use riscv64_emu_rust.Clint.Laws.Registers.{
  with_hart, with_hart_at, write_low, write_high, read_low, read_high, halves_high, halves_low,
  half_high, half_low,
}

-- The two halves of a comparison value written by words of 4 bytes through the registers of hart `i`,
-- whichever the hart. Where the low half comes first, both stand afterwards: the value reads as the two
-- halves together. Where the high half comes first, the write of the low one takes it away: the high
-- half reads 0, and the value is the low half alone.
pub low_write_loses_high :
    (clint : Clint) (cells : Cells) (i v w : ℕ) (hart : ClintHart)
    → get_elem? clint.harts i ≡ some hart
    → i < 4095
    → v < 2 ^ 32
    → w < 2 ^ 32
    → (kept : Clint) × (lost : Clint) × ((do_write (0x4000 + 8 * i) w 4 clint cells
          >>= λ (c, cells'). do_write (0x4004 + 8 * i) v 4 c cells')
        ≡ some (kept, cells))
      × ((do_write (0x4004 + 8 * i) v 4 clint cells >>= λ (c, cells').
            do_write (0x4000 + 8 * i) w 4 c cells')
          ≡ some (lost, cells))
      × (do_read (0x4004 + 8 * i) 4 kept cells ≡ some v)
      × (do_read (0x4000 + 8 * i) 8 kept cells ≡ some (w + v * 2 ^ 32))
      × (do_read (0x4004 + 8 * i) 4 lost cells ≡ some 0)
      × (do_read (0x4000 + 8 * i) 8 lost cells ≡ some w)
low_write_loses_high clint cells i v w hart at small hv hw =
    let low = mtimecmp_write w hart in
    let both = mtimecmph_write v low in
    let high = mtimecmph_write v hart in
    let clint_low = with_hart i low clint in
    let clint_high = with_hart i high clint in
    let kept = with_hart i both clint_low in
    let lost = with_hart i (mtimecmp_write w high) clint_high in
    let at_low = with_hart_at i hart low clint at in
    let at_high = with_hart_at i hart high clint at in
    let at_kept = with_hart_at i low both clint_low at_low in
    let at_lost = with_hart_at i high (mtimecmp_write w high) clint_high at_high in
    (
      kept,
      lost,
      rw (write_low i w clint cells hart at small)
          (write_high i v clint_low cells low at_low small),
      rw (write_high i v clint cells hart at small)
          (write_low i w clint_high cells high at_high small),
      read_high i 4 kept cells both at_kept small ∙ ap some (halves_high v low hv),
      read_low i 8 kept cells both at_kept small ∙ ap some (halves_low v w hart hv hw),
      read_high i 4 lost cells (mtimecmp_write w high) at_lost small
          ∙ ap some (half_high w high hw),
      read_low i 8 lost cells (mtimecmp_write w high) at_lost small ∙ ap some (half_low w high),
    )

-- A location that no hart of the list has keeps its word.
update_harts-other :
    (mtime : ℕ) (harts : List ClintHart) (cells : Cells) (l : ℕ)
    → All (λ hart. hart.xip ≢ l) harts
    → (update_harts mtime harts cells).xips l ≡ cells.xips l
unfolding update_harts
update_harts-other mtime [] cells l away = refl
update_harts-other mtime (hart ∷ harts) cells l (ne, away) =
    update_harts-other mtime harts (set_xip mtip (leb hart.mtimecmp mtime) hart cells) l away
    ∙ ground arith

-- The other bits of a word stay.
update_harts-bit :
    (mtime : ℕ) (harts : List ClintHart) (cells : Cells) (l k : ℕ)
    → k ≢ mtip
    → get_bit k ((update_harts mtime harts cells).xips l) ≡ get_bit k (cells.xips l)
unfolding update_harts
update_harts-bit mtime [] cells l k ne = refl
update_harts-bit mtime (hart ∷ harts) cells l k ne =
    let level : Bool = leb hart.mtimecmp mtime in
    update_harts-bit mtime harts (set_xip mtip level hart cells) l k ne
    ∙ elim (Bool-cases (l == hart.xip)) [
      | inl e ↦
          let same : l ≡ hart.xip = ground arith in
          rw e (get_bit-set_bit k 7 level (cells.xips hart.xip) ∙ ground arith)
      | inr e ↦ rw e refl
    ]

update_harts-lines :
    (mtime : ℕ) (harts : List ClintHart) (cells : Cells)
    → (update_harts mtime harts cells).lines ≡ cells.lines
unfolding update_harts
update_harts-lines mtime [] cells = refl
update_harts-lines mtime (hart ∷ harts) cells =
    update_harts-lines mtime harts (set_xip mtip (leb hart.mtimecmp mtime) hart cells)

-- No two harts share an interrupt-pending word.
unfoldable pub Separate : List ClintHart → Type 0
Separate [] = Unit
Separate (hart ∷ harts) = All (λ other. other.xip ≢ hart.xip) harts × Separate harts

injective : (a b : ClintHart) → some a ≡ some b → a ≡ b
injective a b h = cc

update_harts-level :
    (mtime : ℕ) (harts : List ClintHart) (cells : Cells) (i : ℕ) (hart : ClintHart)
    → Separate harts
    → get_elem? harts i ≡ some hart
    → get_bit mtip ((update_harts mtime harts cells).xips hart.xip) ≡ leb hart.mtimecmp mtime
unfolding update_harts Separate
update_harts-level mtime [] cells i hart apart at = absurd (ground arith)
update_harts-level mtime (first ∷ harts) cells zero hart (away, apart) at =
    let level : Bool = leb first.mtimecmp mtime in
    let cells' : Cells = set_xip mtip level first cells in
    let at_first : get_bit mtip ((update_harts mtime harts cells').xips first.xip) ≡ level =
      ap (get_bit mtip) (update_harts-other mtime harts cells' first.xip away)
      ∙ rw (==_refl first.xip) (get_bit-set_bit 7 7 level (cells.xips first.xip)) in
    subst (λ h. get_bit mtip ((update_harts mtime harts cells').xips h.xip) ≡ leb h.mtimecmp mtime)
      (injective first hart at) at_first
update_harts-level mtime (first ∷ harts) cells (suc i) hart (away, apart) at =
    update_harts-level mtime harts (set_xip mtip (leb first.mtimecmp mtime) first cells) i hart
      apart at

pub tick-outcome :
    (inc : ℕ) (clint : Clint) (cells : Cells)
    → clint.mtime + inc < 2 ^ 64
    → Separate clint.harts
    → (clint' : Clint) × (cells' : Cells) × (tick inc clint cells ≡ some (clint', cells'))
      × (clint'.mtime ≡ clint.mtime + inc)
      × (clint'.harts ≡ clint.harts)
      × ((i : ℕ) (hart : ClintHart)
          → get_elem? clint.harts i ≡ some hart
          → get_bit mtip (cells'.xips hart.xip) ≡ leb hart.mtimecmp (clint.mtime + inc))
      × ((l k : ℕ) → k ≢ mtip → get_bit k (cells'.xips l) ≡ get_bit k (cells.xips l))
      × ((l : ℕ) → All (λ other. other.xip ≢ l) clint.harts → cells'.xips l ≡ cells.xips l)
      × (cells'.lines ≡ cells.lines)
unfolding tick mtime_inc
tick-outcome inc clint cells small apart = (
  record clint { mtime = clint.mtime + inc },
  update_harts (clint.mtime + inc) clint.harts cells,
  rw (lt→ltb (clint.mtime + inc) (2 ^ 64) small) refl,
  refl,
  refl,
  λ i hart at. update_harts-level (clint.mtime + inc) clint.harts cells i hart apart at,
  λ l k ne. update_harts-bit (clint.mtime + inc) clint.harts cells l k ne,
  λ l no_hart. update_harts-other (clint.mtime + inc) clint.harts cells l no_hart,
  update_harts-lines (clint.mtime + inc) clint.harts cells,
)

-- A tick moves the time on and sets the timer interrupt of a hart to whether its time has come. It keeps
-- the harts with their comparison values, every device line, and bit `k` of the interrupt-pending word
-- `l`, which is any bit but the timer's, or any bit at all of a word that belongs to no hart. No two
-- harts share such a word, and the time stays within 64 bits.
pub tick_lem :
    (inc : ℕ) (clint : Clint) (cells : Cells) (i : ℕ) (hart : ClintHart) (l k : ℕ)
    → clint.mtime + inc < 2 ^ 64
    → Separate clint.harts
    → get_elem? clint.harts i ≡ some hart
    → (k ≢ mtip) ⊎ All (λ other. other.xip ≢ l) clint.harts
    → (clint' : Clint) × (cells' : Cells) × (tick inc clint cells ≡ some (clint', cells'))
      × (clint'.mtime ≡ clint.mtime + inc)
      × (clint'.harts ≡ clint.harts)
      × (get_bit mtip (cells'.xips hart.xip) ≡ leb hart.mtimecmp (clint.mtime + inc))
      × (get_bit k (cells'.xips l) ≡ get_bit k (cells.xips l))
      × (cells'.lines ≡ cells.lines)
tick_lem inc clint cells i hart l k small apart at ne =
    let (clint', cells', ran, time, harts, timer, others, away, lines) =
      tick-outcome inc clint cells small apart in
    let kept : get_bit k (cells'.xips l) ≡ get_bit k (cells.xips l) = elim ne [
      | inl other ↦ others l k other
      | inr no_hart ↦ ap (get_bit k) (away l no_hart)
    ] in
    (clint', cells', ran, time, harts, timer i hart at, kept, lines)
