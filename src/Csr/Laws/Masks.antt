-- ===== src/Csr/Laws/Masks.antt =====
-- Bit by bit what a write through a mask leaves of a word, for the views of
-- src/rv64core/csr_regs.rs.
use riscv64_emu_rust.Base.{
  Bool, true, false, not, ◌&&◌, ◌||◌, ℕ, ◌<◌, ◌==◌, if◌then◌else◌, ◌≡◌, ◌≢◌, refl, ◌∙◌, arith,
  bit_and,
}
use riscv64_emu_rust.Base.Bits.{
  get_bit, set_bit, get_bit-set_bit, get_bit-bit_and, get_bit-bit_or, get_bit-bit_not, get_bit-zero,
  bit_not,
}
use riscv64_emu_rust.Csr.Xstatus
use riscv64_emu_rust.Csr.Xstatus.{write_with_mask, update_sd, fs, xs, vs}
use riscv64_emu_rust.Csr.File.{
  Config, sstatus_fields, sstatus_wmask, mstatus_rmask, sstatus_view, sip_mask,
}

masked : (m x y : Bool) → ((x && not m) || (y && m)) ≡ (if m then y else x)
masked true x y = ground arith
masked false x y = ground arith

pub get_bit-write_with_mask :
    (k old word mask : ℕ)
    → k < 64
    → get_bit k (write_with_mask old word mask)
      ≡ (if get_bit k mask then get_bit k word else get_bit k old)
unfolding write_with_mask
get_bit-write_with_mask k old word mask h =
    rw
      (
        get_bit-bit_or k (bit_and old (bit_not 64 mask)) (bit_and word mask),
        get_bit-bit_and k old (bit_not 64 mask),
        get_bit-bit_not 64 k mask h,
        get_bit-bit_and k word mask,
      )
      (masked (get_bit k mask) (get_bit k old) (get_bit k word))

ne-== : (j k : ℕ) → j ≢ k → (j == k) ≡ false
ne-== j k h = ground arith

pub get_bit-update_sd : (k x : ℕ) → k < 63 → get_bit k (update_sd x) ≡ get_bit k x
unfolding update_sd
get_bit-update_sd k x h =
    get_bit-set_bit k 63 (fs x == 3 || xs x == 3 || vs x == 3) x
    ∙ rw (ne-== k 63 (λ e. omega arith)) refl

-- A field that sstatus has not is kept.
pub status_kept :
    (k old word : ℕ) (config : Config)
    → k < 63
    → get_bit k sstatus_fields ≡ false
    → get_bit k (Xstatus.write (sstatus_view config) word old) ≡ get_bit k old
unfolding Xstatus.write sstatus_wmask
status_kept k old word config h f =
    get_bit-update_sd k (write_with_mask old word (sstatus_wmask config)) h
    ∙ (get_bit-write_with_mask k old word (sstatus_wmask config) (omega arith))
    ∙ rw (get_bit-bit_and k sstatus_fields (mstatus_rmask config), f) refl

set_bit_ne : (k j x : ℕ) → k ≢ j → get_bit k (set_bit j true x) ≡ get_bit k x
set_bit_ne k j x h = get_bit-set_bit k j true x ∙ rw (ne-== k j h) refl

sip_mask-ne : (k : ℕ) → k ≢ 1 → k ≢ 5 → k ≢ 9 → get_bit k sip_mask ≡ false
unfolding set_bit
sip_mask-ne k n1 n5 n9 =
    set_bit_ne k 5 (set_bit 1 true (set_bit 9 true 0)) n5
    ∙ set_bit_ne k 1 (set_bit 9 true 0) n1
    ∙ set_bit_ne k 9 0 n9
    ∙ get_bit-zero k

-- The bits but SSI, STI and SEI of an interrupt word.
pub sip_kept :
    (k old word : ℕ)
    → k < 64
    → k ≢ 1
    → k ≢ 5
    → k ≢ 9
    → get_bit k (write_with_mask old word sip_mask) ≡ get_bit k old
sip_kept k old word h n1 n5 n9 =
    get_bit-write_with_mask k old word sip_mask h ∙ rw (sip_mask-ne k n1 n5 n9) refl
