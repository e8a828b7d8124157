-- ===== src/Mmu/Laws/Address.antt =====
-- The physical address that `TLBEntry::get_pa` of src/rv64core/mmu/vm_info.rs makes.
use native.Mathlib.Nat.{pow-suc, mul_assoc, mul_comm, mod-eq_of_lt, div-div-eq-div-mul}
use riscv64_emu_rust.Base.{
  some, ℕ, zero, suc, ◌+◌, ◌-◌, ◌*◌, ◌/◌, ◌%◌, ◌^◌, ◌<◌, ◌≡◌, refl, sym, ap, ◌∙◌, arith, bit_and,
  bit_or,
}
use riscv64_emu_rust.Base.Bits.{bit_and_step, bit_and_mask, bit_or_comm, bit_or_disjoint}
use riscv64_emu_rust.Mmu.Words.{StapMode, bare, sv39, sv48, sv57, sv64, va_ppn, va_field, offset}
use riscv64_emu_rust.Mmu.Pte
use riscv64_emu_rust.Mmu.{
  PageSize, p4k, p2m, p1g, p512g, p256t, invalid, zero_mask, get_mask, get_pa,
}

or_join : (m y z : ℕ) → y < 2 ^ m → bit_or (z * 2 ^ m) y ≡ z * 2 ^ m + y
or_join m y z h = bit_or_comm (z * 2 ^ m) y ∙ bit_or_disjoint m y z h ∙ omega arith

double : (n d : ℕ) → n * (d * 2) ≡ n * d * 2
double n d = sym (mul_assoc n d 2)

double_pow : (n k : ℕ) → n * 2 ^ suc k ≡ n * 2 ^ k * 2
double_pow n k = ap (λ (t : ℕ). n * t) (pow-suc 2 k) ∙ double n (2 ^ k)

half_div : (p k : ℕ) → p / 2 ^ suc k ≡ p / 2 / 2 ^ k
half_div p k =
    ap (λ (t : ℕ). p / t) (pow-suc 2 k ∙ mul_comm (2 ^ k) 2) ∙ sym (div-div-eq-div-mul p 2 (2 ^ k))

-- A mask of the high bits clears the low ones.
and_high : (k n p : ℕ) → p < 2 ^ n * 2 ^ k → bit_and p (2 ^ n * 2 ^ k - 2 ^ k) ≡ p / 2 ^ k * 2 ^ k
and_high zero n p h =
    ap (bit_and p) (omega arith) ∙ bit_and_mask n p ∙ mod-eq_of_lt (omega arith) ∙ omega arith
and_high (suc k) n p h =
    let small : p / 2 < 2 ^ n * 2 ^ k = omega (arith, pow-suc 2 k, double_pow (2 ^ n) k) in
    let half : (2 ^ n * 2 ^ suc k - 2 ^ suc k) / 2 ≡ 2 ^ n * 2 ^ k - 2 ^ k =
      omega (arith, pow-suc 2 k, double_pow (2 ^ n) k) in
    let even : (2 ^ n * 2 ^ suc k - 2 ^ suc k) % 2 ≡ 0 =
      omega (arith, pow-suc 2 k, double_pow (2 ^ n) k) in
    rw (bit_and_step p (2 ^ n * 2 ^ suc k - 2 ^ suc k), half, even, and_high k n (p / 2) small)
      (omega (arith, ap (λ (t : ℕ). t * 2 ^ suc k) (half_div p k), double_pow (p / 2 / 2 ^ k) k))

ppn_lem : (pte : ℕ) → Pte.ppn_all pte ≡ pte / 2 ^ 10 % 2 ^ 44
ppn_lem pte = bit_and_mask 44 (pte / 2 ^ 10)

-- The level of a leaf of the size.
abbrev pub level : PageSize → ℕ
level p4k = 0
level p2m = 1
level p1g = 2
level p512g = 3
level p256t = 4
level invalid = 0

-- The physical address as the specification gives it: the page number of the entry from the level of
-- the page on, and the address's own bits below.
abbrev pub pa_of : ℕ → ℕ → ℕ → ℕ
pa_of i pte va = pte / 2 ^ 10 % 2 ^ 44 / 2 ^ (9 * i) * 2 ^ (12 + 9 * i) + va % 2 ^ (12 + 9 * i)

va_ppn-zero : (mode : StapMode) (va : ℕ) → va_ppn mode 0 va ≡ some (va_field 0 va)
unfolding va_ppn
va_ppn-zero bare va = refl
va_ppn-zero sv39 va = refl
va_ppn-zero sv48 va = refl
va_ppn-zero sv57 va = refl
va_ppn-zero sv64 va = refl

va_ppn-one : (mode : StapMode) (va : ℕ) → va_ppn mode 1 va ≡ some (va_field 1 va)
unfolding va_ppn
va_ppn-one bare va = refl
va_ppn-one sv39 va = refl
va_ppn-one sv48 va = refl
va_ppn-one sv57 va = refl
va_ppn-one sv64 va = refl

p4k_lem :
    (mode : StapMode) (pte va asid : ℕ)
    → get_pa mode (record { pte = pte; page_size = p4k; asid = asid }) va ≡ some (pa_of 0 pte va)
unfolding get_pa
p4k_lem mode pte va asid = ap some (
    or_join 12 (offset va) (Pte.ppn_all pte) (omega arith)
    ∙ ap (λ (t : ℕ). t * 2 ^ 12 + offset va) (ppn_lem pte)
    ∙ omega arith)

p2m_join :
    (q v0 o : ℕ)
    → v0 < 2 ^ 9
    → o < 2 ^ 12
    → bit_or (bit_or (q * 2 ^ 9 * 2 ^ 12) (v0 * 2 ^ 12)) o ≡ q * 2 ^ 21 + v0 * 2 ^ 12 + o
p2m_join q v0 o hv ho =
    ap (λ (t : ℕ). bit_or (bit_or t (v0 * 2 ^ 12)) o) (omega arith)
    ∙ ap (λ (t : ℕ). bit_or t o) (or_join 21 (v0 * 2 ^ 12) q (omega arith) ∙ omega arith)
    ∙ or_join 12 o (q * 2 ^ 9 + v0) ho
    ∙ omega arith

p1g_join :
    (q v1 v0 o : ℕ)
    → v1 < 2 ^ 9
    → v0 < 2 ^ 9
    → o < 2 ^ 12
    → bit_or (bit_or (bit_or (q * 2 ^ 18 * 2 ^ 12) (v1 * 2 ^ 21)) (v0 * 2 ^ 12)) o
      ≡ q * 2 ^ 30 + v1 * 2 ^ 21 + v0 * 2 ^ 12 + o
p1g_join q v1 v0 o hw hv ho =
    ap (λ (t : ℕ). bit_or (bit_or (bit_or t (v1 * 2 ^ 21)) (v0 * 2 ^ 12)) o) (omega arith)
    ∙ ap (λ (t : ℕ). bit_or (bit_or t (v0 * 2 ^ 12)) o)
        (or_join 30 (v1 * 2 ^ 21) q (omega arith) ∙ omega arith)
    ∙ p2m_join (q * 2 ^ 9 + v1) v0 o hv ho
    ∙ omega arith

p2m_lem :
    (mode : StapMode) (pte va asid : ℕ)
    → get_pa mode (record { pte = pte; page_size = p2m; asid = asid }) va ≡ some (pa_of 1 pte va)
unfolding get_pa
p2m_lem mode pte va asid = rw (va_ppn-zero mode va) (
    ap some (
      ap
        (λ (t : ℕ).
          bit_or (bit_or (bit_and t (zero_mask 9) * 2 ^ 12) (va_field 0 va * 2 ^ 12)) (offset va))
        (ppn_lem pte)
      ∙ ap (λ (t : ℕ). bit_or (bit_or (t * 2 ^ 12) (va_field 0 va * 2 ^ 12)) (offset va))
          (and_high 9 55 (pte / 2 ^ 10 % 2 ^ 44) (omega arith))
      ∙ p2m_join (pte / 2 ^ 10 % 2 ^ 44 / 2 ^ 9) (va_field 0 va) (offset va) (omega arith)
          (omega arith)
      ∙ omega arith))

p1g_lem :
    (mode : StapMode) (pte va asid : ℕ)
    → get_pa mode (record { pte = pte; page_size = p1g; asid = asid }) va ≡ some (pa_of 2 pte va)
unfolding get_pa
p1g_lem mode pte va asid =
    rw (va_ppn-one mode va, va_ppn-zero mode va)
      (ap some (
        ap
          (λ (t : ℕ).
            bit_or
              (bit_or (bit_or (bit_and t (zero_mask 18) * 2 ^ 12) (va_field 1 va * 2 ^ 21))
                (va_field 0 va * 2 ^ 12))
              (offset va))
          (ppn_lem pte)
        ∙ ap
            (λ (t : ℕ).
              bit_or
                (bit_or (bit_or (t * 2 ^ 12) (va_field 1 va * 2 ^ 21)) (va_field 0 va * 2 ^ 12))
                (offset va))
            (and_high 18 46 (pte / 2 ^ 10 % 2 ^ 44) (omega arith))
        ∙ p1g_join (pte / 2 ^ 10 % 2 ^ 44 / 2 ^ 18) (va_field 1 va) (va_field 0 va) (offset va)
            (omega arith) (omega arith) (omega arith)
        ∙ omega arith))

-- A size that has a mask has a level up to 2.
pub get_pa-pa_of :
    (mode : StapMode) (pte va asid : ℕ) (size : PageSize) {mask : ℕ}
    → get_mask size ≡ some mask
    → get_pa mode (record { pte = pte; page_size = size; asid = asid }) va
      ≡ some (pa_of (level size) pte va)
unfolding get_mask
get_pa-pa_of mode pte va asid p4k h = p4k_lem mode pte va asid
get_pa-pa_of mode pte va asid p2m h = p2m_lem mode pte va asid
get_pa-pa_of mode pte va asid p1g h = p1g_lem mode pte va asid
get_pa-pa_of mode pte va asid p512g h = cc
get_pa-pa_of mode pte va asid p256t h = cc
get_pa-pa_of mode pte va asid invalid h = cc
