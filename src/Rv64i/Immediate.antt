-- ===== src/Rv64i/Immediate.antt =====
-- The immediate operands that src/rv64core/inst/inst_base.rs decodes.
use riscv64_emu_rust.Base.{
  ℕ, zero, suc, ◌/◌, ◌%◌, ◌^◌, ◌+◌, ◌*◌, ap, ◌<◌, ◌≤◌, ltb, bit_and, ◌≡◌, ◌∙◌, refl, arith, inl,
  inr, Bool-cases,
}
use riscv64_emu_rust.Base.Bits.{bit_and_mask, bit_and_step, bit_or_comm, bit_or_disjoint}
use Prim.Native.Nat.{min}
use native.Mathlib.Nat.{pow-suc, mul_comm, mul_assoc, div-div-eq-div-mul}
use riscv64_emu_rust.Rv64m.{sext}
use riscv64_emu_rust.Rv64i.{parse_format_i, parse_format_u, sign_bits}

bit_and_half : (k x : ℕ) → bit_and (x / 2) (2 ^ suc k / 2) ≡ bit_and (x / 2) (2 ^ k)
bit_and_half k x = let e : 2 ^ suc k / 2 ≡ 2 ^ k = omega (arith, pow-suc 2 k) in rw e refl

bit_and-below : (k x : ℕ) → x < 2 ^ k → bit_and x (2 ^ k) ≡ 0
bit_and-below zero x h = let e : x ≡ 0 = omega arith in rw e refl
bit_and-below (suc k) x h = omega (
  arith,
  pow-suc 2 k,
  bit_and_step x (2 ^ suc k),
  bit_and_half k x ∙ bit_and-below k (x / 2) (omega (arith, pow-suc 2 k)),
)

bit_and-top : (k x : ℕ) → 2 ^ k ≤ x → x < 2 ^ suc k → bit_and x (2 ^ k) ≡ 2 ^ k
bit_and-top zero x p h = let e : x ≡ 1 = omega arith in rw e refl
bit_and-top (suc k) x p h = omega (
  arith,
  pow-suc 2 k,
  pow-suc 2 (suc k),
  bit_and_step x (2 ^ suc k),
  bit_and_half k x
      ∙ bit_and-top k (x / 2) (omega (arith, pow-suc 2 k))
          (omega (arith, pow-suc 2 k, pow-suc 2 (suc k))),
)

-- The immediate of an I-type word is its top twelve bits, as a signed integer.
pub parse_format_i-imm :
    (inst : ℕ) → inst < 2 ^ 32 → (parse_format_i inst).imm ≡ sext 12 64 (inst / 2 ^ 20)
unfolding parse_format_i sext
parse_format_i-imm inst h =
    let low : ℕ = inst / 2 ^ 20 % 2 ^ 11 in
    let field : bit_and (inst / 2 ^ 20) 0x7ff ≡ low = bit_and_mask 11 (inst / 2 ^ 20) in
    elim (Bool-cases (ltb inst (2 ^ 31))) [
      | inl e ↦
          let sign : sign_bits inst 0xfffff800 ≡ 0 =
            let up = bit_and-below 31 inst (ground arith) in rw up refl in
          rw (sign, field, bit_or_comm 0 low, bit_or_disjoint 11 low 0 (omega arith)) (ground arith)
      | inr e ↦
          let sign : sign_bits inst 0xfffff800 ≡ 0xfffff800 =
            let up = bit_and-top 31 inst (ground arith) h in rw up refl in
          rw
            (sign, field, bit_or_comm 0xfffff800 low, bit_or_disjoint 11 low 0x1fffff (omega arith))
            (ground arith)
    ]

half_of_double : (y p : ℕ) → y * (p * 2) / 2 ≡ y * p
half_of_double y p = omega (arith, mul_assoc y p 2)

double_even : (y p : ℕ) → y * (p * 2) % 2 ≡ 0
double_even y p = omega (arith, mul_assoc y p 2)

last_digit : (v p d : ℕ) → v * p * 2 + min d 0 ≡ v * (p * 2)
last_digit v p d = let e : min d 0 ≡ 0 = ground arith in omega (arith, mul_assoc v p 2, e)

-- The bits from `m` on.
bit_and_above : (m x y : ℕ) → bit_and x (y * 2 ^ m) ≡ bit_and (x / 2 ^ m) y * 2 ^ m
bit_and_above zero x y =
    let e : y * 2 ^ 0 ≡ y = omega arith in
    let f : x / 2 ^ 0 ≡ x = omega arith in rw (e, f) (omega arith)
bit_and_above (suc m) x y =
    let half : y * 2 ^ suc m / 2 ≡ y * 2 ^ m = rw (pow-suc 2 m) (half_of_double y (2 ^ m)) in
    let even : y * 2 ^ suc m % 2 ≡ 0 = rw (pow-suc 2 m) (double_even y (2 ^ m)) in
    let shift : x / 2 / 2 ^ m ≡ x / 2 ^ suc m =
      div-div-eq-div-mul x 2 (2 ^ m)
      ∙ ap (λ (d : ℕ). x / d) (rw (pow-suc 2 m) (mul_comm 2 (2 ^ m))) in
    bit_and_step x (y * 2 ^ suc m)
    ∙ rw (half, even, bit_and_above m (x / 2) y, shift, pow-suc 2 m)
        (last_digit (bit_and (x / (2 ^ m * 2)) y) (2 ^ m) (x % 2))

-- The immediate of a U-type word is its top twenty bits before twelve zeros, as a signed integer.
pub parse_format_u-imm :
    (inst : ℕ)
    → inst < 2 ^ 32
    → (parse_format_u inst).imm ≡ sext 32 64 (inst / 2 ^ 12 % 2 ^ 20 * 2 ^ 12)
unfolding parse_format_u sext
parse_format_u-imm inst h =
    let high : ℕ = inst / 2 ^ 12 % 2 ^ 20 in
    let masked : bit_and inst 0xfffff000 ≡ high * 2 ^ 12 =
      bit_and_above 12 inst 0xfffff
      ∙ ap (λ (t : ℕ). t * 2 ^ 12) (bit_and_mask 20 (inst / 2 ^ 12)) in
    elim (Bool-cases (ltb inst (2 ^ 31))) [
      | inl e ↦
          let sign : sign_bits inst 0xffffffff00000000 ≡ 0 =
            let up = bit_and-below 31 inst (ground arith) in rw up refl in
          rw
            (
              sign,
              masked,
              bit_or_comm 0 (high * 2 ^ 12),
              bit_or_disjoint 32 (high * 2 ^ 12) 0 (omega arith),
            )
            (ground arith)
      | inr e ↦
          let sign : sign_bits inst 0xffffffff00000000 ≡ 0xffffffff00000000 =
            let up = bit_and-top 31 inst (ground arith) h in rw up refl in
          rw
            (
              sign,
              masked,
              bit_or_comm 0xffffffff00000000 (high * 2 ^ 12),
              bit_or_disjoint 32 (high * 2 ^ 12) 0xffffffff (omega arith),
            )
            (ground arith)
    ]
