-- ===== src/Rv64m/Laws.antt =====
-- The products and the quotients of src/rv64core/inst/inst_rv64m.rs.
use native.Mathlib.Nat.{
  add-mul-mod_self_right, div-add-mod, div-add-mod', mod_self, mod-eq_of_lt, div-le_self,
  mul-le-mul, mod-lt, pow-suc, one-le-pow,
}
use riscv64_emu_rust.Base.{
  ◌&&◌, ℕ, zero, suc, ◌+◌, ◌-◌, ◌*◌, ◌/◌, ◌%◌, ◌^◌, ◌==◌, ◌≡◌, ◌<◌, ◌≤◌, ◌∙◌, sym, ap, arith,
  Bool-cases, inl, inr, ◌⊎◌,
}
use riscv64_emu_rust.Rv64m.{
  is_neg, wrapping_div, wrapping_rem, mul, mulhu, div_at, rem_at, divu_at, remu_at,
}

congruent : (m x y j k : ℕ) → x + j * m ≡ y + k * m → y < m → x % m ≡ y
congruent m x y j k e h =
    sym (add-mul-mod_self_right x j m)
    ∙ ap (λ t. t % m) e
    ∙ add-mul-mod_self_right y k m
    ∙ mod-eq_of_lt h

neg_sum : (m x : ℕ) → x ≤ m → (k : ℕ) × ((m - x) % m + x ≡ k * m)
neg_sum m zero h = let e : m - 0 ≡ m = omega arith in (0, rw (e, mod_self m) (omega arith))
neg_sum m (suc x) h =
    let e : (m - suc x) % m ≡ m - suc x = mod-eq_of_lt (omega arith) in (1, rw e (omega arith))

-- `x` and `xm` are opposite, and `m` is a power of two: the four cases of the signs.
neg_pos :
    (m a am b q r nq nr k j : ℕ)
    → a < m
    → a + am ≡ m
    → am ≡ q * b + r
    → nq + q ≡ k * m
    → nr + r ≡ j * m
    → (nq * b + nr) % m ≡ a
neg_pos m a am b q r nq nr k j small op e eq er =
    congruent m (nq * b + nr) a 1 (k * b + j) (grind (arith, ap (λ (t : ℕ). t * b) eq)) small

pos_neg :
    (m a b bm q r nq k : ℕ)
    → a < m
    → b + bm ≡ m
    → a ≡ q * bm + r
    → nq + q ≡ k * m
    → (nq * b + r) % m ≡ a
pos_neg m a b bm q r nq k small op e eq =
    congruent m (nq * b + r) a (k * bm) nq
      (grind (arith, ap (λ (t : ℕ). t * bm) eq, ap (λ (t : ℕ). nq * t) op)) small

neg_neg :
    (m a am b bm q r nr j : ℕ)
    → a < m
    → a + am ≡ m
    → b + bm ≡ m
    → am ≡ q * bm + r
    → nr + r ≡ j * m
    → (q % m * b + nr) % m ≡ a
neg_neg m a am b bm q r nr j small opa opb e er =
    congruent m (q % m * b + nr) a 1 (q % m + q / m * bm + j)
      (grind (arith, ap (λ (t : ℕ). t * bm) (div-add-mod q m), ap (λ (t : ℕ). q % m * t) opb)) small

mod-le : (m x y : ℕ) → x ≤ m → x % y ≤ m
mod-le m x y h = omega (arith, div-add-mod' x y)

wrapping_law :
    (w a b : ℕ) → a < 2 ^ w → b < 2 ^ w → (wrapping_div w a b * b + wrapping_rem w a b) % 2 ^ w ≡ a
unfolding wrapping_div wrapping_rem
wrapping_law w a b ha hb =
    let m : ℕ = 2 ^ w in
    let am : ℕ = m - a in
    let bm : ℕ = m - b in
    elim (Bool-cases (is_neg w a)) [
      | inl p ↦ elim (Bool-cases (is_neg w b)) [
        | inl q ↦
            let (j, er) = neg_sum m (am % bm) (mod-le m am bm (omega arith)) in
            rw (p, q)
              (neg_neg m a am b bm (am / bm) (am % bm) ((m - am % bm) % m) j ha (omega arith)
                (omega arith) (sym (div-add-mod' am bm)) er)
        | inr q ↦
            let (j, er) = neg_sum m (am % b) (mod-le m am b (omega arith)) in
            let (k, eq) = neg_sum m (am / b) (omega (arith, div-le_self am b)) in
            rw (p, q)
              (neg_pos m a am b (am / b) (am % b) ((m - am / b) % m) ((m - am % b) % m) k j ha
                (omega arith) (sym (div-add-mod' am b)) eq er)
      ]
      | inr p ↦ elim (Bool-cases (is_neg w b)) [
        | inl q ↦
            let (k, eq) = neg_sum m (a / bm) (omega (arith, div-le_self a bm)) in
            rw (p, q)
              (pos_neg m a b bm (a / bm) (a % bm) ((m - a / bm) % m) k ha (omega arith)
                (sym (div-add-mod' a bm)) eq)
        | inr q ↦ rw (p, q, div-add-mod' a b) (mod-eq_of_lt ha)
      ]
    ]

-- The least integer over -1.
overflow_law : (m half : ℕ) → m ≡ half * 2 → half < m → (half * (m - 1) + 0) % m ≡ half
overflow_law m half e h =
    let n : ℕ = m - 1 in
    let up : n + 1 ≡ m = omega arith in
    congruent m (half * n + 0) half 1 half (grind (arith, ap (λ (t : ℕ). half * t) up)) h

double_half : (w : ℕ) → 0 < w → 2 ^ w ≡ 2 ^ (w - 1) * 2
double_half zero h = absurd (omega arith)
double_half (suc w) h = let e : suc w - 1 ≡ w = omega arith in rw e (pow-suc 2 w)

-- The quotient times the divisor plus the remainder is the dividend, modulo 2 ^ w, for all operands:
-- a divisor of 0 and the quotient that overflows are no exceptions.
pub div_at-rem_at :
    (w a b : ℕ) → 0 < w → a < 2 ^ w → b < 2 ^ w → (div_at w a b * b + rem_at w a b) % 2 ^ w ≡ a
unfolding div_at rem_at
div_at-rem_at w a b pos ha hb = elim (Bool-cases (b == 0)) [
  | inl z ↦
      let e : b ≡ 0 = ground arith in
      let sum : (2 ^ w - 1) * 0 + a ≡ a = omega arith in rw (z, e, sum) (mod-eq_of_lt ha)
  | inr z ↦ elim (Bool-cases ((a == 2 ^ (w - 1)) && (b == 2 ^ w - 1))) [
    | inl o ↦
        let ea : a ≡ 2 ^ (w - 1) = ground arith in
        let eb : b ≡ 2 ^ w - 1 = ground arith in
        let double : 2 ^ w ≡ 2 ^ (w - 1) * 2 = double_half w pos in
        rw (z, o, ea, eb)
          (overflow_law (2 ^ w) (2 ^ (w - 1)) double (omega (arith, one-le-pow (w - 1) 2)))
    | inr o ↦ rw (z, o) (wrapping_law w a b ha hb)
  ]
]

-- The unsigned quotient times the divisor plus the remainder is the dividend, and the remainder is
-- below the divisor unless that is 0.
pub divu_at-remu_at :
    (w a b : ℕ)
    → a < 2 ^ w
    → (divu_at w a b * b + remu_at w a b ≡ a) × ((remu_at w a b < b) ⊎ (b ≡ 0))
unfolding divu_at remu_at
divu_at-remu_at w a b ha = elim (Bool-cases (b == 0)) [
  | inl z ↦ let e : b ≡ 0 = ground arith in rw z (ground arith, inr e)
  | inr z ↦ rw z (div-add-mod' a b, inl (mod-lt a (ground arith)))
]

-- MULHU and MUL are the two halves of the product.
pub mulhu-mul : (a b : ℕ) → a < 2 ^ 64 → b < 2 ^ 64 → mulhu a b * 2 ^ 64 + mul a b ≡ a * b
unfolding mulhu mul
mulhu-mul a b ha hb = omega (
  arith,
  mul-le-mul {n₁ = a} {m₁ = b} {n₂ = 2 ^ 64 - 1} {m₂ = 2 ^ 64 - 1} (omega arith) (omega arith),
)
