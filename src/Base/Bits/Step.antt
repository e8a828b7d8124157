-- ===== src/Base/Bits/Step.antt =====
-- One equation for the lowest binary digit of each bitwise operation. The library defines them by a
-- recursion on the digits whose fuel is the first operand: here more fuel is shown to change nothing.
use Prim.Native.Nat.{
  ℕ, zero, suc, ◌+◌, ◌-◌, ◌*◌, ◌/◌, ◌%◌, ◌≤◌, ◌<◌, min, max, bit_and, bit_or, bit_xor, differ,
  digits, bitwise, bit_and-bitwise, bit_or-bitwise, bit_xor-bitwise,
}
use mathlib.Core.Path.{◌≡◌, refl, ap, sym, ◌∙◌}
use native.Mathlib.Omega.{arith}

module _ (rest : ℕ → ℕ) (digit : ℕ → ℕ → ℕ) where
  one_more : (n a b : ℕ) → a ≤ n → digits rest digit (suc n) a b ≡ digits rest digit n a b
  one_more (suc n) (suc a) b h =
      ap (λ t. t * 2 + digit (suc a % 2) (b % 2)) (one_more n (suc a / 2) (b / 2) (omega arith))
  one_more zero (suc a) b h = absurd (omega arith)
  one_more (suc n) zero b h = refl
  one_more zero zero b h = refl

  many_more : (k n a b : ℕ) → a ≤ n → digits rest digit (n + k) a b ≡ digits rest digit n a b
  many_more zero n a b h = let none_more : n + 0 ≡ n = omega arith in rw none_more refl
  many_more (suc k) n a b h =
      let out : n + suc k ≡ suc (n + k) = omega arith in
      rw out (one_more (n + k) a b (omega arith) ∙ many_more k n a b h)

  lowest_digit :
      (a b : ℕ)
      → 0 < a
      → bitwise rest digit a b ≡ bitwise rest digit (a / 2) (b / 2) * 2 + digit (a % 2) (b % 2)
  lowest_digit zero b h = absurd (omega arith)
  lowest_digit (suc a) b h =
      let half : ℕ = suc a / 2 in
      let fuel : half + (a - half) ≡ a = omega arith in
      let enough : digits rest digit a half (b / 2) ≡ digits rest digit half half (b / 2) =
        ap (λ n. digits rest digit n half (b / 2)) (sym fuel)
        ∙ many_more (a - half) half half (b / 2) (omega arith) in
      ap (λ t. t * 2 + digit (suc a % 2) (b % 2)) enough

pub bit_and_step : (x y : ℕ) → bit_and x y ≡ bit_and (x / 2) (y / 2) * 2 + min (x % 2) (y % 2)
bit_and_step (suc x) y = simp bit_and-bitwise (lowest_digit (λ d. 0) min (suc x) y (omega arith))
bit_and_step zero y = simp bit_and-bitwise (omega arith)

pub bit_or_step : (x y : ℕ) → bit_or x y ≡ bit_or (x / 2) (y / 2) * 2 + max (x % 2) (y % 2)
bit_or_step (suc x) y = simp bit_or-bitwise (lowest_digit (λ d. d) max (suc x) y (omega arith))
bit_or_step zero y = simp bit_or-bitwise (omega arith)

pub bit_xor_step : (x y : ℕ) → bit_xor x y ≡ bit_xor (x / 2) (y / 2) * 2 + differ (x % 2) (y % 2)
bit_xor_step (suc x) y = simp bit_xor-bitwise (lowest_digit (λ d. d) differ (suc x) y (omega arith))
bit_xor_step zero y = simp bit_xor-bitwise (omega arith)
