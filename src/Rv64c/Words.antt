-- ===== src/Rv64c/Words.antt =====
-- The sign and the fields of an immediate of a compressed instruction as sums.
use riscv64_emu_rust.Base.{ℕ, zero, suc, ◌+◌, ◌*◌, ◌/◌, ◌%◌, ◌^◌, ◌<◌, ◌≡◌, ◌∙◌, arith, bit_or}
use native.Mathlib.Nat.{pow-suc, mul_assoc}
use riscv64_emu_rust.Base.Bits.{bit_or_step, bit_or_comm, bit_or_disjoint}
use riscv64_emu_rust.Rv64i.Alu.{shift_right_signed}
use riscv64_emu_rust.Rv64c.Formats.{sign_extended}
use riscv64_emu_rust.Rv64c.Expand.{sign_from}

pub sign_extended_6 : (x : ℕ) → x < 2 ^ 6 → sign_extended x 6 ≡ sign_from 6 64 x
unfolding sign_extended shift_right_signed
sign_extended_6 x h = ground arith

pub sign_extended_10 : (x : ℕ) → x < 2 ^ 10 → sign_extended x 10 ≡ sign_from 10 64 x
unfolding sign_extended shift_right_signed
sign_extended_10 x h = ground arith

pub sign_extended_18 : (x : ℕ) → x < 2 ^ 18 → sign_extended x 18 ≡ sign_from 18 64 x
unfolding sign_extended shift_right_signed
sign_extended_18 x h = ground arith

pub or_high : (w x y : ℕ) → y < 2 ^ w → bit_or (x * 2 ^ w) y ≡ y + x * 2 ^ w
or_high w x y h = bit_or_comm (x * 2 ^ w) y ∙ bit_or_disjoint w y x h

bit_or_double : (a b : ℕ) → bit_or (a * 2) (b * 2) ≡ bit_or a b * 2
bit_or_double a b =
    let half : (t : ℕ) → t * 2 / 2 ≡ t = λ t. omega arith in
    let even : (t : ℕ) → t * 2 % 2 ≡ 0 = λ t. omega arith in
    bit_or_step (a * 2) (b * 2) ∙ rw (half a, half b, even a, even b) (omega arith)

bit_or_above : (m a b : ℕ) → bit_or (a * 2 ^ m) (b * 2 ^ m) ≡ bit_or a b * 2 ^ m
bit_or_above zero a b =
    let one : (t : ℕ) → t * 2 ^ 0 ≡ t = λ t. omega arith in rw (one a, one b) (omega arith)
bit_or_above (suc m) a b =
    rw
      (
        pow-suc 2 m,
        ← mul_assoc a (2 ^ m) 2,
        ← mul_assoc b (2 ^ m) 2,
        bit_or_double (a * 2 ^ m) (b * 2 ^ m),
        bit_or_above m a b,
      )
      (mul_assoc (bit_or a b) (2 ^ m) 2)

-- Two fields, the higher one first, out of place.
pub or_at :
    (hi lo x y d : ℕ)
    → 2 ^ hi ≡ 2 ^ d * 2 ^ lo
    → y < 2 ^ d
    → bit_or (x * 2 ^ hi) (y * 2 ^ lo) ≡ (x * 2 ^ d + y) * 2 ^ lo
or_at hi lo x y d e h =
    rw (e, ← mul_assoc x (2 ^ d) (2 ^ lo), bit_or_above lo (x * 2 ^ d) y, or_high d x y h)
      (omega arith)
