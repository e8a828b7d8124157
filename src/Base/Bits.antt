-- ===== src/Base/Bits.antt =====
-- Words as native numbers: the bits of a word, read and written one at a time, and what the
-- bitwise operations do to them.
mod Step
pub mod Bounds
pub mod Comm
use Step.{bit_and_step, bit_or_step}
use native.Mathlib.Nat.{pow-suc, one-le-pow, mul_comm, div-div-eq-div-mul}
use Prim.Native.Nat.{
  ℕ, zero, suc, ◌+◌, ◌-◌, ◌*◌, ◌/◌, ◌%◌, ◌^◌, ◌≤◌, ◌<◌, bit_and, bit_or, bit_xor, bit_or-bitwise,
  bit_and-bitwise,
}
use mathlib.Core.Path.{◌≡◌, refl, ap, ◌∙◌}
use mathlib.Core.Bool.{Bool, true, false, not, ◌&&◌, ◌||◌}
use native.Mathlib.Omega.{arith}
use riscv64_emu_rust.Base.Tests.{◌==◌, to_nat, if◌then◌else◌, ltb}
pub use Step.{bit_xor_step, bit_and_step, bit_or_step}

-- Bit `k` of `x`: `(x >> k) & 1 == 1`.
unfoldable pub get_bit : ℕ → ℕ → Bool
get_bit zero x = x % 2 == 1
get_bit (suc k) x = get_bit k (x / 2)

-- `x` with bit `k` given anew.
unfoldable pub set_bit : ℕ → Bool → ℕ → ℕ
set_bit zero v x = x / 2 * 2 + to_nat v
set_bit (suc k) v x = set_bit k v (x / 2) * 2 + x % 2

-- A field of `w` bits from bit `lo` on, as a number.
unfoldable pub get_field : ℕ → ℕ → ℕ → ℕ
unfolding get_bit
get_field lo zero x = 0
get_field lo (suc w) x = to_nat (get_bit lo x) + 2 * get_field (suc lo) w x

unfoldable pub set_field : ℕ → ℕ → ℕ → ℕ → ℕ
unfolding set_bit
set_field lo zero v x = x
set_field lo (suc w) v x = set_field (suc lo) w (v / 2) (set_bit lo (v % 2 == 1) x)

-- `!x` at width `w`.
abbrev pub bit_not : ℕ → ℕ → ℕ
bit_not w x = 2 ^ w - 1 - x % 2 ^ w

half_of : (q v : ℕ) → v < 2 → (q * 2 + v) / 2 ≡ q
half_of q v h = omega arith

to_nat-lt : (v : Bool) → to_nat v < 2
to_nat-lt true = omega arith
to_nat-lt false = omega arith

pub get_bit-set_bit :
    (j k : ℕ) (v : Bool) (x : ℕ) → get_bit j (set_bit k v x) ≡ (if j == k then v else get_bit j x)
unfolding get_bit set_bit
get_bit-set_bit zero zero true x = ground arith
get_bit-set_bit zero zero false x = ground arith
get_bit-set_bit zero (suc k) v x = ground arith
get_bit-set_bit (suc j) zero v x =
    ap (get_bit j) (half_of (x / 2) (to_nat v) (to_nat-lt v)) ∙ ground arith
get_bit-set_bit (suc j) (suc k) v x =
    ap (get_bit j) (half_of (set_bit k v (x / 2)) (x % 2) (omega arith))
    ∙ get_bit-set_bit j k v (x / 2)
    ∙ ground arith

pub set_bit-lt : (w k : ℕ) (v : Bool) (x : ℕ) → k < w → x < 2 ^ w → set_bit k v x < 2 ^ w
unfolding set_bit
set_bit-lt zero k v x h p = absurd (omega arith)
set_bit-lt (suc w) zero v x h p = omega (arith, pow-suc 2 w, to_nat-lt v)
set_bit-lt (suc w) (suc k) v x h p =
    omega (arith, pow-suc 2 w, set_bit-lt w k v (x / 2) (omega arith) (omega (arith, pow-suc 2 w)))

pub get_bit-bit_and : (j a b : ℕ) → get_bit j (bit_and a b) ≡ (get_bit j a && get_bit j b)
unfolding get_bit
get_bit-bit_and zero a b = ground (arith, bit_and_step a b)
get_bit-bit_and (suc j) a b =
    rw (← get_bit-bit_and j (a / 2) (b / 2)) (ap (get_bit j) (omega (arith, bit_and_step a b)))

pub get_bit-bit_or : (j a b : ℕ) → get_bit j (bit_or a b) ≡ (get_bit j a || get_bit j b)
unfolding get_bit
get_bit-bit_or zero a b = ground (arith, bit_or_step a b)
get_bit-bit_or (suc j) a b =
    rw (← get_bit-bit_or j (a / 2) (b / 2)) (ap (get_bit j) (omega (arith, bit_or_step a b)))

odd_not : (m x : ℕ) → 0 < m → (m * 2 - 1 - x % (m * 2)) % 2 ≡ 1 - x % 2
odd_not m x h = omega arith

mod-half : (m x : ℕ) → 0 < m → x / 2 % m ≡ x % (m * 2) / 2
mod-half m x h = rw (mul_comm m 2) (grind (arith, ap (λ (t : ℕ). m * t) (div-div-eq-div-mul x 2 m)))

half_sub : (m r : ℕ) → 0 < m → r < m * 2 → (m * 2 - 1 - r) / 2 ≡ m - 1 - r / 2
half_sub m r p h = omega arith

half_not : (w x : ℕ) → bit_not (suc w) x / 2 ≡ bit_not w (x / 2)
half_not w x =
    let p : 0 < 2 ^ w = one-le-pow w 2 (omega arith) in
    rw (pow-suc 2 w)
      (half_sub (2 ^ w) (x % (2 ^ w * 2)) p (omega (arith, p)) ∙ rw (mod-half (2 ^ w) x p) refl)

pub get_bit-bit_not : (w j x : ℕ) → j < w → get_bit j (bit_not w x) ≡ not (get_bit j x)
unfolding get_bit
get_bit-bit_not zero j x h = absurd (omega arith)
get_bit-bit_not (suc w) zero x h = ground (arith, pow-suc 2 w, one-le-pow w 2, odd_not (2 ^ w) x)
get_bit-bit_not (suc w) (suc j) x h =
    ap (get_bit j) (half_not w x) ∙ get_bit-bit_not w j (x / 2) (omega arith)

pub get_bit-zero : (j : ℕ) → get_bit j 0 ≡ false
unfolding get_bit
get_bit-zero zero = refl
get_bit-zero (suc j) = get_bit-zero j

pub get_bit-two_pow : (j k : ℕ) → get_bit j (2 ^ k) ≡ (j == k)
unfolding get_bit
get_bit-two_pow zero zero = refl
get_bit-two_pow zero (suc k) = ground (arith, pow-suc 2 k)
get_bit-two_pow (suc j) zero = get_bit-zero j ∙ ground arith
get_bit-two_pow (suc j) (suc k) =
    ap (get_bit j) (omega (arith, pow-suc 2 k)) ∙ get_bit-two_pow j k ∙ ground arith

-- Words with the same bits are equal.
pub get_bit_ext :
    (w x y : ℕ) → x < 2 ^ w → y < 2 ^ w → ((j : ℕ) → j < w → get_bit j x ≡ get_bit j y) → x ≡ y
unfolding get_bit
get_bit_ext zero x y p q h = omega arith
get_bit_ext (suc w) x y p q h = ground (
  arith,
  get_bit_ext w (x / 2) (y / 2) (omega (arith, pow-suc 2 w)) (omega (arith, pow-suc 2 w))
      (λ j b. h (suc j) (omega arith)),
  h 0,
)

zero-bit_or : (z : ℕ) → bit_or 0 z ≡ z
zero-bit_or z = bit_or-bitwise 0 z

pub times_two_pow : (t m : ℕ) → t * 2 ^ suc m ≡ 2 * (t * 2 ^ m)
times_two_pow t m = omega (arith, ap (λ (k : ℕ). t * k) (pow-suc 2 m))

-- `|` of words with no bit in common is a sum: the one lies below bit `m`, the other above.
pub bit_or_disjoint : (m y z : ℕ) → y < 2 ^ m → bit_or y (z * 2 ^ m) ≡ y + z * 2 ^ m
bit_or_disjoint zero y z h = let e : y ≡ 0 = omega arith in rw e (zero-bit_or (z * 1) ∙ omega arith)
bit_or_disjoint (suc m) y z h = ground (
  arith,
  bit_or_step y (z * 2 ^ suc m),
  times_two_pow z m,
  pow-suc 2 m,
  bit_or_disjoint m (y / 2) z,
)

bit_or_comm_fuel : (n a b : ℕ) → a ≤ n → b ≤ n → bit_or a b ≡ bit_or b a
bit_or_comm_fuel zero a b p q =
    let e : a ≡ 0 = omega arith in let f : b ≡ 0 = omega arith in rw (e, f)
bit_or_comm_fuel (suc n) a b p q = ground (
  arith,
  bit_or_step a b,
  bit_or_step b a,
  bit_or_comm_fuel n (a / 2) (b / 2) (omega arith) (omega arith),
)

pub bit_or_comm : (a b : ℕ) → bit_or a b ≡ bit_or b a
bit_or_comm a b = bit_or_comm_fuel (a + b) a b (omega arith) (omega arith)

bit_and-zero_fuel : (n a : ℕ) → a ≤ n → bit_and a 0 ≡ 0
bit_and-zero_fuel zero a h = let e : a ≡ 0 = omega arith in rw e (bit_and-bitwise 0 0)
bit_and-zero_fuel (suc n) a h =
    omega (arith, bit_and_step a 0, bit_and-zero_fuel n (a / 2) (omega arith))

pub mod-digits : (m a : ℕ) → 0 < m → a % (m * 2) ≡ a / 2 % m * 2 + a % 2
mod-digits m a h = omega (arith, mod-half m a h)

-- A mask of the `k` low bits is a remainder.
pub bit_and_mask : (k a : ℕ) → bit_and a (2 ^ k - 1) ≡ a % 2 ^ k
bit_and_mask zero a = omega (arith, bit_and-zero_fuel a a (omega arith))
bit_and_mask (suc k) a =
    let p : 0 < 2 ^ k = one-le-pow k 2 (omega arith) in
    let half : (2 ^ k * 2 - 1) / 2 ≡ 2 ^ k - 1 = omega (arith, p) in
    let digit : (2 ^ k * 2 - 1) % 2 ≡ 1 = omega (arith, p) in
    rw (pow-suc 2 k, bit_and_step a (2 ^ k * 2 - 1), half, digit, bit_and_mask k (a / 2))
      (omega (arith, mod-digits (2 ^ k) a p))
