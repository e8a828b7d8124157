-- ===== src/Base/Fields.antt =====
-- Fields of words: a field reads what was written to it, and a write leaves the other bits alone.
use native.Mathlib.Nat.{pow-suc, one-le-pow}
use riscv64_emu_rust.Base.Tests.{◌==◌}
use riscv64_emu_rust.Base.Bits.{get_bit, set_bit, get_field, set_field, get_bit-set_bit, mod-digits}
use Prim.Native.Nat.{ℕ, zero, suc, ◌+◌, ◌/◌, ◌%◌, ◌^◌, ◌≤◌, ◌<◌}
use mathlib.Core.Path.{◌≡◌, refl, ◌∙◌}
use mathlib.Core.Logic.{◌⊎◌, inl}
use native.Mathlib.Omega.{arith}

pub get_bit-set_field :
    (j lo w v x : ℕ) → (j < lo) ⊎ (lo + w ≤ j) → get_bit j (set_field lo w v x) ≡ get_bit j x
unfolding set_field
get_bit-set_field j lo zero v x h = refl
get_bit-set_field j lo (suc w) v x h =
    get_bit-set_field j (suc lo) w (v / 2) (set_bit lo (v % 2 == 1) x) (omega arith)
    ∙ (rw (get_bit-set_bit j lo (v % 2 == 1) x) (ground arith))

pub get_field-set_field : (lo w v x : ℕ) → get_field lo w (set_field lo w v x) ≡ v % 2 ^ w
unfolding get_field set_field
get_field-set_field lo zero v x = omega arith
get_field-set_field lo (suc w) v x =
    rw
      (
        get_bit-set_field lo (suc lo) w (v / 2) (set_bit lo (v % 2 == 1) x) (inl (omega arith)),
        get_bit-set_bit lo lo (v % 2 == 1) x,
        get_field-set_field (suc lo) w (v / 2) (set_bit lo (v % 2 == 1) x),
      )
      (rw (pow-suc 2 w) (ground (arith, mod-digits (2 ^ w) v (one-le-pow w 2 (omega arith)))))
