-- ===== src/Jtag/Shifter.antt =====
-- The shift registers of src/dbg/jtag_driver.rs. `none` is a panic: a shift by the width of the word
-- or more, or `len - 1` at length 0.
use native.Mathlib.Nat.{pow-suc, mod-eq_of_lt}
use mathlib.Core.List.{append-nil, append_assoc}
use riscv64_emu_rust.Base.{
  Bool, true, false, not, List, [], ◌∷◌, ◌++◌, Option, some, ◌>>=◌, assert, to_nat, length, ℕ, zero,
  suc, ◌+◌, ◌-◌, ◌*◌, ◌/◌, ◌%◌, ◌^◌, ◌<◌, ◌==◌, ltb, leb, lt→ltb, bit_and, bit_or, ◌≡◌, refl, sym,
  ap, ap₂, ◌∙◌, arith, ◌&&◌,
}
use riscv64_emu_rust.Base.Bits.{get_bit, bit_or_disjoint, times_two_pow, bit_and_mask}

pub record ShifterRegister : Type 0 where
  pub data_reg : ℕ
  pub len : ℕ
  pub default : ℕ

unfoldable pub new : ℕ → ℕ → ShifterRegister
new default len = record { data_reg = default; len = len; default = default }

unfoldable pub clear : ShifterRegister → ShifterRegister
clear r = record r { data_reg = 0 }

unfoldable pub len_mask : ShifterRegister → Option ℕ
len_mask r = assert (ltb r.len 64) (some (2 ^ r.len - 1))

unfoldable pub set_reg : ℕ → ℕ → ShifterRegister → Option ShifterRegister
unfolding len_mask
set_reg new_data len r = len_mask (record r { len = len }) >>= λ mask.
    some (record r { len = len; data_reg = bit_and new_data mask })

unfoldable pub shift_right : Bool → ShifterRegister → Option ShifterRegister
shift_right new_in r =
    assert (leb 1 r.len && leb r.len 64)
      (some (record r { data_reg = bit_or (r.data_reg / 2) (to_nat new_in * 2 ^ (r.len - 1)) }))

unfoldable pub read_data : ShifterRegister → Option ℕ
unfolding len_mask
read_data r = len_mask r >>= λ mask. some (bit_and r.data_reg mask)

-- One bit of a scan: TDO is bit 0 of the register, and at the rising edge TDI is shifted in.
unfoldable pub scan_bit : Bool → ShifterRegister → Option (Bool × ShifterRegister)
unfolding read_data shift_right
scan_bit tdi r = read_data r >>= λ d. shift_right tdi r >>= λ r'. some (not (bit_and d 1 == 0), r')

unfoldable pub scan : List Bool → ShifterRegister → Option (List Bool × ShifterRegister)
scan [] r = some ([], r)
scan (tdi ∷ tdis) r =
    scan_bit tdi r >>= λ (tdo, r'). scan tdis r' >>= λ (tdos, r''). some (tdo ∷ tdos, r'')

-- The `n` low bits of a word, the lowest first, and the word that such bits spell.
abbrev pub bits_of : ℕ → ℕ → List Bool
bits_of zero x = []
bits_of (suc n) x = get_bit 0 x ∷ bits_of n (x / 2)

abbrev pub from_bits : List Bool → ℕ
from_bits [] = 0
from_bits (b ∷ bs) = to_nat b + 2 * from_bits bs

from_bits-bits_of : (n x : ℕ) → x < 2 ^ n → from_bits (bits_of n x) ≡ x
unfolding get_bit
from_bits-bits_of zero x h = omega arith
from_bits-bits_of (suc n) x h =
    ground (arith, pow-suc 2 n, from_bits-bits_of n (x / 2) (omega (arith, pow-suc 2 n)))

-- A bit set above the `m` low ones is the last of `m + 1` bits.
bits_of-add :
    (m y : ℕ) (b : Bool)
    → y < 2 ^ m
    → bits_of (suc m) (y + to_nat b * 2 ^ m) ≡ bits_of m y ++ b ∷ []
unfolding get_bit
bits_of-add zero y true h = let e : y ≡ 0 = omega arith in rw e
bits_of-add zero y false h = let e : y ≡ 0 = omega arith in rw e
bits_of-add (suc m) y b h =
    ap₂ ◌∷◌ (ap (λ t. t == 1) low)
      (ap (bits_of (suc m)) high ∙ bits_of-add m (y / 2) b (omega (arith, pow-suc 2 m)))
  where
    low : (y + to_nat b * 2 ^ suc m) % 2 ≡ y % 2
    low = omega (arith, times_two_pow (to_nat b) m)

    high : (y + to_nat b * 2 ^ suc m) / 2 ≡ y / 2 + to_nat b * 2 ^ m
    high = omega (arith, times_two_pow (to_nat b) m)

add-lt : (m y : ℕ) (b : Bool) → y < 2 ^ m → y + to_nat b * 2 ^ m < 2 ^ suc m
add-lt m y true h = omega (arith, pow-suc 2 m)
add-lt m y false h = omega (arith, pow-suc 2 m)

-- What a shift makes of the register, as a number.
shift_right_lem :
    (b : Bool) (r : ShifterRegister) (m : ℕ)
    → r.len ≡ suc m
    → m < 64
    → r.data_reg < 2 ^ suc m
    → shift_right b r ≡ some (record r { data_reg = r.data_reg / 2 + to_nat b * 2 ^ m })
unfolding shift_right
shift_right_lem b r m e h d =
    ground (arith, bit_or_disjoint m (r.data_reg / 2) (to_nat b) (omega (arith, pow-suc 2 m)))

read_data_lem :
    (r : ShifterRegister) (m : ℕ)
    → r.len ≡ suc m
    → m < 63
    → r.data_reg < 2 ^ suc m
    → read_data r ≡ some r.data_reg
unfolding read_data
read_data_lem r m e h d =
    rw (lt→ltb r.len 64 (omega arith))
      (ap some (rw e (bit_and_mask (suc m) r.data_reg ∙ mod-eq_of_lt d)))

scan_bit_lem :
    (b : Bool) (r : ShifterRegister) (m : ℕ)
    → r.len ≡ suc m
    → m < 63
    → r.data_reg < 2 ^ suc m
    → scan_bit b r
      ≡ some (get_bit 0 r.data_reg, record r { data_reg = r.data_reg / 2 + to_nat b * 2 ^ m })
unfolding scan_bit get_bit
scan_bit_lem b r m e h d =
    rw (read_data_lem r m e h d, shift_right_lem b r m e (omega arith) d)
      (ground (arith, bit_and_mask 1 r.data_reg))

scan-bits_of :
    (tdis olds news : List Bool) (r : ShifterRegister) (m : ℕ)
    → r.len ≡ suc m
    → m < 63
    → r.data_reg < 2 ^ suc m
    → bits_of (suc m) r.data_reg ≡ olds ++ news
    → length tdis ≡ length olds
    → (v : ℕ) × (v < 2 ^ suc m)
      × (bits_of (suc m) v ≡ news ++ tdis)
      × (scan tdis r ≡ some (olds, record r { data_reg = v }))
unfolding scan
scan-bits_of [] [] news r m e h d bits same = (r.data_reg, d, bits ∙ sym (append-nil news), refl)
scan-bits_of [] (o ∷ olds) news r m e h d bits same = absurd (omega arith)
scan-bits_of (b ∷ tdis) [] news r m e h d bits same = absurd (omega arith)
scan-bits_of (b ∷ tdis) (o ∷ olds) news r m e h d bits same =
    let v = r.data_reg / 2 + to_nat b * 2 ^ m in
    let half : r.data_reg / 2 < 2 ^ m = omega (arith, pow-suc 2 m) in
    let first : get_bit 0 r.data_reg ≡ o = cc in
    let rest : bits_of m (r.data_reg / 2) ≡ olds ++ news = cc in
    let bits' : bits_of (suc m) v ≡ olds ++ (news ++ b ∷ []) =
      bits_of-add m (r.data_reg / 2) b half
      ∙ ap (λ l. l ++ b ∷ []) rest
      ∙ append_assoc olds news (b ∷ []) in
    let (w, bound, spelled, run) =
      scan-bits_of tdis olds (news ++ b ∷ []) (record r { data_reg = v }) m e h
        (add-lt m (r.data_reg / 2) b half) bits' (omega arith) in
    (
      w,
      bound,
      spelled ∙ append_assoc news (b ∷ []) tdis,
      rw (scan_bit_lem b r m e h d) (rw (run, first) refl),
    )

length-bits_of : (n x : ℕ) → length (bits_of n x) ≡ n
length-bits_of zero x = refl
length-bits_of (suc n) x = ap suc (length-bits_of n (x / 2))

-- A scan of as many bits as a register of 1 to 63 bits holds gives no panic. TDO carries what the
-- register held, the lowest bit first, and the register ends with the word that TDI spelled; its
-- length and its default stay.
pub scan_exchanges :
    (r : ShifterRegister) (v : ℕ)
    → 0 < r.len
    → r.len < 64
    → r.data_reg < 2 ^ r.len
    → v < 2 ^ r.len
    → scan (bits_of r.len v) r ≡ some (bits_of r.len r.data_reg, record r { data_reg = v })
scan_exchanges r v pos short fits small = exchange (r.len - 1) (omega arith)
  where
    exchange :
        (m : ℕ)
        → r.len ≡ suc m
        → scan (bits_of r.len v) r ≡ some (bits_of r.len r.data_reg, record r { data_reg = v })
    exchange m e =
        let (w, bound, spelled, run) =
          scan-bits_of (bits_of r.len v) (bits_of r.len r.data_reg) [] r m e (omega arith)
            (rw e at fits) (rw e (sym (append-nil _)))
            (length-bits_of r.len v ∙ sym (length-bits_of r.len r.data_reg)) in
        let same : w ≡ v =
          sym (from_bits-bits_of (suc m) w bound)
          ∙ ap from_bits {y = bits_of (suc m) v} (spelled ∙ (rw e))
          ∙ from_bits-bits_of (suc m) v (rw e at small) in
        run ∙ rw same
