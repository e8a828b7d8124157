-- ===== src/Decode/Laws.antt =====
-- What the search of src/rv64core/inst_decode.rs finds in the sorted table.
mod Order
pub mod Cache
use mathlib.Core.Path.{subst}
use riscv64_emu_rust.Base.{
  Bool, true, false, ◌&&◌, List, [], ◌∷◌, Option, some, ℕ, ◌^◌, ◌<◌, ◌==◌, ltb, bit_and, ◌≡◌, refl,
  sym, ap, ◌∙◌, arith, Any, inl, inr, Bool-cases, if◌then◌else◌, ltb→lt, ==_refl,
}
use riscv64_emu_rust.Base.Bits.{get_bit_ext, get_bit-bit_and}
use riscv64_emu_rust.Base.Bits.Bounds.{bit_and-lt}
use riscv64_emu_rust.Decode.Pattern.{Instruction, inst_cmp}
use riscv64_emu_rust.Decode.{Extensions, enabled, inst_vec_of, matches, find}
use Order.{precedes, find-sort}

abbrev every : (Instruction → Bool) → List Instruction → Bool
every f [] = true
every f (x ∷ xs) = f x && every f xs

-- A word can match both only if the two agree where both masks are up.
abbrev compatible : Instruction → Instruction → Bool
compatible p q = bit_and q.mask p.match_data == bit_and p.mask q.match_data

abbrev is_ranked : Instruction → Instruction → Bool
is_ranked p q = if compatible p q && precedes p q then bit_and q.mask p.mask == q.mask else true

abbrev fits : Instruction → Bool
fits p = ltb p.mask (2 ^ 32)

abbrev all_ranked : List Instruction → Bool
all_ranked xs = every (λ p. fits p && every (is_ranked p) xs) xs

enabled_ranked : (m a c : Bool) → all_ranked (enabled (record { m = m; a = a; c = c })) ≡ true
unfolding enabled precedes inst_cmp
enabled_ranked true true true = refl
enabled_ranked true true false = refl
enabled_ranked true false true = refl
enabled_ranked true false false = refl
enabled_ranked false true true = refl
enabled_ranked false true false = refl
enabled_ranked false false true = refl
enabled_ranked false false false = refl

every-Any :
    (f : Instruction → Bool) (xs : List Instruction) (q : Instruction)
    → every f xs ≡ true
    → Any (λ x. x ≡ q) xs
    → f q ≡ true
every-Any f [] q h at = elim at [ ]
every-Any f (x ∷ xs) q h (inl e) = subst (λ x. f x ≡ true) e (ground arith)
every-Any f (x ∷ xs) q h (inr at) = every-Any f xs q (ground arith) at

enabled_row :
    (isa : Extensions) (p : Instruction)
    → Any (λ x. x ≡ p) (enabled isa)
    → (fits p && every (is_ranked p) (enabled isa)) ≡ true
enabled_row isa p at =
    every-Any (λ p. fits p && every (is_ranked p) (enabled isa)) (enabled isa) p
      (enabled_ranked isa.m isa.a isa.c) at

and_right : (a b : Bool) → (a && b) ≡ true → b ≡ true
and_right a b h = ground arith

ranked_mask :
    (p q : Instruction)
    → compatible p q ≡ true
    → precedes p q ≡ true
    → is_ranked p q ≡ true
    → bit_and q.mask p.mask ≡ q.mask
ranked_mask p q agree first h = ground arith

bit_and_left_comm :
    (a b w : ℕ)
    → a < 2 ^ 32
    → b < 2 ^ 32
    → w < 2 ^ 32
    → bit_and b (bit_and a w) ≡ bit_and a (bit_and b w)
bit_and_left_comm a b w ha hb hw =
    get_bit_ext 32 (bit_and b (bit_and a w)) (bit_and a (bit_and b w))
      (bit_and-lt 32 b (bit_and a w) hb (bit_and-lt 32 a w ha hw))
      (bit_and-lt 32 a (bit_and b w) ha (bit_and-lt 32 b w hb hw))
      (λ j h.
        rw
          (
            get_bit-bit_and j b (bit_and a w),
            get_bit-bit_and j a w,
            get_bit-bit_and j a (bit_and b w),
            get_bit-bit_and j b w,
          )
          (ground arith))

bit_and_match :
    (a b w d e : ℕ)
    → bit_and b (bit_and a w) ≡ bit_and a (bit_and b w)
    → (bit_and a w == d) ≡ true
    → (bit_and b w == e) ≡ true
    → (bit_and b d == bit_and a e) ≡ true
bit_and_match a b w d e comm h k =
    let hd : bit_and a w ≡ d = ground arith in
    let he : bit_and b w ≡ e = ground arith in
    rw (← hd, ← he, comm) (==_refl (bit_and a (bit_and b w)))

fits_Any : (isa : Extensions) (p : Instruction) → Any (λ x. x ≡ p) (enabled isa) → p.mask < 2 ^ 32
fits_Any isa p at = let row = enabled_row isa p at in ltb→lt p.mask (2 ^ 32) (ground arith)

compatible_match :
    (isa : Extensions) (w : ℕ) (p q : Instruction)
    → w < 2 ^ 32
    → Any (λ x. x ≡ p) (enabled isa)
    → Any (λ x. x ≡ q) (enabled isa)
    → matches w p ≡ true
    → matches w q ≡ true
    → compatible p q ≡ true
compatible_match isa w p q small atp atq hp hq =
    bit_and_match p.mask q.mask w p.match_data q.match_data
      (bit_and_left_comm p.mask q.mask w (fits_Any isa p atp) (fits_Any isa q atq) small) hp hq

specific :
    (isa : Extensions) (w : ℕ) (p q : Instruction)
    → w < 2 ^ 32
    → Any (λ x. x ≡ p) (enabled isa)
    → Any (λ x. x ≡ q) (enabled isa)
    → matches w p ≡ true
    → matches w q ≡ true
    → precedes p q ≡ true
    → bit_and q.mask p.mask ≡ q.mask
specific isa w p q small atp atq hp hq first =
    let row = enabled_row isa p atp in
    let agree : compatible p q ≡ true = compatible_match isa w p q small atp atq hp hq in
    let cell =
      every-Any (is_ranked p) (enabled isa) q
        (and_right (fits p) (every (is_ranked p) (enabled isa)) row) atq in
    ranked_mask p q agree first cell

-- Whatever the configuration enables, the decoder answers a word that some enabled instruction
-- matches, with an enabled instruction that matches it too and is the most specific one: the mask of
-- every other enabled instruction that matches is part of its mask. So where two encodings overlap
-- (C.EBREAK, C.JALR and C.ADD, C.ADDI16SP and C.LUI, ...), the order of the table decides rightly.
pub find_specific :
    (isa : Extensions) (inst_i : ℕ) (q : Instruction)
    → inst_i < 2 ^ 32
    → Any (λ x. x ≡ q) (enabled isa)
    → matches inst_i q ≡ true
    → (p : Instruction) × (find inst_i (inst_vec_of isa) ≡ some p)
      × (matches inst_i p ≡ true)
      × (bit_and q.mask p.mask ≡ q.mask)
      × Any (λ x. x ≡ p) (enabled isa)
unfolding inst_vec_of
find_specific isa inst_i q small at hit =
    let (p, found, hit', first, mem) = find-sort inst_i q (enabled isa) at hit in
    (p, found, hit', specific isa inst_i p q small mem at hit' hit first, mem)
