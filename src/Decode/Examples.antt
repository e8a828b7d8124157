-- ===== src/Decode/Examples.antt =====
-- Runs of the decoder of src/rv64core/inst_decode.rs.
use riscv64_emu_rust.Base.{
  true, List, [], ◌∷◌, Option, none, some, ◌≡◌, refl, ℕ, zero, suc, get_elem?, ◌==◌, inl, inr,
  arith, Any, if◌then◌else◌, Bool-cases, bit_and,
}
use riscv64_emu_rust.Decode.Pattern.{Instruction}
use riscv64_emu_rust.Decode.{
  Extensions, enabled, inst_vec_of, find, matches, LruCache, InstDecode, new, decode_all, reset,
}
use riscv64_emu_rust.Decode.Table.{inst_addi, inst_c_ebreak, inst_c_add}
use riscv64_emu_rust.Decode.Laws.{find_specific}
use riscv64_emu_rust.Decode.Laws.Cache.{
  IsCache, IsCoherent, find_all, new-IsCoherent, decode_all-find,
}

abbrev all_on : Extensions
all_on = record { m = true; a = true; c = true }

add_immediate : find 0x00500093 (inst_vec_of all_on) ≡ some inst_addi
unfolding find inst_vec_of
add_immediate = refl

ebreak : find 0x9002 (inst_vec_of all_on) ≡ some inst_c_ebreak
unfolding find inst_vec_of
ebreak = refl

get_elem?-Any :
    (xs : List Instruction) (i : ℕ) (q : Instruction)
    → get_elem? xs i ≡ some q
    → Any (λ x. x ≡ q) xs
get_elem?-Any [] i q h = absurd (ground arith)
get_elem?-Any (x ∷ xs) zero q h = inl (ground arith)
get_elem?-Any (x ∷ xs) (suc i) q h = inr (get_elem?-Any xs i q h)

Any-c_add : Any (λ x. x ≡ inst_c_add) (enabled all_on)
unfolding enabled
Any-c_add = get_elem?-Any (enabled all_on) 122 inst_c_add refl

find_specific_example :
    (p : Instruction) × (find 0x9002 (inst_vec_of all_on) ≡ some p)
    × (matches 0x9002 p ≡ true)
    × (bit_and inst_c_add.mask p.mask ≡ inst_c_add.mask)
    × Any (λ x. x ≡ p) (enabled all_on)
find_specific_example = find_specific all_on 0x9002 inst_c_add (omega arith) Any-c_add refl

-- A cache of one entry.
abbrev Single : Type 0
Single = Option (ℕ × Instruction)

abbrev lookup : ℕ → Single → Option Instruction
lookup k none = none
lookup k (some (j, x)) = if k == j then some x else none

abbrev single : LruCache Single
single = record {
  new = λ n. none;
  capacity = λ c. 1;
  clear = λ c. none;
  get = λ k c. (lookup k c, c);
  insert = λ k x c. some (k, x);
}

single-IsCache : IsCache single
single-IsCache = record {
  get-new = λ n k. refl;
  get-clear = λ k c. refl;
  get-get = λ j k c. refl;
  get-insert =
      λ j k v c. elim (Bool-cases (j == k)) [ inl e ↦ inr (rw e refl) | inr e ↦ inl (rw e refl) ];
}

abbrev fresh : InstDecode Single
fresh = new single all_on (some 1)

decode_all-find_example :
    (d' : InstDecode Single) × (decode_all single (0x9002 ∷ 0x9002 ∷ 0x00500093 ∷ []) fresh
      ≡ some (find_all fresh.inst_vec (0x9002 ∷ 0x9002 ∷ 0x00500093 ∷ []), d'))
    × IsCoherent single d'
    × IsCoherent single (reset single d')
    × (d'.inst_vec ≡ fresh.inst_vec)
unfolding new
decode_all-find_example =
    decode_all-find single single-IsCache (0x9002 ∷ 0x9002 ∷ 0x00500093 ∷ []) fresh
      (new-IsCoherent single single-IsCache all_on (some 1)) (omega arith) (omega arith)
