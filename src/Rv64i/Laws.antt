-- ===== src/Rv64i/Laws.antt =====
-- What src/rv64core/inst/inst_rv64i.rs keeps of the registers.
use riscv64_emu_rust.Base.{
  Bool, true, false, some, assert, to_nat, if◌then◌else◌, List, [], ◌∷◌, ℕ, zero, suc, ◌*◌, ◌/◌,
  ◌%◌, ◌^◌, ◌<◌, ltb, ◌==◌, bit_and, bit_or, bit_xor, ◌≡◌, arith, All, inl, inr, Bool-cases,
  Option-cases, get_elem?, set, replicate,
}
use riscv64_emu_rust.Base.Bits.Bounds.{bit_and-lt, bit_or-lt, bit_xor-lt}
use mathlib.Core.Path.{subst}
use riscv64_emu_rust.Base.Bits.{bit_and_mask}
use native.Mathlib.Nat.{div-le_self, mod-lt}
use riscv64_emu_rust.Gpr.{Gpr, read, write, unwrap_or}
use riscv64_emu_rust.Rv64m.{sext, parse_format_r}
use riscv64_emu_rust.Rv64i.{parse_format_i, signed_lt, sign_bits}
use riscv64_emu_rust.Rv64i.Alu.{
  op_add, op_addi, op_addiw, op_addw, op_and, op_andi, op_or, op_ori, op_sll, op_slli, op_slliw,
  op_sllw, op_slt, op_slti, op_sltiu, op_sltu, op_sra, op_srai, op_sraiw, op_sraw, op_srl, op_srli,
  op_srliw, op_srlw, op_sub, op_subw, op_xor, op_xori, add, sub, sext_word, shift_right_signed, Op,
  alu, is_register, execute_register, execute_immediate, execute,
}

some_lt : (x v m : ℕ) → x < m → some x ≡ some v → v < m
some_lt x v m h e = ground arith

sign_bits-lt : (inst : ℕ) → sign_bits inst 0xfffff800 < 2 ^ 32
sign_bits-lt inst = ground arith

sext-lt : (x : ℕ) → x < 2 ^ 32 → sext 32 64 x < 2 ^ 64
unfolding sext
sext-lt x h = ground arith

sext_word-lt : (x : ℕ) → sext_word x < 2 ^ 64
unfolding sext_word
sext_word-lt x = sext-lt (x % 2 ^ 32) (omega arith)

pub shift_right_signed-lt : (x s : ℕ) → x < 2 ^ 64 → shift_right_signed 64 x s < 2 ^ 64
unfolding shift_right_signed
shift_right_signed-lt x s h = ground (arith, div-le_self x (2 ^ s))

to_nat-lt : (t : Bool) → to_nat t < 2 ^ 64
to_nat-lt true = omega arith
to_nat-lt false = omega arith

assert_lt : (t : Bool) (x v m : ℕ) → x < m → assert t (some x) ≡ some v → v < m
assert_lt true x v m h e = some_lt x v m h e
assert_lt false x v m h e = absurd (ground arith)

add-lt : (a b : ℕ) → add a b < 2 ^ 64
unfolding add
add-lt a b = omega arith

sub-lt : (a b : ℕ) → sub a b < 2 ^ 64
unfolding sub
sub-lt a b = omega arith

div-lt : (a k : ℕ) → a < 2 ^ 64 → a / k < 2 ^ 64
div-lt a k h = omega (arith, div-le_self a k)

alu-lt : (op : Op) (a b v : ℕ) → a < 2 ^ 64 → b < 2 ^ 64 → alu op a b ≡ some v → v < 2 ^ 64
unfolding alu
alu-lt op_addi a b v ha hb h = some_lt (add a b) v (2 ^ 64) (add-lt a b) h
alu-lt op_slti a b v ha hb h =
    some_lt (to_nat (signed_lt a b)) v (2 ^ 64) (to_nat-lt (signed_lt a b)) h
alu-lt op_sltiu a b v ha hb h = some_lt (to_nat (ltb a b)) v (2 ^ 64) (to_nat-lt (ltb a b)) h
alu-lt op_xori a b v ha hb h = some_lt (bit_xor a b) v (2 ^ 64) (bit_xor-lt 64 a b ha hb) h
alu-lt op_ori a b v ha hb h = some_lt (bit_or a b) v (2 ^ 64) (bit_or-lt 64 a b ha hb) h
alu-lt op_andi a b v ha hb h = some_lt (bit_and a b) v (2 ^ 64) (bit_and-lt 64 a b ha hb) h
alu-lt op_slli a b v ha hb h =
    some_lt (a * 2 ^ (bit_and b 0x3f) % 2 ^ 64) v (2 ^ 64)
      (mod-lt (a * 2 ^ (bit_and b 0x3f)) (omega arith)) h
alu-lt op_srli a b v ha hb h =
    some_lt (a / 2 ^ (bit_and b 0x3f)) v (2 ^ 64) (div-lt a (2 ^ (bit_and b 0x3f)) ha) h
alu-lt op_srai a b v ha hb h =
    some_lt (shift_right_signed 64 a (bit_and b 0x3f)) v (2 ^ 64)
      (shift_right_signed-lt a (bit_and b 0x3f) ha) h
alu-lt op_add a b v ha hb h = some_lt (add a b) v (2 ^ 64) (add-lt a b) h
alu-lt op_slt a b v ha hb h =
    some_lt (to_nat (signed_lt a b)) v (2 ^ 64) (to_nat-lt (signed_lt a b)) h
alu-lt op_sltu a b v ha hb h = some_lt (to_nat (ltb a b)) v (2 ^ 64) (to_nat-lt (ltb a b)) h
alu-lt op_xor a b v ha hb h = some_lt (bit_xor a b) v (2 ^ 64) (bit_xor-lt 64 a b ha hb) h
alu-lt op_or a b v ha hb h = some_lt (bit_or a b) v (2 ^ 64) (bit_or-lt 64 a b ha hb) h
alu-lt op_and a b v ha hb h = some_lt (bit_and a b) v (2 ^ 64) (bit_and-lt 64 a b ha hb) h
alu-lt op_sll a b v ha hb h =
    some_lt (a * 2 ^ (b % 2 ^ 32 % 64) % 2 ^ 64) v (2 ^ 64)
      (mod-lt (a * 2 ^ (b % 2 ^ 32 % 64)) (omega arith)) h
alu-lt op_srl a b v ha hb h =
    some_lt (a / 2 ^ (b % 2 ^ 32 % 64)) v (2 ^ 64) (div-lt a (2 ^ (b % 2 ^ 32 % 64)) ha) h
alu-lt op_sra a b v ha hb h =
    some_lt (shift_right_signed 64 a (b % 2 ^ 32 % 64)) v (2 ^ 64)
      (shift_right_signed-lt a (b % 2 ^ 32 % 64) ha) h
alu-lt op_sub a b v ha hb h = some_lt (sub a b) v (2 ^ 64) (sub-lt a b) h
alu-lt op_addiw a b v ha hb h = some_lt (sext_word (add a b)) v (2 ^ 64) (sext_word-lt (add a b)) h
alu-lt op_addw a b v ha hb h = some_lt (sext_word (add a b)) v (2 ^ 64) (sext_word-lt (add a b)) h
alu-lt op_subw a b v ha hb h = some_lt (sext_word (sub a b)) v (2 ^ 64) (sext_word-lt (sub a b)) h
alu-lt op_sraiw a b v ha hb h =
    some_lt (sext_word (shift_right_signed 32 (a % 2 ^ 32) (bit_and b 0x1f))) v (2 ^ 64)
      (sext_word-lt (shift_right_signed 32 (a % 2 ^ 32) (bit_and b 0x1f))) h
alu-lt op_sraw a b v ha hb h =
    some_lt (sext_word (shift_right_signed 32 (a % 2 ^ 32) (bit_and b 0x1f))) v (2 ^ 64)
      (sext_word-lt (shift_right_signed 32 (a % 2 ^ 32) (bit_and b 0x1f))) h
alu-lt op_sllw a b v ha hb h =
    some_lt (sext_word (a * 2 ^ bit_and b 0x1f % 2 ^ 64)) v (2 ^ 64)
      (sext_word-lt (a * 2 ^ bit_and b 0x1f % 2 ^ 64)) h
alu-lt op_srlw a b v ha hb h =
    some_lt (sext_word (a % 2 ^ 32 / 2 ^ bit_and b 0x1f)) v (2 ^ 64)
      (sext_word-lt (a % 2 ^ 32 / 2 ^ bit_and b 0x1f)) h
alu-lt op_slliw a b v ha hb h =
    assert_lt (ltb b 64) (sext_word (a * 2 ^ b % 2 ^ 64)) v (2 ^ 64)
      (sext_word-lt (a * 2 ^ b % 2 ^ 64)) h
alu-lt op_srliw a b v ha hb h =
    assert_lt (ltb b 32) (sext_word (a % 2 ^ 32 / 2 ^ b)) v (2 ^ 64)
      (sext_word-lt (a % 2 ^ 32 / 2 ^ b)) h

imm-lt : (inst : ℕ) → (parse_format_i inst).imm < 2 ^ 64
unfolding parse_format_i
imm-lt inst = sext-lt (bit_or (sign_bits inst 0xfffff800) (bit_and (inst / 2 ^ 20) 0x7ff)) (
    bit_or-lt 32 (sign_bits inst 0xfffff800) (bit_and (inst / 2 ^ 20) 0x7ff) (sign_bits-lt inst)
      (omega (arith, bit_and_mask 11 (inst / 2 ^ 20))))

-- Every register holds a word of 64 bits.
abbrev pub AreWords : Gpr → Type 0
AreWords gpr = All (λ r. r < 2 ^ 64) gpr.regs

All-set : (xs : List ℕ) (i v m : ℕ) → All (λ r. r < m) xs → v < m → All (λ r. r < m) (set xs i v)
All-set [] i v m h p = tt
All-set (x ∷ xs) zero v m h p = (p, h.1)
All-set (x ∷ xs) (suc i) v m h p = (h.0, All-set xs i v m h.1 p)

All-get : (xs : List ℕ) (i m : ℕ) → 0 < m → All (λ r. r < m) xs → unwrap_or 0 (get_elem? xs i) < m
All-get [] i m pos h = pos
All-get (x ∷ xs) zero m pos h = h.0
All-get (x ∷ xs) (suc i) m pos h = All-get xs i m pos h.1

pub read-lt : (k v : ℕ) (gpr : Gpr) → AreWords gpr → read k gpr ≡ some v → v < 2 ^ 64
unfolding read
read-lt k v gpr w h =
    assert_lt (ltb k 32) (if k == 0 then 0 else unwrap_or 0 (get_elem? gpr.regs k)) v (2 ^ 64)
      (ground (arith, All-get gpr.regs k (2 ^ 64) (omega arith) w)) h

write-AreWords :
    (k v : ℕ) (gpr gpr' : Gpr)
    → AreWords gpr
    → v < 2 ^ 64
    → write k v gpr ≡ some gpr'
    → AreWords gpr'
unfolding write
write-AreWords k v gpr gpr' w small h = elim (Bool-cases (ltb k 32)) [
  | inr e ↦ absurd (ground arith)
  | inl e ↦ elim (Bool-cases (k == 0)) [
    | inl z ↦ let same : gpr ≡ gpr' = ground arith in subst AreWords same w
    | inr z ↦
        let same : record { regs = set gpr.regs k v } ≡ gpr' = ground arith in
        subst AreWords same (All-set gpr.regs k v (2 ^ 64) w small)
  ]
]

register-AreWords :
    (op : Op) (inst : ℕ) (gpr gpr' : Gpr)
    → AreWords gpr
    → execute_register op inst gpr ≡ some gpr'
    → AreWords gpr'
unfolding execute_register
register-AreWords op inst gpr gpr' w h = elim (Option-cases (read (parse_format_r inst).rs1 gpr)) [
  | inl e ↦ absurd (ground arith)
  | inr (a, ea) ↦ elim (Option-cases (read (parse_format_r inst).rs2 gpr)) [
    | inl e ↦ absurd (ground arith)
    | inr (b, eb) ↦ elim (Option-cases (alu op a b)) [
      | inl e ↦ absurd (ground arith)
      | inr (v, ev) ↦
          write-AreWords (parse_format_r inst).rd v gpr gpr' w
            (alu-lt op a b v (read-lt (parse_format_r inst).rs1 a gpr w ea)
              (read-lt (parse_format_r inst).rs2 b gpr w eb) ev)
            (ground arith)
    ]
  ]
]

immediate-AreWords :
    (op : Op) (inst : ℕ) (gpr gpr' : Gpr)
    → AreWords gpr
    → execute_immediate op inst gpr ≡ some gpr'
    → AreWords gpr'
unfolding execute_immediate
immediate-AreWords op inst gpr gpr' w h = elim (Option-cases (read (parse_format_i inst).rs1 gpr)) [
  | inl e ↦ absurd (ground arith)
  | inr (a, ea) ↦ elim (Option-cases (alu op a ((parse_format_i inst).imm))) [
    | inl e ↦ absurd (ground arith)
    | inr (v, ev) ↦
        write-AreWords (parse_format_i inst).rd v gpr gpr' w
          (alu-lt op a ((parse_format_i inst).imm) v (read-lt (parse_format_i inst).rs1 a gpr w ea)
            (imm-lt inst) ev)
          (ground arith)
  ]
]

-- An arithmetic instruction that does not panic keeps every register a word of 64 bits, whichever of
-- them it is and whatever registers and immediate its word names.
execute-AreWords :
    (op : Op) (inst : ℕ) (gpr gpr' : Gpr)
    → AreWords gpr
    → execute op inst gpr ≡ some gpr'
    → AreWords gpr'
unfolding execute
execute-AreWords op inst gpr gpr' w h = elim (Bool-cases (is_register op)) [
  | inl e ↦ register-AreWords op inst gpr gpr' w (ground arith)
  | inr e ↦ immediate-AreWords op inst gpr gpr' w (ground arith)
]

-- A subtraction undoes an addition, for all operands: the wrap-around of the one is that of the
-- other.
pub sub-add : (a b : ℕ) → a < 2 ^ 64 → b < 2 ^ 64 → sub (add a b) b ≡ a
unfolding sub add
sub-add a b ha hb = omega arith

-- The registers that a reset leaves.
pub zeros-AreWords : (n : ℕ) → All (λ (r : ℕ). r < 2 ^ 64) (replicate n 0)
zeros-AreWords zero = tt
zeros-AreWords (suc n) = (omega arith, zeros-AreWords n)
