-- ===== src/Memory/Laws.antt =====
-- Reads and writes of src/device/device_memory.rs.
use native.Mathlib.Nat.{pow-suc, one-le-pow, mul_comm, div-div-eq-div-mul}
use riscv64_emu_rust.Base.{
  List, [], ◌∷◌, ◌++◌, some, ℕ, zero, suc, ◌+◌, ◌-◌, ◌*◌, ◌^◌, ◌<◌, ◌≤◌, ◌/◌, ◌%◌, replicate,
  length, set, take, drop, get_elem?, ◌≡◌, ◌⊎◌, inl, refl, ap, ◌∙◌, arith, length-set,
  get_elem?-set_self, get_elem?-set_ne, le→leb,
}
use riscv64_emu_rust.Memory.{DeviceMemory, to_le_bytes, from_le_bytes, overwrite, do_read, do_write}

mod-digits : (m v : ℕ) → 0 < m → v % (m * 256) ≡ v % 256 + 256 * (v / 256 % m)
mod-digits m v h =
    rw (mul_comm m 256) (grind (arith, ap (λ (t : ℕ). m * t) (div-div-eq-div-mul v 256 m)))

from_le_bytes-replicate : (m : ℕ) → from_le_bytes (replicate m 0) ≡ 0
unfolding from_le_bytes
from_le_bytes-replicate zero = refl
from_le_bytes-replicate (suc m) = omega (arith, from_le_bytes-replicate m)

from_le_bytes-to_le_bytes :
    (n m v : ℕ) → from_le_bytes (to_le_bytes n v ++ replicate m 0) ≡ v % 256 ^ n
unfolding from_le_bytes to_le_bytes
from_le_bytes-to_le_bytes zero m v = from_le_bytes-replicate m ∙ omega arith
from_le_bytes-to_le_bytes (suc n) m v =
    rw (pow-suc 256 n, from_le_bytes-to_le_bytes n m (v / 256))
      (omega (arith, mod-digits (256 ^ n) v (one-le-pow n 256 (omega arith))))

length-to_le_bytes : (n v : ℕ) → length (to_le_bytes n v) ≡ n
unfolding to_le_bytes
length-to_le_bytes zero v = refl
length-to_le_bytes (suc n) v = ap suc (length-to_le_bytes n (v / 256))

take-to_le_bytes : (n k v : ℕ) → n ≤ k → take n (to_le_bytes k v) ≡ to_le_bytes n v
unfolding to_le_bytes
take-to_le_bytes zero k v h = refl
take-to_le_bytes (suc n) zero v h = absurd (omega arith)
take-to_le_bytes (suc n) (suc k) v h =
    ap (λ t. v % 256 ∷ t) (take-to_le_bytes n k (v / 256) (omega arith))

length-overwrite : (xs : List ℕ) (a : ℕ) (bs : List ℕ) → length (overwrite xs a bs) ≡ length xs
unfolding overwrite
length-overwrite xs a [] = refl
length-overwrite xs a (b ∷ bs) = length-overwrite (set xs a b) (suc a) bs ∙ length-set xs a b

get_elem?-overwrite :
    (xs : List ℕ) (a : ℕ) (bs : List ℕ) (k : ℕ)
    → (k < a) ⊎ (a + length bs ≤ k)
    → get_elem? (overwrite xs a bs) k ≡ get_elem? xs k
unfolding overwrite
get_elem?-overwrite xs a [] k h = refl
get_elem?-overwrite xs a (b ∷ bs) k h =
    get_elem?-overwrite (set xs a b) (suc a) bs k (omega arith)
    ∙ get_elem?-set_ne xs a k b (λ e. omega arith)

drop-at : (xs : List ℕ) (i b : ℕ) → get_elem? xs i ≡ some b → drop i xs ≡ b ∷ drop (suc i) xs
drop-at [] i b h = absurd cc
drop-at (x ∷ xs) zero b h = cc
drop-at (x ∷ xs) (suc i) b h = drop-at xs i b h

take-overwrite :
    (xs : List ℕ) (a : ℕ) (bs : List ℕ)
    → a + length bs ≤ length xs
    → take (length bs) (drop a (overwrite xs a bs)) ≡ bs
unfolding overwrite
take-overwrite xs a [] h = refl
take-overwrite xs a (b ∷ bs) h =
    let ys : List ℕ = overwrite (set xs a b) (suc a) bs in
    let at : get_elem? ys a ≡ some b =
      get_elem?-overwrite (set xs a b) (suc a) bs a (inl (omega arith))
      ∙ get_elem?-set_self xs a b (omega arith) in
    rw (drop-at ys a b at)
      (ap (λ t. b ∷ t) (take-overwrite (set xs a b) (suc a) bs (omega (arith, length-set xs a b))))

pub do_write-outcome :
    (addr value len : ℕ) (memory : DeviceMemory)
    → len ≤ 8
    → addr + len ≤ length memory.bytes
    → (memory' : DeviceMemory) × (do_write addr value len memory ≡ some (value, memory'))
      × (do_read addr len memory' ≡ some (value % 256 ^ len))
      × (length memory'.bytes ≡ length memory.bytes)
      × ((k : ℕ)
          → (k < addr) ⊎ (addr + len ≤ k)
          → get_elem? memory'.bytes k ≡ get_elem? memory.bytes k)
unfolding do_write do_read
do_write-outcome addr value len memory small fits =
    let bs : List ℕ = to_le_bytes len value in
    let xs : List ℕ = overwrite memory.bytes addr bs in
    let len_bs : length bs ≡ len = length-to_le_bytes len value in
    let len_xs : length xs ≡ length memory.bytes = length-overwrite memory.bytes addr bs in
    let fits_bs : addr + length bs ≤ length memory.bytes = omega arith in
    let read_back : take len (drop addr xs) ≡ bs =
      rw len_bs at (take-overwrite memory.bytes addr bs fits_bs) in
    (
      record { bytes = xs },
      rw
          (
            le→leb len 8 small,
            le→leb (addr + len) (length memory.bytes) fits,
            take-to_le_bytes len 8 value small,
          )
          refl,
      rw
          (
            le→leb len 8 small,
            len_xs,
            le→leb (addr + len) (length memory.bytes) fits,
            read_back,
            from_le_bytes-to_le_bytes len (8 - len) value,
          )
          refl,
      len_xs,
      λ k out. get_elem?-overwrite memory.bytes addr bs k (omega arith),
    )

-- A write of up to eight bytes within the memory succeeds; a read of the same place gives the value
-- back, cut to the bytes written, and a byte `k` outside keeps its value, as the memory its size.
pub do_read-do_write :
    (addr value len k : ℕ) (memory : DeviceMemory)
    → len ≤ 8
    → addr + len ≤ length memory.bytes
    → (k < addr) ⊎ (addr + len ≤ k)
    → (memory' : DeviceMemory) × (do_write addr value len memory ≡ some (value, memory'))
      × (do_read addr len memory' ≡ some (value % 256 ^ len))
      × (length memory'.bytes ≡ length memory.bytes)
      × (get_elem? memory'.bytes k ≡ get_elem? memory.bytes k)
do_read-do_write addr value len k memory small fits out =
    let (memory', wrote, back, size, others) = do_write-outcome addr value len memory small fits in
    (memory', wrote, back, size, others k out)
