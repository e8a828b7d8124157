-- ===== src/Mmu.antt =====
-- src/rv64core/mmu/cpu_mmu.rs with src/rv64core/mmu/vm_info.rs: the translation of virtual addresses.
-- The cache of translations is `LruCache` of the crate hashlink, so it is the parameter `Tlb` here.
-- The registers `mstatus`, `satp` and the privilege are cells that the hart shares; the fields that
-- only carry values between the steps of one walk are arguments. `none` is a panic.
pub mod Words
pub mod Pte
pub mod Walk
pub mod Fence
pub mod Laws
mod Examples
use riscv64_emu_rust.Base.{
  Bool, true, false, not, ◌&&◌, ◌||◌, List, [], ◌∷◌, Option, none, some, ◌>>=◌, assert,
  if◌then◌else◌, ℕ, zero, suc, ◌+◌, ◌-◌, ◌*◌, ◌/◌, ◌%◌, ◌^◌, ◌==◌, ltb, bit_and, bit_or,
}
use riscv64_emu_rust.Base.Bits.{get_bit}
use riscv64_emu_rust.Access.{
  AccessType, load, store, fetch, amo, is_store, is_fetch, throw_page_exception,
  throw_addr_misaligned_exception, Result, value, raise, Caches,
}
use riscv64_emu_rust.Bus.{Reply, ok, err, check_aligned}
use riscv64_emu_rust.Csr.Xstatus.{mprv, sum, mxr, get_mpp_priv}
use riscv64_emu_rust.Trap.{TrapType, PrivilegeLevels, user, supervisor, machine}
use Words.{
  StapMode, bare, get_levels, get_ptesize, satp_ppn, satp_asid, satp_mode, va_ppn, va_field, offset,
}
use Pte

pub data PageSize : Type 0 where
  p4k p2m p1g p512g p256t invalid : PageSize

unfoldable pub from_i : ℕ → Option PageSize
from_i zero = some p4k
from_i (suc zero) = some p2m
from_i (suc (suc zero)) = some p1g
from_i (suc (suc (suc zero))) = some p512g
from_i (suc (suc (suc (suc zero)))) = some p256t
from_i _ = none

abbrev pub zero_mask : ℕ → ℕ
zero_mask num = 2 ^ 64 - 2 ^ num

unfoldable pub get_mask : PageSize → Option ℕ
get_mask p4k = some (zero_mask 12)
get_mask p2m = some (zero_mask 21)
get_mask p1g = some (zero_mask 30)
get_mask p512g = none
get_mask p256t = none
get_mask invalid = none

abbrev pub same_size : PageSize → PageSize → Bool
same_size p4k p4k = true
same_size p2m p2m = true
same_size p1g p1g = true
same_size p512g p512g = true
same_size p256t p256t = true
same_size invalid invalid = true
same_size _ _ = false

pub record TlbEntry : Type 0 where
  pub pte : ℕ
  pub page_size : PageSize
  pub asid : ℕ

pub record TlbKey : Type 0 where
  pub va : ℕ
  pub asid : ℕ

-- The top of the entry's page number, and below it the address's own fields.
unfoldable pub get_pa : StapMode → TlbEntry → ℕ → Option ℕ
unfolding va_ppn
get_pa mode entry va = elim entry.page_size [
  | p4k ↦ some (bit_or (Pte.ppn_all entry.pte * 2 ^ 12) (offset va))
  | p2m ↦ do
    v0 ← va_ppn mode 0 va
    some (
        bit_or (bit_or (bit_and (Pte.ppn_all entry.pte) (zero_mask 9) * 2 ^ 12) (v0 * 2 ^ 12))
          (offset va))
  | p1g ↦ do
    v1 ← va_ppn mode 1 va
    v0 ← va_ppn mode 0 va
    some (
        bit_or
          (bit_or (bit_or (bit_and (Pte.ppn_all entry.pte) (zero_mask 18) * 2 ^ 12) (v1 * 2 ^ 21))
            (v0 * 2 ^ 12))
          (offset va))
  | p512g ↦ do
    v2 ← va_ppn mode 2 va
    v1 ← va_ppn mode 1 va
    v0 ← va_ppn mode 0 va
    some (
        bit_or
          (bit_or
            (bit_or (bit_or (bit_and (Pte.ppn_all entry.pte) (zero_mask 27) * 2 ^ 12) (v2 * 2 ^ 30))
              (v1 * 2 ^ 21))
            (v0 * 2 ^ 12))
          (offset va))
  | p256t ↦ do
    v3 ← va_ppn mode 3 va
    v2 ← va_ppn mode 2 va
    v1 ← va_ppn mode 1 va
    v0 ← va_ppn mode 0 va
    some (
        bit_or
          (bit_or
            (bit_or
              (bit_or
                (bit_or (bit_and (Pte.ppn_all entry.pte) (zero_mask 36) * 2 ^ 12) (v3 * 2 ^ 39))
                (v2 * 2 ^ 30))
              (v1 * 2 ^ 21))
            (v0 * 2 ^ 12))
          (offset va))
  | invalid ↦ none
]

-- `hashlink::LruCache` with the entries of the TLB; `get` makes the entry the most recent one, and
-- `iter` lists them.
pub record Tlb (T : Type 0) : Type 0 where
  pub capacity : T → ℕ
  pub clear : T → T
  pub get : TlbKey → T → Option TlbEntry × T
  pub insert : TlbKey → TlbEntry → T → T
  pub remove : TlbKey → T → T
  pub iter : T → List (TlbKey × TlbEntry)

pub record Mmu (T : Type 0) : Type 0 where
  pub access_type : AccessType
  pub mstatus : ℕ
  pub satp : ℕ
  pub cur_priv : PrivilegeLevels
  pub mmu_effective_priv : PrivilegeLevels
  pub satp_mode : StapMode
  pub tlb : T
  pub tlb_hit : ℕ
  pub tlb_miss : ℕ

abbrev pub is_machine : PrivilegeLevels → Bool
is_machine user = false
is_machine supervisor = false
is_machine machine = true

abbrev pub is_supervisor : PrivilegeLevels → Bool
is_supervisor user = false
is_supervisor supervisor = true
is_supervisor machine = false

abbrev pub is_bare : StapMode → Bool
is_bare bare = true
is_bare _ = false

-- Step 3.
unfoldable pub invalid_pte : ℕ → Bool
invalid_pte pte = not (Pte.v pte) || (not (Pte.r pte) && Pte.w pte)

-- Step 5, given the SUM check and the bit MXR.
unfoldable pub denied : AccessType → Bool → Bool → ℕ → Bool
denied (fetch _) sum_bit mxr_bit pte = not (Pte.x pte)
denied (load _) sum_bit mxr_bit pte = not (Pte.r pte || (Pte.x pte && mxr_bit)) || not sum_bit
denied (store _) sum_bit mxr_bit pte = not (Pte.w pte) || not sum_bit
denied (amo _) sum_bit mxr_bit pte = not (Pte.w pte) || not sum_bit

-- Step 7.
unfoldable pub needs_update : AccessType → ℕ → Bool
needs_update access_type pte = not (Pte.a pte) || (not (Pte.d pte) && is_store access_type)

-- Step 6: one of the page numbers below the level is not zero.
unfoldable pub is_misalign_superpage : StapMode → ℕ → ℕ → Option Bool
unfolding Pte.get_ppn_by_idx
is_misalign_superpage mode zero pte = some false
is_misalign_superpage mode (suc i) pte = do
  below ← is_misalign_superpage mode i pte
  ppn ← Pte.get_ppn_by_idx mode i pte
  some (below || not (ppn == 0))

module _ {T : Type 0} where
  unfoldable pub check_sum_bit : Mmu T → ℕ → Bool
  check_sum_bit mmu pte =
      if is_supervisor mmu.mmu_effective_priv
      then (get_bit sum mmu.mstatus || not (Pte.u pte))
      else true

  unfoldable pub update_access_type : AccessType → Mmu T → Option (Mmu T)
  update_access_type access_type mmu = do
    mode ← satp_mode mmu.satp
    some (record mmu { access_type = access_type; satp_mode = mode })

  -- Loads and stores have the privilege of MPP under MPRV.
  unfoldable pub effective_priv : Mmu T → Option PrivilegeLevels
  unfolding get_mpp_priv
  effective_priv mmu =
      if not (is_fetch mmu.access_type) && get_bit mprv mmu.mstatus
      then get_mpp_priv mmu.mstatus
      else some mmu.cur_priv

  -- Whether the MMU is off, and the state with the privilege that the access has.
  unfoldable pub no_mmu : Mmu T → Option (Bool × Mmu T)
  unfolding effective_priv
  no_mmu mmu = do
    p ← effective_priv mmu
    some (is_machine p || is_bare mmu.satp_mode, record mmu { mmu_effective_priv = p })

  -- With the empty TLB of the configured size, and the cells' values.
  unfoldable pub new : T → PrivilegeLevels → ℕ → ℕ → Mmu T
  new empty privilege mstatus satp = record {
    access_type = load 0;
    mstatus = mstatus;
    satp = satp;
    cur_priv = privilege;
    mmu_effective_priv = machine;
    satp_mode = bare;
    tlb = empty;
    tlb_hit = 0;
    tlb_miss = 0;
  }
