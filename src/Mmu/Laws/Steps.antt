-- ===== src/Mmu/Laws/Steps.antt =====
-- The answer of the walk and the TLB of src/rv64core/mmu/cpu_mmu.rs, and its steps 2 to 4 and 8.
use mathlib.Core.Path.{subst}
use riscv64_emu_rust.Base.{
  false, ◌||◌, Option, none, some, ℕ, zero, suc, ◌*◌, ◌≤◌, ◌≡◌, refl, sym, ◌∙◌, arith, Post,
  Post-step, Post-if,
}
use riscv64_emu_rust.Access.{AccessType, throw_page_exception, Result, value, raise, Caches}
use riscv64_emu_rust.Mmu.Words.{StapMode, satp_asid}
use riscv64_emu_rust.Mmu.Pte
use riscv64_emu_rust.Mmu.{
  PageSize, p4k, p2m, p1g, p512g, p256t, invalid, from_i, get_mask, get_pa, Tlb, Mmu, invalid_pte,
}
use riscv64_emu_rust.Mmu.Walk.{no_tlb, va_translation_step8, va_translation_step2, visit, find_leaf}
use riscv64_emu_rust.Mmu.Laws.Address.{level, pa_of, get_pa-pa_of}
use riscv64_emu_rust.Mmu.Laws.Frame.{IsUsable}

module _ {T : Type 0} where
  -- The leaf that backs a physical address: its entry is found, at its level, and grants the access, and
  -- the address is put together from the entry's page number and the virtual address.
  abbrev pub IsBacked : (ℕ → ℕ → Type 0) → ℕ → Mmu T → ℕ → Type 0
  IsBacked Found va mmu pa =
      (pte : ℕ) × (i : ℕ) × Found pte i
      × IsUsable mmu.access_type mmu.mstatus mmu.mmu_effective_priv pte
      × (i ≤ 2)
      × (pa ≡ pa_of i pte va)

module _ {T M : Type 0} where
  abbrev pub IsAnswer : (ℕ → ℕ → Type 0) → ℕ → Mmu T → Result ℕ × Mmu T × M → Type 0
  IsAnswer Found va mmu (value pa, mmu', m) = IsBacked Found va mmu pa
  IsAnswer Found va mmu (raise t, mmu', m) = t ≡ throw_page_exception mmu.access_type

module _ {T : Type 0} where
  abbrev pub IsPlaced : ℕ → ℕ → ℕ → ℕ × Mmu T → Type 0
  IsPlaced va i pte (pa, mmu) = (i ≤ 2) × (pa ≡ pa_of i pte va)

module _ {M : Type 0} where
  -- A leaf that the loop stops at was not refused by step 3.
  abbrev pub IsLeaf : AccessType → Result (ℕ × ℕ) × M → Type 0
  IsLeaf access_type (value (pte, i), m) = invalid_pte pte ≡ false
  IsLeaf access_type (raise t, m) = t ≡ throw_page_exception access_type

pub level-le : (size : PageSize) {mask : ℕ} → get_mask size ≡ some mask → level size ≤ 2
unfolding get_mask
level-le p4k h = omega arith
level-le p2m h = omega arith
level-le p1g h = omega arith
level-le p512g h = absurd (ground arith)
level-le p256t h = absurd (ground arith)
level-le invalid h = omega arith

from_i-level : (i : ℕ) (size : PageSize) → from_i i ≡ some size → level size ≡ i
unfolding from_i
from_i-level zero size h = ground arith
from_i-level (suc zero) size h = ground arith
from_i-level (suc (suc zero)) size h = ground arith
from_i-level (suc (suc (suc zero))) size h = ground arith
from_i-level (suc (suc (suc (suc zero)))) size h = ground arith
from_i-level (suc (suc (suc (suc (suc i))))) size h = cc

pub some_eq : {a b : ℕ} → some a ≡ some b → a ≡ b
some_eq e = cc

placed_lem :
    (va i pte pa : ℕ) (size : PageSize)
    → level size ≡ i
    → pa ≡ pa_of (level size) pte va
    → pa ≡ pa_of i pte va
placed_lem va i pte pa size at h = subst (λ k. pa ≡ pa_of k pte va) at h

module _ {T : Type 0} (tlb : Tlb T) where
  pub step8-Post :
      (va i pte : ℕ) (mmu : Mmu T)
      → Post (IsPlaced va i pte) (va_translation_step8 tlb va i pte mmu)
  unfolding va_translation_step8
  step8-Post va i pte mmu = Post-step (IsPlaced va i pte) (from_i i) _ (λ size es.
      Post-step (IsPlaced va i pte) (get_mask size) _ (λ mask em.
        let at : level size ≡ i = from_i-level i size es in
        let low : i ≤ 2 = subst (λ k. k ≤ 2) at (level-le size em) in
        let made = get_pa-pa_of mmu.satp_mode pte va (satp_asid mmu.satp) size em in
        Post-step (IsPlaced va i pte)
          (get_pa mmu.satp_mode (record { pte = pte; page_size = size; asid = satp_asid mmu.satp })
            va)
          _
          (λ pa ep.
            let placed : pa ≡ pa_of i pte va =
              placed_lem va i pte pa size at (some_eq (sym ep ∙ made)) in
            Post-if (IsPlaced va i pte) (no_tlb tlb mmu) _ _ (λ e. (low, placed))
              (λ e.
                Post-step {A = Mmu T} (IsPlaced {T = T} va i pte) _ (λ mmu'. some (pa, mmu'))
                  (λ mmu' e'. (low, placed))))))

module _ {M : Type 0} where
  visit-IsLeaf :
      (access_type : AccessType) (i : ℕ) (follow : ℕ → M → Option (Result (ℕ × ℕ) × M)) (pte : ℕ)
      (m : M)
      → ((a' : ℕ) (m' : M) → Post (IsLeaf access_type) (follow a' m'))
      → Post (IsLeaf access_type) (visit access_type i follow (pte, m))
  visit-IsLeaf access_type i follow pte m h =
      Post-if (IsLeaf access_type) (invalid_pte pte) _ _ (λ e. refl)
        (λ e.
          Post-if (IsLeaf access_type) (Pte.r pte || Pte.x pte) _ _ (λ e'. e)
            (λ e'. h (Pte.ppn_all pte * 4096) m))

module _ {M : Type 0} (caches : Caches M) where
  pub find_leaf-IsLeaf :
      (mode : StapMode) (access_type : AccessType) (va i a : ℕ) (m : M)
      → Post (IsLeaf access_type) (find_leaf caches mode access_type va i a m)
  unfolding find_leaf
  find_leaf-IsLeaf mode access_type va zero a m =
      Post-step (IsLeaf access_type) (va_translation_step2 caches mode va zero a m) _
        (λ (pte, m') e. visit-IsLeaf access_type zero (λ a' m''. none) pte m' (λ a' m''. tt))
  find_leaf-IsLeaf mode access_type va (suc i) a m =
      Post-step (IsLeaf access_type) (va_translation_step2 caches mode va (suc i) a m) _
        (λ (pte, m') e.
          visit-IsLeaf access_type (suc i) (find_leaf caches mode access_type va i) pte m'
            (λ a' m'. find_leaf-IsLeaf mode access_type va i a' m'))
