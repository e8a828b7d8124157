-- ===== src/Mmu/Laws/Frame.antt =====
-- What the TLB's lookups in src/rv64core/mmu/cpu_mmu.rs leave alone, and what the permission checks of
-- the walk let through.
use riscv64_emu_rust.Base.{
  true, false, List, [], ◌∷◌, Option, none, some, ℕ, ◌≡◌, refl, ap, ◌∙◌, arith, ◌⊎◌, inl, inr,
  Bool-cases, Post, Post-step, Post-mono, bit_and,
}
use riscv64_emu_rust.Base.Bits.{get_bit}
use riscv64_emu_rust.Access.{AccessType, load, store, fetch, amo}
use riscv64_emu_rust.Csr.Xstatus.{sum, mxr}
use riscv64_emu_rust.Trap.{PrivilegeLevels}
use riscv64_emu_rust.Mmu.Words.{satp_asid}
use riscv64_emu_rust.Mmu.Pte
use riscv64_emu_rust.Mmu.{
  PageSize, p4k, p2m, p1g, get_mask, same_size, TlbEntry, Tlb, Mmu, is_supervisor, invalid_pte,
  denied, needs_update, check_sum_bit,
}
use riscv64_emu_rust.Mmu.Walk.{count, hit, found_or, probe, fast_path}

-- In supervisor mode a page of user mode is reached only under SUM.
abbrev pub SumAllows : ℕ → PrivilegeLevels → ℕ → Type 0
SumAllows mstatus p pte =
    (is_supervisor p ≡ false) ⊎ (get_bit sum mstatus ≡ true) ⊎ (Pte.u pte ≡ false)

-- The bits that each kind of access needs of the entry.
abbrev pub Grants : AccessType → ℕ → PrivilegeLevels → ℕ → Type 0
Grants (fetch _) mstatus p pte = Pte.x pte ≡ true
Grants (load _) mstatus p pte =
    ((Pte.r pte ≡ true) ⊎ ((Pte.x pte ≡ true) × (get_bit mxr mstatus ≡ true)))
    × SumAllows mstatus p pte
Grants (store _) mstatus p pte = (Pte.w pte ≡ true) × (Pte.d pte ≡ true) × SumAllows mstatus p pte
Grants (amo _) mstatus p pte = (Pte.w pte ≡ true) × (Pte.d pte ≡ true) × SumAllows mstatus p pte

-- The entry is valid and was accessed before, what is writable is readable, and the access is granted.
abbrev pub IsUsable : AccessType → ℕ → PrivilegeLevels → ℕ → Type 0
IsUsable access_type mstatus p pte =
    (Pte.v pte ≡ true)
    × (Pte.a pte ≡ true)
    × ((Pte.r pte ≡ true) ⊎ (Pte.w pte ≡ false))
    × Grants access_type mstatus p pte

module _ {T : Type 0} where
  abbrev pub SameControl : Mmu T → Mmu T → Type 0
  SameControl mmu mmu' =
      (mmu'.access_type ≡ mmu.access_type)
      × (mmu'.mstatus ≡ mmu.mstatus)
      × (mmu'.mmu_effective_priv ≡ mmu.mmu_effective_priv)
      × (mmu'.satp_mode ≡ mmu.satp_mode)
      × (mmu'.satp ≡ mmu.satp)

  pub Grants-checked :
      (access_type : AccessType) (mmu : Mmu T) (pte : ℕ)
      → denied access_type (check_sum_bit mmu pte) (get_bit mxr mmu.mstatus) pte ≡ false
      → needs_update access_type pte ≡ false
      → Grants access_type mmu.mstatus mmu.mmu_effective_priv pte
  unfolding denied needs_update check_sum_bit
  Grants-checked (fetch t) mmu pte h k = ground arith
  Grants-checked (load t) mmu pte h k = ground arith
  Grants-checked (store t) mmu pte h k = ground arith
  Grants-checked (amo t) mmu pte h k = ground arith

  pub IsUsable-checked :
      (access_type : AccessType) (mmu : Mmu T) (pte : ℕ)
      → invalid_pte pte ≡ false
      → denied access_type (check_sum_bit mmu pte) (get_bit mxr mmu.mstatus) pte ≡ false
      → needs_update access_type pte ≡ false
      → IsUsable access_type mmu.mstatus mmu.mmu_effective_priv pte
  unfolding invalid_pte needs_update
  IsUsable-checked access_type mmu pte i h k =
      (ground arith, ground arith, ground arith, Grants-checked access_type mmu pte h k)

-- An entry that is found has a size with a mask.
abbrev pub IsSized : Option TlbEntry → Type 0
IsSized none = Unit
IsSized (some entry) = (mask : ℕ) × (get_mask entry.page_size ≡ some mask)

same_size_eq : (a b : PageSize) → same_size a b ≡ true → a ≡ b
same_size_eq a b h = ground arith

hit-IsSized :
    (size : PageSize) (o : Option TlbEntry) (mask : ℕ)
    → get_mask size ≡ some mask
    → IsSized (hit size o)
hit-IsSized size none mask h = tt
hit-IsSized size (some entry) mask h = elim (Bool-cases (same_size entry.page_size size)) [
  | inl e ↦ rw e (mask, ap get_mask (same_size_eq entry.page_size size e) ∙ h)
  | inr e ↦ rw e tt
]

module _ {T : Type 0} where
  abbrev pub IsLookup : Mmu T → Option TlbEntry × Mmu T → Type 0
  IsLookup mmu (o, mmu') = IsSized o × SameControl mmu mmu'

  found_or-frame :
      (rest : Option (Option TlbEntry × Mmu T)) (mmu mmu' : Mmu T) (o : Option TlbEntry)
      → SameControl mmu mmu'
      → IsSized o
      → Post (IsLookup mmu) rest
      → Post (IsLookup mmu) (found_or rest mmu' o)
  found_or-frame rest mmu mmu' none c h k = k
  found_or-frame rest mmu mmu' (some entry) c h k =
      Post-step (IsLookup mmu) (count mmu'.tlb_hit)
        (λ n. some (some entry, record mmu' { tlb_hit = n })) (λ n e. (h, c))

  IsLookup-mono :
      (mmu mmu' : Mmu T) (r : Option TlbEntry × Mmu T)
      → SameControl mmu mmu'
      → IsLookup mmu' r
      → IsLookup mmu r
  IsLookup-mono mmu mmu' (o, mmu'') (a, b, c, d, e) (h, (a', b', c', d', e')) =
      (h, (a' ∙ a, b' ∙ b, c' ∙ c, d' ∙ d, e' ∙ e))

module _ {T : Type 0} (tlb : Tlb T) where
  asked_lem :
      (va mask : ℕ) (mmu : Mmu T)
      → SameControl mmu (record mmu {
        tlb = (tlb.get (record { va = bit_and va mask; asid = satp_asid mmu.satp }) mmu.tlb).1;
      })
  asked_lem va mask mmu = (refl, refl, refl, refl, refl)

  pub probe-frame :
      (sizes : List PageSize) (va : ℕ) (mmu : Mmu T) → Post (IsLookup mmu) (probe tlb sizes va mmu)
  unfolding probe
  probe-frame [] va mmu =
      Post-step (IsLookup mmu) (count mmu.tlb_miss) (λ n. some (none, record mmu { tlb_miss = n }))
        (λ n e. (tt, (refl, refl, refl, refl, refl)))
  probe-frame (size ∷ sizes) va mmu = Post-step (IsLookup mmu) (get_mask size) _ (λ mask e.
      let asked = tlb.get (record { va = bit_and va mask; asid = satp_asid mmu.satp }) mmu.tlb in
      let mmu' : Mmu T = record mmu { tlb = asked.1 } in
      found_or-frame (probe tlb sizes va mmu') mmu mmu' (hit size asked.0) (asked_lem va mask mmu)
        (hit-IsSized size asked.0 mask e)
        (Post-mono (IsLookup mmu') (IsLookup mmu) (probe tlb sizes va mmu')
          (λ r. IsLookup-mono mmu mmu' r (asked_lem va mask mmu)) (probe-frame sizes va mmu')))

  pub fast_path-frame : (va : ℕ) (mmu : Mmu T) → Post (IsLookup mmu) (fast_path tlb va mmu)
  unfolding fast_path
  fast_path-frame va mmu = probe-frame (p2m ∷ p4k ∷ p1g ∷ []) va mmu
