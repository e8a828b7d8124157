-- ===== src/Mmu/Walk.antt =====
-- `page_table_walk`, `fast_path`, `translate` and `fence_vma` of src/rv64core/mmu/cpu_mmu.rs. The loop of
-- the walk goes down one level in each round, so it is by recursion on the level. `none` is a panic:
-- among others a pointer at the lowest level, whose error the loop drops before it asks for a field of
-- the address that does not exist.
use riscv64_emu_rust.Base.{
  Bool, not, ◌&&◌, ◌||◌, List, [], ◌∷◌, Option, none, some, ◌>>=◌, assert, if◌then◌else◌, ℕ, zero,
  suc, ◌+◌, ◌*◌, ◌^◌, ◌==◌, ltb, bit_and,
}
use riscv64_emu_rust.Base.Bits.{get_bit}
use riscv64_emu_rust.Access.{
  AccessType, throw_page_exception, throw_addr_misaligned_exception, Result, value, raise, Caches,
}
use riscv64_emu_rust.Bus.{Reply, ok, err, check_aligned}
use riscv64_emu_rust.Csr.Xstatus.{mxr}
use riscv64_emu_rust.Mmu.Words.{StapMode, get_levels, get_ptesize, satp_ppn, satp_asid, va_ppn}
use riscv64_emu_rust.Mmu.Pte
use riscv64_emu_rust.Mmu.{
  PageSize, p4k, p2m, p1g, from_i, get_mask, same_size, TlbEntry, TlbKey, get_pa, Tlb, Mmu,
  is_machine, invalid_pte, denied, needs_update, is_misalign_superpage, check_sum_bit, no_mmu,
}

-- A counter of 64 bits.
abbrev pub count : ℕ → Option ℕ
count n = assert (ltb (n + 1) (2 ^ 64)) (some (n + 1))

abbrev pub page_fault : {A M : Type 0} → AccessType → M → Option (Result A × M)
page_fault access_type m = some (raise (throw_page_exception access_type), m)

-- The value of `unwrap`.
abbrev pub unwrap : {M : Type 0} → Reply ℕ × M → Option (ℕ × M)
unwrap (ok pte_data, m) = some (pte_data, m)
unwrap (err _, m) = none

abbrev pub above : {A : Type 0} → (ℕ → Option A) → ℕ → Option A
above f zero = none
above f (suc i) = f i

abbrev pub hit : PageSize → Option TlbEntry → Option TlbEntry
hit size none = none
hit size (some entry) = if same_size entry.page_size size then some entry else none

module _ {T : Type 0} where
  abbrev pub found_or :
      Option (Option TlbEntry × Mmu T) → Mmu T → Option TlbEntry → Option (Option TlbEntry × Mmu T)
  found_or rest mmu none = rest
  found_or rest mmu (some entry) =
      count mmu.tlb_hit >>= λ n. some (some entry, record mmu { tlb_hit = n })

  -- The entry must be found again just as it was inserted.
  abbrev pub confirm : TlbEntry → Option TlbEntry × Mmu T → Option (Mmu T)
  confirm entry (none, mmu) = none
  confirm entry (some res, mmu) =
      assert
        ((res.asid == entry.asid)
          && same_size res.page_size entry.page_size
          && (res.pte == entry.pte))
        (some mmu)

module _ {T : Type 0} (tlb : Tlb T) where
  abbrev pub no_tlb : Mmu T → Bool
  no_tlb mmu = tlb.capacity mmu.tlb == 0

  -- One lookup after the other until one has the size that it asked for.
  unfoldable pub probe : List PageSize → ℕ → Mmu T → Option (Option TlbEntry × Mmu T)
  unfolding get_mask
  probe [] va mmu = do n ← count mmu.tlb_miss; some (none, record mmu { tlb_miss = n })
  probe (size ∷ sizes) va mmu = get_mask size >>= λ mask.
      let asked = tlb.get (record { va = bit_and va mask; asid = satp_asid mmu.satp }) mmu.tlb in
      let mmu' : Mmu T = record mmu { tlb = asked.1 } in
      let rest = probe sizes va mmu' in found_or rest mmu' (hit size asked.0)

  unfoldable pub fast_path : ℕ → Mmu T → Option (Option TlbEntry × Mmu T)
  unfolding probe
  fast_path va mmu = probe (p2m ∷ p4k ∷ p1g ∷ []) va mmu

  -- `i` is the level of the leaf.
  unfoldable pub va_translation_step8 : ℕ → ℕ → ℕ → Mmu T → Option (ℕ × Mmu T)
  unfolding from_i get_mask get_pa fast_path
  va_translation_step8 va i pte mmu = from_i i >>= λ size. get_mask size >>= λ mask.
      let entry : TlbEntry = record { pte = pte; page_size = size; asid = satp_asid mmu.satp } in
      let key : TlbKey = record { va = bit_and va mask; asid = satp_asid mmu.satp } in
      let stored : Mmu T = record mmu { tlb = tlb.insert key entry mmu.tlb } in
      get_pa mmu.satp_mode entry va >>= λ pa.
      if no_tlb mmu
      then some (pa, mmu)
      else (fast_path va stored >>= confirm entry >>= λ mmu'. some (pa, mmu'))

module _ {M : Type 0} where
  -- Steps 3 and 4: a fault, a leaf with its level, or a pointer to follow.
  abbrev pub visit :
      AccessType → ℕ → (ℕ → M → Option (Result (ℕ × ℕ) × M)) → ℕ × M → Option (Result (ℕ × ℕ) × M)
  visit access_type i follow (pte, m) =
      if invalid_pte pte
      then page_fault access_type m
      else if Pte.r pte || Pte.x pte
      then some (value (pte, i), m)
      else follow (Pte.ppn_all pte * 4096) m

module _ {M : Type 0} (caches : Caches M) where
  unfoldable pub va_translation_step2 : StapMode → ℕ → ℕ → ℕ → M → Option (ℕ × M)
  unfolding va_ppn
  va_translation_step2 mode va i a m = do
    ppn ← va_ppn mode i va
    caches.dcache_read (a + ppn * get_ptesize mode) (get_ptesize mode) m >>= unwrap

  -- The loop of the walk from level `i` on, with the table at `a`.
  unfoldable pub find_leaf : StapMode → AccessType → ℕ → ℕ → ℕ → M → Option (Result (ℕ × ℕ) × M)
  unfolding va_translation_step2
  find_leaf mode access_type va zero a m =
      va_translation_step2 mode va zero a m >>= visit access_type zero (λ a' m'. none)
  find_leaf mode access_type va (suc i) a m =
      let follow = find_leaf mode access_type va i in
      va_translation_step2 mode va (suc i) a m >>= visit access_type (suc i) follow

module _ {M T : Type 0} (caches : Caches M) (tlb : Tlb T) where
  -- Steps 5 to 8 on the leaf.
  abbrev pub take_leaf : ℕ → Mmu T → Result (ℕ × ℕ) × M → Option (Result ℕ × Mmu T × M)
  take_leaf va mmu (raise t, m) = some (raise t, mmu, m)
  take_leaf va mmu (value (pte, i), m) =
      let fault = some (raise (throw_page_exception mmu.access_type), mmu, m) in
      let done = va_translation_step8 tlb va i pte mmu >>= λ (pa, mmu'). some (value pa, mmu', m) in
      if denied mmu.access_type (check_sum_bit mmu pte) (get_bit mxr mmu.mstatus) pte
      then fault
      else (is_misalign_superpage mmu.satp_mode i pte >>= λ misaligned.
          if misaligned then fault else if needs_update mmu.access_type pte then fault else done)

  unfoldable pub page_table_walk : ℕ → Mmu T → M → Option (Result ℕ × Mmu T × M)
  unfolding find_leaf
  page_table_walk va mmu m = assert (not (is_machine mmu.mmu_effective_priv)) (
      above (λ i. find_leaf caches mmu.satp_mode mmu.access_type va i (satp_ppn mmu.satp * 4096) m)
        (get_levels mmu.satp_mode)
      >>= take_leaf va mmu)

  -- What `translate` does with the answer of the TLB: the checks of the walk again, or the walk.
  abbrev pub use_entry : ℕ → M → Option TlbEntry × Mmu T → Option (Result ℕ × Mmu T × M)
  use_entry va m (none, mmu) = page_table_walk va mmu m
  use_entry va m (some entry, mmu) =
      let pa = get_pa mmu.satp_mode entry va >>= λ pa. some (value pa, mmu, m) in
      if invalid_pte entry.pte
        || denied mmu.access_type (check_sum_bit mmu entry.pte) (get_bit mxr mmu.mstatus) entry.pte
        || needs_update mmu.access_type entry.pte
      then some (raise (throw_page_exception mmu.access_type), mmu, m)
      else pa

  unfoldable pub translate : ℕ → ℕ → Mmu T → M → Option (Result ℕ × Mmu T × M)
  unfolding no_mmu fast_path page_table_walk
  translate addr len mmu m =
      let mapped = no_mmu mmu >>= λ (off, mmu').
      let walked = page_table_walk addr mmu' m in
      let looked = fast_path tlb addr mmu' >>= use_entry addr m in
      if off then some (value addr, mmu', m) else if no_tlb tlb mmu' then walked else looked in
      check_aligned addr len >>= λ aligned.
      if aligned
      then mapped
      else some (raise (throw_addr_misaligned_exception mmu.access_type), mmu, m)
