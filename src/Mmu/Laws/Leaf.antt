-- ===== src/Mmu/Laws/Leaf.antt =====
-- What the walk and the TLB of src/rv64core/mmu/cpu_mmu.rs answer with, and where its leaf is from.
use mathlib.Core.Path.{subst}
use riscv64_emu_rust.Base.{
  Bool, false, not, ◌||◌, Option, none, some, ◌>>=◌, ℕ, zero, suc, ◌*◌, ◌≡◌, refl, sym, ap, ◌∙◌,
  arith, Post, Post-step, Post-bind, Post-if, Post-assert, Post-mono, Post-both, Post-self, ◌⊎◌,
  inl, inr, true,
}
use riscv64_emu_rust.Base.Bits.{get_bit}
use riscv64_emu_rust.Access.{AccessType, throw_page_exception, Result, value, raise, Caches}
use riscv64_emu_rust.Csr.Xstatus.{mxr}
use riscv64_emu_rust.Mmu.Words.{StapMode, satp_ppn, get_levels}
use riscv64_emu_rust.Mmu.{
  TlbEntry, get_pa, Tlb, Mmu, is_machine, invalid_pte, denied, needs_update, is_misalign_superpage,
  check_sum_bit,
}
use riscv64_emu_rust.Mmu.Walk.{
  no_tlb, fast_path, va_translation_step8, find_leaf, above, take_leaf, page_table_walk, use_entry,
}
use riscv64_emu_rust.Mmu.Laws.Address.{level, get_pa-pa_of}
use riscv64_emu_rust.Mmu.Laws.Frame.{
  IsUsable, IsUsable-checked, SameControl, IsSized, IsLookup, fast_path-frame,
}
use riscv64_emu_rust.Mmu.Laws.Steps.{
  IsAnswer, IsPlaced, IsLeaf, level-le, some_eq, step8-Post, find_leaf-IsLeaf,
}

module _ {M : Type 0} (caches : Caches M) where
  abbrev pub walk : StapMode → AccessType → ℕ → ℕ → M → Option (Result (ℕ × ℕ) × M)
  walk mode access_type satp va m =
      above (λ i. find_leaf caches mode access_type va i (satp_ppn satp * 4096) m) (get_levels mode)

  -- The walk from the root in memory ends at this leaf, and the page numbers below its level are 0.
  abbrev pub IsWalked : StapMode → AccessType → ℕ → ℕ → M → ℕ → ℕ → Type 0
  IsWalked mode access_type satp va m pte i =
      (m' : M) × (walk mode access_type satp va m ≡ some (value (pte, i), m'))
      × (is_misalign_superpage mode i pte ≡ some false)

module _ {T : Type 0} (tlb : Tlb T) where
  -- The lookup in the TLB gives this leaf.
  abbrev pub IsHit : ℕ → Mmu T → ℕ → ℕ → Type 0
  IsHit va mmu pte i =
      (entry : TlbEntry) × (mmu' : Mmu T) × (fast_path tlb va mmu ≡ some (some entry, mmu'))
      × (entry.pte ≡ pte)
      × (level entry.page_size ≡ i)

  abbrev pub IsMiss : ℕ → Mmu T → Type 0
  IsMiss va mmu = (mmu' : Mmu T) × (fast_path tlb va mmu ≡ some (none, mmu'))

module _ {M T : Type 0} (caches : Caches M) (tlb : Tlb T) where
  -- The leaf in the TLB; or the one in memory, where there is no TLB or it has none.
  abbrev pub IsFound : ℕ → Mmu T → M → ℕ → ℕ → Type 0
  IsFound va mmu m pte i =
      ((no_tlb tlb mmu ≡ false) × IsHit tlb va mmu pte i)
      ⊎ (((no_tlb tlb mmu ≡ true) ⊎ IsMiss tlb va mmu)
          × IsWalked caches mmu.satp_mode mmu.access_type mmu.satp va m pte i)

  -- The leaf that memory has.
  abbrev pub InMemory : ℕ → Mmu T → M → ℕ → ℕ → Type 0
  InMemory va mmu m = IsWalked caches mmu.satp_mode mmu.access_type mmu.satp va m

  take_leaf-IsAnswer :
      (va : ℕ) (mmu : Mmu T) (m0 : M) (r : Result (ℕ × ℕ) × M)
      → IsLeaf mmu.access_type r
      → walk caches mmu.satp_mode mmu.access_type mmu.satp va m0 ≡ some r
      → Post (IsAnswer (InMemory va mmu m0) va mmu) (take_leaf caches tlb va mmu r)
  take_leaf-IsAnswer va mmu m0 (raise t, m) h run = h
  take_leaf-IsAnswer va mmu m0 (value (pte, i), m) h run =
      Post-if (IsAnswer {M = M} (InMemory va mmu m0) va mmu)
        (denied mmu.access_type (check_sum_bit mmu pte) (get_bit mxr mmu.mstatus) pte) _ _
        (λ e. refl)
        (λ granted.
          Post-step (IsAnswer (InMemory va mmu m0) va mmu)
            (is_misalign_superpage mmu.satp_mode i pte) _
            (λ misaligned e.
              Post-if (IsAnswer {M = M} (InMemory va mmu m0) va mmu) misaligned _ _ (λ e'. refl)
                (λ e'.
                  Post-if (IsAnswer {M = M} (InMemory va mmu m0) va mmu)
                    (needs_update mmu.access_type pte) _ _ (λ e''. refl)
                    (λ fresh.
                      Post-bind (IsPlaced va i pte) (IsAnswer (InMemory va mmu m0) va mmu)
                        (va_translation_step8 tlb va i pte mmu) _ (step8-Post tlb va i pte mmu)
                        (λ (pa, mmu') (low, at). (
                          pte,
                          i,
                          (m, run, e ∙ ap some e'),
                          IsUsable-checked mmu.access_type mmu pte h granted fresh,
                          low,
                          at,
                        ))))))

  above-IsLeaf :
      (f : ℕ → Option (Result (ℕ × ℕ) × M)) (access_type : AccessType) (n : ℕ)
      → ((i : ℕ) → Post (IsLeaf access_type) (f i))
      → Post (IsLeaf access_type) (above f n)
  above-IsLeaf f access_type zero h = tt
  above-IsLeaf f access_type (suc i) h = h i

  pub page_table_walk-IsAnswer :
      (va : ℕ) (mmu : Mmu T) (m : M)
      → Post (IsAnswer (InMemory va mmu m) va mmu) (page_table_walk caches tlb va mmu m)
  unfolding page_table_walk
  page_table_walk-IsAnswer va mmu m =
      let walked = walk caches mmu.satp_mode mmu.access_type mmu.satp va m in
      Post-assert (IsAnswer (InMemory va mmu m) va mmu) (not (is_machine mmu.mmu_effective_priv)) _
        (λ e.
          Post-bind (λ (r : Result (ℕ × ℕ) × M). IsLeaf mmu.access_type r × (walked ≡ some r))
            (IsAnswer (InMemory va mmu m) va mmu) walked (take_leaf caches tlb va mmu)
            (Post-both (IsLeaf mmu.access_type) (λ r. walked ≡ some r) walked
              (above-IsLeaf _ mmu.access_type (get_levels mmu.satp_mode) (λ i.
                find_leaf-IsLeaf caches mmu.satp_mode mmu.access_type va i
                  (satp_ppn mmu.satp * 4096) m))
              (Post-self walked))
            (λ r (h, run). take_leaf-IsAnswer va mmu m r h run))

  -- An answer with the leaf from one source is one with the leaf from a wider one.
  pub IsAnswer-mono :
      (Found Found' : ℕ → ℕ → Type 0) (va : ℕ) (mmu : Mmu T) (r : Result ℕ × Mmu T × M)
      → ((pte i : ℕ) → Found pte i → Found' pte i)
      → IsAnswer Found va mmu r
      → IsAnswer Found' va mmu r
  IsAnswer-mono Found Found' va mmu (value pa, mmu', m) f (pte, i, found, usable, low, at) =
      (pte, i, f pte i found, usable, low, at)
  IsAnswer-mono Found Found' va mmu (raise t, mmu', m) f h = h

  or_left : (a b c : Bool) → (a || b || c) ≡ false → (a ≡ false) × (b ≡ false) × (c ≡ false)
  or_left a b c h = ground arith

  -- An answer for the state after the lookup is one for the state before it.
  IsAnswer-frame :
      (Found : ℕ → ℕ → Type 0) (va : ℕ) (mmu mmu' : Mmu T) (r : Result ℕ × Mmu T × M)
      → SameControl mmu mmu'
      → IsAnswer Found va mmu' r
      → IsAnswer Found va mmu r
  IsAnswer-frame Found va mmu mmu' (value pa, mmu'', m) (a, b, c, d, e)
        (pte, i, found, usable, low, at) =
      (
        pte,
        i,
        found,
        subst (λ t. IsUsable t mmu.mstatus mmu.mmu_effective_priv pte) a
            (subst (λ (x : ℕ). IsUsable mmu'.access_type x mmu.mmu_effective_priv pte) b
              (subst (λ p. IsUsable mmu'.access_type mmu'.mstatus p pte) c usable)),
        low,
        at,
      )
  IsAnswer-frame Found va mmu mmu' (raise t, mmu'', m) (a, b, c, d, e) h =
      h ∙ ap throw_page_exception a

  -- The walk sees the access type, the mode and the root only.
  InMemory-frame :
      (va : ℕ) (mmu mmu' : Mmu T) (m : M) (pte i : ℕ)
      → SameControl mmu mmu'
      → InMemory va mmu' m pte i
      → InMemory va mmu m pte i
  InMemory-frame va mmu mmu' m pte i (a, b, c, d, e) h =
      subst (λ t. IsWalked caches mmu.satp_mode t mmu.satp va m pte i) a
        (subst (λ mode. IsWalked caches mode mmu'.access_type mmu.satp va m pte i) d
          (subst (λ (x : ℕ). IsWalked caches mmu'.satp_mode mmu'.access_type x va m pte i) e h))

  use_entry-IsAnswer :
      (va : ℕ) (m : M) (mmu mmu' : Mmu T) (o : Option TlbEntry)
      → no_tlb tlb mmu ≡ false
      → fast_path tlb va mmu ≡ some (o, mmu')
      → SameControl mmu mmu'
      → IsSized o
      → Post (IsAnswer (IsFound va mmu m) va mmu) (use_entry caches tlb va m (o, mmu'))
  use_entry-IsAnswer va m mmu mmu' none on run c h =
      Post-mono (IsAnswer (InMemory va mmu' m) va mmu') (IsAnswer (IsFound va mmu m) va mmu)
        (page_table_walk caches tlb va mmu' m)
        (λ r answer.
          IsAnswer-mono (InMemory va mmu' m) (IsFound va mmu m) va mmu r
            (λ pte i found. inr (inr (mmu', run), InMemory-frame va mmu mmu' m pte i c found))
            (IsAnswer-frame (InMemory va mmu' m) va mmu mmu' r c answer))
        (page_table_walk-IsAnswer va mmu' m)
  use_entry-IsAnswer va m mmu mmu' (some entry) on run c (mask, em) =
      Post-if (IsAnswer {M = M} (IsFound va mmu m) va mmu)
        (invalid_pte entry.pte
          || denied mmu'.access_type (check_sum_bit mmu' entry.pte) (get_bit mxr mmu'.mstatus)
              entry.pte
          || needs_update mmu'.access_type entry.pte)
        _ _ (λ e. ap throw_page_exception c.0)
        (λ e.
          let (valid, granted, fresh) =
            or_left (invalid_pte entry.pte)
              (denied mmu'.access_type (check_sum_bit mmu' entry.pte) (get_bit mxr mmu'.mstatus)
                entry.pte)
              (needs_update mmu'.access_type entry.pte) e in
          Post-step (IsAnswer {M = M} (IsFound va mmu m) va mmu) (get_pa mmu'.satp_mode entry va) _
            (λ pa ep.
              IsAnswer-frame (IsFound va mmu m) va mmu mmu' (value pa, mmu', m) c
                (
                  entry.pte,
                  level entry.page_size,
                  inl (on, (entry, mmu', run, refl, refl)),
                  IsUsable-checked mmu'.access_type mmu' entry.pte valid granted fresh,
                  level-le entry.page_size em,
                  some_eq (
                      sym ep
                      ∙ get_pa-pa_of mmu'.satp_mode entry.pte va entry.asid entry.page_size em),
                )))

  pub looked-IsAnswer :
      (va : ℕ) (m : M) (mmu : Mmu T)
      → no_tlb tlb mmu ≡ false
      → Post
          (IsAnswer (IsFound va mmu m) va mmu)
          (fast_path tlb va mmu >>= use_entry caches tlb va m)
  looked-IsAnswer va m mmu on =
      Post-bind (λ r. IsLookup mmu r × (fast_path tlb va mmu ≡ some r))
        (IsAnswer (IsFound va mmu m) va mmu) (fast_path tlb va mmu) (use_entry caches tlb va m)
        (Post-both (IsLookup mmu) (λ r. fast_path tlb va mmu ≡ some r) (fast_path tlb va mmu)
          (fast_path-frame tlb va mmu) (Post-self (fast_path tlb va mmu)))
        (λ (o, mmu') ((sized, c), run). use_entry-IsAnswer va m mmu mmu' o on run c sized)

  pub walked-IsAnswer :
      (va : ℕ) (m : M) (mmu : Mmu T)
      → no_tlb tlb mmu ≡ true
      → Post (IsAnswer (IsFound va mmu m) va mmu) (page_table_walk caches tlb va mmu m)
  walked-IsAnswer va m mmu off =
      Post-mono (IsAnswer (InMemory va mmu m) va mmu) (IsAnswer (IsFound va mmu m) va mmu)
        (page_table_walk caches tlb va mmu m)
        (λ r.
          IsAnswer-mono (InMemory va mmu m) (IsFound va mmu m) va mmu r
            (λ pte i found. inr (inl off, found)))
        (page_table_walk-IsAnswer va mmu m)
