-- ===== src/Mmu/Laws.antt =====
-- What src/rv64core/mmu/cpu_mmu.rs promises of a translation.
pub mod Address
pub mod Frame
pub mod Steps
pub mod Leaf
pub mod Reference
use mathlib.Core.Path.{subst}
use native.Mathlib.Nat.{one-le-pow}
use riscv64_emu_rust.Base.{
  zero, suc, le→leb, Bool, true, false, Option, none, some, ◌>>=◌, ℕ, ◌+◌, ◌-◌, ◌*◌, ◌/◌, ◌%◌, ◌^◌,
  ◌≤◌, ◌==◌, ◌≡◌, refl, sym, ap, ◌∙◌, arith, ◌⊎◌, inl, inr, if◌then◌else◌, bit_and, Post, Post-some,
  Post-step, Post-bind, Post-if, Post-mono,
}
use riscv64_emu_rust.Base.Bits.{bit_and_mask}
use riscv64_emu_rust.Access.{
  AccessType, throw_page_exception, throw_addr_misaligned_exception, Result, value, raise, Caches,
}
use riscv64_emu_rust.Bus.{check_aligned}
use riscv64_emu_rust.Trap.{TrapType}
use riscv64_emu_rust.Mmu.{Tlb, Mmu, effective_priv, no_mmu}
use riscv64_emu_rust.Mmu.Walk.{no_tlb, fast_path, page_table_walk, use_entry, translate}
use Address.{pa_of}
use Frame.{IsUsable}
use Steps.{IsBacked, IsAnswer}
use Leaf.{IsFound, walked-IsAnswer, looked-IsAnswer}

module _ {T : Type 0} where
  no_mmu-access_type :
      (mmu : Mmu T) → Post (λ (r : Bool × Mmu T). r.1.access_type ≡ mmu.access_type) (no_mmu mmu)
  unfolding no_mmu
  no_mmu-access_type mmu =
      Post-step (λ (r : Bool × Mmu T). r.1.access_type ≡ mmu.access_type) (effective_priv mmu) _
        (λ p e. refl)

module _ {T M : Type 0} where
  -- What an access is answered with: the address itself where the MMU is off, and else an address
  -- that a leaf backs for the privilege that the access has; or one of the two exceptions.
  abbrev IsTranslation : (Mmu T → ℕ → ℕ → Type 0) → ℕ → ℕ → Mmu T → Result ℕ × Mmu T × M → Type 0
  IsTranslation Found addr len mmu (value pa, mmu', m) =
      (check_aligned addr len ≡ some true)
      × (off : Bool) × (mmu1 : Mmu T) × (no_mmu mmu ≡ some (off, mmu1))
      × (((off ≡ true) × (pa ≡ addr)) ⊎ ((off ≡ false) × IsBacked (Found mmu1) addr mmu1 pa))
  IsTranslation Found addr len mmu (raise t, mmu', m) =
      ((check_aligned addr len ≡ some false)
        × (t ≡ throw_addr_misaligned_exception mmu.access_type))
      ⊎ ((check_aligned addr len ≡ some true) × (t ≡ throw_page_exception mmu.access_type))

  IsTranslation-answer :
      (Found : Mmu T → ℕ → ℕ → Type 0) (addr len : ℕ) (mmu mmu1 : Mmu T) (r : Result ℕ × Mmu T × M)
      → check_aligned addr len ≡ some true
      → no_mmu mmu ≡ some (false, mmu1)
      → mmu1.access_type ≡ mmu.access_type
      → IsAnswer (Found mmu1) addr mmu1 r
      → IsTranslation Found addr len mmu r
  IsTranslation-answer Found addr len mmu mmu1 (value pa, mmu', m) al e a h =
      (al, false, mmu1, e, inr (refl, h))
  IsTranslation-answer Found addr len mmu mmu1 (raise t, mmu', m) al e a h =
      inr (al, h ∙ ap throw_page_exception a)

module _ {M T : Type 0} (caches : Caches M) (tlb : Tlb T) where
  -- Where the leaf of a translation comes from.
  abbrev Source : ℕ → M → Mmu T → ℕ → ℕ → Type 0
  Source addr m mmu1 = IsFound caches tlb addr mmu1 m

  translate-IsTranslation :
      (addr len : ℕ) (mmu : Mmu T) (m : M)
      → Post (IsTranslation (Source addr m) addr len mmu) (translate caches tlb addr len mmu m)
  unfolding translate
  translate-IsTranslation addr len mmu m =
      Post-step (IsTranslation (Source addr m) addr len mmu) (check_aligned addr len) _
        (λ aligned al.
          Post-if (IsTranslation {M = M} (Source addr m) addr len mmu) aligned _ _
            (λ e.
              let al' : check_aligned addr len ≡ some true = al ∙ ap some e in
              Post-step (IsTranslation {M = M} (Source addr m) addr len mmu) (no_mmu mmu) _
                (λ (off, mmu1) run.
                  let a : mmu1.access_type ≡ mmu.access_type =
                    Post-some (λ (r : Bool × Mmu T). r.1.access_type ≡ mmu.access_type) (no_mmu mmu)
                      (off, mmu1) (no_mmu-access_type mmu) run in
                  Post-if (IsTranslation {M = M} (Source addr m) addr len mmu) off _ _
                    (λ o. (al', off, mmu1, run, inl (o, refl)))
                    (λ o.
                      let run' : no_mmu mmu ≡ some (false, mmu1) =
                        run ∙ ap (λ (b : Bool). some (b, mmu1)) o in
                      Post-mono (IsAnswer (Source addr m mmu1) addr mmu1)
                        (IsTranslation (Source addr m) addr len mmu) _
                        (λ r. IsTranslation-answer (Source addr m) addr len mmu mmu1 r al' run' a)
                        (Post-if (IsAnswer {M = M} (Source addr m mmu1) addr mmu1) (no_tlb tlb mmu1)
                          _ _ (λ z. walked-IsAnswer caches tlb addr m mmu1 z)
                          (λ z. looked-IsAnswer caches tlb addr m mmu1 z)))))
            (λ e. inl (al ∙ ap some e, refl)))

  -- A translation that fails raises one of two exceptions, each of the kind of the access: the
  -- misaligned one if and only if the address is misaligned, and else the page fault.
  pub translate-raise :
      (addr len : ℕ) (t : TrapType) (mmu mmu' : Mmu T) (m m' : M)
      → translate caches tlb addr len mmu m ≡ some (raise t, mmu', m')
      → ((check_aligned addr len ≡ some false)
          × (t ≡ throw_addr_misaligned_exception mmu.access_type))
        ⊎ ((check_aligned addr len ≡ some true) × (t ≡ throw_page_exception mmu.access_type))
  translate-raise addr len t mmu mmu' m m' h =
      Post-some (IsTranslation (Source addr m) addr len mmu) (translate caches tlb addr len mmu m)
        (raise t, mmu', m') (translate-IsTranslation addr len mmu m) h

-- The bits of the page offset stay.
pa_of-offset : (i pte va : ℕ) → i ≤ 2 → pa_of i pte va % 2 ^ 12 ≡ va % 2 ^ 12
pa_of-offset zero pte va h = omega arith
pa_of-offset (suc zero) pte va h = omega arith
pa_of-offset (suc (suc zero)) pte va h = omega arith
pa_of-offset (suc (suc (suc i))) pte va h = absurd (omega arith)

check_aligned_mod : (k x : ℕ) → 1 ≤ 2 ^ k → check_aligned x (2 ^ k) ≡ some (x % 2 ^ k == 0)
unfolding check_aligned
check_aligned_mod k x h = rw (le→leb 1 (2 ^ k) h, bit_and_mask k x) refl

low_mod : (k x y : ℕ) → k ≤ 3 → y % 2 ^ 12 ≡ x % 2 ^ 12 → y % 2 ^ k ≡ x % 2 ^ k
low_mod zero x y h e = omega arith
low_mod (suc zero) x y h e = omega arith
low_mod (suc (suc zero)) x y h e = omega arith
low_mod (suc (suc (suc zero))) x y h e = omega arith
low_mod (suc (suc (suc (suc k)))) x y h e = absurd (omega arith)

aligned_shift :
    (k x y : ℕ)
    → k ≤ 3
    → y % 2 ^ 12 ≡ x % 2 ^ 12
    → check_aligned x (2 ^ k) ≡ some true
    → check_aligned y (2 ^ k) ≡ some true
aligned_shift k x y h e al =
    check_aligned_mod k y (one-le-pow k 2 (omega arith))
    ∙ ap (λ (r : ℕ). some (r == 0)) (low_mod k x y h e)
    ∙ sym (check_aligned_mod k x (one-le-pow k 2 (omega arith)))
    ∙ al

module _ {M T : Type 0} (caches : Caches M) (tlb : Tlb T) where
  -- A translation keeps an access of 1, 2, 4 or 8 bytes aligned: where the code has an address for the
  -- bus, the bus's own test of alignment passes. So a misaligned access never gets past the MMU, on or
  -- off.
  pub translate-aligned :
      (addr k pa : ℕ) (mmu mmu' : Mmu T) (m m' : M)
      → k ≤ 3
      → translate caches tlb addr (2 ^ k) mmu m ≡ some (value pa, mmu', m')
      → check_aligned pa (2 ^ k) ≡ some true
  translate-aligned addr k pa mmu mmu' m m' small h =
      let (al, off, mmu1, run, cases) =
        Post-some (IsTranslation (Source caches tlb addr m) addr (2 ^ k) mmu)
          (translate caches tlb addr (2 ^ k) mmu m) (value pa, mmu', m')
          (translate-IsTranslation caches tlb addr (2 ^ k) mmu m) h in
      elim cases [
        | inl (o, e) ↦ aligned_shift k addr pa small (ap (λ (x : ℕ). x % 2 ^ 12) e) al
        | inr (o, (pte, i, found, usable, low, e)) ↦
            aligned_shift k addr pa small
              (ap (λ (x : ℕ). x % 2 ^ 12) e ∙ pa_of-offset i pte addr low) al
      ]
