-- ===== src/Gpr/Laws.antt =====
-- The registers of src/rv64core/gpr.rs as a map.
use riscv64_emu_rust.Base.{
  some, assert, if◌then◌else◌, ℕ, ◌<◌, ◌==◌, ltb, length, set, ◌≡◌, ◌≢◌, refl, ap, ◌∙◌, arith,
  Bool-cases, inl, inr, lt→ltb, length-set, get_elem?-set_self, get_elem?-set_ne, length-replicate,
}
use riscv64_emu_rust.Gpr.{Gpr, read, write, unwrap_or, new}

-- There are 32 registers.
abbrev pub IsWellFormed : Gpr → Type 0
IsWellFormed gpr = length gpr.regs ≡ 32

pub new-IsWellFormed : IsWellFormed new
unfolding new
new-IsWellFormed = length-replicate {A = ℕ} 32 0

-- A write of a register that exists succeeds and keeps the 32 registers. A read of it then gives the
-- value written, 0 for register 0; a read of another register `k` gives what it gave before.
pub read-write :
    (idx k value : ℕ) (gpr : Gpr)
    → idx < 32
    → k ≢ idx
    → IsWellFormed gpr
    → (gpr' : Gpr) × (write idx value gpr ≡ some gpr')
      × IsWellFormed gpr'
      × (read idx gpr' ≡ some (if idx == 0 then 0 else value))
      × (read k gpr' ≡ read k gpr)
unfolding write read
read-write idx k value gpr small ne w = elim (Bool-cases (idx == 0)) [
  | inl z ↦ (gpr, rw (lt→ltb idx 32 small, z) refl, w, rw (lt→ltb idx 32 small, z) refl, refl)
  | inr z ↦ (
    record { regs = set gpr.regs idx value },
    rw (lt→ltb idx 32 small, z) refl,
    length-set gpr.regs idx value ∙ w,
    rw (lt→ltb idx 32 small, z)
        (ap (λ o. some (unwrap_or 0 o)) (get_elem?-set_self gpr.regs idx value (omega arith))),
    ap (λ o. assert (ltb k 32) (some (if k == 0 then 0 else unwrap_or 0 o)))
        (get_elem?-set_ne gpr.regs idx k value (λ e. ne (omega arith))),
  )
]
