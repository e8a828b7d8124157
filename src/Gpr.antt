-- ===== src/Gpr.antt =====
-- src/rv64core/gpr.rs: the integer registers. `none` is a failed assertion.
pub mod Laws
use riscv64_emu_rust.Base.{
  Bool, true, false, List, Option, none, some, assert, if◌then◌else◌, ℕ, ◌==◌, ltb, replicate,
  get_elem?, set,
}

pub record Gpr : Type 0 where
  pub regs : List ℕ

unfoldable pub new : Gpr
new = record { regs = replicate 32 0 }

-- `unwrap_or(0)`.
abbrev pub unwrap_or : ℕ → Option ℕ → ℕ
unwrap_or d none = d
unwrap_or d (some x) = x

unfoldable pub read : ℕ → Gpr → Option ℕ
read idx gpr =
    assert (ltb idx 32) (some (if idx == 0 then 0 else unwrap_or 0 (get_elem? gpr.regs idx)))

-- Out of the array nothing is written.
unfoldable pub write : ℕ → ℕ → Gpr → Option Gpr
write idx value gpr =
    assert (ltb idx 32) (some (if idx == 0 then gpr else record { regs = set gpr.regs idx value }))
