-- ===== src/Cpu/Laws/Status.antt =====
-- The status words that traps and returns leave, in src/rv64core/cpu_core.rs and
-- src/rv64core/inst/inst_rv64z.rs: what they keep of the word before.
use riscv64_emu_rust.Base.{
  Bool, true, false, not, some, if◌then◌else◌, ℕ, ◌≤◌, ◌<◌, ◌==◌, leb, ◌≡◌, refl, ap, ◌∙◌, inl, inr,
  arith, Bool-cases, suc, zero,
}
use riscv64_emu_rust.Base.Bits.{get_bit, set_bit, get_field, get_bit-set_bit}
use riscv64_emu_rust.Base.Fields.{get_bit-set_field, get_field-set_field}
use riscv64_emu_rust.Trap.{PrivilegeLevels, user, supervisor, machine, priv_num, priv_from_usize}
use riscv64_emu_rust.Csr.Xstatus.{
  sie, mie, spie, mpie, spp, tsr, mpp, set_mpp, get_mpp_priv, get_spp_priv,
}
use riscv64_emu_rust.Cpu.Traps.{status_s, exception_status_m, interrupt_status_m}
use riscv64_emu_rust.Cpu.Return.{mret_status, sret_status}

-- A field is the same in words with the same bits there.
get_field_ext :
    (lo w x y : ℕ)
    → ((j : ℕ) → lo ≤ j → get_bit j x ≡ get_bit j y)
    → get_field lo w x ≡ get_field lo w y
unfolding get_field
get_field_ext lo zero x y same = refl
get_field_ext lo (suc w) x y same =
    rw (same lo (omega arith), get_field_ext (suc lo) w x y (λ j h. same j (omega arith))) refl

mpp-set_bit : (k : ℕ) (v : Bool) (x : ℕ) → k < 11 → mpp (set_bit k v x) ≡ mpp x
mpp-set_bit k v x h =
    get_field_ext 11 2 (set_bit k v x) x (λ j q. rw (get_bit-set_bit j k v x) (ground arith))

mpp-set_mpp : (v x : ℕ) → v < 4 → mpp (set_mpp v x) ≡ v
mpp-set_mpp v x h = get_field-set_field 11 2 v x ∙ omega arith

bit-set_mpp : (j v x : ℕ) → j < 11 → get_bit j (set_mpp v x) ≡ get_bit j x
bit-set_mpp j v x h = get_bit-set_field j 11 2 v x (inl h)

priv_num-lt : (p : PrivilegeLevels) → priv_num p < 4
unfolding priv_num
priv_num-lt user = omega arith
priv_num-lt supervisor = omega arith
priv_num-lt machine = omega arith

priv_from_usize-priv_num : (p : PrivilegeLevels) → priv_from_usize (priv_num p) ≡ some p
unfolding priv_num priv_from_usize
priv_from_usize-priv_num user = refl
priv_from_usize-priv_num supervisor = refl
priv_from_usize-priv_num machine = refl

pub mpp-exception_status_m :
    (p : PrivilegeLevels) (x : ℕ) → get_mpp_priv (exception_status_m p x) ≡ some p
unfolding get_mpp_priv exception_status_m
mpp-exception_status_m p x =
    ap priv_from_usize (
      mpp-set_mpp (priv_num p) (set_bit mie false (set_bit mpie (get_bit mie x) x)) (priv_num-lt p))
    ∙ priv_from_usize-priv_num p

pub mpp-interrupt_status_m :
    (p : PrivilegeLevels) (x : ℕ) → get_mpp_priv (interrupt_status_m p x) ≡ some p
unfolding get_mpp_priv interrupt_status_m
mpp-interrupt_status_m p x =
    let y : ℕ = set_bit mpie (get_bit mie x) x in
    ap priv_from_usize (
      mpp-set_bit mie false (set_mpp (priv_num p) y) (omega arith)
      ∙ mpp-set_mpp (priv_num p) y (priv_num-lt p))
    ∙ priv_from_usize-priv_num p

-- MRET puts the saved interrupt flag back.
pub mie-mret_status :
    (u : Bool) (y : PrivilegeLevels) (x : ℕ) → get_bit mie (mret_status u y x) ≡ get_bit mpie x
unfolding mret_status
mie-mret_status u y x =
    let v : ℕ = if u then priv_num user else priv_num machine in
    let z : ℕ = set_bit mpie true (set_bit mie (get_bit mpie x) x) in
    let at_z : get_bit mie z ≡ get_bit mpie x =
      rw
        (
          get_bit-set_bit 3 7 true (set_bit mie (get_bit mpie x) x),
          get_bit-set_bit 3 3 (get_bit mpie x) x,
        )
        refl in
    let at_m : get_bit mie (set_mpp v z) ≡ get_bit mpie x =
      bit-set_mpp 3 v z (omega arith) ∙ at_z in
    elim (Bool-cases (not (priv_num y == priv_num machine))) [
      | inl e ↦ rw (e, get_bit-set_bit 3 17 false (set_mpp v z)) at_m
      | inr e ↦ rw e at_m
    ]

pub mpie-exception_status_m :
    (p : PrivilegeLevels) (x : ℕ) → get_bit mpie (exception_status_m p x) ≡ get_bit mie x
unfolding exception_status_m
mpie-exception_status_m p x =
    let y : ℕ = set_bit mpie (get_bit mie x) x in
    bit-set_mpp 7 (priv_num p) (set_bit mie false y) (omega arith)
    ∙ rw (get_bit-set_bit 7 3 false y, get_bit-set_bit 7 7 (get_bit mie x) x) refl

pub mpie-interrupt_status_m :
    (p : PrivilegeLevels) (x : ℕ) → get_bit mpie (interrupt_status_m p x) ≡ get_bit mie x
unfolding interrupt_status_m
mpie-interrupt_status_m p x =
    let y : ℕ = set_bit mpie (get_bit mie x) x in
    rw
      (
        get_bit-set_bit 7 3 false (set_mpp (priv_num p) y),
        bit-set_mpp 7 (priv_num p) y (omega arith),
      )
      (rw (get_bit-set_bit 7 7 (get_bit mie x) x) refl)

spp_priv :
    (q : PrivilegeLevels)
    → leb (priv_num q) 1 ≡ true
    → (if not (priv_num q == 0) then supervisor else user) ≡ q
unfolding priv_num
spp_priv user g = refl
spp_priv supervisor g = refl
spp_priv machine g = absurd (ground arith)

pub spp-status_s :
    (p : PrivilegeLevels) (x : ℕ) → leb (priv_num p) 1 ≡ true → get_spp_priv (status_s p x) ≡ p
unfolding get_spp_priv status_s priv_num
spp-status_s p x h =
    let v : Bool = not (priv_num p == 0) in
    let y : ℕ = set_bit spp v x in
    rw
      (
        get_bit-set_bit 8 1 false (set_bit spie (get_bit sie y) y),
        get_bit-set_bit 8 5 (get_bit sie y) y,
        get_bit-set_bit 8 8 v x,
      )
      (spp_priv p h)

pub spie-status_s : (p : PrivilegeLevels) (x : ℕ) → get_bit spie (status_s p x) ≡ get_bit sie x
unfolding status_s
spie-status_s p x =
    let v : Bool = not (priv_num p == priv_num user) in
    let y : ℕ = set_bit spp v x in
    rw
      (
        get_bit-set_bit 5 1 false (set_bit spie (get_bit sie y) y),
        get_bit-set_bit 5 5 (get_bit sie y) y,
      )
      (get_bit-set_bit 1 8 v x)

pub tsr-status_s : (p : PrivilegeLevels) (x : ℕ) → get_bit tsr (status_s p x) ≡ get_bit tsr x
unfolding status_s
tsr-status_s p x =
    let v : Bool = not (priv_num p == priv_num user) in
    let y : ℕ = set_bit spp v x in
    rw
      (
        get_bit-set_bit 22 1 false (set_bit spie (get_bit sie y) y),
        get_bit-set_bit 22 5 (get_bit sie y) y,
      )
      (get_bit-set_bit 22 8 v x)

-- SRET puts the saved interrupt flag back.
pub sie-sret_status : (y : PrivilegeLevels) (x : ℕ) → get_bit sie (sret_status y x) ≡ get_bit spie x
unfolding sret_status
sie-sret_status y x =
    let z : ℕ = set_bit spie true (set_bit sie (get_bit spie x) x) in
    let at_z : get_bit sie (set_bit spp false z) ≡ get_bit spie x =
      rw
        (
          get_bit-set_bit 1 8 false z,
          get_bit-set_bit 1 5 true (set_bit sie (get_bit spie x) x),
          get_bit-set_bit 1 1 (get_bit spie x) x,
        )
        refl in
    elim (Bool-cases (not (priv_num y == priv_num machine))) [
      | inl e ↦ rw (e, get_bit-set_bit 1 17 false (set_bit spp false z)) at_z
      | inr e ↦ rw e at_z
    ]
