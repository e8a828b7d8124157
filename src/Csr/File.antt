-- ===== src/Csr/File.antt =====
-- `CsrRegs` of src/rv64core/csr_regs.rs: the registers by address. `none` is a panic.
use riscv64_emu_rust.Base.{
  Bool, true, false, not, ◌&&◌, List, [], ◌∷◌, Option, none, some, ◌>>=◌, assert, if◌then◌else◌, ℕ,
  ◌^◌, ◌-◌, ◌==◌, ltb, bit_and,
}
use riscv64_emu_rust.Base.Bits.{set_bit, set_field, bit_not}
use riscv64_emu_rust.Access.{AccessType, load, store, Result, value, raise}
use riscv64_emu_rust.Trap.{illegal_instruction, PrivilegeLevels, machine}
use riscv64_emu_rust.Mmu.Words.{StapMode}
use riscv64_emu_rust.Csr.Xstatus.{
  XstatusView, sie, spie, ube, spp, mprv, sum, mxr, tvm, tw, tsr, sbe, mbe, sd, set_vs, set_mpp,
  set_fs, set_xs, set_uxl, set_sxl,
}
use riscv64_emu_rust.Csr.Cells.{Cell, Store}
use riscv64_emu_rust.Csr.Define.{
  CsrEnum, read_only_csr, misa, common_csr, xtvec, xcause, medeleg, counter, dcsr, xstatus, xie,
  xip, satp, check_permission, csr_read, csr_write,
}

-- The part of `Config` that the registers ask for.
pub record Config : Type 0 where
  pub isa_m : Bool
  pub isa_a : Bool
  pub isa_c : Bool
  pub isa_f : Bool
  pub s_mode : Bool
  pub u_mode : Bool
  pub mmu_type : StapMode

pub record CsrRegs : Type 0 where
  pub csr_map : List (ℕ × CsrEnum)
  pub cells : Store
  pub cur_priv : PrivilegeLevels

-- `HashMap::get`.
unfoldable pub lookup : ℕ → List (ℕ × CsrEnum) → Option CsrEnum
lookup addr [] = none
lookup addr ((a, csr) ∷ csrs) = if a == addr then some csr else lookup addr csrs

-- Bit `k` set where the test holds.
abbrev pub flag : Bool → ℕ → ℕ → ℕ
flag test k word = if test then set_bit k true word else word

-- The bits of the extensions, by their letters, and the length of a register, 64 bits.
unfoldable pub misa_val : Config → ℕ
unfolding set_bit set_field
misa_val config = flag config.u_mode 20 (
    flag config.s_mode 18 (
      flag config.isa_c 2
        (flag config.isa_a 0 (flag config.isa_m 12 (set_field 62 2 2 (set_bit 8 true 0))))))

unfoldable pub mstatus_val : Config → ℕ
unfolding set_bit set_field
mstatus_val config =
    let m : ℕ = set_bit ube false (set_bit sbe false (set_bit mbe false (set_mpp 3 0))) in
    let m' : ℕ = if config.s_mode then set_sxl 2 m else m in
    if config.u_mode then set_bit mprv false (set_uxl 2 m') else m'

-- The fields that read as 0: only little endian, and what the configuration has no use for.
unfoldable pub hidden : Config → ℕ
unfolding set_bit set_field
hidden config =
    let m : ℕ = set_bit ube true (set_bit mbe true (set_bit sbe true 0)) in
    let m' : ℕ =
      if config.s_mode
      then m
      else set_bit tsr true (set_bit tvm true (set_bit sum true (set_bit mxr true m))) in
    let m'' : ℕ = if config.u_mode then m' else set_bit mprv true m' in
    let n : ℕ = if not config.u_mode && not config.s_mode then set_bit tw true m'' else m'' in
    if config.isa_f then n else set_bit sd true (set_xs 3 (set_vs 3 (set_fs 3 n)))

unfoldable pub mstatus_rmask : Config → ℕ
unfolding hidden
mstatus_rmask config = bit_not 64 (hidden config)

abbrev pub sstatus_fields : ℕ
unfolding set_bit set_field
sstatus_fields = set_bit sd true (
    set_bit mxr true (
      set_bit sum true (
        set_xs 3 (
          set_fs 3 (
            set_vs 3
              (set_bit ube true (set_bit spie true (set_bit sie true (set_bit spp true 0)))))))))

unfoldable pub sstatus_wmask : Config → ℕ
unfolding mstatus_rmask set_bit set_field
sstatus_wmask config = bit_and sstatus_fields (mstatus_rmask config)

unfoldable pub mstatus_wmask : Config → ℕ
unfolding mstatus_rmask set_field
mstatus_wmask config = set_sxl 0 (set_uxl 0 (mstatus_rmask config))

-- SSIE, STIE and SEIE.
abbrev pub sip_mask : ℕ
unfolding set_bit
sip_mask = set_bit 5 true (set_bit 1 true (set_bit 9 true 0))

abbrev pub mask_all : ℕ
mask_all = 2 ^ 64 - 1

-- `DcsrIn::new().with_debugver(4).with_mprven(true)`.
abbrev pub dcsr_val : ℕ
unfolding set_bit set_field
dcsr_val = set_bit 4 true (set_field 28 4 4 0)

-- The cells of a new hart. The two scratch registers of the debug mode, and all the others, are 0.
unfoldable pub cells_new : Config → Store
unfolding mstatus_val set_bit set_field
cells_new config Cell.xstatus = mstatus_val config
cells_new config Cell.dcsr = dcsr_val
cells_new config _ = 0

abbrev pub mstatus_view : Config → XstatusView
unfolding mstatus_rmask mstatus_wmask
mstatus_view config = record { rmask = mstatus_rmask config; wmask = mstatus_wmask config }

abbrev pub sstatus_view : Config → XstatusView
unfolding mstatus_rmask sstatus_wmask
sstatus_view config = record { rmask = mstatus_rmask config; wmask = sstatus_wmask config }

unfoldable pub csr_map_new : ℕ → Config → List (ℕ × CsrEnum)
unfolding misa_val mstatus_rmask mstatus_wmask sstatus_wmask set_bit
csr_map_new hart_id config =
    (0x301, misa (misa_val config))
    ∷ (0xf14, read_only_csr hart_id)
    ∷ (0xf12, common_csr Cell.marchid)
    ∷ (0xf11, common_csr Cell.mvendorid)
    ∷ (0xf13, common_csr Cell.mimpid)
    ∷ (0x300, xstatus Cell.xstatus (mstatus_view config))
    ∷ (0x100, xstatus Cell.xstatus (sstatus_view config))
    ∷ (0x344, xip Cell.xip mask_all)
    ∷ (0x144, xip Cell.xip sip_mask)
    ∷ (0x304, xie Cell.xie mask_all)
    ∷ (0x104, xie Cell.xie sip_mask)
    ∷ (0x342, xcause Cell.mcause)
    ∷ (0x142, xcause Cell.scause)
    ∷ (0x305, xtvec Cell.mtvec)
    ∷ (0x105, xtvec Cell.stvec)
    ∷ (0x302, medeleg Cell.medeleg)
    ∷ (0x303, xip Cell.mideleg mask_all)
    ∷ (0x341, common_csr Cell.mepc)
    ∷ (0x141, common_csr Cell.sepc)
    ∷ (0x343, common_csr Cell.mtval)
    ∷ (0x143, common_csr Cell.stval)
    ∷ (0x180, satp Cell.satp Cell.xstatus config.mmu_type)
    ∷ (0x340, common_csr Cell.mscratch)
    ∷ (0x140, common_csr Cell.sscratch)
    ∷ (0xb00, counter Cell.cycle)
    ∷ (0xc00, counter Cell.cycle)
    ∷ (0xb02, counter Cell.instret)
    ∷ (0xc02, counter Cell.instret)
    ∷ (0x306, common_csr Cell.mcounteren)
    ∷ (0x106, common_csr Cell.scounteren)
    ∷ (0x7a0, read_only_csr 0)
    ∷ (0x7b0, dcsr Cell.dcsr)
    ∷ (0x7b1, common_csr Cell.dpc)
    ∷ (0x7b2, common_csr Cell.dscratch0)
    ∷ (0x7b3, common_csr Cell.dscratch1)
    ∷ []

unfoldable pub new : ℕ → Config → CsrRegs
unfolding csr_map_new cells_new
new hart_id config = record {
  csr_map = csr_map_new hart_id config;
  cells = cells_new config;
  cur_priv = machine;
}

-- The cells that a reset sets anew; the others stay.
unfoldable pub reset_cells : Config → Store → Store
unfolding cells_new
reset_cells config s Cell.mscratch = s Cell.mscratch
reset_cells config s Cell.sscratch = s Cell.sscratch
reset_cells config s Cell.mcounteren = s Cell.mcounteren
reset_cells config s Cell.scounteren = s Cell.scounteren
reset_cells config s Cell.dscratch0 = s Cell.dscratch0
reset_cells config s Cell.dscratch1 = s Cell.dscratch1
reset_cells config s Cell.marchid = s Cell.marchid
reset_cells config s Cell.mvendorid = s Cell.mvendorid
reset_cells config s Cell.mimpid = s Cell.mimpid
reset_cells config s Cell.time = s Cell.time
reset_cells config s c = cells_new config c

unfoldable pub reset : Config → CsrRegs → CsrRegs
unfolding reset_cells
reset config regs = record regs { cells = reset_cells config regs.cells }

-- The time is a view of the interruptor's.
unfoldable pub add_mtime : CsrRegs → CsrRegs
add_mtime regs = record regs { csr_map = (0xc01, counter Cell.time) ∷ regs.csr_map }

-- What an access does to the register that it finds, if it may.
unfoldable pub permitted :
    {A : Type 0}
    → ℕ
    → PrivilegeLevels
    → AccessType
    → (CsrEnum → CsrRegs → Option (Result A × CsrRegs))
    → CsrRegs
    → Option (Result A × CsrRegs)
unfolding lookup check_permission
permitted addr privi access_type act regs = assert (ltb addr 4096) (
    let regs' = record regs { cur_priv = privi } in
    elim (lookup addr regs.csr_map) [
      | none ↦ some (raise (illegal_instruction 0), regs')
      | some csr ↦ check_permission csr addr privi access_type regs.cells >>= λ ok.
          if ok then act csr regs' else some (raise (illegal_instruction 0), regs')
    ])

unfoldable pub read : ℕ → PrivilegeLevels → CsrRegs → Option (Result ℕ × CsrRegs)
unfolding permitted csr_read
read addr privi =
    permitted addr privi (load 0) (λ csr regs. some (value (csr_read csr regs.cells), regs))

abbrev pub written : ℕ → CsrEnum → CsrRegs → Option (Result Unit × CsrRegs)
written word csr regs =
    csr_write csr word regs.cells >>= λ cells. some (value tt, record regs { cells = cells })

unfoldable pub write : ℕ → ℕ → PrivilegeLevels → CsrRegs → Option (Result Unit × CsrRegs)
unfolding permitted csr_write
write addr word privi = permitted addr privi (store 0) (written word)

unfoldable pub write_raw : ℕ → ℕ → CsrRegs → Option CsrRegs
unfolding lookup csr_write
write_raw addr word regs = assert (ltb addr 4096) (elim (lookup addr regs.csr_map) [
  | none ↦ some regs
  | some csr ↦ csr_write csr word regs.cells >>= λ cells. some (record regs { cells = cells })
])

unfoldable pub read_raw : ℕ → CsrRegs → Option ℕ
unfolding lookup csr_read
read_raw addr regs =
    assert (ltb addr 4096)
      (some (elim (lookup addr regs.csr_map) [ none ↦ 0 | some csr ↦ csr_read csr regs.cells ]))
