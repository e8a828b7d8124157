-- ===== src/Core/Laws/Memory.antt =====
-- A store and a load of src/rv64core/inst/inst_rv64i.rs through the hart's accesses, the MMU, the caches
-- and the bus to the memory of src/device/device_memory.rs.
use riscv64_emu_rust.Base.{
  true, false, All, List, ◌∷◌, ◌++◌, length, some, ◌>>=◌, ℕ, ◌+◌, ◌-◌, ◌%◌, ◌^◌, ◌≤◌, ◌<◌, ◌≡◌,
  refl, ap, ◌∙◌, arith,
}
use riscv64_emu_rust.Base.Bits.{get_bit}
use riscv64_emu_rust.Access.{AccessType, store, load, amo, value, Caches}
use riscv64_emu_rust.Bus
use riscv64_emu_rust.Bus.{Bus, DeviceType, check_area, check_aligned, ok}
use riscv64_emu_rust.Bus.Laws.{memory_ops, Misses, read-write_memory}
use riscv64_emu_rust.Csr.Xstatus.{mprv}
use riscv64_emu_rust.Gpr
use riscv64_emu_rust.Gpr.{Gpr}
use riscv64_emu_rust.Memory.{DeviceMemory}
use riscv64_emu_rust.Mmu.{Tlb, Mmu, update_access_type, effective_priv, no_mmu}
use riscv64_emu_rust.Mmu.Words.{StapMode, satp_mode}
use riscv64_emu_rust.Mmu.Walk.{translate}
use riscv64_emu_rust.Plic.{Cells}
use riscv64_emu_rust.Plic.Mmio.{Setter}
use riscv64_emu_rust.Rv64i.{parse_format_i}
use riscv64_emu_rust.Rv64m.{sext, parse_format_r}
use riscv64_emu_rust.Trap.{machine}
use riscv64_emu_rust.Core.{Core, read, write}
use riscv64_emu_rust.Core.LoadStore.{
  LoadOp, lb, lh, lw, ld, lbu, lhu, lwu, StoreOp, sb, sh, sw, sd, load_len, store_len, extended,
  truncated, parse_format_s, execute_load, execute_store,
}
use riscv64_emu_rust.Core.Atomic.{
  Width, word, double, width_len, sign_extended, AmoOp, amo_write, execute_amo,
}
use riscv64_emu_rust.Core.Uncached.{uncached}

module _ {T : Type 0} where
  -- In machine mode without MPRV no address is translated.
  abbrev pub IsOff : Mmu T → StapMode → Type 0
  IsOff mmu mode =
      (mmu.cur_priv ≡ machine)
      × (get_bit mprv mmu.mstatus ≡ false)
      × (satp_mode mmu.satp ≡ some mode)

  -- The state that an access leaves in the MMU.
  abbrev used : AccessType → StapMode → Mmu T → Mmu T
  used access_type mode mmu = record mmu {
    access_type = access_type;
    satp_mode = mode;
    mmu_effective_priv = mmu.cur_priv;
  }

  no_mmu_off :
      (mmu : Mmu T)
      → mmu.cur_priv ≡ machine
      → get_bit mprv mmu.mstatus ≡ false
      → no_mmu mmu ≡ some (true, record mmu { mmu_effective_priv = mmu.cur_priv })
  unfolding no_mmu effective_priv
  no_mmu_off mmu e f = ground arith

module _ {M T : Type 0} (caches : Caches M) (tlb : Tlb T) where
  translate_off :
      (addr len : ℕ) (mmu : Mmu T) (m : M)
      → mmu.cur_priv ≡ machine
      → get_bit mprv mmu.mstatus ≡ false
      → check_aligned addr len ≡ some true
      → translate caches tlb addr len mmu m
        ≡ some (value addr, record mmu { mmu_effective_priv = mmu.cur_priv }, m)
  unfolding translate
  translate_off addr len mmu m e f al = rw (al, no_mmu_off mmu e f) refl

  read_off :
      (addr len rdata : ℕ) (access_type : AccessType) (core : Core M T) (m : M) (mode : StapMode)
      → IsOff core.mmu mode
      → check_aligned addr len ≡ some true
      → caches.dcache_read addr len core.memory ≡ some (ok rdata, m)
      → read caches tlb addr len access_type core
        ≡ some (value rdata, record core { mmu = used access_type mode core.mmu; memory = m })
  unfolding read update_access_type
  read_off addr len rdata access_type core m mode (e, f, g) al h =
      rw
        (
          g,
          translate_off addr len (record core.mmu { access_type = access_type; satp_mode = mode })
              core.memory e f al,
          h,
        )
        refl

  write_off :
      (addr wdata len x : ℕ) (access_type : AccessType) (core : Core M T) (m : M) (mode : StapMode)
      → IsOff core.mmu mode
      → check_aligned addr len ≡ some true
      → caches.dcache_write addr wdata len core.memory ≡ some (ok x, m)
      → write caches tlb addr wdata len access_type core
        ≡ some (value x, record core { mmu = used access_type mode core.mmu; memory = m })
  unfolding write update_access_type
  write_off addr wdata len x access_type core m mode (e, f, g) al h =
      rw
        (
          g,
          translate_off addr len (record core.mmu { access_type = access_type; satp_mode = mode })
              core.memory e f al,
          h,
        )
        refl

truncated-mod :
    (op : StoreOp) (x : ℕ) → truncated op x % 256 ^ store_len op ≡ x % 256 ^ store_len op
unfolding truncated
truncated-mod sb x = omega arith
truncated-mod sh x = omega arith
truncated-mod sw x = omega arith
truncated-mod sd x = refl

extended-mod :
    (op : LoadOp) (x : ℕ) → x < 2 ^ 64 → extended op (x % 256 ^ load_len op) ≡ extended op x
unfolding extended
extended-mod lb x h = let e : x % 256 ^ 1 % 2 ^ 8 ≡ x % 2 ^ 8 = omega arith in ap (sext 8 64) e
extended-mod lh x h = let e : x % 256 ^ 2 % 2 ^ 16 ≡ x % 2 ^ 16 = omega arith in ap (sext 16 64) e
extended-mod lw x h = let e : x % 256 ^ 4 % 2 ^ 32 ≡ x % 2 ^ 32 = omega arith in ap (sext 32 64) e
extended-mod ld x h = omega arith
extended-mod lbu x h = omega arith
extended-mod lhu x h = omega arith
extended-mod lwu x h = omega arith

extended-truncated :
    (sop : StoreOp) (lop : LoadOp) (x : ℕ)
    → store_len sop ≡ load_len lop
    → x < 2 ^ 64
    → extended lop (truncated sop x % 256 ^ store_len sop) ≡ extended lop x
extended-truncated sop lop x e h =
    ap (extended lop) (truncated-mod sop x ∙ ap (λ (n : ℕ). x % 256 ^ n) e) ∙ extended-mod lop x h

store_len-le : (op : StoreOp) → store_len op ≤ 8
store_len-le sb = omega arith
store_len-le sh = omega arith
store_len-le sw = omega arith
store_len-le sd = omega arith

module _ {T : Type 0} (setter : Setter) (tlb : Tlb T) where
  -- A store and then a load of as many bytes at the same address, through the MMU, the bus and a memory
  -- behind it: both succeed, and the load writes its `rd` with the stored register's low bytes, with
  -- the sign or zeros as the load extends them, and leaves the memory as the store did. The hart is in machine mode without MPRV, the caches
  -- are off, the address is aligned and within the memory, which is the first device there, and the
  -- stored register is a word of 64 bits; the two instructions may name different registers.
  pub load-store :
      (sop : StoreOp) (lop : LoadOp) (inst1 inst2 base1 base2 rs2 addr : ℕ) (mode : StapMode)
      (core : Core (Bus DeviceMemory × Cells) T) (before : List (DeviceType DeviceMemory))
      (d : DeviceType DeviceMemory) (after : List (DeviceType DeviceMemory))
      → IsOff core.mmu mode
      → store_len sop ≡ load_len lop
      → Gpr.read (parse_format_s inst1).rs1 core.gpr ≡ some base1
      → Gpr.read (parse_format_s inst1).rs2 core.gpr ≡ some rs2
      → Gpr.read (parse_format_i inst2).rs1 core.gpr ≡ some base2
      → (base1 + (parse_format_s inst1).imm) % 2 ^ 64 ≡ addr
      → (base2 + (parse_format_i inst2).imm) % 2 ^ 64 ≡ addr
      → rs2 < 2 ^ 64
      → core.memory.0.devices ≡ before ++ d ∷ after
      → All (Misses addr) before
      → check_area d.start d.len addr ≡ some true
      → check_aligned addr (store_len sop) ≡ some true
      → addr - d.start + store_len sop ≤ length d.state.bytes
      → (core1 : Core (Bus DeviceMemory × Cells) T) × (execute_store
            (uncached setter memory_ops)
            tlb
            sop
            inst1
            core
          ≡ some (value tt, core1))
        × (core2 : Core (Bus DeviceMemory × Cells) T) × (execute_load
              (uncached setter memory_ops)
              tlb
              lop
              inst2
              core1
            ≡ (Gpr.write (parse_format_i inst2).rd (extended lop rs2) core.gpr >>= λ gpr.
                some (value tt, record core2 { gpr = gpr })))
        × (core2.memory ≡ core1.memory)
  unfolding execute_store execute_load
  load-store sop lop inst1 inst2 base1 base2 rs2 addr mode core before d after off len e1 e2 e3 a1
        a2 small at out hit al fits =
      let caches = uncached setter memory_ops in
      let n : ℕ = store_len sop in
      let wdata : ℕ = truncated sop rs2 in
      let (bus', wrote, reads) =
        read-write_memory setter addr wdata n core.memory.0 core.memory.1 before d after at out hit
          al (store_len-le sop) fits in
      let stored : caches.dcache_write addr wdata n core.memory
          ≡ some (ok wdata, (bus', core.memory.1)) =
        ap (λ o. o >>= λ (reply, bus, cells). some (reply, (bus, cells))) wrote in
      let loaded : caches.dcache_read addr n (bus', core.memory.1)
          ≡ some (ok (wdata % 256 ^ n), (bus', core.memory.1)) =
        ap (λ o. o >>= λ (reply, bus, cells). some (reply, (bus, cells))) reads in
      let w =
        write_off caches tlb addr wdata n wdata (store addr) core (bus', core.memory.1) mode off al
          stored in
      let core1 = record core {
        mmu = used (store addr) mode core.mmu;
        memory = (bus', core.memory.1);
      } in
      let l =
        read_off caches tlb addr n (wdata % 256 ^ n) (load addr) core1 (bus', core.memory.1) mode
          off al loaded in
      (
        core1,
        rw (e1, e2, a1, w) refl,
        record core1 { mmu = used (load addr) mode core1.mmu },
        rw (e3, a2, ← len, l, extended-truncated sop lop rs2 len small) refl,
        refl,
      )

width_len-le : (width : Width) → width_len width ≤ 8
width_len-le word = omega arith
width_len-le double = omega arith

module _ {T : Type 0} (setter : Setter) (tlb : Tlb T) where
  -- An atomic operation on a memory behind the bus does not panic: its `rd` gets the word that was
  -- there, sign-extended, and the memory then reads as the operation's word of the old one and the
  -- register, cut to the width. The hart is in machine mode without MPRV, the caches are off, the
  -- address is aligned and within the memory, which is the first device there, and the first read
  -- leaves the bus as it is.
  pub amo_lem :
      (width : Width) (op : AmoOp) (inst addr rs2 tmp : ℕ) (mode : StapMode)
      (core : Core (Bus DeviceMemory × Cells) T) (bus : Bus DeviceMemory) (cells : Cells)
      (before : List (DeviceType DeviceMemory)) (d : DeviceType DeviceMemory)
      (after : List (DeviceType DeviceMemory))
      → IsOff core.mmu mode
      → core.memory ≡ (bus, cells)
      → Gpr.read (parse_format_r inst).rs1 core.gpr ≡ some addr
      → Gpr.read (parse_format_r inst).rs2 core.gpr ≡ some rs2
      → Bus.read setter memory_ops addr (width_len width) bus cells ≡ some (ok tmp, bus, cells)
      → bus.devices ≡ before ++ d ∷ after
      → All (Misses addr) before
      → check_area d.start d.len addr ≡ some true
      → check_aligned addr (width_len width) ≡ some true
      → addr - d.start + width_len width ≤ length d.state.bytes
      → (core1 : Core (Bus DeviceMemory × Cells) T) × (execute_amo
            (uncached setter memory_ops)
            tlb
            width
            op
            inst
            core
          ≡ (Gpr.write (parse_format_r inst).rd (sign_extended width tmp) core.gpr >>= λ gpr.
              some (value tt, record core1 { gpr = gpr })))
        × (Bus.read setter memory_ops addr (width_len width) core1.memory.0 core1.memory.1
            ≡ some (
              ok (amo_write width op tmp rs2 % 256 ^ width_len width),
              core1.memory.0,
              core1.memory.1,
            ))
  unfolding execute_amo
  amo_lem width op inst addr rs2 tmp mode core bus cells before d after off mem e1 e2 old at out hit
        al fits =
      let caches = uncached setter memory_ops in
      let n : ℕ = width_len width in
      let wdata : ℕ = amo_write width op tmp rs2 in
      let (bus', wrote, reads) =
        read-write_memory setter addr wdata n bus cells before d after at out hit al
          (width_len-le width) fits in
      let stored : caches.dcache_write addr wdata n (bus, cells) ≡ some (ok wdata, (bus', cells)) =
        ap (λ o. o >>= λ (reply, bus, cells). some (reply, (bus, cells))) wrote in
      let loaded : caches.dcache_read addr n core.memory ≡ some (ok tmp, (bus, cells)) =
        rw mem (ap (λ o. o >>= λ (reply, bus, cells). some (reply, (bus, cells))) old) in
      let l = read_off caches tlb addr n tmp (amo addr) core (bus, cells) mode off al loaded in
      let core1 = record core { mmu = used (amo addr) mode core.mmu; memory = (bus, cells) } in
      let w =
        write_off caches tlb addr wdata n wdata (amo addr) core1 (bus', cells) mode off al stored in
      (
        record core1 { mmu = used (amo addr) mode core1.mmu; memory = (bus', cells) },
        rw (e1, e2, l, w) refl,
        reads,
      )
