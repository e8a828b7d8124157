-- ===== src/Lib.antt =====
-- A verification library of the RISC-V emulator.
--
-- The emulator is a hart (src/rv64core/), which executes instructions and takes traps, a bus with
-- memory and devices (src/device/), and a debugger's side (src/dbg/). The modelled parts are these.
--
-- - Base: the names that are shared, Boolean tests, lists as vectors, and words as natural numbers:
--   their bits and fields, and what the bitwise operations do to them.
-- - Plic: src/device/device_sifive_plic.rs. `SifvePlic` is the record of the same name; Plic/Tick is
--   `tick`, Plic/Claim `context_claim` and `context_complete`, Plic/Mmio the registers, `do_read` and
--   `do_write`. Plic/Laws has what is proved of them.
-- - Clint: src/device/device_sifive_clint.rs, the timer and the software interrupts.
-- - Memory: src/device/device_memory.rs.
-- - Bus: src/rv64core/bus.rs: the dispatch of an access, and the round of updates, which runs the
--   operations of Clint and Plic on the interrupt-pending words that they share with the harts.
-- - Trap: src/rv64core/traptype.rs and the privilege levels of src/rv64core/inst/inst_base.rs.
-- - Csr/Xstatus, Csr/Xtvec, Csr/Xip: the status word, the trap vectors and the interrupt-pending word
--   of src/rv64core/csr_regs_define.rs.
-- - Cpu: the registers of `CpuCore` that traps touch; Cpu/Traps is `handle_exceptions` and
--   `handle_interrupt` of src/rv64core/cpu_core.rs, Cpu/Return ECALL, MRET and SRET of
--   src/rv64core/inst/inst_rv64z.rs.
-- - Gpr: src/rv64core/gpr.rs.
-- - Rv64m: src/rv64core/inst/inst_rv64m.rs.
-- - Rv64i: src/rv64core/inst/inst_rv64i.rs without the loads and stores, and the instruction formats
--   of src/rv64core/inst/inst_base.rs.
-- - Decode: src/rv64core/inst_decode.rs; Decode/Pattern is `Instruction` with `inst_cmp`, and
--   Decode/Table the masks and matches of src/rv64core/inst/.
-- - Access: `AccessType`, and the interface of the caches that the MMU and the hart call.
-- - Mmu: src/rv64core/mmu/: Mmu/Words and Mmu/Pte are the bitfields, Mmu/Walk `page_table_walk`,
--   `fast_path` and `translate`, Mmu/Fence `fence_vma`.
-- - Core: `read`, `write` and `icahce_read` of src/rv64core/cpu_core.rs; Core/LoadStore has the loads
--   and stores, Core/Atomic src/rv64core/inst/inst_rv64a.rs, Core/Fetch the fetch
--   of an instruction, Core/Uncached the caches switched off, Core/Fence SFENCE.VMA and FENCE.I.
-- - Rv64c: src/rv64core/inst/inst_rv64c.rs; Rv64c/Formats has its formats, Rv64c/Memory its loads and
--   stores. Rv64c/Expand is apart from the code: the base instructions that the specification gives.
-- - Csr/Cells, Csr/Define, Csr/File: the cells that the registers share, the kinds of registers of
--   src/rv64core/csr_regs_define.rs, and the table of src/rv64core/csr_regs.rs with `read`, `write`,
--   `read_raw` and `write_raw`. Csr/Inst has the six CSR instructions of
--   src/rv64core/inst/inst_rv64z.rs.
-- - Hart: `CpuCore` with its debug state; Hart/Run is `execute` of src/rv64core/cpu_core.rs with the
--   rounds of a running and a halted hart, Hart/Slave the hart as the debug module sees it. It runs the
--   operations of Cpu on its own registers, and resets those of Csr.
-- - Dbg: src/dbg/debug_module.rs with the fields of src/dbg/debug_module_register.rs in Dbg/Registers.
--   Dbg/Command is `perform_abstract_command`, Dbg/Dmi `dmi_read` and `dmi_write`. The trait
--   `DebugModuleSlave` of src/dbg/dm_interface.rs is the record `Dbg.Slave`.
-- - Jtag/Driver: `JtagDriver` of src/dbg/jtag_driver.rs, on the shift registers of Jtag/Shifter, the
--   states of Jtag and the accesses of Dbg/Dmi; `fall` and `rise` are the branches of `set_pins`.
-- - Cache: src/rv64core/cache/. Cache has the lines and the hash maps, Cache/Dcache `CpuDcache`,
--   Cache/Icache `CpuIcache` and `CacheSystem`, which fill the interface `Access.Caches`.
-- - Jtag: src/dbg/jtag_state.rs, and the shift registers of src/dbg/jtag_driver.rs in Jtag/Shifter.
--
-- A machine integer is a natural number with its wrap-around written out, and a signed one is the
-- number with the same bits. A bitfield struct is its number too. A panic (a failed assertion, an
-- index out of bounds, an `unwrap`, an overflow that a debug build checks) is `none` of `Option`, and
-- an error that the code returns is a constructor of its own. A shared cell `Rc<Cell<_>>` is a
-- location in the store `Plic.Cells`, or in `Csr.Cells.Store` for those of a hart, and a hash map is an
-- association list. No loop needs fuel: each runs over a list, the page walk over the level of its table,
-- which each round lowers, and the loop of the hart over its count of rounds; an access of the data
-- cache that misses is tried once again, with its line there.
--
-- Parameters: the setter of a bitfield of three bits, which the crate bitfield-struct generates
-- (`Plic.Mmio.Setter`: a value that fits is stored, and nothing else ever is), the devices behind
-- the trait `DeviceBase` (`Bus.Ops`), the caches of the crate hashlink (`Decode.LruCache` with the
-- laws `IsCache`, `Mmu.Tlb` with none), and the order of a hash map (`Cache.HashIter`, with no laws).
-- The interface `Access.Caches` is the repository's own; Core/Uncached fills it with the bus alone, and
-- Cache/Icache with the two caches on top of such a one.
--
-- The loop of the hart takes its instructions as a parameter too (`Hart.Run.Insns`, with no laws): they
-- are modelled, each family on the part of the hart that it touches. A reset takes the caches to be cleared
-- without a panic.
--
-- Not modelled: the UARTs, the halt of the feature `support_am`; and input and
-- output, logs and traces, and the example programs.
pub mod Base
pub mod Jtag
pub mod Plic
pub mod Trap
pub mod Csr
pub mod Cpu
pub mod Clint
pub mod Gpr
pub mod Memory
pub mod Rv64m
pub mod Bus
pub mod Rv64i
pub mod Decode
pub mod Access
pub mod Mmu
pub mod Core
pub mod Rv64c
pub mod Hart
pub mod Dbg
pub mod Cache
