-- ===== src/Csr.antt =====
-- The control and status registers of src/rv64core/csr_regs_define.rs and src/rv64core/csr_regs.rs. A
-- bitfield struct is its number: a flag is a bit of it and a field a range of bits, at the places that
-- the declaration of the struct gives them.
pub mod Xip
pub mod Xstatus
pub mod Xtvec
pub mod Cells
pub mod Define
pub mod File
pub mod Inst
pub mod Laws
mod Examples
