-- ===== src/Decode/Table.antt =====
-- The masks and the matches of src/rv64core/inst/inst_base.rs, as the instructions that they make in
-- the tables of src/rv64core/inst/. The closures that execute them are modelled in other modules.
mod BaseInt
mod Muldiv
mod Atomic
mod Compressed
pub use BaseInt.*
pub use Muldiv.*
pub use Atomic.*
pub use Compressed.*
