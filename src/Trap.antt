-- ===== src/Trap.antt =====
-- src/rv64core/traptype.rs: the exceptions and interrupts, their codes and their trap values; and the
-- privilege levels of src/rv64core/inst/inst_base.rs.
use riscv64_emu_rust.Base.{
  Bool, not, Option, none, some, assert, ℕ, zero, suc, ◌+◌, ◌==◌, leb, bit_and,
}
use riscv64_emu_rust.Base.Bits.{bit_not}

abbrev pub interrupt_bit : ℕ
interrupt_bit = 0x8000000000000000

pub data TrapType : Type 0 where
  instruction_address_misaligned : ℕ → TrapType
  instruction_access_fault : ℕ → TrapType
  illegal_instruction : ℕ → TrapType
  breakpoint : ℕ → TrapType
  load_address_misaligned : ℕ → TrapType
  load_access_fault : ℕ → TrapType
  store_address_misaligned : ℕ → TrapType
  store_access_fault : ℕ → TrapType
  environment_call_from_u_mode : TrapType
  environment_call_from_s_mode : TrapType
  environment_call_from_m_mode : TrapType
  instruction_page_fault : ℕ → TrapType
  load_page_fault : ℕ → TrapType
  store_page_fault : ℕ → TrapType
  user_software_interrupt supervisor_software_interrupt machine_software_interrupt : TrapType
  user_timer_interrupt supervisor_timer_interrupt machine_timer_interrupt : TrapType
  user_external_interrupt supervisor_external_interrupt machine_external_interrupt : TrapType

unfoldable pub idx : TrapType → ℕ
idx (instruction_address_misaligned _) = 0
idx (instruction_access_fault _) = 1
idx (illegal_instruction _) = 2
idx (breakpoint _) = 3
idx (load_address_misaligned _) = 4
idx (load_access_fault _) = 5
idx (store_address_misaligned _) = 6
idx (store_access_fault _) = 7
idx environment_call_from_u_mode = 8
idx environment_call_from_s_mode = 9
idx environment_call_from_m_mode = 11
idx (instruction_page_fault _) = 12
idx (load_page_fault _) = 13
idx (store_page_fault _) = 15
idx user_software_interrupt = interrupt_bit
idx supervisor_software_interrupt = interrupt_bit + 1
idx machine_software_interrupt = interrupt_bit + 3
idx user_timer_interrupt = interrupt_bit + 4
idx supervisor_timer_interrupt = interrupt_bit + 5
idx machine_timer_interrupt = interrupt_bit + 7
idx user_external_interrupt = interrupt_bit + 8
idx supervisor_external_interrupt = interrupt_bit + 9
idx machine_external_interrupt = interrupt_bit + 11

unfoldable pub is_interrupt : TrapType → Bool
unfolding idx
is_interrupt t = not (bit_and (idx t) interrupt_bit == 0)

-- `none` where the assertion fails.
unfoldable pub get_irq_num : TrapType → Option ℕ
unfolding idx is_interrupt
get_irq_num t = assert (is_interrupt t) (some (bit_and (idx t) (bit_not 64 interrupt_bit)))

unfoldable pub get_exception_num : TrapType → Option ℕ
unfolding idx is_interrupt
get_exception_num t = assert (not (is_interrupt t)) (some (idx t))

unfoldable pub get_tval : TrapType → ℕ
get_tval (instruction_address_misaligned val) = val
get_tval (instruction_access_fault val) = val
get_tval (illegal_instruction val) = val
get_tval (breakpoint val) = val
get_tval (load_address_misaligned val) = val
get_tval (load_access_fault val) = val
get_tval (store_address_misaligned val) = val
get_tval (store_access_fault val) = val
get_tval (instruction_page_fault val) = val
get_tval (load_page_fault val) = val
get_tval (store_page_fault val) = val
get_tval _ = 0

pub data PrivilegeLevels : Type 0 where
  user supervisor machine : PrivilegeLevels

unfoldable pub priv_num : PrivilegeLevels → ℕ
priv_num user = 0
priv_num supervisor = 1
priv_num machine = 3

-- Whether another level is at least this one.
unfoldable pub check_priv : PrivilegeLevels → PrivilegeLevels → Bool
unfolding priv_num
check_priv p another_priv = leb (priv_num p) (priv_num another_priv)

unfoldable pub priv_from_usize : ℕ → Option PrivilegeLevels
priv_from_usize zero = some user
priv_from_usize (suc zero) = some supervisor
priv_from_usize (suc (suc (suc zero))) = some machine
priv_from_usize _ = none
