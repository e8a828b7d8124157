-- ===== src/Plic.antt =====
-- src/device/device_sifive_plic.rs: the platform-level interrupt controller. Here its state, and the
-- registers that it is made of.
--
-- An `Rc<Cell<_>>` that a source or a context shares with a device or a hart is a location: `lines`
-- holds the pending flags of the devices and `xips` the interrupt-pending words of the harts. `none`
-- is a panic: a failed assertion, an index out of bounds, or `panic!`.
pub mod Tick
pub mod Claim
pub mod Mmio
pub mod Laws
mod Examples
use riscv64_emu_rust.Base.{
  Bool, true, false, not, List, [], ◌∷◌, ◌++◌, Option, none, some, ◌>>=◌, assert, if◌then◌else◌, ℕ,
  ◌+◌, ◌*◌, ◌/◌, ◌%◌, ◌^◌, ◌==◌, ltb, bit_and, bit_or, get_elem?, set, replicate, any,
}
use riscv64_emu_rust.Base.Bits.{bit_not, set_bit}

pub record IrqSource : Type 0 where
  pub id : ℕ
  pub pending : ℕ

-- `IrqPending`, also under the name `IrqEnable`: a word with a bit for each of 32 sources.
unfoldable pub set_pending_bit : ℕ → ℕ → ℕ
set_pending_bit irq_id val = bit_or val (2 ^ irq_id)

unfoldable pub clear_pending_bit : ℕ → ℕ → ℕ
clear_pending_bit irq_id val = bit_and val (bit_not 32 (2 ^ irq_id))

unfoldable pub set_bool : ℕ → Bool → ℕ → ℕ
unfolding set_pending_bit clear_pending_bit
set_bool irq_id b val = if b then set_pending_bit irq_id val else clear_pending_bit irq_id val

unfoldable pub get_pending_bit : ℕ → ℕ → Bool
get_pending_bit irq_id val = not (bit_and val (2 ^ irq_id) == 0)

pub record PlicContext : Type 0 where
  pub mmode : Bool
  pub xip : ℕ
  pub threshold : ℕ
  pub enable : List ℕ
  pub claim : ℕ

pub record SifvePlic : Type 0 where
  pub irq_sources : List IrqSource
  pub vec_irq_priority : List ℕ
  pub irq_pending : List ℕ
  pub claimed : List Bool
  pub context : List PlicContext

-- The shared cells.
pub record Cells : Type 0 where
  pub lines : ℕ → Bool
  pub xips : ℕ → ℕ

abbrev pub update {ℓ} : {A : Type ℓ} → (ℕ → A) → ℕ → A → ℕ → A
update f k v j = if j == k then v else f j

unfoldable pub new_context : ℕ → Bool → PlicContext
new_context xip_share mmode = record {
  mmode = mmode;
  xip = xip_share;
  threshold = 0;
  enable = replicate 2 0;
  claim = 0;
}

unfoldable pub get_enable_by_id : ℕ → PlicContext → Option Bool
get_enable_by_id irq_id c =
    get_elem? c.enable (irq_id / 32) >>= λ word. some (get_pending_bit (irq_id % 32) word)

-- Bit 11 of the word is `meip`, bit 9 is `seip`.
abbrev pub xip_bit : Bool → ℕ
xip_bit true = 11
xip_bit false = 9

unfoldable pub update_xip : Bool → PlicContext → Cells → Cells
update_xip level c cells = record cells {
  xips = update cells.xips c.xip (set_bit (xip_bit c.mmode) level (cells.xips c.xip));
}

unfoldable pub new : SifvePlic
new = record {
  irq_sources = [];
  vec_irq_priority = replicate 64 0;
  irq_pending = replicate 2 0;
  claimed = replicate 64 false;
  context = [];
}

unfoldable pub register_irq_source : ℕ → ℕ → SifvePlic → Option SifvePlic
register_irq_source irq_id irq_pending p = assert (ltb irq_id 64) (
    assert (not (any (λ item. item.id == irq_id) p.irq_sources)) (
      some (record p {
        irq_sources = p.irq_sources ++ record { id = irq_id; pending = irq_pending } ∷ [];
      })))

unfoldable pub add_context : ℕ → Bool → SifvePlic → SifvePlic
unfolding new_context
add_context xip_share mmode p = record p { context = p.context ++ new_context xip_share mmode ∷ [] }
