-- ===== src/Plic/Laws.antt =====
-- The well-formed states of src/device/device_sifive_plic.rs, which every operation keeps.
pub mod Registers
pub mod Enable
pub mod Level
pub mod Selection
pub mod Exclusion
use riscv64_emu_rust.Base.{
  Bool, true, false, ◌&&◌, List, [], ◌∷◌, ◌++◌, Option, none, some, ◌>>=◌, ℕ, zero, suc, ◌+◌, ◌/◌,
  ◌%◌, ◌<◌, ◌≤◌, ltb, ◌==◌, ==_iff, get_elem?, set, length, All, any, replicate, length-set,
  get_elem?-lt, get_elem?-some, ◌≡◌, ◌≢◌, ◌∙◌, refl, arith, Bool-cases, inl, inr, if◌then◌else◌,
}
use riscv64_emu_rust.Plic.{
  IrqSource, PlicContext, SifvePlic, Cells, new, register_irq_source, add_context, new_context,
  get_enable_by_id, update_xip, set_bool, get_pending_bit,
}
use mathlib.Core.Path.{subst}
use riscv64_emu_rust.Plic.Tick.{tick, update_pending, update_contexts, int_flag, raises}
use riscv64_emu_rust.Plic.Claim.{
  context_claim, claim_best, context_complete, select, better, is_candidate, Best, no_candidate,
}

-- Sources have different ids below 64, and every array has the length that the source gives it.
abbrev pub IdsDiffer : List IrqSource → Type 0
IdsDiffer [] = Unit
IdsDiffer (s ∷ ss) = All (λ t. s.id ≢ t.id) ss × IdsDiffer ss

abbrev pub HasTwoWords : PlicContext → Type 0
HasTwoWords c = length c.enable ≡ 2

pub record IsWellFormed (p : SifvePlic) : Type 0 where
  pub small_ids : All (λ s. s.id < 64) p.irq_sources
  pub ids_differ : IdsDiffer p.irq_sources
  pub priorities : length p.vec_irq_priority ≡ 64
  pub words : length p.irq_pending ≡ 2
  pub claims : length p.claimed ≡ 64
  pub contexts : All HasTwoWords p.context

pub new-IsWellFormed : IsWellFormed new
unfolding new
new-IsWellFormed = record {
  small_ids = tt;
  ids_differ = tt;
  priorities = refl;
  words = refl;
  claims = refl;
  contexts = tt;
}

module _ {ℓ κ} {A : Type ℓ} (P : A → Type κ) where
  All-snoc : (xs : List A) (a : A) → All P xs → P a → All P (xs ++ a ∷ [])
  All-snoc [] a h p = (p, tt)
  All-snoc (x ∷ xs) a h p = (h.0, All-snoc xs a h.1 p)

  pub All-set : (xs : List A) (i : ℕ) (a : A) → All P xs → P a → All P (set xs i a)
  All-set [] i a h p = tt
  All-set (x ∷ xs) zero a h p = (p, h.1)
  All-set (x ∷ xs) (suc i) a h p = (h.0, All-set xs i a h.1 p)

  pub All-get : (xs : List A) (i : ℕ) {a : A} → All P xs → get_elem? xs i ≡ some a → P a
  All-get [] i h e = cc
  All-get (x ∷ xs) zero {a} h e = subst P some_eq h.0
    where
      some_eq : x ≡ a
      some_eq = cc
  All-get (x ∷ xs) (suc i) h e = All-get xs i h.1 e

fresh_id : (ss : List IrqSource) (k : ℕ) → any (λ s. s.id == k) ss ≡ false → All (λ s. s.id ≢ k) ss
fresh_id [] k h = tt
fresh_id (s ∷ ss) k h = (ground arith, fresh_id ss k (ground arith))

IdsDiffer-snoc :
    (ss : List IrqSource) (t : IrqSource)
    → IdsDiffer ss
    → All (λ s. s.id ≢ t.id) ss
    → IdsDiffer (ss ++ t ∷ [])
IdsDiffer-snoc [] t h f = (tt, tt)
IdsDiffer-snoc (s ∷ ss) t h f =
    (All-snoc (λ u. s.id ≢ u.id) ss t h.0 f.0, IdsDiffer-snoc ss t h.1 f.1)

add_source-IsWellFormed :
    (p : SifvePlic) (t : IrqSource)
    → t.id < 64
    → any (λ s. s.id == t.id) p.irq_sources ≡ false
    → IsWellFormed p
    → IsWellFormed (record p { irq_sources = p.irq_sources ++ t ∷ [] })
add_source-IsWellFormed p t small fresh w = record {
  small_ids = All-snoc (λ s. s.id < 64) p.irq_sources t w.small_ids small;
  ids_differ = IdsDiffer-snoc p.irq_sources t w.ids_differ (fresh_id p.irq_sources t.id fresh);
  priorities = w.priorities;
  words = w.words;
  claims = w.claims;
  contexts = w.contexts;
}

-- Registering a source that succeeds keeps the state well-formed.
pub register-IsWellFormed :
    (irq_id line : ℕ) (p : SifvePlic) {p' : SifvePlic}
    → register_irq_source irq_id line p ≡ some p'
    → IsWellFormed p
    → IsWellFormed p'
unfolding register_irq_source
register-IsWellFormed irq_id line p {p'} h w = elim (Bool-cases (ltb irq_id 64)) [
  | inl small ↦ elim (Bool-cases (any (λ item. item.id == irq_id) p.irq_sources)) [
    | inl old ↦ absurd (ground arith)
    | inr fresh ↦
        subst IsWellFormed (ground arith) (
          add_source-IsWellFormed p (record { id = irq_id; pending = line }) (ground arith) fresh w)
  ]
  | inr large ↦ absurd (ground arith)
]

pub add_context-IsWellFormed :
    (xip : ℕ) (mmode : Bool) (p : SifvePlic)
    → IsWellFormed p
    → IsWellFormed (add_context xip mmode p)
unfolding add_context
add_context-IsWellFormed xip mmode p w = record {
  small_ids = w.small_ids;
  ids_differ = w.ids_differ;
  priorities = w.priorities;
  words = w.words;
  claims = w.claims;
  contexts =
      All-snoc HasTwoWords p.context (new_context xip mmode) w.contexts
        (unfold new_context in refl);
}

-- The loop over the sources finds the word of each and keeps their number.
update_pending_total :
    (items : List IrqSource) (lines : ℕ → Bool) (words : List ℕ)
    → All (λ s. s.id < 64) items
    → length words ≡ 2
    → (words' : List ℕ) × (update_pending items lines words ≡ some words') × (length words' ≡ 2)
unfolding update_pending
update_pending_total [] lines words h l = (words, refl, l)
update_pending_total (s ∷ items) lines words h l =
    let (word, at) = get_elem?-lt words (s.id / 32) (omega arith) in
    let next = set words (s.id / 32) (set_bool (s.id % 32) (lines s.pending) word) in
    let (words', run, l') = update_pending_total items lines next h.1 (length-set words _ _ ∙ l) in
    (words', rw at run, l')

-- Every source of a well-formed state has an enable bit in each context, and a priority.
raises_total :
    (priorities : List ℕ) (lines : ℕ → Bool) (c : PlicContext) (s : IrqSource)
    → length priorities ≡ 64
    → HasTwoWords c
    → s.id < 64
    → (b : Bool) × (raises priorities lines c s ≡ some b)
unfolding raises get_enable_by_id
raises_total priorities lines c s l t h =
    let (word, at) = get_elem?-lt c.enable (s.id / 32) (omega arith) in
    let (priority, at') = get_elem?-lt priorities s.id (omega arith) in
    (
      lines s.pending && (get_pending_bit (s.id % 32) word && ltb c.threshold priority),
      rw (at, at') refl,
    )

int_flag_total :
    (priorities : List ℕ) (lines : ℕ → Bool) (c : PlicContext) (items : List IrqSource)
    → length priorities ≡ 64
    → HasTwoWords c
    → All (λ s. s.id < 64) items
    → (b : Bool) × (int_flag priorities lines c items ≡ some b)
unfolding int_flag
int_flag_total priorities lines c [] l t h = (false, refl)
int_flag_total priorities lines c (s ∷ items) l t h =
    let (b, first) = raises_total priorities lines c s l t h.0 in
    let (r, rest) = int_flag_total priorities lines c items l t h.1 in
    (if b then true else r, rw (first, rest) (ground arith))

update_contexts_total :
    (priorities : List ℕ) (items : List IrqSource) (cs : List PlicContext) (cells : Cells)
    → length priorities ≡ 64
    → All (λ s. s.id < 64) items
    → All HasTwoWords cs
    → (cells' : Cells) × (update_contexts priorities items cs cells ≡ some cells')
unfolding update_contexts
update_contexts_total priorities items [] cells l h t = (cells, refl)
update_contexts_total priorities items (c ∷ cs) cells l h t =
    let (b, flag) = int_flag_total priorities cells.lines c items l t.0 h in
    let (cells', rest) = update_contexts_total priorities items cs (update_xip b c cells) l h t.1 in
    (cells', rw flag rest)

-- In a well-formed state `tick` does not panic, and the state stays well-formed.
pub tick_total :
    (p : SifvePlic) (cells : Cells)
    → IsWellFormed p
    → (p' : SifvePlic) × (cells' : Cells) × (tick p cells ≡ some (p', cells')) × IsWellFormed p'
unfolding tick
tick_total p cells w =
    let (words, run, two) =
      update_pending_total p.irq_sources cells.lines p.irq_pending w.small_ids w.words in
    let (cells', rest) =
      update_contexts_total p.vec_irq_priority p.irq_sources p.context cells w.priorities
        w.small_ids w.contexts in
    (
      record p { irq_pending = words },
      cells',
      rw (run, rest) refl,
      record {
        small_ids = w.small_ids;
        ids_differ = w.ids_differ;
        priorities = w.priorities;
        words = two;
        claims = w.claims;
        contexts = w.contexts;
      },
    )
