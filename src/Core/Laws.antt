-- ===== src/Core/Laws.antt =====
-- What LR and SC of src/rv64core/inst/inst_rv64a.rs promise of the reservation.
pub mod Memory
use mathlib.Core.Path.{subst}
use riscv64_emu_rust.Base.{
  Bool, true, false, Option, none, some, ◌>>=◌, if◌then◌else◌, ℕ, ◌-◌, ◌^◌, ◌==◌, ◌≡◌, ◌≢◌, refl,
  sym, ap, ◌∙◌, arith, Post, Post-some, Post-step, Post-bind, Post-if, Post-mono, ==_refl,
}
use riscv64_emu_rust.Access.{AccessType, store, load, Result, value, raise, Caches}
use riscv64_emu_rust.Bus.{Reply, ok, err}
use riscv64_emu_rust.Gpr
use riscv64_emu_rust.Gpr.{Gpr}
use riscv64_emu_rust.Mmu.{Tlb, Mmu, update_access_type}
use riscv64_emu_rust.Mmu.Walk.{translate}
use riscv64_emu_rust.Rv64m.{parse_format_r}
use riscv64_emu_rust.Core.{Core, read, write, at_address, answered}
use riscv64_emu_rust.Core.LoadStore.{write_back}
use riscv64_emu_rust.Core.Atomic.{
  cleared, lr_sc_reservation_set, lr_sc_reservation_check_and_clear, reserve, set_rd, stored, Width,
  width_len, sign_extended, execute_lr, execute_sc,
}

module _ {M T A : Type 0} where
  -- The reservation of the state that code leaves.
  abbrev Reserves : ℕ → Result A × Core M T → Type 0
  Reserves addr (r, core) = core.reservation ≡ addr

module _ {M T : Type 0} where
  at_address-Reserves :
      (act : ℕ → Core M T → Option (Result ℕ × Core M T)) (core : Core M T)
      (r : Result ℕ × Mmu T × M)
      → ((p : ℕ) (c : Core M T)
          → c.reservation ≡ core.reservation
          → Post (Reserves core.reservation) (act p c))
      → Post (Reserves core.reservation) (at_address act core r)
  at_address-Reserves act core (raise t, mmu, m) h = refl
  at_address-Reserves act core (value p, mmu, m) h =
      h p (record core { mmu = mmu; memory = m }) refl

  answered-Reserves :
      (access_type : AccessType) (core : Core M T) (addr : ℕ) (reply : Reply ℕ × M)
      → core.reservation ≡ addr
      → Reserves addr (answered access_type core reply)
  answered-Reserves access_type core addr (ok x, m) h = h
  answered-Reserves access_type core addr (err x, m) h = h

  set_rd-Reserves :
      (rd v : ℕ) (core : Core M T) → Post (Reserves core.reservation) (set_rd rd v core)
  set_rd-Reserves rd v core =
      Post-step (Reserves core.reservation) (Gpr.write rd v core.gpr) _ (λ gpr e. refl)

  stored-Reserves :
      (rd addr : ℕ) (r : Result ℕ × Core M T) → Reserves addr r → Post (Reserves addr) (stored rd r)
  stored-Reserves rd addr (raise t, core) h = h
  stored-Reserves rd addr (value x, core) h =
      subst (λ a. Post (Reserves a) (set_rd rd 0 core)) h (set_rd-Reserves rd 0 core)

module _ {M T : Type 0} (caches : Caches M) (tlb : Tlb T) where
  write-Reserves :
      (addr v len : ℕ) (access_type : AccessType) (core : Core M T)
      → Post (Reserves core.reservation) (write caches tlb addr v len access_type core)
  unfolding write
  write-Reserves addr v len access_type core =
      Post-step (Reserves core.reservation) (update_access_type access_type core.mmu) _ (λ mmu e.
        Post-step (Reserves core.reservation) (translate caches tlb addr len mmu core.memory) _
          (λ r e'.
            let act : ℕ → Core M T → Option (Result ℕ × Core M T) = λ p c.
              caches.dcache_write p v len c.memory >>= λ reply.
              some (answered access_type c reply) in
            at_address-Reserves act core r (λ p c same.
              Post-step (Reserves core.reservation) (caches.dcache_write p v len c.memory)
                (λ reply. some (answered access_type c reply))
                (λ reply e''. answered-Reserves access_type c core.reservation reply same))))

  sc-Reserves :
      (width : Width) (inst : ℕ) (core : Core M T)
      → Post (Reserves cleared) (execute_sc caches tlb width inst core)
  unfolding execute_sc lr_sc_reservation_check_and_clear
  sc-Reserves width inst core =
      Post-step (Reserves cleared) (Gpr.read (parse_format_r inst).rs1 core.gpr) _ (λ rs1 e.
        Post-step (Reserves cleared) (Gpr.read (parse_format_r inst).rs2 core.gpr) _ (λ rs2 e'.
          let core' : Core M T = record core { reservation = cleared } in
          Post-if (Reserves cleared) (core.reservation == rs1) _ _
            (λ hit.
              Post-bind (Reserves cleared) (Reserves cleared)
                (write caches tlb rs1 rs2 (width_len width) (store rs1) core')
                (stored (parse_format_r inst).rd)
                (write-Reserves rs1 rs2 (width_len width) (store rs1) core')
                (λ r h. stored-Reserves (parse_format_r inst).rd cleared r h))
            (λ miss. set_rd-Reserves (parse_format_r inst).rd 1 core')))

  -- SC in each of its cases, by the reservation that it finds.
  sc_lem :
      (width : Width) (inst a b addr : ℕ) (core : Core M T)
      → core.reservation ≡ addr
      → Gpr.read (parse_format_r inst).rs1 core.gpr ≡ some a
      → Gpr.read (parse_format_r inst).rs2 core.gpr ≡ some b
      → execute_sc caches tlb width inst core ≡ (
          if addr == a
          then (write caches tlb a b
                (width_len width)
                (store a)
                (record core { reservation = cleared })
              >>= stored (parse_format_r inst).rd)
          else set_rd (parse_format_r inst).rd 1 (record core { reservation = cleared }))
  unfolding execute_sc lr_sc_reservation_check_and_clear
  sc_lem width inst a b addr core e ea eb = rw (ea, eb, e) refl

  -- A reservation is good for one SC: after any SC, whether it stored, failed or raised an exception,
  -- another SC stores nothing. It writes 1 to its `rd` and leaves the memory, the MMU and the
  -- reservation as they are, whatever its width and its address, which is not the all-ones one.
  pub sc_once :
      (w1 w2 : Width) (inst1 inst2 a b : ℕ) (r : Result Unit) (core core1 : Core M T)
      → execute_sc caches tlb w1 inst1 core ≡ some (r, core1)
      → Gpr.read (parse_format_r inst2).rs1 core1.gpr ≡ some a
      → Gpr.read (parse_format_r inst2).rs2 core1.gpr ≡ some b
      → a ≢ cleared
      → execute_sc caches tlb w2 inst2 core1 ≡ set_rd (parse_format_r inst2).rd 1 core1
  sc_once w1 w2 inst1 inst2 a b r core core1 h ea eb ne =
      let gone : core1.reservation ≡ cleared =
        Post-some (Reserves cleared) (execute_sc caches tlb w1 inst1 core) (r, core1)
          (sc-Reserves w1 inst1 core) h in
      let miss : (cleared == a) ≡ false = ground arith in
      sc_lem w2 inst2 a b cleared core1 gone ea eb
      ∙ rw miss (
          ap (λ (x : ℕ). set_rd (parse_format_r inst2).rd 1 (record core1 { reservation = x }))
            (sym gone))

  -- After LR the register file is as the load left it, and its address is reserved.
  abbrev Reserved : ℕ → Result Unit × Core M T → Type 0
  Reserved addr (value x, core) = core.reservation ≡ addr
  Reserved addr (raise t, core) = Unit

  write_back-Reserved :
      (rd addr : ℕ) (f : ℕ → ℕ) (r : Result ℕ × Core M T)
      → Post (Reserved addr) (write_back rd f (reserve addr r))
  unfolding lr_sc_reservation_set
  write_back-Reserved rd addr f (raise t, core) = tt
  write_back-Reserved rd addr f (value x, core) =
      Post-step (Reserved addr) (Gpr.write rd (f x) core.gpr) _ (λ gpr e. refl)

  lr-Reserved :
      (width : Width) (inst addr : ℕ) (core : Core M T)
      → Gpr.read (parse_format_r inst).rs1 core.gpr ≡ some addr
      → Post (Reserved addr) (execute_lr caches tlb width inst core)
  unfolding execute_lr
  lr-Reserved width inst addr core e = rw e (
      Post-step (Reserved addr) (read caches tlb addr (width_len width) (load addr) core) _
        (λ r e'. write_back-Reserved (parse_format_r inst).rd addr (sign_extended width) r))

  -- An SC that follows an LR stores if and only if its address is the one of the LR: then it is the
  -- write of its register at that address, with 0 for `rd` unless an exception is raised, and else it
  -- writes 1 to `rd` and touches no memory. The reservation is gone either way. The widths may differ.
  pub lr-sc :
      (w1 w2 : Width) (inst1 inst2 addr a b : ℕ) (core core1 : Core M T)
      → Gpr.read (parse_format_r inst1).rs1 core.gpr ≡ some addr
      → execute_lr caches tlb w1 inst1 core ≡ some (value tt, core1)
      → Gpr.read (parse_format_r inst2).rs1 core1.gpr ≡ some a
      → Gpr.read (parse_format_r inst2).rs2 core1.gpr ≡ some b
      → execute_sc caches tlb w2 inst2 core1 ≡ (
          if addr == a
          then (write caches tlb a b
                (width_len w2)
                (store a)
                (record core1 { reservation = cleared })
              >>= stored (parse_format_r inst2).rd)
          else set_rd (parse_format_r inst2).rd 1 (record core1 { reservation = cleared }))
  lr-sc w1 w2 inst1 inst2 addr a b core core1 e run ea eb =
      sc_lem w2 inst2 a b addr core1
        (Post-some (Reserved addr) (execute_lr caches tlb w1 inst1 core) (value tt, core1)
          (lr-Reserved w1 inst1 addr core e) run)
        ea eb
