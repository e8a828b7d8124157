-- ===== src/Hart/Laws/Step.antt =====
-- The single step and the reset of src/rv64core/cpu_core.rs.
use riscv64_emu_rust.Base.{
  Bool, true, false, not, Option, none, some, ◌>>=◌, Option-cases, inl, inr, ◌⊎◌, ℕ, ◌+◌, ◌%◌, ◌^◌,
  ◌==◌, ◌≡◌, refl, ap, ◌∙◌, arith,
}
use riscv64_emu_rust.Base.Bits.{get_bit, set_bit, get_field, set_field, get_bit-set_bit}
use riscv64_emu_rust.Base.Fields.{get_field-set_field, get_bit-set_field}
use riscv64_emu_rust.Access.{Caches}
use riscv64_emu_rust.Gpr
use riscv64_emu_rust.Trap.{PrivilegeLevels, machine, priv_num, priv_from_usize}
use riscv64_emu_rust.Dbg.{Slave, DebugModule}
use riscv64_emu_rust.Dbg.Dmi.{set_both, status_now, dmi_read, dmi_write}
use riscv64_emu_rust.Dbg.Registers.{
  halted_bits, running_bits, unavail_bits, nonexistent_bits, resumeack_bits, havereset_bits,
  ndmreset,
}
use riscv64_emu_rust.Csr.Cells.{Cell}
use riscv64_emu_rust.Csr.Define.{dcsr_step, set_prv}
use riscv64_emu_rust.Csr.File.{Config}
use riscv64_emu_rust.Hart.{
  running, haltd, CpuCore, debug_new, step, get_cell, enter_debug_mode, resume_proc, resumed,
  left_machine,
}
use riscv64_emu_rust.Hart.Run.{
  Insns, real_excute, single_step_proc, run_round, halted_round, execute, reset,
}
use riscv64_emu_rust.Hart.Slave.{slave}
use riscv64_emu_rust.Hart.Control.{saved_priv, after_control, dmi_write-control}

-- A halt keeps the cause in dcsr, below it the privilege.
pub saved_cause :
    (c p x : ℕ) → get_field 6 3 (set_bit 5 false (set_prv p (set_field 6 3 c x))) ≡ c % 2 ^ 3
unfolding get_field
saved_cause c p x =
    rw
      (
        get_bit-set_bit 6 5 false (set_prv p (set_field 6 3 c x)),
        get_bit-set_bit 7 5 false (set_prv p (set_field 6 3 c x)),
        get_bit-set_bit 8 5 false (set_prv p (set_field 6 3 c x)),
        get_bit-set_field 6 0 2 p (set_field 6 3 c x) (inr (omega arith)),
        get_bit-set_field 7 0 2 p (set_field 6 3 c x) (inr (omega arith)),
        get_bit-set_field 8 0 2 p (set_field 6 3 c x) (inr (omega arith)),
      )
      (get_field-set_field 6 3 c x)

-- A hart about to execute: the flag of the single step is taken down.
abbrev pub unflagged : {M S : Type 0} → CpuCore M S → CpuCore M S
unflagged cpu = record cpu { debug_state = record cpu.debug_state { singlestep_flag = false } }

bind-some : {A : Type 0} (o : Option A) → (o >>= λ a. some a) ≡ o
bind-some none = refl
bind-some (some a) = refl

module _ {M S : Type 0} (config : Config) (insns : Insns M S) where
  execute-flagged :
      (cpu : CpuCore M S)
      → cpu.cpu_state ≡ running
      → cpu.debug_state.resetreq_signal ≡ false
      → cpu.debug_state.haltreq_signal ≡ false
      → cpu.debug_state.singlestep_flag ≡ true
      → run_round config insns cpu ≡ (
          real_excute config insns (unflagged cpu) >>= λ cpu'.
          some (enter_debug_mode step cpu'.npc cpu'))
  unfolding run_round single_step_proc
  execute-flagged cpu e r h s = rw (r, h, s) refl

  execute_stepping :
      (cpu : CpuCore M S) (privi : PrivilegeLevels)
      → cpu.cpu_state ≡ haltd
      → cpu.debug_state.debug_mode ≡ true
      → cpu.debug_state.resumereq_flag ≡ true
      → cpu.debug_state.resetreq_signal ≡ false
      → cpu.debug_state.haltreq_signal ≡ false
      → get_bit dcsr_step (get_cell Cell.dcsr cpu) ≡ true
      → priv_from_usize (get_field 0 2 (get_cell Cell.dcsr cpu)) ≡ some privi
      → execute config insns 2 cpu ≡ (
          real_excute config insns (unflagged (resumed privi cpu)) >>= λ cpu'.
          some (enter_debug_mode step cpu'.npc cpu'))
  unfolding execute halted_round resume_proc
  execute_stepping cpu privi s d f r h b e =
      rw (s, f, d, e)
        (ap (λ o. o >>= execute config insns 0)
            (execute-flagged (resumed privi cpu) refl r h (rw b refl))
          ∙ bind-some _)

  -- A halted hart whose step bit is set and that is asked to resume, in two rounds of the loop. The one
  -- instruction starts from `start`, which is at dpc, with the privilege that dcsr has, out of debug
  -- mode and with the status word's MPRV cleared below machine mode. Where that instruction panics, so do
  -- the rounds. Otherwise the hart is halted again after it, with its exception taken and no interrupt:
  -- in machine and debug mode, with the cause of a step in dcsr beside the privilege that the
  -- instruction left, dpc where the hart would have gone on, and its registers and memory. No reset
  -- and no halt are asked for.
  pub step_once :
      (cpu : CpuCore M S) (privi : PrivilegeLevels)
      → cpu.cpu_state ≡ haltd
      → cpu.debug_state.debug_mode ≡ true
      → cpu.debug_state.resumereq_flag ≡ true
      → cpu.debug_state.resetreq_signal ≡ false
      → cpu.debug_state.haltreq_signal ≡ false
      → get_bit dcsr_step (get_cell Cell.dcsr cpu) ≡ true
      → priv_from_usize (get_field 0 2 (get_cell Cell.dcsr cpu)) ≡ some privi
      → (start : CpuCore M S) × (start.npc ≡ get_cell Cell.dpc cpu)
        × (start.cur_priv ≡ privi)
        × (start.cpu_state ≡ running)
        × (start.debug_state.debug_mode ≡ false)
        × (start.gpr ≡ cpu.gpr)
        × (start.memory ≡ cpu.memory)
        × (get_cell Cell.xstatus start ≡ left_machine privi cpu)
        × (((real_excute config insns start ≡ none) × (execute config insns 2 cpu ≡ none))
            ⊎ ((done : CpuCore M S) × (cpu' : CpuCore M S) × (real_excute config insns start
                  ≡ some done)
                × (execute config insns 2 cpu ≡ some cpu')
                × (cpu'.cpu_state ≡ haltd)
                × (cpu'.cur_priv ≡ machine)
                × (cpu'.debug_state.debug_mode ≡ true)
                × (get_cell Cell.dpc cpu' ≡ done.npc)
                × (get_field 6 3 (get_cell Cell.dcsr cpu') ≡ 4)
                × (priv_from_usize (get_field 0 2 (get_cell Cell.dcsr cpu')) ≡ some done.cur_priv)
                × (cpu'.gpr ≡ done.gpr)
                × (cpu'.memory ≡ done.memory)))
  unfolding enter_debug_mode
  step_once cpu privi s d f r h b e =
      let start = unflagged (resumed privi cpu) in
      let rounds = execute_stepping cpu privi s d f r h b e in
      (
        start,
        refl,
        refl,
        refl,
        refl,
        refl,
        refl,
        refl,
        elim (Option-cases (real_excute config insns start)) [
          | inl panics ↦
              inl
                (panics, rounds ∙ ap (λ o. o >>= λ c. some (enter_debug_mode step c.npc c)) panics)
          | inr (done, ran) ↦ inr (
            done,
            enter_debug_mode step done.npc done,
            ran,
            rounds ∙ ap (λ o. o >>= λ c. some (enter_debug_mode step c.npc c)) ran,
            refl,
            refl,
            refl,
            refl,
            saved_cause 4 (priv_num done.cur_priv) (get_cell Cell.dcsr done),
            saved_priv done.cur_priv (set_field 6 3 4 (get_cell Cell.dcsr done)),
            refl,
            refl,
          )
        ],
      )

-- The bits that a later field of the status does not write.
set_both-other :
    (j k : ℕ) (v : Bool) (x : ℕ)
    → (j == k) ≡ false
    → (j == k + 1) ≡ false
    → get_bit j (set_both k v x) ≡ get_bit j x
set_both-other j k v x h h' =
    get_bit-set_bit j (k + 1) v (set_bit k v x) ∙ rw (h', get_bit-set_bit j k v x, h) refl

-- The status that a debugger reads shows a reset in both bits exactly where the hart's flag is up.
status_now-havereset :
    {H : Type 0} (hart : Slave H) (h : H) (x : ℕ)
    → (get_bit 18 (status_now hart h x) ≡ hart.havereset h)
      × (get_bit 19 (status_now hart h x) ≡ hart.havereset h)
unfolding status_now
status_now-havereset hart h x =
    let inner = set_both nonexistent_bits false (set_both unavail_bits false x) in
    let acked = set_both havereset_bits (hart.havereset h) inner in
    let resumed = set_both resumeack_bits (hart.resume_ack h) acked in
    let halted = set_both halted_bits (hart.halted h) resumed in
    (
      set_both-other 18 running_bits (not (hart.halted h)) halted refl refl
          ∙ set_both-other 18 halted_bits (hart.halted h) resumed refl refl
          ∙ set_both-other 18 resumeack_bits (hart.resume_ack h) acked refl refl
          ∙ get_bit-set_bit 18 19 (hart.havereset h) (set_bit 18 (hart.havereset h) inner)
          ∙ get_bit-set_bit 18 18 (hart.havereset h) inner,
      set_both-other 19 running_bits (not (hart.halted h)) halted refl refl
          ∙ set_both-other 19 halted_bits (hart.halted h) resumed refl refl
          ∙ set_both-other 19 resumeack_bits (hart.resume_ack h) acked refl refl
          ∙ get_bit-set_bit 19 19 (hart.havereset h) (set_bit 18 (hart.havereset h) inner),
    )

module _ {M S : Type 0} (caches : Caches M) (config : Config) (insns : Insns M S) where
  -- A debugger that resets a running hart never sees that it did. Its write of dmcontrol with the reset
  -- of the hart, whatever the other bits, is answered; one round of the loop puts the hart at the reset
  -- address, running, with its integer registers 0 and with the privilege that it had, in whatever mode
  -- that was; and the status that the debugger reads next has both bits of a reset clear.
  pub reset_forgets :
      (dm : DebugModule) (cpu : CpuCore M S) (word : ℕ)
      → cpu.cpu_state ≡ running
      → get_bit ndmreset (word % 2 ^ 32) ≡ true
      → (dm1 : DebugModule) × (cpu1 : CpuCore M S) × (dmi_write (slave caches) 0x10 word dm cpu
          ≡ some (true, dm1, cpu1))
        × (cpu2 : CpuCore M S) × (execute config insns 1 cpu1 ≡ some cpu2)
        × (cpu2.cpu_state ≡ running)
        × (cpu2.npc ≡ 0x80000000)
        × (cpu2.gpr ≡ Gpr.new)
        × (cpu2.cur_priv ≡ cpu.cur_priv)
        × (get_bit 18 (dmi_read (slave caches) 0x11 dm1 cpu2).0 ≡ false)
        × (get_bit 19 (dmi_read (slave caches) 0x11 dm1 cpu2).0 ≡ false)
  unfolding execute run_round reset dmi_read debug_new
  reset_forgets dm cpu word s r =
      let dm1 = record dm { dmcontrol = word % 2 ^ 32 } in
      let cpu1 = after_control caches dm cpu word in
      let told = record cpu1 { debug_state = record cpu1.debug_state { havereset = true } } in
      let cpu2 = reset config insns told in
      let (any_bit, all_bit) = status_now-havereset (slave caches) cpu2 dm1.dmstatus in
      (
        dm1,
        cpu1,
        dmi_write-control caches dm cpu word,
        cpu2,
        rw (s, r) refl,
        refl,
        refl,
        refl,
        refl,
        any_bit,
        all_bit,
      )
