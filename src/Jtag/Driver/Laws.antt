-- ===== src/Jtag/Driver/Laws.antt =====
-- What a debugger does with the pins of src/dbg/jtag_driver.rs to reach the debug module.
use riscv64_emu_rust.Base.{
  bind_assoc, Option-cases, inl, inr, Bool, true, false, List, some, ◌>>=◌, ℕ, ◌/◌, ◌%◌, ◌^◌, ◌<◌,
  ◌≡◌, refl, ap, ◌∙◌, arith,
}
use native.Mathlib.Nat.{mod-eq_of_lt}
use riscv64_emu_rust.Base.Bits.{get_bit, bit_and_mask}
use riscv64_emu_rust.Dbg.{Slave, DebugModule}
use riscv64_emu_rust.Jtag.{
  run_test_idle, select_dr_scan, capture_dr, shift_dr, exit1_dr, update_dr, next_state,
}
use riscv64_emu_rust.Jtag.Shifter.{
  ShifterRegister, set_reg, len_mask, read_data, bits_of, scan_exchanges,
}
use riscv64_emu_rust.Jtag.Driver.{
  JtagDtmRegister, JtagDriver, selected, capture, on_capture, operate, on_update, set_pins,
}
use riscv64_emu_rust.Jtag.Driver.Clocks.{
  clock, clocks, scan_pins, leave, dr_scan, shift-scan, idle_select, select_capture, exit_update,
}

-- The register of 40 bits that holds a word.
abbrev pub forty : ℕ → ShifterRegister → ShifterRegister
forty word r = record r { len = 40; data_reg = word }

set_forty : (word : ℕ) (r : ShifterRegister) → set_reg word 40 r ≡ some (forty (word % 2 ^ 40) r)
unfolding set_reg len_mask
set_forty word r = ap (λ x. some (forty x r)) (bit_and_mask 40 word)

read_forty : (word : ℕ) (r : ShifterRegister) → word < 2 ^ 40 → read_data (forty word r) ≡ some word
unfolding read_data len_mask
read_forty word r h = ap some (bit_and_mask 40 word ∙ mod-eq_of_lt h)

module _ {H : Type 0} (slave : Slave H) where
  on_capture-dmi :
      (d : JtagDriver H)
      → selected d ≡ some JtagDtmRegister.dmi
      → on_capture d ≡ some (record d { dr = forty (d.dmi_word % 2 ^ 40) d.dr })
  unfolding on_capture
  on_capture-dmi d e =
      ap (λ o. o >>= λ register. capture register d) e
      ∙ ap (λ o. o >>= λ dr. some (record d { dr = dr })) (set_forty d.dmi_word d.dr)

  -- The driver before the shifts of a scan, and after them.
  abbrev pub shifting : JtagDriver H → JtagDriver H
  shifting d = record d {
    dr = forty (d.dmi_word % 2 ^ 40) d.dr;
    state = shift_dr;
    tck = true;
    tms = false;
    tdi = false;
  }

  abbrev pub shifted : Bool → Bool → ℕ → JtagDriver H → JtagDriver H
  shifted o i word d = record d {
    dr = forty word d.dr;
    state = exit1_dr;
    tck = true;
    tms = true;
    tdi = i;
    tdo = o;
  }

  capture_shift :
      (d : JtagDriver H)
      → d.state ≡ capture_dr
      → selected d ≡ some JtagDtmRegister.dmi
      → clock slave false false d
        ≡ some (record d {
          dr = forty (d.dmi_word % 2 ^ 40) d.dr;
          state = shift_dr;
          tck = true;
          tms = false;
          tdi = false;
        })
  unfolding set_pins next_state
  capture_shift d s e = rw (s, on_capture-dmi (record d { state = capture_dr }) e) refl

  -- What the operation leaves of the driver, at the end of a scan.
  abbrev pub operated : JtagDriver H → ℕ × DebugModule × H → JtagDriver H
  operated d (word, dm, hart0) = record d {
    dmi_word = word;
    dm = dm;
    hart0 = hart0;
    state = run_test_idle;
    tck = true;
    tms = false;
    tdi = false;
  }

  update_idle :
      (d : JtagDriver H) (word : ℕ)
      → d.state ≡ update_dr
      → selected d ≡ some JtagDtmRegister.dmi
      → read_data d.dr ≡ some word
      → clock slave false false d
        ≡ (operate slave word d.dm d.hart0 >>= λ answer. some (operated d answer))
  unfolding set_pins next_state on_update
  update_idle d word s e r =
      rw (s, e, r)
        (elim (Option-cases (operate slave word d.dm d.hart0)) [
          | inl n ↦ rw n refl
          | inr (answer, y) ↦ rw y refl
        ])

  enter-shifting :
      (d : JtagDriver H)
      → d.state ≡ run_test_idle
      → selected d ≡ some JtagDtmRegister.dmi
      → (clock slave true false d >>= clock slave false false >>= clock slave false false)
        ≡ some (shifting d)
  unfolding selected
  enter-shifting d s e =
      let d1 : JtagDriver H = record d {
        state = select_dr_scan;
        tck = true;
        tms = true;
        tdi = false;
      } in
      let d2 : JtagDriver H = record d1 { state = capture_dr; tms = false } in
      ap (λ p. p >>= clock slave false false >>= clock slave false false) (idle_select slave d s)
      ∙ ap (λ p. p >>= clock slave false false) (select_capture slave d1 refl)
      ∙ capture_shift d2 refl e

  leave-shifted :
      (d : JtagDriver H) (tdos : List Bool) (word : ℕ) (o i : Bool)
      → selected d ≡ some JtagDtmRegister.dmi
      → word < 2 ^ 40
      → leave slave (tdos, shifted o i word d) ≡ (
          operate slave word d.dm d.hart0 >>= λ answer.
          some (tdos, operated (record d { dr = forty word d.dr; tdo = o }) answer))
  unfolding selected leave
  leave-shifted d tdos word o i e h =
      let d5 : JtagDriver H = record (shifted o i word d) { state = update_dr; tdi = false } in
      ap (λ p. p >>= clock slave false false >>= λ d'. some (tdos, d'))
        (exit_update slave (shifted o i word d) refl)
      ∙ ap (λ p. p >>= λ d'. some (tdos, d')) (update_idle d5 word refl e (read_forty word d.dr h))
      ∙ bind_assoc (operate slave word d.dm d.hart0) (λ answer. some (operated d5 answer))
          (λ d'. some (tdos, d'))

  -- A scan of the register of the debug module interface, from the idle state and back, in the 45 periods
  -- of the clock that `dr_scan` counts. It performs the operation that the word asks for, exactly one, and
  -- ends with a panic where that one does. TDO carries the 40 low bits of what the register held, and
  -- afterwards the register holds the answer. The rest of the driver, but its pins and its shift register, stays.
  pub dr_scan-operate :
      (d : JtagDriver H) (word : ℕ)
      → d.state ≡ run_test_idle
      → selected d ≡ some JtagDtmRegister.dmi
      → word < 2 ^ 40
      → (o : Bool) × (dr_scan slave word d ≡ (
          operate slave word d.dm d.hart0 >>= λ answer. some (
            bits_of 40 (d.dmi_word % 2 ^ 40),
            operated (record d { dr = forty word d.dr; tdo = o }) answer,
          )))
  unfolding dr_scan
  dr_scan-operate d word s e h =
      let old : ℕ = d.dmi_word % 2 ^ 40 in
      let (o, i, run) =
        shift-scan slave (get_bit 0 word) (bits_of 39 (word / 2)) (bits_of 40 old) (shifting d)
          (forty word d.dr) refl
          (scan_exchanges (forty old d.dr) word (omega arith) (omega arith) (omega arith) h) in
      (
        o,
        ap (λ p. p >>= clocks slave (scan_pins (bits_of 40 word)) >>= leave slave)
              (enter-shifting d s e)
            ∙ ap (λ p. p >>= leave slave) run
            ∙ leave-shifted d (bits_of 40 old) word o i e h,
      )
