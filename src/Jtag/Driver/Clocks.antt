-- ===== src/Jtag/Driver/Clocks.antt =====
-- Runs of the pins of src/dbg/jtag_driver.rs: the periods of a clock, and the shifts of a scan.
use riscv64_emu_rust.Base.{
  Bool, true, false, List, [], ◌∷◌, Option, none, some, ◌>>=◌, ℕ, ◌≡◌, refl, ap,
}
use riscv64_emu_rust.Base.Bits.{get_bit}
use riscv64_emu_rust.Dbg.{Slave}
use riscv64_emu_rust.Jtag.{
  run_test_idle, select_dr_scan, capture_dr, shift_dr, exit1_dr, update_dr, next_state,
}
use riscv64_emu_rust.Jtag.Shifter.{ShifterRegister, shift_right, read_data, scan_bit, scan, bits_of}
use riscv64_emu_rust.Jtag.Driver.{JtagDriver, set_pins}

bind-inv :
    {A B : Type 0} (o : Option A) (f : A → Option B) (b : B)
    → (o >>= f) ≡ some b
    → (a : A) × (o ≡ some a) × (f a ≡ some b)
bind-inv none f b h = absurd (cc)
bind-inv (some a) f b h = (a, refl, h)

-- TMS is high with the last bit of a scan.
unfoldable pub scan_pins : List Bool → List (Bool × Bool)
scan_pins [] = []
scan_pins (b ∷ []) = (true, b) ∷ []
scan_pins (b ∷ c ∷ bs) = (false, b) ∷ scan_pins (c ∷ bs)

module _ {H : Type 0} (slave : Slave H) where
  -- A period of the clock.
  abbrev pub clock : Bool → Bool → JtagDriver H → Option (JtagDriver H)
  unfolding set_pins
  clock tms tdi d = set_pins slave false tms tdi d >>= set_pins slave true tms tdi

  -- Periods with their levels of TMS and TDI, and what TDO was in each.
  unfoldable pub clocks : List (Bool × Bool) → JtagDriver H → Option (List Bool × JtagDriver H)
  unfolding set_pins
  clocks [] d = some ([], d)
  clocks ((tms, tdi) ∷ pins) d =
      clock tms tdi d >>= λ d'. clocks pins d' >>= λ (tdos, d''). some (d'.tdo ∷ tdos, d'')

  -- From the last shift of a scan back to the idle state.
  unfoldable pub leave : List Bool × JtagDriver H → Option (List Bool × JtagDriver H)
  unfolding set_pins
  leave (tdos, d) = clock true false d >>= clock false false >>= λ d'. some (tdos, d')

  -- A scan of 40 bits through the selected data register, from the idle state and back.
  unfoldable pub dr_scan : ℕ → JtagDriver H → Option (List Bool × JtagDriver H)
  unfolding clocks scan_pins set_pins get_bit leave
  dr_scan word d =
      clock true false d
      >>= clock false false
      >>= clock false false
      >>= clocks (scan_pins (bits_of 40 word))
      >>= leave

  shift_one :
      (tms b o : Bool) (d : JtagDriver H) (r : ShifterRegister)
      → d.state ≡ shift_dr
      → scan_bit b d.dr ≡ some (o, r)
      → clock tms b d
        ≡ some (record d {
          dr = r;
          state = next_state shift_dr tms;
          tck = true;
          tms = tms;
          tdi = b;
          tdo = o;
        })
  unfolding set_pins scan_bit next_state
  shift_one tms b o d r s h =
      let (word, e, h1) = bind-inv (read_data d.dr) _ _ h in
      let (r', e', h2) = bind-inv (shift_right b d.dr) _ _ h1 in
      rw (s, e, e')
        (ap
          (λ (p : Option (Bool × ShifterRegister)). p >>= λ (t, q). some (record d {
            dr = q;
            state = next_state shift_dr tms;
            tck = true;
            tms = tms;
            tdi = b;
            tdo = t;
          }))
          h2)

  pub shift-scan :
      (b : Bool) (bs os : List Bool) (d : JtagDriver H) (r : ShifterRegister)
      → d.state ≡ shift_dr
      → scan (b ∷ bs) d.dr ≡ some (os, r)
      → (o : Bool) × (i : Bool) × (clocks (scan_pins (b ∷ bs)) d
          ≡ some
              (os, record d { dr = r; state = exit1_dr; tck = true; tms = true; tdi = i; tdo = o }))
  unfolding clocks scan_pins scan next_state
  shift-scan b [] os d r s h =
      let ((o, r1), e, h1) = bind-inv (scan_bit b d.dr) _ _ h in
      (
        o,
        b,
        rw (shift_one true b o d r1 s e) (
            ap
              (λ (p : Option (List Bool × ShifterRegister)). p >>= λ (ts, q). some (
                ts,
                record d { dr = q; state = exit1_dr; tck = true; tms = true; tdi = b; tdo = o },
              ))
              h1),
      )
  shift-scan b (c ∷ bs) os d r s h =
      let ((o, r1), e, h1) = bind-inv (scan_bit b d.dr) _ _ h in
      let ((os2, r2), e2, h2) = bind-inv (scan (c ∷ bs) r1) _ _ h1 in
      let d1 : JtagDriver H = record d {
        dr = r1;
        state = shift_dr;
        tck = true;
        tms = false;
        tdi = b;
        tdo = o;
      } in
      let (o', i, run) = shift-scan c bs os2 d1 r2 refl e2 in
      (
        o',
        i,
        rw (shift_one false b o d r1 s e, run)
            (ap
              (λ (p : Option (List Bool × ShifterRegister)). p >>= λ (ts, q). some (
                ts,
                record d { dr = q; state = exit1_dr; tck = true; tms = true; tdi = i; tdo = o' },
              ))
              h2),
      )

  -- The periods around the shifts.
  pub idle_select :
      (d : JtagDriver H)
      → d.state ≡ run_test_idle
      → clock true false d
        ≡ some (record d { state = select_dr_scan; tck = true; tms = true; tdi = false })
  unfolding set_pins next_state
  idle_select d s = rw s refl

  pub select_capture :
      (d : JtagDriver H)
      → d.state ≡ select_dr_scan
      → clock false false d
        ≡ some (record d { state = capture_dr; tck = true; tms = false; tdi = false })
  unfolding set_pins next_state
  select_capture d s = rw s refl

  pub exit_update :
      (d : JtagDriver H)
      → d.state ≡ exit1_dr
      → clock true false d
        ≡ some (record d { state = update_dr; tck = true; tms = true; tdi = false })
  unfolding set_pins next_state
  exit_update d s = rw s refl
