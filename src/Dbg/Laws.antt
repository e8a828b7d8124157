-- ===== src/Dbg/Laws.antt =====
-- What the registers of the debug module, src/dbg/debug_module.rs, hold through every access of the bus
-- that the debugger drives.
use riscv64_emu_rust.Base.{
  ==_iff, Bool-cases, inl, inr, Post, Post-some, Post-step, Post-bind, Post-if, Post-assert, Bool,
  true, false, not, Option, some, none, ◌>>=◌, ℕ, ◌+◌, ◌-◌, ◌*◌, ◌/◌, ◌%◌, ◌^◌, ◌==◌, leb, ltb, ◌≡◌,
  ◌≢◌, refl, ap, ◌∙◌, arith, length, length-set,
}
use riscv64_emu_rust.Base.Bits.{get_bit, set_bit, get_bit-set_bit}
use riscv64_emu_rust.Base.Fields.{get_bit-set_field}
use riscv64_emu_rust.Dbg.{
  Slave, DebugModule, progbuf_count, abstract_data_count, set_data, arg_read64, arg_write64,
}
use riscv64_emu_rust.Dbg.Command.{
  failed, write_reg, transfer_reg, access_reg, written, loaded, access_length, mem_length,
  access_mem, perform_abstract_command, wdata,
}
use riscv64_emu_rust.Dbg.Dmi.{write_abstractcs, write_command, in_data, in_progbuf, dmi_write}
use riscv64_emu_rust.Dbg.Registers.{
  busy, cmderr, set_cmderr, cmd_write, cmd_size, cmdtype, regno, transfer, aamvirtual,
}

-- The sizes of the two memories.
pub record HasSizes (dm : DebugModule) : Type 0 where
  pub data_size : length dm.abstract_data ≡ abstract_data_count
  pub progbuf_size : length dm.progbuf ≡ progbuf_count

-- No command is under way.
pub record IsIdle (dm : DebugModule) : Type 0 where
  pub sizes : HasSizes dm
  pub idle : get_bit busy dm.abstractcs ≡ false

failed-HasSizes : (e : ℕ) (dm : DebugModule) → HasSizes dm → HasSizes (failed e dm)
unfolding failed
failed-HasSizes e dm h = record { data_size = h.data_size; progbuf_size = h.progbuf_size }

set_data-HasSizes :
    (i word : ℕ) (dm : DebugModule) → HasSizes dm → Post HasSizes (set_data i word dm)
set_data-HasSizes i word dm h = Post-assert HasSizes (ltb i (length dm.abstract_data)) _ (λ small.
    record {
      data_size = length-set dm.abstract_data i word ∙ h.data_size;
      progbuf_size = h.progbuf_size;
    })

arg_write64-HasSizes :
    (i word : ℕ) (dm : DebugModule) → HasSizes dm → Post HasSizes (arg_write64 i word dm)
unfolding arg_write64
arg_write64-HasSizes i word dm h = Post-assert HasSizes (ltb i 3) _ (λ small.
    Post-bind HasSizes HasSizes (set_data (i * 2) (word % 2 ^ 32) dm) _
      (set_data-HasSizes (i * 2) (word % 2 ^ 32) dm h)
      (λ dm' h'. set_data-HasSizes (i * 2 + 1) (word / 2 ^ 32 % 2 ^ 32) dm' h'))

module _ {H : Type 0} (slave : Slave H) (dm : DebugModule) (hart0 : H) (sized : HasSizes dm) where
  abbrev Sized : DebugModule × H → Type 0
  Sized (dm', _) = HasSizes dm'

  write_reg-HasSizes :
      (put : ℕ → H → Option H) (o : Option ℕ) → Post Sized (write_reg slave put dm hart0 o)
  write_reg-HasSizes put none = failed-HasSizes 2 dm sized
  write_reg-HasSizes put (some word) = Post-step Sized (put word hart0) _ (λ h e. sized)

  read-HasSizes : (word : ℕ) → Post Sized (arg_write64 0 word dm >>= λ dm'. some (dm', hart0))
  read-HasSizes word =
      Post-bind HasSizes Sized (arg_write64 0 word dm) _ (arg_write64-HasSizes 0 word dm sized)
        (λ dm' h. h)

  transfer_reg-HasSizes :
      (get : H → Option ℕ) (put : ℕ → H → Option H)
      → Post Sized (transfer_reg slave get put dm hart0)
  transfer_reg-HasSizes get put =
      Post-if Sized (get_bit cmd_write dm.command) _ _
        (λ w. Post-step Sized (wdata (cmd_size dm.command) dm) _ (λ o e. write_reg-HasSizes put o))
        (λ r. Post-step Sized (get hart0) _ (λ word e. read-HasSizes word))

  written-HasSizes : (p : Option ℕ × H) → Post Sized (written slave dm p)
  written-HasSizes (none, h) = failed-HasSizes 5 dm sized
  written-HasSizes (some _, h) = sized

  loaded-HasSizes : (p : Option ℕ × H) → Post Sized (loaded slave dm p)
  loaded-HasSizes (none, h) = failed-HasSizes 5 dm sized
  loaded-HasSizes (some word, h) =
      Post-bind HasSizes Sized (arg_write64 0 word dm) _ (arg_write64-HasSizes 0 word dm sized)
        (λ dm' h'. h')

  access_reg-HasSizes : Post Sized (access_reg slave dm hart0)
  unfolding access_reg
  access_reg-HasSizes =
      let number : ℕ = regno dm.command in
      Post-if Sized (not (get_bit transfer dm.command)) _ _ (λ n. sized)
        (λ t.
          Post-if Sized (leb number 0x0fff) _ _
            (λ c. transfer_reg-HasSizes (slave.read_csr number) (slave.write_csr number))
            (λ g.
              Post-if Sized (leb number 0x101f) _ _
                (λ r.
                  transfer_reg-HasSizes (slave.read_gpr (number - 0x1000))
                    (slave.write_gpr (number - 0x1000)))
                (λ o. failed-HasSizes 2 dm sized)))

  access_length-HasSizes : (o : Option ℕ) → Post Sized (access_length slave dm hart0 o)
  access_length-HasSizes none = failed-HasSizes 2 dm sized
  access_length-HasSizes (some n) = Post-step Sized (arg_read64 1 dm) _ (λ address e.
      Post-if Sized (get_bit cmd_write dm.command) _ _
        (λ w. Post-step Sized (arg_read64 0 dm) _ (λ word e'.
          Post-step Sized (slave.write_memory address n word hart0) (written slave dm)
            (λ p e''. written-HasSizes p)))
        (λ r.
          Post-step Sized (slave.read_memory address n hart0) (loaded slave dm)
            (λ p e''. loaded-HasSizes p)))

  access_mem-HasSizes : Post Sized (access_mem slave dm hart0)
  unfolding access_mem
  access_mem-HasSizes =
      Post-if Sized (get_bit aamvirtual dm.command) _ _ (λ v. failed-HasSizes 2 dm sized)
        (λ n. access_length-HasSizes (mem_length (cmd_size dm.command)))

  perform-HasSizes : Post Sized (perform_abstract_command slave dm hart0)
  unfolding perform_abstract_command
  perform-HasSizes =
      Post-if Sized (not (slave.halted hart0)) _ _ (λ n. failed-HasSizes 4 dm sized)
        (λ h.
          Post-if Sized (cmdtype dm.command == 0) _ _ (λ r. access_reg-HasSizes)
            (λ n.
              Post-if Sized (cmdtype dm.command == 2) _ _ (λ m. access_mem-HasSizes)
                (λ o. failed-HasSizes 2 dm sized)))

set_cmderr-busy : (e x : ℕ) → get_bit busy (set_cmderr e x) ≡ get_bit busy x
set_cmderr-busy e x = get_bit-set_field 12 8 3 e x (inr (omega arith))

cleared-busy : (x : ℕ) → get_bit busy (set_bit busy false x) ≡ false
cleared-busy x = get_bit-set_bit 12 12 false x

-- What a write of the debugger leaves: the module idle, and an error that it does not clear.
abbrev Leaves : ℕ → DebugModule → DebugModule → Type 0
Leaves addr dm dm' =
    IsIdle dm'
    × (cmderr dm.abstractcs ≢ 0 → addr ≢ 0x16 → cmderr dm'.abstractcs ≡ cmderr dm.abstractcs)

abbrev Settled : {H : Type 0} → ℕ → DebugModule → Bool × DebugModule × H → Type 0
Settled addr dm (_, dm', _) = Leaves addr dm dm'

module _ {H : Type 0} (slave : Slave H) (dm : DebugModule) (hart0 : H) (i : IsIdle dm) where
  write_abstractcs-IsIdle : (value : ℕ) → IsIdle (write_abstractcs value dm)
  unfolding write_abstractcs
  write_abstractcs-IsIdle value = record {
    sizes = record { data_size = i.sizes.data_size; progbuf_size = i.sizes.progbuf_size };
    idle = elim (Bool-cases (get_bit busy value)) [
      | inl e ↦ rw e (set_cmderr-busy 1 dm.abstractcs ∙ i.idle)
      | inr e ↦ rw e (set_cmderr-busy _ dm.abstractcs ∙ i.idle)
    ];
  }

  abbrev Ended : DebugModule × H → Type 0
  Ended (dm', _) =
      IsIdle dm' × (cmderr dm.abstractcs ≢ 0 → cmderr dm'.abstractcs ≡ cmderr dm.abstractcs)

  write_command-Ended : (value : ℕ) → Post Ended (write_command slave value dm hart0)
  unfolding write_command
  write_command-Ended value =
      Post-if Ended (not (cmderr dm.abstractcs == 0)) _ _
        (λ e. (
          record {
            sizes = record { data_size = i.sizes.data_size; progbuf_size = i.sizes.progbuf_size };
            idle = i.idle;
          },
          λ n. refl,
        ))
        (λ e.
          let started = record dm {
            command = value;
            abstractcs = set_bit busy true dm.abstractcs;
          } in
          Post-bind (λ p. HasSizes p.0) Ended (perform_abstract_command slave started hart0)
            (λ (done, h). some (record done { abstractcs = set_bit busy false done.abstractcs }, h))
            (perform-HasSizes slave started hart0
              (record { data_size = i.sizes.data_size; progbuf_size = i.sizes.progbuf_size }))
            (λ (done, h) sized. (
              record {
                sizes = record { data_size = sized.data_size; progbuf_size = sized.progbuf_size };
                idle = cleared-busy done.abstractcs;
              },
              λ n. absurd (ground arith),
            )))

  kept :
      (addr : ℕ) (dm' : DebugModule)
      → dm'.abstractcs ≡ dm.abstractcs
      → length dm'.abstract_data ≡ length dm.abstract_data
      → length dm'.progbuf ≡ length dm.progbuf
      → Leaves addr dm dm'
  kept addr dm' e a b = (
    record {
      sizes = record { data_size = a ∙ i.sizes.data_size; progbuf_size = b ∙ i.sizes.progbuf_size };
      idle = ap (get_bit busy) e ∙ i.idle;
    },
    λ n m. ap cmderr e,
  )

  dmi_write-Settled : (addr word : ℕ) → Post (Settled addr dm) (dmi_write slave addr word dm hart0)
  unfolding dmi_write
  dmi_write-Settled addr word =
      let value : ℕ = word % 2 ^ 32 in
      Post-if (Settled addr dm) (in_data addr) _ _
        (λ e. kept addr _ refl (length-set dm.abstract_data (addr - 4) value) refl)
        (λ e1.
          Post-if (Settled addr dm) (in_progbuf addr) _ _
            (λ e. kept addr _ refl refl (length-set dm.progbuf (addr - 0x20) value))
            (λ e2.
              Post-if (Settled addr dm) (addr == 0x10) _ _ (λ e. kept addr _ refl refl refl)
                (λ e3.
                  Post-if (Settled addr dm) (addr == 0x12) _ _ (λ e. kept addr _ refl refl refl)
                    (λ e4.
                      Post-if (Settled addr dm) (addr == 0x16) _ _
                        (λ e. (
                          write_abstractcs-IsIdle value,
                          λ n m. absurd (m ((==_iff addr 0x16).0 e)),
                        ))
                        (λ e5.
                          Post-if (Settled addr dm) (addr == 0x17) _ _
                            (λ e.
                              Post-bind Ended (Settled addr dm) (write_command slave value dm hart0)
                                _ (write_command-Ended value)
                                (λ (dm', h) (idle, k). (idle, λ n m. k n)))
                            (λ e6. kept addr _ refl refl refl))))))

-- A write of the debugger to any address finds the module with no command under way, and leaves it so: a
-- command is over when its write is. The two memories keep their sizes. An error that stands is neither
-- changed nor cleared but by a write of abstractcs.
pub dmi_write-IsIdle :
    {H : Type 0} (slave : Slave H) (addr word : ℕ) (dm dm' : DebugModule) (hart0 hart0' : H)
    (answered : Bool)
    → IsIdle dm
    → dmi_write slave addr word dm hart0 ≡ some (answered, dm', hart0')
    → IsIdle dm'
      × (cmderr dm.abstractcs ≢ 0 → addr ≢ 0x16 → cmderr dm'.abstractcs ≡ cmderr dm.abstractcs)
dmi_write-IsIdle slave addr word dm dm' hart0 hart0' answered i h =
    Post-some (Settled addr dm) (dmi_write slave addr word dm hart0) (answered, dm', hart0')
      (dmi_write-Settled slave dm hart0 i addr word) h
