-- ===== src/Decode/Table/Atomic.antt =====
-- The masks and matches of the table INSTRUCTIONS_A of src/rv64core/inst/inst_rv64a.rs.
use riscv64_emu_rust.Base.{List, [], ◌∷◌}
use riscv64_emu_rust.Decode.Pattern.{Instruction}

abbrev pub inst_amoadd_d : Instruction
inst_amoadd_d = record { mask = 0xf800707f; match_data = 0x302f }

abbrev pub inst_amoadd_w : Instruction
inst_amoadd_w = record { mask = 0xf800707f; match_data = 0x202f }

abbrev pub inst_amoand_d : Instruction
inst_amoand_d = record { mask = 0xf800707f; match_data = 0x6000302f }

abbrev pub inst_amoand_w : Instruction
inst_amoand_w = record { mask = 0xf800707f; match_data = 0x6000202f }

abbrev pub inst_amomax_d : Instruction
inst_amomax_d = record { mask = 0xf800707f; match_data = 0xa000302f }

abbrev pub inst_amomax_w : Instruction
inst_amomax_w = record { mask = 0xf800707f; match_data = 0xa000202f }

abbrev pub inst_amomaxu_d : Instruction
inst_amomaxu_d = record { mask = 0xf800707f; match_data = 0xe000302f }

abbrev pub inst_amomaxu_w : Instruction
inst_amomaxu_w = record { mask = 0xf800707f; match_data = 0xe000202f }

abbrev pub inst_amomin_d : Instruction
inst_amomin_d = record { mask = 0xf800707f; match_data = 0x8000302f }

abbrev pub inst_amomin_w : Instruction
inst_amomin_w = record { mask = 0xf800707f; match_data = 0x8000202f }

abbrev pub inst_amominu_d : Instruction
inst_amominu_d = record { mask = 0xf800707f; match_data = 0xc000302f }

abbrev pub inst_amominu_w : Instruction
inst_amominu_w = record { mask = 0xf800707f; match_data = 0xc000202f }

abbrev pub inst_amoor_d : Instruction
inst_amoor_d = record { mask = 0xf800707f; match_data = 0x4000302f }

abbrev pub inst_amoor_w : Instruction
inst_amoor_w = record { mask = 0xf800707f; match_data = 0x4000202f }

abbrev pub inst_amoswap_d : Instruction
inst_amoswap_d = record { mask = 0xf800707f; match_data = 0x800302f }

abbrev pub inst_amoswap_w : Instruction
inst_amoswap_w = record { mask = 0xf800707f; match_data = 0x800202f }

abbrev pub inst_amoxor_d : Instruction
inst_amoxor_d = record { mask = 0xf800707f; match_data = 0x2000302f }

abbrev pub inst_amoxor_w : Instruction
inst_amoxor_w = record { mask = 0xf800707f; match_data = 0x2000202f }

abbrev pub inst_lr_d : Instruction
inst_lr_d = record { mask = 0xf9f0707f; match_data = 0x1000302f }

abbrev pub inst_lr_w : Instruction
inst_lr_w = record { mask = 0xf9f0707f; match_data = 0x1000202f }

abbrev pub inst_sc_d : Instruction
inst_sc_d = record { mask = 0xf800707f; match_data = 0x1800302f }

abbrev pub inst_sc_w : Instruction
inst_sc_w = record { mask = 0xf800707f; match_data = 0x1800202f }

abbrev pub instructions_a : List Instruction
instructions_a =
    inst_lr_w ∷ inst_lr_d ∷ inst_sc_w ∷ inst_sc_d ∷ inst_amoswap_w ∷ inst_amoswap_d ∷ inst_amoxor_w
    ∷ inst_amoxor_d ∷ inst_amoor_w ∷ inst_amoor_d ∷ inst_amominu_w ∷ inst_amominu_d ∷ inst_amomin_w
    ∷ inst_amomin_d ∷ inst_amomaxu_w ∷ inst_amomaxu_d ∷ inst_amomax_w ∷ inst_amomax_d
    ∷ inst_amoand_w ∷ inst_amoand_d ∷ inst_amoadd_w ∷ inst_amoadd_d ∷ []
