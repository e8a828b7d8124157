-- ===== src/Decode/Table/Muldiv.antt =====
-- The masks and matches of the tables INSTRUCTIONS_M of src/rv64core/inst/inst_rv64m.rs and
-- INSTRUCTIONS_Z of src/rv64core/inst/inst_rv64z.rs.
use riscv64_emu_rust.Base.{List, [], ◌∷◌}
use riscv64_emu_rust.Decode.Pattern.{Instruction}

abbrev pub inst_sfence_vma : Instruction
inst_sfence_vma = record { mask = 0xfe007fff; match_data = 0x12000073 }

abbrev pub inst_sret : Instruction
inst_sret = record { mask = 0xffffffff; match_data = 0x10200073 }

abbrev pub inst_csrrc : Instruction
inst_csrrc = record { mask = 0x707f; match_data = 0x3073 }

abbrev pub inst_csrrci : Instruction
inst_csrrci = record { mask = 0x707f; match_data = 0x7073 }

abbrev pub inst_csrrs : Instruction
inst_csrrs = record { mask = 0x707f; match_data = 0x2073 }

abbrev pub inst_csrrsi : Instruction
inst_csrrsi = record { mask = 0x707f; match_data = 0x6073 }

abbrev pub inst_csrrw : Instruction
inst_csrrw = record { mask = 0x707f; match_data = 0x1073 }

abbrev pub inst_csrrwi : Instruction
inst_csrrwi = record { mask = 0x707f; match_data = 0x5073 }

abbrev pub inst_div : Instruction
inst_div = record { mask = 0xfe00707f; match_data = 0x2004033 }

abbrev pub inst_divu : Instruction
inst_divu = record { mask = 0xfe00707f; match_data = 0x2005033 }

abbrev pub inst_divuw : Instruction
inst_divuw = record { mask = 0xfe00707f; match_data = 0x200503b }

abbrev pub inst_divw : Instruction
inst_divw = record { mask = 0xfe00707f; match_data = 0x200403b }

abbrev pub inst_ebreak : Instruction
inst_ebreak = record { mask = 0xffffffff; match_data = 0x100073 }

abbrev pub inst_ecall : Instruction
inst_ecall = record { mask = 0xffffffff; match_data = 0x73 }

abbrev pub inst_fence : Instruction
inst_fence = record { mask = 0x707f; match_data = 0xf }

abbrev pub inst_fence_i : Instruction
inst_fence_i = record { mask = 0x707f; match_data = 0x100f }

abbrev pub inst_mret : Instruction
inst_mret = record { mask = 0xffffffff; match_data = 0x30200073 }

abbrev pub inst_mul : Instruction
inst_mul = record { mask = 0xfe00707f; match_data = 0x2000033 }

abbrev pub inst_mulh : Instruction
inst_mulh = record { mask = 0xfe00707f; match_data = 0x2001033 }

abbrev pub inst_mulhsu : Instruction
inst_mulhsu = record { mask = 0xfe00707f; match_data = 0x2002033 }

abbrev pub inst_mulhu : Instruction
inst_mulhu = record { mask = 0xfe00707f; match_data = 0x2003033 }

abbrev pub inst_mulw : Instruction
inst_mulw = record { mask = 0xfe00707f; match_data = 0x200003b }

abbrev pub inst_rem : Instruction
inst_rem = record { mask = 0xfe00707f; match_data = 0x2006033 }

abbrev pub inst_remu : Instruction
inst_remu = record { mask = 0xfe00707f; match_data = 0x2007033 }

abbrev pub inst_remuw : Instruction
inst_remuw = record { mask = 0xfe00707f; match_data = 0x200703b }

abbrev pub inst_remw : Instruction
inst_remw = record { mask = 0xfe00707f; match_data = 0x200603b }

abbrev pub inst_wfi : Instruction
inst_wfi = record { mask = 0xffffffff; match_data = 0x10500073 }

abbrev pub instructions_m : List Instruction
instructions_m =
    inst_mul ∷ inst_mulh ∷ inst_mulhsu ∷ inst_mulhu ∷ inst_div ∷ inst_divu ∷ inst_rem ∷ inst_remu
    ∷ inst_mulw ∷ inst_divw ∷ inst_divuw ∷ inst_remw ∷ inst_remuw ∷ []

abbrev pub instructions_z : List Instruction
instructions_z =
    inst_ebreak ∷ inst_ecall ∷ inst_wfi ∷ inst_mret ∷ inst_sret ∷ inst_fence_i ∷ inst_sfence_vma
    ∷ inst_fence ∷ inst_csrrc ∷ inst_csrrs ∷ inst_csrrw ∷ inst_csrrci ∷ inst_csrrsi ∷ inst_csrrwi
    ∷ []
