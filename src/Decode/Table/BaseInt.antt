-- ===== src/Decode/Table/BaseInt.antt =====
-- The masks and matches of the table INSTRUCTIONS_I of src/rv64core/inst/inst_rv64i.rs.
use riscv64_emu_rust.Base.{List, [], ◌∷◌}
use riscv64_emu_rust.Decode.Pattern.{Instruction}

abbrev pub inst_add : Instruction
inst_add = record { mask = 0xfe00707f; match_data = 0x33 }

abbrev pub inst_addi : Instruction
inst_addi = record { mask = 0x707f; match_data = 0x13 }

abbrev pub inst_addiw : Instruction
inst_addiw = record { mask = 0x707f; match_data = 0x1b }

abbrev pub inst_addw : Instruction
inst_addw = record { mask = 0xfe00707f; match_data = 0x3b }

abbrev pub inst_and : Instruction
inst_and = record { mask = 0xfe00707f; match_data = 0x7033 }

abbrev pub inst_andi : Instruction
inst_andi = record { mask = 0x707f; match_data = 0x7013 }

abbrev pub inst_auipc : Instruction
inst_auipc = record { mask = 0x7f; match_data = 0x17 }

abbrev pub inst_beq : Instruction
inst_beq = record { mask = 0x707f; match_data = 0x63 }

abbrev pub inst_bge : Instruction
inst_bge = record { mask = 0x707f; match_data = 0x5063 }

abbrev pub inst_bgeu : Instruction
inst_bgeu = record { mask = 0x707f; match_data = 0x7063 }

abbrev pub inst_blt : Instruction
inst_blt = record { mask = 0x707f; match_data = 0x4063 }

abbrev pub inst_bltu : Instruction
inst_bltu = record { mask = 0x707f; match_data = 0x6063 }

abbrev pub inst_bne : Instruction
inst_bne = record { mask = 0x707f; match_data = 0x1063 }

abbrev pub inst_jal : Instruction
inst_jal = record { mask = 0x7f; match_data = 0x6f }

abbrev pub inst_jalr : Instruction
inst_jalr = record { mask = 0x707f; match_data = 0x67 }

abbrev pub inst_lb : Instruction
inst_lb = record { mask = 0x707f; match_data = 0x3 }

abbrev pub inst_lbu : Instruction
inst_lbu = record { mask = 0x707f; match_data = 0x4003 }

abbrev pub inst_ld : Instruction
inst_ld = record { mask = 0x707f; match_data = 0x3003 }

abbrev pub inst_lh : Instruction
inst_lh = record { mask = 0x707f; match_data = 0x1003 }

abbrev pub inst_lhu : Instruction
inst_lhu = record { mask = 0x707f; match_data = 0x5003 }

abbrev pub inst_lui : Instruction
inst_lui = record { mask = 0x7f; match_data = 0x37 }

abbrev pub inst_lw : Instruction
inst_lw = record { mask = 0x707f; match_data = 0x2003 }

abbrev pub inst_lwu : Instruction
inst_lwu = record { mask = 0x707f; match_data = 0x6003 }

abbrev pub inst_or : Instruction
inst_or = record { mask = 0xfe00707f; match_data = 0x6033 }

abbrev pub inst_ori : Instruction
inst_ori = record { mask = 0x707f; match_data = 0x6013 }

abbrev pub inst_sb : Instruction
inst_sb = record { mask = 0x707f; match_data = 0x23 }

abbrev pub inst_sd : Instruction
inst_sd = record { mask = 0x707f; match_data = 0x3023 }

abbrev pub inst_sh : Instruction
inst_sh = record { mask = 0x707f; match_data = 0x1023 }

abbrev pub inst_sll : Instruction
inst_sll = record { mask = 0xfe00707f; match_data = 0x1033 }

abbrev pub inst_slli : Instruction
inst_slli = record { mask = 0xfc00707f; match_data = 0x1013 }

abbrev pub inst_slliw : Instruction
inst_slliw = record { mask = 0xfe00707f; match_data = 0x101b }

abbrev pub inst_sllw : Instruction
inst_sllw = record { mask = 0xfe00707f; match_data = 0x103b }

abbrev pub inst_slt : Instruction
inst_slt = record { mask = 0xfe00707f; match_data = 0x2033 }

abbrev pub inst_slti : Instruction
inst_slti = record { mask = 0x707f; match_data = 0x2013 }

abbrev pub inst_sltiu : Instruction
inst_sltiu = record { mask = 0x707f; match_data = 0x3013 }

abbrev pub inst_sltu : Instruction
inst_sltu = record { mask = 0xfe00707f; match_data = 0x3033 }

abbrev pub inst_sra : Instruction
inst_sra = record { mask = 0xfe00707f; match_data = 0x40005033 }

abbrev pub inst_srai : Instruction
inst_srai = record { mask = 0xfc00707f; match_data = 0x40005013 }

abbrev pub inst_sraiw : Instruction
inst_sraiw = record { mask = 0xfe00707f; match_data = 0x4000501b }

abbrev pub inst_sraw : Instruction
inst_sraw = record { mask = 0xfe00707f; match_data = 0x4000503b }

abbrev pub inst_srl : Instruction
inst_srl = record { mask = 0xfe00707f; match_data = 0x5033 }

abbrev pub inst_srli : Instruction
inst_srli = record { mask = 0xfc00707f; match_data = 0x5013 }

abbrev pub inst_srliw : Instruction
inst_srliw = record { mask = 0xfe00707f; match_data = 0x501b }

abbrev pub inst_srlw : Instruction
inst_srlw = record { mask = 0xfe00707f; match_data = 0x503b }

abbrev pub inst_sub : Instruction
inst_sub = record { mask = 0xfe00707f; match_data = 0x40000033 }

abbrev pub inst_subw : Instruction
inst_subw = record { mask = 0xfe00707f; match_data = 0x4000003b }

abbrev pub inst_sw : Instruction
inst_sw = record { mask = 0x707f; match_data = 0x2023 }

abbrev pub inst_xor : Instruction
inst_xor = record { mask = 0xfe00707f; match_data = 0x4033 }

abbrev pub inst_xori : Instruction
inst_xori = record { mask = 0x707f; match_data = 0x4013 }

abbrev pub instructions_i : List Instruction
instructions_i =
    inst_lui ∷ inst_auipc ∷ inst_jal ∷ inst_jalr ∷ inst_beq ∷ inst_bne ∷ inst_blt ∷ inst_bge
    ∷ inst_bltu ∷ inst_bgeu ∷ inst_lb ∷ inst_lh ∷ inst_lw ∷ inst_lbu ∷ inst_lhu ∷ inst_sb ∷ inst_sh
    ∷ inst_sw ∷ inst_addi ∷ inst_slti ∷ inst_sltiu ∷ inst_xori ∷ inst_ori ∷ inst_andi ∷ inst_slli
    ∷ inst_srli ∷ inst_srai ∷ inst_add ∷ inst_sub ∷ inst_sll ∷ inst_slt ∷ inst_sltu ∷ inst_xor
    ∷ inst_srl ∷ inst_sra ∷ inst_or ∷ inst_and ∷ inst_lwu ∷ inst_ld ∷ inst_sd ∷ inst_addiw
    ∷ inst_slliw ∷ inst_srliw ∷ inst_sraiw ∷ inst_addw ∷ inst_subw ∷ inst_sllw ∷ inst_srlw
    ∷ inst_sraw ∷ []
