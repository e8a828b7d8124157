-- ===== src/Decode/Table/Compressed.antt =====
-- The masks and matches of the table INSTRUCTIONS_C of src/rv64core/inst/inst_rv64c.rs.
use riscv64_emu_rust.Base.{List, [], ◌∷◌}
use riscv64_emu_rust.Decode.Pattern.{Instruction}

abbrev pub inst_c_add : Instruction
inst_c_add = record { mask = 0xf003; match_data = 0x9002 }

abbrev pub inst_c_addi : Instruction
inst_c_addi = record { mask = 0xe003; match_data = 0x1 }

abbrev pub inst_c_addi16sp : Instruction
inst_c_addi16sp = record { mask = 0xef83; match_data = 0x6101 }

abbrev pub inst_c_addi4spn : Instruction
inst_c_addi4spn = record { mask = 0xe003; match_data = 0x0 }

abbrev pub inst_c_addiw : Instruction
inst_c_addiw = record { mask = 0xe003; match_data = 0x2001 }

abbrev pub inst_c_addw : Instruction
inst_c_addw = record { mask = 0xfc63; match_data = 0x9c21 }

abbrev pub inst_c_and : Instruction
inst_c_and = record { mask = 0xfc63; match_data = 0x8c61 }

abbrev pub inst_c_andi : Instruction
inst_c_andi = record { mask = 0xec03; match_data = 0x8801 }

abbrev pub inst_c_beqz : Instruction
inst_c_beqz = record { mask = 0xe003; match_data = 0xc001 }

abbrev pub inst_c_bnez : Instruction
inst_c_bnez = record { mask = 0xe003; match_data = 0xe001 }

abbrev pub inst_c_ebreak : Instruction
inst_c_ebreak = record { mask = 0xffff; match_data = 0x9002 }

abbrev pub inst_c_j : Instruction
inst_c_j = record { mask = 0xe003; match_data = 0xa001 }

abbrev pub inst_c_jalr : Instruction
inst_c_jalr = record { mask = 0xf07f; match_data = 0x9002 }

abbrev pub inst_c_jr : Instruction
inst_c_jr = record { mask = 0xf07f; match_data = 0x8002 }

abbrev pub inst_c_ld : Instruction
inst_c_ld = record { mask = 0xe003; match_data = 0x6000 }

abbrev pub inst_c_ldsp : Instruction
inst_c_ldsp = record { mask = 0xe003; match_data = 0x6002 }

abbrev pub inst_c_li : Instruction
inst_c_li = record { mask = 0xe003; match_data = 0x4001 }

abbrev pub inst_c_lui : Instruction
inst_c_lui = record { mask = 0xe003; match_data = 0x6001 }

abbrev pub inst_c_lw : Instruction
inst_c_lw = record { mask = 0xe003; match_data = 0x4000 }

abbrev pub inst_c_lwsp : Instruction
inst_c_lwsp = record { mask = 0xe003; match_data = 0x4002 }

abbrev pub inst_c_mv : Instruction
inst_c_mv = record { mask = 0xf003; match_data = 0x8002 }

abbrev pub inst_c_nop : Instruction
inst_c_nop = record { mask = 0xef83; match_data = 0x1 }

abbrev pub inst_c_or : Instruction
inst_c_or = record { mask = 0xfc63; match_data = 0x8c41 }

abbrev pub inst_c_sd : Instruction
inst_c_sd = record { mask = 0xe003; match_data = 0xe000 }

abbrev pub inst_c_sdsp : Instruction
inst_c_sdsp = record { mask = 0xe003; match_data = 0xe002 }

abbrev pub inst_c_slli : Instruction
inst_c_slli = record { mask = 0xe003; match_data = 0x2 }

abbrev pub inst_c_srai : Instruction
inst_c_srai = record { mask = 0xec03; match_data = 0x8401 }

abbrev pub inst_c_srli : Instruction
inst_c_srli = record { mask = 0xec03; match_data = 0x8001 }

abbrev pub inst_c_sub : Instruction
inst_c_sub = record { mask = 0xfc63; match_data = 0x8c01 }

abbrev pub inst_c_subw : Instruction
inst_c_subw = record { mask = 0xfc63; match_data = 0x9c01 }

abbrev pub inst_c_sw : Instruction
inst_c_sw = record { mask = 0xe003; match_data = 0xc000 }

abbrev pub inst_c_swsp : Instruction
inst_c_swsp = record { mask = 0xe003; match_data = 0xc002 }

abbrev pub inst_c_xor : Instruction
inst_c_xor = record { mask = 0xfc63; match_data = 0x8c21 }

abbrev pub instructions_c : List Instruction
instructions_c =
    inst_c_lwsp ∷ inst_c_ldsp ∷ inst_c_swsp ∷ inst_c_sdsp ∷ inst_c_lw ∷ inst_c_ld ∷ inst_c_sw
    ∷ inst_c_sd ∷ inst_c_j ∷ inst_c_jr ∷ inst_c_jalr ∷ inst_c_beqz ∷ inst_c_bnez ∷ inst_c_li
    ∷ inst_c_lui ∷ inst_c_addi ∷ inst_c_addiw ∷ inst_c_addi16sp ∷ inst_c_addi4spn ∷ inst_c_slli
    ∷ inst_c_srli ∷ inst_c_srai ∷ inst_c_andi ∷ inst_c_mv ∷ inst_c_add ∷ inst_c_and ∷ inst_c_or
    ∷ inst_c_xor ∷ inst_c_sub ∷ inst_c_addw ∷ inst_c_subw ∷ inst_c_nop ∷ inst_c_ebreak ∷ []
