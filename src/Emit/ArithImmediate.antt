-- ===== src/Emit/ArithImmediate.antt =====
-- vmm/translate_arithmetic_immediate.c: the blocks of the OP-IMM instructions.
pub mod Computes
pub mod Executes
use zelda_riscv_emulator.Base.{ℕ, ◌==◌, if◌then◌else◌, Option, none, some, List, [], ◌∷◌, bit_and}
use zelda_riscv_emulator.Host.{
  Instr, fetch, deposit, proceed, addl, andl, orl, xorl, cmpl_param, movl_param, setcc, movzbl,
  andl_imm, shll_cl, shrl_cl, sarl_cl, Cond,
}
use zelda_riscv_emulator.Host.State.{rax, rcx, rdx}
use zelda_riscv_emulator.Decode.{Decoding, instruction_decoding_per_type, type_i}
use zelda_riscv_emulator.Translation.{PrefetchBlob, translate, advance}
use zelda_riscv_emulator.Translation.Cache.{Block, Layout}
use zelda_riscv_emulator.Emit.Block.{Translator}
use zelda_riscv_emulator.Emit.SignExtend.{sign_extend32}

-- The parameters: the immediate, and the indices of rs1 and rd.
abbrev pub immediate_params : ℕ → Decoding → List ℕ
immediate_params imm dec = imm ∷ dec.rs1_index ∷ dec.rd_index ∷ []

unfoldable pub addi_block : Decoding → Block
addi_block dec = record {
  code = fetch 1 rdx rax (movl_param 0 rdx ∷ addl rdx rax ∷ deposit 2 rdx rax proceed);
  params = immediate_params (sign_extend32 dec.imm 11) dec;
}

unfoldable pub stli_block : Decoding → Block
stli_block dec = record {
  code =
      xorl rcx rcx
      ∷ fetch 1 rdx rax
          (cmpl_param 0 rax ∷ setcc Cond.l rcx ∷ movzbl rcx rcx ∷ deposit 2 rdx rcx proceed);
  params = immediate_params (sign_extend32 dec.imm 11) dec;
}

unfoldable pub stliu_block : Decoding → Block
stliu_block dec = record {
  code =
      xorl rcx rcx
      ∷ fetch 1 rdx rax
          (cmpl_param 0 rax ∷ setcc Cond.b rcx ∷ movzbl rcx rcx ∷ deposit 2 rdx rcx proceed);
  params = immediate_params (sign_extend32 dec.imm 11) dec;
}

unfoldable pub xori_block : Decoding → Block
xori_block dec = record {
  code =
      xorl rcx rcx ∷ fetch 1 rdx rax (movl_param 0 rdx ∷ xorl rdx rax ∷ deposit 2 rdx rax proceed);
  params = immediate_params (sign_extend32 dec.imm 11) dec;
}

unfoldable pub ori_block : Decoding → Block
ori_block dec = record {
  code =
      xorl rcx rcx ∷ fetch 1 rdx rax (movl_param 0 rdx ∷ orl rdx rax ∷ deposit 2 rdx rax proceed);
  params = immediate_params (sign_extend32 dec.imm 11) dec;
}

unfoldable pub andi_block : Decoding → Block
andi_block dec = record {
  code =
      xorl rcx rcx ∷ fetch 1 rdx rax (movl_param 0 rdx ∷ andl rdx rax ∷ deposit 2 rdx rax proceed);
  params = immediate_params (sign_extend32 dec.imm 11) dec;
}

unfoldable pub slli_block : Decoding → Block
slli_block dec = record {
  code =
      xorl rcx rcx
      ∷ fetch 1 rdx rax
          (movl_param 0 rcx ∷ andl_imm 0x1f rcx ∷ shll_cl rax ∷ deposit 2 rdx rax proceed);
  params = immediate_params dec.imm dec;
}

unfoldable pub srli_block : Decoding → Block
srli_block dec = record {
  code =
      xorl rcx rcx
      ∷ fetch 1 rdx rax
          (movl_param 0 rcx ∷ andl_imm 0x1f rcx ∷ shrl_cl rax ∷ deposit 2 rdx rax proceed);
  params = immediate_params dec.imm dec;
}

unfoldable pub srai_block : Decoding → Block
srai_block dec = record {
  code =
      xorl rcx rcx
      ∷ fetch 1 rdx rax
          (movl_param 0 rcx ∷ andl_imm 0x1f rcx ∷ sarl_cl rax ∷ deposit 2 rdx rax proceed);
  params = immediate_params dec.imm dec;
}

module _ (layout : Layout) where
  unfoldable pub riscv_addi_translator : Translator
  riscv_addi_translator dec = translate layout (addi_block dec) advance

  unfoldable pub riscv_stli_translator : Translator
  riscv_stli_translator dec = translate layout (stli_block dec) advance

  unfoldable pub riscv_stliu_translator : Translator
  riscv_stliu_translator dec = translate layout (stliu_block dec) advance

  unfoldable pub riscv_xori_translator : Translator
  riscv_xori_translator dec = translate layout (xori_block dec) advance

  unfoldable pub riscv_ori_translator : Translator
  riscv_ori_translator dec = translate layout (ori_block dec) advance

  unfoldable pub riscv_andi_translator : Translator
  riscv_andi_translator dec = translate layout (andi_block dec) advance

  unfoldable pub riscv_slli_translator : Translator
  riscv_slli_translator dec = translate layout (slli_block dec) advance

  -- Bit 10 of the immediate tells the arithmetic shift.
  unfoldable pub riscv_right_shift_translator : Translator
  riscv_right_shift_translator dec blob =
      if bit_and dec.imm 0x400 == 0
      then translate layout (srli_block dec) advance blob
      else translate layout (srai_block dec) advance blob

  -- `per_funct3_handlers` of this file.
  unfoldable pub immediate_handler : Translator
  unfolding riscv_addi_translator riscv_slli_translator riscv_stli_translator riscv_stliu_translator
      riscv_xori_translator riscv_right_shift_translator riscv_ori_translator riscv_andi_translator
  immediate_handler dec blob =
      if dec.funct3 == 0x0
      then riscv_addi_translator dec blob
      else if dec.funct3 == 0x1
      then riscv_slli_translator dec blob
      else if dec.funct3 == 0x2
      then riscv_stli_translator dec blob
      else if dec.funct3 == 0x3
      then riscv_stliu_translator dec blob
      else if dec.funct3 == 0x4
      then riscv_xori_translator dec blob
      else if dec.funct3 == 0x5
      then riscv_right_shift_translator dec blob
      else if dec.funct3 == 0x6
      then riscv_ori_translator dec blob
      else if dec.funct3 == 0x7
      then riscv_andi_translator dec blob
      else none

  unfoldable pub riscv_arithmetic_immediate_instructions_translation_entry :
      PrefetchBlob → ℕ → Option PrefetchBlob
  unfolding immediate_handler
  riscv_arithmetic_immediate_instructions_translation_entry blob instruction =
      elim (instruction_decoding_per_type instruction type_i) [
        | none ↦ none
        | some dec ↦ immediate_handler dec blob
      ]
