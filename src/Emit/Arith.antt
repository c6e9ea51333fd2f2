-- ===== src/Emit/Arith.antt =====
-- vmm/translate_arithmetic.c: the blocks of the OP instructions other than those of the M extension.
pub mod Computes
use zelda_riscv_emulator.Base.{ℕ, ◌==◌, if◌then◌else◌, Option, none, some, List, [], ◌∷◌}
use zelda_riscv_emulator.Host.{
  Instr, fetch, deposit, proceed, addl, subl, andl, orl, xorl, cmpl, setcc, movzbl, andl_imm,
  shll_cl, shrl_cl, sarl_cl, Cond,
}
use zelda_riscv_emulator.Host.State.{rax, rcx, rdx, rsi, rdi}
use zelda_riscv_emulator.Decode.{Decoding}
use zelda_riscv_emulator.Translation.{translate, advance}
use zelda_riscv_emulator.Emit.Block.{three_registers, Translator}
use zelda_riscv_emulator.Translation.Cache.{Block, Layout}

unfoldable pub add_block : Decoding → Block
add_block dec = record {
  code = fetch 0 rdx rsi (fetch 1 rdx rax (addl rsi rax ∷ deposit 2 rdx rax proceed));
  params = three_registers dec;
}

unfoldable pub sub_block : Decoding → Block
sub_block dec = record {
  code = fetch 0 rdx rax (fetch 1 rdx rsi (subl rsi rax ∷ deposit 2 rdx rax proceed));
  params = three_registers dec;
}

unfoldable pub and_block : Decoding → Block
and_block dec = record {
  code = fetch 0 rdx rsi (fetch 1 rdx rax (andl rsi rax ∷ deposit 2 rdx rax proceed));
  params = three_registers dec;
}

unfoldable pub or_block : Decoding → Block
or_block dec = record {
  code = fetch 0 rdx rsi (fetch 1 rdx rax (orl rsi rax ∷ deposit 2 rdx rax proceed));
  params = three_registers dec;
}

unfoldable pub xor_block : Decoding → Block
xor_block dec = record {
  code = fetch 0 rdx rsi (fetch 1 rdx rax (xorl rsi rax ∷ deposit 2 rdx rax proceed));
  params = three_registers dec;
}

unfoldable pub slt_block : Decoding → Block
slt_block dec = record {
  code =
      xorl rcx rcx
      ∷ fetch 0 rdx rsi (
          fetch 1 rdx rdi
            (cmpl rdi rsi ∷ setcc Cond.l rcx ∷ movzbl rcx rcx ∷ deposit 2 rdx rcx proceed));
  params = three_registers dec;
}

unfoldable pub sltu_block : Decoding → Block
sltu_block dec = record {
  code =
      xorl rcx rcx
      ∷ fetch 0 rdx rsi (
          fetch 1 rdx rdi
            (cmpl rdi rsi ∷ setcc Cond.b rcx ∷ movzbl rcx rcx ∷ deposit 2 rdx rcx proceed));
  params = three_registers dec;
}

unfoldable pub sll_block : Decoding → Block
sll_block dec = record {
  code =
      fetch 0 rdx rax
        (fetch 1 rdx rcx (andl_imm 0x1f rcx ∷ shll_cl rax ∷ deposit 2 rdx rax proceed));
  params = three_registers dec;
}

unfoldable pub srl_block : Decoding → Block
srl_block dec = record {
  code =
      fetch 0 rdx rax
        (fetch 1 rdx rcx (andl_imm 0x1f rcx ∷ shrl_cl rax ∷ deposit 2 rdx rax proceed));
  params = three_registers dec;
}

unfoldable pub sra_block : Decoding → Block
sra_block dec = record {
  code =
      fetch 0 rdx rax
        (fetch 1 rdx rcx (andl_imm 0x1f rcx ∷ sarl_cl rax ∷ deposit 2 rdx rax proceed));
  params = three_registers dec;
}

module _ (layout : Layout) where
  unfoldable pub riscv_add_translator : Translator
  riscv_add_translator dec = translate layout (add_block dec) advance

  unfoldable pub riscv_sub_translator : Translator
  riscv_sub_translator dec = translate layout (sub_block dec) advance

  unfoldable pub riscv_and_translator : Translator
  riscv_and_translator dec = translate layout (and_block dec) advance

  unfoldable pub riscv_or_translator : Translator
  riscv_or_translator dec = translate layout (or_block dec) advance

  unfoldable pub riscv_xor_translator : Translator
  riscv_xor_translator dec = translate layout (xor_block dec) advance

  unfoldable pub riscv_slt_translator : Translator
  riscv_slt_translator dec = translate layout (slt_block dec) advance

  unfoldable pub riscv_sltu_translator : Translator
  riscv_sltu_translator dec = translate layout (sltu_block dec) advance

  unfoldable pub riscv_sll_translator : Translator
  riscv_sll_translator dec = translate layout (sll_block dec) advance

  unfoldable pub riscv_srl_translator : Translator
  riscv_srl_translator dec = translate layout (srl_block dec) advance

  unfoldable pub riscv_sra_translator : Translator
  riscv_sra_translator dec = translate layout (sra_block dec) advance

  unfoldable pub riscv_add_sub_translator : Translator
  unfolding riscv_add_translator riscv_sub_translator
  riscv_add_sub_translator dec blob =
      if dec.funct7 == 0x20
      then riscv_sub_translator dec blob
      else if dec.funct7 == 0
      then riscv_add_translator dec blob
      else none

  unfoldable pub riscv_srl_sra_translator : Translator
  unfolding riscv_srl_translator riscv_sra_translator
  riscv_srl_sra_translator dec blob =
      if dec.funct7 == 0x20
      then riscv_sra_translator dec blob
      else if dec.funct7 == 0
      then riscv_srl_translator dec blob
      else none

  -- `per_funct3_handlers` of this file, and the entry that calls through it.
  unfoldable pub riscv_arithmetic_instructions_class0_translation_entry : Translator
  unfolding riscv_add_sub_translator riscv_and_translator riscv_or_translator riscv_xor_translator
      riscv_slt_translator riscv_sltu_translator riscv_sll_translator riscv_srl_sra_translator
  riscv_arithmetic_instructions_class0_translation_entry dec blob =
      if dec.funct3 == 0x0
      then riscv_add_sub_translator dec blob
      else if dec.funct3 == 0x1
      then riscv_sll_translator dec blob
      else if dec.funct3 == 0x2
      then riscv_slt_translator dec blob
      else if dec.funct3 == 0x3
      then riscv_sltu_translator dec blob
      else if dec.funct3 == 0x4
      then riscv_xor_translator dec blob
      else if dec.funct3 == 0x5
      then riscv_srl_sra_translator dec blob
      else if dec.funct3 == 0x6
      then riscv_or_translator dec blob
      else if dec.funct3 == 0x7
      then riscv_and_translator dec blob
      else none
