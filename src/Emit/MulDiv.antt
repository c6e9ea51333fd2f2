-- ===== src/Emit/MulDiv.antt =====
-- vmm/translate_multiplication_and_division.c: the blocks of the M extension.
pub mod Computes
pub mod Divides
pub mod Quotients
use zelda_riscv_emulator.Base.{ℕ, ◌==◌, if◌then◌else◌, Option, none, List, [], ◌∷◌}
use zelda_riscv_emulator.Host.{
  Instr, fetch, deposit, proceed, imull, mull, imulq, idivl, divl, movslq, shrq, xorl, movl_reg,
  cmpl_imm, movl_imm, jcc, jmp, label, Cond,
}
use zelda_riscv_emulator.Host.State.{rax, rbx, rdx, rsi, rdi, r8}
use zelda_riscv_emulator.Decode.{Decoding}
use zelda_riscv_emulator.Translation.{translate, advance}
use zelda_riscv_emulator.Translation.Cache.{Block, Layout}
use zelda_riscv_emulator.Emit.Block.{three_registers, Translator}

-- The division is jumped over with -1 as its quotient if the divisor in `ebx` is zero.
abbrev pub unless_zero : Instr → List Instr → List Instr
unless_zero division rest =
    movl_reg rbx r8
    ∷ cmpl_imm 0x0 r8
    ∷ jcc Cond.ne 1
    ∷ movl_imm 0xffffffff rax
    ∷ jmp 2
    ∷ label 1
    ∷ division
    ∷ label 2
    ∷ rest

unfoldable pub mul_block : Decoding → Block
mul_block dec = record {
  code = fetch 0 rsi rdx (fetch 1 rsi rax (imull rdx ∷ deposit 2 rdi rax proceed));
  params = three_registers dec;
}

unfoldable pub mulh_block : Decoding → Block
mulh_block dec = record {
  code = fetch 0 rsi rdx (fetch 1 rsi rax (imull rdx ∷ deposit 2 rdi rdx proceed));
  params = three_registers dec;
}

unfoldable pub mulhu_block : Decoding → Block
mulhu_block dec = record {
  code = fetch 0 rsi rdx (fetch 1 rsi rax (mull rdx ∷ deposit 2 rdi rdx proceed));
  params = three_registers dec;
}

unfoldable pub mulhsu_block : Decoding → Block
mulhsu_block dec = record {
  code =
      fetch 0 rsi rax
        (movslq rax rax ∷ fetch 1 rsi rdx (imulq rdx ∷ shrq 32 rax ∷ deposit 2 rdi rax proceed));
  params = three_registers dec;
}

unfoldable pub div_block : Decoding → Block
div_block dec = record {
  code = fetch 0 rsi rax (
      movslq rax rdx
      ∷ shrq 32 rdx
      ∷ fetch 1 rsi rbx (unless_zero (idivl rbx) (deposit 2 rdi rax proceed)));
  params = three_registers dec;
}

unfoldable pub rem_block : Decoding → Block
rem_block dec = record {
  code =
      fetch 0 rsi rax
        (movslq rax rdx ∷ shrq 32 rdx ∷ fetch 1 rsi rbx (idivl rbx ∷ deposit 2 rdi rdx proceed));
  params = three_registers dec;
}

unfoldable pub divu_block : Decoding → Block
divu_block dec = record {
  code =
      fetch 0 rsi rax
        (xorl rdx rdx ∷ fetch 1 rsi rbx (unless_zero (divl rbx) (deposit 2 rdi rax proceed)));
  params = three_registers dec;
}

unfoldable pub remu_block : Decoding → Block
remu_block dec = record {
  code = fetch 0 rsi rax (xorl rdx rdx ∷ fetch 1 rsi rbx (divl rbx ∷ deposit 2 rdi rdx proceed));
  params = three_registers dec;
}

module _ (layout : Layout) where
  unfoldable pub riscv_mul_translator : Translator
  riscv_mul_translator dec = translate layout (mul_block dec) advance

  unfoldable pub riscv_mulh_translator : Translator
  riscv_mulh_translator dec = translate layout (mulh_block dec) advance

  unfoldable pub riscv_mulhu_translator : Translator
  riscv_mulhu_translator dec = translate layout (mulhu_block dec) advance

  unfoldable pub riscv_mulhsu_translator : Translator
  riscv_mulhsu_translator dec = translate layout (mulhsu_block dec) advance

  unfoldable pub riscv_div_translator : Translator
  riscv_div_translator dec = translate layout (div_block dec) advance

  unfoldable pub riscv_rem_translator : Translator
  riscv_rem_translator dec = translate layout (rem_block dec) advance

  unfoldable pub riscv_divu_translator : Translator
  riscv_divu_translator dec = translate layout (divu_block dec) advance

  unfoldable pub riscv_remu_translator : Translator
  riscv_remu_translator dec = translate layout (remu_block dec) advance

  -- `per_funct3_handlers` of this file, and the entry that calls through it.
  unfoldable pub riscv_mul_div_instructions_translation_entry : Translator
  unfolding riscv_mul_translator riscv_mulh_translator riscv_mulhu_translator
      riscv_mulhsu_translator riscv_div_translator riscv_rem_translator riscv_divu_translator
      riscv_remu_translator
  riscv_mul_div_instructions_translation_entry dec blob =
      if dec.funct3 == 0x0
      then riscv_mul_translator dec blob
      else if dec.funct3 == 0x1
      then riscv_mulh_translator dec blob
      else if dec.funct3 == 0x2
      then riscv_mulhsu_translator dec blob
      else if dec.funct3 == 0x3
      then riscv_mulhu_translator dec blob
      else if dec.funct3 == 0x4
      then riscv_div_translator dec blob
      else if dec.funct3 == 0x5
      then riscv_divu_translator dec blob
      else if dec.funct3 == 0x6
      then riscv_rem_translator dec blob
      else if dec.funct3 == 0x7
      then riscv_remu_translator dec blob
      else none
