-- ===== src/Emit/Branch.antt =====
-- vmm/translate_branch.c: the blocks of the BRANCH instructions.
pub mod Executes
use zelda_riscv_emulator.Base.{
  ℕ, ◌+◌, ◌*◌, ◌==◌, if◌then◌else◌, Option, none, some, List, [], ◌∷◌, u32,
}
use zelda_riscv_emulator.Host.{
  Instr, fetch, movl_load_r14, addl_imm, cmpl, jcc, movl_param, label, movl_store_r14, trap_to_vmm,
  Cond,
}
use zelda_riscv_emulator.Host.State.{rdx, rsi, rdi}
use zelda_riscv_emulator.Decode.{Decoding, instruction_decoding_per_type, type_b}
use zelda_riscv_emulator.Translation.{PrefetchBlob, translate, stop}
use zelda_riscv_emulator.Translation.Cache.{Block, Layout}
use zelda_riscv_emulator.Emit.Block.{Translator}
use zelda_riscv_emulator.Emit.SignExtend.{sign_extend32}

-- `branch_taken_target`.
unfoldable pub branch_taken_target : ℕ → Decoding → ℕ
unfolding sign_extend32
branch_taken_target address dec = u32 (address + sign_extend32 (u32 (dec.imm * 2)) 12)

-- What the six blocks share: two operands, a compare instruction, and the jump over the load of the
-- target. `edx` keeps the address to go on at.
abbrev pub branch_code : Instr → Cond → List Instr
branch_code compares unless = fetch 0 rdx rsi (
    fetch 1 rdx rdi (
      movl_load_r14 rdx
      ∷ addl_imm 0x4 rdx
      ∷ compares
      ∷ jcc unless 1
      ∷ movl_param 2 rdx
      ∷ label 1
      ∷ movl_store_r14 rdx
      ∷ trap_to_vmm
      ∷ []))

abbrev pub branch_params : ℕ → Decoding → List ℕ
branch_params address dec = dec.rs1_index ∷ dec.rs2_index ∷ branch_taken_target address dec ∷ []

unfoldable pub beq_block : ℕ → Decoding → Block
beq_block address dec = record {
  code = branch_code (cmpl rsi rdi) Cond.ne;
  params = branch_params address dec;
}

unfoldable pub bne_block : ℕ → Decoding → Block
bne_block address dec = record {
  code = branch_code (cmpl rsi rdi) Cond.e;
  params = branch_params address dec;
}

unfoldable pub blt_block : ℕ → Decoding → Block
blt_block address dec = record {
  code = branch_code (cmpl rdi rsi) Cond.ge;
  params = branch_params address dec;
}

unfoldable pub bltu_block : ℕ → Decoding → Block
bltu_block address dec = record {
  code = branch_code (cmpl rdi rsi) Cond.ae;
  params = branch_params address dec;
}

unfoldable pub bge_block : ℕ → Decoding → Block
bge_block address dec = record {
  code = branch_code (cmpl rdi rsi) Cond.l;
  params = branch_params address dec;
}

unfoldable pub bgeu_block : ℕ → Decoding → Block
bgeu_block address dec = record {
  code = branch_code (cmpl rdi rsi) Cond.b;
  params = branch_params address dec;
}

module _ (layout : Layout) where
  unfoldable pub riscv_beq_translator : Translator
  riscv_beq_translator dec blob =
      translate layout (beq_block blob.next_instruction_to_fetch dec) stop blob

  unfoldable pub riscv_bne_translator : Translator
  riscv_bne_translator dec blob =
      translate layout (bne_block blob.next_instruction_to_fetch dec) stop blob

  unfoldable pub riscv_blt_translator : Translator
  riscv_blt_translator dec blob =
      translate layout (blt_block blob.next_instruction_to_fetch dec) stop blob

  unfoldable pub riscv_bltu_translator : Translator
  riscv_bltu_translator dec blob =
      translate layout (bltu_block blob.next_instruction_to_fetch dec) stop blob

  unfoldable pub riscv_bge_translator : Translator
  riscv_bge_translator dec blob =
      translate layout (bge_block blob.next_instruction_to_fetch dec) stop blob

  unfoldable pub riscv_bgeu_translator : Translator
  riscv_bgeu_translator dec blob =
      translate layout (bgeu_block blob.next_instruction_to_fetch dec) stop blob

  -- `per_funct3_handlers` of this file.
  unfoldable pub branch_handler : Translator
  unfolding riscv_beq_translator riscv_bne_translator riscv_blt_translator riscv_bltu_translator
      riscv_bge_translator riscv_bgeu_translator
  branch_handler dec blob =
      if dec.funct3 == 0x0
      then riscv_beq_translator dec blob
      else if dec.funct3 == 0x1
      then riscv_bne_translator dec blob
      else if dec.funct3 == 0x4
      then riscv_blt_translator dec blob
      else if dec.funct3 == 0x5
      then riscv_bge_translator dec blob
      else if dec.funct3 == 0x6
      then riscv_bltu_translator dec blob
      else if dec.funct3 == 0x7
      then riscv_bgeu_translator dec blob
      else none

  unfoldable pub riscv_branch_instructions_translation_entry :
      PrefetchBlob → ℕ → Option PrefetchBlob
  unfolding branch_handler
  riscv_branch_instructions_translation_entry blob instruction =
      elim (instruction_decoding_per_type instruction type_b) [
        | none ↦ none
        | some dec ↦ branch_handler dec blob
      ]
