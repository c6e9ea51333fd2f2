-- ===== src/Emit/Store.antt =====
-- vmm/translate_memory_store.c: the blocks of the STORE instructions.
pub mod Writes
pub mod Executes
use zelda_riscv_emulator.Base.{ℕ, ◌==◌, if◌then◌else◌, Option, none, some, List, [], ◌∷◌}
use zelda_riscv_emulator.Host.{
  Instr, fetch, movl_param, addl, movq_r12, call_saved, andl_imm, addl_r14, end_instruction,
  Callback,
}
use zelda_riscv_emulator.Host.State.{rdx, rsi, rdi}
use zelda_riscv_emulator.Decode.{Decoding, instruction_decoding_per_type, type_s}
use zelda_riscv_emulator.Translation.{PrefetchBlob, translate, advance}
use zelda_riscv_emulator.Translation.Cache.{Block, Layout}
use zelda_riscv_emulator.Emit.Block.{Translator}
use zelda_riscv_emulator.Emit.SignExtend.{sign_extend32}

-- The parameters: the offset, and the indices of rs1 and rs2.
abbrev pub store_params : ℕ → Decoding → List ℕ
store_params offset dec = offset ∷ dec.rs1_index ∷ dec.rs2_index ∷ []

-- What the three blocks share: the address in `esi`, the value of rs2 in `edx`, and what follows.
abbrev pub store_code : List Instr → List Instr
store_code mask_and_call =
    fetch 1 rdx rsi (movl_param 0 rdx ∷ addl rdx rsi ∷ fetch 2 rdx rdx mask_and_call)

-- The call with the hart in `rdi`, PROCEED_TO_NEXT_INSTRUCTION and END_INSTRUCTION.
abbrev pub call_and_proceed : Callback → List Instr
call_and_proceed function = movq_r12 rdi ∷ call_saved function ∷ addl_r14 4 ∷ end_instruction ∷ []

unfoldable pub sb_block : Decoding → Block
unfolding sign_extend32
sb_block dec = record {
  code = store_code (andl_imm 0xff rdx ∷ call_and_proceed Callback.mmu_write8);
  params = store_params (sign_extend32 dec.imm 11) dec;
}

unfoldable pub sh_block : Decoding → Block
unfolding sign_extend32
sh_block dec = record {
  code = store_code (andl_imm 0xffff rdx ∷ call_and_proceed Callback.mmu_write16);
  params = store_params (sign_extend32 dec.imm 11) dec;
}

unfoldable pub sw_block : Decoding → Block
unfolding sign_extend32
sw_block dec = record {
  code = store_code (call_and_proceed Callback.mmu_write32);
  params = store_params (sign_extend32 dec.imm 11) dec;
}

module _ (layout : Layout) where
  unfoldable pub riscv_sb_translator : Translator
  riscv_sb_translator dec = translate layout (sb_block dec) advance

  unfoldable pub riscv_sh_translator : Translator
  riscv_sh_translator dec = translate layout (sh_block dec) advance

  unfoldable pub riscv_sw_translator : Translator
  riscv_sw_translator dec = translate layout (sw_block dec) advance

  -- `per_funct3_handlers` of this file.
  unfoldable pub store_handler : Translator
  unfolding riscv_sb_translator riscv_sh_translator riscv_sw_translator
  store_handler dec blob =
      if dec.funct3 == 0x0
      then riscv_sb_translator dec blob
      else if dec.funct3 == 0x1
      then riscv_sh_translator dec blob
      else if dec.funct3 == 0x2
      then riscv_sw_translator dec blob
      else none

  unfoldable pub riscv_memory_store_instructions_translation_entry :
      PrefetchBlob → ℕ → Option PrefetchBlob
  unfolding store_handler
  riscv_memory_store_instructions_translation_entry blob instruction =
      elim (instruction_decoding_per_type instruction type_s) [
        | none ↦ none
        | some dec ↦ store_handler dec blob
      ]
