-- ===== src/Emit/Load.antt =====
-- vmm/translate_memory_load.c: the blocks of the LOAD instructions.
pub mod Calls
pub mod Executes
use zelda_riscv_emulator.Base.{ℕ, ◌==◌, if◌then◌else◌, Option, none, some, List, [], ◌∷◌}
use zelda_riscv_emulator.Host.{
  Instr, fetch, proceed, movl_param, addl, movq_r12, call_saved, shll, addq_r15, movl_store, movsbl,
  movzbl, movswl, movzwl, Callback,
}
use zelda_riscv_emulator.Host.State.{rax, rdx, rsi, rdi}
use zelda_riscv_emulator.Decode.{Decoding, instruction_decoding_per_type, type_i}
use zelda_riscv_emulator.Translation.{PrefetchBlob, translate, advance}
use zelda_riscv_emulator.Translation.Cache.{Block, Layout}
use zelda_riscv_emulator.Emit.Block.{Translator}
use zelda_riscv_emulator.Emit.ArithImmediate.{immediate_params}
use zelda_riscv_emulator.Emit.SignExtend.{sign_extend32}

-- What the five blocks share: the address in `esi`, the call with the hart in `rdi`, and the store of
-- what the extension has made of the result in `eax`.
abbrev pub load_code : Callback → List Instr → List Instr
load_code function extension_and_store = fetch 1 rdx rsi (
    movl_param 0 rdx
    ∷ addl rdx rsi
    ∷ movq_r12 rdi
    ∷ call_saved function
    ∷ movl_param 2 rdx
    ∷ shll 2 rdx
    ∷ addq_r15 rdx
    ∷ extension_and_store)

unfoldable pub lb_block : Decoding → Block
unfolding sign_extend32
lb_block dec = record {
  code = load_code Callback.mmu_read8 (movsbl rax rax ∷ movl_store rax rdx ∷ proceed);
  params = immediate_params (sign_extend32 dec.imm 11) dec;
}

unfoldable pub lbu_block : Decoding → Block
unfolding sign_extend32
lbu_block dec = record {
  code = load_code Callback.mmu_read8 (movzbl rax rax ∷ movl_store rax rdx ∷ proceed);
  params = immediate_params (sign_extend32 dec.imm 11) dec;
}

unfoldable pub lh_block : Decoding → Block
unfolding sign_extend32
lh_block dec = record {
  code = load_code Callback.mmu_read16 (movswl rax rax ∷ movl_store rax rdx ∷ proceed);
  params = immediate_params (sign_extend32 dec.imm 11) dec;
}

unfoldable pub lhu_block : Decoding → Block
unfolding sign_extend32
lhu_block dec = record {
  code = load_code Callback.mmu_read16 (movzwl rax rax ∷ movl_store rax rdx ∷ proceed);
  params = immediate_params (sign_extend32 dec.imm 11) dec;
}

unfoldable pub lw_block : Decoding → Block
unfolding sign_extend32
lw_block dec = record {
  code = load_code Callback.mmu_read32 (movl_store rax rdx ∷ proceed);
  params = immediate_params (sign_extend32 dec.imm 11) dec;
}

module _ (layout : Layout) where
  unfoldable pub riscv_lb_translator : Translator
  riscv_lb_translator dec = translate layout (lb_block dec) advance

  unfoldable pub riscv_lbu_translator : Translator
  riscv_lbu_translator dec = translate layout (lbu_block dec) advance

  unfoldable pub riscv_lh_translator : Translator
  riscv_lh_translator dec = translate layout (lh_block dec) advance

  unfoldable pub riscv_lhu_translator : Translator
  riscv_lhu_translator dec = translate layout (lhu_block dec) advance

  unfoldable pub riscv_lw_translator : Translator
  riscv_lw_translator dec = translate layout (lw_block dec) advance

  -- `per_funct3_handlers` of this file.
  unfoldable pub load_handler : Translator
  unfolding riscv_lb_translator riscv_lbu_translator riscv_lh_translator riscv_lhu_translator
      riscv_lw_translator
  load_handler dec blob =
      if dec.funct3 == 0x0
      then riscv_lb_translator dec blob
      else if dec.funct3 == 0x1
      then riscv_lh_translator dec blob
      else if dec.funct3 == 0x2
      then riscv_lw_translator dec blob
      else if dec.funct3 == 0x4
      then riscv_lbu_translator dec blob
      else if dec.funct3 == 0x5
      then riscv_lhu_translator dec blob
      else none

  unfoldable pub riscv_memory_load_instructions_translation_entry :
      PrefetchBlob → ℕ → Option PrefetchBlob
  unfolding load_handler
  riscv_memory_load_instructions_translation_entry blob instruction =
      elim (instruction_decoding_per_type instruction type_i) [
        | none ↦ none
        | some dec ↦ load_handler dec blob
      ]
