-- ===== src/Emit/Fence.antt =====
-- vmm/translate_fence.c: the blocks of FENCE and FENCE.I.
use zelda_riscv_emulator.Base.{ℕ, ◌==◌, if◌then◌else◌, Option, none, some, List, [], ◌∷◌}
use zelda_riscv_emulator.Host.{
  Callback, Instr, movq_r12, call_saved, addl_r14, end_instruction, trap_to_vmm,
}
use zelda_riscv_emulator.Host.State.{rdi}
use zelda_riscv_emulator.Decode.{instruction_decoding_per_type, type_s}
use zelda_riscv_emulator.Translation.{PrefetchBlob, translate, advance, stop}
use zelda_riscv_emulator.Translation.Cache.{Block, Layout}
use zelda_riscv_emulator.Emit.Block.{Translator}

-- A call with the hart in `rdi`, the step of the pc, and the way out of the translation unit.
abbrev pub call_and_leave : Callback → List Instr
call_and_leave function = movq_r12 rdi ∷ call_saved function ∷ addl_r14 4 ∷ trap_to_vmm ∷ []

-- The parameter is the address of the instruction, which no code reads.
unfoldable pub fence_i_block : ℕ → Block
fence_i_block address = record {
  code = call_and_leave Callback.flush_translation_cache;
  params = address ∷ [];
}

unfoldable pub fence_block : ℕ → Block
fence_block address = record { code = addl_r14 4 ∷ end_instruction ∷ []; params = address ∷ [] }

module _ (layout : Layout) where
  unfoldable pub riscv_fence_i_translator : Translator
  riscv_fence_i_translator dec blob =
      translate layout (fence_i_block blob.next_instruction_to_fetch) stop blob

  unfoldable pub riscv_fence_translator : Translator
  riscv_fence_translator dec blob =
      translate layout (fence_block blob.next_instruction_to_fetch) advance blob

  unfoldable pub riscv_fence_instructions_translation_entry : PrefetchBlob → ℕ → Option PrefetchBlob
  unfolding riscv_fence_i_translator riscv_fence_translator
  riscv_fence_instructions_translation_entry blob instruction =
      elim (instruction_decoding_per_type instruction type_s) [
        | none ↦ none
        | some dec ↦
            if dec.funct3 == 0x0
            then riscv_fence_translator dec blob
            else if dec.funct3 == 0x1
            then riscv_fence_i_translator dec blob
            else none
      ]
