-- ===== src/Emit/Privileged.antt =====
-- vmm/translate_privileged_instr.c and vmm/csr_representation.c: the blocks of the SYSTEM instructions.
pub mod Executes
use zelda_riscv_emulator.Base.{
  ℕ, ◌/◌, ◌^◌, ◌==◌, if◌then◌else◌, Option, none, some, List, [], ◌∷◌, bit_and,
}
use zelda_riscv_emulator.Host.{
  Callback, Instr, movq_r12, movl_param, call_saved, movl_zero_r15, addl_r14, end_instruction,
  trap_to_vmm,
}
use zelda_riscv_emulator.Host.State.{rsi, rdi}
use zelda_riscv_emulator.Decode.{
  Decoding, EncodingType, instruction_decoding_per_type, type_i, type_s,
}
use zelda_riscv_emulator.Translation.{PrefetchBlob, translate, advance, stop}
use zelda_riscv_emulator.Translation.Cache.{Block, Layout}
use zelda_riscv_emulator.Emit.Block.{Translator}
use zelda_riscv_emulator.Emit.Fence.{call_and_leave}

-- A call that sets the pc itself.
abbrev pub call_and_return : Callback → List Instr
call_and_return function = movq_r12 rdi ∷ call_saved function ∷ trap_to_vmm ∷ []

-- The parameter of these six is the address of the instruction, which no code reads.
unfoldable pub ebreak_block : ℕ → Block
ebreak_block address = record {
  code = movq_r12 rdi ∷ call_saved Callback.ebreak_callback ∷ addl_r14 4 ∷ end_instruction ∷ [];
  params = address ∷ [];
}

unfoldable pub mret_block : ℕ → Block
mret_block address = record { code = call_and_return Callback.mret_callback; params = address ∷ [] }

unfoldable pub sret_block : ℕ → Block
sret_block address = record { code = call_and_return Callback.sret_callback; params = address ∷ [] }

unfoldable pub sfence_vma_block : ℕ → Block
sfence_vma_block address = record {
  code = call_and_leave Callback.sfence_vma_callback;
  params = address ∷ [];
}

unfoldable pub ecall_block : ℕ → Block
ecall_block address = record {
  code = call_and_leave Callback.ecall_callback;
  params = address ∷ [];
}

unfoldable pub wfi_block : ℕ → Block
wfi_block address = record { code = call_and_leave Callback.wfi_callback; params = address ∷ [] }

-- The parameter is the instruction itself.
unfoldable pub csr_block : ℕ → Block
csr_block instruction = record {
  code =
      movq_r12 rdi
      ∷ movl_param 0 rsi
      ∷ call_saved Callback.riscv_generic_csr_callback
      ∷ movl_zero_r15
      ∷ addl_r14 4
      ∷ trap_to_vmm
      ∷ [];
  params = instruction ∷ [];
}

module _ (layout : Layout) where
  unfoldable pub riscv_ebreak_translator : Translator
  riscv_ebreak_translator dec blob =
      translate layout (ebreak_block blob.next_instruction_to_fetch) advance blob

  unfoldable pub riscv_mret_translator : Translator
  riscv_mret_translator dec blob =
      translate layout (mret_block blob.next_instruction_to_fetch) stop blob

  unfoldable pub riscv_sret_translator : Translator
  riscv_sret_translator dec blob =
      translate layout (sret_block blob.next_instruction_to_fetch) stop blob

  unfoldable pub riscv_sfence_vma_translator : Translator
  riscv_sfence_vma_translator dec blob =
      translate layout (sfence_vma_block blob.next_instruction_to_fetch) stop blob

  unfoldable pub riscv_ecall_translator : Translator
  riscv_ecall_translator dec blob =
      translate layout (ecall_block blob.next_instruction_to_fetch) stop blob

  unfoldable pub riscv_wfi_translator : Translator
  riscv_wfi_translator dec blob =
      if dec.imm / 2 ^ 5 == 0x8
      then translate layout (wfi_block blob.next_instruction_to_fetch) stop blob
      else none

  unfoldable pub riscv_generic_csr_instructions_translator : ℕ → PrefetchBlob → Option PrefetchBlob
  riscv_generic_csr_instructions_translator instruction =
      translate layout (csr_block instruction) stop

  unfoldable pub riscv_funct3_000_translator : Translator
  unfolding riscv_ebreak_translator riscv_mret_translator riscv_sret_translator
      riscv_sfence_vma_translator riscv_ecall_translator riscv_wfi_translator
  riscv_funct3_000_translator dec blob =
      if bit_and (dec.imm / 2 ^ 5) 0x7f == 0x9
      then riscv_sfence_vma_translator dec blob
      else if dec.rs2_index == 0x5
      then riscv_wfi_translator dec blob
      else if dec.rs2_index == 0x1
      then riscv_ebreak_translator dec blob
      else if dec.rs2_index == 0x2
      then if dec.imm / 2 ^ 5 == 0x18
        then riscv_mret_translator dec blob
        else if dec.imm / 2 ^ 5 == 0x8
        then riscv_sret_translator dec blob
        else none
      else if dec.rs2_index == 0x0
      then riscv_ecall_translator dec blob
      else none

  -- `per_funct3_handlers` of this file, which has no handler at 4.
  unfoldable pub privileged_handler : Decoding → PrefetchBlob → ℕ → Option PrefetchBlob
  unfolding riscv_funct3_000_translator riscv_generic_csr_instructions_translator
  privileged_handler dec blob instruction =
      if dec.funct3 == 0x0
      then riscv_funct3_000_translator dec blob
      else if dec.funct3 == 0x4
      then none
      else riscv_generic_csr_instructions_translator instruction blob

  -- Only funct3 000 is decoded as type S.
  unfoldable pub riscv_supervisor_level_instructions_translation_entry :
      PrefetchBlob → ℕ → Option PrefetchBlob
  unfolding privileged_handler
  riscv_supervisor_level_instructions_translation_entry blob instruction =
      let encoding : EncodingType =
        if bit_and (instruction / 2 ^ 12) 0x7 == 0 then type_s else type_i in
      elim (instruction_decoding_per_type instruction encoding) [
        | none ↦ none
        | some dec ↦ privileged_handler dec blob instruction
      ]
