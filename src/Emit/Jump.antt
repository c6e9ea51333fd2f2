-- ===== src/Emit/Jump.antt =====
-- vmm/translate_unconditional_jump_intrs.c: the blocks of JAL and JALR.
pub mod Executes
use zelda_riscv_emulator.Base.{ℕ, ◌+◌, ◌*◌, Option, none, some, List, [], ◌∷◌, u32}
use zelda_riscv_emulator.Host.{
  fetch, movl_param, shll, addq_r15, addl, btr, movl_store, movl_store_r14, movl_zero_r15,
  trap_to_vmm,
}
use zelda_riscv_emulator.Host.State.{rax, rbx, rdx}
use zelda_riscv_emulator.Decode.{Decoding, instruction_decoding_per_type, type_uj, type_i}
use zelda_riscv_emulator.Translation.{PrefetchBlob, translate, stop}
use zelda_riscv_emulator.Translation.Cache.{Block, Layout}
use zelda_riscv_emulator.Emit.SignExtend.{sign_extend32}

-- The parameters: the index of rd, the address of the next instruction, and `jump_target`.
unfoldable pub jal_block : ℕ → Decoding → Block
unfolding sign_extend32
jal_block address dec = record {
  code =
      movl_param 0 rdx
      ∷ shll 2 rdx
      ∷ addq_r15 rdx
      ∷ movl_param 1 rax
      ∷ movl_store rax rdx
      ∷ movl_param 2 rax
      ∷ movl_store_r14 rax
      ∷ movl_zero_r15
      ∷ trap_to_vmm
      ∷ [];
  params =
      dec.rd_index ∷ u32 (address + 4) ∷ u32 (address + sign_extend32 (u32 (dec.imm * 2)) 20) ∷ [];
}

-- The parameters: the index of rd, the address of the next instruction, the index of rs1, the offset.
unfoldable pub jalr_block : ℕ → Decoding → Block
unfolding sign_extend32
jalr_block address dec = record {
  code = fetch 2 rdx rbx (
      movl_param 3 rax
      ∷ addl rax rbx
      ∷ btr 0 rbx
      ∷ movl_param 0 rdx
      ∷ shll 2 rdx
      ∷ addq_r15 rdx
      ∷ movl_param 1 rax
      ∷ movl_store rax rdx
      ∷ movl_store_r14 rbx
      ∷ movl_zero_r15
      ∷ trap_to_vmm
      ∷ []);
  params = dec.rd_index ∷ u32 (address + 4) ∷ dec.rs1_index ∷ sign_extend32 dec.imm 11 ∷ [];
}

module _ (layout : Layout) where
  unfoldable pub riscv_jal_translator : PrefetchBlob → ℕ → Option PrefetchBlob
  riscv_jal_translator blob instruction = elim (instruction_decoding_per_type instruction type_uj) [
    | none ↦ none
    | some dec ↦ translate layout (jal_block blob.next_instruction_to_fetch dec) stop blob
  ]

  unfoldable pub riscv_jalr_translator : PrefetchBlob → ℕ → Option PrefetchBlob
  riscv_jalr_translator blob instruction = elim (instruction_decoding_per_type instruction type_i) [
    | none ↦ none
    | some dec ↦ translate layout (jalr_block blob.next_instruction_to_fetch dec) stop blob
  ]
