-- ===== src/Emit/Prefetch/OneBlock.antt =====
-- Every translator writes one block, or stops the emulator.
use zelda_riscv_emulator.Base.{
  ℕ, ◌≡◌, ◌⊎◌, inl, inr, Bool, true, false, if◌then◌else◌, Option, none, some, refl, bit_and, ◌==◌,
  ◌/◌, ◌^◌,
}
use zelda_riscv_emulator.Decode.{
  Decoding, instruction_decoding_per_type, type_i, type_s, type_b, type_r,
}
use zelda_riscv_emulator.Translation.{PrefetchBlob, Follow, translate}
use zelda_riscv_emulator.Translation.Cache.{Block, Layout}
use zelda_riscv_emulator.Emit.Translators.{
  RiscvOpcode, op_lui, op_auipc, op_jal, op_jarl, op_branch, op_load, op_store, op_op_imm, op_op,
  op_fence, op_supervisor_level, op_amo, translators, opcode_of, prefetch_one_instruction,
}
use zelda_riscv_emulator.Emit.Upper.{riscv_lui_translator, riscv_auipc_translator}
use zelda_riscv_emulator.Emit.Jump.{riscv_jal_translator, riscv_jalr_translator}
use zelda_riscv_emulator.Emit.Arith.{
  riscv_add_translator, riscv_sub_translator, riscv_and_translator, riscv_or_translator,
  riscv_xor_translator, riscv_slt_translator, riscv_sltu_translator, riscv_sll_translator,
  riscv_srl_translator, riscv_sra_translator, riscv_add_sub_translator, riscv_srl_sra_translator,
  riscv_arithmetic_instructions_class0_translation_entry,
}
use zelda_riscv_emulator.Emit.ArithImmediate.{
  riscv_addi_translator, riscv_stli_translator, riscv_stliu_translator, riscv_xori_translator,
  riscv_ori_translator, riscv_andi_translator, riscv_slli_translator, riscv_right_shift_translator,
  immediate_handler, riscv_arithmetic_immediate_instructions_translation_entry,
}
use zelda_riscv_emulator.Emit.MulDiv.{
  riscv_mul_translator, riscv_mulh_translator, riscv_mulhu_translator, riscv_mulhsu_translator,
  riscv_div_translator, riscv_rem_translator, riscv_divu_translator, riscv_remu_translator,
  riscv_mul_div_instructions_translation_entry,
}
use zelda_riscv_emulator.Emit.Op.{op_class, riscv_arithmetic_instructions_translation_entry}
use zelda_riscv_emulator.Emit.Branch.{
  riscv_beq_translator, riscv_bne_translator, riscv_blt_translator, riscv_bltu_translator,
  riscv_bge_translator, riscv_bgeu_translator, branch_handler,
  riscv_branch_instructions_translation_entry,
}
use zelda_riscv_emulator.Emit.Load.{
  riscv_lb_translator, riscv_lbu_translator, riscv_lh_translator, riscv_lhu_translator,
  riscv_lw_translator, load_handler, riscv_memory_load_instructions_translation_entry,
}
use zelda_riscv_emulator.Emit.Store.{
  riscv_sb_translator, riscv_sh_translator, riscv_sw_translator, store_handler,
  riscv_memory_store_instructions_translation_entry,
}
use zelda_riscv_emulator.Emit.Fence.{
  riscv_fence_i_translator, riscv_fence_translator, riscv_fence_instructions_translation_entry,
}
use zelda_riscv_emulator.Emit.Amo.{
  is_amo, riscv_amo_translator, riscv_amo_instructions_translation_entry,
}
use zelda_riscv_emulator.Emit.Privileged.{
  riscv_ebreak_translator, riscv_mret_translator, riscv_sret_translator,
  riscv_sfence_vma_translator, riscv_ecall_translator, riscv_wfi_translator,
  riscv_generic_csr_instructions_translator, riscv_funct3_000_translator, privileged_handler,
  riscv_supervisor_level_instructions_translation_entry,
}

-- The result of a translator is that of the body that all of them share, for some block.
unfoldable pub WritesBlock : Layout → PrefetchBlob → Option PrefetchBlob → Type 0
WritesBlock layout blob result =
    (result ≡ none)
    ⊎ ((block : Block) × (then_do : Follow) × (result ≡ translate layout block then_do blob))

module _ (layout : Layout) (blob : PrefetchBlob) where
  refuses : WritesBlock layout blob none
  unfolding WritesBlock
  refuses = inl refl

  writes :
      (block : Block) (then_do : Follow)
      → WritesBlock layout blob (translate layout block then_do blob)
  unfolding WritesBlock
  writes block then_do = inr (block, then_do, refl)

  chooses :
      (b : Bool) (x y : Option PrefetchBlob)
      → WritesBlock layout blob x
      → WritesBlock layout blob y
      → WritesBlock layout blob (if b then x else y)
  chooses true x y h k = h
  chooses false x y h k = k

  decodes :
      (o : Option Decoding) (f : Decoding → Option PrefetchBlob)
      → ((dec : Decoding) → WritesBlock layout blob (f dec))
      → WritesBlock layout blob (elim o [ none ↦ none | some dec ↦ f dec ])
  decodes none f h = refuses
  decodes (some dec) f h = h dec

  ruleset block_rules = (chooses, writes, refuses)

  riscv_lui_translator-WritesBlock :
      (instruction : ℕ) → WritesBlock layout blob (riscv_lui_translator layout blob instruction)
  unfolding riscv_lui_translator
  riscv_lui_translator-WritesBlock instruction = decodes _ _ (λ dec. writes _ _)

  riscv_auipc_translator-WritesBlock :
      (instruction : ℕ) → WritesBlock layout blob (riscv_auipc_translator layout blob instruction)
  unfolding riscv_auipc_translator
  riscv_auipc_translator-WritesBlock instruction = decodes _ _ (λ dec. writes _ _)

  riscv_jal_translator-WritesBlock :
      (instruction : ℕ) → WritesBlock layout blob (riscv_jal_translator layout blob instruction)
  unfolding riscv_jal_translator
  riscv_jal_translator-WritesBlock instruction = decodes _ _ (λ dec. writes _ _)

  riscv_jalr_translator-WritesBlock :
      (instruction : ℕ) → WritesBlock layout blob (riscv_jalr_translator layout blob instruction)
  unfolding riscv_jalr_translator
  riscv_jalr_translator-WritesBlock instruction = decodes _ _ (λ dec. writes _ _)

  riscv_arithmetic_instructions_class0_translation_entry-WritesBlock :
      (dec : Decoding)
      → WritesBlock layout blob
          (riscv_arithmetic_instructions_class0_translation_entry layout dec blob)
  unfolding riscv_add_translator riscv_sub_translator riscv_and_translator riscv_or_translator
      riscv_xor_translator riscv_slt_translator riscv_sltu_translator riscv_sll_translator
      riscv_srl_translator riscv_sra_translator riscv_add_sub_translator riscv_srl_sra_translator
      riscv_arithmetic_instructions_class0_translation_entry
  riscv_arithmetic_instructions_class0_translation_entry-WritesBlock dec =
      search (block_rules) depth 40

  riscv_mul_div_instructions_translation_entry-WritesBlock :
      (dec : Decoding)
      → WritesBlock layout blob (riscv_mul_div_instructions_translation_entry layout dec blob)
  unfolding riscv_mul_translator riscv_mulh_translator riscv_mulhu_translator
      riscv_mulhsu_translator riscv_div_translator riscv_rem_translator riscv_divu_translator
      riscv_remu_translator riscv_mul_div_instructions_translation_entry
  riscv_mul_div_instructions_translation_entry-WritesBlock dec = search (block_rules) depth 40

  op_class-WritesBlock : (dec : Decoding) → WritesBlock layout blob (op_class layout dec blob)
  unfolding op_class
  op_class-WritesBlock dec = search (
    block_rules, riscv_arithmetic_instructions_class0_translation_entry-WritesBlock,
    riscv_mul_div_instructions_translation_entry-WritesBlock,
  )

  riscv_arithmetic_instructions_translation_entry-WritesBlock :
      (instruction : ℕ)
      → WritesBlock layout blob
          (riscv_arithmetic_instructions_translation_entry layout blob instruction)
  unfolding riscv_arithmetic_instructions_translation_entry
  riscv_arithmetic_instructions_translation_entry-WritesBlock instruction =
      decodes (instruction_decoding_per_type instruction type_r) (λ dec. op_class layout dec blob)
        op_class-WritesBlock

  immediate_handler-WritesBlock :
      (dec : Decoding) → WritesBlock layout blob (immediate_handler layout dec blob)
  unfolding riscv_addi_translator riscv_stli_translator riscv_stliu_translator riscv_xori_translator
      riscv_ori_translator riscv_andi_translator riscv_slli_translator riscv_right_shift_translator
      immediate_handler riscv_arithmetic_immediate_instructions_translation_entry
  immediate_handler-WritesBlock dec = search (block_rules) depth 40

  riscv_arithmetic_immediate_instructions_translation_entry-WritesBlock :
      (instruction : ℕ)
      → WritesBlock layout blob
          (riscv_arithmetic_immediate_instructions_translation_entry layout blob instruction)
  unfolding riscv_arithmetic_immediate_instructions_translation_entry
  riscv_arithmetic_immediate_instructions_translation_entry-WritesBlock instruction =
      decodes (instruction_decoding_per_type instruction type_i)
        (λ dec. immediate_handler layout dec blob) immediate_handler-WritesBlock

  branch_handler-WritesBlock :
      (dec : Decoding) → WritesBlock layout blob (branch_handler layout dec blob)
  unfolding riscv_beq_translator riscv_bne_translator riscv_blt_translator riscv_bltu_translator
      riscv_bge_translator riscv_bgeu_translator branch_handler
      riscv_branch_instructions_translation_entry
  branch_handler-WritesBlock dec = search (block_rules) depth 40

  riscv_branch_instructions_translation_entry-WritesBlock :
      (instruction : ℕ)
      → WritesBlock layout blob
          (riscv_branch_instructions_translation_entry layout blob instruction)
  unfolding riscv_branch_instructions_translation_entry
  riscv_branch_instructions_translation_entry-WritesBlock instruction =
      decodes (instruction_decoding_per_type instruction type_b)
        (λ dec. branch_handler layout dec blob) branch_handler-WritesBlock

  load_handler-WritesBlock :
      (dec : Decoding) → WritesBlock layout blob (load_handler layout dec blob)
  unfolding riscv_lb_translator riscv_lbu_translator riscv_lh_translator riscv_lhu_translator
      riscv_lw_translator load_handler riscv_memory_load_instructions_translation_entry
  load_handler-WritesBlock dec = search (block_rules) depth 40

  riscv_memory_load_instructions_translation_entry-WritesBlock :
      (instruction : ℕ)
      → WritesBlock layout blob
          (riscv_memory_load_instructions_translation_entry layout blob instruction)
  unfolding riscv_memory_load_instructions_translation_entry
  riscv_memory_load_instructions_translation_entry-WritesBlock instruction =
      decodes (instruction_decoding_per_type instruction type_i)
        (λ dec. load_handler layout dec blob) load_handler-WritesBlock

  store_handler-WritesBlock :
      (dec : Decoding) → WritesBlock layout blob (store_handler layout dec blob)
  unfolding riscv_sb_translator riscv_sh_translator riscv_sw_translator store_handler
      riscv_memory_store_instructions_translation_entry
  store_handler-WritesBlock dec = search (block_rules) depth 40

  riscv_memory_store_instructions_translation_entry-WritesBlock :
      (instruction : ℕ)
      → WritesBlock layout blob
          (riscv_memory_store_instructions_translation_entry layout blob instruction)
  unfolding riscv_memory_store_instructions_translation_entry
  riscv_memory_store_instructions_translation_entry-WritesBlock instruction =
      decodes (instruction_decoding_per_type instruction type_s)
        (λ dec. store_handler layout dec blob) store_handler-WritesBlock

  riscv_fence_instructions_translation_entry-WritesBlock :
      (instruction : ℕ)
      → WritesBlock layout blob (riscv_fence_instructions_translation_entry layout blob instruction)
  unfolding riscv_fence_i_translator riscv_fence_translator
      riscv_fence_instructions_translation_entry
  riscv_fence_instructions_translation_entry-WritesBlock instruction =
      decodes (instruction_decoding_per_type instruction type_s)
        (λ dec.
          if dec.funct3 == 0x0
          then riscv_fence_translator layout dec blob
          else if dec.funct3 == 0x1
          then riscv_fence_i_translator layout dec blob
          else none)
        (λ dec. search (block_rules) depth 40)

  riscv_amo_instructions_translation_entry-WritesBlock :
      (instruction : ℕ)
      → WritesBlock layout blob (riscv_amo_instructions_translation_entry layout blob instruction)
  unfolding is_amo riscv_amo_translator riscv_amo_instructions_translation_entry
  riscv_amo_instructions_translation_entry-WritesBlock instruction =
      decodes (instruction_decoding_per_type instruction type_r)
        (λ dec. if is_amo (dec.funct7 / 2 ^ 2) then riscv_amo_translator layout dec blob else none)
        (λ dec. search (block_rules) depth 40)

  privileged_handler-WritesBlock :
      (dec : Decoding) (instruction : ℕ)
      → WritesBlock layout blob (privileged_handler layout dec blob instruction)
  unfolding riscv_ebreak_translator riscv_mret_translator riscv_sret_translator
      riscv_sfence_vma_translator riscv_ecall_translator riscv_wfi_translator
      riscv_generic_csr_instructions_translator riscv_funct3_000_translator privileged_handler
  privileged_handler-WritesBlock dec instruction = search (block_rules) depth 40

  riscv_supervisor_level_instructions_translation_entry-WritesBlock :
      (instruction : ℕ)
      → WritesBlock layout blob
          (riscv_supervisor_level_instructions_translation_entry layout blob instruction)
  unfolding riscv_supervisor_level_instructions_translation_entry
  riscv_supervisor_level_instructions_translation_entry-WritesBlock instruction =
      decodes
        (instruction_decoding_per_type instruction
          (if bit_and (instruction / 2 ^ 12) 0x7 == 0 then type_s else type_i))
        (λ dec. privileged_handler layout dec blob instruction)
        (λ dec. privileged_handler-WritesBlock dec instruction)

  translators-WritesBlock :
      (opcode : RiscvOpcode) (instruction : ℕ)
      → WritesBlock layout blob (translators layout opcode blob instruction)
  unfolding translators
  translators-WritesBlock op_lui instruction = riscv_lui_translator-WritesBlock instruction
  translators-WritesBlock op_auipc instruction = riscv_auipc_translator-WritesBlock instruction
  translators-WritesBlock op_jal instruction = riscv_jal_translator-WritesBlock instruction
  translators-WritesBlock op_jarl instruction = riscv_jalr_translator-WritesBlock instruction
  translators-WritesBlock op_branch instruction =
      riscv_branch_instructions_translation_entry-WritesBlock instruction
  translators-WritesBlock op_load instruction =
      riscv_memory_load_instructions_translation_entry-WritesBlock instruction
  translators-WritesBlock op_store instruction =
      riscv_memory_store_instructions_translation_entry-WritesBlock instruction
  translators-WritesBlock op_op_imm instruction =
      riscv_arithmetic_immediate_instructions_translation_entry-WritesBlock instruction
  translators-WritesBlock op_op instruction =
      riscv_arithmetic_instructions_translation_entry-WritesBlock instruction
  translators-WritesBlock op_fence instruction =
      riscv_fence_instructions_translation_entry-WritesBlock instruction
  translators-WritesBlock op_supervisor_level instruction =
      riscv_supervisor_level_instructions_translation_entry-WritesBlock instruction
  translators-WritesBlock op_amo instruction =
      riscv_amo_instructions_translation_entry-WritesBlock instruction

  fetched :
      (fetch : Option ℕ)
      → WritesBlock layout blob (elim fetch [
        | none ↦ none
        | some instruction ↦ elim (opcode_of (bit_and instruction 0x7f)) [
          | none ↦ none
          | some opcode ↦ translators layout opcode blob instruction
        ]
      ])
  fetched none = refuses
  fetched (some instruction) = by_opcode (opcode_of (bit_and instruction 0x7f))
    where
      by_opcode :
          (o : Option RiscvOpcode)
          → WritesBlock layout blob
              (elim o [ none ↦ none | some opcode ↦ translators layout opcode blob instruction ])
      by_opcode none = refuses
      by_opcode (some opcode) = translators-WritesBlock opcode instruction

  pub prefetch_one_instruction-WritesBlock :
      (fetch : ℕ → Option ℕ) → WritesBlock layout blob (prefetch_one_instruction layout fetch blob)
  unfolding prefetch_one_instruction
  prefetch_one_instruction-WritesBlock fetch = fetched (fetch blob.next_instruction_to_fetch)
