-- ===== src/Emit/Upper.antt =====
-- vmm/translation.c: the blocks of LUI and AUIPC.
pub mod Executes
use zelda_riscv_emulator.Base.{ℕ, Option, none, some, List, [], ◌∷◌}
use zelda_riscv_emulator.Host.{movl_param, shll, addq_r15, addl, movl_store, proceed}
use zelda_riscv_emulator.Host.State.{rax, rcx, rdx}
use zelda_riscv_emulator.Decode.{Decoding, instruction_decoding_per_type, type_u}
use zelda_riscv_emulator.Translation.{PrefetchBlob, translate, advance}
use zelda_riscv_emulator.Translation.Cache.{Block, Layout}

unfoldable pub lui_block : Decoding → Block
lui_block dec = record {
  code =
      movl_param 0 rax
      ∷ movl_param 1 rdx
      ∷ shll 12 rax
      ∷ shll 2 rdx
      ∷ addq_r15 rdx
      ∷ movl_store rax rdx
      ∷ proceed;
  params = dec.imm ∷ dec.rd_index ∷ [];
}

unfoldable pub auipc_block : ℕ → Decoding → Block
auipc_block address dec = record {
  code =
      movl_param 1 rdx
      ∷ shll 2 rdx
      ∷ addq_r15 rdx
      ∷ movl_param 0 rax
      ∷ shll 12 rax
      ∷ movl_param 2 rcx
      ∷ addl rcx rax
      ∷ movl_store rax rdx
      ∷ proceed;
  params = dec.imm ∷ dec.rd_index ∷ address ∷ [];
}

module _ (layout : Layout) where
  unfoldable pub riscv_lui_translator : PrefetchBlob → ℕ → Option PrefetchBlob
  riscv_lui_translator blob instruction = elim (instruction_decoding_per_type instruction type_u) [
    | none ↦ none
    | some dec ↦ translate layout (lui_block dec) advance blob
  ]

  unfoldable pub riscv_auipc_translator : PrefetchBlob → ℕ → Option PrefetchBlob
  riscv_auipc_translator blob instruction =
      elim (instruction_decoding_per_type instruction type_u) [
        | none ↦ none
        | some dec ↦ translate layout (auipc_block blob.next_instruction_to_fetch dec) advance blob
      ]
