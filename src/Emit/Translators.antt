-- ===== src/Emit/Translators.antt =====
-- vmm/translation.c: the table of the translators, and the fetch of one instruction.
use zelda_riscv_emulator.Base.{ℕ, ◌==◌, if◌then◌else◌, Option, none, some, bit_and}
use zelda_riscv_emulator.Translation.{PrefetchBlob}
use zelda_riscv_emulator.Translation.Cache.{Layout}
use zelda_riscv_emulator.Emit.Upper.{riscv_lui_translator, riscv_auipc_translator}
use zelda_riscv_emulator.Emit.Jump.{riscv_jal_translator, riscv_jalr_translator}
use zelda_riscv_emulator.Emit.ArithImmediate.{
  riscv_arithmetic_immediate_instructions_translation_entry,
}
use zelda_riscv_emulator.Emit.Store.{riscv_memory_store_instructions_translation_entry}
use zelda_riscv_emulator.Emit.Load.{riscv_memory_load_instructions_translation_entry}
use zelda_riscv_emulator.Emit.Branch.{riscv_branch_instructions_translation_entry}
use zelda_riscv_emulator.Emit.Op.{riscv_arithmetic_instructions_translation_entry}
use zelda_riscv_emulator.Emit.Fence.{riscv_fence_instructions_translation_entry}
use zelda_riscv_emulator.Emit.Privileged.{riscv_supervisor_level_instructions_translation_entry}
use zelda_riscv_emulator.Emit.Amo.{riscv_amo_instructions_translation_entry}

-- `enum RISCV_OPCODE`.
pub data RiscvOpcode : Type 0 where
  op_lui op_auipc op_jal op_jarl op_branch op_load op_store op_op_imm op_op op_fence : RiscvOpcode
  op_supervisor_level op_amo : RiscvOpcode

unfoldable pub opcode_of : ℕ → Option RiscvOpcode
opcode_of opcode =
    if opcode == 0x37
    then some op_lui
    else if opcode == 0x17
    then some op_auipc
    else if opcode == 0x6f
    then some op_jal
    else if opcode == 0x67
    then some op_jarl
    else if opcode == 0x63
    then some op_branch
    else if opcode == 0x03
    then some op_load
    else if opcode == 0x23
    then some op_store
    else if opcode == 0x13
    then some op_op_imm
    else if opcode == 0x33
    then some op_op
    else if opcode == 0x0f
    then some op_fence
    else if opcode == 0x73
    then some op_supervisor_level
    else if opcode == 0x2f
    then some op_amo
    else none

-- `translation_init`: the translator of an opcode.
unfoldable pub translators : Layout → RiscvOpcode → PrefetchBlob → ℕ → Option PrefetchBlob
translators layout op_lui = riscv_lui_translator layout
translators layout op_auipc = riscv_auipc_translator layout
translators layout op_jal = riscv_jal_translator layout
translators layout op_jarl = riscv_jalr_translator layout
translators layout op_branch = riscv_branch_instructions_translation_entry layout
translators layout op_load = riscv_memory_load_instructions_translation_entry layout
translators layout op_store = riscv_memory_store_instructions_translation_entry layout
translators layout op_op_imm = riscv_arithmetic_immediate_instructions_translation_entry layout
translators layout op_op = riscv_arithmetic_instructions_translation_entry layout
translators layout op_fence = riscv_fence_instructions_translation_entry layout
translators layout op_supervisor_level =
    riscv_supervisor_level_instructions_translation_entry layout
translators layout op_amo = riscv_amo_instructions_translation_entry layout

-- `fetch` is `mmu_instruction_read32`; `none` of it is an exception, and `none` of the result that or an
-- assertion.
unfoldable pub prefetch_one_instruction :
    Layout → (ℕ → Option ℕ) → PrefetchBlob → Option PrefetchBlob
unfolding translators opcode_of
prefetch_one_instruction layout fetch blob = elim (fetch blob.next_instruction_to_fetch) [
  | none ↦ none
  | some instruction ↦ elim (opcode_of (bit_and instruction 0x7f)) [
    | none ↦ none
    | some opcode ↦ translators layout opcode blob instruction
  ]
]
