-- ===== src/Emit/Op.antt =====
-- vmm/translation.c: the entry of the OP instructions, which takes the M extension apart.
pub mod Executes
use zelda_riscv_emulator.Base.{ℕ, ◌==◌, if◌then◌else◌, Option, none, some, bit_and}
use zelda_riscv_emulator.Decode.{Decoding, instruction_decoding_per_type, type_r}
use zelda_riscv_emulator.Translation.{PrefetchBlob}
use zelda_riscv_emulator.Translation.Cache.{Layout}
use zelda_riscv_emulator.Emit.Block.{Translator}
use zelda_riscv_emulator.Emit.Arith.{riscv_arithmetic_instructions_class0_translation_entry}
use zelda_riscv_emulator.Emit.MulDiv.{riscv_mul_div_instructions_translation_entry}

-- `funct7 & 0x3` tells the class.
unfoldable pub op_class : Layout → Translator
op_class layout dec blob =
    if bit_and dec.funct7 0x3 == 0
    then riscv_arithmetic_instructions_class0_translation_entry layout dec blob
    else if bit_and dec.funct7 0x3 == 0x1
    then riscv_mul_div_instructions_translation_entry layout dec blob
    else none

unfoldable pub riscv_arithmetic_instructions_translation_entry :
    Layout → PrefetchBlob → ℕ → Option PrefetchBlob
unfolding op_class
riscv_arithmetic_instructions_translation_entry layout blob instruction =
    elim (instruction_decoding_per_type instruction type_r) [
      | none ↦ none
      | some dec ↦ op_class layout dec blob
    ]
