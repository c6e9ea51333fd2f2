-- ===== src/Emit/ArithImmediate/Executes.antt =====
-- The OP-IMM instructions from the instruction word to the registers of the guest.
use zelda_riscv_emulator.Base.{
  ℕ, ◌*◌, ◌/◌, ◌%◌, ◌^◌, ◌<◌, ◌≡◌, ◌==◌, if◌then◌else◌, Option, none, some, arith, bit_and,
  bit_and_mask, bit_and-pow, bit_at, ◌∙◌,
}
use zelda_riscv_emulator.Host.{Functions}
use zelda_riscv_emulator.Host.State.{Cpu}
use zelda_riscv_emulator.Host.Guest.{Guest, Holds, Retires, retire}
use zelda_riscv_emulator.Decode.{Decoding, instruction_decoding_per_type, type_i}
use zelda_riscv_emulator.Translation.{PrefetchBlob, translate, advance}
use zelda_riscv_emulator.Translation.Cache.{Block, Layout}
use zelda_riscv_emulator.Emit.Rv32.{
  sub, mul, mulh, mulhsu, mulhu, div, divu, rem, remu, AluOp, alu, add, sll, slt, sltu, xor, srl,
  sra, or, and,
}
use zelda_riscv_emulator.Emit.Block.{execute}
use zelda_riscv_emulator.Emit.ArithImmediate.{
  addi_block, stli_block, stliu_block, xori_block, ori_block, andi_block, slli_block, srli_block,
  srai_block, riscv_right_shift_translator, immediate_handler,
  riscv_arithmetic_immediate_instructions_translation_entry,
}
use zelda_riscv_emulator.Emit.ArithImmediate.Computes.{
  HasImmediate, immediate, addi_lem, stli_lem, stliu_lem, xori_lem, ori_lem, andi_lem, slli_lem,
  srli_lem, srai_lem,
}

-- The operation of an OP-IMM instruction by `funct3` and, for the shifts, the seven bits above the
-- shift amount.
unfoldable pub immediate_op : ℕ → ℕ → Option AluOp
immediate_op funct3 imm =
    if funct3 == 0
    then some add
    else if funct3 == 1
    then if imm / 2 ^ 5 == 0 then some sll else none
    else if funct3 == 2
    then some slt
    else if funct3 == 3
    then some sltu
    else if funct3 == 4
    then some xor
    else if funct3 == 5
    then if imm / 2 ^ 5 == 0 then some srl else if imm / 2 ^ 5 == 0x20 then some sra else none
    else if funct3 == 6
    then some or
    else if funct3 == 7
    then some and
    else none

-- The block of an operation.
immediate_block : AluOp → Decoding → Block
immediate_block add = addi_block
immediate_block slt = stli_block
immediate_block sltu = stliu_block
immediate_block xor = xori_block
immediate_block or = ori_block
immediate_block and = andi_block
immediate_block sll = slli_block
immediate_block srl = srli_block
immediate_block sra = srai_block
immediate_block op = addi_block

shift_amount : (dec : Decoding) → immediate dec % 32 ≡ dec.imm % 32
shift_amount dec = ground arith

-- Bit 10 of an immediate.
bit_10 : (imm : ℕ) → imm < 2 ^ 12 → bit_and imm 0x400 ≡ imm / 2 ^ 10 % 2 * 2 ^ 10
unfolding bit_at
bit_10 imm p = bit_and-pow 10 imm ∙ omega arith

module _ {hart : ℕ} {c : Cpu} {g : Guest} (call : Functions) (dec : Decoding) (h : Holds hart c g)
    (n : HasImmediate dec) where
  immediate_block-Retires :
      (op : AluOp)
      → immediate_op dec.funct3 dec.imm ≡ some op
      → Retires hart
          (execute call (immediate_block op dec) c)
          (retire dec.rd_index (alu op (g.x dec.rs1_index) (immediate dec)) g)
  unfolding immediate_block immediate_op alu
  immediate_block-Retires add e = addi_lem call dec h n
  immediate_block-Retires slt e = stli_lem call dec h n
  immediate_block-Retires sltu e = stliu_lem call dec h n
  immediate_block-Retires xor e = xori_lem call dec h n
  immediate_block-Retires or e = ori_lem call dec h n
  immediate_block-Retires and e = andi_lem call dec h n
  immediate_block-Retires sll e = rw (shift_amount dec) (slli_lem call dec h n)
  immediate_block-Retires srl e = rw (shift_amount dec) (srli_lem call dec h n)
  immediate_block-Retires sra e = rw (shift_amount dec) (srai_lem call dec h n)
  immediate_block-Retires sub e = absurd (ground (arith, e))
  immediate_block-Retires mul e = absurd (ground (arith, e))
  immediate_block-Retires mulh e = absurd (ground (arith, e))
  immediate_block-Retires mulhsu e = absurd (ground (arith, e))
  immediate_block-Retires mulhu e = absurd (ground (arith, e))
  immediate_block-Retires div e = absurd (ground (arith, e))
  immediate_block-Retires divu e = absurd (ground (arith, e))
  immediate_block-Retires rem e = absurd (ground (arith, e))
  immediate_block-Retires remu e = absurd (ground (arith, e))

immediate_handler-eq :
    (layout : Layout) (dec : Decoding) (blob : PrefetchBlob) (op : AluOp)
    → dec.imm < 2 ^ 12
    → immediate_op dec.funct3 dec.imm ≡ some op
    → immediate_handler layout dec blob ≡ translate layout (immediate_block op dec) advance blob
unfolding immediate_handler immediate_op immediate_block riscv_right_shift_translator
immediate_handler-eq layout dec blob op small e = ground (arith, e, bit_10 dec.imm small)

pub decoded_i :
    (instruction : ℕ) (dec : Decoding)
    → instruction_decoding_per_type instruction type_i ≡ some dec
    → HasImmediate dec
unfolding instruction_decoding_per_type
decoded_i instruction dec e = ground (
  arith,
  e,
  bit_and_mask 5 (instruction / 2 ^ 7),
  bit_and_mask 5 (instruction / 2 ^ 15),
  bit_and_mask 12 (instruction / 2 ^ 20),
)

-- A legal OP-IMM instruction is translated into one block, which leaves the destination register with
-- the result that RV32I defines for the sign extended immediate, `x0` with zero, all other registers as
-- they were and the pc at the next instruction.
pub riscv_arithmetic_immediate_instructions_translation_entry-Executes :
    (layout : Layout) (blob : PrefetchBlob) (instruction : ℕ) (dec : Decoding) (op : AluOp)
    (call : Functions) (hart : ℕ) (c : Cpu) (g : Guest)
    → instruction_decoding_per_type instruction type_i ≡ some dec
    → immediate_op dec.funct3 dec.imm ≡ some op
    → Holds hart c g
    → (block : Block) × (riscv_arithmetic_immediate_instructions_translation_entry layout blob
          instruction
        ≡ translate layout block advance blob)
      × Retires hart
          (execute call block c)
          (retire dec.rd_index (alu op (g.x dec.rs1_index) (immediate dec)) g)
unfolding riscv_arithmetic_immediate_instructions_translation_entry
riscv_arithmetic_immediate_instructions_translation_entry-Executes layout blob instruction dec op
      call hart c g decoded legal h =
    let n = decoded_i instruction dec decoded in
    (
      immediate_block op dec,
      rw (riscv_arithmetic_immediate_instructions_translation_entry, decoded)
          (immediate_handler-eq layout dec blob op n.imm legal),
      immediate_block-Retires call dec h n op legal,
    )
