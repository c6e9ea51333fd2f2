-- ===== src/Emit/Privileged/Executes.antt =====
-- The SYSTEM instructions without operands, and SFENCE.VMA, from the instruction word to the callback.
use zelda_riscv_emulator.Base.{
  ℕ, ◌+◌, ◌*◌, ◌/◌, ◌^◌, ◌<◌, ◌≡◌, Option, none, some, arith, refl, ◌∙◌, bit_and, bit_and_mask,
}
use zelda_riscv_emulator.Host.{Functions, Callback, Outcome, unwinds, reaches_end, traps, run, exec}
use zelda_riscv_emulator.Host.State.{Cpu, rdi, put}
use zelda_riscv_emulator.Decode.{instruction_decoding_per_type}
use zelda_riscv_emulator.Translation.{PrefetchBlob, Follow, translate, advance, stop}
use zelda_riscv_emulator.Translation.Cache.{Block, Layout}
use zelda_riscv_emulator.Emit.Block.{execute}
use zelda_riscv_emulator.Emit.Load.Calls.{returned}
use zelda_riscv_emulator.Emit.Store.Writes.{stepped}
use zelda_riscv_emulator.Emit.Privileged.{
  ebreak_block, mret_block, sret_block, sfence_vma_block, ecall_block, wfi_block,
  riscv_ebreak_translator, riscv_mret_translator, riscv_sret_translator,
  riscv_sfence_vma_translator, riscv_ecall_translator, riscv_wfi_translator,
  riscv_funct3_000_translator, privileged_handler,
  riscv_supervisor_level_instructions_translation_entry,
}

pub data SystemOp : Type 0 where
  ecall ebreak sret mret wfi : SystemOp
  sfence_vma : ℕ → ℕ → SystemOp

-- The instruction words of the architecture.
unfoldable pub word_of : SystemOp → ℕ
word_of ecall = 0x00000073
word_of ebreak = 0x00100073
word_of sret = 0x10200073
word_of mret = 0x30200073
word_of wfi = 0x10500073
word_of (sfence_vma rs1 rs2) = 0x12000073 + rs1 * 2 ^ 15 + rs2 * 2 ^ 20

abbrev pub NamesOperands : SystemOp → Type 0
NamesOperands (sfence_vma rs1 rs2) = (rs1 < 32) × (rs2 < 32)
NamesOperands _ = 0 < 32

unfoldable pub callback_of : SystemOp → Callback
callback_of ecall = Callback.ecall_callback
callback_of ebreak = Callback.ebreak_callback
callback_of sret = Callback.sret_callback
callback_of mret = Callback.mret_callback
callback_of wfi = Callback.wfi_callback
callback_of (sfence_vma rs1 rs2) = Callback.sfence_vma_callback

-- What the block does after the callback: the two returns leave the pc to it, and only EBREAK goes on
-- within the translation unit.
unfoldable pub outcome_of : SystemOp → Cpu → Outcome
outcome_of ebreak c = reaches_end (stepped c)
outcome_of sret c = traps c
outcome_of mret c = traps c
outcome_of _ c = traps (stepped c)

unfoldable pub follow_of : SystemOp → Follow
follow_of ebreak = advance
follow_of _ = stop

block_of : SystemOp → ℕ → Block
block_of ecall = ecall_block
block_of ebreak = ebreak_block
block_of sret = sret_block
block_of mret = mret_block
block_of wfi = wfi_block
block_of (sfence_vma rs1 rs2) = sfence_vma_block

returns_lem :
    (call : Functions) (op : SystemOp) (address : ℕ) (c after : Cpu)
    → call (callback_of op) (put rdi c.r12 c) ≡ some after
    → execute call (block_of op address) c ≡ outcome_of op (returned (put rdi c.r12 c) after)
unfolding block_of ecall_block ebreak_block sret_block mret_block wfi_block sfence_vma_block
    callback_of outcome_of run exec
returns_lem call ecall address c after e = rw (run, exec, e) refl
returns_lem call ebreak address c after e = rw (run, exec, e) refl
returns_lem call sret address c after e = rw (run, exec, e) refl
returns_lem call mret address c after e = rw (run, exec, e) refl
returns_lem call wfi address c after e = rw (run, exec, e) refl
returns_lem call (sfence_vma rs1 rs2) address c after e = rw (run, exec, e) refl

unwinds_lem :
    (call : Functions) (op : SystemOp) (address : ℕ) (c : Cpu)
    → call (callback_of op) (put rdi c.r12 c) ≡ none
    → execute call (block_of op address) c ≡ unwinds
unfolding block_of ecall_block ebreak_block sret_block mret_block wfi_block sfence_vma_block
    callback_of run exec
unwinds_lem call ecall address c e = rw (run, exec, e) refl
unwinds_lem call ebreak address c e = rw (run, exec, e) refl
unwinds_lem call sret address c e = rw (run, exec, e) refl
unwinds_lem call mret address c e = rw (run, exec, e) refl
unwinds_lem call wfi address c e = rw (run, exec, e) refl
unwinds_lem call (sfence_vma rs1 rs2) address c e = rw (run, exec, e) refl

entry-eq :
    (layout : Layout) (blob : PrefetchBlob) (op : SystemOp)
    → NamesOperands op
    → riscv_supervisor_level_instructions_translation_entry layout blob (word_of op)
      ≡ translate layout (block_of op blob.next_instruction_to_fetch) (follow_of op) blob
unfolding block_of follow_of word_of riscv_supervisor_level_instructions_translation_entry
    privileged_handler riscv_funct3_000_translator instruction_decoding_per_type
    riscv_ebreak_translator riscv_mret_translator riscv_sret_translator riscv_sfence_vma_translator
    riscv_ecall_translator riscv_wfi_translator
entry-eq layout blob ecall ok = refl
entry-eq layout blob ebreak ok = refl
entry-eq layout blob sret ok = refl
entry-eq layout blob mret ok = refl
entry-eq layout blob wfi ok = refl
entry-eq layout blob (sfence_vma rs1 rs2) (small1, small2) =
    let w : ℕ = 0x12000073 + rs1 * 2 ^ 15 + rs2 * 2 ^ 20 in
    let funct3 : bit_and (w / 2 ^ 12) 0x7 ≡ 0 =
      bit_and_mask 3 (w / 2 ^ 12) ∙ omega (arith, small1, small2) in
    let low : bit_and (w / 2 ^ 7) 0x1f ≡ 0 =
      bit_and_mask 5 (w / 2 ^ 7) ∙ omega (arith, small1, small2) in
    let high : bit_and (w / 2 ^ 25) 0x7f ≡ 0x9 =
      bit_and_mask 7 (w / 2 ^ 25) ∙ omega (arith, small1, small2) in
    rw (riscv_supervisor_level_instructions_translation_entry, funct3)
      (rw (instruction_decoding_per_type, funct3, low, high) refl)

-- The outcome of the block for what the callback makes of its state; `none` is an exception.
abbrev pub Leaves : SystemOp → Cpu → Outcome → Option Cpu → Type 0
Leaves op d outcome none = outcome ≡ unwinds
Leaves op d outcome (some after) = outcome ≡ outcome_of op (returned d after)

block_of-Leaves :
    (call : Functions) (op : SystemOp) (address : ℕ) (c : Cpu) (answer : Option Cpu)
    → call (callback_of op) (put rdi c.r12 c) ≡ answer
    → Leaves op (put rdi c.r12 c) (execute call (block_of op address) c) answer
block_of-Leaves call op address c none e = unwinds_lem call op address c e
block_of-Leaves call op address c (some after) e = returns_lem call op address c after e

-- ECALL, EBREAK, SRET, MRET, WFI and SFENCE.VMA, of any operands, are translated into one block, which
-- calls the callback of the instruction with the hart. When that returns, EBREAK goes on with the pc at
-- the next instruction, SRET and MRET leave for the emulator with the pc as the callback set it, and the
-- others leave for it with the pc at the next instruction. When the callback raises an exception, the
-- block ends there.
pub riscv_supervisor_level_instructions_translation_entry-Executes :
    (layout : Layout) (blob : PrefetchBlob) (op : SystemOp) (call : Functions) (c : Cpu)
    (answer : Option Cpu)
    → NamesOperands op
    → call (callback_of op) (put rdi c.r12 c) ≡ answer
    → (block : Block) × (riscv_supervisor_level_instructions_translation_entry layout blob
          (word_of op)
        ≡ translate layout block (follow_of op) blob)
      × Leaves op (put rdi c.r12 c) (execute call block c) answer
riscv_supervisor_level_instructions_translation_entry-Executes layout blob op call c answer operands
      answers =
    (
      block_of op blob.next_instruction_to_fetch,
      entry-eq layout blob op operands,
      block_of-Leaves call op blob.next_instruction_to_fetch c answer answers,
    )
