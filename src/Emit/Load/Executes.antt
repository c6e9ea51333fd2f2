-- ===== src/Emit/Load/Executes.antt =====
-- The LOAD instructions from the instruction word to the registers of the guest.
use zelda_riscv_emulator.Base.{
  ℕ, ◌+◌, ◌*◌, ◌^◌, ◌<◌, ◌≡◌, Option, none, some, List, [], ◌∷◌, ◌++◌, arith, refl, ◌∙◌, u32,
}
use native.Mathlib.Nat.{mod-eq_of_lt}
use zelda_riscv_emulator.Host.{
  Functions, Instr, Callback, Outcome, unwinds, run, exec, proceed, movl_store, movsbl, movzbl,
  movswl, movzwl,
}
use zelda_riscv_emulator.Host.State.{Cpu, Scratch, rax, rdx, put, get, get_reg, set_reg}
use zelda_riscv_emulator.Host.Guest.{Guest, Holds, Retires, retire, straight}
use zelda_riscv_emulator.Decode.{Decoding, instruction_decoding_per_type, type_i}
use zelda_riscv_emulator.Translation.{PrefetchBlob, translate, advance}
use zelda_riscv_emulator.Translation.Cache.{Block, Layout}
use zelda_riscv_emulator.Emit.Block.{execute}
use zelda_riscv_emulator.Emit.ArithImmediate.Computes.{HasImmediate}
use zelda_riscv_emulator.Emit.ArithImmediate.Executes.{decoded_i}
use zelda_riscv_emulator.Emit.Load.{
  load_code, lb_block, lbu_block, lh_block, lhu_block, lw_block, load_handler, riscv_lb_translator,
  riscv_lbu_translator, riscv_lh_translator, riscv_lhu_translator, riscv_lw_translator,
  riscv_memory_load_instructions_translation_entry,
}
use zelda_riscv_emulator.Emit.Load.Calls.{
  LoadOp, load_of, read_by, loaded, load_block, Answers, load_call, params, calls_lem, returned,
  deposits_lem, unwinds_lem, lb, lh, lw, lbu, lhu,
}

module _ {hart : ℕ} {c : Cpu} {g : Guest} (call : Functions) (dec : Decoding) (h : Holds hart c g)
    (n : HasImmediate dec) where
  reads_lem :
      (function : Callback) (w : ℕ) (after : Cpu) (extension : List Instr) (s : Scratch)
      → call function (load_call dec g c) ≡ some after
      → Holds hart (returned (load_call dec g c) after) g
      → straight call
          (params call dec h n)
          extension
          (put rdx (hart + 4 * dec.rd_index) (returned (load_call dec g c) after))
        ≡ some (record (returned (load_call dec g c) after) { scratch = s })
      → get_reg rdx s ≡ hart + 4 * dec.rd_index
      → u32 (get_reg rax s) ≡ w
      → w < 2 ^ 32
      → Retires hart
          (run call
            (params call dec h n)
            (load_code function (extension ++ (movl_store rax rdx ∷ proceed)))
            none
            c)
          (retire dec.rd_index w g)
  reads_lem function w after extension s returns held middle at value word =
      let (last, ends, kept) =
        deposits_lem call (params call dec h n) dec.rd_index w function extension s n.rd refl
          returns held middle at value word in
      (last, calls_lem call dec h n _ ∙ ends, kept)

  load_block-Retires :
      (op : LoadOp) (after : Cpu)
      → Answers call (read_by op) hart g (load_call dec g c) (some after)
      → Retires hart
          (execute call (load_block op dec) c)
          (retire dec.rd_index (loaded op (get rax after)) g)
  unfolding load_block lb_block lbu_block lh_block lhu_block lw_block read_by loaded straight exec
      get_reg set_reg
  load_block-Retires lb after (returns, held) =
      reads_lem Callback.mmu_read8 (loaded lb (get rax after)) after (movsbl rax rax ∷ []) _ returns
        held refl refl (mod-eq_of_lt (ground arith)) (ground arith)
  load_block-Retires lbu after (returns, held) =
      reads_lem Callback.mmu_read8 (loaded lbu (get rax after)) after (movzbl rax rax ∷ []) _
        returns held refl refl (mod-eq_of_lt (omega arith)) (omega arith)
  load_block-Retires lh after (returns, held) =
      reads_lem Callback.mmu_read16 (loaded lh (get rax after)) after (movswl rax rax ∷ []) _
        returns held refl refl (mod-eq_of_lt (ground arith)) (ground arith)
  load_block-Retires lhu after (returns, held) =
      reads_lem Callback.mmu_read16 (loaded lhu (get rax after)) after (movzwl rax rax ∷ []) _
        returns held refl refl (mod-eq_of_lt (omega arith)) (omega arith)
  load_block-Retires lw after (returns, held) =
      reads_lem Callback.mmu_read32 (loaded lw (get rax after)) after []
        (set_reg rdx (hart + 4 * dec.rd_index) after.scratch) returns held refl refl refl
        (omega arith)

  load_block-unwinds :
      (op : LoadOp)
      → call (read_by op) (load_call dec g c) ≡ none
      → execute call (load_block op dec) c ≡ unwinds
  unfolding load_block lb_block lbu_block lh_block lhu_block lw_block read_by
  load_block-unwinds lb e = calls_lem call dec h n _ ∙ unwinds_lem call _ _ _ _ e
  load_block-unwinds lbu e = calls_lem call dec h n _ ∙ unwinds_lem call _ _ _ _ e
  load_block-unwinds lh e = calls_lem call dec h n _ ∙ unwinds_lem call _ _ _ _ e
  load_block-unwinds lhu e = calls_lem call dec h n _ ∙ unwinds_lem call _ _ _ _ e
  load_block-unwinds lw e = calls_lem call dec h n _ ∙ unwinds_lem call _ _ _ _ e

load_handler-eq :
    (layout : Layout) (dec : Decoding) (blob : PrefetchBlob) (op : LoadOp)
    → load_of dec.funct3 ≡ some op
    → load_handler layout dec blob ≡ translate layout (load_block op dec) advance blob
unfolding load_handler load_of load_block riscv_lb_translator riscv_lbu_translator
    riscv_lh_translator riscv_lhu_translator riscv_lw_translator
load_handler-eq layout dec blob op e = ground (arith, e)

-- The outcome of a block for an answer of the read.
abbrev pub Loads : ℕ → LoadOp → Decoding → Guest → Outcome → Option Cpu → Type 0
Loads hart op dec g outcome none = outcome ≡ unwinds
Loads hart op dec g outcome (some after) =
    Retires hart outcome (retire dec.rd_index (loaded op (get rax after)) g)

load_block-Loads :
    {hart : ℕ} {c : Cpu} {g : Guest} (call : Functions) (dec : Decoding)
    → Holds hart c g
    → HasImmediate dec
    → (op : LoadOp) (answer : Option Cpu)
    → Answers call (read_by op) hart g (load_call dec g c) answer
    → Loads hart op dec g (execute call (load_block op dec) c) answer
load_block-Loads call dec h n op none raises = load_block-unwinds call dec h n op raises
load_block-Loads call dec h n op (some after) reads = load_block-Retires call dec h n op after reads

-- A legal LOAD instruction is translated into one block, which calls the read of the emulator with the
-- hart and the sum of the base register and the sign extended offset, modulo 2 ^ 32, before it changes
-- any memory. When that call returns a value and keeps what the guest sees, the block leaves the
-- destination register with the low byte, halfword or word of the value, extended as the instruction
-- says, `x0` with zero, all other registers as they were and the pc at the next instruction. When the
-- call raises an exception, the block ends there.
pub riscv_memory_load_instructions_translation_entry-Executes :
    (layout : Layout) (blob : PrefetchBlob) (instruction : ℕ) (dec : Decoding) (op : LoadOp)
    (call : Functions) (hart : ℕ) (c : Cpu) (g : Guest) (answer : Option Cpu)
    → instruction_decoding_per_type instruction type_i ≡ some dec
    → load_of dec.funct3 ≡ some op
    → Holds hart c g
    → Answers call (read_by op) hart g (load_call dec g c) answer
    → (block : Block) × (riscv_memory_load_instructions_translation_entry layout blob instruction
        ≡ translate layout block advance blob)
      × Loads hart op dec g (execute call block c) answer
unfolding riscv_memory_load_instructions_translation_entry
riscv_memory_load_instructions_translation_entry-Executes layout blob instruction dec op call hart c
      g answer decoded legal h answers =
    (
      load_block op dec,
      rw (riscv_memory_load_instructions_translation_entry, decoded)
          (load_handler-eq layout dec blob op legal),
      load_block-Loads call dec h (decoded_i instruction dec decoded) op answer answers,
    )
