-- ===== src/Emit/Store/Executes.antt =====
-- The STORE instructions from the instruction word to the write of the emulator.
use zelda_riscv_emulator.Base.{
  ℕ, ◌+◌, ◌*◌, ◌/◌, ◌%◌, ◌^◌, ◌≡◌, Option, none, some, List, [], ◌∷◌, ◌++◌, arith, refl, ◌∙◌, u32,
  bit_and, bit_and_mask, bit_or-lt,
}
use zelda_riscv_emulator.Host.{
  Functions, Instr, Callback, reaches_end, run, exec, fetch, movl_param, addl, movq_r12, call_saved,
  andl_imm, addl_r14, end_instruction,
}
use zelda_riscv_emulator.Host.State.{Cpu, rdx, rsi, rdi, put, get_reg, set_reg}
use zelda_riscv_emulator.Host.Guest.{Guest, Holds, Holds-compute, fetch_lem, straight, run-straight}
use zelda_riscv_emulator.Decode.{Decoding, instruction_decoding_per_type, type_s}
use zelda_riscv_emulator.Translation.{PrefetchBlob, translate, advance}
use zelda_riscv_emulator.Translation.Cache.{Block, Layout}
use zelda_riscv_emulator.Emit.Block.{execute}
use zelda_riscv_emulator.Emit.SignExtend.{sign_extend32, sign_extend32_lem}
use zelda_riscv_emulator.Emit.Load.Calls.{effective_address, Answers, returned, unwinds_lem}
use zelda_riscv_emulator.Emit.Store.{
  store_params, store_code, call_and_proceed, sb_block, sh_block, sw_block, store_handler,
  riscv_sb_translator, riscv_sh_translator, riscv_sw_translator,
  riscv_memory_store_instructions_translation_entry,
}
use zelda_riscv_emulator.Emit.Store.Writes.{
  StoreOp, store_of, write_by, stored, store_block, store_call, stepped, Stores, stepped-Holds,
  NamesStore, sb, sh, sw,
}

module _ {hart : ℕ} {c : Cpu} {g : Guest} (call : Functions) (dec : Decoding) (h : Holds hart c g)
    (n : NamesStore dec) where
  abbrev params : List ℕ
  params = store_params (sign_extend32 dec.imm 11) dec

  abbrev addressed : Cpu
  addressed = put rsi (u32 (u32 (g.x dec.rs1_index) + u32 (u32 (sign_extend32 dec.imm 11)))) (
      put rdx (u32 (sign_extend32 dec.imm 11))
        (put rsi (g.x dec.rs1_index) (put rdx (hart + 4 * dec.rs1_index) c)))

  -- The state at the mask of the value.
  abbrev loaded : Cpu
  loaded = put rdx (g.x dec.rs2_index) (put rdx (hart + 4 * dec.rs2_index) addressed)

  loads_lem :
      (rest : List Instr)
      → run call params (store_code rest) none c ≡ run call params rest none loaded
  unfolding straight exec get_reg set_reg
  loads_lem rest =
      fetch_lem call params 1 dec.rs1_index rdx rsi
        (movl_param 0 rdx ∷ addl rdx rsi ∷ fetch 2 rdx rdx rest) h refl n.rs1
      ∙ run-straight call params (movl_param 0 rdx ∷ addl rdx rsi ∷ []) (fetch 2 rdx rdx rest) _
          addressed refl
      ∙ fetch_lem call params 2 dec.rs2_index rdx rdx rest (Holds-compute _ _ h) refl n.rs2

  address-eq :
      u32 (u32 (g.x dec.rs1_index) + u32 (u32 (sign_extend32 dec.imm 11))) ≡ effective_address dec g
  address-eq = rw (sign_extend32_lem dec.imm 11 (omega arith) n.imm) (omega arith)

  masks_byte : bit_and (u32 (g.x dec.rs2_index)) 0xff ≡ g.x dec.rs2_index % 2 ^ 8
  masks_byte = bit_and_mask 8 (u32 (g.x dec.rs2_index)) ∙ omega arith

  masks_half : bit_and (u32 (g.x dec.rs2_index)) 0xffff ≡ g.x dec.rs2_index % 2 ^ 16
  masks_half = bit_and_mask 16 (u32 (g.x dec.rs2_index)) ∙ omega arith

  -- The state at the call, for a value.
  abbrev calling : ℕ → Cpu
  calling value = put rdi c.r12 (put rdx value (put rsi (effective_address dec g) c))

  reaches_lem :
      (function : Callback) (mask : List Instr) {masked value : ℕ}
      → masked ≡ value
      → straight call params mask loaded ≡ some (put rdx masked loaded)
      → run call params (store_code (mask ++ call_and_proceed function)) none c
        ≡ run call params
            (call_saved function ∷ addl_r14 4 ∷ end_instruction ∷ [])
            none
            (calling value)
  unfolding straight exec get_reg set_reg
  reaches_lem function mask {masked} {value} same masks =
      loads_lem (mask ++ call_and_proceed function)
      ∙ run-straight call params mask (call_and_proceed function) _ _ masks
      ∙ run-straight call params (movq_r12 rdi ∷ [])
          (call_saved function ∷ addl_r14 4 ∷ end_instruction ∷ []) (put rdx masked loaded) _ refl
      ∙ (λ i.
          run call params (call_saved function ∷ addl_r14 4 ∷ end_instruction ∷ []) none
            (put rdi c.r12 (put rdx (same i) (put rsi (address-eq i) c))))

  returns_lem :
      (function : Callback) (d after : Cpu)
      → call function d ≡ some after
      → run call params (call_saved function ∷ addl_r14 4 ∷ end_instruction ∷ []) none d
        ≡ reaches_end (stepped (returned d after))
  unfolding run exec
  returns_lem function d after e = rw (run, exec, e)

  stores_lem :
      (function : Callback) (mask : List Instr) {masked value : ℕ}
      → masked ≡ value
      → straight call params mask loaded ≡ some (put rdx masked loaded)
      → (answer : Option Cpu) → Answers call function hart g (calling value) answer
      → Stores hart g
          (calling value)
          (run call params (store_code (mask ++ call_and_proceed function)) none c)
          answer
  stores_lem function mask {masked} {value} same masks none raises =
      reaches_lem function mask same masks
      ∙ unwinds_lem call params function _ (calling value) raises
  stores_lem function mask {masked} {value} same masks (some after) (returns, held) = (
    reaches_lem function mask same masks ∙ returns_lem function (calling value) after returns,
    stepped-Holds held,
  )

  store_block-Stores :
      (op : StoreOp) (answer : Option Cpu)
      → Answers call (write_by op) hart g (store_call op dec g c) answer
      → Stores hart g (store_call op dec g c) (execute call (store_block op dec) c) answer
  unfolding store_block sb_block sh_block sw_block write_by stored straight exec get_reg set_reg
  store_block-Stores sb answer accepts =
      stores_lem Callback.mmu_write8 (andl_imm 0xff rdx ∷ []) masks_byte refl answer accepts
  store_block-Stores sh answer accepts =
      stores_lem Callback.mmu_write16 (andl_imm 0xffff rdx ∷ []) masks_half refl answer accepts
  store_block-Stores sw answer accepts = stores_lem Callback.mmu_write32 [] refl refl answer accepts

store_handler-eq :
    (layout : Layout) (dec : Decoding) (blob : PrefetchBlob) (op : StoreOp)
    → store_of dec.funct3 ≡ some op
    → store_handler layout dec blob ≡ translate layout (store_block op dec) advance blob
unfolding store_handler store_of store_block riscv_sb_translator riscv_sh_translator
    riscv_sw_translator
store_handler-eq layout dec blob op e = ground (arith, e)

decoded_s :
    (instruction : ℕ) (dec : Decoding)
    → instruction_decoding_per_type instruction type_s ≡ some dec
    → NamesStore dec
unfolding instruction_decoding_per_type
decoded_s instruction dec e = ground (
  arith,
  e,
  bit_and_mask 5 (instruction / 2 ^ 15),
  bit_and_mask 5 (instruction / 2 ^ 20),
  bit_and_mask 5 (instruction / 2 ^ 7),
  bit_and_mask 7 (instruction / 2 ^ 25),
  bit_or-lt 12 (instruction / 2 ^ 7 % 32) (instruction / 2 ^ 25 % 128 * 32) (omega arith)
      (omega arith),
)

-- A legal STORE instruction is translated into one block, which calls the write of the emulator once,
-- with the hart, the sum of the base register and the sign extended offset, modulo 2 ^ 32, and the low
-- byte, halfword or word of the source register, before it changes any memory. When that call returns
-- and keeps what the guest sees, the block leaves the memory and the registers as the call left them, but
-- for the pc, which stands at the next instruction. When the call raises an exception, the block ends
-- there.
pub riscv_memory_store_instructions_translation_entry-Executes :
    (layout : Layout) (blob : PrefetchBlob) (instruction : ℕ) (dec : Decoding) (op : StoreOp)
    (call : Functions) (hart : ℕ) (c : Cpu) (g : Guest) (answer : Option Cpu)
    → instruction_decoding_per_type instruction type_s ≡ some dec
    → store_of dec.funct3 ≡ some op
    → Holds hart c g
    → Answers call (write_by op) hart g (store_call op dec g c) answer
    → (block : Block) × (riscv_memory_store_instructions_translation_entry layout blob instruction
        ≡ translate layout block advance blob)
      × Stores hart g (store_call op dec g c) (execute call block c) answer
unfolding riscv_memory_store_instructions_translation_entry
riscv_memory_store_instructions_translation_entry-Executes layout blob instruction dec op call hart
      c g answer decoded legal h answers =
    (
      store_block op dec,
      rw (riscv_memory_store_instructions_translation_entry, decoded)
          (store_handler-eq layout dec blob op legal),
      store_block-Stores call dec h (decoded_s instruction dec decoded) op answer answers,
    )
