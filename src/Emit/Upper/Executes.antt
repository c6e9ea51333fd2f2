-- ===== src/Emit/Upper/Executes.antt =====
-- LUI and AUIPC from the instruction word to the registers of the guest.
use zelda_riscv_emulator.Base.{
  ℕ, ◌+◌, ◌*◌, ◌/◌, ◌^◌, ◌<◌, ◌≡◌, some, List, [], ◌∷◌, arith, refl, ◌∙◌, u32, bit_and_mask,
}
use zelda_riscv_emulator.Host.{
  Functions, exec, movl_param, shll, addq_r15, addl, movl_store, proceed,
}
use zelda_riscv_emulator.Host.State.{Cpu, rax, rcx, rdx, get_reg, set_reg}
use zelda_riscv_emulator.Host.Guest.{
  Guest, Holds, Holds-compute, Retires, retire, straight, run-straight, store_lem, address_lem,
}
use zelda_riscv_emulator.Decode.{Decoding, instruction_decoding_per_type, type_u}
use zelda_riscv_emulator.Translation.{PrefetchBlob, translate, advance}
use zelda_riscv_emulator.Translation.Cache.{Block, Layout}
use zelda_riscv_emulator.Emit.Block.{execute}
use zelda_riscv_emulator.Emit.Upper.{
  lui_block, auipc_block, riscv_lui_translator, riscv_auipc_translator,
}

module _ {hart : ℕ} {c : Cpu} {g : Guest} (call : Functions) (dec : Decoding) (h : Holds hart c g)
    (small : dec.rd_index < 32) where
  lui_lem :
      Retires hart (execute call (lui_block dec) c) (retire dec.rd_index (u32 (dec.imm * 2 ^ 12)) g)
  unfolding lui_block straight exec get_reg set_reg
  lui_lem =
      let params : List ℕ = dec.imm ∷ dec.rd_index ∷ [] in
      let (d, ends, held) =
        store_lem call params dec.rd_index (u32 (dec.imm * 2 ^ 12)) rdx rax (Holds-compute _ _ h)
          small (address_lem call params dec.rd_index small h) (omega arith) (omega arith) in
      (
        d,
        run-straight call params
              (movl_param 0 rax ∷ movl_param 1 rdx ∷ shll 12 rax ∷ shll 2 rdx ∷ addq_r15 rdx ∷ [])
              (movl_store rax rdx ∷ proceed) _ _ refl
            ∙ ends,
        held,
      )

  auipc_lem :
      g.pc < 2 ^ 32
      → Retires hart
          (execute call (auipc_block g.pc dec) c)
          (retire dec.rd_index (u32 (g.pc + dec.imm * 2 ^ 12)) g)
  unfolding auipc_block straight exec get_reg set_reg
  auipc_lem word =
      let params : List ℕ = dec.imm ∷ dec.rd_index ∷ g.pc ∷ [] in
      let (d, ends, held) =
        store_lem call params dec.rd_index (u32 (g.pc + dec.imm * 2 ^ 12)) rdx rax
          (Holds-compute _ _ h) small (address_lem call params dec.rd_index small h) (omega arith)
          (omega arith) in
      (
        d,
        run-straight call params
              (movl_param 1 rdx
                ∷ shll 2 rdx
                ∷ addq_r15 rdx
                ∷ movl_param 0 rax
                ∷ shll 12 rax
                ∷ movl_param 2 rcx
                ∷ addl rcx rax
                ∷ [])
              (movl_store rax rdx ∷ proceed) _ _ refl
            ∙ ends,
        held,
      )

decoded_u :
    (instruction : ℕ) (dec : Decoding)
    → instruction_decoding_per_type instruction type_u ≡ some dec
    → dec.rd_index < 32
unfolding instruction_decoding_per_type
decoded_u instruction dec e = ground (arith, e, bit_and_mask 5 (instruction / 2 ^ 7))

-- LUI and AUIPC are translated into one block each. The block of LUI leaves the destination register
-- with the immediate shifted by 12 bits, and that of AUIPC, with the guest at the instruction, with the
-- same plus the pc, modulo 2 ^ 32; `x0` is left with zero, all other registers as they were, and the pc
-- at the next instruction.
pub riscv_lui_translator-Executes :
    (layout : Layout) (blob : PrefetchBlob) (instruction : ℕ) (dec : Decoding) (call : Functions)
    (hart : ℕ) (c : Cpu) (g : Guest)
    → instruction_decoding_per_type instruction type_u ≡ some dec
    → Holds hart c g
    → g.pc ≡ blob.next_instruction_to_fetch
    → ((block : Block) × (riscv_lui_translator layout blob instruction
          ≡ translate layout block advance blob)
        × Retires hart (execute call block c) (retire dec.rd_index (u32 (dec.imm * 2 ^ 12)) g))
      × ((block : Block) × (riscv_auipc_translator layout blob instruction
            ≡ translate layout block advance blob)
          × Retires hart
              (execute call block c)
              (retire dec.rd_index (u32 (g.pc + dec.imm * 2 ^ 12)) g))
unfolding riscv_lui_translator riscv_auipc_translator
riscv_lui_translator-Executes layout blob instruction dec call hart c g decoded h here =
    let small = decoded_u instruction dec decoded in
    (
      (lui_block dec, rw (riscv_lui_translator, decoded), lui_lem call dec h small),
      (
        auipc_block g.pc dec,
        rw (riscv_auipc_translator, decoded, here),
        auipc_lem call dec h small h.counter_word,
      ),
    )
