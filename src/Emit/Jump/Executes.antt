-- ===== src/Emit/Jump/Executes.antt =====
-- JAL and JALR from the instruction word to the registers and the pc of the guest.
use zelda_riscv_emulator.Base.{
  ℕ, ◌+◌, ◌-◌, ◌*◌, ◌/◌, ◌%◌, ◌^◌, ◌<◌, ◌≡◌, none, some, List, [], ◌∷◌, arith, refl, ◌∙◌, u32,
  bit_and, bit_or, bit_and_mask, bit_or-lt,
}
use native.Mathlib.Nat.{mod-eq_of_lt}
use zelda_riscv_emulator.Host.{
  Functions, run, exec, movl_param, shll, addq_r15, addl, btr, movl_store, movl_store_r14,
  movl_zero_r15, trap_to_vmm,
}
use zelda_riscv_emulator.Host.State.{
  Cpu, Scratch, Flags, rax, rbx, rdx, put, store, get_reg, set_reg,
}
use zelda_riscv_emulator.Host.Word.{sign_extend}
use zelda_riscv_emulator.Host.Guest.{
  Guest, Holds, Holds-compute, Traps, write, fetch_lem, point_lem, link_lem, param, run-straight,
  straight,
}
use zelda_riscv_emulator.Decode.{Decoding, instruction_decoding_per_type, type_uj, type_i}
use zelda_riscv_emulator.Translation.{PrefetchBlob, translate, stop}
use zelda_riscv_emulator.Translation.Cache.{Block, Layout}
use zelda_riscv_emulator.Emit.Block.{execute}
use zelda_riscv_emulator.Emit.SignExtend.{sign_extend32, sign_extend32_lem}
use zelda_riscv_emulator.Emit.ArithImmediate.Computes.{HasImmediate, immediate}
use zelda_riscv_emulator.Emit.ArithImmediate.Executes.{decoded_i}
use zelda_riscv_emulator.Emit.Jump.{
  jal_block, jalr_block, riscv_jal_translator, riscv_jalr_translator,
}

-- The guest after a jump: the link register and the pc.
abbrev pub jump : ℕ → ℕ → Guest → Guest
jump rd target g = record { x = (write rd (u32 (g.pc + 4)) g).x; pc = target }

u32-lt : (x : ℕ) → u32 x < 2 ^ 32
u32-lt x = omega arith

-- The instructions behind the address of the link register. The target is in `rax` after the second
-- parameter has been loaded, or in `rbx`.
module _ {hart : ℕ} {c : Cpu} {g : Guest} (call : Functions) (params : List ℕ) (h : Holds hart c g)
    (rd target : ℕ) (small : rd < 32) (word : target < 2 ^ 32) (named : param params 0 ≡ rd)
    (linked : param params 1 ≡ u32 (g.pc + 4)) where
  stored : Scratch → Flags → Cpu
  stored s f = store c.r15 0 (
      store c.r14 target
        (store (hart + 4 * rd) (u32 (g.pc + 4)) (record c { scratch = s; flags = f })))

  jal_tail :
      param params 2 ≡ target
      → Traps hart
          (run call params
            (movl_param 0 rdx
              ∷ shll 2 rdx
              ∷ addq_r15 rdx
              ∷ movl_param 1 rax
              ∷ movl_store rax rdx
              ∷ movl_param 2 rax
              ∷ movl_store_r14 rax
              ∷ movl_zero_r15
              ∷ trap_to_vmm
              ∷ [])
            none
            c)
          (jump rd target g)
  unfolding run exec get_reg set_reg stored
  jal_tail there = (
    stored (set_reg rax target (set_reg rdx (hart + 4 * rd) c.scratch)) c.flags,
    point_lem call params 0 rd rdx
          (movl_param 1 rax
            ∷ movl_store rax rdx
            ∷ movl_param 2 rax
            ∷ movl_store_r14 rax
            ∷ movl_zero_r15
            ∷ trap_to_vmm
            ∷ [])
          h named small
        ∙ (rw (
          linked,
          there,
          mod-eq_of_lt word,
          mod-eq_of_lt word,
          mod-eq_of_lt (u32-lt (g.pc + 4)),
          mod-eq_of_lt (u32-lt (g.pc + 4)),
        )),
    link_lem rd (u32 (g.pc + 4)) target (Holds-compute _ _ h) small (omega arith) word,
  )

  jalr_tail :
      get_reg rbx c.scratch ≡ target
      → Traps hart
          (run call params
            (movl_param 0 rdx
              ∷ shll 2 rdx
              ∷ addq_r15 rdx
              ∷ movl_param 1 rax
              ∷ movl_store rax rdx
              ∷ movl_store_r14 rbx
              ∷ movl_zero_r15
              ∷ trap_to_vmm
              ∷ [])
            none
            c)
          (jump rd target g)
  unfolding run exec get_reg set_reg stored
  jalr_tail there = (
    stored (set_reg rax (u32 (g.pc + 4)) (set_reg rdx (hart + 4 * rd) c.scratch)) c.flags,
    point_lem call params 0 rd rdx
          (movl_param 1 rax
            ∷ movl_store rax rdx
            ∷ movl_store_r14 rbx
            ∷ movl_zero_r15
            ∷ trap_to_vmm
            ∷ [])
          h named small
        ∙ (rw (
          linked,
          there,
          mod-eq_of_lt word,
          mod-eq_of_lt (u32-lt (g.pc + 4)),
          mod-eq_of_lt (u32-lt (g.pc + 4)),
        )),
    link_lem rd (u32 (g.pc + 4)) target (Holds-compute _ _ h) small (omega arith) word,
  )

-- The targets of the architecture; that of JALR has its lowest bit cleared.
abbrev pub jal_target : Decoding → Guest → ℕ
jal_target dec g = u32 (g.pc + sign_extend (2 ^ 21) (2 ^ 32) (dec.imm * 2))

abbrev pub jalr_target : Decoding → Guest → ℕ
jalr_target dec g = u32 (g.x dec.rs1_index + immediate dec) / 2 * 2

pub record JumpFields (dec : Decoding) : Type 0 where
  pub rd : dec.rd_index < 32
  pub imm : dec.imm < 2 ^ 20

module _ {hart : ℕ} {c : Cpu} {g : Guest} (call : Functions) (dec : Decoding)
    (h : Holds hart c g) where
  jal_lem :
      JumpFields dec
      → Traps hart (execute call (jal_block g.pc dec) c) (jump dec.rd_index (jal_target dec g) g)
  unfolding jal_block
  jal_lem n =
      jal_tail call (jal_block g.pc dec).params h dec.rd_index (jal_target dec g) n.rd (u32-lt _)
        refl refl
        (rw (
          mod-eq_of_lt (twice dec.imm n.imm),
          sign_extend32_lem (dec.imm * 2) 20 (omega arith) (omega (arith, n.imm)),
        ))
    where
      twice : (x : ℕ) → x < 2 ^ 20 → x * 2 < 2 ^ 32
      twice x p = omega arith

  jalr_lem :
      HasImmediate dec
      → Traps hart (execute call (jalr_block g.pc dec) c) (jump dec.rd_index (jalr_target dec g) g)
  unfolding jalr_block straight exec get_reg set_reg
  jalr_lem n =
      let params : List ℕ = (jalr_block g.pc dec).params in
      let offset : ℕ = u32 (sign_extend32 dec.imm 11) in
      let sum : ℕ = u32 (u32 (u32 (g.x dec.rs1_index) + u32 offset)) in
      let (d, ends, held) =
        jalr_tail
          {c = put rbx (sum - sum / 2 ^ 0 % 2 * 2 ^ 0)
            (put rax offset (put rbx (g.x dec.rs1_index) (put rdx (hart + 4 * dec.rs1_index) c)))}
          call params (Holds-compute _ _ h) dec.rd_index (jalr_target dec g) n.rd (omega arith) refl
          refl (rw (sign_extend32_lem dec.imm 11 (omega arith) n.imm) (omega arith)) in
      (
        d,
        fetch_lem call params 2 dec.rs1_index rdx rbx _ h refl n.rs1
            ∙ run-straight call params (movl_param 3 rax ∷ addl rax rbx ∷ btr 0 rbx ∷ []) _ _ _ refl
            ∙ ends,
        held,
      )

imm_uj-lt :
    (p q r s : ℕ)
    → bit_or
        (bit_or (bit_or (bit_and p 0x3ff) (bit_and q 0x1 * 2 ^ 10)) (bit_and r 0xff * 2 ^ 11))
        (bit_and s 0x1 * 2 ^ 19)
      < 2 ^ 20
imm_uj-lt p q r s =
    rw (bit_and_mask 10 p, bit_and_mask 1 q, bit_and_mask 8 r, bit_and_mask 1 s)
      (bit_or-lt 20 _ _
        (bit_or-lt 20 _ _ (bit_or-lt 20 _ _ (omega arith) (omega arith)) (omega arith))
        (omega arith))

decoded_uj :
    (instruction : ℕ) (dec : Decoding)
    → instruction_decoding_per_type instruction type_uj ≡ some dec
    → JumpFields dec
unfolding instruction_decoding_per_type
decoded_uj instruction dec e = ground (
  arith,
  e,
  bit_and_mask 5 (instruction / 2 ^ 7),
  imm_uj-lt (instruction / 2 ^ 21) (instruction / 2 ^ 20) (instruction / 2 ^ 12)
      (instruction / 2 ^ 31),
)

-- JAL is translated into one block that ends the translation unit. With the guest at the instruction,
-- the block leaves for the emulator with the address of the next instruction in the destination
-- register, `x0` zero, all other registers as they were, and the pc at the sum of its value before and
-- the sign extended offset.
pub riscv_jal_translator-Executes :
    (layout : Layout) (blob : PrefetchBlob) (instruction : ℕ) (dec : Decoding) (call : Functions)
    (hart : ℕ) (c : Cpu) (g : Guest)
    → instruction_decoding_per_type instruction type_uj ≡ some dec
    → Holds hart c g
    → g.pc ≡ blob.next_instruction_to_fetch
    → (block : Block) × (riscv_jal_translator layout blob instruction
        ≡ translate layout block stop blob)
      × Traps hart (execute call block c) (jump dec.rd_index (jal_target dec g) g)
unfolding riscv_jal_translator
riscv_jal_translator-Executes layout blob instruction dec call hart c g decoded h here = (
  jal_block g.pc dec,
  rw (riscv_jal_translator, decoded, here),
  jal_lem call dec h (decoded_uj instruction dec decoded),
)

-- JALR is translated into one block that ends the translation unit. With the guest at the instruction,
-- the block leaves for the emulator with the address of the next instruction in the destination
-- register, `x0` zero, all other registers as they were, and the pc at the sum of rs1, as it was before,
-- and the sign extended offset, its lowest bit cleared.
pub riscv_jalr_translator-Executes :
    (layout : Layout) (blob : PrefetchBlob) (instruction : ℕ) (dec : Decoding) (call : Functions)
    (hart : ℕ) (c : Cpu) (g : Guest)
    → instruction_decoding_per_type instruction type_i ≡ some dec
    → Holds hart c g
    → g.pc ≡ blob.next_instruction_to_fetch
    → (block : Block) × (riscv_jalr_translator layout blob instruction
        ≡ translate layout block stop blob)
      × Traps hart (execute call block c) (jump dec.rd_index (jalr_target dec g) g)
unfolding riscv_jalr_translator
riscv_jalr_translator-Executes layout blob instruction dec call hart c g decoded h here = (
  jalr_block g.pc dec,
  rw (riscv_jalr_translator, decoded, here),
  jalr_lem call dec h (decoded_i instruction dec decoded),
)
