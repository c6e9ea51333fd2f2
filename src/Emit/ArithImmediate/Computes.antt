-- ===== src/Emit/ArithImmediate/Computes.antt =====
-- The blocks of the OP-IMM instructions against the operations of RV32I.
use zelda_riscv_emulator.Base.{
  ℕ, ◌%◌, ◌^◌, ◌<◌, ◌≡◌, [], ◌∷◌, arith, refl, u32, bit_xor, bit_and-lt, bit_or-lt, bit_xor-lt,
  bit_and_mask,
}
use native.Mathlib.Nat.{mod-eq_of_lt}
use zelda_riscv_emulator.Host.{
  Functions, movl_param, cmpl_param, addl, andl, orl, xorl, setcc, movzbl, andl_imm, shll_cl,
  shrl_cl, sarl_cl, Cond, run, exec, holds, compare_flags,
}
use zelda_riscv_emulator.Host.State.{rax, rcx, rdx, Cpu, get_reg, set_reg, put, get}
use zelda_riscv_emulator.Host.Compare.{holds-l, setcc-movzbl, bit-lt}
use zelda_riscv_emulator.Host.Word.{sar32-lt, div-le, sign_extend}
use zelda_riscv_emulator.Host.Guest.{Guest, Holds, Holds-compute, straight}
use zelda_riscv_emulator.Decode.{Decoding}
use zelda_riscv_emulator.Emit.Rv32.{alu, add, sll, slt, sltu, xor, srl, sra, or, and}
use zelda_riscv_emulator.Emit.SignExtend.{sign_extend32, sign_extend32_lem}
use zelda_riscv_emulator.Emit.Operands.{one_operand_lem, Computes}
use zelda_riscv_emulator.Emit.ArithImmediate.{
  immediate_params, addi_block, stli_block, stliu_block, xori_block, ori_block, andi_block,
  slli_block, srli_block, srai_block,
}

-- The fields of a decoded instruction with an immediate of 12 bits.
pub record HasImmediate (dec : Decoding) : Type 0 where
  pub rd : dec.rd_index < 32
  pub rs1 : dec.rs1_index < 32
  pub imm : dec.imm < 2 ^ 12

-- The sign extended immediate of the architecture.
abbrev pub immediate : Decoding → ℕ
immediate dec = sign_extend (2 ^ 12) (2 ^ 32) dec.imm

mod_32-lt : (x : ℕ) → x % 32 < 32
mod_32-lt x = omega arith

module _ {hart : ℕ} {c : Cpu} {g : Guest} (dec : Decoding) (h : Holds hart c g)
    (n : HasImmediate dec) where
  x1-lt : g.x dec.rs1_index < 2 ^ 32
  x1-lt = h.word dec.rs1_index n.rs1

  immediate-eq : sign_extend32 dec.imm 11 ≡ immediate dec
  immediate-eq = sign_extend32_lem dec.imm 11 (omega arith) n.imm

  immediate-lt : immediate dec < 2 ^ 32
  immediate-lt = ground (arith, n.imm)

  imm-lt : dec.imm < 2 ^ 32
  imm-lt = omega (arith, n.imm)

module _ {hart : ℕ} {c : Cpu} {g : Guest} (call : Functions) (dec : Decoding) (h : Holds hart c g)
    (n : HasImmediate dec) where
  pub addi_lem :
      Computes hart c g call dec (addi_block dec) (alu add (g.x dec.rs1_index) (immediate dec))
  unfolding addi_block alu run straight exec get_reg set_reg
  addi_lem =
      one_operand_lem call (immediate_params (sign_extend32 dec.imm 11) dec) dec.rs1_index
        dec.rd_index rax rax (movl_param 0 rdx ∷ addl rdx rax ∷ []) _ _
        (alu add (g.x dec.rs1_index) (immediate dec)) h refl n.rs1 refl n.rd refl
        (rw (immediate-eq dec h n) (omega arith)) (omega arith)

  pub stli_lem :
      Computes hart c g call dec (stli_block dec) (alu slt (g.x dec.rs1_index) (immediate dec))
  unfolding stli_block alu run straight exec get_reg set_reg
  stli_lem =
      one_operand_lem {c = put rcx (bit_xor (u32 (get rcx c)) (u32 (get rcx c))) c} call
        (immediate_params (sign_extend32 dec.imm 11) dec) dec.rs1_index dec.rd_index rax rcx
        (cmpl_param 0 rax ∷ setcc Cond.l rcx ∷ movzbl rcx rcx ∷ []) _ _
        (alu slt (g.x dec.rs1_index) (immediate dec)) (Holds-compute _ _ h) refl n.rs1 refl n.rd
        refl
        (rw (
          immediate-eq dec h n,
          mod-eq_of_lt (x1-lt dec h n),
          mod-eq_of_lt (immediate-lt dec h n),
          holds-l _ _ (x1-lt dec h n) (immediate-lt dec h n),
          setcc-movzbl,
        ))
        (bit-lt _)

  pub stliu_lem :
      Computes hart c g call dec (stliu_block dec) (alu sltu (g.x dec.rs1_index) (immediate dec))
  unfolding stliu_block alu run straight exec get_reg set_reg holds compare_flags
  stliu_lem =
      one_operand_lem {c = put rcx (bit_xor (u32 (get rcx c)) (u32 (get rcx c))) c} call
        (immediate_params (sign_extend32 dec.imm 11) dec) dec.rs1_index dec.rd_index rax rcx
        (cmpl_param 0 rax ∷ setcc Cond.b rcx ∷ movzbl rcx rcx ∷ []) _ _
        (alu sltu (g.x dec.rs1_index) (immediate dec)) (Holds-compute _ _ h) refl n.rs1 refl n.rd
        refl
        (rw (
          immediate-eq dec h n,
          mod-eq_of_lt (x1-lt dec h n),
          mod-eq_of_lt (immediate-lt dec h n),
          setcc-movzbl,
        ))
        (bit-lt _)

  pub xori_lem :
      Computes hart c g call dec (xori_block dec) (alu xor (g.x dec.rs1_index) (immediate dec))
  unfolding xori_block alu run straight exec get_reg set_reg
  xori_lem =
      one_operand_lem {c = put rcx (bit_xor (u32 (get rcx c)) (u32 (get rcx c))) c} call
        (immediate_params (sign_extend32 dec.imm 11) dec) dec.rs1_index dec.rd_index rax rax
        (movl_param 0 rdx ∷ xorl rdx rax ∷ []) _ _ (alu xor (g.x dec.rs1_index) (immediate dec))
        (Holds-compute _ _ h) refl n.rs1 refl n.rd refl
        (rw (
          immediate-eq dec h n,
          mod-eq_of_lt (x1-lt dec h n),
          mod-eq_of_lt (immediate-lt dec h n),
          mod-eq_of_lt (immediate-lt dec h n),
        ))
        (bit_xor-lt 32 _ _ (x1-lt dec h n) (immediate-lt dec h n))

  pub ori_lem :
      Computes hart c g call dec (ori_block dec) (alu or (g.x dec.rs1_index) (immediate dec))
  unfolding ori_block alu run straight exec get_reg set_reg
  ori_lem =
      one_operand_lem {c = put rcx (bit_xor (u32 (get rcx c)) (u32 (get rcx c))) c} call
        (immediate_params (sign_extend32 dec.imm 11) dec) dec.rs1_index dec.rd_index rax rax
        (movl_param 0 rdx ∷ orl rdx rax ∷ []) _ _ (alu or (g.x dec.rs1_index) (immediate dec))
        (Holds-compute _ _ h) refl n.rs1 refl n.rd refl
        (rw (
          immediate-eq dec h n,
          mod-eq_of_lt (x1-lt dec h n),
          mod-eq_of_lt (immediate-lt dec h n),
          mod-eq_of_lt (immediate-lt dec h n),
        ))
        (bit_or-lt 32 _ _ (x1-lt dec h n) (immediate-lt dec h n))

  pub andi_lem :
      Computes hart c g call dec (andi_block dec) (alu and (g.x dec.rs1_index) (immediate dec))
  unfolding andi_block alu run straight exec get_reg set_reg
  andi_lem =
      one_operand_lem {c = put rcx (bit_xor (u32 (get rcx c)) (u32 (get rcx c))) c} call
        (immediate_params (sign_extend32 dec.imm 11) dec) dec.rs1_index dec.rd_index rax rax
        (movl_param 0 rdx ∷ andl rdx rax ∷ []) _ _ (alu and (g.x dec.rs1_index) (immediate dec))
        (Holds-compute _ _ h) refl n.rs1 refl n.rd refl
        (rw (
          immediate-eq dec h n,
          mod-eq_of_lt (x1-lt dec h n),
          mod-eq_of_lt (immediate-lt dec h n),
          mod-eq_of_lt (immediate-lt dec h n),
        ))
        (bit_and-lt 32 _ _ (x1-lt dec h n))

  pub slli_lem : Computes hart c g call dec (slli_block dec) (alu sll (g.x dec.rs1_index) dec.imm)
  unfolding slli_block alu run straight exec get_reg set_reg
  slli_lem =
      one_operand_lem {c = put rcx (bit_xor (u32 (get rcx c)) (u32 (get rcx c))) c} call
        (immediate_params dec.imm dec) dec.rs1_index dec.rd_index rax rax
        (movl_param 0 rcx ∷ andl_imm 0x1f rcx ∷ shll_cl rax ∷ []) _ _
        (alu sll (g.x dec.rs1_index) dec.imm) (Holds-compute _ _ h) refl n.rs1 refl n.rd refl
        (rw (
          mod-eq_of_lt (x1-lt dec h n),
          mod-eq_of_lt (imm-lt dec h n),
          mod-eq_of_lt (imm-lt dec h n),
          bit_and_mask 5 dec.imm,
          mod-eq_of_lt (mod_32-lt dec.imm),
        ))
        (omega arith)

  pub srli_lem : Computes hart c g call dec (srli_block dec) (alu srl (g.x dec.rs1_index) dec.imm)
  unfolding srli_block alu run straight exec get_reg set_reg
  srli_lem =
      one_operand_lem {c = put rcx (bit_xor (u32 (get rcx c)) (u32 (get rcx c))) c} call
        (immediate_params dec.imm dec) dec.rs1_index dec.rd_index rax rax
        (movl_param 0 rcx ∷ andl_imm 0x1f rcx ∷ shrl_cl rax ∷ []) _ _
        (alu srl (g.x dec.rs1_index) dec.imm) (Holds-compute _ _ h) refl n.rs1 refl n.rd refl
        (rw (
          mod-eq_of_lt (x1-lt dec h n),
          mod-eq_of_lt (imm-lt dec h n),
          mod-eq_of_lt (imm-lt dec h n),
          bit_and_mask 5 dec.imm,
          mod-eq_of_lt (mod_32-lt dec.imm),
        ))
        (ground (arith, div-le (g.x dec.rs1_index) (2 ^ (dec.imm % 32)), x1-lt dec h n))

  pub srai_lem : Computes hart c g call dec (srai_block dec) (alu sra (g.x dec.rs1_index) dec.imm)
  unfolding srai_block alu run straight exec get_reg set_reg
  srai_lem =
      one_operand_lem {c = put rcx (bit_xor (u32 (get rcx c)) (u32 (get rcx c))) c} call
        (immediate_params dec.imm dec) dec.rs1_index dec.rd_index rax rax
        (movl_param 0 rcx ∷ andl_imm 0x1f rcx ∷ sarl_cl rax ∷ []) _ _
        (alu sra (g.x dec.rs1_index) dec.imm) (Holds-compute _ _ h) refl n.rs1 refl n.rd refl
        (rw (
          mod-eq_of_lt (x1-lt dec h n),
          mod-eq_of_lt (imm-lt dec h n),
          mod-eq_of_lt (imm-lt dec h n),
          bit_and_mask 5 dec.imm,
          mod-eq_of_lt (mod_32-lt dec.imm),
        ))
        (sar32-lt _ _ (x1-lt dec h n))
