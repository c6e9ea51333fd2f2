-- ===== src/Emit/Arith/Computes.antt =====
-- The blocks of the OP instructions against the operations of RV32I.
use zelda_riscv_emulator.Base.{
  ℕ, ◌%◌, ◌^◌, ◌<◌, [], ◌∷◌, arith, refl, u32, bit_xor, bit_and_comm, bit_or_comm, bit_xor_comm,
  bit_and-lt, bit_or-lt, bit_xor-lt, bit_and_mask,
}
use native.Mathlib.Nat.{mod-eq_of_lt}
use zelda_riscv_emulator.Host.{
  Functions, addl, subl, andl, orl, xorl, cmpl, setcc, movzbl, andl_imm, shll_cl, shrl_cl, sarl_cl,
  Cond, run, exec, holds, compare_flags,
}
use zelda_riscv_emulator.Host.State.{rax, rcx, rdx, rsi, rdi, Cpu, get_reg, set_reg, put, get}
use zelda_riscv_emulator.Host.Compare.{holds-l, setcc-movzbl, bit-lt}
use zelda_riscv_emulator.Host.Word.{sar32-lt, div-le}
use zelda_riscv_emulator.Host.Guest.{Guest, Holds, Holds-compute, straight}
use zelda_riscv_emulator.Decode.{Decoding}
use zelda_riscv_emulator.Emit.Rv32.{alu, add, sub, sll, slt, sltu, xor, srl, sra, or, and}
use zelda_riscv_emulator.Emit.Operands.{NamesRegisters, Computes, result_lem, a, b, a-lt, b-lt}
use zelda_riscv_emulator.Emit.Arith.{
  add_block, sub_block, and_block, or_block, xor_block, sll_block, srl_block, sra_block, slt_block,
  sltu_block,
}

mod_32-lt : (x : ℕ) → x % 32 < 32
mod_32-lt x = omega arith

module _ {hart : ℕ} {c : Cpu} {g : Guest} (call : Functions) (dec : Decoding) (h : Holds hart c g)
    (n : NamesRegisters dec) where
  pub add_lem : Computes hart c g call dec (add_block dec) (alu add (a dec g) (b dec g))
  unfolding add_block alu straight exec get_reg set_reg
  add_lem =
      result_lem call dec h n rdx rsi rax [] _ _ refl rdx rax (addl rsi rax ∷ []) _ _
        (alu add (a dec g) (b dec g)) refl (omega arith) (omega arith)

  pub sub_lem : Computes hart c g call dec (sub_block dec) (alu sub (a dec g) (b dec g))
  unfolding sub_block alu straight exec get_reg set_reg
  sub_lem =
      result_lem call dec h n rdx rax rsi [] _ _ refl rdx rax (subl rsi rax ∷ []) _ _
        (alu sub (a dec g) (b dec g)) refl (omega (arith, a-lt dec h n, b-lt dec h n)) (omega arith)

  pub and_lem : Computes hart c g call dec (and_block dec) (alu and (a dec g) (b dec g))
  unfolding and_block alu straight exec get_reg set_reg
  and_lem =
      result_lem call dec h n rdx rsi rax [] _ _ refl rdx rax (andl rsi rax ∷ []) _ _
        (alu and (a dec g) (b dec g)) refl
        (rw (mod-eq_of_lt (a-lt dec h n), mod-eq_of_lt (b-lt dec h n))
          (bit_and_comm (b dec g) (a dec g)))
        (bit_and-lt 32 (a dec g) (b dec g) (a-lt dec h n))

  pub or_lem : Computes hart c g call dec (or_block dec) (alu or (a dec g) (b dec g))
  unfolding or_block alu straight exec get_reg set_reg
  or_lem =
      result_lem call dec h n rdx rsi rax [] _ _ refl rdx rax (orl rsi rax ∷ []) _ _
        (alu or (a dec g) (b dec g)) refl
        (rw (mod-eq_of_lt (a-lt dec h n), mod-eq_of_lt (b-lt dec h n))
          (bit_or_comm (b dec g) (a dec g)))
        (bit_or-lt 32 (a dec g) (b dec g) (a-lt dec h n) (b-lt dec h n))

  pub xor_lem : Computes hart c g call dec (xor_block dec) (alu xor (a dec g) (b dec g))
  unfolding xor_block alu straight exec get_reg set_reg
  xor_lem =
      result_lem call dec h n rdx rsi rax [] _ _ refl rdx rax (xorl rsi rax ∷ []) _ _
        (alu xor (a dec g) (b dec g)) refl
        (rw (mod-eq_of_lt (a-lt dec h n), mod-eq_of_lt (b-lt dec h n))
          (bit_xor_comm (b dec g) (a dec g)))
        (bit_xor-lt 32 (a dec g) (b dec g) (a-lt dec h n) (b-lt dec h n))

  pub sll_lem : Computes hart c g call dec (sll_block dec) (alu sll (a dec g) (b dec g))
  unfolding sll_block alu straight exec get_reg set_reg
  sll_lem =
      result_lem call dec h n rdx rax rcx [] _ _ refl rdx rax (andl_imm 0x1f rcx ∷ shll_cl rax ∷ [])
        _ _ (alu sll (a dec g) (b dec g)) refl
        (rw (
          mod-eq_of_lt (a-lt dec h n),
          mod-eq_of_lt (b-lt dec h n),
          bit_and_mask 5 (b dec g),
          mod-eq_of_lt (mod_32-lt (b dec g)),
        ))
        (omega arith)

  pub srl_lem : Computes hart c g call dec (srl_block dec) (alu srl (a dec g) (b dec g))
  unfolding srl_block alu straight exec get_reg set_reg
  srl_lem =
      result_lem call dec h n rdx rax rcx [] _ _ refl rdx rax (andl_imm 0x1f rcx ∷ shrl_cl rax ∷ [])
        _ _ (alu srl (a dec g) (b dec g)) refl
        (rw (
          mod-eq_of_lt (a-lt dec h n),
          mod-eq_of_lt (b-lt dec h n),
          bit_and_mask 5 (b dec g),
          mod-eq_of_lt (mod_32-lt (b dec g)),
        ))
        (ground (arith, div-le (a dec g) (2 ^ (b dec g % 32)), a-lt dec h n))

  pub sra_lem : Computes hart c g call dec (sra_block dec) (alu sra (a dec g) (b dec g))
  unfolding sra_block alu straight exec get_reg set_reg
  sra_lem =
      result_lem call dec h n rdx rax rcx [] _ _ refl rdx rax (andl_imm 0x1f rcx ∷ sarl_cl rax ∷ [])
        _ _ (alu sra (a dec g) (b dec g)) refl
        (rw (
          mod-eq_of_lt (a-lt dec h n),
          mod-eq_of_lt (b-lt dec h n),
          bit_and_mask 5 (b dec g),
          mod-eq_of_lt (mod_32-lt (b dec g)),
        ))
        (sar32-lt (a dec g) (b dec g % 32) (a-lt dec h n))

  pub slt_lem : Computes hart c g call dec (slt_block dec) (alu slt (a dec g) (b dec g))
  unfolding slt_block alu run straight exec get_reg set_reg
  slt_lem =
      result_lem {c = put rcx (bit_xor (u32 (get rcx c)) (u32 (get rcx c))) c} call dec
        (Holds-compute _ _ h) n rdx rsi rdi [] _ _ refl rdx rcx
        (cmpl rdi rsi ∷ setcc Cond.l rcx ∷ movzbl rcx rcx ∷ []) _ _ (alu slt (a dec g) (b dec g))
        refl
        (rw (
          mod-eq_of_lt (a-lt dec h n),
          mod-eq_of_lt (b-lt dec h n),
          holds-l (a dec g) (b dec g) (a-lt dec h n) (b-lt dec h n),
          setcc-movzbl,
        ))
        (bit-lt _)

  pub sltu_lem : Computes hart c g call dec (sltu_block dec) (alu sltu (a dec g) (b dec g))
  unfolding sltu_block alu run straight exec get_reg set_reg holds compare_flags
  sltu_lem =
      result_lem {c = put rcx (bit_xor (u32 (get rcx c)) (u32 (get rcx c))) c} call dec
        (Holds-compute _ _ h) n rdx rsi rdi [] _ _ refl rdx rcx
        (cmpl rdi rsi ∷ setcc Cond.b rcx ∷ movzbl rcx rcx ∷ []) _ _ (alu sltu (a dec g) (b dec g))
        refl (rw (mod-eq_of_lt (a-lt dec h n), mod-eq_of_lt (b-lt dec h n), setcc-movzbl))
        (bit-lt _)
