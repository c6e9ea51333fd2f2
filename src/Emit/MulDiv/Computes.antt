-- ===== src/Emit/MulDiv/Computes.antt =====
-- The blocks of the multiplications against the operations of the M extension.
use zelda_riscv_emulator.Base.{ℕ, Bool, ◌/◌, ◌^◌, ◌<◌, [], ◌∷◌, arith, refl, ◌∙◌, u32, ap}
use native.Mathlib.Nat.{mod-eq_of_lt, mul_comm}
use zelda_riscv_emulator.Host.{Functions, imull, mull, imulq, movslq, shrq, exec}
use zelda_riscv_emulator.Host.State.{rax, rdx, rsi, rdi, Cpu, get_reg, set_reg}
use zelda_riscv_emulator.Host.Word.{negative, magnitude, signed}
use zelda_riscv_emulator.Host.Product.{
  u32-signed_product, differ_comm, signed_64-lt, mulhsu_value, product-lt,
}
use zelda_riscv_emulator.Host.Guest.{Guest, Holds, straight}
use zelda_riscv_emulator.Decode.{Decoding}
use zelda_riscv_emulator.Emit.Rv32.{alu, mul, mulh, mulhsu, mulhu}
use zelda_riscv_emulator.Emit.Operands.{NamesRegisters, Computes, result_lem, a, b, a-lt, b-lt}
use zelda_riscv_emulator.Emit.MulDiv.{mul_block, mulh_block, mulhsu_block, mulhu_block}

high-lt : (s : Bool) (p : ℕ) → signed (2 ^ 64) s p / 2 ^ 32 < 2 ^ 32
high-lt s p = omega (arith, signed_64-lt s p)

module _ {hart : ℕ} {c : Cpu} {g : Guest} (call : Functions) (dec : Decoding) (h : Holds hart c g)
    (n : NamesRegisters dec) where
  pub mulhu_lem : Computes hart c g call dec (mulhu_block dec) (alu mulhu (a dec g) (b dec g))
  unfolding mulhu_block alu straight exec get_reg set_reg
  mulhu_lem =
      result_lem call dec h n rsi rdx rax [] _ _ refl rdi rdx (mull rdx ∷ []) _ _
        (alu mulhu (a dec g) (b dec g)) refl
        (rw (mod-eq_of_lt (a-lt dec h n), mod-eq_of_lt (b-lt dec h n), mul_comm (b dec g) (a dec g))
          (omega (arith, product-lt (a dec g) (b dec g) (a-lt dec h n) (b-lt dec h n))))
        (omega (arith, product-lt (a dec g) (b dec g) (a-lt dec h n) (b-lt dec h n)))

  pub mul_lem : Computes hart c g call dec (mul_block dec) (alu mul (a dec g) (b dec g))
  unfolding mul_block alu straight exec get_reg set_reg
  mul_lem =
      result_lem call dec h n rsi rdx rax [] _ _ refl rdi rax (imull rdx ∷ []) _ _
        (alu mul (a dec g) (b dec g)) refl
        (rw (mod-eq_of_lt (a-lt dec h n), mod-eq_of_lt (b-lt dec h n))
          (u32-signed_product (b dec g) (a dec g) (b-lt dec h n) (a-lt dec h n)
            ∙ ap u32 (mul_comm (b dec g) (a dec g))))
        (omega arith)

  pub mulh_lem : Computes hart c g call dec (mulh_block dec) (alu mulh (a dec g) (b dec g))
  unfolding mulh_block alu straight exec get_reg set_reg
  mulh_lem =
      result_lem call dec h n rsi rdx rax [] _ _ refl rdi rdx (imull rdx ∷ []) _ _
        (alu mulh (a dec g) (b dec g)) refl
        (rw
          (
            mod-eq_of_lt (a-lt dec h n),
            mod-eq_of_lt (b-lt dec h n),
            mul_comm (magnitude (2 ^ 32) (b dec g)) (magnitude (2 ^ 32) (a dec g)),
            differ_comm (negative (2 ^ 32) (b dec g)) (negative (2 ^ 32) (a dec g)),
          )
          (mod-eq_of_lt (high-lt _ _)))
        (high-lt _ _)

  pub mulhsu_lem : Computes hart c g call dec (mulhsu_block dec) (alu mulhsu (a dec g) (b dec g))
  unfolding mulhsu_block alu straight exec get_reg set_reg
  mulhsu_lem =
      result_lem call dec h n rsi rax rdx (movslq rax rax ∷ []) _ _ refl rdi rax
        (imulq rdx ∷ shrq 32 rax ∷ []) _ _ (alu mulhsu (a dec g) (b dec g)) refl
        (rw (mod-eq_of_lt (a-lt dec h n)) (
          ap (λ (t : ℕ). t / 2 ^ 32)
            (mulhsu_value (a dec g) (b dec g) (a-lt dec h n) (b-lt dec h n))))
        (high-lt _ _)
