-- ===== src/Emit/MulDiv/Quotients.antt =====
-- The four divisions: what their blocks compute, and when the host stops them.
use zelda_riscv_emulator.Base.{
  ℕ, ◌+◌, ◌-◌, ◌*◌, ◌/◌, ◌%◌, ◌^◌, ◌<◌, ◌≡◌, ◌≢◌, true, false, ◌==◌, [], ◌∷◌, arith, refl, ◌∙◌, u32,
  bit_xor, bit_xor_self,
}
use native.Mathlib.Nat.{mod-eq_of_lt, div-le_self}
use zelda_riscv_emulator.Host.{Functions, divide_error, idivl, divl, movslq, shrq, xorl, exec}
use zelda_riscv_emulator.Host.State.{rax, rbx, rdx, Cpu, get_reg, set_reg}
use zelda_riscv_emulator.Host.Word.{
  negative, magnitude, signed, differ, sign_extend, sign_extend-lt,
}
use zelda_riscv_emulator.Host.Divide.{
  overflows, divide_signed_lem, divide_unsigned_lem, divide_zero,
}
use zelda_riscv_emulator.Host.Product.{signed_32-lt}
use zelda_riscv_emulator.Host.Guest.{Guest, Holds, straight}
use zelda_riscv_emulator.Decode.{Decoding}
use zelda_riscv_emulator.Emit.Rv32.{alu, div, divu, rem, remu}
use zelda_riscv_emulator.Emit.Block.{execute}
use zelda_riscv_emulator.Emit.Operands.{NamesRegisters, Computes, a, b, a-lt, b-lt}
use zelda_riscv_emulator.Emit.MulDiv.{div_block, divu_block, rem_block, remu_block}
use zelda_riscv_emulator.Emit.MulDiv.Divides.{
  skips_lem, divides_lem, faults_lem, remains_lem, stops_lem,
}

-- `edx:eax` after `movsxd %eax, %rdx; shr $32, %rdx`.
sign_pair :
    (x : ℕ)
    → x < 2 ^ 32
    → u32 (sign_extend (2 ^ 32) (2 ^ 64) (u32 x) / 2 ^ 32) * 2 ^ 32 + u32 x
      ≡ sign_extend (2 ^ 32) (2 ^ 64) x
sign_pair x p = rw (mod-eq_of_lt p) (ground (arith, sign_extend-lt x p))

-- `edx:eax` after `xorl %edx, %edx`.
zero_pair : (v x : ℕ) → x < 2 ^ 32 → u32 (bit_xor (u32 v) (u32 v)) * 2 ^ 32 + u32 x ≡ x
zero_pair v x p = rw (bit_xor_self (u32 v)) (omega arith)

mod-lt : (x y : ℕ) → y < 2 ^ 32 → y ≢ 0 → x % y < 2 ^ 32
mod-lt x y p q = grind arith

module _ {hart : ℕ} {c : Cpu} {g : Guest} (call : Functions) (dec : Decoding) (h : Holds hart c g)
    (n : NamesRegisters dec) where
  pub div-zero_lem :
      b dec g ≡ 0 → Computes hart c g call dec (div_block dec) (alu div (a dec g) (b dec g))
  unfolding div_block alu straight exec get_reg set_reg
  div-zero_lem none_left =
      let value : alu div (a dec g) (b dec g) ≡ 2 ^ 32 - 1 = rw none_left refl in
      rw value (
        skips_lem call dec h n (movslq rax rdx ∷ shrq 32 rdx ∷ []) _ _ refl (idivl rbx) refl
          none_left)

  pub div_lem :
      b dec g ≢ 0
      → overflows (a dec g) (b dec g) ≡ false
      → Computes hart c g call dec (div_block dec) (alu div (a dec g) (b dec g))
  unfolding div_block alu straight exec get_reg set_reg
  div_lem some_b fits =
      let test : (b dec g == 0) ≡ false = ground (arith, some_b) in
      rw test (
        divides_lem call dec h n (movslq rax rdx ∷ shrq 32 rdx ∷ []) _ _ refl (idivl rbx) refl
          (signed (2 ^ 32) (differ (negative (2 ^ 32) (a dec g)) (negative (2 ^ 32) (b dec g)))
            (magnitude (2 ^ 32) (a dec g) / magnitude (2 ^ 32) (b dec g)))
          (signed (2 ^ 32) (negative (2 ^ 32) (a dec g))
            (magnitude (2 ^ 32) (a dec g) % magnitude (2 ^ 32) (b dec g)))
          some_b
          (rw (mod-eq_of_lt (b-lt dec h n)) (
            divide_signed_lem _ (a dec g) (b dec g) (a-lt dec h n) (b-lt dec h n) some_b
              (sign_pair (a dec g) (a-lt dec h n))
            ∙ (rw fits refl)))
          (signed_32-lt _ _))

  pub div-fault_lem :
      overflows (a dec g) (b dec g) ≡ true → execute call (div_block dec) c ≡ divide_error
  unfolding div_block exec get_reg set_reg straight
  div-fault_lem over =
      let some_b : b dec g ≢ 0 = ground (arith, over) in
      faults_lem call dec h n (movslq rax rdx ∷ shrq 32 rdx ∷ []) _ _ refl (idivl rbx) refl some_b (
        rw (mod-eq_of_lt (b-lt dec h n)) (
          divide_signed_lem _ (a dec g) (b dec g) (a-lt dec h n) (b-lt dec h n) some_b
            (sign_pair (a dec g) (a-lt dec h n))
          ∙ (rw over refl)))

  pub divu-zero_lem :
      b dec g ≡ 0 → Computes hart c g call dec (divu_block dec) (alu divu (a dec g) (b dec g))
  unfolding divu_block alu straight exec get_reg set_reg
  divu-zero_lem none_left =
      let value : alu divu (a dec g) (b dec g) ≡ 2 ^ 32 - 1 = rw none_left refl in
      rw value (skips_lem call dec h n (xorl rdx rdx ∷ []) _ _ refl (divl rbx) refl none_left)

  pub divu_lem :
      b dec g ≢ 0 → Computes hart c g call dec (divu_block dec) (alu divu (a dec g) (b dec g))
  unfolding divu_block alu straight exec get_reg set_reg
  divu_lem some_b =
      let test : (b dec g == 0) ≡ false = ground (arith, some_b) in
      rw test (
        divides_lem call dec h n (xorl rdx rdx ∷ []) _ _ refl (divl rbx) refl (a dec g / b dec g)
          (a dec g % b dec g) some_b
          (rw (mod-eq_of_lt (b-lt dec h n)) (
            divide_unsigned_lem _ (a dec g) (b dec g) (a-lt dec h n) some_b
              (zero_pair _ (a dec g) (a-lt dec h n))))
          (ground (arith, div-le_self (a dec g) (b dec g), a-lt dec h n)))

  pub rem_lem :
      b dec g ≢ 0
      → overflows (a dec g) (b dec g) ≡ false
      → Computes hart c g call dec (rem_block dec) (alu rem (a dec g) (b dec g))
  unfolding rem_block alu straight exec get_reg set_reg
  rem_lem some_b fits =
      let test : (b dec g == 0) ≡ false = ground (arith, some_b) in
      rw test (
        remains_lem call dec h n (movslq rax rdx ∷ shrq 32 rdx ∷ []) _ _ refl (idivl rbx) refl
          (signed (2 ^ 32) (differ (negative (2 ^ 32) (a dec g)) (negative (2 ^ 32) (b dec g)))
            (magnitude (2 ^ 32) (a dec g) / magnitude (2 ^ 32) (b dec g)))
          (signed (2 ^ 32) (negative (2 ^ 32) (a dec g))
            (magnitude (2 ^ 32) (a dec g) % magnitude (2 ^ 32) (b dec g)))
          (rw (mod-eq_of_lt (b-lt dec h n)) (
            divide_signed_lem _ (a dec g) (b dec g) (a-lt dec h n) (b-lt dec h n) some_b
              (sign_pair (a dec g) (a-lt dec h n))
            ∙ (rw fits refl)))
          (signed_32-lt _ _))

  pub rem-overflow_lem :
      overflows (a dec g) (b dec g) ≡ true → execute call (rem_block dec) c ≡ divide_error
  unfolding rem_block exec get_reg set_reg straight
  rem-overflow_lem over =
      let some_b : b dec g ≢ 0 = ground (arith, over) in
      stops_lem call dec h n (movslq rax rdx ∷ shrq 32 rdx ∷ []) _ _ refl (idivl rbx) refl (
        rw (mod-eq_of_lt (b-lt dec h n)) (
          divide_signed_lem _ (a dec g) (b dec g) (a-lt dec h n) (b-lt dec h n) some_b
            (sign_pair (a dec g) (a-lt dec h n))
          ∙ (rw over refl)))

  pub rem-zero_lem : b dec g ≡ 0 → execute call (rem_block dec) c ≡ divide_error
  unfolding rem_block exec get_reg set_reg straight
  rem-zero_lem none_left =
      stops_lem call dec h n (movslq rax rdx ∷ shrq 32 rdx ∷ []) _ _ refl (idivl rbx) refl
        (rw none_left (divide_zero _).0)

  pub remu_lem :
      b dec g ≢ 0 → Computes hart c g call dec (remu_block dec) (alu remu (a dec g) (b dec g))
  unfolding remu_block alu straight exec get_reg set_reg
  remu_lem some_b =
      let test : (b dec g == 0) ≡ false = ground (arith, some_b) in
      rw test (
        remains_lem call dec h n (xorl rdx rdx ∷ []) _ _ refl (divl rbx) refl (a dec g / b dec g)
          (a dec g % b dec g)
          (rw (mod-eq_of_lt (b-lt dec h n)) (
            divide_unsigned_lem _ (a dec g) (b dec g) (a-lt dec h n) some_b
              (zero_pair _ (a dec g) (a-lt dec h n))))
          (mod-lt (a dec g) (b dec g) (b-lt dec h n) some_b))

  pub remu-zero_lem : b dec g ≡ 0 → execute call (remu_block dec) c ≡ divide_error
  unfolding remu_block exec get_reg set_reg straight
  remu-zero_lem none_left =
      stops_lem call dec h n (xorl rdx rdx ∷ []) _ _ refl (divl rbx) refl
        (rw none_left (divide_zero _).1)
