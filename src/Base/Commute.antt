-- ===== src/Base/Commute.antt =====
-- The order of the operands of the bitwise operations, and the width of their results.
use Prim.Native.Nat.{
  ℕ, zero, suc, ◌+◌, ◌*◌, ◌/◌, ◌%◌, ◌^◌, ◌≤◌, ◌<◌, bit_and, bit_xor, differ, bit_xor-bitwise,
  bit_and-bitwise,
}
use mathlib.Core.Path.{◌≡◌, refl, sym, ◌∙◌}
use native.Mathlib.Nat.{le_refl, pow-suc}
use native.Mathlib.Omega.{arith}
use zelda_riscv_emulator.Base.BitLaws.{bit_and_step, bit_and-zero, bitwise_step}

pub bit_xor_step : (x y : ℕ) → bit_xor x y ≡ bit_xor (x / 2) (y / 2) * 2 + differ (x % 2) (y % 2)
bit_xor_step zero y = simp bit_xor-bitwise (omega arith)
bit_xor_step (suc x) y = simp bit_xor-bitwise (bitwise_step (λ w. w) differ x y)

differ_comm : (x y : ℕ) → differ x y ≡ differ y x
differ_comm zero zero = refl
differ_comm zero (suc y) = refl
differ_comm (suc x) zero = refl
differ_comm (suc x) (suc y) = differ_comm x y

xor_zero : (bound x : ℕ) → x ≤ bound → bit_xor x 0 ≡ x
xor_zero bound zero below = refl
xor_zero zero (suc x) below = absurd (omega arith)
xor_zero (suc bound) (suc x) below = omega (
  arith,
  xor_zero bound (suc x / 2) (omega arith),
  bit_xor_step (suc x) 0,
  differ-zero (suc x % 2),
)
  where
    differ-zero : (d : ℕ) → differ d 0 ≡ d
    differ-zero zero = refl
    differ-zero (suc d) = refl

differ-le : (x y : ℕ) → x < 2 → y < 2 → differ x y < 2
differ-le zero y p q = q
differ-le (suc x) zero p q = p
differ-le (suc x) (suc y) p q = differ-le x y (omega arith) (omega arith)

and-zero_left : (y : ℕ) → bit_and 0 y ≡ 0
and-zero_left y = simp bit_and-bitwise

xor-zero_left : (y : ℕ) → bit_xor 0 y ≡ y
xor-zero_left y = simp bit_xor-bitwise

and_comm : (bound x y : ℕ) → x ≤ bound → bit_and x y ≡ bit_and y x
and_comm bound zero y below = and-zero_left y ∙ sym (bit_and-zero y)
and_comm zero (suc x) y below = absurd (omega arith)
and_comm (suc bound) (suc x) y below = omega (
  arith,
  and_comm bound (suc x / 2) (y / 2) (omega arith),
  bit_and_step (suc x) y,
  bit_and_step y (suc x),
)

xor_comm : (bound x y : ℕ) → x ≤ bound → bit_xor x y ≡ bit_xor y x
xor_comm bound zero y below = xor-zero_left y ∙ sym (xor_zero y y (le_refl y))
xor_comm zero (suc x) y below = absurd (omega arith)
xor_comm (suc bound) (suc x) y below = omega (
  arith,
  xor_comm bound (suc x / 2) (y / 2) (omega arith),
  bit_xor_step (suc x) y,
  bit_xor_step y (suc x),
  differ_comm (suc x % 2) (y % 2),
)

pub bit_and_comm : (x y : ℕ) → bit_and x y ≡ bit_and y x
bit_and_comm x y = and_comm x x y (le_refl x)

pub bit_xor_comm : (x y : ℕ) → bit_xor x y ≡ bit_xor y x
bit_xor_comm x y = xor_comm x x y (le_refl x)

pub bit_xor-lt : (k a b : ℕ) → a < 2 ^ k → b < 2 ^ k → bit_xor a b < 2 ^ k
bit_xor-lt zero zero zero p q = omega arith
bit_xor-lt zero zero (suc b) p q = absurd (omega arith)
bit_xor-lt zero (suc a) b p q = absurd (omega arith)
bit_xor-lt (suc k) a b p q = omega (
  arith,
  pow-suc 2 k,
  bit_xor_step a b,
  differ-le (a % 2) (b % 2) (omega arith) (omega arith),
  bit_xor-lt k (a / 2) (b / 2) (omega (arith, pow-suc 2 k)) (omega (arith, pow-suc 2 k)),
)

differ_self : (x : ℕ) → differ x x ≡ 0
differ_self zero = refl
differ_self (suc x) = differ_self x

xor_self : (bound x : ℕ) → x ≤ bound → bit_xor x x ≡ 0
xor_self bound zero below = xor-zero_left 0
xor_self zero (suc x) below = absurd (omega arith)
xor_self (suc bound) (suc x) below = omega (
  arith,
  xor_self bound (suc x / 2) (omega arith),
  bit_xor_step (suc x) (suc x),
  differ_self (suc x % 2),
)

pub bit_xor_self : (x : ℕ) → bit_xor x x ≡ 0
bit_xor_self x = xor_self x x (le_refl x)
