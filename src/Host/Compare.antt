-- ===== src/Host/Compare.antt =====
-- The conditions of the host against the orders on words.
use zelda_riscv_emulator.Base.{
  ℕ, ◌+◌, ◌-◌, ◌%◌, ◌^◌, ◌<◌, ◌≡◌, Bool, true, false, not, ◌==◌, if◌then◌else◌, arith, refl, ap,
  not,
}
use zelda_riscv_emulator.Host.{Cond, holds, compare_flags}
use zelda_riscv_emulator.Host.Word.{signed_lt}

module _ (x y : ℕ) (p : x < 2 ^ 32) (q : y < 2 ^ 32) where
  pub holds-l : holds Cond.l (compare_flags x y) ≡ signed_lt x y
  unfolding holds compare_flags
  holds-l = ground arith

  pub holds-e : holds Cond.e (compare_flags x y) ≡ (x == y)
  unfolding holds compare_flags
  holds-e = ground arith

  pub holds-ge : holds Cond.ge (compare_flags x y) ≡ not (signed_lt x y)
  unfolding holds
  holds-ge = ap not holds-l

  pub holds-ne : holds Cond.ne (compare_flags x y) ≡ not (x == y)
  unfolding holds
  holds-ne = ap not holds-e

pub not-not : (t : Bool) → t ≡ not (not t)
not-not true = refl
not-not false = refl

pub ==_comm : (x y : ℕ) → (x == y) ≡ (y == x)
==_comm x y = ground arith

-- `setcc` on the low byte, and `movzbl` of it.
pub setcc-movzbl :
    (v : ℕ) (t : Bool) → (v - v % 2 ^ 8 + (if t then 1 else 0)) % 2 ^ 8 ≡ (if t then 1 else 0)
setcc-movzbl v t = ground arith

pub bit-lt : (t : Bool) → (if t then 1 else 0) < 2 ^ 32
bit-lt t = ground arith
