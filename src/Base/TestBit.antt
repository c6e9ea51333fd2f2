-- ===== src/Base/TestBit.antt =====
-- Laws of the tests and assignments of one bit.
use Prim.Native.Nat.{ℕ, ◌^◌, ◌<◌, bit_and, bit_or}
use mathlib.Core.Path.{◌≡◌}
use mathlib.Core.Bool.{Bool, true, false, not, ◌&&◌, ◌||◌}
use native.Mathlib.Nat.{one-le-pow, pow-le-pow_right}
use native.Mathlib.Omega.{arith}
use zelda_riscv_emulator.Base.Tests.{◌==◌, if◌then◌else◌}
use zelda_riscv_emulator.Base.Bits.{bit_at, test_bit, set_bit, clear_bit, not32, assign_bit}
use zelda_riscv_emulator.Base.BitLaws.{
  bit_at-lt, bit_at-and, bit_at-or, bit_at-zero, bit_at-pow, bit_at-complement, bit_and-pow,
  bit_or-lt, bit_and-lt, bit_at_ext,
}

pub test_bit-bit_at : (w k : ℕ) → test_bit w k ≡ (bit_at k w == 1)
unfolding test_bit
test_bit-bit_at w k = ground (arith, bit_and-pow k w, bit_at-lt k w, one-le-pow k 2)

pub test_bit-and : (a b k : ℕ) → test_bit (bit_and a b) k ≡ (test_bit a k && test_bit b k)
test_bit-and a b k = ground (
  arith,
  test_bit-bit_at (bit_and a b) k,
  test_bit-bit_at a k,
  test_bit-bit_at b k,
  bit_at-and k a b,
  bit_at-lt k a,
  bit_at-lt k b,
)

pub test_bit-or : (a b k : ℕ) → test_bit (bit_or a b) k ≡ (test_bit a k || test_bit b k)
test_bit-or a b k = ground (
  arith,
  test_bit-bit_at (bit_or a b) k,
  test_bit-bit_at a k,
  test_bit-bit_at b k,
  bit_at-or k a b,
  bit_at-lt k a,
  bit_at-lt k b,
)

pub test_bit-pow : (s k : ℕ) → test_bit (2 ^ s) k ≡ (s == k)
test_bit-pow s k = ground (arith, test_bit-bit_at (2 ^ s) k, bit_at-pow k s)

pub test_bit-not32 : (a k : ℕ) → k < 32 → a < 2 ^ 32 → test_bit (not32 a) k ≡ not (test_bit a k)
test_bit-not32 a k h p = ground (
  arith,
  test_bit-bit_at (not32 a) k,
  test_bit-bit_at a k,
  bit_at-complement 32 k a h p,
  bit_at-lt k a,
)

pub test_bit-zero : (k : ℕ) → test_bit 0 k ≡ false
test_bit-zero k = ground (arith, test_bit-bit_at 0 k, bit_at-zero k)

pub pow-lt : (k : ℕ) → k < 32 → 2 ^ k < 2 ^ 32
pow-lt k h = omega (arith, pow-le-pow_right {n = 2} (omega arith) {i = k} {j = 31} (omega arith))

pub test_bit-set_bit :
    (w s k : ℕ) → test_bit (set_bit w s) k ≡ (if s == k then true else test_bit w k)
unfolding set_bit
test_bit-set_bit w s k = ground (arith, test_bit-or w (2 ^ s) k, test_bit-pow s k)

pub test_bit-clear_bit :
    (w s k : ℕ)
    → s < 32
    → k < 32
    → test_bit (clear_bit w s) k ≡ (if s == k then false else test_bit w k)
unfolding clear_bit
test_bit-clear_bit w s k hs hk = ground (
  arith,
  test_bit-and w (not32 (2 ^ s)) k,
  test_bit-not32 (2 ^ s) k hk (pow-lt s hs),
  test_bit-pow s k,
)

pub test_bit-assign_bit :
    (w s k : ℕ) (b : Bool)
    → s < 32
    → k < 32
    → test_bit (assign_bit w s b) k ≡ (if s == k then b else test_bit w k)
unfolding assign_bit
test_bit-assign_bit w s k true hs hk = test_bit-set_bit w s k
test_bit-assign_bit w s k false hs hk = test_bit-clear_bit w s k hs hk

pub set_bit-lt : (w s : ℕ) → s < 32 → w < 2 ^ 32 → set_bit w s < 2 ^ 32
unfolding set_bit
set_bit-lt w s hs hw = bit_or-lt 32 w (2 ^ s) hw (pow-lt s hs)

pub clear_bit-lt : (w s : ℕ) → w < 2 ^ 32 → clear_bit w s < 2 ^ 32
unfolding clear_bit
clear_bit-lt w s hw = bit_and-lt 32 w (not32 (2 ^ s)) hw

pub assign_bit-lt : (w s : ℕ) (b : Bool) → s < 32 → w < 2 ^ 32 → assign_bit w s b < 2 ^ 32
unfolding assign_bit
assign_bit-lt w s true hs hw = set_bit-lt w s hs hw
assign_bit-lt w s false hs hw = clear_bit-lt w s hw

-- Words of 32 bits with the same bits are equal.
pub test_bit_ext :
    (a b : ℕ) → a < 2 ^ 32 → b < 2 ^ 32 → ((k : ℕ) → k < 32 → test_bit a k ≡ test_bit b k) → a ≡ b
test_bit_ext a b p q h = bit_at_ext 32 a b p q λ k hk.
    ground (arith, h k hk, test_bit-bit_at a k, test_bit-bit_at b k, bit_at-lt k a, bit_at-lt k b)
