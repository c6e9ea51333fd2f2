-- ===== src/Base/BitLaws.antt =====
-- Laws of the bitwise operations at every bit, from the recursion on binary digits.
use Prim.Native.Nat.{
  ℕ, zero, suc, ◌+◌, ◌-◌, ◌*◌, ◌/◌, ◌%◌, ◌^◌, ◌≤◌, ◌<◌, min, max, bit_and, bit_or, digits, bitwise,
  bit_and-bitwise, bit_or-bitwise,
}
use mathlib.Core.Path.{◌≡◌, refl, sym, ap, ◌∙◌}
use native.Mathlib.Nat.{le_refl, add-zero, mod-eq_of_lt, pow-suc, one-le-pow}
use native.Mathlib.Omega.{arith}
use zelda_riscv_emulator.Base.Tests.{◌==◌, if◌then◌else◌}
use zelda_riscv_emulator.Base.Bits.{bit_at}

-- `digits` on a first argument of 0 does not look at its fuel.
digits-zero : (lone : ℕ → ℕ) (join : ℕ → ℕ → ℕ) (fuel y : ℕ) → digits lone join fuel zero y ≡ lone y
digits-zero lone join zero y = refl
digits-zero lone join (suc fuel) y = refl

-- Any fuel from the first argument on gives what that argument gives as fuel.
digits-bitwise :
    (lone : ℕ → ℕ) (join : ℕ → ℕ → ℕ) (bound x y fuel : ℕ)
    → x ≤ bound
    → x ≤ fuel
    → digits lone join fuel x y ≡ bitwise lone join x y
digits-bitwise lone join bound zero y fuel below enough = digits-zero lone join fuel y
digits-bitwise lone join zero (suc x) y fuel below enough = absurd (omega arith)
digits-bitwise lone join (suc bound) (suc x) y zero below enough = absurd (omega arith)
digits-bitwise lone join (suc bound) (suc x) y (suc fuel) below enough =
    let half = digits-bitwise lone join bound (suc x / 2) (y / 2) in
    ap (λ (high : ℕ). high * 2 + join (suc x % 2) (y % 2))
      (half fuel (omega arith) (omega arith) ∙ sym (half x (omega arith) (omega arith)))

-- The lowest digit and the rest.
pub bitwise_step :
    (lone : ℕ → ℕ) (join : ℕ → ℕ → ℕ) (x y : ℕ)
    → bitwise lone join (suc x) y
      ≡ bitwise lone join (suc x / 2) (y / 2) * 2 + join (suc x % 2) (y % 2)
bitwise_step lone join x y =
    ap (λ (high : ℕ). high * 2 + join (suc x % 2) (y % 2))
      (digits-bitwise lone join x (suc x / 2) (y / 2) x (omega arith) (omega arith))

pub bit_or_step : (x y : ℕ) → bit_or x y ≡ bit_or (x / 2) (y / 2) * 2 + max (x % 2) (y % 2)
bit_or_step zero y = simp bit_or-bitwise (omega arith)
bit_or_step (suc x) y = simp bit_or-bitwise (bitwise_step (λ w. w) max x y)

pub bit_and_step : (x y : ℕ) → bit_and x y ≡ bit_and (x / 2) (y / 2) * 2 + min (x % 2) (y % 2)
bit_and_step zero y = simp bit_and-bitwise (omega arith)
bit_and_step (suc x) y = simp bit_and-bitwise (bitwise_step (λ w. 0) min x y)

pub bit_at-lt : (k a : ℕ) → bit_at k a < 2
unfolding bit_at
bit_at-lt zero a = omega arith
bit_at-lt (suc k) a = bit_at-lt k (a / 2)

pub bit_at-and : (k a b : ℕ) → bit_at k (bit_and a b) ≡ min (bit_at k a) (bit_at k b)
unfolding bit_at
bit_at-and zero a b = omega (arith, bit_and_step a b)
bit_at-and (suc k) a b =
    ap (bit_at k) (omega (arith, bit_and_step a b)) ∙ bit_at-and k (a / 2) (b / 2)

pub bit_at-or : (k a b : ℕ) → bit_at k (bit_or a b) ≡ max (bit_at k a) (bit_at k b)
unfolding bit_at
bit_at-or zero a b = omega (arith, bit_or_step a b)
bit_at-or (suc k) a b = ap (bit_at k) (omega (arith, bit_or_step a b)) ∙ bit_at-or k (a / 2) (b / 2)

pub bit_at-zero : (k : ℕ) → bit_at k 0 ≡ 0
unfolding bit_at
bit_at-zero zero = refl
bit_at-zero (suc k) = bit_at-zero k

pub bit_at-pow : (k s : ℕ) → bit_at k (2 ^ s) ≡ (if s == k then 1 else 0)
unfolding bit_at
bit_at-pow zero zero = refl
bit_at-pow zero (suc s) = ground (arith, pow-suc 2 s)
bit_at-pow (suc k) zero = bit_at-zero k ∙ ground arith
bit_at-pow (suc k) (suc s) =
    ap (bit_at k) (omega (arith, pow-suc 2 s)) ∙ bit_at-pow k s ∙ ground arith

-- The digits below `w` of the complement on `w` bits.
pub bit_at-complement : (w k a : ℕ) → k < w → a < 2 ^ w → bit_at k (2 ^ w - 1 - a) ≡ 1 - bit_at k a
unfolding bit_at
bit_at-complement zero k a h p = absurd (omega arith)
bit_at-complement (suc w) zero a h p = omega (arith, pow-suc 2 w)
bit_at-complement (suc w) (suc k) a h p =
    ap (bit_at k) (omega (arith, pow-suc 2 w))
    ∙ bit_at-complement w k (a / 2) (omega arith) (omega (arith, pow-suc 2 w))

zero_right : (bound x : ℕ) → x ≤ bound → (bit_and x 0 ≡ 0) × (bit_or x 0 ≡ x)
zero_right bound zero below = (refl, refl)
zero_right zero (suc x) below = absurd (omega arith)
zero_right (suc bound) (suc x) below =
    let (cut, kept) = zero_right bound (suc x / 2) (omega arith) in
    (omega (arith, cut, bit_and_step (suc x) 0), omega (arith, kept, bit_or_step (suc x) 0))

pub bit_and-zero : (x : ℕ) → bit_and x 0 ≡ 0
bit_and-zero x = (zero_right x x (le_refl x)).0

pub bit_or-zero : (x : ℕ) → bit_or x 0 ≡ x
bit_or-zero x = (zero_right x x (le_refl x)).1

pub bit_and-pow : (k a : ℕ) → bit_and a (2 ^ k) ≡ bit_at k a * 2 ^ k
unfolding bit_at
bit_and-pow zero a = omega (arith, bit_and_step a 1, bit_and-zero (a / 2))
bit_and-pow (suc k) a = ground (
  arith,
  bit_and_step a (2 ^ suc k),
  pow-suc 2 k,
  bit_and-pow k (a / 2),
  ap (λ (t : ℕ). bit_at k (a / 2) * t) (pow-suc 2 k),
)

low_fields : (k high low : ℕ) → low < 2 ^ k → bit_and (high * 2 ^ k + low) (2 ^ k - 1) ≡ low
low_fields zero high low fits = rw bit_and-zero (omega arith)
low_fields (suc k) high low fits =
    let half = low_fields k high (low / 2) (omega (arith, pow-suc 2 k)) in
    ground (
      arith,
      half,
      pow-suc 2 k,
      ap (λ (t : ℕ). high * t) (pow-suc 2 k),
      bit_and_step (high * 2 ^ suc k + low) (2 ^ suc k - 1),
    )

-- A mask of `k` low bits is the remainder by `2 ^ k`.
pub bit_and_mask : (k x : ℕ) → bit_and x (2 ^ k - 1) ≡ x % 2 ^ k
bit_and_mask k x = ground (arith, low_fields k (x / 2 ^ k) (x % 2 ^ k), one-le-pow k 2)

-- A sum is an `or` where the low part fits below the high part.
pub bit_or_fields : (k high low : ℕ) → low < 2 ^ k → bit_or (high * 2 ^ k) low ≡ high * 2 ^ k + low
bit_or_fields zero high low fits = ground (arith, bit_or-zero high)
bit_or_fields (suc k) high low fits =
    let half = bit_or_fields k high (low / 2) (omega (arith, pow-suc 2 k)) in
    ground (arith, half, ap (λ (t : ℕ). high * t) (pow-suc 2 k), bit_or_step (high * 2 ^ suc k) low)

-- An `and` with a mask that spares the `k` low bits.
pub bit_and-shift :
    (k q r m : ℕ) → r < 2 ^ k → bit_and (q * 2 ^ k + r) (m * 2 ^ k) ≡ bit_and q m * 2 ^ k
bit_and-shift zero q r m fits = ground (arith, add-zero q)
bit_and-shift (suc k) q r m fits = ground (
  arith,
  bit_and_step (q * 2 ^ suc k + r) (m * 2 ^ suc k),
  ap (λ (t : ℕ). q * t) (pow-suc 2 k),
  ap (λ (t : ℕ). m * t) (pow-suc 2 k),
  ap (λ (t : ℕ). bit_and q m * t) (pow-suc 2 k),
  pow-suc 2 k,
  bit_and-shift k q (r / 2) m (omega (arith, pow-suc 2 k)),
)

bit_or_comm_fuel : (n a b : ℕ) → a ≤ n → b ≤ n → bit_or a b ≡ bit_or b a
bit_or_comm_fuel zero zero zero p q = refl
bit_or_comm_fuel zero zero (suc b) p q = absurd (omega arith)
bit_or_comm_fuel zero (suc a) b p q = absurd (omega arith)
bit_or_comm_fuel (suc n) a b p q = omega (
  arith,
  bit_or_step a b,
  bit_or_step b a,
  bit_or_comm_fuel n (a / 2) (b / 2) (omega arith) (omega arith),
)

pub bit_or_comm : (a b : ℕ) → bit_or a b ≡ bit_or b a
bit_or_comm a b = bit_or_comm_fuel (a + b) a b (omega arith) (omega arith)

div-lt : (a m d : ℕ) → a < m * d → 0 < d → a / d < m
div-lt a m d h p = grind arith

-- A mask that spares the `k` low bits and keeps `n` bits above them.
pub bit_and-high_mask :
    (k n a : ℕ) → a < 2 ^ n * 2 ^ k → bit_and a ((2 ^ n - 1) * 2 ^ k) ≡ a / 2 ^ k * 2 ^ k
bit_and-high_mask k n a h =
    ap (λ (t : ℕ). bit_and t ((2 ^ n - 1) * 2 ^ k)) split
    ∙ bit_and-shift k (a / 2 ^ k) (a % 2 ^ k) (2 ^ n - 1) (omega (arith, one-le-pow k 2))
    ∙ ap (λ (t : ℕ). t * 2 ^ k) (bit_and_mask n (a / 2 ^ k) ∙ mod-eq_of_lt high)
  where
    split : a ≡ a / 2 ^ k * 2 ^ k + a % 2 ^ k
    split = omega (arith, one-le-pow k 2)

    high : a / 2 ^ k < 2 ^ n
    high = div-lt a (2 ^ n) (2 ^ k) h (one-le-pow k 2 (omega arith))

pub bit_or-lt : (k a b : ℕ) → a < 2 ^ k → b < 2 ^ k → bit_or a b < 2 ^ k
bit_or-lt zero zero zero p q = omega arith
bit_or-lt zero zero (suc b) p q = absurd (omega arith)
bit_or-lt zero (suc a) b p q = absurd (omega arith)
bit_or-lt (suc k) a b p q = ground (
  arith,
  pow-suc 2 k,
  bit_or_step a b,
  bit_or-lt k (a / 2) (b / 2) (omega (arith, pow-suc 2 k)) (omega (arith, pow-suc 2 k)),
)

pub bit_and-lt : (k a b : ℕ) → a < 2 ^ k → bit_and a b < 2 ^ k
bit_and-lt zero zero b p = omega (arith, bit_and_step 0 b, bit_and-bitwise 0 b)
bit_and-lt zero (suc a) b p = absurd (omega arith)
bit_and-lt (suc k) a b p = ground (
  arith,
  pow-suc 2 k,
  bit_and_step a b,
  bit_and-lt k (a / 2) (b / 2) (omega (arith, pow-suc 2 k)),
)

-- Words of `w` bits with the same digits are equal.
pub bit_at_ext :
    (w a b : ℕ) → a < 2 ^ w → b < 2 ^ w → ((k : ℕ) → k < w → bit_at k a ≡ bit_at k b) → a ≡ b
unfolding bit_at
bit_at_ext zero a b p q h = omega arith
bit_at_ext (suc w) a b p q h = omega (
  arith,
  h 0 (omega arith),
  bit_at_ext w (a / 2) (b / 2) (omega (arith, pow-suc 2 w)) (omega (arith, pow-suc 2 w))
      (λ k hk. h (suc k) (omega arith)),
)
