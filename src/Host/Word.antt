-- ===== src/Host/Word.antt =====
-- Signed readings of machine words, shared by the two instruction sets.
use zelda_riscv_emulator.Base.{
  ℕ, ◌+◌, ◌-◌, ◌/◌, ◌%◌, ◌^◌, ◌≤◌, ◌<◌, ◌≡◌, Bool, ltb, leb, not, if◌then◌else◌, arith, u32, not32,
}

-- The sign of a word modulo `m`, and the size of the integer that it stands for.
abbrev pub negative : ℕ → ℕ → Bool
negative m x = leb (m / 2) x

abbrev pub magnitude : ℕ → ℕ → ℕ
magnitude m x = if negative m x then m - x else x

-- The word modulo `m` of the integer with this sign and this size.
abbrev pub signed : ℕ → Bool → ℕ → ℕ
signed m sign n = if sign then (m - n % m) % m else n % m

abbrev pub differ : Bool → Bool → Bool
differ a b = if a then not b else b

-- Words of 8, 16 and 32 bits, read as signed and written modulo `m`.
abbrev pub sign_extend : ℕ → ℕ → ℕ → ℕ
sign_extend from m x = if negative from x then m - from + x else x

-- `x >> n` on `int32_t`.
unfoldable pub sar32 : ℕ → ℕ → ℕ
sar32 x n = if negative (2 ^ 32) x then not32 (not32 x / 2 ^ n) else x / 2 ^ n

-- Less than on integers: adding 2 ^ 31 turns the signed order into the unsigned one.
abbrev pub signed_lt : ℕ → ℕ → Bool
signed_lt a b = ltb (u32 (a + 2 ^ 31)) (u32 (b + 2 ^ 31))

pub div-le : (x d : ℕ) → x / d ≤ x
div-le x d = grind arith

pub sar32-lt : (x n : ℕ) → x < 2 ^ 32 → sar32 x n < 2 ^ 32
unfolding sar32
sar32-lt x n h = ground (arith, div-le x (2 ^ n))

pub sign_extend-lt : (x : ℕ) → x < 2 ^ 32 → sign_extend (2 ^ 32) (2 ^ 64) x < 2 ^ 64
sign_extend-lt x h = ground arith

pub magnitude-sign_extend :
    (x : ℕ)
    → x < 2 ^ 32
    → magnitude (2 ^ 64) (sign_extend (2 ^ 32) (2 ^ 64) x) ≡ magnitude (2 ^ 32) x
magnitude-sign_extend x h = ground arith

pub negative-sign_extend :
    (x : ℕ) → x < 2 ^ 32 → negative (2 ^ 64) (sign_extend (2 ^ 32) (2 ^ 64) x) ≡ negative (2 ^ 32) x
negative-sign_extend x h = ground arith
