-- ===== src/Host/Product.antt =====
-- Products of signed words.
use zelda_riscv_emulator.Base.{
  ℕ, ◌+◌, ◌-◌, ◌*◌, ◌^◌, ◌≤◌, ◌<◌, ◌≡◌, Bool, true, false, arith, refl, u32, u64, Bool-cases, ◌⊎◌,
  inl, inr,
}
use native.Mathlib.Nat.{mul_comm}
use zelda_riscv_emulator.Host.Word.{
  negative, magnitude, signed, differ, sign_extend, magnitude-sign_extend, negative-sign_extend,
}

pub differ_comm : (s t : Bool) → differ s t ≡ differ t s
differ_comm true true = refl
differ_comm true false = refl
differ_comm false true = refl
differ_comm false false = refl

pub differ-false : (s : Bool) → differ s false ≡ s
differ-false true = refl
differ-false false = refl

pub signed_64-lt : (s : Bool) (n : ℕ) → signed (2 ^ 64) s n < 2 ^ 64
signed_64-lt true n = omega arith
signed_64-lt false n = omega arith

pub signed_32-lt : (s : Bool) (n : ℕ) → signed (2 ^ 32) s n < 2 ^ 32
signed_32-lt true n = omega arith
signed_32-lt false n = omega arith

-- The lower half of a signed product of 128 bits.
pub u64-signed : (s : Bool) (n : ℕ) → u64 (signed (2 ^ 128) s n) ≡ signed (2 ^ 64) s n
u64-signed true n = omega arith
u64-signed false n = omega arith

complement_mul : (m x y : ℕ) → x ≤ m → (m - x) * y + x * y ≡ m * y
complement_mul m x y h = grind arith

both_complements :
    (x y : ℕ)
    → x ≤ 2 ^ 32
    → y ≤ 2 ^ 32
    → (2 ^ 32 - x) * (2 ^ 32 - y) + 2 ^ 32 * x + 2 ^ 32 * y ≡ 2 ^ 64 + x * y
both_complements x y p q =
    let first = complement_mul (2 ^ 32) x (2 ^ 32 - y) p in
    let second = complement_mul (2 ^ 32) y x q in
    let turned : x * (2 ^ 32 - y) ≡ (2 ^ 32 - y) * x = mul_comm x (2 ^ 32 - y) in
    let swapped : y * x ≡ x * y = mul_comm y x in omega (arith, first, second, turned, swapped)

-- The lower word of a product does not depend on the reading of its factors.
pub u32-signed_product :
    (x y : ℕ)
    → x < 2 ^ 32
    → y < 2 ^ 32
    → u32 (
        signed
          (2 ^ 64)
          (differ (negative (2 ^ 32) x) (negative (2 ^ 32) y))
          (magnitude (2 ^ 32) x * magnitude (2 ^ 32) y))
      ≡ u32 (x * y)
u32-signed_product x y p q =
    by_signs (Bool-cases (negative (2 ^ 32) x)) (Bool-cases (negative (2 ^ 32) y))
  where
    by_signs :
        ((negative (2 ^ 32) x ≡ true) ⊎ (negative (2 ^ 32) x ≡ false))
        → ((negative (2 ^ 32) y ≡ true) ⊎ (negative (2 ^ 32) y ≡ false))
        → u32 (
            signed
              (2 ^ 64)
              (differ (negative (2 ^ 32) x) (negative (2 ^ 32) y))
              (magnitude (2 ^ 32) x * magnitude (2 ^ 32) y))
          ≡ u32 (x * y)
    by_signs (inl e) (inl f) =
        rw (e, f) (omega (arith, both_complements x y (omega arith) (omega arith)))
    by_signs (inl e) (inr f) = rw (e, f) (omega (arith, complement_mul (2 ^ 32) x y (omega arith)))
    by_signs (inr e) (inl f) =
        rw (e, f, mul_comm x (2 ^ 32 - y), mul_comm x y)
          (omega (arith, complement_mul (2 ^ 32) y x (omega arith)))
    by_signs (inr e) (inr f) = rw (e, f) (omega arith)

pub mulhsu_value :
    (x y : ℕ)
    → x < 2 ^ 32
    → y < 2 ^ 32
    → u64 (
        signed
          (2 ^ 128)
          (differ (negative (2 ^ 64) (sign_extend (2 ^ 32) (2 ^ 64) x)) (negative (2 ^ 64) y))
          (magnitude (2 ^ 64) (sign_extend (2 ^ 32) (2 ^ 64) x) * magnitude (2 ^ 64) y))
      ≡ signed (2 ^ 64) (negative (2 ^ 32) x) (magnitude (2 ^ 32) x * y)
mulhsu_value x y p q =
    let plus : negative (2 ^ 64) y ≡ false = ground arith in
    rw (magnitude-sign_extend x p, negative-sign_extend x p, plus, differ-false) (u64-signed _ _)

pub product-lt : (x y : ℕ) → x < 2 ^ 32 → y < 2 ^ 32 → x * y < 2 ^ 64
product-lt x y p q = grind arith
