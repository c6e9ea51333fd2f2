-- ===== src/Host/Divide.antt =====
-- The division instructions of the host on a sign extended and on a zero extended dividend.
use zelda_riscv_emulator.Base.{
  ℕ, ◌+◌, ◌-◌, ◌*◌, ◌/◌, ◌%◌, ◌^◌, ◌≤◌, ◌<◌, ◌≡◌, ◌≢◌, Bool, true, false, ◌==◌, ◌&&◌, leb,
  if◌then◌else◌, arith, refl, ◌∙◌, sym, Bool-cases, ==_iff, ◌⊎◌, inl, inr,
}
use native.Mathlib.Nat.{div-mul-le_self, div-le_self}
use zelda_riscv_emulator.Host.{falls, stops, divide_error, divide_signed, divide_unsigned, low}
use zelda_riscv_emulator.Host.State.{Cpu, rax, rdx, put}
use zelda_riscv_emulator.Host.Word.{
  negative, magnitude, signed, differ, sign_extend, magnitude-sign_extend, negative-sign_extend,
}

-- The one quotient of signed words that is no signed word.
abbrev pub overflows : ℕ → ℕ → Bool
overflows x y = x == 2 ^ 31 && y == 2 ^ 32 - 1

abbrev limit : ℕ → ℕ → ℕ
limit x y = if differ (negative (2 ^ 32) x) (negative (2 ^ 32) y) then 2 ^ 31 + 1 else 2 ^ 31

quotient_small : (n d : ℕ) → n ≤ 2 ^ 31 → 2 ≤ d → n / d < 2 ^ 31
quotient_small n d p q = grind (arith, div-mul-le_self n d)

leb-false : (l k : ℕ) → 2 ^ 31 ≤ l → k < 2 ^ 31 → leb l k ≡ false
leb-false l k p q = ground arith

overflow_lem :
    (x y : ℕ)
    → x < 2 ^ 32
    → y < 2 ^ 32
    → y ≢ 0
    → leb (limit x y) (magnitude (2 ^ 32) x / magnitude (2 ^ 32) y) ≡ overflows x y
overflow_lem x y p q some_y = by_size (Bool-cases (magnitude (2 ^ 32) y == 1))
  where
    by_size :
        ((magnitude (2 ^ 32) y == 1) ≡ true) ⊎ ((magnitude (2 ^ 32) y == 1) ≡ false)
        → leb (limit x y) (magnitude (2 ^ 32) x / magnitude (2 ^ 32) y) ≡ overflows x y
    by_size (inl one) =
        let unit : magnitude (2 ^ 32) y ≡ 1 = (==_iff _ _).0 one in
        rw unit (ground (arith, p, q, unit))
    by_size (inr more) =
        let large : 2 ≤ magnitude (2 ^ 32) y = ground (arith, more, q, some_y) in
        let at_most : magnitude (2 ^ 32) x ≤ 2 ^ 31 = ground (arith, p) in
        let small = quotient_small (magnitude (2 ^ 32) x) (magnitude (2 ^ 32) y) at_most large in
        let no : overflows x y ≡ false = ground (arith, large, q) in
        leb-false (limit x y) (magnitude (2 ^ 32) x / magnitude (2 ^ 32) y) (ground arith) small
        ∙ sym no

pub divide_signed_lem :
    (d : Cpu) (x y : ℕ)
    → x < 2 ^ 32
    → y < 2 ^ 32
    → y ≢ 0
    → low rdx d * 2 ^ 32 + low rax d ≡ sign_extend (2 ^ 32) (2 ^ 64) x
    → divide_signed y d ≡ (
        if overflows x y
        then stops divide_error
        else falls (
            put rdx
              (signed (2 ^ 32) (negative (2 ^ 32) x) (magnitude (2 ^ 32) x % magnitude (2 ^ 32) y))
              (put rax
                (signed
                  (2 ^ 32)
                  (differ (negative (2 ^ 32) x) (negative (2 ^ 32) y))
                  (magnitude (2 ^ 32) x / magnitude (2 ^ 32) y))
                d)))
unfolding divide_signed
divide_signed_lem d x y p q some_y e =
    let nonzero : (y == 0) ≡ false = ground arith in
    rw
      (e, magnitude-sign_extend x p, negative-sign_extend x p, nonzero, overflow_lem x y p q some_y)

pub divide_unsigned_lem :
    (d : Cpu) (x y : ℕ)
    → x < 2 ^ 32
    → y ≢ 0
    → low rdx d * 2 ^ 32 + low rax d ≡ x
    → divide_unsigned y d ≡ falls (put rdx (x % y) (put rax (x / y) d))
unfolding divide_unsigned
divide_unsigned_lem d x y p some_y e =
    let nonzero : (y == 0) ≡ false = ground arith in
    let small : leb (2 ^ 32) (x / y) ≡ false = ground (arith, div-le_self x y) in
    rw (e, nonzero, small)

pub divide_zero :
    (d : Cpu)
    → (divide_signed 0 d ≡ stops divide_error) × (divide_unsigned 0 d ≡ stops divide_error)
unfolding divide_signed divide_unsigned
divide_zero d = (refl, refl)
