-- ===== src/Emit/SignExtend.antt =====
-- vmm/util.h: the sign extension of immediates.
use zelda_riscv_emulator.Base.{
  ℕ, zero, suc, true, false, ltb, ◌⊎◌, inl, inr, Bool-cases, ◌+◌, ◌-◌, ◌*◌, ◌/◌, ◌^◌, ◌≤◌, ◌<◌, ◌≡◌,
  arith, refl, ap, ltb→lt, ◌%◌, ◌∙◌, u32, bit_and, bit_or, bit_or-zero, bit_or_comm, bit_or_fields,
  bit_or_step, pow-lt, bit_and_mask, bit_and_mask,
}
use native.Mathlib.Nat.{
  mod-eq_of_lt, pow-le-pow_right, div-eq_of_lt, div-eq_of_lt-le, pow-suc, zero-mul, one-mul,
}
use zelda_riscv_emulator.Host.Word.{sign_extend}

-- The loop from `bit_position` on, `left` rounds.
unfoldable pub extend_loop : ℕ → ℕ → ℕ → ℕ → ℕ
extend_loop zero bit_position sign ret = ret
extend_loop (suc left) bit_position sign ret =
    extend_loop left (bit_position + 1) sign (bit_or ret (u32 (sign * 2 ^ bit_position)))

unfoldable pub sign_extend32 : ℕ → ℕ → ℕ
unfolding extend_loop
sign_extend32 bits sign_bit =
    extend_loop (32 - sign_bit) sign_bit (bit_and (bits / 2 ^ sign_bit) 1) bits

zeros_lem : (left pos ret : ℕ) → extend_loop left pos 0 ret ≡ ret
unfolding extend_loop
zeros_lem zero pos ret = refl
zeros_lem (suc left) pos ret = rw (zero-mul, bit_or-zero) (zeros_lem left (pos + 1) ret)

add_one : (n : ℕ) → n + 1 ≡ suc n
add_one n = omega arith

ones_lem :
    (left pos ret : ℕ)
    → ret < 2 ^ pos
    → pos + left ≡ 32
    → extend_loop left pos 1 ret + 2 ^ pos ≡ ret + 2 ^ 32
unfolding extend_loop
ones_lem zero pos ret small e = let p : pos ≡ 32 = omega arith in rw p refl
ones_lem (suc left) pos ret small e =
    let set : bit_or ret (u32 (1 * 2 ^ pos)) ≡ 2 ^ pos + ret =
      rw (one-mul (2 ^ pos), mod-eq_of_lt (pow-lt pos (omega arith)), bit_or_comm)
        (rw one-mul at (bit_or_fields pos 1 ret small)) in
    let double = pow-suc 2 pos in
    let next = ones_lem left (suc pos) (2 ^ pos + ret) (omega arith) (omega arith) in
    rw (set, add_one pos) (omega (arith, next, double))

top_lem : (k rest : ℕ) → rest < 2 ^ k → bit_or (2 ^ k + rest) (2 ^ k) ≡ 2 ^ k + rest
top_lem zero zero small = refl
top_lem zero (suc rest) small = absurd (omega arith)
top_lem (suc k) rest small =
    let half = top_lem k (rest / 2) (omega (arith, pow-suc 2 k)) in
    ground (arith, half, pow-suc 2 k, bit_or_step (2 ^ suc k + rest) (2 ^ suc k))

pub sign_extend32_lem :
    (bits sign_bit : ℕ)
    → sign_bit < 32
    → bits < 2 ^ suc sign_bit
    → sign_extend32 bits sign_bit ≡ sign_extend (2 ^ suc sign_bit) (2 ^ 32) bits
unfolding sign_extend32 extend_loop
sign_extend32_lem bits sign_bit small fits = by_sign (Bool-cases (ltb bits (2 ^ sign_bit)))
  where
    double : 2 ^ suc sign_bit ≡ 2 * 2 ^ sign_bit
    double = omega (arith, pow-suc 2 sign_bit)

    by_sign :
        ((ltb bits (2 ^ sign_bit) ≡ true) ⊎ (ltb bits (2 ^ sign_bit) ≡ false))
        → sign_extend32 bits sign_bit ≡ sign_extend (2 ^ suc sign_bit) (2 ^ 32) bits
    by_sign (inl plus) =
        let clear : bit_and (bits / 2 ^ sign_bit) 1 ≡ 0 =
          bit_and_mask 1 (bits / 2 ^ sign_bit)
          ∙ ap (λ (t : ℕ). t % 2) (div-eq_of_lt (ltb→lt _ _ plus)) in
        rw (clear, zeros_lem) (ground (arith, double))
    by_sign (inr minus) =
        let at_most : 2 ^ sign_bit ≤ bits = ground arith in
        let quotient : bits / 2 ^ sign_bit ≡ 1 =
          div-eq_of_lt-le (2 ^ sign_bit) {m = bits} (omega arith) (omega (arith, double)) in
        let set : bit_and (bits / 2 ^ sign_bit) 1 ≡ 1 =
          bit_and_mask 1 (bits / 2 ^ sign_bit) ∙ ap (λ (t : ℕ). t % 2) quotient in
        let rounds : 32 - sign_bit ≡ suc (31 - sign_bit) = omega arith in
        let kept : bit_or bits (u32 (1 * 2 ^ sign_bit)) ≡ bits =
          rw (one-mul, mod-eq_of_lt (pow-lt sign_bit small))
            (ground (arith, top_lem sign_bit (bits - 2 ^ sign_bit) (omega (arith, double)))) in
        let ones = ones_lem (31 - sign_bit) (suc sign_bit) bits fits (omega arith) in
        let in_range : 2 ^ suc sign_bit ≤ 2 ^ 32 =
          pow-le-pow_right {n = 2} (omega arith) {i = suc sign_bit} {j = 32} (omega arith) in
        rw (set, rounds, extend_loop, kept, add_one sign_bit)
          (ground (arith, double, ones, in_range))
