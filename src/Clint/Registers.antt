-- ===== src/Clint/Registers.antt =====
-- The memory mapped registers of the CLINT: what a store leaves for the next load.
use zelda_riscv_emulator.Base.{
  ℕ, ◌+◌, ◌-◌, ◌*◌, ◌/◌, ◌%◌, ◌^◌, ◌<◌, ◌≡◌, ◌==◌, if◌then◌else◌, get_or, set, arith, bit_and, u64,
  bit_or_fields, bit_and_mask, bit_or_comm, bit_and-high_mask, ◌&&◌, get_or-set, bit_and-pow,
  bit_at,
}
use zelda_riscv_emulator.Clint.{ClintState, reg_mtimecmp, with_high, with_low, read_at, write_at}
use zelda_riscv_emulator.Clint.Invariant.{IsValid, write_at-IsValid}

pub with_high_lem : (old value : ℕ) → with_high old value ≡ value % 2 ^ 32 * 2 ^ 32 + old % 2 ^ 32
unfolding with_high
with_high_lem old value = ground (
  arith,
  bit_and_mask 32 old,
  bit_or_comm (old % 2 ^ 32) (u64 (value * 2 ^ 32)),
  bit_or_fields 32 (value % 2 ^ 32) (old % 2 ^ 32) (omega arith),
)

pub with_low_lem :
    (old value : ℕ) → old < 2 ^ 64 → with_low old value ≡ old / 2 ^ 32 * 2 ^ 32 + value % 2 ^ 32
unfolding with_low
with_low_lem old value h = ground (
  arith,
  bit_and-high_mask 32 32 old (omega arith),
  bit_and_mask 32 value,
  bit_or_fields 32 (old / 2 ^ 32) (value % 2 ^ 32) (omega arith),
)

-- The offset of one 32-bit half of a comparator: `half` is 0 or 1.
abbrev pub half_offset : ℕ → ℕ → ℕ
half_offset id half = reg_mtimecmp + 8 * id + 4 * half

half_bit : (id half : ℕ) → half < 2 → bit_and (half_offset id half) 4 ≡ half * 4
half_bit id half h =
    ground (arith, bit_and-pow 2 (half_offset id half), bit_at_two (half_offset id half))
  where
    bit_at_two : (a : ℕ) → bit_at 2 a ≡ a / 4 % 2
    bit_at_two a = unfold bit_at in omega arith

half_index : (id half : ℕ) → half < 2 → (half_offset id half - reg_mtimecmp) / 8 ≡ id
half_index id half h = omega arith

module _ (c : ClintState) (id half : ℕ) (v : IsValid c) (p : id < c.nr_harts) (h : half < 2) where
  pub read_at-half :
      read_at c (half_offset id half) 4
      ≡ (if half == 0 then get_or c.mtimecmp id 0 % 2 ^ 32 else get_or c.mtimecmp id 0 / 2 ^ 32)
  unfolding read_at
  read_at-half = ground (
    arith,
    half_bit id half h,
    half_index id half h,
    bit_and_mask 32 (get_or c.mtimecmp id 0),
    v.harts_in,
  )

  pub write_at-half :
      (value : ℕ)
      → value < 2 ^ 32
      → let cmp = get_or c.mtimecmp id 0 in
        write_at c (half_offset id half) 4 value ≡ record c {
          mtimecmp =
              set c.mtimecmp id (
                if half == 0 then cmp / 2 ^ 32 * 2 ^ 32 + value else value * 2 ^ 32 + cmp % 2 ^ 32);
        }
  unfolding write_at
  write_at-half value hv = ground (
    arith,
    half_bit id half h,
    half_index id half h,
    with_high_lem (get_or c.mtimecmp id 0) value,
    with_low_lem (get_or c.mtimecmp id 0) value (v.mtimecmp_word id),
    v.harts_in,
  )

-- A 32-bit store to one half of the comparator of hart `id` is what the next load of that half
-- reads, and the loads of the other half and of every other comparator read what they did.
pub write-read_mtimecmp :
    (c : ClintState) (id half value other other_half : ℕ)
    → IsValid c
    → id < c.nr_harts
    → other < c.nr_harts
    → half < 2
    → other_half < 2
    → value < 2 ^ 32
    → let after = write_at c (half_offset id half) 4 value in
      read_at after (half_offset other other_half) 4 ≡ (
        if id == other && half == other_half
        then value
        else read_at c (half_offset other other_half) 4)
write-read_mtimecmp c id half value other other_half v p q h h' hv =
    let stored = write_at-half c id half v p h value hv in
    let after_valid = write_at-IsValid c (half_offset id half) 4 value v (omega arith) in
    rw stored (
      ground (
        arith,
        read_at-half c other other_half v q h',
        read_at-half _ other other_half (rw stored at after_valid) q h',
        get_or-set c.mtimecmp id other
            (if half == 0
              then get_or c.mtimecmp id 0 / 2 ^ 32 * 2 ^ 32 + value
              else value * 2 ^ 32 + get_or c.mtimecmp id 0 % 2 ^ 32)
            0,
        v.mtimecmp_len,
        v.harts_in,
      ))
