-- ===== src/Clint/Invariant.antt =====
-- The widths of the state of the CLINT, and its operations.
use zelda_riscv_emulator.Base.{
  ℕ, ◌-◌, ◌*◌, ◌/◌, ◌^◌, ◌≤◌, ◌<◌, ◌≡◌, ◌∙◌, length, get_or, set, arith, bit_and, u64, bit_or-lt,
  bit_and-lt, bit_and_mask, length-set, length-replicate, AllBelow, AllBelow-set,
  AllBelow-replicate,
}
use zelda_riscv_emulator.Clint.{
  ClintState, max_nr_harts, unarmed, init, advance_time, with_high, with_low, write_msip,
  write_mtimecmp, write_mtime, write_at,
}

pub record IsValid (c : ClintState) : Type 0 where
  pub base_word : c.base < 2 ^ 32
  pub harts_in : c.nr_harts ≤ max_nr_harts
  pub mtime_word : c.mtime < 2 ^ 64
  pub mtimecmp_len : length c.mtimecmp ≡ max_nr_harts
  pub msip_len : length c.msip ≡ max_nr_harts
  pub mtimecmp_word : AllBelow (2 ^ 64) c.mtimecmp
  pub msip_bit : AllBelow 2 c.msip

with_high-lt : (old value : ℕ) → with_high old value < 2 ^ 64
unfolding with_high
with_high-lt old value =
    bit_or-lt 64 (bit_and old 0xffffffff) (u64 (value * 2 ^ 32))
      (omega (arith, bit_and_mask 32 old)) (omega arith)

with_low-lt : (old value : ℕ) → old < 2 ^ 64 → with_low old value < 2 ^ 64
unfolding with_low
with_low-lt old value h =
    bit_or-lt 64 (bit_and old (2 ^ 64 - 1 - 0xffffffff)) (bit_and value 0xffffffff)
      (bit_and-lt 64 old (2 ^ 64 - 1 - 0xffffffff) h) (omega (arith, bit_and_mask 32 value))

pub init-IsValid :
    (base size nr_harts : ℕ)
    → base < 2 ^ 32
    → nr_harts ≤ max_nr_harts
    → IsValid (init base size nr_harts)
unfolding init
init-IsValid base size nr_harts hb hn = record {
  base_word = hb;
  harts_in = hn;
  mtime_word = omega arith;
  mtimecmp_len = length-replicate {A = ℕ} 64 unarmed;
  msip_len = length-replicate {A = ℕ} 64 0;
  mtimecmp_word = AllBelow-replicate (2 ^ 64) 64 unarmed (omega arith) (omega arith);
  msip_bit = AllBelow-replicate 2 64 0 (omega arith) (omega arith);
}

pub advance_time-IsValid : (c : ClintState) (ticks : ℕ) → IsValid c → IsValid (advance_time c ticks)
unfolding advance_time
advance_time-IsValid c ticks v = record {
  base_word = v.base_word;
  harts_in = v.harts_in;
  mtime_word = omega arith;
  mtimecmp_len = v.mtimecmp_len;
  msip_len = v.msip_len;
  mtimecmp_word = v.mtimecmp_word;
  msip_bit = v.msip_bit;
}

module _ (c : ClintState) (v : IsValid c) where
  IsValid-mtime : (t : ℕ) → t < 2 ^ 64 → IsValid (record c { mtime = t })
  IsValid-mtime t h = record {
    base_word = v.base_word;
    harts_in = v.harts_in;
    mtime_word = h;
    mtimecmp_len = v.mtimecmp_len;
    msip_len = v.msip_len;
    mtimecmp_word = v.mtimecmp_word;
    msip_bit = v.msip_bit;
  }

  IsValid-mtimecmp : (id t : ℕ) → t < 2 ^ 64 → IsValid (record c { mtimecmp = set c.mtimecmp id t })
  IsValid-mtimecmp id t h = record {
    base_word = v.base_word;
    harts_in = v.harts_in;
    mtime_word = v.mtime_word;
    mtimecmp_len = length-set c.mtimecmp id t ∙ v.mtimecmp_len;
    msip_len = v.msip_len;
    mtimecmp_word = AllBelow-set (2 ^ 64) c.mtimecmp id t v.mtimecmp_word h;
    msip_bit = v.msip_bit;
  }

  IsValid-msip : (id t : ℕ) → t < 2 → IsValid (record c { msip = set c.msip id t })
  IsValid-msip id t h = record {
    base_word = v.base_word;
    harts_in = v.harts_in;
    mtime_word = v.mtime_word;
    mtimecmp_len = v.mtimecmp_len;
    msip_len = length-set c.msip id t ∙ v.msip_len;
    mtimecmp_word = v.mtimecmp_word;
    msip_bit = AllBelow-set 2 c.msip id t v.msip_bit h;
  }

write_msip-IsValid :
    (c : ClintState) (offset value : ℕ) → IsValid c → IsValid (write_msip c offset value)
unfolding write_msip
write_msip-IsValid c offset value v = ground (
  arith,
  IsValid-msip c v ((offset - 0) / 4) (bit_and value 1) (omega (arith, bit_and_mask 1 value)),
)

write_mtimecmp-IsValid :
    (c : ClintState) (offset access_size value : ℕ)
    → IsValid c
    → value < 2 ^ 64
    → IsValid (write_mtimecmp c offset access_size value)
unfolding write_mtimecmp
write_mtimecmp-IsValid c offset access_size value v h = ground (
  arith,
  IsValid-mtimecmp c v ((offset - 0x4000) / 8) value h,
  IsValid-mtimecmp c v ((offset - 0x4000) / 8) (with_high cmp value) (with_high-lt cmp value),
  IsValid-mtimecmp c v ((offset - 0x4000) / 8) (with_low cmp value)
      (with_low-lt cmp value (v.mtimecmp_word _)),
)
  where
    cmp : ℕ
    cmp = get_or c.mtimecmp ((offset - 0x4000) / 8) 0

write_mtime-IsValid :
    (c : ClintState) (access_size value : ℕ)
    → IsValid c
    → value < 2 ^ 64
    → IsValid (write_mtime c access_size value)
unfolding write_mtime
write_mtime-IsValid c access_size value v h = ground (
  arith,
  IsValid-mtime c v value h,
  IsValid-mtime c v (with_low c.mtime value) (with_low-lt c.mtime value v.mtime_word),
)

pub write_at-IsValid :
    (c : ClintState) (offset access_size value : ℕ)
    → IsValid c
    → value < 2 ^ 64
    → IsValid (write_at c offset access_size value)
unfolding write_at
write_at-IsValid c offset access_size value v h = ground (
  arith,
  write_msip-IsValid c offset value v,
  write_mtimecmp-IsValid c offset access_size value v h,
  write_mtime-IsValid c access_size value v h,
  IsValid-mtime c v (with_high c.mtime value) (with_high-lt c.mtime value),
)
