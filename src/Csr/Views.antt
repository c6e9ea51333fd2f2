-- ===== src/Csr/Views.antt =====
-- What the guest reads back from the status registers, and which fields a supervisor can reach.
use zelda_riscv_emulator.Base.{
  ℕ, zero, suc, ◌<◌, ◌≡◌, ◌*◌, ◌/◌, ◌%◌, ◌^◌, Bool, true, false, ◌&&◌, ◌||◌, ◌==◌, arith, refl, ap,
  ◌∙◌, bit_and, bit_or, test_bit, test_bit-and, test_bit-or, test_bit-pow, test_bit-zero,
  bit_and_mask, test_bit-bit_at, bit_at,
}
use native.Mathlib.Nat.{div-div-eq-div-mul, pow-suc}
use zelda_riscv_emulator.Hart.{Status}
use zelda_riscv_emulator.Csr.{at_bit, mstatus_read, mstatus_write, sstatus_read, sstatus_write}

pub test_bit-at_bit : (b : Bool) (k j : ℕ) → test_bit (at_bit b k) j ≡ ((k == j) && b)
test_bit-at_bit true k j = ground (arith, test_bit-pow k j)
test_bit-at_bit false k j = ground (arith, test_bit-zero j)

-- The two fields of `mstatus` with more than a Boolean in them.
spp_bit : (spp : ℕ) → spp < 2 → spp * 2 ^ 8 ≡ at_bit (spp == 1) 8
spp_bit spp small = ground arith

mpp_bits :
    (mpp : ℕ)
    → mpp < 4
    → mpp * 2 ^ 11 ≡ bit_or (at_bit (test_bit mpp 0) 11) (at_bit (test_bit mpp 1) 12)
unfolding test_bit
mpp_bits zero small = refl
mpp_bits (suc zero) small = refl
mpp_bits (suc (suc zero)) small = refl
mpp_bits (suc (suc (suc zero))) small = refl
mpp_bits (suc (suc (suc (suc mpp)))) small = absurd (omega arith)

pub record FieldsFit (s : Status) : Type 0 where
  pub spp_fits : s.spp < 2
  pub mpp_fits : s.mpp < 4

test_bit-mstatus_read :
    (s : Status) (k : ℕ)
    → FieldsFit s
    → test_bit (mstatus_read s) k ≡ (
        (((((((((0 == k) && s.uie) || ((1 == k) && s.sie)) || ((3 == k) && s.mie))
                  || ((4 == k) && s.upie))
                || ((5 == k) && s.spie))
              || ((7 == k) && s.mpie))
            || ((8 == k) && (s.spp == 1)))
          || (((11 == k) && test_bit s.mpp 0) || ((12 == k) && test_bit s.mpp 1))))
unfolding mstatus_read
test_bit-mstatus_read s k f =
    simp (spp_bit s.spp f.spp_fits, mpp_bits s.mpp f.mpp_fits, test_bit-or, test_bit-at_bit)

test_bit-sstatus_read :
    (s : Status) (k : ℕ)
    → FieldsFit s
    → test_bit (sstatus_read s) k ≡ (
        (((((0 == k) && s.uie) || ((1 == k) && s.sie)) || ((4 == k) && s.upie))
          || ((5 == k) && s.spie))
        || ((8 == k) && (s.spp == 1)))
unfolding sstatus_read
test_bit-sstatus_read s k f = simp (spp_bit s.spp f.spp_fits, test_bit-or, test_bit-at_bit)

-- The bits of the masks that the table gives mstatus and sstatus.
test_bit-mstatus_mask :
    (k : ℕ)
    → test_bit 0x19aa k ≡ (
        ((((((1 == k) || (3 == k)) || (5 == k)) || (7 == k)) || (8 == k)) || (11 == k))
        || (12 == k))
test_bit-mstatus_mask k = ap (λ w. test_bit w k) powers ∙ simp (test_bit-or, test_bit-pow)
  where
    powers :
        0x19aa
        ≡ bit_or
            (bit_or
              (bit_or (bit_or (bit_or (bit_or (2 ^ 1) (2 ^ 3)) (2 ^ 5)) (2 ^ 7)) (2 ^ 8))
              (2 ^ 11))
            (2 ^ 12)
    powers = refl

test_bit-sstatus_mask :
    (k : ℕ) → test_bit 0x133 k ≡ (((((0 == k) || (1 == k)) || (4 == k)) || (5 == k)) || (8 == k))
test_bit-sstatus_mask k = ap (λ w. test_bit w k) powers ∙ simp (test_bit-or, test_bit-pow)
  where
    powers : 0x133 ≡ bit_or (bit_or (bit_or (bit_or (2 ^ 0) (2 ^ 1)) (2 ^ 4)) (2 ^ 5)) (2 ^ 8)
    powers = refl

-- For fields within their widths, sstatus is mstatus seen through the mask of the supervisor's
-- fields, bit by bit.
pub sstatus_read-mstatus_read :
    (s : Status) (k : ℕ)
    → FieldsFit s
    → test_bit (sstatus_read s) k ≡ test_bit (bit_and (mstatus_read s) 0x133) k
sstatus_read-mstatus_read s k f = ground (
  arith,
  test_bit-sstatus_read s k f,
  test_bit-mstatus_read s k f,
  test_bit-sstatus_mask k,
  test_bit-and (mstatus_read s) 0x133 k,
)

pub mstatus_write-FieldsFit : (s : Status) (value : ℕ) → FieldsFit (mstatus_write s value)
unfolding mstatus_write
mstatus_write-FieldsFit s value = record {
  spp_fits = rw (bit_and_mask 1 (value / 2 ^ 8)) (omega arith);
  mpp_fits = rw (bit_and_mask 2 (value / 2 ^ 11)) (omega arith);
}

bit_at-div : (k a : ℕ) → bit_at k a ≡ a / 2 ^ k % 2
unfolding bit_at
bit_at-div zero a = ground arith
bit_at-div (suc k) a =
    bit_at-div k (a / 2)
    ∙ ap (λ q. q % 2)
        (div-div-eq-div-mul a 2 (2 ^ k) ∙ ap (λ d. a / d) (omega (arith, pow-suc 2 k)))

-- The fields that a write of mstatus or sstatus takes out of the value.
spp_written : (value : ℕ) → (bit_and (value / 2 ^ 8) 0x1 == 1) ≡ test_bit value 8
spp_written value =
    ground (arith, bit_and_mask 1 (value / 2 ^ 8), test_bit-bit_at value 8, bit_at-div 8 value)

mpp_written :
    (value : ℕ)
    → (test_bit (bit_and (value / 2 ^ 11) 0x3) 0 ≡ test_bit value 11)
      × (test_bit (bit_and (value / 2 ^ 11) 0x3) 1 ≡ test_bit value 12)
mpp_written value = (
  ground (
    arith,
    bit_and_mask 2 (value / 2 ^ 11),
    test_bit-bit_at value 11,
    bit_at-div 11 value,
    test_bit-bit_at (bit_and (value / 2 ^ 11) 0x3) 0,
    bit_at-div 0 (bit_and (value / 2 ^ 11) 0x3),
  ),
  ground (
    arith,
    bit_and_mask 2 (value / 2 ^ 11),
    test_bit-bit_at value 12,
    bit_at-div 12 value,
    test_bit-bit_at (bit_and (value / 2 ^ 11) 0x3) 1,
    bit_at-div 1 (bit_and (value / 2 ^ 11) 0x3),
  ),
)

-- Reading mstatus after a write gives back, through the mask of the table, the bits written.
pub mstatus_read-mstatus_write :
    (s : Status) (value k : ℕ)
    → test_bit (bit_and (mstatus_read (mstatus_write s value)) 0x19aa) k
      ≡ test_bit (bit_and value 0x19aa) k
mstatus_read-mstatus_write s value k = ground (
  arith,
  test_bit-and (mstatus_read (mstatus_write s value)) 0x19aa k,
  test_bit-and value 0x19aa k,
  test_bit-mstatus_mask k,
  written,
)
  where
    written : test_bit (mstatus_read (mstatus_write s value)) k ≡ (
        (((((((((0 == k) && test_bit value 0) || ((1 == k) && test_bit value 1))
                    || ((3 == k) && test_bit value 3))
                  || ((4 == k) && test_bit value 4))
                || ((5 == k) && test_bit value 5))
              || ((7 == k) && test_bit value 7))
            || ((8 == k) && test_bit value 8))
          || (((11 == k) && test_bit value 11) || ((12 == k) && test_bit value 12))))
    written =
        unfold mstatus_write in
        (test_bit-mstatus_read (mstatus_write s value) k (mstatus_write-FieldsFit s value)
          ∙ simp (spp_written value, (mpp_written value).0, (mpp_written value).1))

sstatus_write-FieldsFit : (s : Status) (value : ℕ) → FieldsFit s → FieldsFit (sstatus_write s value)
unfolding sstatus_write
sstatus_write-FieldsFit s value f = record {
  spp_fits = rw (bit_and_mask 1 (value / 2 ^ 8)) (omega arith);
  mpp_fits = f.mpp_fits;
}

sstatus_written :
    (s : Status) (value k : ℕ)
    → FieldsFit s
    → test_bit (sstatus_read (sstatus_write s value)) k ≡ (
        (((((0 == k) && test_bit value 0) || ((1 == k) && test_bit value 1))
            || ((4 == k) && test_bit value 4))
          || ((5 == k) && test_bit value 5))
        || ((8 == k) && test_bit value 8))
unfolding sstatus_write
sstatus_written s value k f =
    test_bit-sstatus_read (sstatus_write s value) k (sstatus_write-FieldsFit s value f)
    ∙ simp (spp_written value)

-- For fields within their widths, a supervisor's write of sstatus reaches no field of the machine,
-- and reading sstatus after it gives back, through the mask of the table, the bits written.
pub sstatus_write-Isolated :
    (s : Status) (value : ℕ)
    → FieldsFit s
    → ((sstatus_write s value).mie ≡ s.mie)
      × ((sstatus_write s value).mpie ≡ s.mpie)
      × ((sstatus_write s value).mpp ≡ s.mpp)
      × ((k : ℕ)
          → test_bit (bit_and (sstatus_read (sstatus_write s value)) 0x133) k
            ≡ test_bit (bit_and value 0x133) k)
sstatus_write-Isolated s value f = (
  unfold sstatus_write in refl,
  unfold sstatus_write in refl,
  unfold sstatus_write in refl,
  λ k. ground (
    arith,
    test_bit-and (sstatus_read (sstatus_write s value)) 0x133 k,
    test_bit-and value 0x133 k,
    test_bit-sstatus_mask k,
    sstatus_written s value k f,
  ),
)
