-- ===== src/Csr/Lines.antt =====
-- What the guest reads and writes of the interrupt enables and the pending interrupts.
use zelda_riscv_emulator.Base.{
  ℕ, ◌<◌, ◌≡◌, ◌^◌, ◌&&◌, ◌||◌, ◌==◌, if◌then◌else◌, arith, refl, ap, ◌∙◌, bit_and, bit_or, not32,
  test_bit, test_bit-and, test_bit-or, test_bit-pow, test_bit-not32, test_bit-assign_bit,
  assign_bit,
}
use zelda_riscv_emulator.Csr.{mip_write, sie_read, sie_write, sip_read, sip_write}
use zelda_riscv_emulator.Csr.Views.{test_bit-at_bit}

test_bit-machine_lines : (k : ℕ) → test_bit 0x888 k ≡ (((3 == k) || (7 == k)) || (11 == k))
test_bit-machine_lines k = ap (λ w. test_bit w k) powers ∙ simp (test_bit-or, test_bit-pow)
  where
    powers : 0x888 ≡ bit_or (bit_or (2 ^ 3) (2 ^ 7)) (2 ^ 11)
    powers = refl

-- For the 32 bits of a word: a write of mip keeps MSIP, MTIP and MEIP, which belong to the devices,
-- and sets every other bit as written; a write of sip changes SSIP alone; a write of sie changes
-- the enables of the three supervisor interrupts alone.
pub interrupt_writes-Isolated :
    (old value k : ℕ)
    → k < 32
    → (test_bit (mip_write old value) k
        ≡ (if ((3 == k) || (7 == k)) || (11 == k) then test_bit old k else test_bit value k))
      × (test_bit (sip_write old value) k ≡ (if 1 == k then test_bit value 1 else test_bit old k))
      × (test_bit (sie_write old value) k
          ≡ (if ((1 == k) || (5 == k)) || (9 == k) then test_bit value k else test_bit old k))
unfolding mip_write sip_write sie_write
interrupt_writes-Isolated old value k small = (
  ground (
    arith,
    test_bit-or (bit_and value (not32 0x888)) (bit_and old 0x888) k,
    test_bit-and value (not32 0x888) k,
    test_bit-and old 0x888 k,
    test_bit-not32 0x888 k small,
    test_bit-machine_lines k,
  ),
  ground (arith, test_bit-assign_bit old 1 k (test_bit value 1)),
  ground (
    arith,
    test_bit-assign_bit (assign_bit (assign_bit old 1 (test_bit value 1)) 5 (test_bit value 5)) 9 k
        (test_bit value 9),
    test_bit-assign_bit (assign_bit old 1 (test_bit value 1)) 5 k (test_bit value 5),
    test_bit-assign_bit old 1 k (test_bit value 1),
    ap (test_bit value),
  ),
)

test_bit-supervisor_lines : (k : ℕ) → test_bit 0x222 k ≡ (((1 == k) || (5 == k)) || (9 == k))
test_bit-supervisor_lines k = ap (λ w. test_bit w k) powers ∙ simp (test_bit-or, test_bit-pow)
  where
    powers : 0x222 ≡ bit_or (bit_or (2 ^ 1) (2 ^ 5)) (2 ^ 9)
    powers = refl

test_bit-sie_read :
    (word k : ℕ)
    → test_bit (sie_read word) k
      ≡ ((((((0 == k) && test_bit word 0) || ((1 == k) && test_bit word 1))
              || ((4 == k) && test_bit word 4))
            || ((5 == k) && test_bit word 5))
          || ((8 == k) && test_bit word 8))
        || ((9 == k) && test_bit word 9)
unfolding sie_read
test_bit-sie_read word k = simp (test_bit-or, test_bit-at_bit)

test_bit-sip_read :
    (word k : ℕ)
    → test_bit (sip_read word) k
      ≡ (((1 == k) && test_bit word 1) || ((5 == k) && test_bit word 5))
        || ((9 == k) && test_bit word 9)
unfolding sip_read
test_bit-sip_read word k = simp (test_bit-or, test_bit-at_bit)

-- What a supervisor reads in sie, through the mask of the table, are the enables of mie for its
-- three interrupts, and what it reads in sip are the pending bits of mip for them.
pub supervisor_views :
    (word k : ℕ)
    → (test_bit (bit_and (sie_read word) 0x222) k ≡ test_bit (bit_and word 0x222) k)
      × (test_bit (sip_read word) k ≡ test_bit (bit_and word 0x222) k)
supervisor_views word k = (
  ground (
    arith,
    test_bit-and (sie_read word) 0x222 k,
    test_bit-and word 0x222 k,
    test_bit-supervisor_lines k,
    test_bit-sie_read word k,
    ap (test_bit word),
  ),
  ground (
    arith,
    test_bit-and word 0x222 k,
    test_bit-supervisor_lines k,
    test_bit-sip_read word k,
    ap (test_bit word),
  ),
)
