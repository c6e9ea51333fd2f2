-- ===== src/Mmu/Sv32.antt =====
-- The Sv32 scheme of the privileged architecture, in arithmetic, against the masks of the code.
use zelda_riscv_emulator.Base.{
  ℕ, ◌+◌, ◌*◌, ◌/◌, ◌%◌, ◌^◌, ◌≡◌, Option, none, some, if◌then◌else◌, arith, test_bit, not, bit_and,
  bit_or, bit_and_mask, bit_and-high_mask, bit_or_fields, u32, not32,
}
use zelda_riscv_emulator.Mmu.{is_leaf, entry_address, page_mask_4k, page_mask_4m}

-- The address of the entry for `va` in the table at page `ppn`, by the 10 bits from `shift` on.
abbrev pub table_entry : ℕ → ℕ → ℕ → ℕ
table_entry ppn va shift = ppn % 2 ^ 20 * 2 ^ 12 + va / 2 ^ shift % 2 ^ 10 * 4

-- The physical address of `va` by the tables from satp on: a page of 4 MiB when the first entry is a
-- leaf, else one of 4 KiB. Only addresses of 32 bits are modelled.
unfoldable pub sv32 : (ℕ → ℕ) → ℕ → ℕ → Option ℕ
sv32 word_at satp va =
    let pte1 = word_at (table_entry satp va 22) in
    let pte2 = word_at (table_entry (pte1 / 2 ^ 10) va 12) in
    if not (test_bit pte1 0)
    then none
    else if is_leaf pte1
    then some (pte1 / 2 ^ 20 % 2 ^ 10 * 2 ^ 22 + va % 2 ^ 22)
    else if not (test_bit pte2 0)
    then none
    else some (pte2 / 2 ^ 10 % 2 ^ 20 * 2 ^ 12 + va % 2 ^ 12)

pub entry_address-root :
    (satp va : ℕ) → entry_address (u32 (satp * 2 ^ 12)) va 22 ≡ table_entry satp va 22
entry_address-root satp va = ground (arith, bit_and_mask 10 (va / 2 ^ 22))

pub entry_address-leaf :
    (pte va : ℕ)
    → entry_address (u32 (pte / 2 ^ 10 * 2 ^ 12)) va 12 ≡ table_entry (pte / 2 ^ 10) va 12
entry_address-leaf pte va = ground (arith, bit_and_mask 10 (va / 2 ^ 12))

pub physical_4k :
    (pte va : ℕ)
    → bit_or (bit_and (u32 (pte / 2 ^ 10 * 2 ^ 12)) page_mask_4k) (bit_and va (not32 page_mask_4k))
      ≡ pte / 2 ^ 10 % 2 ^ 20 * 2 ^ 12 + va % 2 ^ 12
physical_4k pte va = ground (
  arith,
  bit_and_mask 12 va,
  bit_and-high_mask 12 20 (u32 (pte / 2 ^ 10 * 2 ^ 12)),
  bit_or_fields 12 (u32 (pte / 2 ^ 10 * 2 ^ 12) / 2 ^ 12) (va % 2 ^ 12),
)

pub physical_4m :
    (pte va : ℕ)
    → bit_or (bit_and (u32 (pte / 2 ^ 10 * 2 ^ 12)) page_mask_4m) (bit_and va (not32 page_mask_4m))
      ≡ pte / 2 ^ 20 % 2 ^ 10 * 2 ^ 22 + va % 2 ^ 22
physical_4m pte va = ground (
  arith,
  bit_and_mask 22 va,
  bit_and-high_mask 22 10 (u32 (pte / 2 ^ 10 * 2 ^ 12)),
  bit_or_fields 22 (u32 (pte / 2 ^ 10 * 2 ^ 12) / 2 ^ 22) (va % 2 ^ 22),
)
