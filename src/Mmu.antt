-- ===== src/Mmu.antt =====
-- vmm/mmu_tlb.h, vmm/mmu_pagewalker.c, vmm/mmu.h and vmm/mmu.c: address translation. The words of
-- main memory that a page table walk reads through host pointers are an argument.
mod Tests
pub mod Calls
pub mod Sv32
pub mod Install
pub mod Walk
pub mod Total
pub mod Buffer
pub mod Flush
pub mod Faults
use zelda_riscv_emulator.Base.{
  ℕ, ◌+◌, ◌*◌, ◌/◌, ◌^◌, Bool, true, false, not, ◌&&◌, ◌||◌, ◌==◌, ltb, if◌then◌else◌, Option, none,
  some, List, get_or, set, bit_and, bit_or, u32, sub32, not32, test_bit,
}
use zelda_riscv_emulator.Region.{Region, Device, has_direct}
use zelda_riscv_emulator.Region.Search.{search_pm_region_callback}
use zelda_riscv_emulator.Hart.{Hart, TlbEntry, level_machine, csr_satp}

abbrev pub page_mask_4k : ℕ
page_mask_4k = 0xfffff000

abbrev pub page_mask_4m : ℕ
page_mask_4m = 0xffc00000

-- What stands beyond the array; the index of an entry is below a capacity that is a power of two.
abbrev pub no_entry : TlbEntry
no_entry = record {
  va_tag = 0;
  pa_tag = 0;
  page_mask = 0;
  entry_valid = false;
  level1_pte = 0;
  level2_pte = 0;
  pmr = record { addr_low = 0; addr_high = 0; device = Device.ram };
}

-- VA_TO_4K_TLB_ENTRY and VA_TO_4M_TLB_ENTRY, as the index of the entry.
unfoldable pub slot_4k : ℕ → ℕ → ℕ
slot_4k tlb_cap va = bit_and (va / 2 ^ 12) (sub32 tlb_cap 1)

unfoldable pub slot_4m : ℕ → ℕ → ℕ
slot_4m tlb_cap va = bit_and (va / 2 ^ 22) (sub32 tlb_cap 1)

-- VA_TO_TLB_ENTRY.
unfoldable pub va_to_tlb_entry : List TlbEntry → ℕ → ℕ → Option TlbEntry
va_to_tlb_entry tlb tlb_cap va =
    let entry_4k : TlbEntry = get_or tlb (slot_4k tlb_cap va) no_entry in
    let entry_4m : TlbEntry = get_or tlb (slot_4m tlb_cap va) no_entry in
    if entry_4k.entry_valid
    then some entry_4k
    else if entry_4m.entry_valid
    then some entry_4m
    else none

-- How a walk ends: an assertion fails, it returns a negative value, or it installs an entry.
pub data Walked : Type 0 where
  walk_asserts walk_fails : Walked
  installs : List TlbEntry → Walked

-- `pte_at`: an assertion failing, a null pointer, or the entry's value.
unfoldable pub pte_at : List Region → (ℕ → ℕ) → ℕ → Option (Option ℕ)
pte_at pmr_ops word_at pa = elim (search_pm_region_callback pmr_ops pa) [
  | none ↦ none
  | some none ↦ some none
  | some (some pmr) ↦ some (if has_direct pmr.device then some (word_at pa) else none)
]

-- The end of a walk: the page at `pa` must be backed, and its entry goes to a slot.
unfoldable pub install : List Region → List TlbEntry → ℕ → ℕ → ℕ → ℕ → ℕ → ℕ → Walked
install pmr_ops tlb slot va mask pa level1_pte level2_pte =
    elim (search_pm_region_callback pmr_ops pa) [
      | none ↦ walk_asserts
      | some none ↦ walk_fails
      | some (some pmr) ↦ installs (
          set tlb slot (record {
            page_mask = mask;
            va_tag = bit_and va mask;
            pa_tag = pa;
            entry_valid = true;
            level1_pte = level1_pte;
            level2_pte = level2_pte;
            pmr = pmr;
          }))
    ]

-- `pte->read || pte->write || pte->execute`.
abbrev pub is_leaf : ℕ → Bool
is_leaf pte = (test_bit pte 1 || test_bit pte 2) || test_bit pte 3

-- The address of an entry in a table.
abbrev pub entry_address : ℕ → ℕ → ℕ → ℕ
entry_address base va shift = u32 (base + bit_and (va / 2 ^ shift) 0x3ff * 4)

-- The leaf table, whose base the first entry holds.
unfoldable pub walk_level2 : List Region → (ℕ → ℕ) → ℕ → List TlbEntry → ℕ → ℕ → ℕ → Walked
unfolding install
walk_level2 pmr_ops word_at va tlb tlb_cap level1_address level1_pte =
    let level2_address = entry_address (u32 (level1_pte / 2 ^ 10 * 2 ^ 12)) va 12 in
    elim (pte_at pmr_ops word_at level2_address) [
      | none ↦ walk_asserts
      | some none ↦ walk_fails
      | some (some pte) ↦
          if test_bit pte 0
          then install pmr_ops tlb (slot_4k tlb_cap va) va page_mask_4k
              (bit_and (u32 (pte / 2 ^ 10 * 2 ^ 12)) page_mask_4k) level1_address level2_address
          else walk_fails
    ]

unfoldable pub walk_page_table : List Region → (ℕ → ℕ) → ℕ → ℕ → List TlbEntry → ℕ → Walked
unfolding install walk_level2
walk_page_table pmr_ops word_at satp va tlb tlb_cap =
    let level1_address = entry_address (u32 (satp * 2 ^ 12)) va 22 in
    if test_bit satp 31
    then elim (pte_at pmr_ops word_at level1_address) [
      | none ↦ walk_asserts
      | some none ↦ walk_fails
      | some (some pte) ↦
          if not (test_bit pte 0)
          then walk_fails
          else if is_leaf pte
          then install pmr_ops tlb (slot_4m tlb_cap va) va page_mask_4m
              (bit_and (u32 (pte / 2 ^ 10 * 2 ^ 12)) page_mask_4m) level1_address 0
          else walk_level2 pmr_ops word_at va tlb tlb_cap level1_address pte
    ]
    else walk_asserts

-- What an access comes to: an assertion fails, a page fault is raised, or the device of a region is
-- called with a physical address, with the lookaside buffer as it is then.
pub data Access : Type 0 where
  access_asserts : Access
  page_fault : List TlbEntry → Access
  reaches : List TlbEntry → Region → ℕ → Access

-- `entry->pa_tag | (va & ~entry->page_mask)`.
abbrev pub physical_address : TlbEntry → ℕ → ℕ
physical_address entry va = bit_or entry.pa_tag (bit_and va (not32 entry.page_mask))

-- The second lookup, after a walk.
abbrev pub after_walk : List TlbEntry → ℕ → ℕ → Access
after_walk tlb tlb_cap va = elim (va_to_tlb_entry tlb tlb_cap va) [
  | none ↦ page_fault tlb
  | some entry ↦ reaches tlb entry.pmr (physical_address entry va)
]

-- The paged branch of `vmread`, `vmwrite` and `mmu_instruction_read32`, which share it.
unfoldable pub access_paged : List Region → (ℕ → ℕ) → ℕ → List TlbEntry → ℕ → ℕ → Access
unfolding walk_page_table
access_paged pmr_ops word_at satp tlb tlb_cap va = elim (va_to_tlb_entry tlb tlb_cap va) [
  | some entry ↦ reaches tlb entry.pmr (physical_address entry va)
  | none ↦ elim (walk_page_table pmr_ops word_at satp va tlb tlb_cap) [
    | walk_asserts ↦ access_asserts
    | walk_fails ↦ after_walk tlb tlb_cap va
    | installs walked ↦ after_walk walked tlb_cap va
  ]
]

-- `direct_read` and `direct_write`: no region is an assertion failing.
unfoldable pub access_direct : List Region → List TlbEntry → ℕ → Access
access_direct pmr_ops tlb pa = elim (search_pm_region_callback pmr_ops pa) [
  | none ↦ access_asserts
  | some none ↦ access_asserts
  | some (some pmr) ↦ reaches tlb pmr pa
]

-- The address half of `vmread` and `vmwrite` (`tlb` is the data buffer) and of
-- `mmu_instruction_read32` (the instruction buffer).
unfoldable pub access : List Region → (ℕ → ℕ) → Hart → List TlbEntry → ℕ → ℕ → Access
unfolding access_paged access_direct
access pmr_ops word_at h tlb tlb_cap va =
    let satp = h.csr_blob csr_satp in
    if ltb h.privilege_level level_machine && test_bit satp 31
    then access_paged pmr_ops word_at satp tlb tlb_cap va
    else access_direct pmr_ops tlb va
