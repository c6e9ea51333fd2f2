-- ===== src/Mmu/Walk.antt =====
-- The walk of the page table with a lookup after it.
use zelda_riscv_emulator.Base.{
  ℕ, ◌*◌, ◌/◌, ◌^◌, ◌≡◌, Bool-cases, inl, inr, true, false, Option, none, some, List, arith, refl,
  if◌then◌else◌, test_bit, bit_and, u32, ap, not32, not,
}
use zelda_riscv_emulator.Region.{Region}
use zelda_riscv_emulator.Region.Search.{search_pm_region_callback}
use zelda_riscv_emulator.Hart.{TlbEntry}
use zelda_riscv_emulator.Mmu.{
  slot_4k, slot_4m, va_to_tlb_entry, Walked, walk_fails, installs, pte_at, install, is_leaf,
  entry_address, walk_level2, walk_page_table, physical_address, page_mask_4k, page_mask_4m,
}
use zelda_riscv_emulator.Mmu.Sv32.{
  table_entry, sv32, entry_address-root, entry_address-leaf, physical_4k, physical_4m,
}
use zelda_riscv_emulator.Mmu.Buffer.{IsBuffer, lookup-set_4k, lookup-set_4m}
use zelda_riscv_emulator.Mmu.Install.{Installed, install-Installed, pte_at-word}

-- The two entries that a walk reads.
abbrev level1_pte_of : (ℕ → ℕ) → ℕ → ℕ → ℕ
level1_pte_of word_at satp va = word_at (table_entry satp va 22)

abbrev level2_pte_of : (ℕ → ℕ) → ℕ → ℕ → ℕ
level2_pte_of word_at satp va = word_at (table_entry (level1_pte_of word_at satp va / 2 ^ 10) va 12)

-- What the two lookups of the walk go on with, once an entry has been read.
root_step : List Region → (ℕ → ℕ) → ℕ → List TlbEntry → ℕ → ℕ → ℕ → Walked
root_step pmr_ops word_at va tlb tlb_cap address pte =
    if not (test_bit pte 0)
    then walk_fails
    else if is_leaf pte
    then install pmr_ops tlb (slot_4m tlb_cap va) va page_mask_4m
        (bit_and (u32 (pte / 2 ^ 10 * 2 ^ 12)) page_mask_4m) address 0
    else walk_level2 pmr_ops word_at va tlb tlb_cap address pte

leaf_step : List Region → ℕ → List TlbEntry → ℕ → ℕ → ℕ → ℕ → Walked
leaf_step pmr_ops va tlb tlb_cap root address pte =
    if test_bit pte 0
    then install pmr_ops tlb (slot_4k tlb_cap va) va page_mask_4k
        (bit_and (u32 (pte / 2 ^ 10 * 2 ^ 12)) page_mask_4k) root address
    else walk_fails

module _ (pmr_ops : List Region) (word_at : ℕ → ℕ) (satp va : ℕ) (tlb walked : List TlbEntry)
    (tlb_cap : ℕ) where
  walk-root_step :
      walk_page_table pmr_ops word_at satp va tlb tlb_cap ≡ installs walked
      → root_step pmr_ops word_at va tlb tlb_cap
          (table_entry satp va 22)
          (level1_pte_of word_at satp va)
        ≡ installs walked
  unfolding walk_page_table root_step
  walk-root_step e = by_case (pte_at pmr_ops word_at (table_entry satp va 22)) refl
    where
      root : entry_address (u32 (satp * 2 ^ 12)) va 22 ≡ table_entry satp va 22
      root = entry_address-root satp va

      by_case :
          (read : Option (Option ℕ))
          → pte_at pmr_ops word_at (table_entry satp va 22) ≡ read
          → root_step pmr_ops word_at va tlb tlb_cap
              (table_entry satp va 22)
              (level1_pte_of word_at satp va)
            ≡ installs walked
      by_case none f = absurd (ground (arith, f, e, root))
      by_case (some none) f = absurd (ground (arith, f, e, root))
      by_case (some (some pte)) f =
          ground (arith, f, e, root, pte_at-word pmr_ops word_at (table_entry satp va 22) pte f)

  walk-leaf_step :
      (address pte : ℕ)
      → walk_level2 pmr_ops word_at va tlb tlb_cap address pte ≡ installs walked
      → leaf_step pmr_ops va tlb tlb_cap address
          (table_entry (pte / 2 ^ 10) va 12)
          (word_at (table_entry (pte / 2 ^ 10) va 12))
        ≡ installs walked
  unfolding walk_level2 leaf_step
  walk-leaf_step address pte e =
      by_case (pte_at pmr_ops word_at (table_entry (pte / 2 ^ 10) va 12)) refl
    where
      leaf : entry_address (u32 (pte / 2 ^ 10 * 2 ^ 12)) va 12 ≡ table_entry (pte / 2 ^ 10) va 12
      leaf = entry_address-leaf pte va

      by_case :
          (read : Option (Option ℕ))
          → pte_at pmr_ops word_at (table_entry (pte / 2 ^ 10) va 12) ≡ read
          → leaf_step pmr_ops va tlb tlb_cap address
              (table_entry (pte / 2 ^ 10) va 12)
              (word_at (table_entry (pte / 2 ^ 10) va 12))
            ≡ installs walked
      by_case none f = absurd (ground (arith, f, e, leaf))
      by_case (some none) f = absurd (ground (arith, f, e, leaf))
      by_case (some (some found)) f = ground (
        arith,
        f,
        e,
        leaf,
        pte_at-word pmr_ops word_at (table_entry (pte / 2 ^ 10) va 12) found f,
      )

-- The buffer maps an address: a lookup finds an entry, whose physical address is that of the tables
-- and whose region is the one that backs the page.
pub record Maps (pmr_ops : List Region) (word_at : ℕ → ℕ) (satp va : ℕ) (walked : List TlbEntry)
    (tlb_cap : ℕ) : Type 0 where
  pub entry : TlbEntry
  pub found : va_to_tlb_entry walked tlb_cap va ≡ some entry
  pub address : sv32 word_at satp va ≡ some (physical_address entry va)
  pub backed : search_pm_region_callback pmr_ops entry.pa_tag ≡ some (some entry.pmr)

module _ (pmr_ops : List Region) (word_at : ℕ → ℕ) (satp va : ℕ) (tlb walked : List TlbEntry)
    (tlb_cap : ℕ) (b : IsBuffer tlb tlb_cap) where
  Maps-4m :
      test_bit (level1_pte_of word_at satp va) 0 ≡ true
      → is_leaf (level1_pte_of word_at satp va) ≡ true
      → va_to_tlb_entry tlb tlb_cap va ≡ none
      → Installed pmr_ops tlb walked
          (slot_4m tlb_cap va)
          page_mask_4m
          (bit_and (u32 (level1_pte_of word_at satp va / 2 ^ 10 * 2 ^ 12)) page_mask_4m)
      → Maps pmr_ops word_at satp va walked tlb_cap
  Maps-4m valid leaf miss i = record {
    entry = i.entry;
    found = rw i.written (lookup-set_4m tlb tlb_cap va i.entry b i.valid miss);
    address =
        unfold sv32 in
        ground (
          arith,
          valid,
          leaf,
          i.pa_is,
          i.mask_is,
          physical_4m (level1_pte_of word_at satp va) va,
          ap (λ m. bit_and va (not32 m)) i.mask_is,
        );
    backed = rw i.pa_is i.backed;
  }

  Maps-4k :
      test_bit (level1_pte_of word_at satp va) 0 ≡ true
      → is_leaf (level1_pte_of word_at satp va) ≡ false
      → test_bit (level2_pte_of word_at satp va) 0 ≡ true
      → Installed pmr_ops tlb walked
          (slot_4k tlb_cap va)
          page_mask_4k
          (bit_and (u32 ((level2_pte_of word_at satp va) / 2 ^ 10 * 2 ^ 12)) page_mask_4k)
      → Maps pmr_ops word_at satp va walked tlb_cap
  Maps-4k valid leaf valid' i = record {
    entry = i.entry;
    found = rw i.written (lookup-set_4k tlb tlb_cap va i.entry b i.valid);
    address =
        unfold sv32 in
        ground (
          arith,
          valid,
          leaf,
          valid',
          i.pa_is,
          i.mask_is,
          physical_4k (level2_pte_of word_at satp va) va,
          ap (λ m. bit_and va (not32 m)) i.mask_is,
        );
    backed = rw i.pa_is i.backed;
  }

  pub walk_page_table-Maps :
      va_to_tlb_entry tlb tlb_cap va ≡ none
      → walk_page_table pmr_ops word_at satp va tlb tlb_cap ≡ installs walked
      → Maps pmr_ops word_at satp va walked tlb_cap
  walk_page_table-Maps miss e =
      from_root (walk-root_step pmr_ops word_at satp va tlb walked tlb_cap e)
    where
      from_leaf :
          test_bit (level1_pte_of word_at satp va) 0 ≡ true
          → is_leaf (level1_pte_of word_at satp va) ≡ false
          → leaf_step pmr_ops va tlb tlb_cap
              (table_entry satp va 22)
              (table_entry (level1_pte_of word_at satp va / 2 ^ 10) va 12)
              (level2_pte_of word_at satp va)
            ≡ installs walked
          → Maps pmr_ops word_at satp va walked tlb_cap
      from_leaf valid leaf step = elim (Bool-cases (test_bit (level2_pte_of word_at satp va) 0)) [
        | inl valid' ↦ Maps-4k valid leaf valid' (
            install-Installed pmr_ops tlb walked (slot_4k tlb_cap va) va page_mask_4k
              (bit_and (u32 (level2_pte_of word_at satp va / 2 ^ 10 * 2 ^ 12)) page_mask_4k)
              (table_entry satp va 22) (table_entry (level1_pte_of word_at satp va / 2 ^ 10) va 12)
              (unfold leaf_step in ground (arith, step, valid')))
        | inr dead ↦ absurd (unfold leaf_step in ground (arith, step, dead))
      ]

      from_root :
          root_step pmr_ops word_at va tlb tlb_cap
              (table_entry satp va 22)
              (level1_pte_of word_at satp va)
            ≡ installs walked
          → Maps pmr_ops word_at satp va walked tlb_cap
      from_root step = elim (Bool-cases (test_bit (level1_pte_of word_at satp va) 0)) [
        | inl valid ↦ elim (Bool-cases (is_leaf (level1_pte_of word_at satp va))) [
          | inl leaf ↦ Maps-4m valid leaf miss (
              install-Installed pmr_ops tlb walked (slot_4m tlb_cap va) va page_mask_4m
                (bit_and (u32 (level1_pte_of word_at satp va / 2 ^ 10 * 2 ^ 12)) page_mask_4m)
                (table_entry satp va 22) 0 (unfold root_step in ground (arith, step, valid, leaf)))
          | inr table ↦ from_leaf valid table (
              walk-leaf_step pmr_ops word_at satp va tlb walked tlb_cap (table_entry satp va 22)
                (level1_pte_of word_at satp va)
                (unfold root_step in ground (arith, step, valid, table)))
        ]
        | inr dead ↦ absurd (unfold root_step in ground (arith, step, dead))
      ]
