-- ===== src/Mmu/Total.antt =====
-- The walk on a map of disjoint regions.
use zelda_riscv_emulator.Base.{
  ℕ, ◌-◌, ◌*◌, ◌/◌, ◌^◌, ◌<◌, ◌≡◌, ◌≢◌, inl, inr, true, Option, none, some, List, arith, refl, ap,
  ◌∙◌, sym, u32, bit_and, bit_and-high_mask, test_bit,
}
use zelda_riscv_emulator.Region.{Region}
use zelda_riscv_emulator.Region.Search.{search_pm_region_callback}
use zelda_riscv_emulator.Region.Map.{IsMap, search_pm_region_callback-Covers}
use zelda_riscv_emulator.Hart.{TlbEntry}
use zelda_riscv_emulator.Mmu.{
  slot_4k, slot_4m, walk_asserts, pte_at, install, walk_level2, walk_page_table, entry_address,
  page_mask_4k, page_mask_4m,
}
use zelda_riscv_emulator.Mmu.Sv32.{table_entry, entry_address-root, entry_address-leaf}

search_total :
    (pmr_ops : List Region) (pa : ℕ)
    → IsMap pmr_ops
    → pa < 2 ^ 32 - 1
    → search_pm_region_callback pmr_ops pa ≢ none
search_total pmr_ops pa m small refused =
    elim (search_pm_region_callback-Covers pmr_ops pa m small) [
      | inl (r, e, c) ↦ ground (arith, refused, e)
      | inr (e, c) ↦ ground (arith, refused, e)
    ]

pte_at_total :
    (pmr_ops : List Region) (word_at : ℕ → ℕ) (ppn va shift : ℕ)
    → IsMap pmr_ops
    → pte_at pmr_ops word_at (table_entry ppn va shift) ≢ none
unfolding pte_at
pte_at_total pmr_ops word_at ppn va shift m refused =
    ground (arith, search_total pmr_ops (table_entry ppn va shift) m (omega arith))

install_total :
    (pmr_ops : List Region) (tlb : List TlbEntry) (slot va mask pa level1_pte level2_pte : ℕ)
    → IsMap pmr_ops
    → pa < 2 ^ 32 - 1
    → install pmr_ops tlb slot va mask pa level1_pte level2_pte ≢ walk_asserts
unfolding install
install_total pmr_ops tlb slot va mask pa level1_pte level2_pte m small refused =
    ground (arith, search_total pmr_ops pa m small)

page-lt :
    (w : ℕ)
    → (bit_and (u32 w) page_mask_4k < 2 ^ 32 - 1) × (bit_and (u32 w) page_mask_4m < 2 ^ 32 - 1)
page-lt w = (
  ground (arith, bit_and-high_mask 12 20 (u32 w)),
  ground (arith, bit_and-high_mask 22 10 (u32 w)),
)

walk_level2_total :
    (pmr_ops : List Region) (word_at : ℕ → ℕ) (va : ℕ) (tlb : List TlbEntry)
    (tlb_cap address pte : ℕ)
    → IsMap pmr_ops
    → walk_level2 pmr_ops word_at va tlb tlb_cap address pte ≢ walk_asserts
unfolding walk_level2
walk_level2_total pmr_ops word_at va tlb tlb_cap address pte m refused =
    by_case (pte_at pmr_ops word_at leaf) refl
  where
    leaf : ℕ
    leaf = entry_address (u32 (pte / 2 ^ 10 * 2 ^ 12)) va 12

    by_case : (read : Option (Option ℕ)) → pte_at pmr_ops word_at leaf ≡ read → ⊥
    by_case none e =
        pte_at_total pmr_ops word_at (pte / 2 ^ 10) va 12 m
          (ap (pte_at pmr_ops word_at) (sym (entry_address-leaf pte va)) ∙ e)
    by_case (some none) e = ground (arith, e, refused)
    by_case (some (some found)) e = ground (
      arith,
      e,
      refused,
      install_total pmr_ops tlb (slot_4k tlb_cap va) va page_mask_4k
          (bit_and (u32 (found / 2 ^ 10 * 2 ^ 12)) page_mask_4k) address leaf m
          (page-lt (found / 2 ^ 10 * 2 ^ 12)).0,
    )

pub walk_page_table_total :
    (pmr_ops : List Region) (word_at : ℕ → ℕ) (satp va : ℕ) (tlb : List TlbEntry) (tlb_cap : ℕ)
    → IsMap pmr_ops
    → test_bit satp 31 ≡ true
    → walk_page_table pmr_ops word_at satp va tlb tlb_cap ≢ walk_asserts
unfolding walk_page_table
walk_page_table_total pmr_ops word_at satp va tlb tlb_cap m on refused =
    by_case (pte_at pmr_ops word_at root) refl
  where
    root : ℕ
    root = entry_address (u32 (satp * 2 ^ 12)) va 22

    by_case : (read : Option (Option ℕ)) → pte_at pmr_ops word_at root ≡ read → ⊥
    by_case none e =
        pte_at_total pmr_ops word_at satp va 22 m
          (ap (pte_at pmr_ops word_at) (sym (entry_address-root satp va)) ∙ e)
    by_case (some none) e = ground (arith, e, refused, on)
    by_case (some (some found)) e = ground (
      arith,
      e,
      refused,
      on,
      walk_level2_total pmr_ops word_at va tlb tlb_cap root found m,
      install_total pmr_ops tlb (slot_4m tlb_cap va) va page_mask_4m
          (bit_and (u32 (found / 2 ^ 10 * 2 ^ 12)) page_mask_4m) root 0 m
          (page-lt (found / 2 ^ 10 * 2 ^ 12)).1,
    )
