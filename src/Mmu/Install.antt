-- ===== src/Mmu/Install.antt =====
-- What an install of an entry leaves, and the word that a lookup of the walk reads.
use zelda_riscv_emulator.Base.{ℕ, ◌≡◌, true, Option, none, some, List, set, arith, refl, bit_and}
use zelda_riscv_emulator.Region.{Region}
use zelda_riscv_emulator.Region.Search.{search_pm_region_callback}
use zelda_riscv_emulator.Hart.{TlbEntry}
use zelda_riscv_emulator.Mmu.{installs, pte_at, install}

-- What an install leaves: the region of the page, and the entry in its slot.
pub record Installed (pmr_ops : List Region) (tlb walked : List TlbEntry) (slot mask pa : ℕ)
    : Type 0 where
  pub entry : TlbEntry
  pub valid : entry.entry_valid ≡ true
  pub mask_is : entry.page_mask ≡ mask
  pub pa_is : entry.pa_tag ≡ pa
  pub backed : search_pm_region_callback pmr_ops pa ≡ some (some entry.pmr)
  pub written : walked ≡ set tlb slot entry

pub install-Installed :
    (pmr_ops : List Region) (tlb walked : List TlbEntry) (slot va mask pa level1_pte level2_pte : ℕ)
    → install pmr_ops tlb slot va mask pa level1_pte level2_pte ≡ installs walked
    → Installed pmr_ops tlb walked slot mask pa
unfolding install
install-Installed pmr_ops tlb walked slot va mask pa level1_pte level2_pte e =
    by_case (search_pm_region_callback pmr_ops pa) refl
  where
    by_case :
        (found : Option (Option Region))
        → search_pm_region_callback pmr_ops pa ≡ found
        → Installed pmr_ops tlb walked slot mask pa
    by_case none f = absurd (ground (arith, f, e))
    by_case (some none) f = absurd (ground (arith, f, e))
    by_case (some (some pmr)) f = record {
      entry = record {
        page_mask = mask;
        va_tag = bit_and va mask;
        pa_tag = pa;
        entry_valid = true;
        level1_pte = level1_pte;
        level2_pte = level2_pte;
        pmr = pmr;
      };
      valid = refl;
      mask_is = refl;
      pa_is = refl;
      backed = f;
      written = ground (arith, f, e);
    }

pub pte_at-word :
    (pmr_ops : List Region) (word_at : ℕ → ℕ) (pa pte : ℕ)
    → pte_at pmr_ops word_at pa ≡ some (some pte)
    → pte ≡ word_at pa
unfolding pte_at
pte_at-word pmr_ops word_at pa pte e = ground arith
