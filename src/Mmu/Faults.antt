-- ===== src/Mmu/Faults.antt =====
-- Loads, stores and fetches of a paged hart.
use zelda_riscv_emulator.Base.{ℕ, ◌≡◌, ◌<◌, ◌⊎◌, true, none, some, List, test_bit}
use zelda_riscv_emulator.Region.{Region}
use zelda_riscv_emulator.Hart.{Hart, TlbEntry, level_machine, csr_satp}
use zelda_riscv_emulator.Mmu.{va_to_tlb_entry}
use zelda_riscv_emulator.Mmu.Calls.{Call, raises, calls}
use zelda_riscv_emulator.Mmu.Sv32.{sv32}
use zelda_riscv_emulator.Mmu.Buffer.{IsBuffer}

-- The hart runs below the machine with paging on, and both buffers miss an address.
pub record PagedMiss (h : Hart) (va : ℕ) : Type 0 where
  pub itlb_full : IsBuffer h.itlb h.itlb_cap
  pub dtlb_full : IsBuffer h.dtlb h.dtlb_cap
  pub below : h.privilege_level < level_machine
  pub paging : test_bit (h.csr_blob csr_satp) 31 ≡ true
  pub itlb_miss : va_to_tlb_entry h.itlb h.itlb_cap va ≡ none
  pub dtlb_miss : va_to_tlb_entry h.dtlb h.dtlb_cap va ≡ none

-- The exception with this cause is raised for the address, with the hart as it was, or a device is
-- called at the address of the tables.
abbrev pub Settles : (ℕ → ℕ) → Hart → (List TlbEntry → Hart) → ℕ → ℕ → Call → Type 0
Settles word_at h with_tlb cause va call =
    (call ≡ raises h cause va)
    ⊎ ((walked : List TlbEntry) × (pmr : Region) × (pa : ℕ) × (call
          ≡ calls (with_tlb walked) pmr pa)
        × (sv32 word_at (h.csr_blob csr_satp) va ≡ some pa))
