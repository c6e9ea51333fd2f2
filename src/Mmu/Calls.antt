-- ===== src/Mmu/Calls.antt =====
-- vmm/mmu.h and vmm/mmu.c: the memory accesses of an instruction, up to the call of the device.
use zelda_riscv_emulator.Base.{ℕ, ◌==◌, if◌then◌else◌, List, bit_and}
use zelda_riscv_emulator.Region.{Region}
use zelda_riscv_emulator.Hart.{Hart, TlbEntry}
use zelda_riscv_emulator.Mmu.{Access, access_asserts, page_fault, reaches, access}

-- What an access does: an assertion fails, an exception with a cause and a trap value is raised, or
-- the read or write function of a region is called with a physical address.
pub data Call : Type 0 where
  call_asserts : Call
  raises : Hart → ℕ → ℕ → Call
  calls : Hart → Region → ℕ → Call

-- A page fault raises the exception of the kind of access.
abbrev pub settle_access : (List TlbEntry → Hart) → ℕ → ℕ → Access → Call
settle_access with_tlb cause va access_asserts = call_asserts
settle_access with_tlb cause va (page_fault tlb) = raises (with_tlb tlb) cause va
settle_access with_tlb cause va (reaches tlb pmr pa) = calls (with_tlb tlb) pmr pa

abbrev pub with_dtlb : Hart → List TlbEntry → Hart
with_dtlb h tlb = record h { dtlb = tlb }

abbrev pub with_itlb : Hart → List TlbEntry → Hart
with_itlb h tlb = record h { itlb = tlb }

-- EXCEPTION_LOAD_PAGE_FAULT, of any size.
unfoldable pub vmread : List Region → (ℕ → ℕ) → Hart → ℕ → Call
vmread pmr_ops word_at h va =
    settle_access (with_dtlb h) 0xd va (access pmr_ops word_at h h.dtlb h.dtlb_cap va)

-- EXCEPTION_STORE_PAGE_FAULT, of any size.
unfoldable pub vmwrite : List Region → (ℕ → ℕ) → Hart → ℕ → Call
vmwrite pmr_ops word_at h va =
    settle_access (with_dtlb h) 0xf va (access pmr_ops word_at h h.dtlb h.dtlb_cap va)

-- EXCEPTION_INSTRUCTION_PAGE_FAULT.
unfoldable pub mmu_instruction_read32 : List Region → (ℕ → ℕ) → Hart → ℕ → Call
mmu_instruction_read32 pmr_ops word_at h va =
    settle_access (with_itlb h) 0xc va (access pmr_ops word_at h h.itlb h.itlb_cap va)

-- Both raise EXCEPTION_LOAD_ADDRESS_MISALIGN, the store too.
unfoldable pub mmu_read32_aligned : List Region → (ℕ → ℕ) → Hart → ℕ → Call
mmu_read32_aligned pmr_ops word_at h location =
    if bit_and location 0x3 == 0 then vmread pmr_ops word_at h location else raises h 0x4 location

unfoldable pub mmu_write32_aligned : List Region → (ℕ → ℕ) → Hart → ℕ → Call
mmu_write32_aligned pmr_ops word_at h location =
    if bit_and location 0x3 == 0 then vmwrite pmr_ops word_at h location else raises h 0x4 location
