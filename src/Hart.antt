-- ===== src/Hart.antt =====
-- vmm/hart.h and vmm/mmu_tlb.h: the state of a hart, with its two translation lookaside buffers.
-- Host pointers (stack, cache memory, mapping array) are left out of the record.
mod Tests
pub mod Trap
pub mod Return
pub mod Interrupt
use zelda_riscv_emulator.Base.{ℕ, ◌^◌, Bool, List}
use zelda_riscv_emulator.Region.{Region}

-- `level1_pte` and `level2_pte` hold the physical address of the entry; 0 is NULL.
pub record TlbEntry : Type 0 where
  pub va_tag : ℕ
  pub pa_tag : ℕ
  pub page_mask : ℕ
  pub entry_valid : Bool
  pub level1_pte : ℕ
  pub level2_pte : ℕ
  pub pmr : Region

-- `struct status_control_blob`; `spp` has one bit and `mpp` two.
pub record Status : Type 0 where
  pub uie : Bool
  pub sie : Bool
  pub mie : Bool
  pub upie : Bool
  pub spie : Bool
  pub mpie : Bool
  pub spp : ℕ
  pub mpp : ℕ

pub record Hart : Type 0 where
  pub regs : List ℕ
  pub pc : ℕ
  pub hart_id : ℕ
  pub nr_translated_instructions : ℕ
  pub translation_cache_ptr : ℕ
  -- `csrs_base[address].csr_blob`.
  pub csr_blob : ℕ → ℕ
  pub idelegation : ℕ
  pub ienable : ℕ
  pub ipending : ℕ
  pub status : Status
  pub privilege_level : ℕ
  pub itlb : List TlbEntry
  pub dtlb : List TlbEntry
  pub itlb_cap : ℕ
  pub dtlb_cap : ℕ
  pub tsc : ℕ

-- Privilege levels and CSR addresses of vmm/hart_def.h.
abbrev pub level_user : ℕ
level_user = 0

abbrev pub level_supervisor : ℕ
level_supervisor = 1

abbrev pub level_machine : ℕ
level_machine = 3

abbrev pub csr_mstatus : ℕ
csr_mstatus = 0x300

abbrev pub csr_medeleg : ℕ
csr_medeleg = 0x302

abbrev pub csr_mtvec : ℕ
csr_mtvec = 0x305

abbrev pub csr_mepc : ℕ
csr_mepc = 0x341

abbrev pub csr_mcause : ℕ
csr_mcause = 0x342

abbrev pub csr_mtval : ℕ
csr_mtval = 0x343

abbrev pub csr_stvec : ℕ
csr_stvec = 0x105

abbrev pub csr_sepc : ℕ
csr_sepc = 0x141

abbrev pub csr_scause : ℕ
csr_scause = 0x142

abbrev pub csr_stval : ℕ
csr_stval = 0x143

abbrev pub csr_satp : ℕ
csr_satp = 0x180

-- `flush_translation_cache` of vmm/hart.c.
unfoldable pub flush_translation_cache : Hart → Hart
flush_translation_cache h = record h { nr_translated_instructions = 0; translation_cache_ptr = 0 }
