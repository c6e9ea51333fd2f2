-- ===== src/Mmu/Tests.antt =====
-- Runs of the walk: a root table at 0x80000000 whose entry 768 maps 4 MiB from 0xc0000000.
use zelda_riscv_emulator.Base.{
  ℕ, zero, suc, ◌<◌, ◌≤◌, ◌^◌, get_or, ◌≡◌, ◌==◌, if◌then◌else◌, true, false, List, [], ◌∷◌, arith,
  refl, replicate, test_bit,
}
use zelda_riscv_emulator.Region.Map.{IsMap}
use zelda_riscv_emulator.Region.{Region, Device}
use zelda_riscv_emulator.Hart.{Hart, TlbEntry}
use zelda_riscv_emulator.Csr.{satp_write}
use zelda_riscv_emulator.Mmu.{no_entry, Walked, Access, access, access_paged, page_mask_4m}
use zelda_riscv_emulator.Mmu.Buffer.{IsBuffer}
use zelda_riscv_emulator.Mmu.{reaches, physical_address}
use zelda_riscv_emulator.Mmu.Flush.{Translates, access-satp_write}

abbrev ram : Region
ram = record { addr_low = 0x80000000; addr_high = 0x88000000; device = Device.ram }

ram-IsMap : IsMap (ram ∷ [])
ram-IsMap = record { holds_some = holds; fits = fit; ascends = ascend }
  where
    holds :
        (d : Region) (i : ℕ)
        → i < 1
        → (get_or (ram ∷ []) i d).addr_low < (get_or (ram ∷ []) i d).addr_high
    holds d zero small = omega arith
    holds d (suc i) small = absurd (omega arith)

    fit : (d : Region) (i : ℕ) → i < 1 → (get_or (ram ∷ []) i d).addr_high < 2 ^ 32
    fit d zero small = omega arith
    fit d (suc i) small = absurd (omega arith)

    ascend :
        (d : Region) (i j : ℕ)
        → i < j
        → j < 1
        → (get_or (ram ∷ []) i d).addr_high ≤ (get_or (ram ∷ []) j d).addr_low
    ascend d i j before small = absurd (omega arith)

abbrev word_at : ℕ → ℕ
word_at pa = if pa == 0x80000c00 then 0x2000000f else 0

abbrev buffer : List TlbEntry
buffer = replicate 2 no_entry

buffer-IsBuffer : IsBuffer buffer 2
buffer-IsBuffer = record { bits = 1; word = omega arith; capacity = refl; full = refl }

abbrev installed : TlbEntry
installed = record {
  page_mask = page_mask_4m;
  va_tag = 0xc0000000;
  pa_tag = 0x80000000;
  entry_valid = true;
  level1_pte = 0x80000c00;
  level2_pte = 0;
  pmr = ram;
}

-- A supervisor whose data buffer still holds the entry.
abbrev supervisor : Hart
supervisor = record {
  regs = replicate 32 0;
  pc = 0x80001000;
  hart_id = 0;
  nr_translated_instructions = 3;
  translation_cache_ptr = 300;
  csr_blob = λ addr. 0;
  idelegation = 0;
  ienable = 0;
  ipending = 0;
  status = record {
    uie = false;
    sie = false;
    mie = false;
    upie = false;
    spie = false;
    mpie = false;
    spp = 0;
    mpp = 0;
  };
  privilege_level = 1;
  itlb = buffer;
  dtlb = installed ∷ no_entry ∷ [];
  itlb_cap = 2;
  dtlb_cap = 2;
  tsc = 0;
}

stale-IsBuffer : IsBuffer (installed ∷ no_entry ∷ []) 2
stale-IsBuffer = record { bits = 1; word = omega arith; capacity = refl; full = refl }

access-satp_write_example :
    let after = satp_write supervisor 0x80080000 in
    (after.nr_translated_instructions ≡ 0)
    × Translates word_at 0x80080000 0xc0400000 after.itlb
        (access (ram ∷ []) word_at after after.itlb after.itlb_cap 0xc0400000)
    × Translates word_at 0x80080000 0xc0400000 after.dtlb
        (access (ram ∷ []) word_at after after.dtlb after.dtlb_cap 0xc0400000)
unfolding test_bit
access-satp_write_example =
    access-satp_write (ram ∷ []) word_at supervisor 0x80080000 0xc0400000 ram-IsMap buffer-IsBuffer
      stale-IsBuffer (omega arith) refl

abbrev paged : Hart
paged = record supervisor { csr_blob = λ addr. 0x80080000; dtlb = buffer }
