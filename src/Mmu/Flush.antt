-- ===== src/Mmu/Flush.antt =====
-- Writing satp, and the accesses that follow it.
use zelda_riscv_emulator.Base.{
  ℕ, zero, suc, ◌^◌, ◌<◌, ◌≡◌, ◌⊎◌, inl, inr, true, false, none, some, List, [], ◌∷◌, length,
  get_or, arith, refl, ap, ◌∙◌, test_bit, ltb, lt→ltb, bit_and, sub32, ◌/◌,
}
use zelda_riscv_emulator.Region.{Region}
use zelda_riscv_emulator.Region.Map.{IsMap}
use zelda_riscv_emulator.Hart.{Hart, TlbEntry, level_machine, flush_translation_cache}
use zelda_riscv_emulator.Hart.Return.{invalidate_tlb}
use zelda_riscv_emulator.Csr.{satp_write}
use zelda_riscv_emulator.Mmu.{
  no_entry, slot_4k, slot_4m, va_to_tlb_entry, Walked, walk_asserts, walk_fails, installs,
  walk_page_table, Access, page_fault, reaches, physical_address, access_paged, access,
}
use zelda_riscv_emulator.Mmu.Sv32.{sv32}
use zelda_riscv_emulator.Mmu.Walk.{walk_page_table-Maps}
use zelda_riscv_emulator.Mmu.Buffer.{IsBuffer, slot-lt}
use zelda_riscv_emulator.Mmu.Total.{walk_page_table_total}

length-invalidate_tlb :
    (tlb : List TlbEntry) (left : ℕ) → length (invalidate_tlb tlb left) ≡ length tlb
unfolding invalidate_tlb
length-invalidate_tlb [] left = refl
length-invalidate_tlb (entry ∷ rest) zero = refl
length-invalidate_tlb (entry ∷ rest) (suc left) = ap suc (length-invalidate_tlb rest left)

invalidate_tlb-invalid :
    (tlb : List TlbEntry) (left i : ℕ)
    → i < left
    → (get_or (invalidate_tlb tlb left) i no_entry).entry_valid ≡ false
unfolding invalidate_tlb
invalidate_tlb-invalid [] left i lo = refl
invalidate_tlb-invalid (entry ∷ rest) zero i lo = absurd (omega arith)
invalidate_tlb-invalid (entry ∷ rest) (suc left) zero lo = refl
invalidate_tlb-invalid (entry ∷ rest) (suc left) (suc i) lo =
    invalidate_tlb-invalid rest left i (omega arith)

-- An invalidated buffer misses every address.
pub va_to_tlb_entry-invalidate_tlb :
    (tlb : List TlbEntry) (tlb_cap va : ℕ)
    → IsBuffer tlb tlb_cap
    → va_to_tlb_entry (invalidate_tlb tlb tlb_cap) tlb_cap va ≡ none
unfolding va_to_tlb_entry slot_4k slot_4m
va_to_tlb_entry-invalidate_tlb tlb tlb_cap va b = ground (
  arith,
  invalidate_tlb-invalid tlb tlb_cap (slot_4k tlb_cap va) (within_buffer (va / 2 ^ 12)),
  invalidate_tlb-invalid tlb tlb_cap (slot_4m tlb_cap va) (within_buffer (va / 2 ^ 22)),
)
  where
    within_buffer : (x : ℕ) → bit_and x (sub32 tlb_cap 1) < tlb_cap
    within_buffer x = rw b.full at (slot-lt tlb tlb_cap x b)

-- What an access after a miss comes to: a page fault is raised with the buffer as it was, or a device
-- is called at the physical address of the tables.
abbrev pub Translates : (ℕ → ℕ) → ℕ → ℕ → List TlbEntry → Access → Type 0
Translates word_at satp va tlb result =
    (result ≡ page_fault tlb)
    ⊎ ((walked : List TlbEntry) × (pmr : Region) × (pa : ℕ) × (result ≡ reaches walked pmr pa)
        × (sv32 word_at satp va ≡ some pa))

pub access_paged-Translates :
    (pmr_ops : List Region) (word_at : ℕ → ℕ) (satp : ℕ) (tlb : List TlbEntry) (tlb_cap va : ℕ)
    → IsMap pmr_ops
    → test_bit satp 31 ≡ true
    → IsBuffer tlb tlb_cap
    → va_to_tlb_entry tlb tlb_cap va ≡ none
    → Translates word_at satp va tlb (access_paged pmr_ops word_at satp tlb tlb_cap va)
access_paged-Translates pmr_ops word_at satp tlb tlb_cap va rm on b miss =
    by_case (walk_page_table pmr_ops word_at satp va tlb tlb_cap) refl
  where
    by_case :
        (walk : Walked)
        → walk_page_table pmr_ops word_at satp va tlb tlb_cap ≡ walk
        → Translates word_at satp va tlb (access_paged pmr_ops word_at satp tlb tlb_cap va)
    by_case walk_asserts e =
        absurd (walk_page_table_total pmr_ops word_at satp va tlb tlb_cap rm on e)
    by_case walk_fails e = inl (unfold access_paged in ground (arith, e, miss))
    by_case (installs walked) e =
        let m = walk_page_table-Maps pmr_ops word_at satp va tlb walked tlb_cap b miss e in
        inr (
          walked,
          m.entry.pmr,
          physical_address m.entry va,
          unfold access_paged in ground (arith, e, miss, m.found),
          m.address,
        )

IsBuffer-invalidate_tlb :
    (tlb : List TlbEntry) (tlb_cap : ℕ)
    → IsBuffer tlb tlb_cap
    → IsBuffer (invalidate_tlb tlb tlb_cap) tlb_cap
IsBuffer-invalidate_tlb tlb tlb_cap b = record {
  bits = b.bits;
  word = b.word;
  capacity = b.capacity;
  full = length-invalidate_tlb tlb tlb_cap ∙ b.full;
}

-- After a write of satp that turns paging on, below the machine, with buffers of full size and
-- non-empty regions in ascending order that do not overlap: no instruction stays translated, and any
-- fetch and any data access either faults or reaches the physical address that the new tables give,
-- whatever the buffers held before.
pub access-satp_write :
    (pmr_ops : List Region) (word_at : ℕ → ℕ) (h : Hart) (value va : ℕ)
    → IsMap pmr_ops
    → IsBuffer h.itlb h.itlb_cap
    → IsBuffer h.dtlb h.dtlb_cap
    → h.privilege_level < level_machine
    → test_bit value 31 ≡ true
    → let after = satp_write h value in
      (after.nr_translated_instructions ≡ 0)
      × Translates word_at value va after.itlb
          (access pmr_ops word_at after after.itlb after.itlb_cap va)
      × Translates word_at value va after.dtlb
          (access pmr_ops word_at after after.dtlb after.dtlb_cap va)
unfolding satp_write flush_translation_cache access
access-satp_write pmr_ops word_at h value va rm bi bd below on =
    (refl, rw (paged, on) (fresh h.itlb h.itlb_cap bi), rw (paged, on) (fresh h.dtlb h.dtlb_cap bd))
  where
    paged : ltb h.privilege_level level_machine ≡ true
    paged = lt→ltb _ _ below

    fresh :
        (tlb : List TlbEntry) (tlb_cap : ℕ)
        → IsBuffer tlb tlb_cap
        → Translates word_at value va
            (invalidate_tlb tlb tlb_cap)
            (access_paged pmr_ops word_at value (invalidate_tlb tlb tlb_cap) tlb_cap va)
    fresh tlb tlb_cap b =
        access_paged-Translates pmr_ops word_at value (invalidate_tlb tlb tlb_cap) tlb_cap va rm on
          (IsBuffer-invalidate_tlb tlb tlb_cap b) (va_to_tlb_entry-invalidate_tlb tlb tlb_cap va b)
