-- ===== src/Hart/Return.antt =====
-- vmm/hart_util.h and vmm/translate_privileged_instr.c: mret, sret, ecall and sfence.vma, with
-- `invalidate_tlb` of vmm/mmu_tlb.c.

pub mod Roundtrip
pub mod Exceptions
use zelda_riscv_emulator.Base.{
  ℕ, zero, suc, ◌+◌, Bool, true, false, not, ◌||◌, ◌==◌, if◌then◌else◌, Option, none, some, List,
  [], ◌∷◌,
}
use zelda_riscv_emulator.Hart.{
  Hart, Status, TlbEntry, level_user, level_supervisor, level_machine, csr_mepc, csr_sepc,
  flush_translation_cache,
}
use zelda_riscv_emulator.Hart.Trap.{
  address_space_tag, flush_translation_cache_on_address_space_change, raise_exception_internal,
}

unfoldable pub adjust_mstatus_upon_mret : Hart → Option Hart
adjust_mstatus_upon_mret h =
    let status : Status = h.status in
    if status.mpp == level_user || status.mpp == level_supervisor || status.mpp == level_machine
    then some (record h {
      privilege_level = status.mpp;
      status = record status { mpp = level_user; mie = status.mpie; mpie = true };
    })
    else none

unfoldable pub adjust_mstatus_upon_sret : Hart → Option Hart
adjust_mstatus_upon_sret h =
    let status : Status = h.status in
    if status.spp == level_user || status.spp == level_supervisor
    then some (record h {
      privilege_level = status.spp;
      status = record status { spp = level_user; sie = status.spie; spie = true };
    })
    else none

-- `assert_hart_running_in_mmode` raises an exception, which does not return.
unfoldable pub mret_callback : Hart → Option Hart
unfolding adjust_mstatus_upon_mret
mret_callback h =
    if h.privilege_level == level_machine
    then (let tag = address_space_tag h in
        elim (adjust_mstatus_upon_mret h) [
          | none ↦ none
          | some r ↦ some (
              flush_translation_cache_on_address_space_change
                (record r { pc = r.csr_blob csr_mepc }) tag)
        ])
    else raise_exception_internal h 0x2 0

unfoldable pub sret_callback : Hart → Option Hart
unfolding adjust_mstatus_upon_sret
sret_callback h =
    if h.privilege_level == level_supervisor
    then (let tag = address_space_tag h in
        elim (adjust_mstatus_upon_sret h) [
          | none ↦ none
          | some r ↦ some (
              flush_translation_cache_on_address_space_change
                (record r { pc = r.csr_blob csr_sepc }) tag)
        ])
    else raise_exception_internal h 0x2 0

-- `raise_exception` raises with a trap value of 0; `none` is an assertion failing.
unfoldable pub ecall_callback : Hart → Option Hart
ecall_callback h =
    if h.privilege_level == level_machine
    then raise_exception_internal h 0xb 0
    else if h.privilege_level == level_supervisor
    then raise_exception_internal h 0x9 0
    else if h.privilege_level == level_user
    then raise_exception_internal h 0x8 0
    else none

-- The loop of `invalidate_tlb`, with `left` rounds to go at the head of the list.
unfoldable pub invalidate_tlb : List TlbEntry → ℕ → List TlbEntry
invalidate_tlb [] left = []
invalidate_tlb (entry ∷ rest) zero = entry ∷ rest
invalidate_tlb (entry ∷ rest) (suc left) =
    record entry { entry_valid = false } ∷ invalidate_tlb rest left

unfoldable pub sfence_vma_callback : Hart → Hart
sfence_vma_callback h =
    flush_translation_cache (record h {
      itlb = invalidate_tlb h.itlb h.itlb_cap;
      dtlb = invalidate_tlb h.dtlb h.dtlb_cap;
    })
