-- ===== src/Hart/Trap.antt =====
-- vmm/hart_trap.c, vmm/hart_exception.c, and the address space tag of vmm/hart_util.h. A trap ends
-- in a jump to the translation loop, so what the functions return is the state that the loop
-- enters with; `none` is an assertion failing.
use zelda_riscv_emulator.Base.{
  ℕ, ◌+◌, ◌*◌, ◌%◌, false, not, ◌&&◌, ◌||◌, ◌==◌, ltb, if◌then◌else◌, Option, none, some, bit_and,
  u32, update, test_bit, not32,
}
use zelda_riscv_emulator.Hart.{
  Hart, Status, level_supervisor, level_machine, csr_medeleg, csr_mtvec, csr_mepc, csr_mcause,
  csr_mtval, csr_stvec, csr_sepc, csr_scause, csr_stval, csr_satp, flush_translation_cache,
}

unfoldable pub address_space_tag : Hart → ℕ
address_space_tag h =
    let satp = h.csr_blob csr_satp in
    if h.privilege_level == level_machine || not (test_bit satp 31) then 0 else satp

unfoldable pub flush_translation_cache_on_address_space_change : Hart → ℕ → Hart
flush_translation_cache_on_address_space_change h previous_tag =
    if address_space_tag h == previous_tag then h else flush_translation_cache h

-- The program counter that a trap with this cause enters, from `mtvec` or `stvec`.
unfoldable pub trap_vector : ℕ → ℕ → ℕ
trap_vector tvec cause =
    if bit_and tvec 0x1 == 0 || not (test_bit cause 31)
    then bit_and tvec (not32 3)
    else u32 (bit_and tvec (not32 3) + bit_and cause 0x7fffffff * 4)

unfoldable pub setup_mmode_trap : Hart → ℕ → ℕ → Hart
unfolding trap_vector
setup_mmode_trap h cause tval =
    let blob = update (update (update h.csr_blob csr_mcause cause) csr_mtval tval) csr_mepc h.pc in
    let status : Status = h.status in
    record h {
      csr_blob = blob;
      status = record status { mpp = h.privilege_level % 4; mpie = status.mie; mie = false };
      privilege_level = level_machine;
      pc = trap_vector (blob csr_mtvec) cause;
    }

-- `spp` has one bit, so it keeps the lowest bit of the level.
unfoldable pub setup_smode_trap : Hart → ℕ → ℕ → Hart
unfolding trap_vector
setup_smode_trap h cause tval =
    let blob = update (update (update h.csr_blob csr_scause cause) csr_stval tval) csr_sepc h.pc in
    let status : Status = h.status in
    record h {
      csr_blob = blob;
      status = record status { spp = h.privilege_level % 2; spie = status.sie; sie = false };
      privilege_level = level_supervisor;
      pc = trap_vector (blob csr_stvec) cause;
    }

unfoldable pub raise_trap_raw : Hart → ℕ → ℕ → ℕ → Option Hart
unfolding setup_mmode_trap setup_smode_trap
raise_trap_raw h target cause tval =
    let tag = address_space_tag h in
    if target == level_machine
    then some (flush_translation_cache_on_address_space_change (setup_mmode_trap h cause tval) tag)
    else if target == level_supervisor
    then some (flush_translation_cache_on_address_space_change (setup_smode_trap h cause tval) tag)
    else none

unfoldable pub exception_target_privilege_level : Hart → ℕ → ℕ
exception_target_privilege_level h exception_number =
    if not (h.privilege_level == level_machine)
      && test_bit (h.csr_blob csr_medeleg) exception_number
    then level_supervisor
    else level_machine

unfoldable pub raise_exception_internal : Hart → ℕ → ℕ → Option Hart
unfolding exception_target_privilege_level
raise_exception_internal h exception_cause trap_value =
    let target = exception_target_privilege_level h exception_cause in
    if ltb exception_cause 16 then raise_trap_raw h target exception_cause trap_value else none
