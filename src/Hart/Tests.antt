-- ===== src/Hart/Tests.antt =====
-- Runs of the trap and interrupt model on small harts.
use zelda_riscv_emulator.Base.{
  ℕ, Bool, ◌≡◌, ◌↔◌, inl, inr, true, false, some, [], arith, replicate, refl, update, test_bit,
}
use zelda_riscv_emulator.Hart.{
  Hart, Status, level_user, level_supervisor, level_machine, csr_medeleg, csr_mtvec, csr_stvec,
  csr_satp,
}
use zelda_riscv_emulator.Hart.Trap.{
  raise_trap_raw, raise_exception_internal, trap_vector, setup_mmode_trap, setup_smode_trap,
}
use zelda_riscv_emulator.Hart.Return.{mret_callback, sret_callback}
use zelda_riscv_emulator.Hart.Return.Roundtrip.{
  Resumed, mret_callback-raise_trap_raw, sret_callback-raise_trap_raw,
}
use zelda_riscv_emulator.Hart.Return.Exceptions.{Raised, raise_exception_internal-Raised}
use zelda_riscv_emulator.Hart.Interrupt.{
  Outcome, delivery_order, deliver_first, deliver_interrupt, is_interrupt_deliverable,
}
use zelda_riscv_emulator.Hart.Interrupt.Delivery.{
  Takes, target_of, IsDelivery, is_interrupt_deliverable_iff, deliver_first-IsDelivery,
  deliver_interrupt_masks,
}

abbrev closed : Status
closed = record {
  uie = false;
  sie = true;
  mie = false;
  upie = false;
  spie = false;
  mpie = false;
  spp = 0;
  mpp = 0;
}

-- A hart at a level, with paging on, environment calls from user mode delegated, and the timer of
-- the machine and the external interrupt of the supervisor pending and enabled.
abbrev hart_at : ℕ → Hart
hart_at level = record {
  regs = replicate 32 0;
  pc = 0x80001000;
  hart_id = 0;
  nr_translated_instructions = 7;
  translation_cache_ptr = 700;
  csr_blob =
      update
        (update (update (update (λ addr. 0) csr_satp 0x80080000) csr_medeleg 0x100) csr_mtvec
          0x80000001)
        csr_stvec 0xc0000000;
  idelegation = 0x222;
  ienable = 0x280;
  ipending = 0x280;
  status = closed;
  privilege_level = level;
  itlb = [];
  dtlb = [];
  itlb_cap = 0;
  dtlb_cap = 0;
  tsc = 0;
}

abbrev user : Hart
user = hart_at 0

abbrev supervisor : Hart
supervisor = hart_at 1

abbrev timer_cause : ℕ
timer_cause = 0x80000007

-- The two handlers that a hart in user mode enters, with the translations dropped or kept.
abbrev in_machine : Hart
in_machine = record (setup_mmode_trap user timer_cause 0) {
  nr_translated_instructions = 0;
  translation_cache_ptr = 0;
}

abbrev in_supervisor : Hart
in_supervisor = setup_smode_trap user 0x80000009 0

trap_vector-vectored : trap_vector 0x80000001 timer_cause ≡ 0x8000001c
unfolding trap_vector test_bit
trap_vector-vectored = refl

raise_trap_raw-machine : raise_trap_raw user 3 timer_cause 0 ≡ some in_machine
unfolding raise_trap_raw setup_mmode_trap test_bit
    zelda_riscv_emulator.Hart.Trap.flush_translation_cache_on_address_space_change
    zelda_riscv_emulator.Hart.Trap.address_space_tag
    zelda_riscv_emulator.Hart.flush_translation_cache
raise_trap_raw-machine = refl

raise_trap_raw-supervisor : raise_trap_raw user 1 0x80000009 0 ≡ some in_supervisor
unfolding raise_trap_raw setup_smode_trap test_bit
    zelda_riscv_emulator.Hart.Trap.flush_translation_cache_on_address_space_change
    zelda_riscv_emulator.Hart.Trap.address_space_tag
raise_trap_raw-supervisor = refl

mret_callback-raise_trap_raw_example :
    (after : Hart) × (mret_callback in_machine ≡ some after) × Resumed user after
mret_callback-raise_trap_raw_example =
    mret_callback-raise_trap_raw user in_machine timer_cause 0 (inl refl) raise_trap_raw-machine

sret_callback-raise_trap_raw_example :
    (after : Hart) × (sret_callback in_supervisor ≡ some after) × Resumed user after
sret_callback-raise_trap_raw_example =
    sret_callback-raise_trap_raw user in_supervisor 0x80000009 0 (omega arith)
      raise_trap_raw-supervisor

raise_exception_internal-Raised_example :
    (trapped : Hart) × (raise_exception_internal supervisor 13 0xdead0000 ≡ some trapped)
    × Raised supervisor 13 0xdead0000 trapped
raise_exception_internal-Raised_example =
    raise_exception_internal-Raised supervisor 13 0xdead0000 (omega arith) (inr (inl refl))

is_interrupt_deliverable_iff_example :
    (answer : Bool) × (is_interrupt_deliverable supervisor 9 ≡ some answer)
    × ((answer ≡ true) ↔ Takes supervisor 9 (target_of supervisor 9))
is_interrupt_deliverable_iff_example = is_interrupt_deliverable_iff supervisor 9 (omega arith)

deliver_first-IsDelivery_example :
    (outcome : Outcome) × (deliver_first supervisor delivery_order ≡ some outcome)
    × IsDelivery supervisor outcome
deliver_first-IsDelivery_example = deliver_first-IsDelivery supervisor

deliver_interrupt-supervisor : deliver_interrupt user 9 ≡ some in_supervisor
unfolding deliver_interrupt setup_smode_trap test_bit
    zelda_riscv_emulator.Hart.Interrupt.interrupt_target_privilege_level raise_trap_raw
    zelda_riscv_emulator.Hart.Trap.flush_translation_cache_on_address_space_change
    zelda_riscv_emulator.Hart.Trap.address_space_tag
deliver_interrupt-supervisor = refl

still_deliverable : is_interrupt_deliverable in_supervisor 7 ≡ some true
unfolding is_interrupt_deliverable setup_smode_trap test_bit
    zelda_riscv_emulator.Hart.Interrupt.interrupt_target_privilege_level
    zelda_riscv_emulator.Hart.Interrupt.deliverable_at
still_deliverable = refl

deliver_interrupt_masks_example :
    (target_of user 9 ≡ level_supervisor) × (target_of in_supervisor 7 ≡ level_machine)
deliver_interrupt_masks_example =
    deliver_interrupt_masks user in_supervisor 9 7 (omega arith) (omega arith)
      deliver_interrupt-supervisor still_deliverable
