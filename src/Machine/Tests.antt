-- ===== src/Machine/Tests.antt =====
-- Runs of the whole machine: a hart in user mode that waits for its timer.
use zelda_riscv_emulator.Base.{
  ℕ, ◌≡◌, ◌⊎◌, inl, true, false, arith, refl, test_bit, [], ◌∷◌, replicate, set,
}
use zelda_riscv_emulator.Hart.{Hart}
use zelda_riscv_emulator.Clint
use zelda_riscv_emulator.Plic
use zelda_riscv_emulator.Uart
use zelda_riscv_emulator.Plic.Invariant.{IsValid, init-IsValid}
use zelda_riscv_emulator.Machine.{
  Machine, proceeds, interrupted, exits, refresh_lines, pump_devices_and_deliver_interrupts,
  hart_idle,
}
use zelda_riscv_emulator.Machine.Lines.{Refreshed, refresh_lines-Refreshed}
use zelda_riscv_emulator.Machine.Pump.{
  Pumped, TimerDue, pump_devices_and_deliver_interrupts-Pumped,
  pump_devices_and_deliver_interrupts_timer,
}
use zelda_riscv_emulator.Machine.Idle.{WaitsForTimer, WakesOrExits, hart_idle-WakesOrExits}

abbrev hart : Hart
hart = record {
  regs = replicate 32 0;
  pc = 0x80001000;
  hart_id = 0;
  nr_translated_instructions = 0;
  translation_cache_ptr = 0;
  csr_blob = λ addr. 0;
  idelegation = 0x222;
  ienable = 0x80;
  ipending = 0;
  status = record {
    uie = false;
    sie = false;
    mie = false;
    upie = false;
    spie = false;
    mpie = false;
    spp = 0;
    mpp = 0;
  };
  privilege_level = 0;
  itlb = [];
  dtlb = [];
  itlb_cap = 0;
  dtlb_cap = 0;
  tsc = 0;
}

-- The timer of the only hart is armed for a tick.
abbrev armed_for : ℕ → Machine
armed_for tick = record {
  hart = hart;
  clint = record (Clint.init 0x2000000 0x10000 1) {
    mtimecmp = set (replicate 64 Clint.unarmed) 0 tick;
  };
  plic = Plic.init 0xc000000 0x400000 1;
  uart = Uart.init true;
  poll_countdown = 0;
  ticks_per_translation_unit = 2;
}

plic-IsValid : IsValid (Plic.init 0xc000000 0x400000 1)
plic-IsValid = init-IsValid 0xc000000 0x400000 1 (omega arith) (omega arith)

refresh_lines-Refreshed_example :
    (after : Machine) × (refresh_lines (armed_for 500) ≡ proceeds after)
    × Refreshed (armed_for 500) after
refresh_lines-Refreshed_example = refresh_lines-Refreshed (armed_for 500) plic-IsValid

pump_devices_and_deliver_interrupts-Pumped_example :
    Pumped
      (armed_for 500)
      (b'a' ∷ [])
      (pump_devices_and_deliver_interrupts (armed_for 500) (b'a' ∷ []))
pump_devices_and_deliver_interrupts-Pumped_example =
    pump_devices_and_deliver_interrupts-Pumped (armed_for 500) (b'a' ∷ []) plic-IsValid

due : TimerDue (armed_for 2)
unfolding Clint.init test_bit
due = record { due = omega arith; enabled = refl; kept = refl; open_window = inl (omega arith) }

pump_devices_and_deliver_interrupts_timer_example :
    (pump_devices_and_deliver_interrupts (armed_for 2) [] ≡ exits)
    ⊎ ((vector : ℕ) × (after : Machine) × (pump_devices_and_deliver_interrupts (armed_for 2) []
          ≡ interrupted vector after)
        × ((vector ≡ 11) ⊎ ((vector ≡ 3) ⊎ (vector ≡ 7))))
pump_devices_and_deliver_interrupts_timer_example =
    pump_devices_and_deliver_interrupts_timer (armed_for 2) [] plic-IsValid due

waits : WaitsForTimer (armed_for 500)
unfolding test_bit Clint.init
waits = record {
  valid = plic-IsValid;
  first = refl;
  enabled = refl;
  single = refl;
  armed = omega arith;
}

hart_idle-WakesOrExits_example : WakesOrExits (hart_idle (armed_for 500) (λ round. []))
hart_idle-WakesOrExits_example = hart_idle-WakesOrExits (armed_for 500) (λ round. []) waits
