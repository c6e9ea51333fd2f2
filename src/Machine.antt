-- ===== src/Machine.antt =====
-- vmm/hart_interrupt.c: the devices and one hart at a translation unit boundary and in `wfi`. What
-- the host terminal delivers to each read is an argument.
mod Tests
pub mod Lines
pub mod Refresh
pub mod Idle
pub mod Pump
use zelda_riscv_emulator.Base.{
  ℕ, zero, suc, ◌+◌, ◌-◌, ◌*◌, ◌≡◌, Bool, true, false, ◌==◌, if◌then◌else◌, Option, none, some,
  List, bit_and, ltb,
}
use zelda_riscv_emulator.Hart.{Hart}
use zelda_riscv_emulator.Hart.Interrupt.{
  Outcome, no_interrupt, taken, delivery_order, deliver_first,
}
use zelda_riscv_emulator.Clint.{ClintState, advance_time, skip_to_next_deadline}
use zelda_riscv_emulator.Clint
use zelda_riscv_emulator.Plic.{PlicState}
use zelda_riscv_emulator.Plic
use zelda_riscv_emulator.Uart.{
  UartState, Polled, running, terminated, poll_input, refresh_interrupt,
}

abbrev pub console_poll_interval : ℕ
console_poll_interval = 4096

pub record Machine : Type 0 where
  pub hart : Hart
  pub clint : ClintState
  pub plic : PlicState
  pub uart : UartState
  pub poll_countdown : ℕ
  pub ticks_per_translation_unit : ℕ

-- How a call ends: it returns, a trap is taken instead, the operator ends the program, or an
-- assertion fails.
pub data Step : Type 0 where
  proceeds : Machine → Step
  interrupted : ℕ → Machine → Step
  exits : Step
  aborts : Step

-- `none` is the assertion failing.
unfoldable pub set_ticks_per_translation_unit : Machine → ℕ → Option Machine
set_ticks_per_translation_unit m ticks =
    if ltb 0 ticks then some (record m { ticks_per_translation_unit = ticks }) else none

-- `uart_poll_input` on the machine, and what follows it.
abbrev pub poll_then : Machine → List ℕ → (Machine → Step) → Step
poll_then m bytes next = elim (poll_input m.uart bytes) [
  | running u ↦ next (record m { uart = u })
  | terminated ↦ exits
]

-- The last three calls of `refresh_device_interrupts`.
unfoldable pub refresh_lines : Machine → Step
refresh_lines m = elim (refresh_interrupt m.uart m.plic) [
  | none ↦ aborts
  | some p ↦
      proceeds (record m {
        plic = p;
        hart = Plic.refresh_pending p (Clint.refresh_pending m.clint m.hart);
      })
]

-- The counter is a `uint32_t`: at 0 it wraps, and is then set.
unfoldable pub refresh_device_interrupts : Machine → List ℕ → Step
unfolding refresh_lines
refresh_device_interrupts m bytes =
    let polled =
      poll_then (record m { poll_countdown = console_poll_interval }) bytes refresh_lines in
    let skipped = refresh_lines (record m { poll_countdown = m.poll_countdown - 1 }) in
    if m.poll_countdown == 0 then polled else skipped

-- The loop over the delivery order, and what its outcome makes of the machine.
abbrev pub settle : Machine → Option Outcome → Step
settle m none = aborts
settle m (some no_interrupt) = proceeds m
settle m (some (taken vector h)) = interrupted vector (record m { hart = h })

unfoldable pub deliver : Machine → Step
deliver m = settle m (deliver_first m.hart delivery_order)

abbrev pub then_run : Step → (Machine → Step) → Step
then_run (proceeds m) next = next m
then_run (interrupted vector m) next = interrupted vector m
then_run exits next = exits
then_run aborts next = aborts

unfoldable pub pump_devices_and_deliver_interrupts : Machine → List ℕ → Step
unfolding refresh_device_interrupts deliver
pump_devices_and_deliver_interrupts m bytes =
    let ticked = record m { clint = advance_time m.clint m.ticks_per_translation_unit } in
    then_run (refresh_device_interrupts ticked bytes) deliver

-- The end of a round of `hart_idle`: `usleep` has no effect on the state.
abbrev pub skip_clock : Machine → Machine
skip_clock m = record m { clint = (skip_to_next_deadline m.clint).0 }

-- The loop of `hart_idle`, with `64 - idx` rounds left. Round `idx` reads the terminal twice at most.
unfoldable pub idle_rounds : ℕ → (ℕ → List ℕ) → ℕ → Machine → Step
idle_rounds zero polls idx m = proceeds m
idle_rounds (suc left) polls idx m =
    then_run
      (poll_then m (polls (idx * 2))
        λ polled. refresh_device_interrupts polled (polls (idx * 2 + 1)))
      λ refreshed.
        let next = idle_rounds left polls (idx + 1) (skip_clock refreshed) in
        if bit_and refreshed.hart.ipending refreshed.hart.ienable == 0
        then next
        else proceeds refreshed

unfoldable pub hart_idle : Machine → (ℕ → List ℕ) → Step
unfolding idle_rounds
hart_idle m polls = idle_rounds 64 polls 0 m
