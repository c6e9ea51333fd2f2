-- ===== src/Machine/Pump.antt =====
-- `pump_devices_and_deliver_interrupts`: time passes, the devices move their lines, and the first
-- deliverable interrupt is taken.
use zelda_riscv_emulator.Base.{
  ℕ, ◌<◌, ◌≤◌, ◌≡◌, ◌⊎◌, inl, inr, ◌+◌, true, false, List, arith, get_or, test_bit, some, u64, refl,
  ap, ◌∙◌, sym, subst,
}
use zelda_riscv_emulator.Hart.{Hart, Status, level_machine}
use zelda_riscv_emulator.Hart.Interrupt.{Outcome, no_interrupt, taken, is_interrupt_deliverable}
use zelda_riscv_emulator.Hart.Interrupt.Delivery.{
  NoneReady, Chosen, IsDelivery, precedence, deliver_first-IsDelivery,
  Takes-is_interrupt_deliverable,
}
use zelda_riscv_emulator.Clint.{ClintState, advance_time}
use zelda_riscv_emulator.Plic.Invariant.{IsValid}
use zelda_riscv_emulator.Machine.{
  Machine, Step, proceeds, interrupted, exits, deliver, settle, then_run, refresh_device_interrupts,
  pump_devices_and_deliver_interrupts,
}
use zelda_riscv_emulator.Machine.Lines.{Refreshed}
use zelda_riscv_emulator.Machine.Refresh.{
  RefreshedOrExits, refresh_device_interrupts-Refreshed, asks_to_end, is_exit,
  is_exit-refresh_device_interrupts,
}

-- The machine after the clock has moved on by one translation unit.
abbrev pub ticked : Machine → Machine
ticked m = record m { clint = advance_time m.clint m.ticks_per_translation_unit }

-- From the refreshed state, nothing is taken because none of the six is deliverable, or the vector that
-- the architecture asks for is.
pub data Delivers (r : Machine) : Step → Type 0 where
  falls_through : NoneReady r.hart → Delivers r (proceeds r)
  takes :
      (vector : ℕ) (h : Hart)
      → Chosen r.hart vector h
      → Delivers r (interrupted vector (record r { hart = h }))

settle-Delivers :
    (r : Machine) (outcome : Outcome)
    → IsDelivery r.hart outcome
    → Delivers r (settle r (some outcome))
settle-Delivers r no_interrupt d = falls_through d
settle-Delivers r (taken vector h) d = takes vector h d

deliver-Delivers : (r : Machine) → Delivers r (deliver r)
unfolding deliver
deliver-Delivers r =
    let (outcome, e, d) = deliver_first-IsDelivery r.hart in
    subst (λ o. Delivers r (settle r o)) (sym e) (settle-Delivers r outcome d)

-- What the pump comes to: the operator has asked to end the program, which has ended, or the operator
-- has not, the lines agree with the devices at the new time, and the delivery follows from that state.
abbrev pub Pumped : Machine → List ℕ → Step → Type 0
Pumped m bytes step =
    ((asks_to_end m bytes ≡ true) × (step ≡ exits))
    ⊎ ((asks_to_end m bytes ≡ false) × ((r : Machine) × Refreshed (ticked m) r × Delivers r step))

pump-from :
    (m : Machine) (bytes : List ℕ) (step : Step)
    → RefreshedOrExits (ticked m) step
    → is_exit step ≡ asks_to_end m bytes
    → Pumped m bytes (then_run step deliver)
pump-from m bytes step (inl e) asked = inl (sym asked ∙ ap is_exit e, rw e refl)
pump-from m bytes step (inr (r, e, refreshed)) asked =
    rw e (inr (sym asked ∙ ap is_exit e, (r, refreshed, deliver-Delivers r)))

-- With a valid PLIC, the pump never fails an assertion. It ends the program when this is the pump that
-- polls an attached console and the bytes have an x next after an escape character that is not itself
-- escaped and that may have ended an earlier poll. Otherwise the interrupt lines agree with the devices
-- at the advanced time, and a deliverable interrupt of the six is taken that nothing deliverable comes
-- before in the order MEI, MSI, MTI, SEI, SSI, STI of the architecture, or none, and then none of the
-- six is deliverable.
pub pump_devices_and_deliver_interrupts-Pumped :
    (m : Machine) (bytes : List ℕ)
    → IsValid m.plic
    → Pumped m bytes (pump_devices_and_deliver_interrupts m bytes)
unfolding pump_devices_and_deliver_interrupts
pump_devices_and_deliver_interrupts-Pumped m bytes v =
    pump-from m bytes (refresh_device_interrupts (ticked m) bytes)
      (refresh_device_interrupts-Refreshed (ticked m) bytes v)
      (is_exit-refresh_device_interrupts (ticked m) bytes v)

-- The hart's timer is due after the tick, enabled, not delegated, and the machine's interrupts are
-- open.
pub record TimerDue (m : Machine) : Type 0 where
  pub due :
      get_or m.clint.mtimecmp m.hart.hart_id 0 ≤ u64 (m.clint.mtime + m.ticks_per_translation_unit)
  pub enabled : test_bit m.hart.ienable 7 ≡ true
  pub kept : test_bit m.hart.idelegation 7 ≡ false
  pub open_window :
      (m.hart.privilege_level < level_machine)
      ⊎ ((m.hart.privilege_level ≡ level_machine) × (m.hart.status.mie ≡ true))

timer_deliverable :
    (m r : Machine)
    → TimerDue m
    → Refreshed (ticked m) r
    → is_interrupt_deliverable r.hart 7 ≡ some true
timer_deliverable m r t refreshed = Takes-is_interrupt_deliverable r.hart 7 (omega arith) (
  refreshed.lines.mti.1 due,
  ap (λ w. test_bit w 7) refreshed.ienable ∙ t.enabled,
  ground (arith, kept, mie, refreshed.privilege_level, t.open_window),
)
  where
    due_at :
        (c : ClintState) (id : ℕ)
        → c ≡ (ticked m).clint
        → id ≡ m.hart.hart_id
        → get_or c.mtimecmp id 0 ≤ c.mtime
    due_at c id same at = rw (same, at) (unfold advance_time in t.due)

    due : get_or r.clint.mtimecmp r.hart.hart_id 0 ≤ r.clint.mtime
    due = due_at r.clint r.hart.hart_id refreshed.clint refreshed.hart_id

    kept : test_bit r.hart.idelegation 7 ≡ false
    kept = ap (λ w. test_bit w 7) refreshed.idelegation ∙ t.kept

    mie : r.hart.status.mie ≡ m.hart.status.mie
    mie = ap (λ (s : Status). s.mie) refreshed.status

-- Before the timer in the order stand the external and the software interrupt.
first_three :
    (h after : Hart) (vector : ℕ)
    → Chosen h vector after
    → is_interrupt_deliverable h 7 ≡ some true
    → (vector ≡ 11) ⊎ ((vector ≡ 3) ⊎ (vector ≡ 7))
unfolding precedence
first_three h after vector c ready = ground (arith, c.ranked, c.outranks 7, ready)

delivers_timer :
    (r : Machine) (step : Step)
    → Delivers r step
    → is_interrupt_deliverable r.hart 7 ≡ some true
    → (vector : ℕ) × (after : Machine) × (step ≡ interrupted vector after)
      × ((vector ≡ 11) ⊎ ((vector ≡ 3) ⊎ (vector ≡ 7)))
unfolding precedence
delivers_timer r step (falls_through none_ready) ready =
    absurd (ground (arith, none_ready 7 (omega arith), ready))
delivers_timer r step (takes vector h c) ready =
    (vector, _, refl, first_three r.hart h vector c ready)

-- With a valid PLIC, a timer that is due after the tick, enabled, not delegated and not masked
-- always interrupts: unless the operator ends the program, the pump takes an interrupt, which is
-- the timer's or one of the two of the machine that outrank it.
pub pump_devices_and_deliver_interrupts_timer :
    (m : Machine) (bytes : List ℕ)
    → IsValid m.plic
    → TimerDue m
    → (pump_devices_and_deliver_interrupts m bytes ≡ exits)
      ⊎ ((vector : ℕ) × (after : Machine) × (pump_devices_and_deliver_interrupts m bytes
            ≡ interrupted vector after)
          × ((vector ≡ 11) ⊎ ((vector ≡ 3) ⊎ (vector ≡ 7))))
pump_devices_and_deliver_interrupts_timer m bytes v t =
    elim (pump_devices_and_deliver_interrupts-Pumped m bytes v) [
      | inl (asked, e) ↦ inl e
      | inr (asked, (r, refreshed, d)) ↦
          inr (delivers_timer r _ d (timer_deliverable m r t refreshed))
    ]
