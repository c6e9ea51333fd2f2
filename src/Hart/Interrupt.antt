-- ===== src/Hart/Interrupt.antt =====
-- vmm/hart_interrupt.c: which interrupts a hart takes, and taking one. `none` is an assertion
-- failing.
pub mod Delivery
use zelda_riscv_emulator.Base.{
  ℕ, ◌^◌, Bool, true, false, not, ◌||◌, ◌==◌, ltb, if◌then◌else◌, Option, none, some, List, [], ◌∷◌,
  bit_or, test_bit,
}
use zelda_riscv_emulator.Hart.{Hart, Status, level_supervisor, level_machine}
use zelda_riscv_emulator.Hart.Trap.{raise_trap_raw}

unfoldable pub interrupt_target_privilege_level : Hart → ℕ → Option ℕ
interrupt_target_privilege_level h vector =
    if ltb vector 12
    then some (if test_bit h.idelegation vector then level_supervisor else level_machine)
    else none

-- `is_interrupt_deliverable` once the target level is known.
unfoldable pub deliverable_at : Hart → ℕ → ℕ → Bool
deliverable_at h vector target =
    let status : Status = h.status in
    if not (test_bit h.ipending vector) || not (test_bit h.ienable vector)
    then false
    else if ltb target h.privilege_level
    then false
    else if ltb h.privilege_level target
    then true
    else if target == level_machine
    then status.mie
    else status.sie

unfoldable pub is_interrupt_deliverable : Hart → ℕ → Option Bool
is_interrupt_deliverable h vector = elim (interrupt_target_privilege_level h vector) [
  | none ↦ none
  | some target ↦ some (deliverable_at h vector target)
]

unfoldable pub deliver_interrupt : Hart → ℕ → Option Hart
deliver_interrupt h vector = elim (interrupt_target_privilege_level h vector) [
  | none ↦ none
  | some target ↦ raise_trap_raw h target (bit_or (2 ^ 31) vector) 0
]

abbrev pub delivery_order : List ℕ
delivery_order = 11 ∷ 3 ∷ 7 ∷ 9 ∷ 1 ∷ 5 ∷ []

-- What the loop of `pump_devices_and_deliver_interrupts` comes to: it falls through, or it takes an
-- interrupt and does not return.
pub data Outcome : Type 0 where
  no_interrupt : Outcome
  taken : ℕ → Hart → Outcome

unfoldable pub deliver_first : Hart → List ℕ → Option Outcome
deliver_first h [] = some no_interrupt
deliver_first h (vector ∷ rest) =
    let later = deliver_first h rest in
    elim (is_interrupt_deliverable h vector) [
      | none ↦ none
      | some false ↦ later
      | some true ↦ elim (deliver_interrupt h vector) [
        | none ↦ none
        | some delivered ↦ some (taken vector delivered)
      ]
    ]
