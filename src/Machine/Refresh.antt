-- ===== src/Machine/Refresh.antt =====
-- The refresh with its console poll.
use zelda_riscv_emulator.Base.{
  ℕ, ◌≡◌, ◌⊎◌, ◌-◌, List, test_bit, inl, inr, if_ind, ◌==◌, refl, ap, ◌∙◌, Bool, true, false, ◌&&◌,
  arith,
}
use zelda_riscv_emulator.Hart.{Hart}
use zelda_riscv_emulator.Plic.Invariant.{IsValid}
use zelda_riscv_emulator.Uart.{Polled, running, terminated, poll_input}
use zelda_riscv_emulator.Uart.Input.{quits, is_terminated, poll_input-quits}
use zelda_riscv_emulator.Machine.{
  Machine, Step, proceeds, exits, refresh_lines, refresh_device_interrupts,
}
use zelda_riscv_emulator.Machine.Lines.{Refreshed, refresh_lines-Refreshed}

pub Refreshed-from :
    (m n : Machine) {after : Machine}
    → n.hart ≡ m.hart
    → n.clint ≡ m.clint
    → Refreshed n after
    → Refreshed m after
Refreshed-from m n same clock r = record {
  lines = r.lines;
  valid = r.valid;
  software = λ k soft. r.software k soft ∙ ap (λ (h : Hart). test_bit h.ipending k) same;
  clint = r.clint ∙ clock;
  pc = r.pc ∙ ap (λ (h : Hart). h.pc) same;
  status = r.status ∙ ap (λ (h : Hart). h.status) same;
  ienable = r.ienable ∙ ap (λ (h : Hart). h.ienable) same;
  idelegation = r.idelegation ∙ ap (λ (h : Hart). h.idelegation) same;
  privilege_level = r.privilege_level ∙ ap (λ (h : Hart). h.privilege_level) same;
  hart_id = r.hart_id ∙ ap (λ (h : Hart). h.hart_id) same;
}

-- What a refresh comes to: the operator has ended the program, or the lines agree.
abbrev pub RefreshedOrExits : Machine → Step → Type 0
RefreshedOrExits m step =
    (step ≡ exits) ⊎ ((after : Machine) × (step ≡ proceeds after) × Refreshed m after)

RefreshedOrExits-countdown :
    (m : Machine) (count : ℕ) (step : Step)
    → RefreshedOrExits (record m { poll_countdown = count }) step
    → RefreshedOrExits m step
RefreshedOrExits-countdown m count step (inl e) = inl e
RefreshedOrExits-countdown m count step (inr (after, e, r)) =
    inr (after, e, Refreshed-from m (record m { poll_countdown = count }) refl refl r)

RefreshedOrExits-poll :
    (m : Machine) (bytes : List ℕ) (polled : Polled)
    → IsValid m.plic
    → RefreshedOrExits m
        (elim polled [ running u ↦ refresh_lines (record m { uart = u }) | terminated ↦ exits ])
RefreshedOrExits-poll m bytes terminated v = inl refl
RefreshedOrExits-poll m bytes (running u) v =
    let (after, e, r) = refresh_lines-Refreshed (record m { uart = u }) v in
    inr (after, e, Refreshed-from m (record m { uart = u }) refl refl r)

pub refresh_device_interrupts-Refreshed :
    (m : Machine) (bytes : List ℕ)
    → IsValid m.plic
    → RefreshedOrExits m (refresh_device_interrupts m bytes)
unfolding refresh_device_interrupts
refresh_device_interrupts-Refreshed m bytes v =
    if_ind (RefreshedOrExits m) (m.poll_countdown == 0)
      (λ _. RefreshedOrExits-countdown m 4096 _ (
        RefreshedOrExits-poll (record m { poll_countdown = 4096 }) bytes (poll_input m.uart bytes)
          v))
      (λ _.
        RefreshedOrExits-countdown m (m.poll_countdown - 1) _
          (inr (refresh_lines-Refreshed (record m { poll_countdown = m.poll_countdown - 1 }) v)))

-- Whether this refresh polls the console and the operator asks to end the program.
abbrev pub asks_to_end : Machine → List ℕ → Bool
asks_to_end m bytes =
    m.poll_countdown == 0 && (m.uart.console_attached && quits m.uart.escape_armed bytes)

abbrev pub is_exit : Step → Bool
is_exit exits = true
is_exit _ = false

is_exit-refresh_lines : (m : Machine) → IsValid m.plic → is_exit (refresh_lines m) ≡ false
is_exit-refresh_lines m v = let (after, e, r) = refresh_lines-Refreshed m v in ap is_exit e

is_exit-poll :
    (m : Machine) (polled : Polled)
    → IsValid m.plic
    → is_exit
        (elim polled [ running u ↦ refresh_lines (record m { uart = u }) | terminated ↦ exits ])
      ≡ is_terminated polled
is_exit-poll m (running u) v = is_exit-refresh_lines (record m { uart = u }) v
is_exit-poll m terminated v = refl

-- A refresh ends the program exactly then.
pub is_exit-refresh_device_interrupts :
    (m : Machine) (bytes : List ℕ)
    → IsValid m.plic
    → is_exit (refresh_device_interrupts m bytes) ≡ asks_to_end m bytes
unfolding refresh_device_interrupts
is_exit-refresh_device_interrupts m bytes v = ground (
  arith,
  is_exit-poll (record m { poll_countdown = 4096 }) (poll_input m.uart bytes) v,
  is_exit-refresh_lines (record m { poll_countdown = m.poll_countdown - 1 }) v,
  poll_input-quits m.uart bytes,
)
