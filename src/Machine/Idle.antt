-- ===== src/Machine/Idle.antt =====
-- `hart_idle`: how the wait of a guest ends.
use zelda_riscv_emulator.Base.{
  ℕ, suc, ◌<◌, ◌≤◌, ◌≡◌, ◌≢◌, ◌⊎◌, inl, inr, ◌+◌, ◌*◌, true, List, arith, get_or, test_bit,
  test_bit-and, test_bit-zero, bit_and, refl, ap, ◌∙◌, if_ind, if◌then◌else◌, ◌==◌,
}
use zelda_riscv_emulator.Clint.{ClintState, unarmed, skip_to_next_deadline}
use zelda_riscv_emulator.Clint.Timer.{skip_to_next_deadline_single}
use zelda_riscv_emulator.Plic.Invariant.{IsValid}
use zelda_riscv_emulator.Uart.{Polled, running, terminated, poll_input}
use zelda_riscv_emulator.Machine.{
  Machine, Step, proceeds, exits, refresh_device_interrupts, poll_then, then_run, skip_clock,
  idle_rounds, hart_idle,
}
use zelda_riscv_emulator.Machine.Lines.{Refreshed}
use zelda_riscv_emulator.Machine.Refresh.{
  RefreshedOrExits, Refreshed-from, refresh_device_interrupts-Refreshed,
}

-- An interrupt is pending and enabled.
abbrev pub IsAwake : Machine → Type 0
IsAwake m = bit_and m.hart.ipending m.hart.ienable ≢ 0

-- The call has ended the program, or it has returned with the hart awake.
abbrev pub WakesOrExits : Step → Type 0
WakesOrExits step = (step ≡ exits) ⊎ ((after : Machine) × (step ≡ proceeds after) × IsAwake after)

-- Hart 0 is the only one, and it waits for its timer.
pub record WaitsForTimer (m : Machine) : Type 0 where
  pub valid : IsValid m.plic
  pub first : m.hart.hart_id ≡ 0
  pub enabled : test_bit m.hart.ienable 7 ≡ true
  pub single : m.clint.nr_harts ≡ 1
  pub armed : get_or m.clint.mtimecmp 0 0 < unarmed

-- The two reads and the refresh at the start of a round.
refresh_round : Machine → List ℕ → List ℕ → Step
refresh_round m first second = poll_then m first λ polled. refresh_device_interrupts polled second

refresh_round-Refreshed :
    (m : Machine) (first second : List ℕ)
    → IsValid m.plic
    → RefreshedOrExits m (refresh_round m first second)
unfolding refresh_round
refresh_round-Refreshed m first second v = round (poll_input m.uart first)
  where
    round :
        (polled : Polled)
        → RefreshedOrExits m (elim polled [
          | running u ↦ refresh_device_interrupts (record m { uart = u }) second
          | terminated ↦ exits
        ])
    round terminated = inl refl
    round (running u) =
        elim (refresh_device_interrupts-Refreshed (record m { uart = u }) second v) [
          | inl e ↦ inl e
          | inr (after, e, r) ↦ inr (after, e, Refreshed-from m (record m { uart = u }) refl refl r)
        ]

-- What a round does: it ends the program, or returns awake, or goes on after skipping the clock.
round_next :
    (step : Step) (m : Machine) (next : Machine → Step)
    → RefreshedOrExits m step
    → ((r : Machine) → Refreshed m r → IsAwake r ⊎ WakesOrExits (next r))
    → WakesOrExits (
        then_run step
          λ r. if bit_and r.hart.ipending r.hart.ienable == 0 then next r else proceeds r)
round_next step m next (inl e) later = rw e (inl refl)
round_next step m next (inr (r, e, refreshed)) later = rw e (
    if_ind WakesOrExits (bit_and r.hart.ipending r.hart.ienable == 0)
      (λ asleep. elim (later r refreshed) [ inl awake ↦ absurd (ground arith) | inr wakes ↦ wakes ])
      (λ awake. inr (r, refl, ground arith)))

idle_rounds-suc :
    (left : ℕ) (polls : ℕ → List ℕ) (idx : ℕ) (m : Machine)
    → IsValid m.plic
    → ((r : Machine)
        → Refreshed m r
        → IsAwake r ⊎ WakesOrExits (idle_rounds left polls (idx + 1) (skip_clock r)))
    → WakesOrExits (idle_rounds (suc left) polls idx m)
unfolding idle_rounds refresh_round
idle_rounds-suc left polls idx m v later =
    round_next _ m (λ r. idle_rounds left polls (idx + 1) (skip_clock r))
      (refresh_round-Refreshed m (polls (idx * 2)) (polls (idx * 2 + 1)) v) later

-- A line that is up and enabled wakes the hart.
IsAwake-line :
    (m : Machine) (k : ℕ)
    → test_bit m.hart.ipending k ≡ true
    → test_bit m.hart.ienable k ≡ true
    → IsAwake m
IsAwake-line m k pending enabled asleep = ground (
  arith,
  test_bit-and m.hart.ipending m.hart.ienable k,
  test_bit-zero k,
  ap (λ w. test_bit w k) asleep,
)

-- In the second round the timer is due.
second_round :
    (m r s : Machine) → WaitsForTimer m → Refreshed m r → Refreshed (skip_clock r) s → IsAwake s
second_round m r s w first second =
    IsAwake-line s 7 (second.lines.mti.1 due)
      (ap (λ w. test_bit w 7) (second.ienable ∙ first.ienable) ∙ w.enabled)
  where
    at_zero : s.hart.hart_id ≡ 0
    at_zero = second.hart_id ∙ first.hart_id ∙ w.first

    single : r.clint.nr_harts ≡ 1
    single = ap (λ (c : ClintState). c.nr_harts) first.clint ∙ w.single

    armed : get_or r.clint.mtimecmp 0 0 < unarmed
    armed = rw first.clint w.armed

    due_at :
        (c : ClintState) → c ≡ (skip_to_next_deadline r.clint).0 → get_or c.mtimecmp 0 0 ≤ c.mtime
    due_at c e =
        let (reached, kept) = skip_to_next_deadline_single r.clint single armed in
        rw e (rw kept reached)

    due : get_or s.clint.mtimecmp s.hart.hart_id 0 ≤ s.clint.mtime
    due = rw at_zero (due_at s.clint second.clint)

-- With a valid PLIC, when hart 0 is the only one and its timer is armed and enabled, hart_idle ends
-- in time: it returns with an enabled interrupt pending, unless the operator ends the program.
pub hart_idle-WakesOrExits :
    (m : Machine) (polls : ℕ → List ℕ) → WaitsForTimer m → WakesOrExits (hart_idle m polls)
unfolding hart_idle
hart_idle-WakesOrExits m polls w = idle_rounds-suc 63 polls 0 m w.valid λ r first. inr (
    idle_rounds-suc 62 polls 1 (skip_clock r) first.valid
      λ s second. inl (second_round m r s w first second))
