-- ===== src/Clint/Timer.antt =====
-- The deadline search of `clint_skip_to_next_deadline` and the timer interrupt bit.
use zelda_riscv_emulator.Base.{
  ℕ, zero, suc, ◌+◌, ◌≤◌, ◌<◌, ◌≡◌, ◌≢◌, refl, ◌⊎◌, inl, inr, Bool, true, false, ltb, List, get_or,
  arith, Bool-cases, ltb→lt, sym,
}
use native.Mathlib.Decide.{ℕ_discrete}
use zelda_riscv_emulator.Clint.Invariant.{IsValid}
use zelda_riscv_emulator.Clint.{ClintState, unarmed, earliest_from, skip_to_next_deadline}

-- The loop returns a lower bound of what it has seen, which is the start or one of the values.
record IsEarliest (cmps : List ℕ) (left idx start result : ℕ) : Type 0 where
  below_start : result ≤ start
  below_all : (i : ℕ) → idx ≤ i → i < idx + left → result ≤ get_or cmps i 0
  attained :
      (result ≡ start) ⊎ ((i : ℕ) × (idx ≤ i) × (i < idx + left) × (get_or cmps i 0 ≡ result))

-- A round that takes the value at `idx`.
IsEarliest-take :
    (cmps : List ℕ) (left idx start : ℕ) {result : ℕ}
    → get_or cmps idx 0 < start
    → IsEarliest cmps left (idx + 1) (get_or cmps idx 0) result
    → IsEarliest cmps (suc left) idx start result
IsEarliest-take cmps left idx start less rest = record {
  below_start = omega arith;
  below_all = λ i p q. elim (ℕ_discrete i idx) [
    | yes e ↦ rw e rest.below_start
    | no ne ↦ rest.below_all i (omega arith) (omega arith)
  ];
  attained = elim rest.attained [
    | inl e ↦ inr (idx, omega arith, omega arith, sym e)
    | inr (i, p, q, e) ↦ inr (i, omega arith, omega arith, e)
  ];
}

-- A round that keeps the least value so far.
IsEarliest-keep :
    (cmps : List ℕ) (left idx start : ℕ) {result : ℕ}
    → start ≤ get_or cmps idx 0
    → IsEarliest cmps left (idx + 1) start result
    → IsEarliest cmps (suc left) idx start result
IsEarliest-keep cmps left idx start more rest = record {
  below_start = rest.below_start;
  below_all = λ i p q. elim (ℕ_discrete i idx) [
    | yes e ↦ rw e (omega (arith, rest.below_start))
    | no ne ↦ rest.below_all i (omega arith) (omega arith)
  ];
  attained = elim rest.attained [
    | inl e ↦ inl e
    | inr (i, p, q, e) ↦ inr (i, omega arith, omega arith, e)
  ];
}

earliest_from-IsEarliest :
    (cmps : List ℕ) (left idx start : ℕ)
    → IsEarliest cmps left idx start (earliest_from cmps left idx start)
unfolding earliest_from
earliest_from-IsEarliest cmps zero idx start = record {
  below_start = omega arith;
  below_all = λ i p q. absurd (omega arith);
  attained = inl refl;
}
earliest_from-IsEarliest cmps (suc left) idx start =
    let rest = earliest_from-IsEarliest cmps left (idx + 1) in
    elim (Bool-cases (ltb (get_or cmps idx 0) start)) [
      | inl less ↦
          rw less (IsEarliest-take cmps left idx start (ltb→lt _ _ less) (rest (get_or cmps idx 0)))
      | inr more ↦ rw more (IsEarliest-keep cmps left idx start (ground arith) (rest start))
    ]

-- What `clint_skip_to_next_deadline` leaves: nothing happened and no timer is armed, or a timer is
-- due, the clock did not go back, and it went no further than the first deadline.
pub data Skipped (c : ClintState) : ClintState × Bool → Type 0 where
  idle : ((i : ℕ) → i < c.nr_harts → get_or c.mtimecmp i 0 ≡ unarmed) → Skipped c (c, false)
  due :
      (t i : ℕ)
      → c.mtime ≤ t
      → i < c.nr_harts
      → get_or c.mtimecmp i 0 ≤ t
      → ((j : ℕ) → j < c.nr_harts → c.mtime < t → t ≤ get_or c.mtimecmp j 0)
      → Skipped c (record c { mtime = t }, true)

module _ (c : ClintState) (v : IsValid c) where
  abbrev first : ℕ
  first = earliest_from c.mtimecmp c.nr_harts 0 unarmed

  first_lem : IsEarliest c.mtimecmp c.nr_harts 0 unarmed first
  first_lem = earliest_from-IsEarliest c.mtimecmp c.nr_harts 0 unarmed

  Skipped-idle : first ≡ unarmed → Skipped c (c, false)
  Skipped-idle e =
      idle
        λ i p. omega (arith, first_lem.below_all i (omega arith) (omega arith), v.mtimecmp_word i)

  -- Where a timer is armed, the earliest deadline is one of the hart's.
  Skipped-due :
      (t : ℕ)
      → first ≢ unarmed
      → c.mtime ≤ t
      → first ≤ t
      → (c.mtime < t → t ≡ first)
      → Skipped c (record c { mtime = t }, true)
  Skipped-due t ne p q exact = elim first_lem.attained [
    | inl e ↦ absurd (ne e)
    | inr (i, lo, hi, e) ↦ due t i p (omega arith) (omega arith) (λ j hj later.
        omega (arith, exact later, first_lem.below_all j (omega arith) (omega arith)))
  ]

-- After `clint_skip_to_next_deadline` on a valid state, either it reports 0, the state is as before
-- and no hart's timer is armed; or it reports 1, only the clock changed, it did not go back, some
-- hart's timer is due, and if the clock moved it did not pass any hart's deadline.
pub skip_to_next_deadline-Skipped :
    (c : ClintState) → IsValid c → Skipped c (skip_to_next_deadline c)
unfolding skip_to_next_deadline
skip_to_next_deadline-Skipped c v =
    ground (arith, Skipped-idle c v, Skipped-due c v (first c v), Skipped-due c v c.mtime)

-- With one hart whose timer is armed, the timer is due after the skip and the comparators are kept.
pub skip_to_next_deadline_single :
    (c : ClintState)
    → c.nr_harts ≡ 1
    → get_or c.mtimecmp 0 0 < unarmed
    → (get_or c.mtimecmp 0 0 ≤ (skip_to_next_deadline c).0.mtime)
      × ((skip_to_next_deadline c).0.mtimecmp ≡ c.mtimecmp)
unfolding skip_to_next_deadline earliest_from
skip_to_next_deadline_single c single armed = rw single ground arith
