-- ===== src/Hart/Interrupt/Delivery.antt =====
-- Which interrupt is delivered, and what can still be delivered after it.
use zelda_riscv_emulator.Base.{
  ℕ, ◌<◌, ◌≡◌, ◌==◌, ◌≢◌, ◌⊎◌, Bool, ◌↔◌, true, false, some, List, [], ◌∷◌, ◌++◌, if◌then◌else◌,
  Option-cases, ap, ◌∙◌, inl, inr, arith, test_bit, refl,
}
use zelda_riscv_emulator.Hart.{Hart, level_supervisor, level_machine, flush_translation_cache}
use zelda_riscv_emulator.Hart.Trap.{
  raise_trap_raw, flush_translation_cache_on_address_space_change, setup_mmode_trap,
  setup_smode_trap,
}
use zelda_riscv_emulator.Hart.Interrupt.{
  interrupt_target_privilege_level, deliverable_at, is_interrupt_deliverable, deliver_interrupt,
  delivery_order, Outcome, no_interrupt, taken, deliver_first,
}

-- The privileged architecture's condition: the interrupt is pending and enabled, and its target
-- level is above the current one, or equal to it with interrupts enabled there.
abbrev pub Takes : Hart → ℕ → ℕ → Type 0
Takes h vector target =
    (test_bit h.ipending vector ≡ true)
    × (test_bit h.ienable vector ≡ true)
    × ((h.privilege_level < target)
        ⊎ ((h.privilege_level ≡ target)
            × (((target ≡ level_machine) × (h.status.mie ≡ true))
                ⊎ ((target ≢ level_machine) × (h.status.sie ≡ true)))))

pub deliverable_at_iff :
    (h : Hart) (vector target : ℕ) → (deliverable_at h vector target ≡ true) ↔ Takes h vector target
unfolding deliverable_at
deliverable_at_iff h vector target = ground arith

-- The level that `mideleg` gives an interrupt.
abbrev pub target_of : Hart → ℕ → ℕ
target_of h vector = if test_bit h.idelegation vector then level_supervisor else level_machine

-- For the twelve vectors of the architecture, `is_interrupt_deliverable` fails no assertion, and it says
-- yes exactly when the interrupt is pending and enabled and its target level, which mideleg gives, is
-- above the current level, or equal to it with interrupts enabled at that level.
pub is_interrupt_deliverable_iff :
    (h : Hart) (vector : ℕ)
    → vector < 12
    → (answer : Bool) × (is_interrupt_deliverable h vector ≡ some answer)
      × ((answer ≡ true) ↔ Takes h vector (target_of h vector))
unfolding is_interrupt_deliverable interrupt_target_privilege_level
is_interrupt_deliverable_iff h vector small = (
  deliverable_at h vector (target_of h vector),
  ground arith,
  deliverable_at_iff h vector (target_of h vector),
)

pub Takes-is_interrupt_deliverable :
    (h : Hart) (vector : ℕ)
    → vector < 12
    → Takes h vector (target_of h vector)
    → is_interrupt_deliverable h vector ≡ some true
Takes-is_interrupt_deliverable h vector small takes =
    let (answer, returns, iff) = is_interrupt_deliverable_iff h vector small in
    returns ∙ ap some (iff.1 takes)

-- The order in which the privileged architecture takes interrupts: MEI, MSI, MTI, SEI, SSI, STI. The
-- other vectors have no place in it.
unfoldable pub precedence : ℕ → ℕ
precedence vector =
    if vector == 11
    then 0
    else if vector == 3
    then 1
    else if vector == 7
    then 2
    else if vector == 9
    then 3
    else if vector == 1
    then 4
    else if vector == 5
    then 5
    else 6

-- None of these is deliverable.
abbrev pub AllBlocked : Hart → List ℕ → Type 0
AllBlocked h [] = Unit
AllBlocked h (vector ∷ rest) = (is_interrupt_deliverable h vector ≡ some false) × AllBlocked h rest

-- The first deliverable vector of a list is the one taken.
record First (h : Hart) (order : List ℕ) (vector : ℕ) (after : Hart) : Type 0 where
  pub before : List ℕ
  pub rest : List ℕ
  pub splits : order ≡ before ++ (vector ∷ rest)
  pub blocked : AllBlocked h before
  pub ready : is_interrupt_deliverable h vector ≡ some true
  pub delivers : deliver_interrupt h vector ≡ some after

abbrev TakesFirst : Hart → List ℕ → Outcome → Type 0
TakesFirst h order no_interrupt = AllBlocked h order
TakesFirst h order (taken vector after) = First h order vector after

-- What the architecture asks of the vector that is taken: nothing that comes before it in the order is
-- deliverable.
pub record Chosen (h : Hart) (vector : ℕ) (after : Hart) : Type 0 where
  pub ranked : precedence vector < 6
  pub ready : is_interrupt_deliverable h vector ≡ some true
  pub delivers : deliver_interrupt h vector ≡ some after
  pub outranks :
      (other : ℕ)
      → precedence other < precedence vector
      → is_interrupt_deliverable h other ≡ some false

-- None of the six is deliverable.
abbrev pub NoneReady : Hart → Type 0
NoneReady h = (vector : ℕ) → precedence vector < 6 → is_interrupt_deliverable h vector ≡ some false

abbrev pub IsDelivery : Hart → Outcome → Type 0
IsDelivery h no_interrupt = NoneReady h
IsDelivery h (taken vector after) = Chosen h vector after

-- The vectors of the architecture.
abbrev AllVectors : List ℕ → Type 0
AllVectors [] = Unit
AllVectors (vector ∷ rest) = (vector < 12) × AllVectors rest

-- Neither of the two operations fails its assertion on such a vector.
deliver_interrupt_total :
    (h : Hart) (vector : ℕ)
    → vector < 12
    → (after : Hart) × (deliver_interrupt h vector ≡ some after)
unfolding deliver_interrupt interrupt_target_privilege_level raise_trap_raw
deliver_interrupt_total h vector small = elim (Option-cases (deliver_interrupt h vector)) [
  | inl refused ↦ absurd (ground arith)
  | inr returns ↦ returns
]

is_interrupt_deliverable_total :
    (h : Hart) (vector : ℕ)
    → vector < 12
    → (is_interrupt_deliverable h vector ≡ some true)
      ⊎ (is_interrupt_deliverable h vector ≡ some false)
unfolding is_interrupt_deliverable interrupt_target_privilege_level
is_interrupt_deliverable_total h vector small = ground arith

First-later :
    {h : Hart} {order : List ℕ} {vector : ℕ} {after : Hart} (skipped : ℕ)
    → is_interrupt_deliverable h skipped ≡ some false
    → First h order vector after
    → First h (skipped ∷ order) vector after
First-later skipped blocked c = record {
  before = skipped ∷ c.before;
  rest = c.rest;
  splits = ap (λ r. skipped ∷ r) c.splits;
  blocked = (blocked, c.blocked);
  ready = c.ready;
  delivers = c.delivers;
}

TakesFirst-later :
    (h : Hart) (order : List ℕ) (skipped : ℕ) (outcome : Outcome)
    → is_interrupt_deliverable h skipped ≡ some false
    → TakesFirst h order outcome
    → TakesFirst h (skipped ∷ order) outcome
TakesFirst-later h order skipped no_interrupt blocked d = (blocked, d)
TakesFirst-later h order skipped (taken vector after) blocked d = First-later skipped blocked d

deliver_first-ready :
    (h : Hart) (vector : ℕ) (rest : List ℕ) (after : Hart)
    → is_interrupt_deliverable h vector ≡ some true
    → deliver_interrupt h vector ≡ some after
    → deliver_first h (vector ∷ rest) ≡ some (taken vector after)
unfolding deliver_first
deliver_first-ready h vector rest after ready e = ground arith

deliver_first-blocked :
    (h : Hart) (vector : ℕ) (rest : List ℕ)
    → is_interrupt_deliverable h vector ≡ some false
    → deliver_first h (vector ∷ rest) ≡ deliver_first h rest
unfolding deliver_first
deliver_first-blocked h vector rest blocked = ground arith

deliver_first-TakesFirst :
    (h : Hart) (order : List ℕ)
    → AllVectors order
    → (outcome : Outcome) × (deliver_first h order ≡ some outcome) × TakesFirst h order outcome
unfolding deliver_first
deliver_first-TakesFirst h [] small = (no_interrupt, refl, tt)
deliver_first-TakesFirst h (vector ∷ rest) (small, smalls) =
    elim (is_interrupt_deliverable_total h vector small) [
      | inl ready ↦
          (let (after, e) = deliver_interrupt_total h vector small in
            (
              taken vector after,
              deliver_first-ready h vector rest after ready e,
              record {
                before = [];
                rest = rest;
                splits = refl;
                blocked = tt;
                ready = ready;
                delivers = e;
              },
            ))
      | inr blocked ↦
          (let (outcome, e, d) = deliver_first-TakesFirst h rest smalls in
            (
              outcome,
              deliver_first-blocked h vector rest blocked ∙ e,
              TakesFirst-later h rest vector outcome blocked d,
            ))
    ]

NoneReady-blocked : (h : Hart) → AllBlocked h delivery_order → NoneReady h
unfolding precedence
NoneReady-blocked h blocked vector ranked = ground (arith, ranked, blocked)

-- The vectors that stand before another in the code's list are those of smaller precedence.
first_outranks :
    (h : Hart) (before rest : List ℕ) (vector other : ℕ)
    → delivery_order ≡ before ++ (vector ∷ rest)
    → AllBlocked h before
    → (precedence vector < 6)
      × (precedence other < precedence vector → is_interrupt_deliverable h other ≡ some false)
unfolding precedence
first_outranks h [] rest vector other e blocked = ground (arith, e, blocked)
first_outranks h (a ∷ []) rest vector other e blocked = ground (arith, e, blocked)
first_outranks h (a ∷ b ∷ []) rest vector other e blocked = ground (arith, e, blocked)
first_outranks h (a ∷ b ∷ c ∷ []) rest vector other e blocked = ground (arith, e, blocked)
first_outranks h (a ∷ b ∷ c ∷ d ∷ []) rest vector other e blocked = ground (arith, e, blocked)
first_outranks h (a ∷ b ∷ c ∷ d ∷ k ∷ []) rest vector other e blocked = ground (arith, e, blocked)
first_outranks h (a ∷ b ∷ c ∷ d ∷ k ∷ g ∷ []) rest vector other e blocked =
    absurd (ground (arith, e))
first_outranks h (a ∷ b ∷ c ∷ d ∷ k ∷ g ∷ i ∷ more) rest vector other e blocked =
    absurd (ground (arith, e))

First-Chosen :
    (h : Hart) (vector : ℕ) (after : Hart)
    → First h delivery_order vector after
    → Chosen h vector after
First-Chosen h vector after f = record {
  ranked = (first_outranks h f.before f.rest vector 0 f.splits f.blocked).0;
  ready = f.ready;
  delivers = f.delivers;
  outranks = λ other. (first_outranks h f.before f.rest vector other f.splits f.blocked).1;
}

TakesFirst-IsDelivery :
    (h : Hart) (outcome : Outcome) → TakesFirst h delivery_order outcome → IsDelivery h outcome
TakesFirst-IsDelivery h no_interrupt blocked = NoneReady-blocked h blocked
TakesFirst-IsDelivery h (taken vector after) f = First-Chosen h vector after f

-- The loop over the delivery order never fails an assertion. It takes a deliverable interrupt of the six
-- that nothing deliverable comes before in the order MEI, MSI, MTI, SEI, SSI, STI of the architecture,
-- or none, and then none of the six is deliverable.
pub deliver_first-IsDelivery :
    (h : Hart)
    → (outcome : Outcome) × (deliver_first h delivery_order ≡ some outcome) × IsDelivery h outcome
deliver_first-IsDelivery h =
    let (outcome, e, d) = deliver_first-TakesFirst h delivery_order (
      omega arith,
      (omega arith, (omega arith, (omega arith, (omega arith, (omega arith, tt))))),
    ) in
    (outcome, e, TakesFirst-IsDelivery h outcome d)

-- Taking an interrupt masks its own level: when one of the twelve vectors has been delivered, an
-- interrupt that is still deliverable has the machine as its target, and the one delivered has the
-- supervisor.
pub deliver_interrupt_masks :
    (h after : Hart) (vector other : ℕ)
    → vector < 12
    → other < 12
    → deliver_interrupt h vector ≡ some after
    → is_interrupt_deliverable after other ≡ some true
    → (target_of h vector ≡ level_supervisor) × (target_of after other ≡ level_machine)
unfolding deliver_interrupt is_interrupt_deliverable interrupt_target_privilege_level deliverable_at
    raise_trap_raw setup_mmode_trap setup_smode_trap flush_translation_cache_on_address_space_change
    flush_translation_cache
deliver_interrupt_masks h after vector other small small' e ready = ground arith
