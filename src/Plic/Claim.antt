-- ===== src/Plic/Claim.antt =====
-- Claiming and completing an interrupt source.
use zelda_riscv_emulator.Base.{
  ℕ, ◌-◌, ◌/◌, ◌%◌, ◌≤◌, ◌<◌, ◌≡◌, ◌≢◌, Bool, true, false, ◌&&◌, some, get_or, arith, test_bit,
  test_bit-and, test_bit-not32, test_bit-set_bit, clear_bit, set_bit, clear_bit-lt,
  test_bit-clear_bit, u32, sub64, ◌^◌, bit_and, not32,
}
use zelda_riscv_emulator.Plic.{
  PlicState, nr_sources, candidates, best_source, claim, complete, set_pending, mmio_read,
  mmio_write, reg_context_base, reg_context_stride, reg_context_claim,
}
use zelda_riscv_emulator.Plic.Invariant.{
  IsValid, set_pending-IsValid, claim-IsValid, mmio_read-IsValid, mmio_write-IsValid,
}
use zelda_riscv_emulator.Plic.Best.{best_source-IsBest}

-- A source that some context has claimed and not completed.
abbrev pub IsClaimed : PlicState → ℕ → Type 0
IsClaimed p s = test_bit p.claimed s ≡ true

candidates-claimed :
    (p : PlicState) (context s : ℕ)
    → p.claimed < 2 ^ 32
    → s < nr_sources
    → IsClaimed p s
    → test_bit (candidates p context) s ≡ false
unfolding candidates
candidates-claimed p context s w hs h = ground (
  arith,
  test_bit-and (bit_and p.pending (not32 p.claimed)) (get_or p.enable context 0) s,
  test_bit-and p.pending (not32 p.claimed) s,
  test_bit-not32 p.claimed s hs w,
)

-- A claimed source is offered to no context.
best_source-ne-claimed :
    (p : PlicState) (context s : ℕ)
    → p.claimed < 2 ^ 32
    → 0 < s
    → s < nr_sources
    → IsClaimed p s
    → best_source p context ≢ s
best_source-ne-claimed p context s w pos hs h e = ground (
  arith,
  (best_source-IsBest p context).qualifies (omega arith),
  candidates-claimed p context s w hs h,
)

-- `claim` records what it returns, and forgets no other claim.
IsClaimed-claim_self :
    (p : PlicState) (context : ℕ)
    → (claim p context).0 ≢ 0
    → IsClaimed (claim p context).1 (claim p context).0
unfolding claim
IsClaimed-claim_self p context ne =
    ground (arith, test_bit-set_bit p.claimed (best_source p context) (best_source p context))

IsClaimed-claim : (p : PlicState) (context s : ℕ) → IsClaimed p s → IsClaimed (claim p context).1 s
unfolding claim
IsClaimed-claim p context s h = ground (arith, test_bit-set_bit p.claimed (best_source p context) s)

IsClaimed-complete :
    (p : PlicState) (context t s : ℕ)
    → s < nr_sources
    → t ≢ s
    → IsClaimed p s
    → IsClaimed (complete p context t) s
unfolding complete
IsClaimed-complete p context t s hs ne h = ground (arith, test_bit-clear_bit p.claimed t s)

IsClaimed-mmio_read :
    (p : PlicState) (addr size s : ℕ) → IsClaimed p s → IsClaimed (mmio_read p addr size).1 s
unfolding mmio_read
IsClaimed-mmio_read p addr size s h =
    ground (
      arith,
      IsClaimed-claim p ((u32 (sub64 addr p.base) - reg_context_base) / reg_context_stride) s,
    )

-- A store that completes source `s`: its value goes to a claim register.
abbrev pub Completes : ℕ → PlicState → ℕ → ℕ → Type 0
Completes s p addr value =
    let offset = u32 (sub64 addr p.base) in
    (reg_context_base ≤ offset)
    × ((offset - reg_context_base) % reg_context_stride ≡ reg_context_claim)
    × (u32 value ≡ s)

IsClaimed-mmio_write :
    (p : PlicState) (addr size value s : ℕ)
    → s < nr_sources
    → ¬ Completes s p addr value
    → IsClaimed p s
    → IsClaimed (mmio_write p addr size value) s
unfolding mmio_write
IsClaimed-mmio_write p addr size value s hs other h = ground (
  arith,
  IsClaimed-complete p ((u32 (sub64 addr p.base) - reg_context_base) / reg_context_stride)
      (u32 value) s hs,
)

IsClaimed-set_pending :
    (p : PlicState) (source s : ℕ) (line : Bool) {q : PlicState}
    → set_pending p source line ≡ some q
    → IsClaimed p s
    → IsClaimed q s
unfolding set_pending
IsClaimed-set_pending p source s line e h = ground arith

-- What the devices and the guest may do, in any order, short of completing source `s`.
pub data Held (s : ℕ) (p : PlicState) : PlicState → Type 0 where
  start : Held s p p
  drive :
      {q r : PlicState} (source : ℕ) (line : Bool)
      → Held s p q
      → set_pending q source line ≡ some r
      → Held s p r
  load : {q : PlicState} (addr size : ℕ) → Held s p q → Held s p (mmio_read q addr size).1
  store :
      {q : PlicState} (addr size value : ℕ)
      → Held s p q
      → ¬ Completes s q addr value
      → Held s p (mmio_write q addr size value)

Held-IsValid : {s : ℕ} {p q : PlicState} → Held s p q → IsValid p → IsValid q
Held-IsValid start v = v
Held-IsValid (drive source line run e) v = set_pending-IsValid _ source line (Held-IsValid run v) e
Held-IsValid (load addr size run) v = mmio_read-IsValid _ addr size (Held-IsValid run v)
Held-IsValid (store addr size value run other) v =
    mmio_write-IsValid _ addr size value (Held-IsValid run v)

Held-IsClaimed :
    {s : ℕ} {p q : PlicState} → s < nr_sources → Held s p q → IsClaimed p s → IsClaimed q s
Held-IsClaimed hs start h = h
Held-IsClaimed {s} hs (drive source line run e) h =
    IsClaimed-set_pending _ source s line e (Held-IsClaimed hs run h)
Held-IsClaimed {s} hs (load addr size run) h =
    IsClaimed-mmio_read _ addr size s (Held-IsClaimed hs run h)
Held-IsClaimed {s} hs (store addr size value run other) h =
    IsClaimed-mmio_write _ addr size value s hs other (Held-IsClaimed hs run h)

claim_best : (p : PlicState) (context : ℕ) → (claim p context).0 ≡ best_source p context
unfolding claim
claim_best p context = ground arith

-- From a valid state, once a claim by one context has returned a source, no claim by any context
-- returns that source again, whatever lines, loads and stores come between, until a store
-- completes it.
pub claim_exclusive :
    (p : PlicState) (context other : ℕ) {q : PlicState}
    → IsValid p
    → (claim p context).0 ≢ 0
    → Held (claim p context).0 (claim p context).1 q
    → (claim q other).0 ≢ (claim p context).0
claim_exclusive p context other {q} v ne run = rw (claim_best q other) (
    best_source-ne-claimed q other source valid.claimed_word (omega arith) in_range
      (Held-IsClaimed in_range run (IsClaimed-claim_self p context ne)))
  where
    source : ℕ
    source = (claim p context).0

    valid : IsValid q
    valid = Held-IsValid run (claim-IsValid p context v)

    in_range : source < nr_sources
    in_range = rw (claim_best p context) (best_source-IsBest p context).in_range

-- In a valid state, after source `s` from 1 to 31 is completed it is a candidate for a context
-- exactly when its device line is asserted and the context enables it.
pub candidates-complete :
    (p : PlicState) (context other s : ℕ)
    → IsValid p
    → 0 < s
    → s < nr_sources
    → test_bit (candidates (complete p context s) other) s
      ≡ (test_bit p.asserted s && test_bit (get_or p.enable other 0) s)
unfolding candidates complete
candidates-complete p context other s v pos hs = ground (
  arith,
  test_bit-and (bit_and (set_bit p.pending s) (not32 (clear_bit p.claimed s))) enabled s,
  test_bit-and (bit_and (clear_bit p.pending s) (not32 (clear_bit p.claimed s))) enabled s,
  test_bit-and (set_bit p.pending s) (not32 (clear_bit p.claimed s)) s,
  test_bit-and (clear_bit p.pending s) (not32 (clear_bit p.claimed s)) s,
  test_bit-not32 (clear_bit p.claimed s) s hs (clear_bit-lt p.claimed s v.claimed_word),
  test_bit-clear_bit p.claimed s s hs hs,
  test_bit-clear_bit p.pending s s hs hs,
  test_bit-set_bit p.pending s s,
)
  where
    enabled : ℕ
    enabled = get_or p.enable other 0

-- In a valid state, if source `s` from 1 to 31 is completed while its line is still asserted, a
-- context that enables it and whose threshold is below its priority is offered an interrupt again.
pub best_source-complete :
    (p : PlicState) (context other s : ℕ)
    → IsValid p
    → 0 < s
    → s < nr_sources
    → test_bit p.asserted s ≡ true
    → test_bit (get_or p.enable other 0) s ≡ true
    → get_or p.threshold other 0 < get_or p.priority s 0
    → best_source (complete p context s) other ≢ 0
best_source-complete p context other s v pos hs line enabled above =
    ((best_source-IsBest (complete p context s) other).greatest s pos hs
      (rw (candidates-complete p context other s v pos hs, line, enabled), kept)).0
  where
    kept :
        get_or (complete p context s).threshold other 0 < get_or (complete p context s).priority s 0
    kept = unfold complete in ground arith
