-- ===== src/Plic/Invariant.antt =====
-- The invariant of the PLIC: widths, and pending bits that mirror the device lines.
use zelda_riscv_emulator.Base.{
  ℕ, ◌-◌, ◌/◌, ◌^◌, ◌≤◌, ◌<◌, ◌≡◌, refl, Bool, true, false, some, length, get_or, arith, length-set,
  length-replicate, get_or-set, u32, sub64, test_bit, test_bit-set_bit, test_bit-clear_bit, set_bit,
  clear_bit, set_bit-lt, clear_bit-lt, test_bit_ext,
}
use zelda_riscv_emulator.Plic.{
  PlicState, nr_sources, max_contexts, init, set_pending, best_source, claim, complete, mmio_read,
  mmio_write, reg_context_base, reg_context_stride,
}
use zelda_riscv_emulator.Plic.Best.{best_source-IsBest}

pub record IsValid (p : PlicState) : Type 0 where
  pub base_word : p.base < 2 ^ 32
  pub contexts_in : p.nr_contexts ≤ max_contexts
  pub priority_len : length p.priority ≡ nr_sources
  pub enable_len : length p.enable ≡ max_contexts
  pub threshold_len : length p.threshold ≡ max_contexts
  pub no_source_zero : get_or p.priority 0 0 ≡ 0
  pub asserted_word : p.asserted < 2 ^ 32
  pub claimed_word : p.claimed < 2 ^ 32
  -- A source is pending exactly when its device line is asserted.
  pub level : p.pending ≡ p.asserted

pub init-IsValid :
    (base size nr_harts : ℕ) → base < 2 ^ 32 → nr_harts ≤ 64 → IsValid (init base size nr_harts)
unfolding init
init-IsValid base size nr_harts hb hn = record {
  base_word = hb;
  contexts_in = omega arith;
  priority_len = length-replicate {A = ℕ} 32 0;
  enable_len = length-replicate {A = ℕ} 128 0;
  threshold_len = length-replicate {A = ℕ} 128 0;
  no_source_zero = refl;
  asserted_word = omega arith;
  claimed_word = omega arith;
  level = refl;
}

set_bit_same : (w s : ℕ) → s < 32 → w < 2 ^ 32 → test_bit w s ≡ true → set_bit w s ≡ w
set_bit_same w s hs hw h =
    test_bit_ext (set_bit w s) w (set_bit-lt w s hs hw) hw
      λ k hk. ground (arith, test_bit-set_bit w s k)

clear_bit_same : (w s : ℕ) → s < 32 → w < 2 ^ 32 → test_bit w s ≡ false → clear_bit w s ≡ w
clear_bit_same w s hs hw h =
    test_bit_ext (clear_bit w s) w (clear_bit-lt w s hw) hw
      λ k hk. ground (arith, test_bit-clear_bit w s k hs hk)

-- A device line moves: the pending bits follow.
pub set_pending-IsValid :
    (p : PlicState) (source : ℕ) (line : Bool) {q : PlicState}
    → IsValid p
    → set_pending p source line ≡ some q
    → IsValid q
unfolding set_pending
set_pending-IsValid p source line v e =
    ground (arith, set_bit-lt p.asserted source, clear_bit-lt p.asserted source)

pub claim-IsValid : (p : PlicState) (context : ℕ) → IsValid p → IsValid (claim p context).1
unfolding claim
claim-IsValid p context v =
    ground
      (arith, (best_source-IsBest p context).in_range, set_bit-lt p.claimed (best_source p context))

pub complete-IsValid :
    (p : PlicState) (context source : ℕ) → IsValid p → IsValid (complete p context source)
unfolding complete
complete-IsValid p context source v = ground (
  arith,
  clear_bit-lt p.claimed source,
  set_bit_same p.asserted source,
  clear_bit_same p.asserted source,
)

pub mmio_read-IsValid :
    (p : PlicState) (addr size : ℕ) → IsValid p → IsValid (mmio_read p addr size).1
unfolding mmio_read
mmio_read-IsValid p addr size v =
    ground
      (arith, claim-IsValid p ((u32 (sub64 addr p.base) - reg_context_base) / reg_context_stride) v)

-- Every store to the PLIC, at any address and of any value, keeps its state valid: the widths and
-- lengths hold, source 0 has no priority, and a source is pending exactly when its line is
-- asserted.
pub mmio_write-IsValid :
    (p : PlicState) (addr size value : ℕ) → IsValid p → IsValid (mmio_write p addr size value)
unfolding mmio_write
mmio_write-IsValid p addr size value v = ground (
  arith,
  complete-IsValid p (context_at offset) (u32 value) v,
  length-set p.priority (offset / 4) (u32 value),
  get_or-set p.priority (offset / 4) 0 (u32 value) 0,
  length-set p.enable ((offset - 0x2000) / 0x80) (u32 value),
  length-set p.threshold (context_at offset) (u32 value),
)
  where
    offset : ℕ
    offset = u32 (sub64 addr p.base)

    context_at : ℕ → ℕ
    context_at o = (o - reg_context_base) / reg_context_stride
