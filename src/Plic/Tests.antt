-- ===== src/Plic/Tests.antt =====
-- Runs of the PLIC model with one hart: source 10 is asserted and enabled for the supervisor.
use zelda_riscv_emulator.Base.{◌≡◌, ◌≢◌, ◌&&◌, arith, refl, test_bit, get_or, set, replicate}
use zelda_riscv_emulator.Plic.{
  PlicState, init, candidates, best_source, claim, complete, mmio_read, mmio_write, set_pending,
}
use zelda_riscv_emulator.Plic.Best.{IsBest, best_source-IsBest}
use zelda_riscv_emulator.Plic.Claim.{claim_exclusive, candidates-complete, start, load}
use zelda_riscv_emulator.Plic.Invariant.{IsValid, mmio_write-IsValid}

abbrev ready : PlicState
ready = record (init 0xc000000 0x400000 1) {
  priority = set (replicate 32 0) 10 1;
  asserted = 0x400;
  pending = 0x400;
  enable = set (replicate 128 0) 1 0x400;
}

ready-IsValid : IsValid ready
unfolding init
ready-IsValid = record {
  base_word = omega arith;
  contexts_in = omega arith;
  priority_len = refl;
  enable_len = refl;
  threshold_len = refl;
  no_source_zero = refl;
  asserted_word = omega arith;
  claimed_word = omega arith;
  level = refl;
}

claim-ready : (claim ready 1).0 ≡ 10
unfolding claim init best_source zelda_riscv_emulator.Plic.best_from test_bit candidates
claim-ready = refl

best_source-IsBest_example : IsBest ready 1 (best_source ready 1)
best_source-IsBest_example = best_source-IsBest ready 1

claimed_nothing : (claim ready 1).0 ≢ 0
claimed_nothing e = ground (arith, claim-ready)

claim_exclusive_example :
    (claim (mmio_read (claim ready 1).1 0xc201004 4).1 0).0 ≢ (claim ready 1).0
claim_exclusive_example =
    claim_exclusive ready 1 0 ready-IsValid claimed_nothing (load 0xc201004 4 start)

candidates-complete_example :
    test_bit (candidates (complete ready 1 10) 1) 10
    ≡ (test_bit 0x400 10 && test_bit (get_or (set (replicate 128 0) 1 0x400) 1 0) 10)
candidates-complete_example =
    candidates-complete ready 1 1 10 ready-IsValid (omega arith) (omega arith)

mmio_write-IsValid_example : IsValid (mmio_write ready 0xc201004 4 10)
mmio_write-IsValid_example = mmio_write-IsValid ready 0xc201004 4 10 ready-IsValid
