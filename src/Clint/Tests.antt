-- ===== src/Clint/Tests.antt =====
-- Runs of the CLINT model with two harts.
use zelda_riscv_emulator.Base.{◌≡◌, arith, refl}
use zelda_riscv_emulator.Clint.{ClintState, init, write_at, read_at, skip_to_next_deadline}
use zelda_riscv_emulator.Clint.Invariant.{IsValid, init-IsValid, write_at-IsValid}
use zelda_riscv_emulator.Clint.Timer.{Skipped, skip_to_next_deadline-Skipped}
use zelda_riscv_emulator.Clint.Registers.{half_offset}

abbrev fresh : ClintState
fresh = init 0x2000000 0x10000 2

fresh-IsValid : IsValid fresh
fresh-IsValid = init-IsValid 0x2000000 0x10000 2 (omega arith) (omega arith)

-- The timer of hart 1 is armed for tick 500.
abbrev armed : ClintState
armed = write_at (write_at fresh (half_offset 1 1) 4 0) (half_offset 1 0) 4 500

armed-IsValid : IsValid armed
armed-IsValid =
    write_at-IsValid (write_at fresh (half_offset 1 1) 4 0) (half_offset 1 0) 4 500
      (write_at-IsValid fresh (half_offset 1 1) 4 0 fresh-IsValid (omega arith)) (omega arith)

skip_to_armed : (skip_to_next_deadline armed).0.mtime ≡ 500
unfolding skip_to_next_deadline zelda_riscv_emulator.Clint.earliest_from write_at init
    zelda_riscv_emulator.Clint.with_low zelda_riscv_emulator.Clint.with_high
skip_to_armed = refl

skip_to_next_deadline-Skipped_example : Skipped armed (skip_to_next_deadline armed)
skip_to_next_deadline-Skipped_example = skip_to_next_deadline-Skipped armed armed-IsValid
