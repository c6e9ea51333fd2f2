-- ===== src/Emit/Amo/Tests.antt =====
-- Runs of the slow paths on a memory of words: x1 is 128, x2 is 5, and every word is 3.
use zelda_riscv_emulator.Base.{ℕ, ◌≡◌, true, some, refl, arith, replicate, update, set, get_or}
use zelda_riscv_emulator.Emit.Amo.{
  Accesses, AmoState, Slow, no_reservation, returned, holds_for, invalidate, reserve, lr_slowpath,
  sc_slowpath, amo_instruction_slowpath,
}
use zelda_riscv_emulator.Emit.Amo.ReadModifyWrite.{
  AmoOp, amo_of, read_modify_write, amo_instruction_slowpath-read_modify_write,
}
use zelda_riscv_emulator.Emit.Amo.Search.{IsValid, left}
use zelda_riscv_emulator.Emit.Amo.Reservations.{
  amo_instruction_slowpath-IsValid, sc_slowpath-lr_slowpath,
}

abbrev words : Accesses (ℕ → ℕ)
words = record {
  mmu_read32_aligned = λ address m. returned (m address, m);
  mmu_write32_aligned = λ address v m. returned (update m address v);
}

abbrev sample : AmoState (ℕ → ℕ)
sample = record {
  registers = set (set (replicate 32 0) 1 128) 2 5;
  hart_id = 0;
  memory = λ address. 3;
  reservations = replicate 16 no_reservation;
  next_pointer = 0;
}

sample-IsValid : IsValid sample
sample-IsValid = record { items = refl; pointer = omega arith }

-- AMOADD.W with the destination in its address register.
amo_instruction_slowpath-read_modify_write_example :
    amo_instruction_slowpath words 1 2 1 0 sample
    ≡ some (read_modify_write words sample 1 2 1 AmoOp.amoadd)
unfolding amo_of
amo_instruction_slowpath-read_modify_write_example =
    amo_instruction_slowpath-read_modify_write words sample 1 2 1 AmoOp.amoadd 0 refl (omega arith)

abbrev added : Slow (ℕ → ℕ)
added = read_modify_write words sample 1 2 1 AmoOp.amoadd

amo_instruction_slowpath-IsValid_example : IsValid (left added)
amo_instruction_slowpath-IsValid_example =
    amo_instruction_slowpath-IsValid words 1 2 1 0 sample added sample-IsValid
      amo_instruction_slowpath-read_modify_write_example

-- LR.W into x3, and SC.W of x2 with its result in x4.
abbrev loaded : AmoState (ℕ → ℕ)
loaded = left (lr_slowpath words 1 0 3 sample)

lr_slowpath-loaded : lr_slowpath words 1 0 3 sample ≡ returned loaded
unfolding lr_slowpath
lr_slowpath-loaded = refl

sc_slowpath-lr_slowpath_example :
    (idx : ℕ) × (holds_for 0 128 (get_or loaded.reservations idx no_reservation) ≡ true)
    × (sc_slowpath words 1 2 4 loaded
        ≡ returned (record loaded {
          registers = set loaded.registers 4 0;
          memory = update loaded.memory 128 5;
          reservations = invalidate idx loaded.reservations;
        }))
unfolding lr_slowpath reserve
sc_slowpath-lr_slowpath_example =
    sc_slowpath-lr_slowpath words 1 0 3 1 2 4 sample loaded loaded 3 (λ address. 3)
      (update loaded.memory 128 5) sample-IsValid (omega arith) refl lr_slowpath-loaded refl refl
      refl refl
