-- ===== src/Emit/Block.antt =====
-- What the blocks and the translators of vmm/translate_*.c have in common.
use zelda_riscv_emulator.Base.{ℕ, Option, none, List, [], ◌∷◌}
use zelda_riscv_emulator.Host.{Functions, Outcome, run}
use zelda_riscv_emulator.Host.State.{Cpu}
use zelda_riscv_emulator.Decode.{Decoding}
use zelda_riscv_emulator.Translation.{PrefetchBlob}
use zelda_riscv_emulator.Translation.Cache.{Block}

-- The parameters of a block with two operands: the indices of rs1, rs2 and rd.
abbrev pub three_registers : Decoding → List ℕ
three_registers dec = dec.rs1_index ∷ dec.rs2_index ∷ dec.rd_index ∷ []

-- A translator gives the blob back after it has written its block; `none` is a failing assertion.
abbrev pub Translator : Type 0
Translator = Decoding → PrefetchBlob → Option PrefetchBlob

-- The host enters a block at its first instruction.
abbrev pub execute : Functions → Block → Cpu → Outcome
execute call block c = run call block.params block.code none c
