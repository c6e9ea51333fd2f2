-- ===== src/Emit/MulDiv/Divides.antt =====
-- The blocks of the divisions against the operations of the M extension.
use zelda_riscv_emulator.Base.{
  ℕ, ◌+◌, ◌-◌, ◌*◌, ◌^◌, ◌<◌, ◌≡◌, ◌≢◌, true, false, ◌==◌, not, none, some, List, ◌∷◌, ◌++◌, arith,
  refl, ◌∙◌, u32,
}
use zelda_riscv_emulator.Host.{
  Functions, is_label, divide_error, run, exec, Cond, holds, compare_flags, fetch, deposit, proceed,
  Instr, falls, stops,
}
use zelda_riscv_emulator.Host.State.{
  rax, rbx, rdx, rsi, rdi, r8, Cpu, get_reg, set_reg, put, Scratch, Flags,
}
use zelda_riscv_emulator.Host.Guest.{Guest, Holds, Retires, retire, straight}
use zelda_riscv_emulator.Decode.{Decoding}
use zelda_riscv_emulator.Emit.Block.{three_registers}
use zelda_riscv_emulator.Emit.Operands.{NamesRegisters, fetched, loads_lem, reaches_lem, b, b-lt}
use zelda_riscv_emulator.Emit.MulDiv.{unless_zero}

zero_test : (y : ℕ) → y < 2 ^ 32 → holds Cond.ne (compare_flags (u32 (u32 y)) 0) ≡ not (y == 0)
unfolding holds compare_flags
zero_test y p = ground arith

module _ {hart : ℕ} {c : Cpu} {g : Guest} (call : Functions) (dec : Decoding) (h : Holds hart c g)
    (n : NamesRegisters dec) (code1 : List Instr) (s : Scratch) (f : Flags)
    (between : straight call
        (three_registers dec)
        code1
        (put rax (g.x dec.rs1_index) (put rsi (hart + 4 * dec.rs1_index) c))
      ≡ some (record c { scratch = s; flags = f }))
    (division : Instr) (plain : is_label 2 division ≡ false) where
  -- Both operands are loaded, and the divisor has been compared with zero.
  abbrev pub compared : Cpu
  compared =
      let d = fetched call dec h n rsi rax rbx code1 s f between in
      record (put r8 (u32 (b dec g)) d) { flags = compare_flags (u32 (u32 (b dec g))) 0 }

  abbrev pub block : List Instr
  block =
      fetch 0 rsi rax (code1 ++ fetch 1 rsi rbx (unless_zero division (deposit 2 rdi rax proceed)))

  pub skips_lem :
      b dec g ≡ 0
      → Retires hart
          (run call (three_registers dec) block none c)
          (retire dec.rd_index (2 ^ 32 - 1) g)
  unfolding run exec get_reg set_reg
  skips_lem none_left =
      let test : holds Cond.ne (compare_flags (u32 (u32 (b dec g))) 0) ≡ false =
        zero_test (b dec g) (b-lt dec h n) ∙ ground (arith, none_left) in
      reaches_lem call dec h n rsi rax rbx code1 s f between rdi rax
        (unless_zero division (deposit 2 rdi rax proceed))
        (set_reg rax (2 ^ 32 - 1) compared.scratch) compared.flags (2 ^ 32 - 1)
        (rw (run, test, plain) refl) refl (omega arith)

  pub divides_lem :
      (q r : ℕ)
      → b dec g ≢ 0
      → exec call (three_registers dec) division compared ≡ falls (put rdx r (put rax q compared))
      → q < 2 ^ 32
      → Retires hart (run call (three_registers dec) block none c) (retire dec.rd_index q g)
  unfolding run exec get_reg set_reg
  divides_lem q r some_b e word =
      let test : holds Cond.ne (compare_flags (u32 (u32 (b dec g))) 0) ≡ true =
        zero_test (b dec g) (b-lt dec h n) ∙ ground (arith, some_b) in
      reaches_lem call dec h n rsi rax rbx code1 s f between rdi rax
        (unless_zero division (deposit 2 rdi rax proceed))
        (set_reg rdx r (set_reg rax q compared.scratch)) compared.flags q (rw (run, test, e) refl)
        refl word

  pub faults_lem :
      b dec g ≢ 0
      → exec call (three_registers dec) division compared ≡ stops divide_error
      → run call (three_registers dec) block none c ≡ divide_error
  unfolding run exec get_reg set_reg
  faults_lem some_b e =
      let test : holds Cond.ne (compare_flags (u32 (u32 (b dec g))) 0) ≡ true =
        zero_test (b dec g) (b-lt dec h n) ∙ ground (arith, some_b) in
      loads_lem call dec h n rsi rax rbx code1 s f between
        (unless_zero division (deposit 2 rdi rax proceed))
      ∙ (rw (run, test, e) refl)

  -- `rem` and `remu` divide without a look at the divisor.
  abbrev pub loaded : Cpu
  loaded = fetched call dec h n rsi rax rbx code1 s f between

  abbrev pub unguarded : List Instr
  unguarded = fetch 0 rsi rax (code1 ++ fetch 1 rsi rbx (division ∷ deposit 2 rdi rdx proceed))

  pub remains_lem :
      (q r : ℕ)
      → exec call (three_registers dec) division loaded ≡ falls (put rdx r (put rax q loaded))
      → r < 2 ^ 32
      → Retires hart (run call (three_registers dec) unguarded none c) (retire dec.rd_index r g)
  unfolding run get_reg set_reg
  remains_lem q r e word =
      reaches_lem call dec h n rsi rax rbx code1 s f between rdi rdx
        (division ∷ deposit 2 rdi rdx proceed) (set_reg rdx r (set_reg rax q loaded.scratch))
        loaded.flags r (rw (run, e) refl) refl word

  pub stops_lem :
      exec call (three_registers dec) division loaded ≡ stops divide_error
      → run call (three_registers dec) unguarded none c ≡ divide_error
  unfolding run
  stops_lem e =
      loads_lem call dec h n rsi rax rbx code1 s f between (division ∷ deposit 2 rdi rdx proceed)
      ∙ (rw (run, e) refl)
