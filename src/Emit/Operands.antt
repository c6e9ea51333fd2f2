-- ===== src/Emit/Operands.antt =====
-- Blocks that load two guest registers, compute in registers of the host and write a third.
use zelda_riscv_emulator.Base.{ℕ, ◌+◌, ◌*◌, ◌^◌, ◌<◌, ◌≡◌, none, some, List, ◌++◌, refl, ◌∙◌}
use zelda_riscv_emulator.Host.{Instr, Functions, run, fetch, deposit, proceed}
use zelda_riscv_emulator.Host.State.{Reg, rdx, Cpu, Scratch, Flags, put, get_reg, set_reg}
use zelda_riscv_emulator.Host.Guest.{
  Guest, Holds, Holds-compute, Retires, retire, param, fetch_lem, deposit_lem, straight,
  run-straight,
}
use zelda_riscv_emulator.Decode.{Decoding}
use zelda_riscv_emulator.Translation.Cache.{Block}
use zelda_riscv_emulator.Emit.Block.{three_registers, execute}

-- The fields of a decoded instruction that name registers.
pub record NamesRegisters (dec : Decoding) : Type 0 where
  pub rd : dec.rd_index < 32
  pub rs1 : dec.rs1_index < 32
  pub rs2 : dec.rs2_index < 32

abbrev pub Computes : ℕ → Cpu → Guest → Functions → Decoding → Block → ℕ → Type 0
Computes hart c g call dec block v = Retires hart (execute call block c) (retire dec.rd_index v g)

module _ {hart : ℕ} {c : Cpu} {g : Guest} (call : Functions) (dec : Decoding) (h : Holds hart c g)
    (n : NamesRegisters dec) (at : Reg) (to1 to2 : Reg) (code1 : List Instr) (s : Scratch)
    (f : Flags)
    (between : straight call
        (three_registers dec)
        code1
        (put to1 (g.x dec.rs1_index) (put at (hart + 4 * dec.rs1_index) c))
      ≡ some (record c { scratch = s; flags = f })) where
  -- Both operands are loaded, and some code runs between the loads.
  abbrev pub fetched : Cpu
  fetched =
      put to2 (g.x dec.rs2_index)
        (put at (hart + 4 * dec.rs2_index) (record c { scratch = s; flags = f }))

  pub loads_lem :
      (rest : List Instr)
      → run call (three_registers dec) (fetch 0 at to1 (code1 ++ fetch 1 at to2 rest)) none c
        ≡ run call (three_registers dec) rest none fetched
  loads_lem rest =
      fetch_lem call (three_registers dec) 0 dec.rs1_index at to1 (code1 ++ fetch 1 at to2 rest) h
        refl n.rs1
      ∙ run-straight call (three_registers dec) code1 (fetch 1 at to2 rest) _ _ between
      ∙ fetch_lem call (three_registers dec) 1 dec.rs2_index at to2 rest (Holds-compute s f h) refl
          n.rs2

  -- The code behind the loads goes on, and comes to the store of the result.
  pub reaches_lem :
      (at' from : Reg) (rest : List Instr) (s' : Scratch) (f' : Flags) (v : ℕ)
      → run call (three_registers dec) rest none fetched
        ≡ run call
            (three_registers dec)
            (deposit 2 at' from proceed)
            none
            (record c { scratch = s'; flags = f' })
      → get_reg from (set_reg at' (hart + 4 * dec.rd_index) s') ≡ v
      → v < 2 ^ 32
      → Retires hart
          (run call (three_registers dec) (fetch 0 at to1 (code1 ++ fetch 1 at to2 rest)) none c)
          (retire dec.rd_index v g)
  reaches_lem at' from rest s' f' v onward value word =
      let (d, ends, held) =
        deposit_lem call (three_registers dec) 2 dec.rd_index v at' from (Holds-compute s' f' h)
          refl n.rd value word in
      (d, loads_lem rest ∙ onward ∙ ends, held)

  -- The same for code that does not jump.
  pub result_lem :
      (at' from : Reg) (code2 : List Instr) (s' : Scratch) (f' : Flags) (v : ℕ)
      → straight call (three_registers dec) code2 fetched
        ≡ some (record c { scratch = s'; flags = f' })
      → get_reg from (set_reg at' (hart + 4 * dec.rd_index) s') ≡ v
      → v < 2 ^ 32
      → Retires hart
          (run call
            (three_registers dec)
            (fetch 0 at to1 (code1 ++ fetch 1 at to2 (code2 ++ deposit 2 at' from proceed)))
            none
            c)
          (retire dec.rd_index v g)
  result_lem at' from code2 s' f' v middle value word =
      reaches_lem at' from (code2 ++ deposit 2 at' from proceed) s' f' v
        (run-straight call (three_registers dec) code2 _ _ _ middle) value word

-- A block that loads one guest register, computes in registers and writes the result.
pub one_operand_lem :
    {hart : ℕ} {c : Cpu} {g : Guest} (call : Functions) (params : List ℕ) (rs1 rd : ℕ)
    (to from : Reg) (code : List Instr) (s : Scratch) (f : Flags) (v : ℕ)
    → Holds hart c g
    → param params 1 ≡ rs1
    → rs1 < 32
    → param params 2 ≡ rd
    → rd < 32
    → straight call params code (put to (g.x rs1) (put rdx (hart + 4 * rs1) c))
      ≡ some (record c { scratch = s; flags = f })
    → get_reg from (set_reg rdx (hart + 4 * rd) s) ≡ v
    → v < 2 ^ 32
    → Retires hart
        (run call params (fetch 1 rdx to (code ++ deposit 2 rdx from proceed)) none c)
        (retire rd v g)
one_operand_lem call params rs1 rd to from code s f v h e1 small1 e2 small2 middle value word =
    let (d, ends, held) =
      deposit_lem call params 2 rd v rdx from (Holds-compute s f h) e2 small2 value word in
    (
      d,
      fetch_lem call params 1 rs1 rdx to (code ++ deposit 2 rdx from proceed) h e1 small1
          ∙ run-straight call params code _ _ _ middle
          ∙ ends,
      held,
    )

abbrev pub a : Decoding → Guest → ℕ
a dec g = g.x dec.rs1_index

abbrev pub b : Decoding → Guest → ℕ
b dec g = g.x dec.rs2_index

module _ {hart : ℕ} {c : Cpu} {g : Guest} (dec : Decoding) (h : Holds hart c g)
    (n : NamesRegisters dec) where
  pub a-lt : a dec g < 2 ^ 32
  a-lt = h.word dec.rs1_index n.rs1

  pub b-lt : b dec g < 2 ^ 32
  b-lt = h.word dec.rs2_index n.rs2
