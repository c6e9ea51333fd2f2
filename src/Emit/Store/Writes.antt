-- ===== src/Emit/Store/Writes.antt =====
-- What a STORE asks of the write of the emulator, and what its block comes to.
use zelda_riscv_emulator.Base.{
  ℕ, ◌+◌, ◌%◌, ◌^◌, ◌<◌, ◌≡◌, ◌==◌, if◌then◌else◌, Option, none, some, arith, u32,
}
use zelda_riscv_emulator.Host.{Callback, Outcome, reaches_end, unwinds}
use zelda_riscv_emulator.Host.State.{Cpu, rdx, rsi, rdi, put, store}
use zelda_riscv_emulator.Host.Guest.{Guest, Holds}
use zelda_riscv_emulator.Decode.{Decoding}
use zelda_riscv_emulator.Translation.Cache.{Block}
use zelda_riscv_emulator.Emit.Load.Calls.{effective_address, returned}
use zelda_riscv_emulator.Emit.Store.{sb_block, sh_block, sw_block}

pub data StoreOp : Type 0 where
  sb sh sw : StoreOp

unfoldable pub store_of : ℕ → Option StoreOp
store_of funct3 =
    if funct3 == 0
    then some sb
    else if funct3 == 1
    then some sh
    else if funct3 == 2
    then some sw
    else none

-- The access of the emulator that a store makes.
unfoldable pub write_by : StoreOp → Callback
write_by sb = Callback.mmu_write8
write_by sh = Callback.mmu_write16
write_by sw = Callback.mmu_write32

-- What the architecture stores of a register.
unfoldable pub stored : StoreOp → ℕ → ℕ
stored sb v = v % 2 ^ 8
stored sh v = v % 2 ^ 16
stored sw v = v

unfoldable pub store_block : StoreOp → Decoding → Block
store_block sb = sb_block
store_block sh = sh_block
store_block sw = sw_block

-- The state in which a store calls the write of the emulator: the hart, the address and the value are
-- its arguments, and the memory is that of the state in which the block was entered.
abbrev pub store_call : StoreOp → Decoding → Guest → Cpu → Cpu
store_call op dec g c =
    put rdi c.r12 (put rdx (stored op (g.x dec.rs2_index)) (put rsi (effective_address dec g) c))

-- The pc has moved on by one instruction.
abbrev pub stepped : Cpu → Cpu
stepped c = store c.r14 (u32 (c.mem c.r14 + 4)) c

-- The outcome of a block for the answer of its one call, made in a given state: nothing but the pc
-- changes behind the call.
abbrev pub Stores : ℕ → Guest → Cpu → Outcome → Option Cpu → Type 0
Stores hart g d outcome none = outcome ≡ unwinds
Stores hart g d outcome (some after) =
    (outcome ≡ reaches_end (stepped (returned d after)))
    × Holds hart (stepped (returned d after)) (record g { pc = u32 (g.pc + 4) })

pub stepped-Holds :
    {hart : ℕ} {c : Cpu} {g : Guest}
    → Holds hart c g
    → Holds hart (stepped c) (record g { pc = u32 (g.pc + 4) })
stepped-Holds {hart} {c} {g} h = record {
  hart_at = h.hart_at;
  registers_at = h.registers_at;
  pc_at = h.pc_at;
  fits = h.fits;
  register = λ i lo. rw h.pc_at (ground (arith, h.register i lo));
  word = h.word;
  hardwired = h.hardwired;
  counter = rw h.pc_at (ground (arith, h.counter));
  counter_word = omega arith;
}

pub record NamesStore (dec : Decoding) : Type 0 where
  pub rs1 : dec.rs1_index < 32
  pub rs2 : dec.rs2_index < 32
  pub imm : dec.imm < 2 ^ 12
