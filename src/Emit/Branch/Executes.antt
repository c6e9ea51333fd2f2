-- ===== src/Emit/Branch/Executes.antt =====
-- The BRANCH instructions from the instruction word to the pc of the guest.
use zelda_riscv_emulator.Base.{
  ℕ, ◌+◌, ◌*◌, ◌/◌, ◌^◌, ◌<◌, ◌≡◌, Bool, true, false, not, ◌==◌, ltb, if◌then◌else◌, Option, none,
  some, List, [], ◌∷◌, arith, refl, ap, ◌∙◌, u32, bit_and, bit_or, bit_and_mask, bit_or-lt,
}
use native.Mathlib.Nat.{mod-eq_of_lt}
use zelda_riscv_emulator.Host.{
  Functions, Instr, Cond, run, exec, holds, compare_flags, cmpl, jcc, label, movl_param,
  movl_load_r14, addl_imm, fetch, falls, movl_store_r14, trap_to_vmm,
}
use zelda_riscv_emulator.Host.State.{Cpu, Flags, rdx, rsi, rdi, get_reg, set_reg, put}
use zelda_riscv_emulator.Host.Word.{signed_lt, sign_extend}
use zelda_riscv_emulator.Host.Compare.{holds-l, holds-e, holds-ne, holds-ge, not-not, ==_comm}
use zelda_riscv_emulator.Host.Guest.{Guest, Holds, Holds-compute, Traps, fetch_lem, leave_lem}
use zelda_riscv_emulator.Decode.{Decoding, instruction_decoding_per_type, type_b}
use zelda_riscv_emulator.Translation.{PrefetchBlob, translate, stop}
use zelda_riscv_emulator.Translation.Cache.{Block, Layout}
use zelda_riscv_emulator.Emit.Block.{execute}
use zelda_riscv_emulator.Emit.SignExtend.{sign_extend32_lem}
use zelda_riscv_emulator.Emit.Branch.{
  branch_code, branch_params, branch_taken_target, beq_block, bne_block, blt_block, bltu_block,
  bge_block, bgeu_block, branch_handler, riscv_branch_instructions_translation_entry,
}

pub data BranchOp : Type 0 where
  beq bne blt bge bltu bgeu : BranchOp

-- The condition of a branch, on the values of rs1 and rs2.
unfoldable pub taken : BranchOp → ℕ → ℕ → Bool
taken beq x y = x == y
taken bne x y = not (x == y)
taken blt x y = signed_lt x y
taken bge x y = not (signed_lt x y)
taken bltu x y = ltb x y
taken bgeu x y = not (ltb x y)

unfoldable pub branch_of : ℕ → Option BranchOp
branch_of funct3 =
    if funct3 == 0
    then some beq
    else if funct3 == 1
    then some bne
    else if funct3 == 4
    then some blt
    else if funct3 == 5
    then some bge
    else if funct3 == 6
    then some bltu
    else if funct3 == 7
    then some bgeu
    else none

branch_block : BranchOp → ℕ → Decoding → Block
branch_block beq = beq_block
branch_block bne = bne_block
branch_block blt = blt_block
branch_block bge = bge_block
branch_block bltu = bltu_block
branch_block bgeu = bgeu_block

pub record BranchFields (dec : Decoding) : Type 0 where
  pub rs1 : dec.rs1_index < 32
  pub rs2 : dec.rs2_index < 32
  pub imm : dec.imm < 2 ^ 12

-- The pc after a branch: its target, or the next instruction.
abbrev pub branch : BranchOp → Decoding → Guest → Guest
branch op dec g = record g {
  pc =
      if taken op (g.x dec.rs1_index) (g.x dec.rs2_index)
      then u32 (g.pc + sign_extend (2 ^ 13) (2 ^ 32) (dec.imm * 2))
      else u32 (g.pc + 4);
}

target-eq :
    (address : ℕ) (dec : Decoding)
    → dec.imm < 2 ^ 12
    → branch_taken_target address dec ≡ u32 (address + sign_extend (2 ^ 13) (2 ^ 32) (dec.imm * 2))
unfolding branch_taken_target
target-eq address dec small = rw (
  mod-eq_of_lt (twice dec.imm small),
  sign_extend32_lem (dec.imm * 2) 12 (omega arith) (omega (arith, small)),
)
  where
    twice : (x : ℕ) → x < 2 ^ 12 → x * 2 < 2 ^ 32
    twice x p = omega arith

holds-b : (x y : ℕ) → holds Cond.b (compare_flags x y) ≡ ltb x y
unfolding holds compare_flags
holds-b x y = refl

holds-ae : (x y : ℕ) → holds Cond.ae (compare_flags x y) ≡ not (ltb x y)
unfolding holds compare_flags
holds-ae x y = refl

target-lt : (address : ℕ) (dec : Decoding) → branch_taken_target address dec < 2 ^ 32
unfolding branch_taken_target
target-lt address dec = omega arith

module _ {hart : ℕ} {c : Cpu} {g : Guest} (call : Functions) (dec : Decoding) (h : Holds hart c g)
    (n : BranchFields dec) where
  pc-eq : c.mem c.r14 ≡ g.pc
  pc-eq = rw h.pc_at h.counter

  abbrev loaded : Cpu
  loaded = put rdi (g.x dec.rs2_index) (
      put rdx (hart + 4 * dec.rs2_index)
        (put rsi (g.x dec.rs1_index) (put rdx (hart + 4 * dec.rs1_index) c)))

  -- The operands are loaded, and `edx` holds the address of the next instruction.
  abbrev arrived : Cpu
  arrived = put rdx (u32 (g.pc + 4)) loaded

  next_lem :
      (params : List ℕ) (rest : List Instr)
      → run call params (movl_load_r14 rdx ∷ addl_imm 0x4 rdx ∷ rest) none loaded
        ≡ run call params rest none arrived
  unfolding run exec get_reg set_reg
  next_lem params rest = rw (pc-eq, mod-eq_of_lt h.counter_word, mod-eq_of_lt h.counter_word)

  abbrev tail : Instr → Cond → List Instr
  tail compares unless =
      compares ∷ jcc unless 1 ∷ movl_param 2 rdx ∷ label 1 ∷ movl_store_r14 rdx ∷ trap_to_vmm ∷ []

  decides_lem :
      (compares : Instr) (unless : Cond) (f : Flags) (t : Bool)
      → exec call (branch_params g.pc dec) compares arrived ≡ falls (record arrived { flags = f })
      → holds unless f ≡ not t
      → Traps hart
          (run call (branch_params g.pc dec) (tail compares unless) none arrived)
          (record g { pc = if t then branch_taken_target g.pc dec else u32 (g.pc + 4) })
  unfolding run exec get_reg set_reg branch_taken_target
  decides_lem compares unless f true flags decides =
      let (d, ends, held) =
        leave_lem call (branch_params g.pc dec) (branch_taken_target g.pc dec) rdx
          (Holds-compute (set_reg rdx (branch_taken_target g.pc dec) arrived.scratch) f h) refl
          (omega arith) in
      (
        d,
        (rw (run, flags, decides)
              (rw (mod-eq_of_lt (target-lt g.pc dec), mod-eq_of_lt (target-lt g.pc dec))))
            ∙ ends,
        held,
      )
  decides_lem compares unless f false flags decides =
      let (d, ends, held) =
        leave_lem call (branch_params g.pc dec) (u32 (g.pc + 4)) rdx
          (Holds-compute arrived.scratch f h) refl (omega arith) in
      (d, (rw (run, flags, decides) refl) ∙ ends, held)

  branch_code-Traps :
      (compares : Instr) (unless : Cond) (f : Flags) (t : Bool)
      → exec call (branch_params g.pc dec) compares arrived ≡ falls (record arrived { flags = f })
      → holds unless f ≡ not t
      → Traps hart
          (run call (branch_params g.pc dec) (branch_code compares unless) none c)
          (record g { pc = if t then branch_taken_target g.pc dec else u32 (g.pc + 4) })
  branch_code-Traps compares unless f t flags decides =
      let params : List ℕ = branch_params g.pc dec in
      let rest : List Instr = tail compares unless in
      let (d, ends, held) = decides_lem compares unless f t flags decides in
      (
        d,
        fetch_lem call params 0 dec.rs1_index rdx rsi
              (fetch 1 rdx rdi (movl_load_r14 rdx ∷ addl_imm 0x4 rdx ∷ rest)) h refl n.rs1
            ∙ fetch_lem call params 1 dec.rs2_index rdx rdi
                (movl_load_r14 rdx ∷ addl_imm 0x4 rdx ∷ rest) (Holds-compute _ _ h) refl n.rs2
            ∙ next_lem params rest
            ∙ ends,
        held,
      )

  x1-lt : g.x dec.rs1_index < 2 ^ 32
  x1-lt = h.word dec.rs1_index n.rs1

  x2-lt : g.x dec.rs2_index < 2 ^ 32
  x2-lt = h.word dec.rs2_index n.rs2

  -- The flags of `rs2 - rs1` and of `rs1 - rs2`.
  flags_21 :
      exec call (branch_params g.pc dec) (cmpl rsi rdi) arrived
      ≡ falls (record arrived { flags = compare_flags (g.x dec.rs2_index) (g.x dec.rs1_index) })
  unfolding exec get_reg set_reg
  flags_21 = rw (mod-eq_of_lt x1-lt, mod-eq_of_lt x2-lt)

  flags_12 :
      exec call (branch_params g.pc dec) (cmpl rdi rsi) arrived
      ≡ falls (record arrived { flags = compare_flags (g.x dec.rs1_index) (g.x dec.rs2_index) })
  unfolding exec get_reg set_reg
  flags_12 = rw (mod-eq_of_lt x1-lt, mod-eq_of_lt x2-lt)

  branch_block-Traps :
      (op : BranchOp) → Traps hart (execute call (branch_block op g.pc dec) c) (branch op dec g)
  unfolding branch_block beq_block bne_block blt_block bltu_block bge_block bgeu_block taken
  branch_block-Traps beq = rw (← target-eq g.pc dec n.imm) (
      branch_code-Traps (cmpl rsi rdi) Cond.ne _ (g.x dec.rs1_index == g.x dec.rs2_index) flags_21 (
        holds-ne (g.x dec.rs2_index) (g.x dec.rs1_index) x2-lt x1-lt
        ∙ ap not (==_comm (g.x dec.rs2_index) (g.x dec.rs1_index))))
  branch_block-Traps bne = rw (← target-eq g.pc dec n.imm) (
      branch_code-Traps (cmpl rsi rdi) Cond.e _ (not (g.x dec.rs1_index == g.x dec.rs2_index))
        flags_21
        (holds-e (g.x dec.rs2_index) (g.x dec.rs1_index) x2-lt x1-lt
          ∙ ==_comm (g.x dec.rs2_index) (g.x dec.rs1_index)
          ∙ not-not (g.x dec.rs1_index == g.x dec.rs2_index)))
  branch_block-Traps blt = rw (← target-eq g.pc dec n.imm) (
      branch_code-Traps (cmpl rdi rsi) Cond.ge _ (signed_lt (g.x dec.rs1_index) (g.x dec.rs2_index))
        flags_12 (holds-ge (g.x dec.rs1_index) (g.x dec.rs2_index) x1-lt x2-lt))
  branch_block-Traps bge = rw (← target-eq g.pc dec n.imm) (
      branch_code-Traps (cmpl rdi rsi) Cond.l _
        (not (signed_lt (g.x dec.rs1_index) (g.x dec.rs2_index))) flags_12
        (holds-l (g.x dec.rs1_index) (g.x dec.rs2_index) x1-lt x2-lt
          ∙ not-not (signed_lt (g.x dec.rs1_index) (g.x dec.rs2_index))))
  branch_block-Traps bltu = rw (← target-eq g.pc dec n.imm) (
      branch_code-Traps (cmpl rdi rsi) Cond.ae _ (ltb (g.x dec.rs1_index) (g.x dec.rs2_index))
        flags_12 (holds-ae (g.x dec.rs1_index) (g.x dec.rs2_index)))
  branch_block-Traps bgeu = rw (← target-eq g.pc dec n.imm) (
      branch_code-Traps (cmpl rdi rsi) Cond.b _ (not (ltb (g.x dec.rs1_index) (g.x dec.rs2_index)))
        flags_12
        (holds-b (g.x dec.rs1_index) (g.x dec.rs2_index)
          ∙ not-not (ltb (g.x dec.rs1_index) (g.x dec.rs2_index))))

branch_handler-eq :
    (layout : Layout) (dec : Decoding) (blob : PrefetchBlob) (op : BranchOp)
    → branch_of dec.funct3 ≡ some op
    → branch_handler layout dec blob
      ≡ translate layout (branch_block op blob.next_instruction_to_fetch dec) stop blob
unfolding branch_handler branch_of branch_block
branch_handler-eq layout dec blob op e = ground (arith, e)

imm_b-lt :
    (p q r s : ℕ)
    → bit_or
        (bit_or (bit_or (bit_and p 0xf) (bit_and q 0x3f * 2 ^ 4)) (bit_and r 0x1 * 2 ^ 10))
        (bit_and s 0x1 * 2 ^ 11)
      < 2 ^ 12
imm_b-lt p q r s =
    rw (bit_and_mask 4 p, bit_and_mask 6 q, bit_and_mask 1 r, bit_and_mask 1 s)
      (bit_or-lt 12 _ _
        (bit_or-lt 12 _ _ (bit_or-lt 12 _ _ (omega arith) (omega arith)) (omega arith))
        (omega arith))

decoded_b :
    (instruction : ℕ) (dec : Decoding)
    → instruction_decoding_per_type instruction type_b ≡ some dec
    → BranchFields dec
unfolding instruction_decoding_per_type
decoded_b instruction dec e = ground (
  arith,
  e,
  bit_and_mask 5 (instruction / 2 ^ 15),
  bit_and_mask 5 (instruction / 2 ^ 20),
  imm_b-lt (instruction / 2 ^ 8) (instruction / 2 ^ 25) (instruction / 2 ^ 7)
      (instruction / 2 ^ 31),
)

-- A legal BRANCH instruction is translated into one block that ends the translation unit. With the
-- guest at the instruction, the block leaves for the emulator with the pc at the target if the condition
-- of the architecture holds of rs1 and rs2 and at the next instruction if not, and with the registers
-- as they were.
pub riscv_branch_instructions_translation_entry-Executes :
    (layout : Layout) (blob : PrefetchBlob) (instruction : ℕ) (dec : Decoding) (op : BranchOp)
    (call : Functions) (hart : ℕ) (c : Cpu) (g : Guest)
    → instruction_decoding_per_type instruction type_b ≡ some dec
    → branch_of dec.funct3 ≡ some op
    → Holds hart c g
    → g.pc ≡ blob.next_instruction_to_fetch
    → (block : Block) × (riscv_branch_instructions_translation_entry layout blob instruction
        ≡ translate layout block stop blob)
      × Traps hart (execute call block c) (branch op dec g)
unfolding riscv_branch_instructions_translation_entry
riscv_branch_instructions_translation_entry-Executes layout blob instruction dec op call hart c g
      decoded legal h here =
    (
      branch_block op g.pc dec,
      rw (riscv_branch_instructions_translation_entry, decoded, here)
          (branch_handler-eq layout dec blob op legal),
      branch_block-Traps call dec h (decoded_b instruction dec decoded) op,
    )
