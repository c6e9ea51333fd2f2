-- ===== src/Emit/Op/Executes.antt =====
-- The OP instructions from the instruction word to the registers of the guest.
use zelda_riscv_emulator.Base.{
  ℕ, ◌/◌, ◌^◌, ◌≡◌, ◌≢◌, Bool, true, false, ◌==◌, ◌||◌, some, arith, ap, bit_and, bit_and_mask, ◌⊎◌,
  inl, inr, Bool-cases, ==_iff,
}
use zelda_riscv_emulator.Host.{Functions, Outcome, divide_error}
use zelda_riscv_emulator.Host.State.{Cpu}
use zelda_riscv_emulator.Host.Divide.{overflows}
use zelda_riscv_emulator.Host.Guest.{Guest, Holds, Retires, retire}
use zelda_riscv_emulator.Decode.{Decoding, instruction_decoding_per_type, type_r}
use zelda_riscv_emulator.Translation.{PrefetchBlob, translate, advance}
use zelda_riscv_emulator.Translation.Cache.{Block, Layout}
use zelda_riscv_emulator.Emit.Rv32.{
  AluOp, add, sub, sll, slt, sltu, xor, srl, sra, or, and, mul, mulh, mulhsu, mulhu, div, divu, rem,
  remu, alu, op_of,
}
use zelda_riscv_emulator.Emit.Block.{execute}
use zelda_riscv_emulator.Emit.Operands.{NamesRegisters, a, b}
use zelda_riscv_emulator.Emit.Arith.{
  riscv_arithmetic_instructions_class0_translation_entry, add_block, sub_block, sll_block,
  slt_block, sltu_block, xor_block, srl_block, sra_block, or_block, and_block,
}
use zelda_riscv_emulator.Emit.Arith.Computes.{
  add_lem, sub_lem, sll_lem, slt_lem, sltu_lem, xor_lem, srl_lem, sra_lem, or_lem, and_lem,
}
use zelda_riscv_emulator.Emit.MulDiv.Computes.{mul_lem, mulh_lem, mulhsu_lem, mulhu_lem}
use zelda_riscv_emulator.Emit.MulDiv.Quotients.{
  div-zero_lem, div_lem, div-fault_lem, divu-zero_lem, divu_lem, rem_lem, rem-overflow_lem,
  rem-zero_lem, remu_lem, remu-zero_lem,
}
use zelda_riscv_emulator.Emit.MulDiv.{
  riscv_mul_div_instructions_translation_entry, mul_block, mulh_block, mulhsu_block, mulhu_block,
  div_block, divu_block, rem_block, remu_block,
}
use zelda_riscv_emulator.Emit.Op.{op_class, riscv_arithmetic_instructions_translation_entry}

-- The block of an operation.
op_block : AluOp → Decoding → Block
op_block add = add_block
op_block sub = sub_block
op_block sll = sll_block
op_block slt = slt_block
op_block sltu = sltu_block
op_block xor = xor_block
op_block srl = srl_block
op_block sra = sra_block
op_block or = or_block
op_block and = and_block
op_block mul = mul_block
op_block mulh = mulh_block
op_block mulhsu = mulhsu_block
op_block mulhu = mulhu_block
op_block div = div_block
op_block divu = divu_block
op_block rem = rem_block
op_block remu = remu_block

-- When the division instruction of the host raises its divide error.
unfoldable pub host_faults : AluOp → ℕ → ℕ → Bool
host_faults div x y = overflows x y
host_faults rem x y = y == 0 || overflows x y
host_faults remu x y = y == 0
host_faults _ x y = false

-- A block ends with the divide error of the host, or with the guest in a given state.
abbrev pub Ends : Bool → ℕ → Outcome → Guest → Type 0
Ends true hart o g = o ≡ divide_error
Ends false hart o g = Retires hart o g

module _ {hart : ℕ} {c : Cpu} {g : Guest} (call : Functions) (dec : Decoding) (h : Holds hart c g)
    (n : NamesRegisters dec) where
  abbrev EndsAs : AluOp → Type 0
  EndsAs op =
      Ends (host_faults op (a dec g) (b dec g)) hart (execute call (op_block op dec) c)
        (retire dec.rd_index (alu op (a dec g) (b dec g)) g)

  div-Ends : EndsAs div
  unfolding host_faults op_block
  div-Ends = elim (Bool-cases (b dec g == 0)) [
    | inl z ↦
        let none_left : b dec g ≡ 0 = (==_iff _ _).0 z in
        let fits : overflows (a dec g) (b dec g) ≡ false = ground (arith, none_left) in
        rw fits (div-zero_lem call dec h n none_left)
    | inr s ↦
        let some_b : b dec g ≢ 0 = ground (arith, s) in
        elim (Bool-cases (overflows (a dec g) (b dec g))) [
          | inl over ↦ rw over (div-fault_lem call dec h n over)
          | inr fits ↦ rw fits (div_lem call dec h n some_b fits)
        ]
  ]

  rem-Ends : EndsAs rem
  unfolding host_faults op_block
  rem-Ends = elim (Bool-cases (b dec g == 0)) [
    | inl z ↦
        let none_left : b dec g ≡ 0 = (==_iff _ _).0 z in rw z (rem-zero_lem call dec h n none_left)
    | inr s ↦
        let some_b : b dec g ≢ 0 = ground (arith, s) in
        elim (Bool-cases (overflows (a dec g) (b dec g))) [
          | inl over ↦ rw (s, over) (rem-overflow_lem call dec h n over)
          | inr fits ↦ rw (s, fits) (rem_lem call dec h n some_b fits)
        ]
  ]

  divu-Ends : EndsAs divu
  unfolding host_faults op_block
  divu-Ends = elim (Bool-cases (b dec g == 0)) [
    | inl z ↦ divu-zero_lem call dec h n ((==_iff _ _).0 z)
    | inr s ↦ divu_lem call dec h n (ground (arith, s))
  ]

  remu-Ends : EndsAs remu
  unfolding host_faults op_block
  remu-Ends = elim (Bool-cases (b dec g == 0)) [
    | inl z ↦ rw z (remu-zero_lem call dec h n ((==_iff _ _).0 z))
    | inr s ↦ rw s (remu_lem call dec h n (ground (arith, s)))
  ]

  op_block-Ends : (op : AluOp) → EndsAs op
  unfolding host_faults op_block
  op_block-Ends div = div-Ends
  op_block-Ends divu = divu-Ends
  op_block-Ends rem = rem-Ends
  op_block-Ends remu = remu-Ends
  op_block-Ends add = add_lem call dec h n
  op_block-Ends sub = sub_lem call dec h n
  op_block-Ends sll = sll_lem call dec h n
  op_block-Ends slt = slt_lem call dec h n
  op_block-Ends sltu = sltu_lem call dec h n
  op_block-Ends xor = xor_lem call dec h n
  op_block-Ends srl = srl_lem call dec h n
  op_block-Ends sra = sra_lem call dec h n
  op_block-Ends or = or_lem call dec h n
  op_block-Ends and = and_lem call dec h n
  op_block-Ends mul = mul_lem call dec h n
  op_block-Ends mulh = mulh_lem call dec h n
  op_block-Ends mulhsu = mulhsu_lem call dec h n
  op_block-Ends mulhu = mulhu_lem call dec h n

module _ (layout : Layout) (dec : Decoding) (blob : PrefetchBlob) where
  op_class-base :
      (op : AluOp)
      → op_of dec.funct7 dec.funct3 ≡ some op
      → dec.funct7 ≡ 0
      → bit_and dec.funct7 3 ≡ 0
      → op_class layout dec blob ≡ translate layout (op_block op dec) advance blob
  unfolding op_class op_block op_of riscv_arithmetic_instructions_class0_translation_entry
  op_class-base op e seven mask = ground (arith, e, seven, mask)

  op_class-shifted :
      (op : AluOp)
      → op_of dec.funct7 dec.funct3 ≡ some op
      → dec.funct7 ≡ 0x20
      → bit_and dec.funct7 3 ≡ 0
      → op_class layout dec blob ≡ translate layout (op_block op dec) advance blob
  unfolding op_class op_block op_of riscv_arithmetic_instructions_class0_translation_entry
  op_class-shifted op e seven mask = ground (arith, e, seven, mask)

  op_class-multiplies :
      (op : AluOp)
      → op_of dec.funct7 dec.funct3 ≡ some op
      → dec.funct7 ≡ 1
      → bit_and dec.funct7 3 ≡ 1
      → op_class layout dec blob ≡ translate layout (op_block op dec) advance blob
  unfolding op_class op_block op_of riscv_mul_div_instructions_translation_entry
  op_class-multiplies op e seven mask = ground (arith, e, seven, mask)

  known_funct7 :
      (op : AluOp)
      → op_of dec.funct7 dec.funct3 ≡ some op
      → (dec.funct7 ≡ 0) ⊎ ((dec.funct7 ≡ 0x20) ⊎ (dec.funct7 ≡ 1))
  unfolding op_of
  known_funct7 op e = elim (Bool-cases (dec.funct7 == 0)) [
    | inl z ↦ inl ((==_iff _ _).0 z)
    | inr s ↦ elim (Bool-cases (dec.funct7 == 0x20)) [
      | inl t ↦ inr (inl ((==_iff _ _).0 t))
      | inr u ↦ inr (inr (ground (arith, e, s, u)))
    ]
  ]

  op_class-eq :
      (op : AluOp)
      → op_of dec.funct7 dec.funct3 ≡ some op
      → op_class layout dec blob ≡ translate layout (op_block op dec) advance blob
  op_class-eq op e = elim (known_funct7 op e) [
    | inl seven ↦ op_class-base op e seven (ap (λ (t : ℕ). bit_and t 3) seven)
    | inr (inl seven) ↦ op_class-shifted op e seven (ap (λ (t : ℕ). bit_and t 3) seven)
    | inr (inr seven) ↦ op_class-multiplies op e seven (ap (λ (t : ℕ). bit_and t 3) seven)
  ]

decoded_r :
    (instruction : ℕ) (dec : Decoding)
    → instruction_decoding_per_type instruction type_r ≡ some dec
    → NamesRegisters dec
unfolding instruction_decoding_per_type
decoded_r instruction dec e = ground (
  arith,
  e,
  bit_and_mask 5 (instruction / 2 ^ 7),
  bit_and_mask 5 (instruction / 2 ^ 15),
  bit_and_mask 5 (instruction / 2 ^ 20),
)

-- A legal OP instruction is translated into one block, which leaves the destination register with the
-- result that RV32IM defines, `x0` with zero, all other registers as they were and the pc at the next
-- instruction; but `div` and `rem` of -2 ^ 31 by -1 and `rem` and `remu` by zero end in the divide error
-- of the host.
pub riscv_arithmetic_instructions_translation_entry-Executes :
    (layout : Layout) (blob : PrefetchBlob) (instruction : ℕ) (dec : Decoding) (op : AluOp)
    (call : Functions) (hart : ℕ) (c : Cpu) (g : Guest)
    → instruction_decoding_per_type instruction type_r ≡ some dec
    → op_of dec.funct7 dec.funct3 ≡ some op
    → Holds hart c g
    → (block : Block) × (riscv_arithmetic_instructions_translation_entry layout blob instruction
        ≡ translate layout block advance blob)
      × Ends
          (host_faults op (g.x dec.rs1_index) (g.x dec.rs2_index))
          hart
          (execute call block c)
          (retire dec.rd_index (alu op (g.x dec.rs1_index) (g.x dec.rs2_index)) g)
unfolding riscv_arithmetic_instructions_translation_entry
riscv_arithmetic_instructions_translation_entry-Executes layout blob instruction dec op call hart c
      g decoded legal h =
    (
      op_block op dec,
      rw (riscv_arithmetic_instructions_translation_entry, decoded)
          (op_class-eq layout dec blob op legal),
      op_block-Ends call dec h (decoded_r instruction dec decoded) op,
    )
