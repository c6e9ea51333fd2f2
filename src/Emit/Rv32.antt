-- ===== src/Emit/Rv32.antt =====
-- What the instructions of RV32IM compute, from the manual of the architecture.
use zelda_riscv_emulator.Base.{
  ℕ, ◌+◌, ◌-◌, ◌*◌, ◌/◌, ◌%◌, ◌^◌, Bool, ◌==◌, ltb, if◌then◌else◌, Option, none, some, u32, sub32,
  bit_and, bit_or, bit_xor,
}
use zelda_riscv_emulator.Host.Word.{negative, magnitude, signed, differ, signed_lt, sar32}

pub data AluOp : Type 0 where
  add sub sll slt sltu xor srl sra or and : AluOp
  mul mulh mulhsu mulhu div divu rem remu : AluOp

abbrev sign : ℕ → Bool
sign = negative (2 ^ 32)

abbrev size : ℕ → ℕ
size = magnitude (2 ^ 32)

-- The quotient is truncated; by zero it is -1, and the overflow gives the dividend again.
unfoldable pub alu : AluOp → ℕ → ℕ → ℕ
alu add a b = u32 (a + b)
alu sub a b = sub32 a b
alu sll a b = u32 (a * 2 ^ (b % 32))
alu slt a b = if signed_lt a b then 1 else 0
alu sltu a b = if ltb a b then 1 else 0
alu xor a b = bit_xor a b
alu srl a b = a / 2 ^ (b % 32)
alu sra a b = sar32 a (b % 32)
alu or a b = bit_or a b
alu and a b = bit_and a b
alu mul a b = u32 (a * b)
alu mulh a b = signed (2 ^ 64) (differ (sign a) (sign b)) (size a * size b) / 2 ^ 32
alu mulhsu a b = signed (2 ^ 64) (sign a) (size a * b) / 2 ^ 32
alu mulhu a b = a * b / 2 ^ 32
alu div a b =
    if b == 0 then 2 ^ 32 - 1 else signed (2 ^ 32) (differ (sign a) (sign b)) (size a / size b)
alu divu a b = if b == 0 then 2 ^ 32 - 1 else a / b
alu rem a b = if b == 0 then a else signed (2 ^ 32) (sign a) (size a % size b)
alu remu a b = if b == 0 then a else a % b

-- The operation of an OP instruction by `funct7` and `funct3`.
unfoldable pub op_of : ℕ → ℕ → Option AluOp
op_of funct7 funct3 =
    if funct7 == 0
    then if funct3 == 0
      then some add
      else if funct3 == 1
      then some sll
      else if funct3 == 2
      then some slt
      else if funct3 == 3
      then some sltu
      else if funct3 == 4
      then some xor
      else if funct3 == 5
      then some srl
      else if funct3 == 6
      then some or
      else if funct3 == 7
      then some and
      else none
    else if funct7 == 0x20
    then if funct3 == 0 then some sub else if funct3 == 5 then some sra else none
    else if funct7 == 1
    then if funct3 == 0
      then some mul
      else if funct3 == 1
      then some mulh
      else if funct3 == 2
      then some mulhsu
      else if funct3 == 3
      then some mulhu
      else if funct3 == 4
      then some div
      else if funct3 == 5
      then some divu
      else if funct3 == 6
      then some rem
      else if funct3 == 7
      then some remu
      else none
    else none
