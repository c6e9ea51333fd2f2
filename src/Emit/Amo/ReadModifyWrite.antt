-- ===== src/Emit/Amo/ReadModifyWrite.antt =====
-- The five read-modify-write instructions.
use zelda_riscv_emulator.Base.{
  ℕ, ◌+◌, ◌<◌, ◌≡◌, ◌==◌, if◌then◌else◌, Option, none, some, set, length, get_or-set_self, u32,
  bit_and, bit_or, bit_xor, refl, ap, ◌∙◌, arith,
}
use zelda_riscv_emulator.Emit.Amo.{
  Accesses, AmoState, Slow, Accessed, returned, excepted, reg, read_register, write_memory,
  amoadd_slowpath, amoswap_slowpath, amoxor_slowpath, amoor_slowpath, amoand_slowpath,
  amo_instruction_slowpath,
}

pub data AmoOp : Type 0 where
  amoadd amoswap amoxor amoor amoand : AmoOp

-- The encodings of these five in the architecture; those of AMOMIN, AMOMAX, AMOMINU and AMOMAXU have
-- no handler.
unfoldable pub amo_of : ℕ → Option AmoOp
amo_of funct5 =
    if funct5 == 0
    then some amoadd
    else if funct5 == 1
    then some amoswap
    else if funct5 == 4
    then some amoxor
    else if funct5 == 8
    then some amoor
    else if funct5 == 12
    then some amoand
    else none

-- What the architecture writes to the memory, of the word that was there and of the register.
unfoldable pub combine : AmoOp → ℕ → ℕ → ℕ
combine amoadd old v = u32 (old + v)
combine amoswap old v = v
combine amoxor old v = bit_xor old v
combine amoor old v = bit_or old v
combine amoand old v = bit_and old v

module _ {M : Type 0} (mmu : Accesses M) (s : AmoState M) (rs1_index rs2_index rd_index : ℕ) where
  slowpath : AmoOp → Slow M
  slowpath amoadd = amoadd_slowpath mmu rs1_index rs2_index rd_index s
  slowpath amoswap = amoswap_slowpath mmu rs1_index rs2_index rd_index s
  slowpath amoxor = amoxor_slowpath mmu rs1_index rs2_index rd_index s
  slowpath amoor = amoor_slowpath mmu rs1_index rs2_index rd_index s
  slowpath amoand = amoand_slowpath mmu rs1_index rs2_index rd_index s

  slowpath-eq :
      (op : AmoOp) (funct5 : ℕ)
      → amo_of funct5 ≡ some op
      → amo_instruction_slowpath mmu rs1_index rs2_index rd_index funct5 s ≡ some (slowpath op)
  unfolding slowpath amo_instruction_slowpath amo_of
  slowpath-eq op funct5 e = ground (arith, e)

  faults_lem :
      (op : AmoOp) (m : M)
      → mmu.mmu_read32_aligned (reg s rs1_index) s.memory ≡ excepted m
      → slowpath op ≡ excepted (record s { memory = m })
  unfolding slowpath amoadd_slowpath amoswap_slowpath amoxor_slowpath amoor_slowpath amoand_slowpath
      read_register
  faults_lem amoadd m e = rw (slowpath, amoadd_slowpath, read_register, e) refl
  faults_lem amoswap m e = rw (slowpath, amoswap_slowpath, read_register, e) refl
  faults_lem amoxor m e = rw (slowpath, amoxor_slowpath, read_register, e) refl
  faults_lem amoor m e = rw (slowpath, amoor_slowpath, read_register, e) refl
  faults_lem amoand m e = rw (slowpath, amoand_slowpath, read_register, e) refl

  -- The state after the write, when rd has been written.
  abbrev written : ℕ → Accessed M M → Slow M
  written old outcome = elim outcome [
    | excepted n ↦ excepted (record s { registers = set s.registers rd_index old; memory = n })
    | returned n ↦ returned (record s { registers = set s.registers rd_index old; memory = n })
  ]

  writes_lem :
      (op : AmoOp) (old : ℕ) (m : M) (outcome : Accessed M M)
      → rd_index < length s.registers
      → mmu.mmu_read32_aligned (reg s rs1_index) s.memory ≡ returned (old, m)
      → mmu.mmu_write32_aligned (reg s rs1_index) (combine op old (reg s rs2_index)) m ≡ outcome
      → slowpath op ≡ written old outcome
  unfolding slowpath amoadd_slowpath amoswap_slowpath amoxor_slowpath amoor_slowpath amoand_slowpath
      read_register write_memory combine
  writes_lem amoadd old m outcome small e f =
      rw
        (
          slowpath,
          amoadd_slowpath,
          read_register,
          e,
          get_or-set_self s.registers rd_index old 0 small,
          write_memory,
          f,
        )
        refl
  writes_lem amoswap old m outcome small e f =
      rw (slowpath, amoswap_slowpath, read_register, e, write_memory, f) refl
  writes_lem amoxor old m outcome small e f =
      rw
        (
          slowpath,
          amoxor_slowpath,
          read_register,
          e,
          get_or-set_self s.registers rd_index old 0 small,
          write_memory,
          f,
        )
        refl
  writes_lem amoor old m outcome small e f =
      rw
        (
          slowpath,
          amoor_slowpath,
          read_register,
          e,
          get_or-set_self s.registers rd_index old 0 small,
          write_memory,
          f,
        )
        refl
  writes_lem amoand old m outcome small e f =
      rw
        (
          slowpath,
          amoand_slowpath,
          read_register,
          e,
          get_or-set_self s.registers rd_index old 0 small,
          write_memory,
          f,
        )
        refl

  -- The read, the write of rd and the write of the combined word, with the exceptions of both.
  abbrev pub read_modify_write : AmoOp → Slow M
  read_modify_write op = elim (mmu.mmu_read32_aligned (reg s rs1_index) s.memory) [
    | excepted m ↦ excepted (record s { memory = m })
    | returned (old, m) ↦
        written old (mmu.mmu_write32_aligned (reg s rs1_index) (combine op old (reg s rs2_index)) m)
  ]

  slowpath-read_modify_write :
      (op : AmoOp) → rd_index < length s.registers → slowpath op ≡ read_modify_write op
  slowpath-read_modify_write op small =
      by_read (mmu.mmu_read32_aligned (reg s rs1_index) s.memory) refl
    where
      by_read :
          (o : Accessed M (ℕ × M))
          → mmu.mmu_read32_aligned (reg s rs1_index) s.memory ≡ o
          → slowpath op ≡ read_modify_write op
      by_read (excepted m) e = rw (read_modify_write, e) (faults_lem op m e)
      by_read (returned (old, m)) e =
          rw (read_modify_write, e)
            (writes_lem op old m
              (mmu.mmu_write32_aligned (reg s rs1_index) (combine op old (reg s rs2_index)) m) small
              e refl)

  -- AMOADD, AMOSWAP, AMOXOR, AMOOR and AMOAND, when their number of rd is that of a register, read the
  -- word at the address in rs1, write it to rd and write the word and the value of rs2, combined as the
  -- instruction says, to the same address, where rs1 and rs2 are the registers before the instruction,
  -- also when rd is one of them. When the read raises an exception, no register has changed. When the
  -- write raises one, rd has been written.
  pub amo_instruction_slowpath-read_modify_write :
      (op : AmoOp) (funct5 : ℕ)
      → amo_of funct5 ≡ some op
      → rd_index < length s.registers
      → amo_instruction_slowpath mmu rs1_index rs2_index rd_index funct5 s
        ≡ some (read_modify_write op)
  amo_instruction_slowpath-read_modify_write op funct5 legal small =
      slowpath-eq op funct5 legal ∙ ap some (slowpath-read_modify_write op small)
