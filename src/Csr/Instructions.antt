-- ===== src/Csr/Instructions.antt =====
-- What the six CSR instructions do to the registers.
use zelda_riscv_emulator.Base.{
  ℕ, ◌<◌, ◌≡◌, ◌≢◌, ◌⊎◌, Option, none, some, arith, refl, Option-cases, inl, inr, get_or, length,
  bit_and, bit_or, not32, get_or-set_self, ◌==◌, if◌then◌else◌,
}
use zelda_riscv_emulator.Hart.{Hart}
use zelda_riscv_emulator.Clint.{ClintState}
use zelda_riscv_emulator.Decode.{Decoding}
use zelda_riscv_emulator.Csr.{ReadFunction, csr_blob_read, csr_blob_write, call_read, call_write}
use zelda_riscv_emulator.Csr.Table.{CsrEntry}
use zelda_riscv_emulator.Csr.Callback.{read_masked, write_if_any, csrrw, csrrs, csrrc, execute_csr}

-- Nothing of the hart that a register shows has changed.
pub record Unwritten (before after : Hart) : Type 0 where
  pub csr_blob : after.csr_blob ≡ before.csr_blob
  pub status : after.status ≡ before.status
  pub ienable : after.ienable ≡ before.ienable
  pub ipending : after.ipending ≡ before.ipending
  pub idelegation : after.idelegation ≡ before.idelegation
  pub privilege_level : after.privilege_level ≡ before.privilege_level
  pub pc : after.pc ≡ before.pc

call_read-Unwritten :
    (reads : ReadFunction) (clint : ClintState) (h : Hart) (addr : ℕ)
    → Unwritten h (call_read reads clint h addr).1
unfolding call_read
call_read-Unwritten reads clint h addr = ground arith

read_masked-Unwritten :
    (csr : CsrEntry) (clint : ClintState) (h : Hart) (addr : ℕ)
    → Unwritten h (read_masked csr clint h addr).1
unfolding read_masked
read_masked-Unwritten csr clint h addr = by_case csr.read
  where
    by_case :
        (reads : Option ReadFunction)
        → Unwritten h (read_masked (record csr { read = reads }) clint h addr).1
    by_case none = record {
      csr_blob = refl;
      status = refl;
      ienable = refl;
      ipending = refl;
      idelegation = refl;
      privilege_level = refl;
      pc = refl;
    }
    by_case (some reads) = call_read-Unwritten reads clint h addr

-- The encodings of CSRRS, CSRRC, CSRRSI and CSRRCI.
abbrev pub IsSetOrClear : ℕ → Type 0
IsSetOrClear funct3 = (funct3 ≡ 2) ⊎ ((funct3 ≡ 3) ⊎ ((funct3 ≡ 6) ⊎ (funct3 ≡ 7)))

execute_csr_defined :
    (csr : CsrEntry) (clint : ClintState) (h : Hart) (dec : Decoding) (addr : ℕ)
    → (dec.funct3 ≡ 1) ⊎ IsSetOrClear dec.funct3
    → execute_csr csr clint h dec addr ≢ none
unfolding execute_csr
execute_csr_defined csr clint h dec addr form refused = ground arith

execute_csr_reads :
    (csr : CsrEntry) (clint : ClintState) (h after : Hart) (dec : Decoding) (addr : ℕ)
    → IsSetOrClear dec.funct3
    → dec.rs1_index ≡ 0
    → execute_csr csr clint h dec addr ≡ some after
    → Unwritten h after
unfolding execute_csr csrrs csrrc
execute_csr_reads csr clint h after dec addr form zero_operand e =
    ground (arith, read_masked-Unwritten csr clint h addr)

-- CSRRS, CSRRSI, CSRRC and CSRRCI with x0 or 0 as the operand are plain reads: whatever the register,
-- they succeed and write none.
pub execute_csr-Unwritten :
    (csr : CsrEntry) (clint : ClintState) (h : Hart) (dec : Decoding) (addr : ℕ)
    → IsSetOrClear dec.funct3
    → dec.rs1_index ≡ 0
    → (after : Hart) × (execute_csr csr clint h dec addr ≡ some after) × Unwritten h after
execute_csr-Unwritten csr clint h dec addr form zero_operand =
    elim (Option-cases (execute_csr csr clint h dec addr)) [
      | inl refused ↦ absurd (execute_csr_defined csr clint h dec addr (inr form) refused)
      | inr (after, e) ↦
          (after, e, execute_csr_reads csr clint h after dec addr form zero_operand e)
    ]

-- A register that the table gives the two plain functions.
abbrev pub plain_entry : ℕ → CsrEntry
plain_entry mask = record {
  wpri_mask = mask;
  read = some csr_blob_read;
  write = some csr_blob_write;
}

-- What an instruction leaves in a plain register, from the value that it reads.
abbrev pub next_value : Hart → Decoding → ℕ → ℕ → ℕ
next_value h dec mask old =
    if dec.funct3 == 1
    then bit_and (get_or h.regs dec.rs1_index 0) mask
    else if dec.funct3 == 2
    then bit_and (bit_or old (get_or h.regs dec.rs1_index 0)) mask
    else bit_and (bit_and old (not32 (get_or h.regs dec.rs1_index 0))) mask

-- The destination has the masked old value, and the register its next value.
abbrev pub Exchanged : Hart → Hart → Decoding → ℕ → ℕ → Type 0
Exchanged h after dec addr mask =
    (get_or after.regs dec.rd_index 0 ≡ bit_and (h.csr_blob addr) mask)
    × (after.csr_blob addr ≡ next_value h dec mask (bit_and (h.csr_blob addr) mask))

execute_csr_exchanges :
    (mask : ℕ) (clint : ClintState) (h after : Hart) (dec : Decoding) (addr : ℕ)
    → (dec.funct3 ≡ 1) ⊎ ((dec.funct3 ≡ 2) ⊎ (dec.funct3 ≡ 3))
    → dec.rd_index ≢ 0
    → dec.rs1_index ≢ 0
    → dec.rd_index < length h.regs
    → execute_csr (plain_entry mask) clint h dec addr ≡ some after
    → Exchanged h after dec addr mask
unfolding execute_csr csrrw csrrs csrrc read_masked write_if_any call_read call_write
execute_csr_exchanges mask clint h after dec addr form rd rs1 fits e =
    ground (arith, get_or-set_self h.regs dec.rd_index (bit_and (h.csr_blob addr) mask) 0 fits)

-- CSRRW, CSRRS and CSRRC on a plain register, with a destination and an operand other than x0,
-- succeed: the destination gets the masked old value, and the register gets the operand, the old
-- value with the operand's bits set, or with them cleared, all masked.
pub execute_csr-Exchanged :
    (mask : ℕ) (clint : ClintState) (h : Hart) (dec : Decoding) (addr : ℕ)
    → (dec.funct3 ≡ 1) ⊎ ((dec.funct3 ≡ 2) ⊎ (dec.funct3 ≡ 3))
    → dec.rd_index ≢ 0
    → dec.rs1_index ≢ 0
    → dec.rd_index < length h.regs
    → (after : Hart) × (execute_csr (plain_entry mask) clint h dec addr ≡ some after)
      × Exchanged h after dec addr mask
execute_csr-Exchanged mask clint h dec addr form rd rs1 fits =
    elim (Option-cases (execute_csr (plain_entry mask) clint h dec addr)) [
      | inl refused ↦
          absurd (execute_csr_defined (plain_entry mask) clint h dec addr (ground arith) refused)
      | inr (after, e) ↦
          (after, e, execute_csr_exchanges mask clint h after dec addr form rd rs1 fits e)
    ]
