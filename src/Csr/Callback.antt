-- ===== src/Csr/Callback.antt =====
-- vmm/csr_representation.c: the six CSR instructions.
use zelda_riscv_emulator.Base.{
  ℕ, ◌||◌, ◌==◌, if◌then◌else◌, Option, none, some, get_or, set, bit_and, bit_or, not32,
}
use zelda_riscv_emulator.Hart.{Hart}
use zelda_riscv_emulator.Clint.{ClintState}
use zelda_riscv_emulator.Decode.{Decoding, instruction_decoding_per_type, EncodingType}
use zelda_riscv_emulator.Csr.{call_read, call_write}
use zelda_riscv_emulator.Csr.Table.{CsrEntry, csr_at}

abbrev pub opcode_supervisor_level : ℕ
opcode_supervisor_level = 0x73

-- `if (csr->read) value_to_read = csr->read(hartptr, csr)`, with the mask.
unfoldable pub read_masked : CsrEntry → ClintState → Hart → ℕ → ℕ × Hart
read_masked csr clint h addr = elim csr.read [
  | none ↦ (bit_and 0 csr.wpri_mask, h)
  | some reads ↦
      (let (value, after) = call_read reads clint h addr in (bit_and value csr.wpri_mask, after))
]

unfoldable pub write_if_any : CsrEntry → Hart → ℕ → ℕ → Hart
write_if_any csr h addr value = elim csr.write [
  | none ↦ h
  | some writes ↦ call_write writes h addr value
]

abbrev pub set_reg : Hart → ℕ → ℕ → Hart
set_reg h index value = record h { regs = set h.regs index value }

-- CSRRW and CSRRWI: the operand is the register or the index itself.
unfoldable pub csrrw : CsrEntry → ClintState → Hart → Decoding → ℕ → Hart
unfolding read_masked write_if_any
csrrw csr clint h dec addr =
    let rs1_reg = get_or h.regs dec.rs1_index 0 in
    let (value_to_read, after) = read_masked csr clint h addr in
    let read = if dec.rd_index == 0 then h else set_reg after dec.rd_index value_to_read in
    let value_to_write = if dec.funct3 == 0x01 then rs1_reg else dec.rs1_index in
    write_if_any csr read addr (bit_and value_to_write csr.wpri_mask)

-- The operand of CSRRS, CSRRSI, CSRRC and CSRRCI.
abbrev pub operand : Hart → Decoding → ℕ → ℕ
operand h dec register_form =
    if dec.funct3 == register_form
    then get_or h.regs dec.rs1_index 0
    else bit_and dec.rs1_index 0x1f

-- CSRRS and CSRRSI.
unfoldable pub csrrs : CsrEntry → ClintState → Hart → Decoding → ℕ → Hart
unfolding read_masked write_if_any
csrrs csr clint h dec addr =
    let value_to_set = operand h dec 0x2 in
    let (value_to_read, after) = read_masked csr clint h addr in
    let read = set_reg after dec.rd_index value_to_read in
    if dec.rs1_index == 0
    then read
    else write_if_any csr read addr (bit_and (bit_or value_to_read value_to_set) csr.wpri_mask)

-- CSRRC and CSRRCI.
unfoldable pub csrrc : CsrEntry → ClintState → Hart → Decoding → ℕ → Hart
unfolding read_masked write_if_any
csrrc csr clint h dec addr =
    let value_to_clear = operand h dec 0x3 in
    let (value_to_read, after) = read_masked csr clint h addr in
    let read = set_reg after dec.rd_index value_to_read in
    if dec.rs1_index == 0
    then read
    else write_if_any csr read addr
        (bit_and (bit_and value_to_read (not32 value_to_clear)) csr.wpri_mask)

-- The switch on `funct3`; `none` is the default case, which must not be reached.
unfoldable pub execute_csr : CsrEntry → ClintState → Hart → Decoding → ℕ → Option Hart
unfolding csrrw csrrs csrrc
execute_csr csr clint h dec addr =
    if dec.funct3 == 0x01 || dec.funct3 == 0x05
    then some (csrrw csr clint h dec addr)
    else if dec.funct3 == 0x2 || dec.funct3 == 0x6
    then some (csrrs csr clint h dec addr)
    else if dec.funct3 == 0x3 || dec.funct3 == 0x7
    then some (csrrc csr clint h dec addr)
    else none

-- `none` is an assertion failing, or the panic on a register that the table does not have.
unfoldable pub riscv_generic_csr_callback : ClintState → Hart → ℕ → Option Hart
unfolding execute_csr
riscv_generic_csr_callback clint h instruction =
    if bit_and instruction 0x7f == opcode_supervisor_level
    then elim (instruction_decoding_per_type instruction EncodingType.type_i) [
      | none ↦ none
      | some dec ↦
          (let addr = bit_and dec.imm 0xfff in
            elim (csr_at addr) [ none ↦ none | some csr ↦ execute_csr csr clint h dec addr ])
    ]
    else none
