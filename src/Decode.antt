-- ===== src/Decode.antt =====
-- vmm/translation.c: splitting an instruction word into its fields.
mod Tests
pub mod Roundtrip
use zelda_riscv_emulator.Base.{ℕ, ◌*◌, ◌/◌, ◌^◌, Option, none, some, bit_and, bit_or}

-- `enum INSTRUCTION_ENCODING_TYPE`.
pub data EncodingType : Type 0 where
  type_unknown type_u type_i type_uj type_s type_b type_r : EncodingType

pub record Decoding : Type 0 where
  pub instr_encoding_type : EncodingType
  pub opcode : ℕ
  pub funct3 : ℕ
  pub rd_index : ℕ
  pub rs1_index : ℕ
  pub rs2_index : ℕ
  pub funct7 : ℕ
  pub imm : ℕ

-- `(intrs >> shift) & mask`.
abbrev pub field : ℕ → ℕ → ℕ → ℕ
field intrs shift mask = bit_and (intrs / 2 ^ shift) mask

abbrev cleared : ℕ → EncodingType → Decoding
cleared intrs encoding_type = record {
  instr_encoding_type = encoding_type;
  opcode = bit_and intrs 0x7f;
  funct3 = 0;
  rd_index = 0;
  rs1_index = 0;
  rs2_index = 0;
  funct7 = 0;
  imm = 0;
}

-- `none` is the assertion of the default case failing.
unfoldable pub instruction_decoding_per_type : ℕ → EncodingType → Option Decoding
instruction_decoding_per_type intrs type_unknown = none
instruction_decoding_per_type intrs type_u =
    some (record (cleared intrs type_u) {
      rd_index = field intrs 7 0x1f;
      imm = field intrs 12 0xfffff;
    })
instruction_decoding_per_type intrs type_uj = some (record (cleared intrs type_uj) {
  rd_index = field intrs 7 0x1f;
  imm =
      bit_or
        (bit_or (bit_or (field intrs 21 0x3ff) (field intrs 20 0x1 * 2 ^ 10))
          (field intrs 12 0xff * 2 ^ 11))
        (field intrs 31 0x1 * 2 ^ 19);
})
instruction_decoding_per_type intrs type_i = some (record (cleared intrs type_i) {
  rd_index = field intrs 7 0x1f;
  funct3 = field intrs 12 7;
  rs1_index = field intrs 15 0x1f;
  imm = field intrs 20 0xfff;
})
instruction_decoding_per_type intrs type_s = some (record (cleared intrs type_s) {
  funct3 = field intrs 12 7;
  rs1_index = field intrs 15 0x1f;
  rs2_index = field intrs 20 0x1f;
  imm = bit_or (field intrs 7 0x1f) (field intrs 25 0x7f * 2 ^ 5);
})
instruction_decoding_per_type intrs type_b = some (record (cleared intrs type_b) {
  funct3 = field intrs 12 0x7;
  rs1_index = field intrs 15 0x1f;
  rs2_index = field intrs 20 0x1f;
  imm =
      bit_or
        (bit_or (bit_or (field intrs 8 0xf) (field intrs 25 0x3f * 2 ^ 4))
          (field intrs 7 0x1 * 2 ^ 10))
        (field intrs 31 0x1 * 2 ^ 11);
})
instruction_decoding_per_type intrs type_r = some (record (cleared intrs type_r) {
  funct3 = field intrs 12 0x7;
  rd_index = field intrs 7 0x1f;
  rs1_index = field intrs 15 0x1f;
  rs2_index = field intrs 20 0x1f;
  funct7 = field intrs 25 0x7f;
})
