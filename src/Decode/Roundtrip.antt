-- ===== src/Decode/Roundtrip.antt =====
-- The decoder against the encodings of the manual.
use zelda_riscv_emulator.Base.{
  ℕ, ◌+◌, ◌-◌, ◌*◌, ◌/◌, ◌%◌, ◌^◌, ◌<◌, ◌≡◌, ◌≢◌, some, arith, refl, ◌∙◌, bit_or, bit_and_mask,
  bit_or_fields, bit_or_comm,
}
use zelda_riscv_emulator.Decode.{
  EncodingType, type_unknown, type_u, type_i, type_uj, type_s, type_b, type_r, Decoding, field,
  instruction_decoding_per_type,
}

-- The instruction word of the architecture's formats, from the fields. The immediates of UJ and B
-- are in units of two bytes.
unfoldable pub encode : Decoding → EncodingType → ℕ
encode d type_unknown = 0
encode d type_u = d.imm * 2 ^ 12 + d.rd_index * 2 ^ 7 + d.opcode
encode d type_uj =
    d.imm / 2 ^ 19 * 2 ^ 31
    + d.imm % 2 ^ 10 * 2 ^ 21
    + d.imm / 2 ^ 10 % 2 * 2 ^ 20
    + d.imm / 2 ^ 11 % 2 ^ 8 * 2 ^ 12
    + d.rd_index * 2 ^ 7
    + d.opcode
encode d type_i =
    d.imm * 2 ^ 20 + d.rs1_index * 2 ^ 15 + d.funct3 * 2 ^ 12 + d.rd_index * 2 ^ 7 + d.opcode
encode d type_s =
    d.imm / 2 ^ 5 * 2 ^ 25
    + d.rs2_index * 2 ^ 20
    + d.rs1_index * 2 ^ 15
    + d.funct3 * 2 ^ 12
    + d.imm % 2 ^ 5 * 2 ^ 7
    + d.opcode
encode d type_b =
    d.imm / 2 ^ 11 * 2 ^ 31
    + d.imm / 2 ^ 4 % 2 ^ 6 * 2 ^ 25
    + d.rs2_index * 2 ^ 20
    + d.rs1_index * 2 ^ 15
    + d.funct3 * 2 ^ 12
    + d.imm % 2 ^ 4 * 2 ^ 8
    + d.imm / 2 ^ 10 % 2 * 2 ^ 7
    + d.opcode
encode d type_r =
    d.funct7 * 2 ^ 25
    + d.rs2_index * 2 ^ 20
    + d.rs1_index * 2 ^ 15
    + d.funct3 * 2 ^ 12
    + d.rd_index * 2 ^ 7
    + d.opcode

field_lem : (k intrs shift : ℕ) → field intrs shift (2 ^ k - 1) ≡ intrs / 2 ^ shift % 2 ^ k
field_lem k intrs shift = bit_and_mask k (intrs / 2 ^ shift)

-- A field put above the ones so far.
bit_or_above : (k low high : ℕ) → low < 2 ^ k → bit_or low (high * 2 ^ k) ≡ high * 2 ^ k + low
bit_or_above k low high fits = bit_or_comm low (high * 2 ^ k) ∙ bit_or_fields k high low fits

-- The immediates of B and UJ are put together from four fields.
bit_or_four :
    (k1 k2 k3 a b c d : ℕ)
    → a < 2 ^ k1
    → b * 2 ^ k1 + a < 2 ^ k2
    → c * 2 ^ k2 + (b * 2 ^ k1 + a) < 2 ^ k3
    → bit_or (bit_or (bit_or a (b * 2 ^ k1)) (c * 2 ^ k2)) (d * 2 ^ k3)
      ≡ d * 2 ^ k3 + (c * 2 ^ k2 + (b * 2 ^ k1 + a))
bit_or_four k1 k2 k3 a b c d p q r =
    rw (bit_or_above k1 a b p, bit_or_above k2 (b * 2 ^ k1 + a) c q)
      (bit_or_above k3 (c * 2 ^ k2 + (b * 2 ^ k1 + a)) d r)

-- Every word of 32 bits is decoded in each of the six encodings, and the encoding of the fields is
-- the word.
pub encode-instruction_decoding_per_type :
    (intrs : ℕ) (encoding_type : EncodingType)
    → intrs < 2 ^ 32
    → encoding_type ≢ type_unknown
    → (dec : Decoding) × (instruction_decoding_per_type intrs encoding_type ≡ some dec)
      × (encode dec encoding_type ≡ intrs)
unfolding instruction_decoding_per_type encode
encode-instruction_decoding_per_type intrs type_unknown word known = absurd (known refl)
encode-instruction_decoding_per_type intrs type_u word known =
    (_, refl, ground (arith, bit_and_mask 7 intrs, field_lem 5 intrs 7, field_lem 20 intrs 12))
encode-instruction_decoding_per_type intrs type_i word known = (
  _,
  refl,
  ground (
    arith,
    bit_and_mask 7 intrs,
    field_lem 5 intrs 7,
    field_lem 3 intrs 12,
    field_lem 5 intrs 15,
    field_lem 12 intrs 20,
  ),
)
encode-instruction_decoding_per_type intrs type_r word known = (
  _,
  refl,
  ground (
    arith,
    bit_and_mask 7 intrs,
    field_lem 5 intrs 7,
    field_lem 3 intrs 12,
    field_lem 5 intrs 15,
    field_lem 5 intrs 20,
    field_lem 7 intrs 25,
  ),
)
encode-instruction_decoding_per_type intrs type_s word known = (
  _,
  refl,
  ground (
    arith,
    bit_and_mask 7 intrs,
    field_lem 5 intrs 7,
    field_lem 3 intrs 12,
    field_lem 5 intrs 15,
    field_lem 5 intrs 20,
    field_lem 7 intrs 25,
    bit_or_above 5 (field intrs 7 0x1f) (field intrs 25 0x7f),
  ),
)
encode-instruction_decoding_per_type intrs type_b word known = (
  _,
  refl,
  omega (
    arith,
    word,
    bit_and_mask 7 intrs,
    field_lem 3 intrs 12,
    field_lem 5 intrs 15,
    field_lem 5 intrs 20,
    low,
    next,
    high,
    top,
    bit_or_four 4 10 11 (field intrs 8 0xf) (field intrs 25 0x3f) (field intrs 7 0x1)
        (field intrs 31 0x1) (omega (arith, low)) (omega (arith, low, next))
        (omega (arith, low, next, high)),
  ),
)
  where
    low : field intrs 8 0xf ≡ intrs / 2 ^ 8 % 2 ^ 4
    low = field_lem 4 intrs 8

    next : field intrs 25 0x3f ≡ intrs / 2 ^ 25 % 2 ^ 6
    next = field_lem 6 intrs 25

    high : field intrs 7 0x1 ≡ intrs / 2 ^ 7 % 2 ^ 1
    high = field_lem 1 intrs 7

    top : field intrs 31 0x1 ≡ intrs / 2 ^ 31 % 2 ^ 1
    top = field_lem 1 intrs 31
encode-instruction_decoding_per_type intrs type_uj word known = (
  _,
  refl,
  omega (
    arith,
    word,
    bit_and_mask 7 intrs,
    field_lem 5 intrs 7,
    low,
    next,
    high,
    top,
    bit_or_four 10 11 19 (field intrs 21 0x3ff) (field intrs 20 0x1) (field intrs 12 0xff)
        (field intrs 31 0x1) (omega (arith, low)) (omega (arith, low, next))
        (omega (arith, low, next, high)),
  ),
)
  where
    low : field intrs 21 0x3ff ≡ intrs / 2 ^ 21 % 2 ^ 10
    low = field_lem 10 intrs 21

    next : field intrs 20 0x1 ≡ intrs / 2 ^ 20 % 2 ^ 1
    next = field_lem 1 intrs 20

    high : field intrs 12 0xff ≡ intrs / 2 ^ 12 % 2 ^ 8
    high = field_lem 8 intrs 12

    top : field intrs 31 0x1 ≡ intrs / 2 ^ 31 % 2 ^ 1
    top = field_lem 1 intrs 31
