-- ===== src/Decode/Tests.antt =====
-- Runs of the decoder on jal x1, 8 and on a branch backwards.
use zelda_riscv_emulator.Base.{◌≡◌, ◌≢◌, some, arith}
use zelda_riscv_emulator.Decode.{type_unknown, type_b, Decoding, instruction_decoding_per_type}
use zelda_riscv_emulator.Decode.Roundtrip.{encode, encode-instruction_decoding_per_type}

type_b_known : type_b ≢ type_unknown
type_b_known e = ground arith

encode-instruction_decoding_per_type_example :
    (dec : Decoding) × (instruction_decoding_per_type 0xfe0518e3 type_b ≡ some dec)
    × (encode dec type_b ≡ 0xfe0518e3)
encode-instruction_decoding_per_type_example =
    encode-instruction_decoding_per_type 0xfe0518e3 type_b (omega arith) type_b_known
