-- ===== src/Csr/Tests.antt =====
-- Runs of the register model.
use zelda_riscv_emulator.Base.{
  some, inl, inr, [], replicate, set, update, ◌≡◌, true, false, arith, refl, none,
}
use zelda_riscv_emulator.Hart.{Hart, Status}
use zelda_riscv_emulator.Clint
use zelda_riscv_emulator.Clint.{ClintState}
use zelda_riscv_emulator.Decode.{Decoding, type_i}
use zelda_riscv_emulator.Csr.Callback.{execute_csr}
use zelda_riscv_emulator.Csr.Instructions.{
  Unwritten, Exchanged, plain_entry, execute_csr-Unwritten, execute_csr-Exchanged,
}
use zelda_riscv_emulator.Csr.{
  mstatus_read, mstatus_write, sstatus_read, sstatus_write, mip_write, sip_write, sie_write,
  sie_read, sip_read,
}
use zelda_riscv_emulator.Csr.Table.{csr_at}
use zelda_riscv_emulator.Csr.Views.{FieldsFit}

abbrev status : Status
status = record {
  uie = false;
  sie = true;
  mie = true;
  upie = false;
  spie = false;
  mpie = true;
  spp = 1;
  mpp = 3;
}

status-FieldsFit : FieldsFit status
status-FieldsFit = record { spp_fits = omega arith; mpp_fits = omega arith }

mstatus_read-status : mstatus_read status ≡ 0x198a
unfolding mstatus_read
mstatus_read-status = refl

csr_at-missing : csr_at 0x7a0 ≡ none
unfolding csr_at zelda_riscv_emulator.Csr.Table.find_entry
csr_at-missing = refl

abbrev hart : Hart
hart = record {
  regs = set (set (replicate 32 0) 5 0xff) 6 0;
  pc = 0x80001000;
  hart_id = 0;
  nr_translated_instructions = 0;
  translation_cache_ptr = 0;
  csr_blob = update (λ addr. 0) 0x302 0xb109;
  idelegation = 0;
  ienable = 0;
  ipending = 0;
  status = status;
  privilege_level = 3;
  itlb = [];
  dtlb = [];
  itlb_cap = 0;
  dtlb_cap = 0;
  tsc = 0;
}

-- csrrs x6, medeleg, x5 and csrrc x6, medeleg, x0.
abbrev sets : Decoding
sets = record {
  instr_encoding_type = type_i;
  opcode = 0x73;
  funct3 = 2;
  rd_index = 6;
  rs1_index = 5;
  rs2_index = 0;
  funct7 = 0;
  imm = 0x302;
}

abbrev clears_none : Decoding
clears_none = record sets { funct3 = 3; rs1_index = 0 }

abbrev clint : ClintState
clint = Clint.init 0x2000000 0x10000 1

execute_csr-Unwritten_example :
    (after : Hart) × (execute_csr (plain_entry 0xfffff7ff) clint hart clears_none 0x302
      ≡ some after)
    × Unwritten hart after
execute_csr-Unwritten_example =
    execute_csr-Unwritten (plain_entry 0xfffff7ff) clint hart clears_none 0x302 (inr (inl refl))
      refl

execute_csr-Exchanged_example :
    (after : Hart) × (execute_csr (plain_entry 0xfffff7ff) clint hart sets 0x302 ≡ some after)
    × Exchanged hart after sets 0x302 0xfffff7ff
execute_csr-Exchanged_example =
    execute_csr-Exchanged 0xfffff7ff clint hart sets 0x302 (inr (inl refl)) (omega arith)
      (omega arith) (omega arith)
