-- ===== src/Emit/Tests.antt =====
-- Runs of translated instructions: a hart at 4096 whose x1 is 7 and whose x2 is 5, at the pc 4096.
use zelda_riscv_emulator.Base.{
  ℕ, ◌-◌, ◌/◌, ◌≡◌, ◌==◌, if◌then◌else◌, true, false, none, some, [], refl, arith,
}
use zelda_riscv_emulator.Host.{Callback, Functions}
use zelda_riscv_emulator.Host.State.{
  Cpu, Scratch, rax, rdx, rsi, rdi, put, get, store, get_reg, set_reg,
}
use zelda_riscv_emulator.Host.Guest.{Guest, Holds, Holds-compute, Retires, Traps, retire}
use zelda_riscv_emulator.Decode.{
  Decoding, EncodingType, instruction_decoding_per_type, type_r, type_i, type_b, type_u, type_uj,
  type_s,
}
use zelda_riscv_emulator.Translation.{PrefetchBlob, translate, advance, stop}
use zelda_riscv_emulator.Translation.Cache.{Block, Layout, TranslationCache}
use zelda_riscv_emulator.Emit.Block.{execute}
use zelda_riscv_emulator.Emit.Rv32.{alu, op_of}
use zelda_riscv_emulator.Emit.Rv32
use zelda_riscv_emulator.Emit.Op.{riscv_arithmetic_instructions_translation_entry}
use zelda_riscv_emulator.Emit.Op.Executes.{
  Ends, host_faults, riscv_arithmetic_instructions_translation_entry-Executes,
}
use zelda_riscv_emulator.Emit.ArithImmediate.{
  riscv_arithmetic_immediate_instructions_translation_entry,
}
use zelda_riscv_emulator.Emit.ArithImmediate.Computes.{immediate}
use zelda_riscv_emulator.Emit.ArithImmediate.Executes.{
  immediate_op, riscv_arithmetic_immediate_instructions_translation_entry-Executes,
}
use zelda_riscv_emulator.Emit.Branch.{riscv_branch_instructions_translation_entry}
use zelda_riscv_emulator.Emit.Branch.Executes.{
  branch, branch_of, BranchOp, riscv_branch_instructions_translation_entry-Executes,
}
use zelda_riscv_emulator.Emit.Jump.{riscv_jal_translator, riscv_jalr_translator}
use zelda_riscv_emulator.Emit.Jump.Executes.{
  jump, jal_target, jalr_target, riscv_jal_translator-Executes, riscv_jalr_translator-Executes,
}
use zelda_riscv_emulator.Emit.Upper.{riscv_lui_translator, riscv_auipc_translator}
use zelda_riscv_emulator.Emit.Upper.Executes.{riscv_lui_translator-Executes}
use zelda_riscv_emulator.Emit.Load.{riscv_memory_load_instructions_translation_entry}
use zelda_riscv_emulator.Emit.Load.Calls.{LoadOp, load_of, read_by, load_call, Answers}
use zelda_riscv_emulator.Emit.Load.Executes.{
  Loads, riscv_memory_load_instructions_translation_entry-Executes,
}
use zelda_riscv_emulator.Emit.Store.{riscv_memory_store_instructions_translation_entry}
use zelda_riscv_emulator.Emit.Store.Writes.{StoreOp, store_of, write_by, stored, store_call, Stores}
use zelda_riscv_emulator.Emit.Store.Executes.{
  riscv_memory_store_instructions_translation_entry-Executes,
}
use zelda_riscv_emulator.Emit.Privileged.{riscv_supervisor_level_instructions_translation_entry}
use zelda_riscv_emulator.Emit.Privileged.Executes.{
  sfence_vma, word_of, follow_of, Leaves,
  riscv_supervisor_level_instructions_translation_entry-Executes,
}
use zelda_riscv_emulator.Emit.Prefetch.{prefetch_instructions}
use zelda_riscv_emulator.Emit.Prefetch.Terminates.{prefetch_instructions-Terminates}

abbrev fields : EncodingType → ℕ → ℕ → ℕ → ℕ → ℕ → ℕ → ℕ → Decoding
fields encoding code f3 rd rs1 rs2 f7 immediate = record {
  instr_encoding_type = encoding;
  opcode = code;
  funct3 = f3;
  rd_index = rd;
  rs1_index = rs1;
  rs2_index = rs2;
  funct7 = f7;
  imm = immediate;
}

abbrev sample_layout : Layout
sample_layout = record { block_size = λ block. 64; jumper_size = 16 }

abbrev empty_cache : TranslationCache
empty_cache = record {
  nr_translated_instructions = 0;
  translation_cache_ptr = 0;
  pc_mappings = [];
  blocks = λ offset. none;
}

abbrev sample_blob : PrefetchBlob
sample_blob = record {
  next_instruction_to_fetch = 4096;
  is_to_stop = false;
  is_flushable = true;
  opaque = empty_cache;
}

abbrev sample_guest : Guest
sample_guest = record { x = λ i. if i == 1 then 7 else if i == 2 then 5 else 0; pc = 4096 }

abbrev sample_scratch : Scratch
sample_scratch = record {
  rax_value = 1;
  rbx_value = 1;
  rcx_value = 1;
  rdx_value = 1;
  rsi_value = 1;
  rdi_value = 1;
  r8_value = 1;
}

abbrev sample_cpu : Cpu
sample_cpu = record {
  scratch = sample_scratch;
  flags = record { zf = false; cf = true; sf = false; of = true };
  r12 = 4096;
  r14 = 4224;
  r15 = 4096;
  mem = λ address.
      if address == 4224
      then 4096
      else if address == 8
      then 0x1280
      else sample_guest.x ((address - 4096) / 4);
}

sample-Holds : Holds 4096 sample_cpu sample_guest
sample-Holds = record {
  hart_at = refl;
  registers_at = refl;
  pc_at = refl;
  fits = omega arith;
  register = λ i small. ground arith;
  word = λ i small. ground arith;
  hardwired = refl;
  counter = refl;
  counter_word = omega arith;
}

-- A read returns 0x1280, and the other functions return at once.
abbrev sample_call : Functions
sample_call function d = some (put rax 0x1280 d)

abbrev div_dec : Decoding
div_dec = fields type_r 0x33 4 3 1 2 1 0

riscv_arithmetic_instructions_translation_entry-Executes_example :
    (block : Block) × (riscv_arithmetic_instructions_translation_entry sample_layout sample_blob
        0x0220c1b3
      ≡ translate sample_layout block advance sample_blob)
    × Ends
        (host_faults Rv32.div 7 5)
        4096
        (execute sample_call block sample_cpu)
        (retire 3 (alu Rv32.div 7 5) sample_guest)
unfolding instruction_decoding_per_type op_of
riscv_arithmetic_instructions_translation_entry-Executes_example =
    riscv_arithmetic_instructions_translation_entry-Executes sample_layout sample_blob 0x0220c1b3
      div_dec Rv32.div sample_call 4096 sample_cpu sample_guest refl refl sample-Holds

abbrev addi_dec : Decoding
addi_dec = fields type_i 0x13 0 3 1 0 0 0xfff

riscv_arithmetic_immediate_instructions_translation_entry-Executes_example :
    (block : Block) × (riscv_arithmetic_immediate_instructions_translation_entry sample_layout
        sample_blob 0xfff08193
      ≡ translate sample_layout block advance sample_blob)
    × Retires 4096
        (execute sample_call block sample_cpu)
        (retire 3 (alu Rv32.add 7 (immediate addi_dec)) sample_guest)
unfolding instruction_decoding_per_type immediate_op
riscv_arithmetic_immediate_instructions_translation_entry-Executes_example =
    riscv_arithmetic_immediate_instructions_translation_entry-Executes sample_layout sample_blob
      0xfff08193 addi_dec Rv32.add sample_call 4096 sample_cpu sample_guest refl refl sample-Holds

abbrev blt_dec : Decoding
blt_dec = fields type_b 0x63 4 0 1 2 0 4

riscv_branch_instructions_translation_entry-Executes_example :
    (block : Block) × (riscv_branch_instructions_translation_entry sample_layout sample_blob
        0x0020c463
      ≡ translate sample_layout block stop sample_blob)
    × Traps 4096 (execute sample_call block sample_cpu) (branch BranchOp.blt blt_dec sample_guest)
unfolding instruction_decoding_per_type branch_of
riscv_branch_instructions_translation_entry-Executes_example =
    riscv_branch_instructions_translation_entry-Executes sample_layout sample_blob 0x0020c463
      blt_dec BranchOp.blt sample_call 4096 sample_cpu sample_guest refl refl sample-Holds refl

abbrev jal_dec : Decoding
jal_dec = fields type_uj 0x6f 0 1 0 0 0 4

riscv_jal_translator-Executes_example :
    (block : Block) × (riscv_jal_translator sample_layout sample_blob 0x008000ef
      ≡ translate sample_layout block stop sample_blob)
    × Traps 4096
        (execute sample_call block sample_cpu)
        (jump 1 (jal_target jal_dec sample_guest) sample_guest)
unfolding instruction_decoding_per_type
riscv_jal_translator-Executes_example =
    riscv_jal_translator-Executes sample_layout sample_blob 0x008000ef jal_dec sample_call 4096
      sample_cpu sample_guest refl sample-Holds refl

abbrev jalr_dec : Decoding
jalr_dec = fields type_i 0x67 0 1 2 0 0 4

riscv_jalr_translator-Executes_example :
    (block : Block) × (riscv_jalr_translator sample_layout sample_blob 0x004100e7
      ≡ translate sample_layout block stop sample_blob)
    × Traps 4096
        (execute sample_call block sample_cpu)
        (jump 1 (jalr_target jalr_dec sample_guest) sample_guest)
unfolding instruction_decoding_per_type
riscv_jalr_translator-Executes_example =
    riscv_jalr_translator-Executes sample_layout sample_blob 0x004100e7 jalr_dec sample_call 4096
      sample_cpu sample_guest refl sample-Holds refl

abbrev lui_dec : Decoding
lui_dec = fields type_u 0x37 0 3 0 0 0 0x12345

riscv_lui_translator-Executes_example :
    ((block : Block) × (riscv_lui_translator sample_layout sample_blob 0x123451b7
        ≡ translate sample_layout block advance sample_blob)
      × Retires 4096 (execute sample_call block sample_cpu) (retire 3 0x12345000 sample_guest))
    × ((block : Block) × (riscv_auipc_translator sample_layout sample_blob 0x123451b7
          ≡ translate sample_layout block advance sample_blob)
        × Retires 4096 (execute sample_call block sample_cpu) (retire 3 0x12346000 sample_guest))
unfolding instruction_decoding_per_type
riscv_lui_translator-Executes_example =
    riscv_lui_translator-Executes sample_layout sample_blob 0x123451b7 lui_dec sample_call 4096
      sample_cpu sample_guest refl sample-Holds refl

abbrev lb_dec : Decoding
lb_dec = fields type_i 0x03 0 3 1 0 0 1

-- The read and the write find the word in the memory of the state that calls them.
abbrev memory_call : Functions
memory_call Callback.mmu_read8 d = some (put rax (d.mem (get rsi d)) d)
memory_call Callback.mmu_write16 d = some (store (get rsi d) (get rdx d) d)
memory_call _ d = some d

abbrev lb_answer : Cpu
lb_answer = put rax 0x1280 (load_call lb_dec sample_guest sample_cpu)

lb_answer-Answers :
    Answers memory_call
      (read_by LoadOp.lb)
      4096
      sample_guest
      (load_call lb_dec sample_guest sample_cpu)
      (some lb_answer)
unfolding read_by get_reg set_reg
lb_answer-Answers = (refl, Holds-compute lb_answer.scratch sample_cpu.flags sample-Holds)

riscv_memory_load_instructions_translation_entry-Executes_example :
    (block : Block) × (riscv_memory_load_instructions_translation_entry sample_layout sample_blob
        0x00108183
      ≡ translate sample_layout block advance sample_blob)
    × Loads 4096 LoadOp.lb lb_dec sample_guest
        (execute memory_call block sample_cpu)
        (some lb_answer)
unfolding instruction_decoding_per_type load_of
riscv_memory_load_instructions_translation_entry-Executes_example =
    riscv_memory_load_instructions_translation_entry-Executes sample_layout sample_blob 0x00108183
      lb_dec LoadOp.lb memory_call 4096 sample_cpu sample_guest (some lb_answer) refl refl
      sample-Holds lb_answer-Answers

abbrev sh_dec : Decoding
sh_dec = fields type_s 0x23 1 0 1 2 0 4

-- The halfword goes to the address 11, which is not one of the hart.
abbrev sh_answer : Cpu
sh_answer = store 11 5 (store_call StoreOp.sh sh_dec sample_guest sample_cpu)

sh_answer-Answers :
    Answers memory_call
      (write_by StoreOp.sh)
      4096
      sample_guest
      (store_call StoreOp.sh sh_dec sample_guest sample_cpu)
      (some sh_answer)
unfolding write_by stored get_reg set_reg
sh_answer-Answers = (
  refl,
  record {
    hart_at = refl;
    registers_at = refl;
    pc_at = refl;
    fits = omega arith;
    register = λ i small. ground (arith, sample-Holds.register i small);
    word = sample-Holds.word;
    hardwired = refl;
    counter = refl;
    counter_word = omega arith;
  },
)

riscv_memory_store_instructions_translation_entry-Executes_example :
    (block : Block) × (riscv_memory_store_instructions_translation_entry sample_layout sample_blob
        0x00209223
      ≡ translate sample_layout block advance sample_blob)
    × Stores 4096 sample_guest
        (store_call StoreOp.sh sh_dec sample_guest sample_cpu)
        (execute memory_call block sample_cpu)
        (some sh_answer)
unfolding instruction_decoding_per_type store_of
riscv_memory_store_instructions_translation_entry-Executes_example =
    riscv_memory_store_instructions_translation_entry-Executes sample_layout sample_blob 0x00209223
      sh_dec StoreOp.sh memory_call 4096 sample_cpu sample_guest (some sh_answer) refl refl
      sample-Holds sh_answer-Answers

riscv_supervisor_level_instructions_translation_entry-Executes_example :
    (block : Block) × (riscv_supervisor_level_instructions_translation_entry sample_layout
        sample_blob
        (word_of (sfence_vma 1 2))
      ≡ translate sample_layout block (follow_of (sfence_vma 1 2)) sample_blob)
    × Leaves
        (sfence_vma 1 2)
        (put rdi 4096 sample_cpu)
        (execute sample_call block sample_cpu)
        (some (put rax 0x1280 (put rdi 4096 sample_cpu)))
riscv_supervisor_level_instructions_translation_entry-Executes_example =
    riscv_supervisor_level_instructions_translation_entry-Executes sample_layout sample_blob
      (sfence_vma 1 2) sample_call sample_cpu (some (put rax 0x1280 (put rdi 4096 sample_cpu)))
      (omega arith, omega arith) refl

-- The memory is full of `jal x0, 0`.
prefetch_instructions-Terminates_example :
    (after : TranslationCache) × (prefetch_instructions sample_layout
        (λ address. some 0x6f)
        4096
        empty_cache
      ≡ some after)
prefetch_instructions-Terminates_example =
    prefetch_instructions-Terminates sample_layout (λ address. some 0x6f) 4096 empty_cache
