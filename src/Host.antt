-- ===== src/Host.antt =====
-- The host instructions that the inline assembly of vmm/translation.h, translation.c and
-- vmm/translate_*.c consists of, and the run of one translated block. Only the flags of `cmpl` are
-- kept: every conditional instruction of that assembly stands behind one.
pub mod State
pub mod Word
pub mod Guest
pub mod Compare
pub mod Product
pub mod Divide
use zelda_riscv_emulator.Base.{
  ℕ, zero, suc, ◌+◌, ◌-◌, ◌*◌, ◌/◌, ◌%◌, ◌^◌, ◌≤◌, Bool, true, false, not, ◌&&◌, ◌||◌, ◌==◌, ltb,
  leb, if◌then◌else◌, Option, none, some, List, [], ◌∷◌, get_or, u8, u32, u64, sub32, bit_and,
  bit_or, bit_xor,
}
use zelda_riscv_emulator.Host.State.{
  Reg, rax, rbx, rcx, rdx, rsi, rdi, r8, Flags, Cpu, Scratch, get, put, store, get_reg, set_reg,
}
use zelda_riscv_emulator.Host.Word.{negative, magnitude, signed, differ, sign_extend, sar32}

-- The functions of the emulator that translated code calls.
pub data Callback : Type 0 where
  mmu_read8 mmu_read16 mmu_read32 mmu_write8 mmu_write16 mmu_write32 : Callback
  amo_instruction_slowpath flush_translation_cache : Callback
  ebreak_callback mret_callback sret_callback sfence_vma_callback ecall_callback : Callback
  wfi_callback riscv_generic_csr_callback : Callback

-- The conditions of `je`, `jne`, `jl`, `jge`, `jb` and `jae`, also of `setl` and `setb`.
pub data Cond : Type 0 where
  e ne l ge b ae : Cond

-- The operands are in the order of the source: the target is the last one.
pub data Instr : Type 0 where
  movl_param cmpl_param : ℕ → Reg → Instr
  movl_imm andl_imm addl_imm cmpl_imm : ℕ → Reg → Instr
  movl_reg addl subl andl orl xorl cmpl : Reg → Reg → Instr
  -- `movl (%from), %to` and `movl %from, (%to)`.
  movl_load movl_store : Reg → Reg → Instr
  -- `movl (%r14), %to`, `movl %from, (%r14)`, `addl $k, (%r14)` and `movl $0, (%r15)`.
  movl_load_r14 movl_store_r14 : Reg → Instr
  addl_r14 : ℕ → Instr
  movl_zero_r15 : Instr
  addq_r15 : Reg → Instr
  movq_r12 : Reg → Instr
  shll shrq : ℕ → Reg → Instr
  shll_cl shrl_cl sarl_cl : Reg → Instr
  setcc : Cond → Reg → Instr
  movzbl movzwl movsbl movswl movslq : Reg → Reg → Instr
  btr : ℕ → Reg → Instr
  imull mull imulq idivl divl : Reg → Instr
  jcc : Cond → ℕ → Instr
  jmp label : ℕ → Instr
  -- The call of a function, with `r12` to `r15` on the stack around it.
  call_saved : Callback → Instr
  -- `jmp *_translation_end`, and the jump to `vmm_entry_point`.
  end_instruction trap_to_vmm : Instr

-- How the run of a block ends: at its end, in the emulator, by the divide error of the host, in a
-- function that does not return, or in the parameters behind the code.
pub data Outcome : Type 0 where
  reaches_end traps : Cpu → Outcome
  divide_error unwinds runs_off : Outcome

pub data Effect : Type 0 where
  falls : Cpu → Effect
  jumps : ℕ → Effect
  stops : Outcome → Effect

unfoldable pub holds : Cond → Flags → Bool
holds Cond.e f = f.zf
holds Cond.ne f = not f.zf
holds Cond.l f = differ f.sf f.of
holds Cond.ge f = not (differ f.sf f.of)
holds Cond.b f = f.cf
holds Cond.ae f = not f.cf

-- The flags of `x - y` on 32 bits.
unfoldable pub compare_flags : ℕ → ℕ → Flags
compare_flags x y = record {
  zf = sub32 x y == 0;
  cf = ltb x y;
  sf = negative (2 ^ 32) (sub32 x y);
  of =
      differ (negative (2 ^ 32) x) (negative (2 ^ 32) y)
      && differ (negative (2 ^ 32) x) (negative (2 ^ 32) (sub32 x y));
}

abbrev pub low : Reg → Cpu → ℕ
low r c = u32 (get r c)

-- `edx:eax` takes a 64-bit product, `rdx:rax` the lower half of a 128-bit one and any upper half.
abbrev pub put_pair : ℕ → Cpu → Cpu
put_pair product c = put rdx (u32 (product / 2 ^ 32)) (put rax (u32 product) c)

-- `idivl` and `divl` of `edx:eax`: the quotient is truncated, a remainder has the dividend's sign.
unfoldable pub divide_signed : ℕ → Cpu → Effect
divide_signed divisor c =
    let dividend = low rdx c * 2 ^ 32 + low rax c in
    let sign = differ (negative (2 ^ 64) dividend) (negative (2 ^ 32) divisor) in
    let size = magnitude (2 ^ 64) dividend / magnitude (2 ^ 32) divisor in
    let rest = magnitude (2 ^ 64) dividend % magnitude (2 ^ 32) divisor in
    if divisor == 0
    then stops divide_error
    else if leb (if sign then 2 ^ 31 + 1 else 2 ^ 31) size
    then stops divide_error
    else falls (
        put rdx (signed (2 ^ 32) (negative (2 ^ 64) dividend) rest)
          (put rax (signed (2 ^ 32) sign size) c))

unfoldable pub divide_unsigned : ℕ → Cpu → Effect
divide_unsigned divisor c =
    let dividend = low rdx c * 2 ^ 32 + low rax c in
    if divisor == 0
    then stops divide_error
    else if leb (2 ^ 32) (dividend / divisor)
    then stops divide_error
    else falls (put rdx (dividend % divisor) (put rax (dividend / divisor) c))

-- A function returns its result in `rax` and gives `r12`, `r14` and `r15` back; `none` means that it
-- jumps to the emulator instead of returning.
abbrev pub Functions : Type 0
Functions = Callback → Cpu → Option Cpu

abbrev after_call : Cpu → Option Cpu → Effect
after_call c none = stops unwinds
after_call c (some d) = falls (record d { r12 = c.r12; r14 = c.r14; r15 = c.r15 })

unfoldable pub exec : Functions → List ℕ → Instr → Cpu → Effect
exec call params (movl_param k r) c = falls (put r (u32 (get_or params k 0xcccccccc)) c)
exec call params (cmpl_param k r) c =
    falls (record c { flags = compare_flags (low r c) (u32 (get_or params k 0xcccccccc)) })
exec call params (movl_imm k r) c = falls (put r k c)
exec call params (andl_imm k r) c = falls (put r (bit_and (low r c) k) c)
exec call params (addl_imm k r) c = falls (put r (u32 (low r c + k)) c)
exec call params (cmpl_imm k r) c = falls (record c { flags = compare_flags (low r c) k })
exec call params (movl_reg s r) c = falls (put r (low s c) c)
exec call params (addl s r) c = falls (put r (u32 (low r c + low s c)) c)
exec call params (subl s r) c = falls (put r (sub32 (low r c) (low s c)) c)
exec call params (andl s r) c = falls (put r (bit_and (low r c) (low s c)) c)
exec call params (orl s r) c = falls (put r (bit_or (low r c) (low s c)) c)
exec call params (xorl s r) c = falls (put r (bit_xor (low r c) (low s c)) c)
exec call params (cmpl s r) c = falls (record c { flags = compare_flags (low r c) (low s c) })
exec call params (movl_load s r) c = falls (put r (u32 (c.mem (get s c))) c)
exec call params (movl_store s r) c = falls (store (get r c) (low s c) c)
exec call params (movl_load_r14 r) c = falls (put r (u32 (c.mem c.r14)) c)
exec call params (movl_store_r14 s) c = falls (store c.r14 (low s c) c)
exec call params (addl_r14 k) c = falls (store c.r14 (u32 (c.mem c.r14 + k)) c)
exec call params movl_zero_r15 c = falls (store c.r15 0 c)
exec call params (addq_r15 r) c = falls (put r (u64 (get r c + c.r15)) c)
exec call params (movq_r12 r) c = falls (put r c.r12 c)
exec call params (shll k r) c = falls (put r (u32 (low r c * 2 ^ k)) c)
exec call params (shrq k r) c = falls (put r (get r c / 2 ^ k) c)
exec call params (shll_cl r) c = falls (put r (u32 (low r c * 2 ^ (get rcx c % 32))) c)
exec call params (shrl_cl r) c = falls (put r (low r c / 2 ^ (get rcx c % 32)) c)
exec call params (sarl_cl r) c = falls (put r (sar32 (low r c) (get rcx c % 32)) c)
exec call params (setcc k r) c =
    falls (put r (get r c - get r c % 2 ^ 8 + (if holds k c.flags then 1 else 0)) c)
exec call params (movzbl s r) c = falls (put r (get s c % 2 ^ 8) c)
exec call params (movzwl s r) c = falls (put r (get s c % 2 ^ 16) c)
exec call params (movsbl s r) c = falls (put r (sign_extend (2 ^ 8) (2 ^ 32) (get s c % 2 ^ 8)) c)
exec call params (movswl s r) c = falls (put r (sign_extend (2 ^ 16) (2 ^ 32) (get s c % 2 ^ 16)) c)
exec call params (movslq s r) c = falls (put r (sign_extend (2 ^ 32) (2 ^ 64) (low s c)) c)
exec call params (btr k r) c = falls (put r (low r c - low r c / 2 ^ k % 2 * 2 ^ k) c)
exec call params (imull r) c = falls (
    put_pair
      (signed (2 ^ 64) (differ (negative (2 ^ 32) (low rax c)) (negative (2 ^ 32) (low r c)))
        (magnitude (2 ^ 32) (low rax c) * magnitude (2 ^ 32) (low r c)))
      c)
exec call params (mull r) c = falls (put_pair (low rax c * low r c) c)
exec call params (imulq r) c =
    let product =
      signed (2 ^ 128) (differ (negative (2 ^ 64) (get rax c)) (negative (2 ^ 64) (get r c)))
        (magnitude (2 ^ 64) (get rax c) * magnitude (2 ^ 64) (get r c)) in
    falls (put rdx (product / 2 ^ 64) (put rax (u64 product) c))
exec call params (idivl r) c = divide_signed (low r c) c
exec call params (divl r) c = divide_unsigned (low r c) c
exec call params (jcc k n) c = if holds k c.flags then jumps n else falls c
exec call params (jmp n) c = jumps n
exec call params (label n) c = falls c
exec call params (call_saved f) c = after_call c (call f c)
exec call params end_instruction c = stops (reaches_end c)
exec call params trap_to_vmm c = stops (traps c)

abbrev pub is_label : ℕ → Instr → Bool
is_label n (label k) = k == n
is_label n _ = false

-- The run of a block, all of whose jumps go forward: it executes, or it looks for the label that it
-- jumped to.
unfoldable pub run : Functions → List ℕ → List Instr → Option ℕ → Cpu → Outcome
run call params [] target c = runs_off
run call params (i ∷ code) (some n) c =
    run call params code (if is_label n i then none else some n) c
run call params (i ∷ code) none c = elim (exec call params i c) [
  | falls d ↦ run call params code none d
  | jumps n ↦ run call params code (some n) c
  | stops outcome ↦ outcome
]

-- `movl PIC_PARAM(k), %at; shl $2, %at; addq %r15, %at`: the address of the guest register that a
-- parameter names; then a load, or the store that ends most blocks.
abbrev pub fetch : ℕ → Reg → Reg → List Instr → List Instr
fetch k at to code = movl_param k at ∷ shll 2 at ∷ addq_r15 at ∷ movl_load at to ∷ code

abbrev pub deposit : ℕ → Reg → Reg → List Instr → List Instr
deposit k at from code = movl_param k at ∷ shll 2 at ∷ addq_r15 at ∷ movl_store from at ∷ code

-- RESET_ZERO_REGISTER, PROCEED_TO_NEXT_INSTRUCTION and END_INSTRUCTION.
abbrev pub proceed : List Instr
proceed = movl_zero_r15 ∷ addl_r14 4 ∷ end_instruction ∷ []
