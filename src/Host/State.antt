-- ===== src/Host/State.antt =====
-- The host registers and the host memory that translated code works on (vmm/translation.h,
-- vmm/translation.c). The four registers that vmresume loads keep their values in translated code.
use zelda_riscv_emulator.Base.{ℕ, ◌≡◌, Bool, refl, update}

-- The registers that translated code computes with.
pub data Reg : Type 0 where
  rax rbx rcx rdx rsi rdi r8 : Reg

pub record Scratch : Type 0 where
  pub rax_value : ℕ
  pub rbx_value : ℕ
  pub rcx_value : ℕ
  pub rdx_value : ℕ
  pub rsi_value : ℕ
  pub rdi_value : ℕ
  pub r8_value : ℕ

-- The flags that `cmpl` sets: zero, carry, sign and overflow.
pub record Flags : Type 0 where
  pub zf : Bool
  pub cf : Bool
  pub sf : Bool
  pub of : Bool

-- `r14` and `r15` are the addresses of the guest's pc and of its registers, `mem` is the memory by the
-- address of its 32-bit words.
pub record Cpu : Type 0 where
  pub scratch : Scratch
  pub flags : Flags
  pub r12 : ℕ
  pub r14 : ℕ
  pub r15 : ℕ
  pub mem : ℕ → ℕ

unfoldable pub get_reg : Reg → Scratch → ℕ
get_reg rax s = s.rax_value
get_reg rbx s = s.rbx_value
get_reg rcx s = s.rcx_value
get_reg rdx s = s.rdx_value
get_reg rsi s = s.rsi_value
get_reg rdi s = s.rdi_value
get_reg r8 s = s.r8_value

unfoldable pub set_reg : Reg → ℕ → Scratch → Scratch
set_reg rax v s = record s { rax_value = v }
set_reg rbx v s = record s { rbx_value = v }
set_reg rcx v s = record s { rcx_value = v }
set_reg rdx v s = record s { rdx_value = v }
set_reg rsi v s = record s { rsi_value = v }
set_reg rdi v s = record s { rdi_value = v }
set_reg r8 v s = record s { r8_value = v }

abbrev pub get : Reg → Cpu → ℕ
get r c = get_reg r c.scratch

abbrev pub put : Reg → ℕ → Cpu → Cpu
put r v c = record c { scratch = set_reg r v c.scratch }

-- `movl %src, (%address)`.
abbrev pub store : ℕ → ℕ → Cpu → Cpu
store address v c = record c { mem = update c.mem address v }

pub get-set_reg_self : (r : Reg) (v : ℕ) (s : Scratch) → get_reg r (set_reg r v s) ≡ v
unfolding get_reg set_reg
get-set_reg_self rax v s = refl
get-set_reg_self rbx v s = refl
get-set_reg_self rcx v s = refl
get-set_reg_self rdx v s = refl
get-set_reg_self rsi v s = refl
get-set_reg_self rdi v s = refl
get-set_reg_self r8 v s = refl

pub set_reg-set_reg :
    (r : Reg) (v w : ℕ) (s : Scratch) → set_reg r v (set_reg r w s) ≡ set_reg r v s
unfolding set_reg
set_reg-set_reg rax v w s = refl
set_reg-set_reg rbx v w s = refl
set_reg-set_reg rcx v w s = refl
set_reg-set_reg rdx v w s = refl
set_reg-set_reg rsi v w s = refl
set_reg-set_reg rdi v w s = refl
set_reg-set_reg r8 v w s = refl
