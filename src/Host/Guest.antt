-- ===== src/Host/Guest.antt =====
-- The guest's registers and pc in the memory of the host.
use zelda_riscv_emulator.Base.{
  ℕ, ◌+◌, ◌*◌, ◌^◌, ◌≤◌, ◌<◌, ◌≡◌, ◌==◌, if◌then◌else◌, Option, none, some, List, ◌++◌, [], ◌∷◌,
  get_or, arith, refl, ap, ◌∙◌, u32, u64,
}
use zelda_riscv_emulator.Host.{
  Instr, Functions, Outcome, Effect, falls, jumps, stops, reaches_end, run, exec, fetch, deposit,
  proceed, traps, trap_to_vmm, movl_store_r14, movl_param, shll, addq_r15, movl_load, movl_store,
}
use zelda_riscv_emulator.Host.State.{
  Reg, Cpu, Scratch, Flags, put, get_reg, set_reg, get-set_reg_self, set_reg-set_reg, store,
}
use native.Mathlib.Nat.{mod-eq_of_lt}

-- The registers and the pc of a hart, as the architecture has them.
pub record Guest : Type 0 where
  pub x : ℕ → ℕ
  pub pc : ℕ

-- What vmresume sets up: `struct hart` begins with the 32 registers, and the pc follows them.
pub record Holds (hart : ℕ) (c : Cpu) (g : Guest) : Type 0 where
  pub hart_at : c.r12 ≡ hart
  pub registers_at : c.r15 ≡ hart
  pub pc_at : c.r14 ≡ hart + 128
  pub fits : hart + 132 ≤ 2 ^ 64
  pub register : (i : ℕ) → i < 32 → c.mem (hart + 4 * i) ≡ g.x i
  pub word : (i : ℕ) → i < 32 → g.x i < 2 ^ 32
  pub hardwired : g.x 0 ≡ 0
  pub counter : c.mem (hart + 128) ≡ g.pc
  pub counter_word : g.pc < 2 ^ 32

-- A register is written, unless it is `x0`.
abbrev pub write : ℕ → ℕ → Guest → Guest
write rd v g = record g { x = λ i. if i == 0 then 0 else if i == rd then v else g.x i }

-- An instruction has written its result, and the pc stands at the next one.
abbrev pub retire : ℕ → ℕ → Guest → Guest
retire rd v g = record { x = (write rd v g).x; pc = u32 (g.pc + 4) }

-- A block that ran to its end, or into the emulator, with the guest in a given state.
abbrev pub Retires : ℕ → Outcome → Guest → Type 0
Retires hart o g = (c : Cpu) × (o ≡ reaches_end c) × Holds hart c g

abbrev pub Traps : ℕ → Outcome → Guest → Type 0
Traps hart o g = (c : Cpu) × (o ≡ traps c) × Holds hart c g

-- The guest does not see the scratch registers and the flags of the host.
pub Holds-compute :
    {hart : ℕ} {c : Cpu} {g : Guest} (s : Scratch) (f : Flags)
    → Holds hart c g
    → Holds hart (record c { scratch = s; flags = f }) g
Holds-compute s f h = record {
  hart_at = h.hart_at;
  registers_at = h.registers_at;
  pc_at = h.pc_at;
  fits = h.fits;
  register = h.register;
  word = h.word;
  hardwired = h.hardwired;
  counter = h.counter;
  counter_word = h.counter_word;
}

-- The parameter of a block.
abbrev pub param : List ℕ → ℕ → ℕ
param params k = get_or params k 0xcccccccc

module _ {hart : ℕ} {c : Cpu} {g : Guest} (call : Functions) (params : List ℕ) where
  pub address_lem :
      (i : ℕ) → i < 32 → Holds hart c g → u64 (u32 (u32 (u32 i) * 2 ^ 2) + c.r15) ≡ hart + 4 * i
  address_lem i small h = omega (arith, h.registers_at, h.fits)

  -- The address of a guest register, left in a host register.
  pub point_lem :
      (k i : ℕ) (at : Reg) (code : List Instr)
      → Holds hart c g
      → param params k ≡ i
      → i < 32
      → run call params (movl_param k at ∷ shll 2 at ∷ addq_r15 at ∷ code) none c
        ≡ run call params code none (put at (hart + 4 * i) c)
  unfolding run exec
  point_lem k i at code h e small = rw (
    e,
    get-set_reg_self,
    get-set_reg_self,
    address_lem i small h,
    set_reg-set_reg,
    set_reg-set_reg,
  )

-- A load of a guest register.
pub fetch_lem :
    {hart : ℕ} {c : Cpu} {g : Guest} (call : Functions) (params : List ℕ) (k i : ℕ) (at to : Reg)
    (code : List Instr)
    → Holds hart c g
    → param params k ≡ i
    → i < 32
    → run call params (fetch k at to code) none c
      ≡ run call params code none (put to (g.x i) (put at (hart + 4 * i) c))
fetch_lem {hart} {c} {g} call params k i at to code h e small =
    point_lem call params k i at (movl_load at to ∷ code) h e small ∙ load
  where
    load :
        run call params (movl_load at to ∷ code) none (put at (hart + 4 * i) c)
        ≡ run call params code none (put to (g.x i) (put at (hart + 4 * i) c))
    load =
        unfold run exec in rw (get-set_reg_self, h.register i small, mod-eq_of_lt (h.word i small))

-- The memory after the store, after the reset of `x0` and after the step of the pc.
abbrev proceeded : ℕ → ℕ → ℕ → Cpu → Cpu
proceeded hart rd v c =
    let d = store (hart + 4 * rd) v c in
    let e = store c.r15 0 d in store c.r14 (u32 (e.mem c.r14 + 4)) e

proceeded-Holds :
    {hart : ℕ} {c : Cpu} {g : Guest} (rd v : ℕ)
    → Holds hart c g
    → rd < 32
    → v < 2 ^ 32
    → Holds hart (proceeded hart rd v c) (retire rd v g)
proceeded-Holds {hart} {c} {g} rd v h small word = record {
  hart_at = h.hart_at;
  registers_at = h.registers_at;
  pc_at = h.pc_at;
  fits = h.fits;
  register = λ i lo. rw (h.registers_at, h.pc_at) (ground (arith, h.register i lo));
  word = λ i lo. ground (arith, h.word i lo, word);
  hardwired = refl;
  counter = rw (h.registers_at, h.pc_at) (ground (arith, h.counter));
  counter_word = omega arith;
}

-- A value is stored through the address of a guest register, and the block goes on to its end.
pub store_low_lem :
    {hart : ℕ} {c : Cpu} {g : Guest} (call : Functions) (params : List ℕ) (rd v : ℕ) (at from : Reg)
    → Holds hart c g
    → rd < 32
    → get_reg at c.scratch ≡ hart + 4 * rd
    → u32 (get_reg from c.scratch) ≡ v
    → v < 2 ^ 32
    → Retires hart (run call params (movl_store from at ∷ proceed) none c) (retire rd v g)
unfolding run exec
store_low_lem {hart} {c} {g} call params rd v at from h small address value word =
    (proceeded hart rd v c, rw (address, value) refl, proceeded-Holds rd v h small word)

pub store_lem :
    {hart : ℕ} {c : Cpu} {g : Guest} (call : Functions) (params : List ℕ) (rd v : ℕ) (at from : Reg)
    → Holds hart c g
    → rd < 32
    → get_reg at c.scratch ≡ hart + 4 * rd
    → get_reg from c.scratch ≡ v
    → v < 2 ^ 32
    → Retires hart (run call params (movl_store from at ∷ proceed) none c) (retire rd v g)
store_lem call params rd v at from h small address value word =
    store_low_lem call params rd v at from h small address (ap u32 value ∙ mod-eq_of_lt word) word

-- A result is written, and the block goes on to its end.
pub deposit_lem :
    {hart : ℕ} {c : Cpu} {g : Guest} (call : Functions) (params : List ℕ) (k rd v : ℕ)
    (at from : Reg)
    → Holds hart c g
    → param params k ≡ rd
    → rd < 32
    → get_reg from (set_reg at (hart + 4 * rd) c.scratch) ≡ v
    → v < 2 ^ 32
    → Retires hart (run call params (deposit k at from proceed) none c) (retire rd v g)
deposit_lem {hart} {c} {g} call params k rd v at from h e small value word =
    let (d, ends, held) =
      store_lem call params rd v at from
        (Holds-compute (set_reg at (hart + 4 * rd) c.scratch) c.flags h) small
        (get-set_reg_self at (hart + 4 * rd) c.scratch) value word in
    (d, point_lem call params k rd at (movl_store from at ∷ proceed) h e small ∙ ends, held)

-- The pc is written, and the block leaves for the emulator.
pub leave_lem :
    {hart : ℕ} {c : Cpu} {g : Guest} (call : Functions) (params : List ℕ) (target : ℕ) (from : Reg)
    → Holds hart c g
    → get_reg from c.scratch ≡ target
    → target < 2 ^ 32
    → Traps hart
        (run call params (movl_store_r14 from ∷ trap_to_vmm ∷ []) none c)
        (record g { pc = target })
unfolding run exec
leave_lem {hart} {c} {g} call params target from h value word = (
  store c.r14 target c,
  rw (value, mod-eq_of_lt word),
  record {
    hart_at = h.hart_at;
    registers_at = h.registers_at;
    pc_at = h.pc_at;
    fits = h.fits;
    register = λ i lo. rw h.pc_at (ground (arith, h.register i lo));
    word = h.word;
    hardwired = h.hardwired;
    counter = rw h.pc_at (ground arith);
    counter_word = word;
  },
)

-- The link register and the pc are written, and the block leaves for the emulator.
pub link_lem :
    {hart : ℕ} {c : Cpu} {g : Guest} (rd v target : ℕ)
    → Holds hart c g
    → rd < 32
    → v < 2 ^ 32
    → target < 2 ^ 32
    → Holds hart
        (store c.r15 0 (store c.r14 target (store (hart + 4 * rd) v c)))
        (record { x = (write rd v g).x; pc = target })
link_lem {hart} {c} {g} rd v target h small word target_word = record {
  hart_at = h.hart_at;
  registers_at = h.registers_at;
  pc_at = h.pc_at;
  fits = h.fits;
  register = λ i lo. rw (h.registers_at, h.pc_at) (ground (arith, h.register i lo));
  word = λ i lo. ground (arith, h.word i lo, word);
  hardwired = refl;
  counter = rw (h.registers_at, h.pc_at) (ground arith);
  counter_word = target_word;
}

-- The state after instructions that do not jump.
unfoldable pub straight : Functions → List ℕ → List Instr → Cpu → Option Cpu
straight call params [] c = some c
straight call params (i ∷ code) c = elim (exec call params i c) [
  | falls d ↦ straight call params code d
  | jumps n ↦ none
  | stops outcome ↦ none
]

pub run-straight :
    (call : Functions) (params : List ℕ) (code rest : List Instr) (c d : Cpu)
    → straight call params code c ≡ some d
    → run call params (code ++ rest) none c ≡ run call params rest none d
unfolding run straight
run-straight call params [] rest c d e = ap (run call params rest none) (cc)
run-straight call params (i ∷ code) rest c d e =
    by_effect (exec call params i c) refl (λ next. run-straight call params code rest next d)
  where
    by_effect :
        (effect : Effect)
        → exec call params i c ≡ effect
        → ((next : Cpu)
            → straight call params code next ≡ some d
            → run call params (code ++ rest) none next ≡ run call params rest none d)
        → run call params ((i ∷ code) ++ rest) none c ≡ run call params rest none d
    by_effect (falls next) f again = rw (f, run) (again next (rw (f, straight) at e))
    by_effect (jumps n) f again = absurd (ground (arith, e, f))
    by_effect (stops outcome) f again = absurd (ground (arith, e, f))
