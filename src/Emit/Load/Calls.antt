-- ===== src/Emit/Load/Calls.antt =====
-- The call of a LOAD block, up to the load of the result register.
use zelda_riscv_emulator.Base.{
  ℕ, ◌+◌, ◌*◌, ◌%◌, ◌^◌, ◌<◌, ◌≡◌, ◌==◌, if◌then◌else◌, Option, none, some, List, [], ◌∷◌, ◌++◌,
  arith, refl, ◌∙◌, u32,
}
use zelda_riscv_emulator.Host.{
  Functions, Instr, Callback, unwinds, run, exec, proceed, fetch, movl_param, addl, movq_r12,
  call_saved, shll, addq_r15, movl_store,
}
use zelda_riscv_emulator.Host.State.{Cpu, Scratch, rax, rdx, rsi, rdi, put, get_reg, set_reg}
use zelda_riscv_emulator.Host.Word.{sign_extend}
use zelda_riscv_emulator.Host.Guest.{
  Guest, Holds, Holds-compute, Retires, retire, fetch_lem, point_lem, store_low_lem, straight,
  run-straight, param,
}
use zelda_riscv_emulator.Decode.{Decoding}
use zelda_riscv_emulator.Translation.Cache.{Block}
use zelda_riscv_emulator.Emit.SignExtend.{sign_extend32, sign_extend32_lem}
use zelda_riscv_emulator.Emit.ArithImmediate.{immediate_params}
use zelda_riscv_emulator.Emit.ArithImmediate.Computes.{HasImmediate, immediate}
use zelda_riscv_emulator.Emit.Load.{lb_block, lbu_block, lh_block, lhu_block, lw_block}

pub data LoadOp : Type 0 where
  lb lh lw lbu lhu : LoadOp

unfoldable pub load_of : ℕ → Option LoadOp
load_of funct3 =
    if funct3 == 0
    then some lb
    else if funct3 == 1
    then some lh
    else if funct3 == 2
    then some lw
    else if funct3 == 4
    then some lbu
    else if funct3 == 5
    then some lhu
    else none

-- The access of the emulator that a load makes.
unfoldable pub read_by : LoadOp → Callback
read_by lb = Callback.mmu_read8
read_by lbu = Callback.mmu_read8
read_by lh = Callback.mmu_read16
read_by lhu = Callback.mmu_read16
read_by lw = Callback.mmu_read32

-- The register that the architecture makes of what the memory holds.
unfoldable pub loaded : LoadOp → ℕ → ℕ
loaded lb v = sign_extend (2 ^ 8) (2 ^ 32) (v % 2 ^ 8)
loaded lbu v = v % 2 ^ 8
loaded lh v = sign_extend (2 ^ 16) (2 ^ 32) (v % 2 ^ 16)
loaded lhu v = v % 2 ^ 16
loaded lw v = u32 v

unfoldable pub load_block : LoadOp → Decoding → Block
load_block lb = lb_block
load_block lbu = lbu_block
load_block lh = lh_block
load_block lhu = lhu_block
load_block lw = lw_block

-- The address of the access.
abbrev pub effective_address : Decoding → Guest → ℕ
effective_address dec g = u32 (g.x dec.rs1_index + immediate dec)

-- The state in which a load calls the read of the emulator: the hart and the address are its arguments,
-- and the memory is that of the state in which the block was entered.
abbrev pub load_call : Decoding → Guest → Cpu → Cpu
load_call dec g c = put rdi c.r12 (put rsi (effective_address dec g) (put rdx (immediate dec) c))

-- The state behind a call.
abbrev pub returned : Cpu → Cpu → Cpu
returned d after = record after { r12 = d.r12; r14 = d.r14; r15 = d.r15 }

-- What a call in a given state answers: it returns and keeps what the guest sees, or it raises an
-- exception and does not return.
abbrev pub Answers : Functions → Callback → ℕ → Guest → Cpu → Option Cpu → Type 0
Answers call function hart g d none = call function d ≡ none
Answers call function hart g d (some after) =
    (call function d ≡ some after) × Holds hart (returned d after) g

module _ {hart : ℕ} {c : Cpu} {g : Guest} (call : Functions) (dec : Decoding) (h : Holds hart c g)
    (n : HasImmediate dec) where
  abbrev pub params : List ℕ
  params = immediate_params (sign_extend32 dec.imm 11) dec

  offset-eq : u32 (sign_extend32 dec.imm 11) ≡ immediate dec
  offset-eq = rw (sign_extend32_lem dec.imm 11 (omega arith) n.imm) (ground (arith, n.imm))

  address-eq :
      u32 (u32 (g.x dec.rs1_index) + u32 (u32 (sign_extend32 dec.imm 11))) ≡ effective_address dec g
  address-eq = rw offset-eq (omega arith)

  pub calls_lem :
      (rest : List Instr)
      → run call params
          (fetch 1 rdx rsi (movl_param 0 rdx ∷ addl rdx rsi ∷ movq_r12 rdi ∷ rest))
          none
          c
        ≡ run call params rest none (load_call dec g c)
  unfolding straight exec get_reg set_reg
  calls_lem rest =
      fetch_lem call params 1 dec.rs1_index rdx rsi
        (movl_param 0 rdx ∷ addl rdx rsi ∷ movq_r12 rdi ∷ rest) h refl n.rs1
      ∙ run-straight call params (movl_param 0 rdx ∷ addl rdx rsi ∷ movq_r12 rdi ∷ []) rest _ _ refl
      ∙ (λ i.
          run call params rest none
            (put rdi c.r12 (put rsi (address-eq i) (put rdx (offset-eq i) c))))

-- Behind the call, the value in `rax` is extended and stored.
pub deposits_lem :
    {hart : ℕ} {d after : Cpu} {g : Guest} (call : Functions) (params : List ℕ) (rd w : ℕ)
    (function : Callback) (extension : List Instr) (s : Scratch)
    → rd < 32
    → param params 2 ≡ rd
    → call function d ≡ some after
    → Holds hart (returned d after) g
    → straight call params extension (put rdx (hart + 4 * rd) (returned d after))
      ≡ some (record (returned d after) { scratch = s })
    → get_reg rdx s ≡ hart + 4 * rd
    → u32 (get_reg rax s) ≡ w
    → w < 2 ^ 32
    → Retires hart
        (run call params
          (call_saved function
            ∷ movl_param 2 rdx
            ∷ shll 2 rdx
            ∷ addq_r15 rdx
            ∷ (extension ++ (movl_store rax rdx ∷ proceed)))
          none
          d)
        (retire rd w g)
deposits_lem {hart} {d} {after} {g} call params rd w function extension s small e returns h middle
      at value word =
    let (last, ends, held) =
      store_low_lem call params rd w rdx rax (Holds-compute s after.flags h) small at value word in
    (
      last,
      called
          ∙ point_lem call params 2 rd rdx (extension ++ (movl_store rax rdx ∷ proceed)) h e small
          ∙ run-straight call params extension (movl_store rax rdx ∷ proceed) _ _ middle
          ∙ ends,
      held,
    )
  where
    called :
        run call params
          (call_saved function
            ∷ movl_param 2 rdx
            ∷ shll 2 rdx
            ∷ addq_r15 rdx
            ∷ (extension ++ (movl_store rax rdx ∷ proceed)))
          none
          d
        ≡ run call params
            (movl_param 2 rdx
              ∷ shll 2 rdx
              ∷ addq_r15 rdx
              ∷ (extension ++ (movl_store rax rdx ∷ proceed)))
            none
            (returned d after)
    called = unfold run exec in rw (run, exec, returns)

pub unwinds_lem :
    (call : Functions) (params : List ℕ) (function : Callback) (rest : List Instr) (d : Cpu)
    → call function d ≡ none
    → run call params (call_saved function ∷ rest) none d ≡ unwinds
unfolding run exec
unwinds_lem call params function rest d e = rw (run, exec, e)
