-- ===== src/Hart/Return/Roundtrip.antt =====
-- A trap and the return from it: what the guest sees when the handler only returns.
use zelda_riscv_emulator.Base.{
  ℕ, ◌≤◌, ◌≡◌, ◌≢◌, ◌⊎◌, ◌%◌, false, none, some, arith, Option-cases, inl, inr,
}
use zelda_riscv_emulator.Hart.{
  Hart, level_user, level_supervisor, level_machine, csr_mepc, csr_sepc, csr_mcause, csr_scause,
  csr_mtval, csr_stval, flush_translation_cache,
}
use zelda_riscv_emulator.Hart.Trap.{
  flush_translation_cache_on_address_space_change, raise_trap_raw, setup_mmode_trap,
  setup_smode_trap,
}
use zelda_riscv_emulator.Hart.Return.{
  adjust_mstatus_upon_mret, adjust_mstatus_upon_sret, mret_callback, sret_callback,
}

-- The levels that the emulator runs a hart at.
abbrev pub IsLevel : ℕ → Type 0
IsLevel l = (l ≡ level_user) ⊎ ((l ≡ level_supervisor) ⊎ (l ≡ level_machine))

-- What the guest sees is the same before and after: the program counter, the privilege level, the
-- registers, and the interrupt enables of the status.
pub record Resumed (before after : Hart) : Type 0 where
  pub pc : after.pc ≡ before.pc
  pub privilege_level : after.privilege_level ≡ before.privilege_level
  pub regs : after.regs ≡ before.regs
  pub mie : after.status.mie ≡ before.status.mie
  pub sie : after.status.sie ≡ before.status.sie
  pub ienable : after.ienable ≡ before.ienable
  pub ipending : after.ipending ≡ before.ipending

-- The state in which a handler for the machine starts, from the state that trapped.
pub record EntersMachine (h trapped : Hart) (cause tval : ℕ) : Type 0 where
  pub privilege_level : trapped.privilege_level ≡ level_machine
  pub mpp : trapped.status.mpp ≡ h.privilege_level % 4
  pub mpie : trapped.status.mpie ≡ h.status.mie
  pub mie : trapped.status.mie ≡ false
  pub sie : trapped.status.sie ≡ h.status.sie
  pub mepc : trapped.csr_blob csr_mepc ≡ h.pc
  pub mcause : trapped.csr_blob csr_mcause ≡ cause
  pub mtval : trapped.csr_blob csr_mtval ≡ tval
  pub regs : trapped.regs ≡ h.regs
  pub ienable : trapped.ienable ≡ h.ienable
  pub ipending : trapped.ipending ≡ h.ipending

-- The same for a handler of the supervisor.
pub record EntersSupervisor (h trapped : Hart) (cause tval : ℕ) : Type 0 where
  pub privilege_level : trapped.privilege_level ≡ level_supervisor
  pub spp : trapped.status.spp ≡ h.privilege_level % 2
  pub spie : trapped.status.spie ≡ h.status.sie
  pub sie : trapped.status.sie ≡ false
  pub mie : trapped.status.mie ≡ h.status.mie
  pub sepc : trapped.csr_blob csr_sepc ≡ h.pc
  pub scause : trapped.csr_blob csr_scause ≡ cause
  pub stval : trapped.csr_blob csr_stval ≡ tval
  pub regs : trapped.regs ≡ h.regs
  pub ienable : trapped.ienable ≡ h.ienable
  pub ipending : trapped.ipending ≡ h.ipending

pub raise_trap_raw-EntersMachine :
    (h trapped : Hart) (cause tval : ℕ)
    → raise_trap_raw h level_machine cause tval ≡ some trapped
    → EntersMachine h trapped cause tval
unfolding raise_trap_raw setup_mmode_trap flush_translation_cache_on_address_space_change
    flush_translation_cache
raise_trap_raw-EntersMachine h trapped cause tval e = ground arith

pub raise_trap_raw-EntersSupervisor :
    (h trapped : Hart) (cause tval : ℕ)
    → raise_trap_raw h level_supervisor cause tval ≡ some trapped
    → EntersSupervisor h trapped cause tval
unfolding raise_trap_raw setup_smode_trap flush_translation_cache_on_address_space_change
    flush_translation_cache
raise_trap_raw-EntersSupervisor h trapped cause tval e = ground arith

mret_callback-EntersMachine :
    (h trapped after : Hart) (cause tval : ℕ)
    → IsLevel h.privilege_level
    → EntersMachine h trapped cause tval
    → mret_callback trapped ≡ some after
    → Resumed h after
unfolding mret_callback adjust_mstatus_upon_mret flush_translation_cache_on_address_space_change
    flush_translation_cache
mret_callback-EntersMachine h trapped after cause tval level enters e = ground arith

mret_callback_total :
    (h trapped : Hart) (cause tval : ℕ)
    → IsLevel h.privilege_level
    → EntersMachine h trapped cause tval
    → mret_callback trapped ≢ none
unfolding mret_callback adjust_mstatus_upon_mret
mret_callback_total h trapped cause tval level enters refused = ground arith

-- Any trap to the machine, from a level the emulator runs at, is undone by mret: the return
-- succeeds and gives back the program counter, the level, the registers and the interrupt enables.
pub mret_callback-raise_trap_raw :
    (h trapped : Hart) (cause tval : ℕ)
    → IsLevel h.privilege_level
    → raise_trap_raw h level_machine cause tval ≡ some trapped
    → (after : Hart) × (mret_callback trapped ≡ some after) × Resumed h after
mret_callback-raise_trap_raw h trapped cause tval level e =
    let enters = raise_trap_raw-EntersMachine h trapped cause tval e in
    elim (Option-cases (mret_callback trapped)) [
      | inl refused ↦ absurd (mret_callback_total h trapped cause tval level enters refused)
      | inr (after, returns) ↦ (
        after,
        returns,
        mret_callback-EntersMachine h trapped after cause tval level enters returns,
      )
    ]

sret_callback-EntersSupervisor :
    (h trapped after : Hart) (cause tval : ℕ)
    → h.privilege_level ≤ level_supervisor
    → EntersSupervisor h trapped cause tval
    → sret_callback trapped ≡ some after
    → Resumed h after
unfolding sret_callback adjust_mstatus_upon_sret flush_translation_cache_on_address_space_change
    flush_translation_cache
sret_callback-EntersSupervisor h trapped after cause tval level enters e = ground arith

sret_callback_total :
    (h trapped : Hart) (cause tval : ℕ)
    → h.privilege_level ≤ level_supervisor
    → EntersSupervisor h trapped cause tval
    → sret_callback trapped ≢ none
unfolding sret_callback adjust_mstatus_upon_sret
sret_callback_total h trapped cause tval level enters refused = ground arith

-- Any trap to the supervisor from user or supervisor level is undone by sret: the return succeeds
-- and gives back the program counter, the level, the registers and the interrupt enables.
pub sret_callback-raise_trap_raw :
    (h trapped : Hart) (cause tval : ℕ)
    → h.privilege_level ≤ level_supervisor
    → raise_trap_raw h level_supervisor cause tval ≡ some trapped
    → (after : Hart) × (sret_callback trapped ≡ some after) × Resumed h after
sret_callback-raise_trap_raw h trapped cause tval level e =
    let enters = raise_trap_raw-EntersSupervisor h trapped cause tval e in
    elim (Option-cases (sret_callback trapped)) [
      | inl refused ↦ absurd (sret_callback_total h trapped cause tval level enters refused)
      | inr (after, returns) ↦ (
        after,
        returns,
        sret_callback-EntersSupervisor h trapped after cause tval level enters returns,
      )
    ]
