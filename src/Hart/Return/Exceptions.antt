-- ===== src/Hart/Return/Exceptions.antt =====
-- Exceptions and environment calls: which level takes them, and where it enters.
use zelda_riscv_emulator.Base.{
  ℕ, ◌<◌, ◌≤◌, ◌≡◌, ◌≢◌, ◌⊎◌, ◌%◌, ◌^◌, true, none, some, arith, test_bit, sym, ◌∙◌, Option-cases,
  ◌==◌, if◌then◌else◌, inl, inr, bit_and-high_mask,
}
use zelda_riscv_emulator.Hart.{Hart, level_user, level_supervisor, level_machine, csr_medeleg}
use zelda_riscv_emulator.Hart.Trap.{
  raise_trap_raw, trap_vector, raise_exception_internal, exception_target_privilege_level,
}
use zelda_riscv_emulator.Hart.Return.{ecall_callback}
use zelda_riscv_emulator.Hart.Return.Roundtrip.{
  IsLevel, EntersMachine, EntersSupervisor, raise_trap_raw-EntersMachine,
  raise_trap_raw-EntersSupervisor,
}

-- The exception is delegated: it comes from below the machine, and medeleg has its bit.
abbrev pub IsDelegated : Hart → ℕ → Type 0
IsDelegated h cause =
    (h.privilege_level ≢ level_machine) × (test_bit (h.csr_blob csr_medeleg) cause ≡ true)

-- An exception has been taken: at the supervisor when it is delegated, else at the machine, and not
-- below the level it comes from.
abbrev pub Raised : Hart → ℕ → ℕ → Hart → Type 0
Raised h cause tval trapped =
    (h.privilege_level ≤ trapped.privilege_level)
    × ((IsDelegated h cause × EntersSupervisor h trapped cause tval)
        ⊎ ((IsDelegated h cause → ⊥) × EntersMachine h trapped cause tval))

raise_exception_internal_total :
    (h : Hart) (cause tval : ℕ) → cause < 16 → raise_exception_internal h cause tval ≢ none
unfolding raise_exception_internal raise_trap_raw exception_target_privilege_level
raise_exception_internal_total h cause tval small refused = ground arith

raise_exception_internal-delegated :
    (h : Hart) (cause tval : ℕ)
    → cause < 16
    → IsDelegated h cause
    → raise_exception_internal h cause tval ≡ raise_trap_raw h level_supervisor cause tval
unfolding raise_exception_internal exception_target_privilege_level
raise_exception_internal-delegated h cause tval small delegated = ground arith

raise_exception_internal-kept :
    (h : Hart) (cause tval : ℕ)
    → cause < 16
    → (IsDelegated h cause → ⊥)
    → raise_exception_internal h cause tval ≡ raise_trap_raw h level_machine cause tval
unfolding raise_exception_internal exception_target_privilege_level
raise_exception_internal-kept h cause tval small kept = ground arith

IsDelegated-cases : (h : Hart) (cause : ℕ) → IsDelegated h cause ⊎ (IsDelegated h cause → ⊥)
IsDelegated-cases h cause = ground arith

-- An exception with one of the sixteen codes, from a level the emulator runs at, is always taken:
-- at the supervisor when it comes from below the machine and medeleg delegates it, else at the
-- machine; its code, its value and the program counter are in the registers of the handler's level,
-- and the level is not lowered.
pub raise_exception_internal-Raised :
    (h : Hart) (cause tval : ℕ)
    → cause < 16
    → IsLevel h.privilege_level
    → (trapped : Hart) × (raise_exception_internal h cause tval ≡ some trapped)
      × Raised h cause tval trapped
raise_exception_internal-Raised h cause tval small level =
    elim (Option-cases (raise_exception_internal h cause tval)) [
      | inl refused ↦ absurd (raise_exception_internal_total h cause tval small refused)
      | inr (trapped, e) ↦ (
        trapped,
        e,
        elim (IsDelegated-cases h cause) [
          | inl delegated ↦
              (let enters =
                  raise_trap_raw-EntersSupervisor h trapped cause tval
                    (sym (raise_exception_internal-delegated h cause tval small delegated) ∙ e) in
                (
                  supervisor_above trapped delegated enters.privilege_level,
                  inl (delegated, enters),
                ))
          | inr kept ↦
              (let enters =
                  raise_trap_raw-EntersMachine h trapped cause tval
                    (sym (raise_exception_internal-kept h cause tval small kept) ∙ e) in
                (machine_above trapped enters.privilege_level, inr (kept, enters)))
        ],
      )
    ]
  where
    machine_above :
        (trapped : Hart)
        → trapped.privilege_level ≡ level_machine
        → h.privilege_level ≤ trapped.privilege_level
    machine_above trapped e = ground arith

    supervisor_above :
        (trapped : Hart)
        → IsDelegated h cause
        → trapped.privilege_level ≡ level_supervisor
        → h.privilege_level ≤ trapped.privilege_level
    supervisor_above trapped delegated e = ground arith

-- The exception code of an environment call from a level.
abbrev pub ecall_cause : ℕ → ℕ
ecall_cause l = if l == level_user then 8 else if l == level_supervisor then 9 else 11

-- An environment call from a level the emulator runs at raises the exception of that level.
pub ecall_callback-Raised :
    (h : Hart)
    → IsLevel h.privilege_level
    → (trapped : Hart) × (ecall_callback h ≡ some trapped)
      × Raised h (ecall_cause h.privilege_level) 0 trapped
ecall_callback-Raised h level =
    let (trapped, e, raised) =
      raise_exception_internal-Raised h (ecall_cause h.privilege_level) 0 small level in
    (trapped, same ∙ e, raised)
  where
    small : ecall_cause h.privilege_level < 16
    small = ground arith

    same : ecall_callback h ≡ raise_exception_internal h (ecall_cause h.privilege_level) 0
    same = unfold ecall_callback in ground arith

-- A trap enters the handler at a multiple of four, for vectors of 32 bits.
pub trap_vector-aligned : (tvec cause : ℕ) → tvec < 2 ^ 32 → trap_vector tvec cause % 4 ≡ 0
unfolding trap_vector
trap_vector-aligned tvec cause small = ground (arith, bit_and-high_mask 2 30 tvec)
