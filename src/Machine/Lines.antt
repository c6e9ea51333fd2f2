-- ===== src/Machine/Lines.antt =====
-- The interrupt lines of the devices, as the hart sees them after a refresh.
use zelda_riscv_emulator.Base.{
  ℕ, ◌<◌, ◌≤◌, ◌≡◌, ◌≢◌, ◌↔◌, Bool, true, none, some, arith, get_or, test_bit, test_bit-assign_bit,
  test_bit-set_bit, test_bit-clear_bit, Option-cases, inl, inr, assign_bit, leb, if◌then◌else◌, not,
  ◌==◌, refl,
}
use zelda_riscv_emulator.Clint.{ClintState}
use zelda_riscv_emulator.Clint
use zelda_riscv_emulator.Plic.{
  PlicState, best_source, context_machine, context_supervisor, set_pending,
}
use zelda_riscv_emulator.Plic
use zelda_riscv_emulator.Plic.Invariant.{IsValid, set_pending-IsValid}
use zelda_riscv_emulator.Uart.{interrupt_pending, refresh_interrupt}
use zelda_riscv_emulator.Machine.{Machine, proceeds, refresh_lines}

-- The hardware bits of `mip` agree with the devices, and the PLIC with the UART.
pub record Lines (m : Machine) : Type 0 where
  pub mti :
      (test_bit m.hart.ipending 7 ≡ true)
      ↔ (get_or m.clint.mtimecmp m.hart.hart_id 0 ≤ m.clint.mtime)
  pub msi : (test_bit m.hart.ipending 3 ≡ true) ↔ (get_or m.clint.msip m.hart.hart_id 0 ≢ 0)
  pub mei :
      (test_bit m.hart.ipending 11 ≡ true)
      ↔ (best_source m.plic (context_machine m.hart.hart_id) ≢ 0)
  pub sei :
      (test_bit m.hart.ipending 9 ≡ true)
      ↔ (best_source m.plic (context_supervisor m.hart.hart_id) ≢ 0)
  pub console : test_bit m.plic.asserted 10 ≡ interrupt_pending m.uart

-- The bits of `mip` that software writes.
abbrev pub IsSoftware : ℕ → Type 0
IsSoftware k = (k < 32) × (k ≢ 3) × (k ≢ 7) × (k ≢ 9) × (k ≢ 11)

-- A refresh has made the lines agree, and nothing else of the hart has changed than they.
pub record Refreshed (before after : Machine) : Type 0 where
  pub lines : Lines after
  pub valid : IsValid after.plic
  pub software :
      (k : ℕ) → IsSoftware k → test_bit after.hart.ipending k ≡ test_bit before.hart.ipending k
  pub clint : after.clint ≡ before.clint
  pub pc : after.hart.pc ≡ before.hart.pc
  pub status : after.hart.status ≡ before.hart.status
  pub ienable : after.hart.ienable ≡ before.hart.ienable
  pub idelegation : after.hart.idelegation ≡ before.hart.idelegation
  pub privilege_level : after.hart.privilege_level ≡ before.hart.privilege_level
  pub hart_id : after.hart.hart_id ≡ before.hart.hart_id

set_pending-asserted :
    (p q : PlicState) (source : ℕ) (line : Bool)
    → source < 32
    → set_pending p source line ≡ some q
    → test_bit q.asserted source ≡ line
unfolding set_pending
set_pending-asserted p q source line small e =
    ground (
      arith,
      test_bit-set_bit p.asserted source source,
      test_bit-clear_bit p.asserted source source,
    )

test_bit-four_lines :
    (w k : ℕ) (mti msi mei sei : Bool)
    → k < 32
    → test_bit (assign_bit (assign_bit (assign_bit (assign_bit w 7 mti) 3 msi) 11 mei) 9 sei) k ≡ (
        if 9 == k
        then sei
        else if 11 == k
        then mei
        else if 3 == k
        then msi
        else if 7 == k
        then mti
        else test_bit w k)
test_bit-four_lines w k mti msi mei sei small = ground (
  arith,
  test_bit-assign_bit (assign_bit (assign_bit (assign_bit w 7 mti) 3 msi) 11 mei) 9 k sei,
  test_bit-assign_bit (assign_bit (assign_bit w 7 mti) 3 msi) 11 k mei,
  test_bit-assign_bit (assign_bit w 7 mti) 3 k msi,
  test_bit-assign_bit w 7 k mti,
)

refreshed_by : Machine → PlicState → Machine
refreshed_by m p = record m {
  plic = p;
  hart = Plic.refresh_pending p (Clint.refresh_pending m.clint m.hart);
}

-- The three device refreshes, once the UART has set its line.
refreshed_by-Refreshed :
    (m : Machine) (p : PlicState)
    → IsValid p
    → test_bit p.asserted 10 ≡ interrupt_pending m.uart
    → Refreshed m (refreshed_by m p)
unfolding refreshed_by Plic.refresh_pending Clint.refresh_pending
refreshed_by-Refreshed m p v line = record {
  lines = record {
    mti = ground (arith, bits 7);
    msi = ground (arith, bits 3);
    mei = ground (arith, bits 11);
    sei = ground (arith, bits 9);
    console = line;
  };
  valid = v;
  software = λ k soft. ground (arith, bits k);
  clint = refl;
  pc = refl;
  status = refl;
  ienable = refl;
  idelegation = refl;
  privilege_level = refl;
  hart_id = refl;
}
  where
    bits :
        (k : ℕ)
        → k < 32
        → test_bit (refreshed_by m p).hart.ipending k ≡ (
            if 9 == k
            then not (best_source p (context_supervisor m.hart.hart_id) == 0)
            else if 11 == k
            then not (best_source p (context_machine m.hart.hart_id) == 0)
            else if 3 == k
            then not (get_or m.clint.msip m.hart.hart_id 0 == 0)
            else if 7 == k
            then leb (get_or m.clint.mtimecmp m.hart.hart_id 0) m.clint.mtime
            else test_bit m.hart.ipending k)
    bits k = test_bit-four_lines m.hart.ipending k _ _ _ _

refresh_lines-some :
    (m : Machine) (p : PlicState)
    → refresh_interrupt m.uart m.plic ≡ some p
    → refresh_lines m ≡ proceeds (refreshed_by m p)
unfolding refresh_lines refreshed_by
refresh_lines-some m p e = ground arith

refresh_lines_total :
    (m : Machine)
    → (p : PlicState) × (refresh_interrupt m.uart m.plic ≡ some p)
      × (refresh_lines m ≡ proceeds (refreshed_by m p))
refresh_lines_total m = elim (Option-cases (refresh_interrupt m.uart m.plic)) [
  | inl refused ↦ absurd (never refused)
  | inr (p, e) ↦ (p, e, refresh_lines-some m p e)
]
  where
    never : refresh_interrupt m.uart m.plic ≢ none
    never refused = unfold refresh_interrupt in unfold set_pending in ground arith

-- With a valid PLIC, the device refresh always returns: no assertion fails, the machine and the
-- supervisor lines in mip say what the CLINT and the PLIC say, and all other bits are kept.
pub refresh_lines-Refreshed :
    (m : Machine)
    → IsValid m.plic
    → (after : Machine) × (refresh_lines m ≡ proceeds after) × Refreshed m after
refresh_lines-Refreshed m v =
    let (p, e, returns) = refresh_lines_total m in
    (
      refreshed_by m p,
      returns,
      refreshed_by-Refreshed m p
          (unfold refresh_interrupt in set_pending-IsValid m.plic 10 (interrupt_pending m.uart) v e)
          (unfold refresh_interrupt in
            set_pending-asserted m.plic p 10 (interrupt_pending m.uart) (omega arith) e),
    )
