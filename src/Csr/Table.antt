-- ===== src/Csr/Table.antt =====
-- The table of the registers, which the files that define them fill in.
use zelda_riscv_emulator.Base.{
  ℕ, zero, suc, ◌+◌, ◌^◌, Option, none, some, List, [], ◌∷◌, ◌++◌, ◌==◌, if◌then◌else◌, update,
  bit_or,
}
use zelda_riscv_emulator.Hart.{Hart}
use zelda_riscv_emulator.Csr.{ReadFunction, WriteFunction}

-- The fields of `struct csr_entry` that the table fixes; `none` is a null function pointer.
pub record CsrEntry : Type 0 where
  pub wpri_mask : ℕ
  pub read : Option ReadFunction
  pub write : Option WriteFunction

abbrev pub wpri_mask_all : ℕ
wpri_mask_all = 0xffffffff

abbrev entry : ℕ → ReadFunction → WriteFunction → CsrEntry
entry mask reads writes = record { wpri_mask = mask; read = some reads; write = some writes }

abbrev read_only : ReadFunction → CsrEntry
read_only reads = record { wpri_mask = wpri_mask_all; read = some reads; write = none }

abbrev plain : ℕ → CsrEntry
plain mask = entry mask ReadFunction.csr_blob_read WriteFunction.csr_blob_write

abbrev pub machine_level : List (ℕ × CsrEntry)
machine_level =
    (0x301, entry wpri_mask_all ReadFunction.csr_blob_read WriteFunction.csr_ignored_write)
    ∷ (0x340, plain wpri_mask_all)
    ∷ (0xf11, read_only ReadFunction.csr_blob_read)
    ∷ (0xf14, read_only ReadFunction.csr_mhartid_read)
    ∷ (0x305, plain 0xfffffffd)
    ∷ (0x306, plain wpri_mask_all)
    ∷ (0x304, entry 0x00000aaa ReadFunction.csr_mie_read WriteFunction.csr_mie_write)
    ∷ (0x344, entry 0x00000aaa ReadFunction.csr_mip_read WriteFunction.csr_mip_write)
    ∷ (0x302, plain 0xfffff7ff)
    ∷ (0x303, entry 0x00000222 ReadFunction.csr_mideleg_read WriteFunction.csr_mideleg_write)
    ∷ (0x300, entry 0x000019aa ReadFunction.csr_mstatus_read WriteFunction.csr_mstatus_write)
    ∷ (0x341, plain wpri_mask_all)
    ∷ (0x342, plain wpri_mask_all)
    ∷ (0x343, plain wpri_mask_all)
    ∷ []

abbrev pub supervisor_level : List (ℕ × CsrEntry)
supervisor_level =
    (0x106, plain wpri_mask_all)
    ∷ (0x180, entry wpri_mask_all ReadFunction.csr_blob_read WriteFunction.csr_satp_write)
    ∷ (0x104, entry 0x00000222 ReadFunction.csr_sie_read WriteFunction.csr_sie_write)
    ∷ (0x144, entry 0x00000222 ReadFunction.csr_sip_read WriteFunction.csr_sip_write)
    ∷ (0x100, entry 0x00000133 ReadFunction.csr_sstatus_read WriteFunction.csr_sstatus_write)
    ∷ (0x105, plain wpri_mask_all)
    ∷ (0x140, plain wpri_mask_all)
    ∷ (0x141, plain wpri_mask_all)
    ∷ (0x143, plain wpri_mask_all)
    ∷ (0x142, plain wpri_mask_all)
    ∷ []

abbrev clock : ReadFunction → CsrEntry
clock reads = entry wpri_mask_all reads WriteFunction.csr_ignored_write

abbrev pub misc : List (ℕ × CsrEntry)
misc =
    (0xc01, clock ReadFunction.csr_time_read)
    ∷ (0xc81, clock ReadFunction.csr_timeh_read)
    ∷ (0xc00, read_only ReadFunction.csr_cycle_read)
    ∷ (0xc02, read_only ReadFunction.csr_cycle_read)
    ∷ (0xc80, read_only ReadFunction.csr_cycleh_read)
    ∷ (0xc82, read_only ReadFunction.csr_cycleh_read)
    ∷ (0xb00, clock ReadFunction.csr_cycle_read)
    ∷ (0xb02, clock ReadFunction.csr_cycle_read)
    ∷ (0xb80, clock ReadFunction.csr_cycleh_read)
    ∷ (0xb82, clock ReadFunction.csr_cycleh_read)
    ∷ (0xf12, read_only ReadFunction.csr_blob_read)
    ∷ (0xf13, read_only ReadFunction.csr_blob_read)
    ∷ (0x310, plain wpri_mask_all)
    ∷ (0x30a, plain wpri_mask_all)
    ∷ (0x31a, plain wpri_mask_all)
    ∷ (0x10a, plain wpri_mask_all)
    ∷ []

-- `count` registers from `base` on.
abbrev pub run_of : ℕ → ℕ → List (ℕ × CsrEntry)
run_of base zero = []
run_of base (suc count) = (base, plain wpri_mask_all) ∷ run_of (base + 1) count

abbrev pub machine_level_pmp : List (ℕ × CsrEntry)
machine_level_pmp = run_of 0x3b0 16 ++ run_of 0x3a0 4

abbrev pub csr_registery : List (ℕ × CsrEntry)
csr_registery = machine_level ++ (supervisor_level ++ (misc ++ machine_level_pmp))

-- `csrs_base[addr]`; `none` is an entry that is not valid.
unfoldable pub find_entry : List (ℕ × CsrEntry) → ℕ → Option CsrEntry
find_entry [] addr = none
find_entry ((key, value) ∷ rest) addr = if key == addr then some value else find_entry rest addr

unfoldable pub csr_at : ℕ → Option CsrEntry
csr_at addr = find_entry csr_registery addr

-- What `csr_misa_reset` puts together.
abbrev pub misa_value : ℕ
misa_value =
    bit_or (bit_or (bit_or (bit_or (bit_or (2 ^ 0) (2 ^ 8)) (2 ^ 12)) (2 ^ 18)) (2 ^ 20)) (2 ^ 30)

-- `csr_registery_init`: every blob is 0 but for the two that a reset function sets.
unfoldable pub csr_registery_init : Hart → Hart
csr_registery_init h = record h {
  csr_blob = update (update (λ addr. 0) 0x301 misa_value) 0xf11 0x60a;
  idelegation = 0;
  ienable = 0;
  ipending = 0;
}
