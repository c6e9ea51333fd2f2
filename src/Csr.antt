-- ===== src/Csr.antt =====
-- vmm/csr_machine_level.c, csr_supervisor_level.c, csr_misc.c and csr_machine_level_pmp.c: reading
-- and writing a control and status register. A function pointer of the table is one of the
-- constructors below.
mod Tests
pub mod Table
pub mod Callback
pub mod Views
pub mod Lines
pub mod Instructions
use zelda_riscv_emulator.Base.{
  ℕ, ◌+◌, ◌*◌, ◌/◌, ◌%◌, ◌^◌, Bool, true, false, if◌then◌else◌, bit_and, bit_or, u32, not32,
  test_bit, assign_bit, update,
}
use zelda_riscv_emulator.Hart.{Hart, Status, csr_satp, flush_translation_cache}
use zelda_riscv_emulator.Hart.Return.{invalidate_tlb}
use zelda_riscv_emulator.Clint.{ClintState}

-- The `read` functions. `csr_blob_read` stands for every one that returns `csr->csr_blob`.
pub data ReadFunction : Type 0 where
  csr_blob_read csr_mhartid_read csr_mie_read csr_mip_read csr_mideleg_read csr_mstatus_read :
      ReadFunction
  csr_sie_read csr_sip_read csr_sstatus_read csr_time_read csr_timeh_read csr_cycle_read
        csr_cycleh_read :
      ReadFunction

-- The `write` functions. `csr_blob_write` stands for every one that only sets `csr->csr_blob`, and
-- `csr_ignored_write` for those of misa and of the clock, which do nothing.
pub data WriteFunction : Type 0 where
  csr_blob_write csr_ignored_write csr_mie_write csr_mip_write csr_mideleg_write csr_mstatus_write :
      WriteFunction
  csr_satp_write csr_sie_write csr_sip_write csr_sstatus_write : WriteFunction

-- A Boolean field at its place in a register.
abbrev pub at_bit : Bool → ℕ → ℕ
at_bit b k = if b then 2 ^ k else 0

unfoldable pub mstatus_read : Status → ℕ
mstatus_read s =
    bit_or
      (bit_or
        (bit_or
          (bit_or
            (bit_or (bit_or (bit_or (at_bit s.uie 0) (at_bit s.sie 1)) (at_bit s.mie 3))
              (at_bit s.upie 4))
            (at_bit s.spie 5))
          (at_bit s.mpie 7))
        (s.spp * 2 ^ 8))
      (s.mpp * 2 ^ 11)

unfoldable pub mstatus_write : Status → ℕ → Status
mstatus_write s value = record s {
  uie = test_bit value 0;
  sie = test_bit value 1;
  mie = test_bit value 3;
  upie = test_bit value 4;
  spie = test_bit value 5;
  mpie = test_bit value 7;
  spp = bit_and (value / 2 ^ 8) 0x1;
  mpp = bit_and (value / 2 ^ 11) 0x3;
}

unfoldable pub sstatus_read : Status → ℕ
sstatus_read s =
    bit_or
      (bit_or (bit_or (bit_or (at_bit s.uie 0) (at_bit s.sie 1)) (at_bit s.upie 4))
        (at_bit s.spie 5))
      (s.spp * 2 ^ 8)

unfoldable pub sstatus_write : Status → ℕ → Status
sstatus_write s value = record s {
  uie = test_bit value 0;
  sie = test_bit value 1;
  upie = test_bit value 4;
  spie = test_bit value 5;
  spp = bit_and (value / 2 ^ 8) 0x1;
}

-- MEIP, MTIP and MSIP are kept.
unfoldable pub mip_write : ℕ → ℕ → ℕ
mip_write ipending value = bit_or (bit_and value (not32 0x888)) (bit_and ipending 0x888)

unfoldable pub sie_read : ℕ → ℕ
sie_read ienable =
    bit_or
      (bit_or
        (bit_or
          (bit_or (bit_or (at_bit (test_bit ienable 0) 0) (at_bit (test_bit ienable 1) 1))
            (at_bit (test_bit ienable 4) 4))
          (at_bit (test_bit ienable 5) 5))
        (at_bit (test_bit ienable 8) 8))
      (at_bit (test_bit ienable 9) 9)

unfoldable pub sie_write : ℕ → ℕ → ℕ
sie_write ienable value =
    assign_bit (assign_bit (assign_bit ienable 1 (test_bit value 1)) 5 (test_bit value 5)) 9
      (test_bit value 9)

unfoldable pub sip_read : ℕ → ℕ
sip_read ipending =
    bit_or (bit_or (at_bit (test_bit ipending 1) 1) (at_bit (test_bit ipending 5) 5))
      (at_bit (test_bit ipending 9) 9)

-- Only SSIP is writable.
unfoldable pub sip_write : ℕ → ℕ → ℕ
sip_write ipending value = assign_bit ipending 1 (test_bit value 1)

unfoldable pub satp_write : Hart → ℕ → Hart
satp_write h value = flush_translation_cache (record h {
  csr_blob = update h.csr_blob csr_satp value;
  itlb = invalidate_tlb h.itlb h.itlb_cap;
  dtlb = invalidate_tlb h.dtlb h.dtlb_cap;
})

-- `csr->read(hartptr, csr)` for the register at an address; reading `time` latches the clock.
unfoldable pub call_read : ReadFunction → ClintState → Hart → ℕ → ℕ × Hart
call_read csr_blob_read clint h addr = (h.csr_blob addr, h)
call_read csr_mhartid_read clint h addr = (h.hart_id, h)
call_read csr_mie_read clint h addr = (h.ienable, h)
call_read csr_mip_read clint h addr = (h.ipending, h)
call_read csr_mideleg_read clint h addr = (h.idelegation, h)
call_read csr_mstatus_read clint h addr = (mstatus_read h.status, h)
call_read csr_sie_read clint h addr = (sie_read h.ienable, h)
call_read csr_sip_read clint h addr = (sip_read h.ipending, h)
call_read csr_sstatus_read clint h addr = (sstatus_read h.status, h)
call_read csr_time_read clint h addr = (u32 clint.mtime, record h { tsc = clint.mtime })
call_read csr_timeh_read clint h addr = (u32 (clint.mtime / 2 ^ 32), h)
call_read csr_cycle_read clint h addr = (u32 clint.mtime, h)
call_read csr_cycleh_read clint h addr = (u32 (clint.mtime / 2 ^ 32), h)

-- `csr->write(hartptr, csr, value)` for the register at an address.
unfoldable pub call_write : WriteFunction → Hart → ℕ → ℕ → Hart
call_write csr_blob_write h addr value = record h { csr_blob = update h.csr_blob addr value }
call_write csr_ignored_write h addr value = h
call_write csr_mie_write h addr value = record h { ienable = value }
call_write csr_mip_write h addr value = record h { ipending = mip_write h.ipending value }
call_write csr_mideleg_write h addr value = record h { idelegation = value }
call_write csr_mstatus_write h addr value = record h { status = mstatus_write h.status value }
call_write csr_satp_write h addr value = satp_write h value
call_write csr_sie_write h addr value = record h { ienable = sie_write h.ienable value }
call_write csr_sip_write h addr value = record h { ipending = sip_write h.ipending value }
call_write csr_sstatus_write h addr value = record h { status = sstatus_write h.status value }
