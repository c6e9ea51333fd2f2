-- ===== src/Clint.antt =====
-- vmm/emulate_clint.c: the machine timer and the software interrupt doorbell.
mod Tests
pub mod Invariant
pub mod Timer
pub mod Registers
use zelda_riscv_emulator.Base.{
  ℕ, zero, suc, ◌+◌, ◌-◌, ◌*◌, ◌/◌, ◌%◌, ◌^◌, Bool, true, false, not, ◌&&◌, ◌==◌, ltb, leb,
  if◌then◌else◌, List, get_or, set, replicate, bit_and, bit_or, u32, u64, sub64, assign_bit,
}
use zelda_riscv_emulator.Hart.{Hart}

abbrev pub max_nr_harts : ℕ
max_nr_harts = 64

-- `~0ULL`, the comparator of a timer that is not armed.
abbrev pub unarmed : ℕ
unarmed = 2 ^ 64 - 1

abbrev pub reg_msip : ℕ
reg_msip = 0x0000

abbrev pub reg_mtimecmp : ℕ
reg_mtimecmp = 0x4000

abbrev pub reg_mtime : ℕ
reg_mtime = 0xbff8

pub record ClintState : Type 0 where
  pub base : ℕ
  pub size : ℕ
  pub nr_harts : ℕ
  pub mtime : ℕ
  pub mtimecmp : List ℕ
  pub msip : List ℕ

-- `clint_init`, for the configured addresses.
unfoldable pub init : ℕ → ℕ → ℕ → ClintState
init base size nr_harts = record {
  base = base;
  size = size;
  nr_harts = nr_harts;
  mtime = 0;
  mtimecmp = replicate max_nr_harts unarmed;
  msip = replicate max_nr_harts 0;
}

unfoldable pub advance_time : ClintState → ℕ → ClintState
advance_time c ticks = record c { mtime = u64 (c.mtime + ticks) }

-- The loop of `clint_skip_to_next_deadline`, with `nr_harts - idx` rounds left.
pub earliest_from : List ℕ → ℕ → ℕ → ℕ → ℕ
earliest_from cmps zero idx earliest = earliest
earliest_from cmps (suc left) idx earliest =
    let cmp = get_or cmps idx 0 in
    earliest_from cmps left (idx + 1) (if ltb cmp earliest then cmp else earliest)

unfoldable pub skip_to_next_deadline : ClintState → ClintState × Bool
skip_to_next_deadline c =
    let earliest = earliest_from c.mtimecmp c.nr_harts 0 unarmed in
    if earliest == unarmed
    then (c, false)
    else if ltb c.mtime earliest
    then (record c { mtime = earliest }, true)
    else (c, true)

unfoldable pub refresh_pending : ClintState → Hart → Hart
refresh_pending c h =
    let id = h.hart_id in
    let mti = leb (get_or c.mtimecmp id 0) c.mtime in
    let msi = not (get_or c.msip id 0 == 0) in
    record h { ipending = assign_bit (assign_bit h.ipending 7 mti) 3 msi }

-- The offset of an access into the register file.
abbrev pub offset_of : ℕ → ℕ → ℕ
offset_of addr base = u32 (sub64 addr base)

-- The `msip` and `mtimecmp` branches of `clint_read`.
unfoldable pub read_msip : ClintState → ℕ → ℕ
read_msip c offset =
    let id = (offset - reg_msip) / 4 in if ltb id c.nr_harts then get_or c.msip id 0 else 0

unfoldable pub read_mtimecmp : ClintState → ℕ → ℕ → ℕ
read_mtimecmp c offset access_size =
    let id = (offset - reg_mtimecmp) / 8 in
    let cmp = if ltb id c.nr_harts then get_or c.mtimecmp id 0 else 0 in
    if access_size == 8
    then cmp
    else if not (bit_and offset 0x4 == 0)
    then cmp / 2 ^ 32
    else bit_and cmp 0xffffffff

-- `clint_read` and `clint_write` on an offset. The warning on an unknown register is left out.
unfoldable pub read_at : ClintState → ℕ → ℕ → ℕ
unfolding read_msip read_mtimecmp
read_at c offset access_size =
    if leb reg_msip offset && ltb offset (reg_msip + 4 * max_nr_harts)
    then read_msip c offset
    else if leb reg_mtimecmp offset && ltb offset (reg_mtimecmp + 8 * max_nr_harts)
    then read_mtimecmp c offset access_size
    else if offset == reg_mtime
    then (if access_size == 8 then c.mtime else bit_and c.mtime 0xffffffff)
    else if offset == reg_mtime + 4
    then c.mtime / 2 ^ 32
    else 0

unfoldable pub read : ClintState → ℕ → ℕ → ℕ
unfolding read_at
read c addr access_size = read_at c (offset_of addr c.base) access_size

-- One half of a 64-bit register given anew.
unfoldable pub with_high : ℕ → ℕ → ℕ
with_high old value = bit_or (bit_and old 0xffffffff) (u64 (value * 2 ^ 32))

unfoldable pub with_low : ℕ → ℕ → ℕ
with_low old value = bit_or (bit_and old (2 ^ 64 - 1 - 0xffffffff)) (bit_and value 0xffffffff)

-- The `msip`, `mtimecmp` and `mtime` branches of `clint_write`.
unfoldable pub write_msip : ClintState → ℕ → ℕ → ClintState
write_msip c offset value =
    let id = (offset - reg_msip) / 4 in
    if ltb id c.nr_harts then record c { msip = set c.msip id (bit_and value 0x1) } else c

unfoldable pub write_mtimecmp : ClintState → ℕ → ℕ → ℕ → ClintState
write_mtimecmp c offset access_size value =
    let id = (offset - reg_mtimecmp) / 8 in
    let cmp = get_or c.mtimecmp id 0 in
    let stored =
      if access_size == 8
      then value
      else if not (bit_and offset 0x4 == 0)
      then with_high cmp value
      else with_low cmp value in
    if ltb id c.nr_harts then record c { mtimecmp = set c.mtimecmp id stored } else c

unfoldable pub write_mtime : ClintState → ℕ → ℕ → ClintState
write_mtime c access_size value = record c {
  mtime = if access_size == 8 then value else with_low c.mtime value;
}

unfoldable pub write_at : ClintState → ℕ → ℕ → ℕ → ClintState
unfolding write_msip write_mtimecmp write_mtime
write_at c offset access_size value =
    if leb reg_msip offset && ltb offset (reg_msip + 4 * max_nr_harts)
    then write_msip c offset value
    else if leb reg_mtimecmp offset && ltb offset (reg_mtimecmp + 8 * max_nr_harts)
    then write_mtimecmp c offset access_size value
    else if offset == reg_mtime
    then write_mtime c access_size value
    else if offset == reg_mtime + 4
    then record c { mtime = with_high c.mtime value }
    else c

unfoldable pub write : ClintState → ℕ → ℕ → ℕ → ClintState
unfolding write_at
write c addr access_size value = write_at c (offset_of addr c.base) access_size value
