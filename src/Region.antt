-- ===== src/Region.antt =====
-- vmm/pm_region.h and vmm/pm_region.c: the physical memory regions. The three function pointers of
-- a region are those of one device, so the device stands for them; only main memory has a
-- `pmr_direct`. The build is the debug one, whose compare function asserts more.
mod Tests
pub mod Search
pub mod Order
pub mod Map
use zelda_riscv_emulator.Base.{
  ℕ, ◌+◌, Bool, true, false, ◌&&◌, ◌||◌, ltb, leb, if◌then◌else◌, Option, none, some, List, u32,
}

pub data Device : Type 0 where
  ram bootrom clint plic uart syscon : Device

pub record Region : Type 0 where
  pub addr_low : ℕ
  pub addr_high : ℕ
  pub device : Device

-- `pmr->pmr_direct != NULL`.
abbrev pub has_direct : Device → Bool
has_direct Device.ram = true
has_direct _ = false

-- A negative result, zero and a positive result.
pub data Comparison : Type 0 where
  below within above : Comparison

-- `none` is an assertion failing.
unfoldable pub pm_region_operation_compare : Region → Region → Option Comparison
pm_region_operation_compare pmr1 pmr2 =
    if ltb pmr1.addr_high pmr1.addr_low || ltb pmr2.addr_high pmr2.addr_low
    then none
    else if leb pmr1.addr_high pmr2.addr_low
    then some below
    else if leb pmr2.addr_high pmr1.addr_low
    then some above
    else if (leb pmr1.addr_low pmr2.addr_low && leb pmr2.addr_high pmr1.addr_high)
        || (leb pmr2.addr_low pmr1.addr_low && leb pmr1.addr_high pmr2.addr_high)
    then some within
    else none

-- The key of a search: the two fields are 32 bits wide.
abbrev pub target_at : ℕ → Region
target_at guest_pa = record {
  addr_low = u32 guest_pa;
  addr_high = u32 (guest_pa + 1);
  device = Device.ram;
}
