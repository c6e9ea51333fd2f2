-- ===== src/Region/Tests.antt =====
-- Runs of the region search on the usual memory map.
use zelda_riscv_emulator.Base.{
  ℕ, zero, suc, ◌<◌, ◌≤◌, ◌≡◌, ◌⊎◌, none, some, List, [], ◌∷◌, arith, refl, get_or, ◌^◌,
}
use zelda_riscv_emulator.Region.{Region, Device}
use zelda_riscv_emulator.Region.Search.{search_pm_region_callback}
use zelda_riscv_emulator.Region.Map.{IsMap, Covers, search_pm_region_callback-Covers}

abbrev memory_map : List Region
memory_map =
    (record { addr_low = 0; addr_high = 0x400000; device = Device.bootrom })
    ∷ (record { addr_low = 0x10000000; addr_high = 0x10000100; device = Device.uart })
    ∷ (record { addr_low = 0x80000000; addr_high = 0x88000000; device = Device.ram })
    ∷ []

memory_map-IsMap : IsMap memory_map
memory_map-IsMap = record { holds_some = holds; fits = fit; ascends = ascend }
  where
    holds :
        (d : Region) (i : ℕ)
        → i < 3
        → (get_or memory_map i d).addr_low < (get_or memory_map i d).addr_high
    holds d zero small = omega arith
    holds d (suc zero) small = omega arith
    holds d (suc (suc zero)) small = omega arith
    holds d (suc (suc (suc i))) small = absurd (omega arith)

    fit : (d : Region) (i : ℕ) → i < 3 → (get_or memory_map i d).addr_high < 2 ^ 32
    fit d zero small = omega arith
    fit d (suc zero) small = omega arith
    fit d (suc (suc zero)) small = omega arith
    fit d (suc (suc (suc i))) small = absurd (omega arith)

    ascend :
        (d : Region) (i j : ℕ)
        → i < j
        → j < 3
        → (get_or memory_map i d).addr_high ≤ (get_or memory_map j d).addr_low
    ascend d i zero less small = absurd (omega arith)
    ascend d zero (suc zero) less small = omega arith
    ascend d zero (suc (suc zero)) less small = omega arith
    ascend d (suc zero) (suc zero) less small = absurd (omega arith)
    ascend d (suc zero) (suc (suc zero)) less small = omega arith
    ascend d (suc (suc i)) (suc zero) less small = absurd (omega arith)
    ascend d (suc (suc i)) (suc (suc zero)) less small = absurd (omega arith)
    ascend d i (suc (suc (suc j))) less small = absurd (omega arith)

finds_ram :
    search_pm_region_callback memory_map 0x80000010
    ≡ some (some (record { addr_low = 0x80000000; addr_high = 0x88000000; device = Device.ram }))
unfolding search_pm_region_callback zelda_riscv_emulator.Region.Search.search
    zelda_riscv_emulator.Region.Search.search_loop
    zelda_riscv_emulator.Region.pm_region_operation_compare
finds_ram = refl

finds_hole : search_pm_region_callback memory_map 0x400000 ≡ some none
unfolding search_pm_region_callback zelda_riscv_emulator.Region.Search.search
    zelda_riscv_emulator.Region.Search.search_loop
    zelda_riscv_emulator.Region.pm_region_operation_compare
finds_hole = refl

search_pm_region_callback-Covers_example :
    ((r : Region) × (search_pm_region_callback memory_map 0x80000010 ≡ some (some r))
      × Covers memory_map 0x80000010 r)
    ⊎ ((search_pm_region_callback memory_map 0x80000010 ≡ some none)
        × ((r : Region) → ¬ Covers memory_map 0x80000010 r))
search_pm_region_callback-Covers_example =
    search_pm_region_callback-Covers memory_map 0x80000010 memory_map-IsMap (omega arith)
