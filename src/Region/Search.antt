-- ===== src/Region/Search.antt =====
-- vmm/search.h: the binary search of the macro SEARCH, and the search for a region.
use zelda_riscv_emulator.Base.{
  ℕ, zero, suc, ◌+◌, ◌-◌, ◌/◌, Bool, true, false, ◌||◌, ◌==◌, if◌then◌else◌, Option, none, some,
  List, length, get_or,
}
use zelda_riscv_emulator.Region.{
  Region, Comparison, below, within, above, pm_region_operation_compare, target_at,
}

-- An element is found, or the loop goes on; a failing assertion of the compare function ends all.
abbrev pub hit {ℓ} : {A : Type ℓ} → Option Comparison → A → Option (Option A) → Option (Option A)
hit none elem next = none
hit (some within) elem next = some (some elem)
hit (some below) elem next = next
hit (some above) elem next = next

abbrev pub is_below : Option Comparison → Bool
is_below (some below) = true
is_below (some within) = false
is_below (some above) = false
is_below none = false

abbrev pub unless_asserts {ℓ} :
    {A : Type ℓ} → Option Comparison → Option (Option A) → Option (Option A)
unless_asserts none next = none
unless_asserts (some c) next = next

-- The loop from `idx_low` to `idx_high`, both in the array. The inner `none` is a null pointer.
unfoldable pub search_loop {ℓ} :
    {A : Type ℓ} → (A → A → Option Comparison) → ℕ → List A → A → ℕ → ℕ → Option (Option A)
search_loop comp zero base target idx_low idx_high = some none
search_loop comp (suc fuel) base target idx_low idx_high =
    let elem_low = get_or base idx_low target in
    let elem_high = get_or base idx_high target in
    let idx_mid = (idx_low + idx_high) / 2 in
    let at_mid = comp target (get_or base idx_mid target) in
    let next =
      search_loop comp fuel base target (if is_below at_mid then idx_low else idx_mid)
        (if is_below at_mid then idx_mid else idx_high) in
    hit (comp target elem_low) elem_low (
      hit (comp target elem_high) elem_high (
        if idx_mid == idx_low || idx_mid == idx_high
        then some none
        else unless_asserts at_mid next))

-- An empty array has no last index; each round but the last shortens the range, so the length is
-- fuel enough.
unfoldable pub search {ℓ} :
    {A : Type ℓ} → (A → A → Option Comparison) → List A → A → Option (Option A)
search comp base target =
    if length base == 0
    then some none
    else search_loop comp (length base) base target 0 (length base - 1)

-- `pmr_ops` is the list.
unfoldable pub search_pm_region_callback : List Region → ℕ → Option (Option Region)
search_pm_region_callback pmr_ops guest_pa =
    search pm_region_operation_compare pmr_ops (target_at guest_pa)
