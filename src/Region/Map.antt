-- ===== src/Region/Map.antt =====
-- Looking up the region of a physical address.
use zelda_riscv_emulator.Base.{
  ℕ, ◌-◌, ◌^◌, ◌≤◌, ◌<◌, ◌≡◌, ◌⊎◌, inl, inr, none, some, List, length, get_or, arith, refl, ltb,
  leb, if◌then◌else◌,
}
use native.Mathlib.Decide.{ℕ_discrete}
use zelda_riscv_emulator.Region.{
  Region, below, within, above, pm_region_operation_compare, target_at,
}
use zelda_riscv_emulator.Region.Search.{search_pm_region_callback}
use zelda_riscv_emulator.Region.Order.{Ascends, search-Finds}

-- The array of regions as registration leaves it: each holds some address, none ends beyond 32 bits,
-- and they follow one another without overlap. `d` stands for what is beyond the array.
pub record IsMap (regions : List Region) : Type 0 where
  pub holds_some :
      (d : Region) (i : ℕ)
      → i < length regions
      → (get_or regions i d).addr_low < (get_or regions i d).addr_high
  pub fits : (d : Region) (i : ℕ) → i < length regions → (get_or regions i d).addr_high < 2 ^ 32
  pub ascends :
      (d : Region) (i j : ℕ)
      → i < j
      → j < length regions
      → (get_or regions i d).addr_high ≤ (get_or regions j d).addr_low

-- A region is in the array and holds the address.
abbrev pub Covers : List Region → ℕ → Region → Type 0
Covers regions pa r =
    (i : ℕ) × (i < length regions)
    × (r ≡ get_or regions i (target_at pa))
    × (r.addr_low ≤ pa)
    × (pa < r.addr_high)

compare-at :
    (pa : ℕ) (r : Region)
    → pa < 2 ^ 32 - 1
    → r.addr_low < r.addr_high
    → pm_region_operation_compare (target_at pa) r
      ≡ some (if ltb pa r.addr_low then below else if leb r.addr_high pa then above else within)
unfolding pm_region_operation_compare
compare-at pa r small ordered = ground arith

abbrev at_region : List Region → ℕ → ℕ → Region
at_region regions pa i = get_or regions i (target_at pa)

Ascends-regions :
    (regions : List Region) (pa : ℕ)
    → IsMap regions
    → pa < 2 ^ 32 - 1
    → Ascends pm_region_operation_compare regions (target_at pa)
Ascends-regions regions pa m small = record {
  compares = λ i hi u. ground (arith, u, at i hi);
  below_after = λ i j le hj e. ground (arith, e, at i (omega arith), at j hj, before i j le hj);
  above_before = λ i j le hj e. ground (
    arith,
    e,
    at i (omega arith),
    at j hj,
    before i j le hj,
    m.holds_some (target_at pa) j hj,
    m.holds_some (target_at pa) i (omega arith),
  );
}
  where
    at :
        (i : ℕ)
        → i < length regions
        → pm_region_operation_compare (target_at pa) (get_or regions i (target_at pa))
          ≡ some (
              if ltb pa (get_or regions i (target_at pa)).addr_low
              then below
              else if leb (get_or regions i (target_at pa)).addr_high pa
              then above
              else within)
    at i hi = compare-at pa _ small (m.holds_some (target_at pa) i hi)

    before :
        (i j : ℕ)
        → i ≤ j
        → j < length regions
        → ((get_or regions i (target_at pa)).addr_low ≤ (get_or regions j (target_at pa)).addr_low)
          × ((get_or regions i (target_at pa)).addr_high
              ≤ (get_or regions j (target_at pa)).addr_high)
    before i j le hj = elim (ℕ_discrete i j) [
      | yes e ↦ rw e (omega arith, omega arith)
      | no ne ↦ (
        omega (
          arith,
          m.holds_some (target_at pa) i (omega arith),
          m.ascends (target_at pa) i j (omega arith) hj,
        ),
        omega (
          arith,
          m.holds_some (target_at pa) j hj,
          m.ascends (target_at pa) i j (omega arith) hj,
        ),
      )
    ]

-- In an array of disjoint ascending regions, the search for an address below 2 ^ 32 - 1 fails no
-- assertion, and it returns a region that holds the address, or a null pointer when none does.
pub search_pm_region_callback-Covers :
    (regions : List Region) (pa : ℕ)
    → IsMap regions
    → pa < 2 ^ 32 - 1
    → ((r : Region) × (search_pm_region_callback regions pa ≡ some (some r)) × Covers regions pa r)
      ⊎ ((search_pm_region_callback regions pa ≡ some none)
          × ((r : Region) → ¬ Covers regions pa r))
unfolding search_pm_region_callback
search_pm_region_callback-Covers regions pa m small =
    elim (search-Finds pm_region_operation_compare regions (target_at pa)
      (Ascends-regions regions pa m small)) [
        | inl (i, hi, w, r) ↦
            inl (at_region regions pa i, r, (i, hi, refl, (covers i hi w).0, (covers i hi w).1))
        | inr (r, nothing) ↦
            inr (r, λ q (i, hi, e, lo, up). nothing i hi (found i hi (rw e at lo) (rw e at up)))
      ]
  where
    at_index :
        (i : ℕ)
        → i < length regions
        → pm_region_operation_compare (target_at pa) (at_region regions pa i)
          ≡ some (
              if ltb pa (at_region regions pa i).addr_low
              then below
              else if leb (at_region regions pa i).addr_high pa
              then above
              else within)
    at_index i hi = compare-at pa _ small (m.holds_some (target_at pa) i hi)

    covers :
        (i : ℕ)
        → i < length regions
        → pm_region_operation_compare (target_at pa) (at_region regions pa i) ≡ some within
        → ((at_region regions pa i).addr_low ≤ pa) × (pa < (at_region regions pa i).addr_high)
    covers i hi w = ground (arith, w, at_index i hi)

    found :
        (i : ℕ)
        → i < length regions
        → (at_region regions pa i).addr_low ≤ pa
        → pa < (at_region regions pa i).addr_high
        → pm_region_operation_compare (target_at pa) (at_region regions pa i) ≡ some within
    found i hi lo up = ground (arith, at_index i hi)
