-- ===== src/Region/Order.antt =====
-- The binary search against what an ascending array holds.
use zelda_riscv_emulator.Base.{
  ℕ, zero, suc, ◌+◌, ◌-◌, ◌/◌, ◌≤◌, ◌<◌, ◌≡◌, ◌≢◌, ◌⊎◌, inl, inr, Bool, true, false, Option, none,
  some, List, length, get_or, arith, refl, ◌==◌, if_ind, ◌||◌, if◌then◌else◌,
}
use native.Mathlib.Decide.{ℕ_discrete}
use zelda_riscv_emulator.Region.{Comparison, below, within, above}
use zelda_riscv_emulator.Region.Search.{hit, is_below, unless_asserts, search_loop, search}

pub le-cases : (m n : ℕ) → (m ≤ n) ⊎ (n ≤ m)
le-cases m n = ground arith

module _ {ℓ} {A : Type ℓ} (comp : A → A → Option Comparison) (base : List A) (target : A) where
  abbrev pub at : ℕ → Option Comparison
  at i = comp target (get_or base i target)

  -- The target compares with every element, and the array ascends around it.
  pub record Ascends : Type ℓ where
    pub compares : (i : ℕ) → i < length base → at i ≢ none
    pub below_after : (i j : ℕ) → i ≤ j → j < length base → at i ≡ some below → at j ≡ some below
    pub above_before : (i j : ℕ) → i ≤ j → j < length base → at j ≡ some above → at i ≡ some above

  -- The result of a search between two indices.
  abbrev pub Finds : ℕ → ℕ → Option (Option A) → Type ℓ
  Finds low high result =
      ((i : ℕ) × (low ≤ i)
        × (i ≤ high)
        × (at i ≡ some within)
        × (result ≡ some (some (get_or base i target))))
      ⊎ ((result ≡ some none) × ((i : ℕ) → low ≤ i → i ≤ high → at i ≢ some within))

  -- A test of one element: what is left to find is left to the rest.
  Finds-hit :
      (i low high : ℕ) (next : Option (Option A))
      → at i ≢ none
      → low ≤ i
      → i ≤ high
      → (at i ≢ some within → Finds low high next)
      → Finds low high (hit (at i) (get_or base i target) next)
  Finds-hit i low high next defined lo hi later = by_case (at i) refl
    where
      by_case :
          (c : Option Comparison) → at i ≡ c → Finds low high (hit c (get_or base i target) next)
      by_case none e = absurd (defined e)
      by_case (some within) e = inl (i, lo, hi, e, refl)
      by_case (some below) e = later λ w. ground (arith, e, w)
      by_case (some above) e = later λ w. ground (arith, e, w)

  -- The middle is above the target: the upper half holds nothing.
  Finds-lower :
      (low mid high : ℕ) (next : Option (Option A))
      → Ascends
      → mid ≤ high
      → high < length base
      → at mid ≡ some below
      → Finds low mid next
      → Finds low high next
  Finds-lower low mid high next a order fits e (inl (i, lo, hi, w, r)) =
      inl (i, lo, omega arith, w, r)
  Finds-lower low mid high next a order fits e (inr (r, nothing)) = inr (
    r,
    λ i lo hi w. elim (le-cases i mid) [
      | inl le ↦ nothing i lo le w
      | inr ge ↦ ground (arith, a.below_after mid i ge (omega arith) e, w)
    ],
  )

  -- It is not: the lower half holds nothing else.
  Finds-upper :
      (low mid high : ℕ) (next : Option (Option A))
      → Ascends
      → low ≤ mid
      → mid ≤ high
      → high < length base
      → at mid ≢ some below
      → Finds mid high next
      → Finds low high next
  Finds-upper low mid high next a order order' fits e (inl (i, lo, hi, w, r)) =
      inl (i, omega arith, hi, w, r)
  Finds-upper low mid high next a order order' fits e (inr (r, nothing)) = inr (
    r,
    λ i lo hi w. elim (le-cases mid i) [
      | inl le ↦ nothing i le hi w
      | inr ge ↦ ground (arith, a.above_before i mid ge (omega arith) is_above, w)
    ],
  )
    where
      by_case : (c : Option Comparison) → at mid ≡ c → at mid ≡ some above
      by_case none u = absurd (a.compares mid (omega arith) u)
      by_case (some below) u = absurd (e u)
      by_case (some within) u = absurd (nothing mid (omega arith) order' u)
      by_case (some above) u = u

      is_above : at mid ≡ some above
      is_above = by_case (at mid) refl

  -- The range holds no index but its ends.
  Finds-ends :
      (low high : ℕ)
      → high ≤ low + 1
      → at low ≢ some within
      → at high ≢ some within
      → Finds low high (some none)
  Finds-ends low high close l h = inr (
    refl,
    λ i lo hi w. elim (ℕ_discrete i low) [
      | yes e ↦ l (rw e at w)
      | no ne ↦ h (rw (only i lo hi ne) at w)
    ],
  )
    where
      only : (i : ℕ) → low ≤ i → i ≤ high → i ≢ low → i ≡ high
      only i lo hi ne = omega arith

  Finds-mid :
      (low mid high : ℕ) (next : Bool → Option (Option A))
      → Ascends
      → low ≤ mid
      → mid ≤ high
      → high < length base
      → Finds low mid (next true)
      → Finds mid high (next false)
      → Finds low high (unless_asserts (at mid) (next (is_below (at mid))))
  Finds-mid low mid high next a order order' fits l u = by_case (at mid) refl
    where
      by_case :
          (c : Option Comparison)
          → at mid ≡ c
          → Finds low high (unless_asserts c (next (is_below c)))
      by_case none e = absurd (a.compares mid (omega arith) e)
      by_case (some below) e = Finds-lower low mid high (next true) a order' fits e l
      by_case (some within) e =
          Finds-upper low mid high (next false) a order order' fits (λ w. ground (arith, e, w)) u
      by_case (some above) e =
          Finds-upper low mid high (next false) a order order' fits (λ w. ground (arith, e, w)) u

  search_loop-Finds :
      (fuel low high : ℕ)
      → Ascends
      → low ≤ high
      → high < length base
      → high - low < fuel
      → Finds low high (search_loop comp fuel base target low high)
  unfolding search_loop
  search_loop-Finds zero low high a order fits enough = absurd (omega arith)
  search_loop-Finds (suc fuel) low high a order fits enough =
      let mid = (low + high) / 2 in
      Finds-hit low low high _ (a.compares low (omega arith)) (omega arith) order λ l.
        Finds-hit high low high _ (a.compares high fits) order (omega arith) λ h.
          if_ind (Finds low high) (mid == low || mid == high)
            (λ stop. Finds-ends low high (ground arith) l h)
            (λ go.
              Finds-mid low mid high
                (λ b.
                  search_loop comp fuel base target (if b then low else mid)
                    (if b then mid else high))
                a (omega arith) (omega arith) fits
                (search_loop-Finds fuel low mid a (omega arith) (omega arith) (ground arith))
                (search_loop-Finds fuel mid high a (omega arith) fits (ground arith)))

  -- The whole search: an element that compares equal is returned, or there is none.
  pub search-Finds :
      Ascends
      → ((i : ℕ) × (i < length base)
          × (at i ≡ some within)
          × (search comp base target ≡ some (some (get_or base i target))))
        ⊎ ((search comp base target ≡ some none) × ((i : ℕ) → i < length base → at i ≢ some within))
  unfolding search
  search-Finds a =
      if_ind
        (λ result.
          ((i : ℕ) × (i < length base)
            × (at i ≡ some within)
            × (result ≡ some (some (get_or base i target))))
          ⊎ ((result ≡ some none) × ((i : ℕ) → i < length base → at i ≢ some within)))
        (length base == 0) (λ empty. inr (refl, λ i hi w. ground arith))
        (λ some_left.
          elim (search_loop-Finds (length base) 0 (length base - 1) a (omega arith) (ground arith)
            (ground arith)) [
              | inl (i, lo, hi, w, r) ↦ inl (i, ground arith, w, r)
              | inr (r, nothing) ↦ inr (r, λ i hi w. nothing i (omega arith) (omega arith) w)
            ])
