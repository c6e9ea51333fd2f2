-- ===== src/Plic/Best.antt =====
-- The choice of `plic_best_source`.
use zelda_riscv_emulator.Base.{
  ℕ, zero, suc, ◌+◌, ◌≤◌, ◌<◌, ◌≡◌, ◌≢◌, refl, subst, inl, inr, ◌&&◌, not, Bool, true, false, ltb,
  leb, ◌==◌, List, get_or, arith, Bool-cases, test_bit, if◌then◌else◌,
}
use native.Mathlib.Decide.{ℕ_discrete}
use zelda_riscv_emulator.Plic.{PlicState, nr_sources, best_from, best_source, candidates}

module _ (priority : List ℕ) (threshold cands : ℕ) where
  -- Source `s` is a candidate with a priority above the threshold.
  abbrev pub Qualifies : ℕ → Type 0
  Qualifies s = (test_bit cands s ≡ true) × (threshold < get_or priority s 0)

  -- The priority that the loop carries along with its choice; 0 is no choice.
  abbrev level_of : ℕ → ℕ
  level_of best = if best == 0 then 0 else get_or priority best 0

  -- `best` is the loop's choice among the sources from 1 up to (not including) `bound`.
  record IsChoice (bound best : ℕ) : Type 0 where
    below : best < bound
    qualifies : best ≢ 0 → Qualifies best
    greatest : (s : ℕ) → 0 < s → s < bound → Qualifies s → get_or priority s 0 ≤ level_of best
    first : (s : ℕ) → 0 < s → s < best → Qualifies s → get_or priority s 0 < get_or priority best 0

  IsChoice-take :
      (source best : ℕ)
      → 0 < source
      → IsChoice source best
      → Qualifies source
      → level_of best < get_or priority source 0
      → IsChoice (source + 1) source
  IsChoice-take source best pos b q more = record {
    below = omega arith;
    qualifies = λ _. q;
    greatest = λ s lo hi qs. ground (arith, b.greatest s lo, at_source s source qs);
    first = λ s lo hi qs. ground (arith, b.greatest s lo hi qs);
  }
    where
      at_source : (s t : ℕ) → Qualifies s → s ≡ t → get_or priority s 0 ≡ get_or priority t 0
      at_source s t _ e = rw e

  IsChoice-keep :
      (source best : ℕ)
      → 0 < source
      → IsChoice source best
      → (Qualifies source → get_or priority source 0 ≤ level_of best)
      → IsChoice (source + 1) best
  IsChoice-keep source best pos b less = record {
    below = omega (arith, b.below);
    qualifies = b.qualifies;
    greatest = λ s lo hi qs. elim (ℕ_discrete s source) [
      | yes e ↦ rw e (less (rw e at qs))
      | no ne ↦ b.greatest s lo (omega arith) qs
    ];
    first = b.first;
  }

  abbrev takes : ℕ → ℕ → Bool
  takes source best =
      test_bit cands source
      && not (leb (get_or priority source 0) threshold)
      && ltb (level_of best) (get_or priority source 0)

  takes_iff :
      (source best : ℕ)
      → takes source best ≡ true
      → Qualifies source × (level_of best < get_or priority source 0)
  takes_iff source best h = ground arith

  takes_not :
      (source best : ℕ)
      → takes source best ≡ false
      → Qualifies source
      → get_or priority source 0 ≤ level_of best
  takes_not source best h q = ground arith

  best_from-IsChoice :
      (left source best bound : ℕ)
      → 0 < source
      → source + left ≡ bound
      → IsChoice source best
      → IsChoice bound (best_from priority threshold cands left source best (level_of best))
  unfolding best_from
  best_from-IsChoice zero source best bound pos e b = subst (λ n. IsChoice n best) (omega arith) b
  best_from-IsChoice (suc left) source best bound pos e b = elim (Bool-cases (takes source best)) [
    | inl h ↦ rw h (
        let (q, more) = takes_iff source best h in
        subst (λ l. IsChoice bound (best_from priority threshold cands left (source + 1) source l))
          (ground arith)
          (best_from-IsChoice left (source + 1) source bound (omega arith) (omega arith)
            (IsChoice-take source best pos b q more)))
    | inr h ↦ rw h (
        best_from-IsChoice left (source + 1) best bound (omega arith) (omega arith)
          (IsChoice-keep source best pos b (takes_not source best h)))
  ]

-- What `plic_best_source` returns for a context: 0 when no source qualifies, or the qualifying
-- source of the greatest priority, and of those the one with the least number.
pub record IsBest (p : PlicState) (context best : ℕ) : Type 0 where
  pub in_range : best < nr_sources
  pub qualifies :
      best ≢ 0 → Qualifies p.priority (get_or p.threshold context 0) (candidates p context) best
  pub greatest :
      (s : ℕ)
      → 0 < s
      → s < nr_sources
      → Qualifies p.priority (get_or p.threshold context 0) (candidates p context) s
      → (best ≢ 0) × (get_or p.priority s 0 ≤ get_or p.priority best 0)
  pub first :
      (s : ℕ)
      → 0 < s
      → s < best
      → Qualifies p.priority (get_or p.threshold context 0) (candidates p context) s
      → get_or p.priority s 0 < get_or p.priority best 0

-- For every state and context, `plic_best_source` is below 32; if it is not 0, it is a candidate
-- with a priority above the threshold; whenever some source from 1 to 31 is one, the result is not
-- 0 and no such source has a greater priority, nor an equal one and a smaller number.
pub best_source-IsBest : (p : PlicState) (context : ℕ) → IsBest p context (best_source p context)
unfolding best_source
best_source-IsBest p context = record {
  in_range = choice.below;
  qualifies = choice.qualifies;
  greatest = λ s lo hi q. ground (arith, choice.greatest s lo hi q);
  first = choice.first;
}
  where
    level : ℕ
    level = get_or p.threshold context 0

    start : IsChoice p.priority level (candidates p context) 1 0
    start = record {
      below = omega arith;
      qualifies = λ ne. absurd (ne refl);
      greatest = λ s lo hi q. absurd (omega arith);
      first = λ s lo hi q. absurd (omega arith);
    }

    choice :
        IsChoice p.priority level
          (candidates p context)
          32
          (best_from p.priority level (candidates p context) 31 1 0 0)
    choice =
        best_from-IsChoice p.priority level (candidates p context) 31 1 0 32 (omega arith) refl
          start
