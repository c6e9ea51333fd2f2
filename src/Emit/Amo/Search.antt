-- ===== src/Emit/Amo/Search.antt =====
-- The reservations of vmm/translate_amo.c, when they are well formed, and the search of them.
use zelda_riscv_emulator.Base.{
  ℕ, zero, suc, ◌+◌, ◌<◌, ◌≡◌, true, false, none, some, List, [], ◌∷◌, get_or, length, refl, ap,
  ◌∙◌, arith, Bool-cases, inl, inr,
}
use zelda_riscv_emulator.Emit.Amo.{
  AmoState, Slow, Reservation, no_reservation, holds_for, find_reservation, first_invalid, returned,
  excepted, max_reservation_items,
}

-- The array has its size, and the pointer is an index of it.
pub record IsValid {M : Type 0} (s : AmoState M) : Type 0 where
  pub items : length s.reservations ≡ max_reservation_items
  pub pointer : s.next_pointer < max_reservation_items

-- Some item is a valid reservation of the hart for the address.
abbrev pub Reserved : ℕ → ℕ → List Reservation → Type 0
Reserved hart_id rs1 items =
    (idx : ℕ) × (holds_for hart_id rs1 (get_or items idx no_reservation) ≡ true)

abbrev pub Unreserved : ℕ → ℕ → List Reservation → Type 0
Unreserved hart_id rs1 items =
    (idx : ℕ) → holds_for hart_id rs1 (get_or items idx no_reservation) ≡ false

find_some :
    (hart_id rs1 k : ℕ) (items : List Reservation)
    → Reserved hart_id rs1 items
    → (idx : ℕ) × (find_reservation hart_id rs1 k items ≡ some (k + idx))
      × (holds_for hart_id rs1 (get_or items idx no_reservation) ≡ true)
unfolding find_reservation
find_some hart_id rs1 k [] (idx, e) = absurd (ground (arith, e))
find_some hart_id rs1 k (item ∷ rest) (zero, e) = (0, rw e (ap some (omega arith)), e)
find_some hart_id rs1 k (item ∷ rest) (suc idx, e) =
    elim (Bool-cases (holds_for hart_id rs1 item)) [
      | inl here ↦ (0, rw here (ap some (omega arith)), here)
      | inr away ↦
          (let (at, found, holds) = find_some hart_id rs1 (1 + k) rest (idx, e) in
            (suc at, rw (away, found) (ap some (omega arith)), holds))
    ]

pub find_first :
    (hart_id rs1 : ℕ) (items : List Reservation)
    → Reserved hart_id rs1 items
    → (idx : ℕ) × (find_reservation hart_id rs1 0 items ≡ some idx)
      × (holds_for hart_id rs1 (get_or items idx no_reservation) ≡ true)
find_first hart_id rs1 items reserved =
    let (idx, found, holds) = find_some hart_id rs1 0 items reserved in
    let same : 0 + idx ≡ idx = omega arith in (idx, found ∙ ap some same, holds)

pub find_none :
    (hart_id rs1 k : ℕ) (items : List Reservation)
    → Unreserved hart_id rs1 items
    → find_reservation hart_id rs1 k items ≡ none
unfolding find_reservation
find_none hart_id rs1 k [] h = refl
find_none hart_id rs1 k (item ∷ rest) h =
    rw (h 0) (find_none hart_id rs1 (1 + k) rest (λ idx. h (suc idx)))

pub first_invalid-lt :
    (p k : ℕ) (items : List Reservation)
    → p < k + length items
    → first_invalid p k items < k + length items
unfolding first_invalid
first_invalid-lt p k [] h = h
first_invalid-lt p k (item ∷ rest) h = elim (Bool-cases item.valid) [
  | inl e ↦ rw e (omega (arith, first_invalid-lt p (1 + k) rest (omega arith)))
  | inr e ↦ rw e (omega arith)
]

-- The state in which a slow path returns or raises an exception.
abbrev pub left : {M : Type 0} → Slow M → AmoState M
left (returned s) = s
left (excepted s) = s
