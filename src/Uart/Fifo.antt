-- ===== src/Uart/Fifo.antt =====
-- The receive fifo against a queue of at most 255 bytes.
use zelda_riscv_emulator.Base.{
  ℕ, zero, suc, ◌+◌, ◌-◌, ◌%◌, ◌≤◌, ◌<◌, ◌≡◌, ◌≢◌, refl, ap, ◌∙◌, List, [], ◌∷◌, ◌++◌, length,
  get_or, set, arith, get_or-set, length-set, if◌then◌else◌, ltb,
}
use native.Mathlib.Decide.{ℕ_discrete}
use zelda_riscv_emulator.Uart.{UartState, rx_fifo_size, rx_push, rx_pop}

pub record IsValid (u : UartState) : Type 0 where
  pub fifo_len : length u.rx_fifo ≡ rx_fifo_size
  pub head_in : u.rx_head < rx_fifo_size
  pub tail_in : u.rx_tail < rx_fifo_size

-- The number of bytes between the two indices, going round at the end of the array.
abbrev pub fill : UartState → ℕ
fill u = (u.rx_tail + rx_fifo_size - u.rx_head) % rx_fifo_size

-- `n` bytes of the array from index `i` on, going round at its end.
abbrev pub window : List ℕ → ℕ → ℕ → List ℕ
window fifo i zero = []
window fifo i (suc n) = get_or fifo i 0 ∷ window fifo ((i + 1) % rx_fifo_size) n

-- The bytes waiting for the guest, oldest first.
abbrev pub contents : UartState → List ℕ
contents u = window u.rx_fifo u.rx_head (fill u)

-- A write beyond the window leaves it as it was.
window-set :
    (fifo : List ℕ) (j v i n : ℕ)
    → i < 256
    → j < 256
    → n ≤ (j + 256 - i) % 256
    → window (set fifo j v) i n ≡ window fifo i n
window-set fifo j v i zero hi hj room = refl
window-set fifo j v i (suc n) hi hj room = ground (
  arith,
  get_or-set fifo j i v 0,
  window-set fifo j v ((i + 1) % 256) n (omega arith) hj (omega arith),
)

window-snoc :
    (fifo : List ℕ) (i n : ℕ)
    → i < 256
    → window fifo i (suc n) ≡ window fifo i n ++ (get_or fifo ((i + n) % 256) 0 ∷ [])
window-snoc fifo i zero hi = ap (λ (k : ℕ). get_or fifo k 0 ∷ []) (omega arith)
window-snoc fifo i (suc n) hi =
    ap (λ (xs : List ℕ). get_or fifo i 0 ∷ xs)
      (window-snoc fifo ((i + 1) % 256) n (omega arith)
        ∙ ap (λ (k : ℕ). window fifo ((i + 1) % 256) n ++ (get_or fifo k 0 ∷ [])) (omega arith))

window-zero : (fifo : List ℕ) (i n : ℕ) → n ≡ 0 → window fifo i n ≡ []
window-zero fifo i n e = rw e

window-pos :
    (fifo : List ℕ) (i n : ℕ)
    → n ≢ 0
    → window fifo i n ≡ get_or fifo i 0 ∷ window fifo ((i + 1) % 256) (n - 1)
window-pos fifo i zero ne = absurd (ne refl)
window-pos fifo i (suc n) ne =
    ap (λ (k : ℕ). get_or fifo i 0 ∷ window fifo ((i + 1) % 256) k) (omega arith)

length-window : (fifo : List ℕ) (i n : ℕ) → length (window fifo i n) ≡ n
length-window fifo i zero = refl
length-window fifo i (suc n) = ap suc (length-window fifo ((i + 1) % 256) n)

pub length-contents : (u : UartState) → length (contents u) ≡ fill u
length-contents u = length-window u.rx_fifo u.rx_head (fill u)

-- A queue that holds at most one byte less than the array.
unfoldable pub queue_push : List ℕ → ℕ → List ℕ
queue_push q ch = if ltb (length q) (rx_fifo_size - 1) then q ++ (ch ∷ []) else q

unfoldable pub queue_pop : List ℕ → ℕ × List ℕ
queue_pop [] = (0, [])
queue_pop (ch ∷ q) = (ch, q)

pub rx_push-IsValid : (u : UartState) (ch : ℕ) → IsValid u → IsValid (rx_push u ch)
unfolding rx_push
rx_push-IsValid u ch v = ground (arith, length-set u.rx_fifo u.rx_tail ch)

pub rx_pop-IsValid : (u : UartState) → IsValid u → IsValid (rx_pop u).1
unfolding rx_pop
rx_pop-IsValid u v = ground arith

module _ (u : UartState) (v : IsValid u) where
  -- A byte written at the tail extends the window.
  window-push :
      (ch : ℕ)
      → window (set u.rx_fifo u.rx_tail ch) u.rx_head (suc (fill u)) ≡ contents u ++ (ch ∷ [])
  window-push ch = ground (
    arith,
    window-snoc (set u.rx_fifo u.rx_tail ch) u.rx_head (fill u) v.head_in,
    window-set u.rx_fifo u.rx_tail ch u.rx_head (fill u) v.head_in v.tail_in,
    get_or-set u.rx_fifo u.rx_tail u.rx_tail ch 0,
    around,
    v.fifo_len,
    v.tail_in,
  )
    where
      around : (u.rx_head + fill u) % 256 ≡ u.rx_tail
      around = omega (arith, v.head_in, v.tail_in)

  -- With room for one more byte the fill grows by one.
  fill-push :
      (u.rx_tail + 1) % 256 ≢ u.rx_head
      → ((u.rx_tail + 1) % 256 + 256 - u.rx_head) % 256 ≡ suc (fill u)
  fill-push ne = omega (arith, v.head_in, v.tail_in)

  -- With valid indices, a push is a push on the queue of the bytes held: it appends the byte if
  -- fewer than 255 wait, and drops it otherwise.
  pub contents-rx_push : (ch : ℕ) → contents (rx_push u ch) ≡ queue_push (contents u) ch
  unfolding rx_push queue_push
  contents-rx_push ch = elim (ℕ_discrete ((u.rx_tail + 1) % 256) u.rx_head) [
    | yes full ↦ ground (arith, length-contents u, fill_full full)
    | no room ↦ ground (arith, length-contents u, fill_room room, window-push ch, fill-push room)
  ]
    where
      fill_full : (u.rx_tail + 1) % 256 ≡ u.rx_head → fill u ≡ 255
      fill_full e = omega (arith, v.head_in, v.tail_in)

      fill_room : (u.rx_tail + 1) % 256 ≢ u.rx_head → fill u < 255
      fill_room ne = omega (arith, v.head_in, v.tail_in)

  -- With valid indices, a pop returns and removes the oldest byte, and gives 0 and removes nothing
  -- when none waits.
  pub contents-rx_pop :
      ((rx_pop u).0 ≡ (queue_pop (contents u)).0)
      × (contents (rx_pop u).1 ≡ (queue_pop (contents u)).1)
  unfolding rx_pop queue_pop
  contents-rx_pop = elim (ℕ_discrete u.rx_head u.rx_tail) [
    | yes e ↦ ground (arith, window-zero u.rx_fifo u.rx_head (fill u) (fill_empty e))
    | no ne ↦ ground (arith, window-pos u.rx_fifo u.rx_head (fill u) (fill_more ne), fill-pop ne)
  ]
    where
      fill_empty : u.rx_head ≡ u.rx_tail → fill u ≡ 0
      fill_empty e = omega (arith, v.head_in, v.tail_in)

      fill_more : u.rx_head ≢ u.rx_tail → fill u ≢ 0
      fill_more ne = omega (arith, v.head_in, v.tail_in)

      fill-pop :
          u.rx_head ≢ u.rx_tail → (u.rx_tail + 256 - (u.rx_head + 1) % 256) % 256 ≡ fill u - 1
      fill-pop ne = omega (arith, v.head_in, v.tail_in)
