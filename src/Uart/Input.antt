-- ===== src/Uart/Input.antt =====
-- What the operator types: the escape character and its effect on the fifo.
use zelda_riscv_emulator.Base.{
  ℕ, ◌≡◌, refl, ◌∙◌, Bool, Bool-cases, ◌&&◌, inl, inr, true, false, List, [], ◌∷◌, ◌++◌, ap, sym,
  subst, arith, ◌==◌, if◌then◌else◌,
}
use native.Mathlib.Decide.{ℕ_discrete}
use zelda_riscv_emulator.Uart.{
  UartState, Polled, running, terminated, escape_char, rx_push, receive, poll_input,
}
use zelda_riscv_emulator.Uart.Fifo.{
  IsValid, contents, queue_push, rx_push-IsValid, contents-rx_push,
}

-- Go on with the fifo that the bytes so far have left.
infixl 5 ◌>>=◌
abbrev pub ◌>>=◌ : Polled → (UartState → Polled) → Polled
running u >>= f = f u
terminated >>= f = terminated

-- Two reads one after the other are the same as one read of all their bytes: the loop goes on from
-- the state that the first has left, or the program has ended.
pub receive-append :
    (xs ys : List ℕ) (u : UartState) → receive u (xs ++ ys) ≡ (receive u xs >>= λ v. receive v ys)
unfolding receive
receive-append [] ys u = refl
receive-append (x ∷ xs) ys u = ground (
  arith,
  receive-append xs ys (rx_push (record u { escape_armed = false }) x),
  receive-append xs ys (record u { escape_armed = true }),
  receive-append xs ys (rx_push u x),
)

rx_push-escape_armed : (u : UartState) (ch : ℕ) → (rx_push u ch).escape_armed ≡ u.escape_armed
unfolding rx_push
rx_push-escape_armed u ch = ground arith

-- Whether the operator asks to end the program: an x follows an escape character that is not itself
-- escaped. The first argument tells that an escape has begun.
abbrev pub quits : Bool → List ℕ → Bool
quits armed [] = false
quits true (ch ∷ rest) = if ch == b'x' then true else quits false rest
quits false (ch ∷ rest) = quits (ch == escape_char) rest

abbrev pub is_terminated : Polled → Bool
is_terminated (running u) = false
is_terminated terminated = true

receive-quits :
    (bytes : List ℕ) (u : UartState) → is_terminated (receive u bytes) ≡ quits u.escape_armed bytes
unfolding receive
receive-quits [] u = refl
receive-quits (ch ∷ rest) u = elim (Bool-cases u.escape_armed) [
  | inl on ↦ ground (
    arith,
    on,
    receive-quits rest (rx_push (record u { escape_armed = false }) ch),
    rx_push-escape_armed (record u { escape_armed = false }) ch,
  )
  | inr off ↦ ground (
    arith,
    off,
    receive-quits rest (rx_push u ch),
    rx_push-escape_armed u ch,
    receive-quits rest (record u { escape_armed = true }),
  )
]

-- The poll ends the program exactly when the console is attached and the operator asks for it.
pub poll_input-quits :
    (u : UartState) (bytes : List ℕ)
    → is_terminated (poll_input u bytes) ≡ u.console_attached && quits u.escape_armed bytes
unfolding poll_input
poll_input-quits u bytes = ground (arith, receive-quits bytes u)

-- What an operator types to send the bytes: the escape character is doubled.
abbrev pub escaped : List ℕ → List ℕ
escaped [] = []
escaped (ch ∷ rest) =
    if ch == escape_char then escape_char ∷ escape_char ∷ escaped rest else ch ∷ escaped rest

-- The queue after the bytes are pushed one by one.
abbrev pub queue_push_all : List ℕ → List ℕ → List ℕ
queue_push_all q [] = q
queue_push_all q (ch ∷ rest) = queue_push_all (queue_push q ch) rest

-- A run of the loop that ended with the fifo holding a queue, ready for a fresh character.
pub record Holds (q : List ℕ) (result : Polled) : Type 0 where
  pub final : UartState
  pub runs : result ≡ running final
  pub valid : IsValid final
  pub ready : final.escape_armed ≡ false
  pub held : contents final ≡ q

-- One escaped character is one push.
receive-escaped-cons :
    (ch : ℕ) (rest : List ℕ) (u : UartState)
    → u.escape_armed ≡ false
    → receive u (escaped (ch ∷ rest)) ≡ receive (rx_push u ch) (escaped rest)
unfolding receive
receive-escaped-cons ch rest u e = elim (ℕ_discrete ch escape_char) [
  | yes is_escape ↦ ground (arith, unarmed)
  | no other ↦ ground arith
]
  where
    unarmed : record u { escape_armed = false } ≡ u
    unarmed = λ i. record u { escape_armed = sym e i }

receive-escaped :
    (bytes : List ℕ) (u : UartState)
    → IsValid u
    → u.escape_armed ≡ false
    → Holds (queue_push_all (contents u) bytes) (receive u (escaped bytes))
unfolding receive
receive-escaped [] u v e = record { final = u; runs = refl; valid = v; ready = e; held = refl }
receive-escaped (ch ∷ rest) u v e = rw (receive-escaped-cons ch rest u e) (
    subst (λ q. Holds (queue_push_all q rest) (receive (rx_push u ch) (escaped rest)))
      (contents-rx_push u v ch)
      (receive-escaped rest (rx_push u ch) (rx_push-IsValid u ch v)
        (rx_push-escape_armed u ch ∙ e)))

-- With the console attached, a valid fifo and no escape begun, the escaped form of any bytes makes
-- `uart_poll_input` go on, with no escape begun and the bytes pushed one by one and verbatim.
pub poll_input-escaped :
    (u : UartState) (bytes : List ℕ)
    → IsValid u
    → u.console_attached ≡ true
    → u.escape_armed ≡ false
    → Holds (queue_push_all (contents u) bytes) (poll_input u (escaped bytes))
unfolding poll_input
poll_input-escaped u bytes v on e = simp on (receive-escaped bytes u v e)

-- With the console attached, a valid fifo and no escape begun, the escape character and an x after
-- any escaped bytes end the program, whatever follows.
pub poll_input_quit :
    (u : UartState) (bytes rest : List ℕ)
    → IsValid u
    → u.console_attached ≡ true
    → u.escape_armed ≡ false
    → poll_input u (escaped bytes ++ (escape_char ∷ b'x' ∷ rest)) ≡ terminated
unfolding poll_input
poll_input_quit u bytes rest v on e =
    let sent = receive-escaped bytes u v e in
    simp on (
      receive-append (escaped bytes) (escape_char ∷ b'x' ∷ rest) u
      ∙ ap (λ (r : Polled). r >>= λ w. receive w (escape_char ∷ b'x' ∷ rest)) sent.runs
      ∙ quits sent.final sent.ready)
  where
    quits :
        (w : UartState)
        → w.escape_armed ≡ false
        → receive w (escape_char ∷ b'x' ∷ rest) ≡ terminated
    quits w ready = unfold receive in ground arith
