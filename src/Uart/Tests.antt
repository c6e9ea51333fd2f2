-- ===== src/Uart/Tests.antt =====
-- Runs of the UART model with the console attached.
use zelda_riscv_emulator.Base.{ℕ, ◌≡◌, true, arith, refl, some, List, [], ◌∷◌, replicate, set}
use zelda_riscv_emulator.Plic.{PlicState}
use zelda_riscv_emulator.Plic
use zelda_riscv_emulator.Uart.{UartState, init, rx_push, rx_pop, poll_input, mmio_write}
use zelda_riscv_emulator.Uart.Fifo.{
  IsValid, contents, queue_push, queue_pop, contents-rx_push, contents-rx_pop,
}
use zelda_riscv_emulator.Uart.Input.{Holds, escaped, queue_push_all, poll_input-escaped}
use zelda_riscv_emulator.Uart.Registers.{Drives, mmio_write-Drives}

-- The fifo has gone round: one byte waits at its end.
abbrev waiting : UartState
waiting = record (init true) {
  rx_fifo = set (replicate 256 0) 255 b'q';
  rx_head = 255;
  rx_tail = 0;
}

waiting-IsValid : IsValid waiting
unfolding init
waiting-IsValid = record { fifo_len = refl; head_in = omega arith; tail_in = omega arith }

contents-rx_push_example : contents (rx_push waiting b'r') ≡ queue_push (contents waiting) b'r'
contents-rx_push_example = contents-rx_push waiting waiting-IsValid b'r'

contents-rx_pop_example :
    ((rx_pop waiting).0 ≡ (queue_pop (contents waiting)).0)
    × (contents (rx_pop waiting).1 ≡ (queue_pop (contents waiting)).1)
contents-rx_pop_example = contents-rx_pop waiting waiting-IsValid

poll_input-escaped_example :
    Holds
      (queue_push_all (contents waiting) (b'l' ∷ 1 ∷ b's' ∷ []))
      (poll_input waiting (escaped (b'l' ∷ 1 ∷ b's' ∷ [])))
unfolding init
poll_input-escaped_example =
    poll_input-escaped waiting (b'l' ∷ 1 ∷ b's' ∷ []) waiting-IsValid refl refl

abbrev plic : PlicState
plic = Plic.init 0xc000000 0x400000 1

mmio_write-Drives_example :
    (out : List ℕ) × (u : UartState) × (q : PlicState) × (mmio_write waiting plic 0x10000001 1 0x03
      ≡ some (out, u, q))
    × IsValid u
    × Drives u plic q
mmio_write-Drives_example = mmio_write-Drives waiting plic 0x10000001 0x03 waiting-IsValid
