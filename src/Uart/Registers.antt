-- ===== src/Uart/Registers.antt =====
-- The register interface of the UART and its interrupt line.
use zelda_riscv_emulator.Base.{
  ℕ, ◌<◌, ◌≡◌, ◌≢◌, some, List, arith, assign_bit, test_bit-assign_bit, test_bit, u8, u32, sub64,
  refl,
}
use zelda_riscv_emulator.Plic.{PlicState, set_pending}
use zelda_riscv_emulator.Uart.{
  UartState, base_16550, plic_irq_uart0, interrupt_pending, refresh_interrupt, read_reg, mmio_read,
  write_reg, mmio_write,
}
use zelda_riscv_emulator.Uart.Fifo.{IsValid, rx_pop-IsValid}

-- The device lines after the UART has driven its own.
pub record Drives (u : UartState) (p q : PlicState) : Type 0 where
  pub line : test_bit q.asserted plic_irq_uart0 ≡ interrupt_pending u
  pub others : (s : ℕ) → s < 32 → s ≢ plic_irq_uart0 → test_bit q.asserted s ≡ test_bit p.asserted s
  pub claims : q.claimed ≡ p.claimed

driven : UartState → PlicState → PlicState
driven u p = record p {
  asserted = assign_bit p.asserted plic_irq_uart0 (interrupt_pending u);
  pending = assign_bit p.pending plic_irq_uart0 (interrupt_pending u);
}

refresh_interrupt-driven :
    (u : UartState) (p : PlicState) → refresh_interrupt u p ≡ some (driven u p)
unfolding refresh_interrupt set_pending driven assign_bit
refresh_interrupt-driven u p = ground arith

driven-Drives : (u : UartState) (p : PlicState) → Drives u p (driven u p)
unfolding driven
driven-Drives u p = record {
  line = ground (arith, test_bit-assign_bit p.asserted 10 10 (interrupt_pending u));
  others = λ s hs ne. ground (arith, test_bit-assign_bit p.asserted 10 s (interrupt_pending u));
  claims = refl;
}

read_reg-IsValid : (u : UartState) (reg : ℕ) → IsValid u → IsValid (read_reg u reg).1
unfolding read_reg
read_reg-IsValid u reg v = ground (arith, rx_pop-IsValid u v)

write_reg-IsValid : (u : UartState) (reg val : ℕ) → IsValid u → IsValid (write_reg u reg val).1
unfolding write_reg
write_reg-IsValid u reg val v = ground arith

-- Every load from a valid UART, at any address, returns a value and a state that is valid, with the
-- interrupt line of source 10 raised exactly when that state has an interrupt pending, the other
-- lines as they were and no claim changed.
pub mmio_read-Drives :
    (u : UartState) (p : PlicState) (addr size : ℕ)
    → IsValid u
    → (ret : ℕ) × (u' : UartState) × (q : PlicState) × (mmio_read u p addr size ≡ some (ret, u', q))
      × IsValid u'
      × Drives u' p q
unfolding mmio_read
mmio_read-Drives u p addr size v = (
  ret,
  after,
  driven after p,
  ground (arith, refresh_interrupt-driven after p),
  read_reg-IsValid u (u32 (sub64 addr base_16550)) v,
  driven-Drives after p,
)
  where
    ret : ℕ
    ret = (read_reg u (u32 (sub64 addr base_16550))).0

    after : UartState
    after = (read_reg u (u32 (sub64 addr base_16550))).1

-- Every one-byte store to a valid UART, at any address, returns what is printed and a state that is
-- valid, with the interrupt line of source 10 raised exactly when that state has an interrupt
-- pending, the other lines as they were and no claim changed.
pub mmio_write-Drives :
    (u : UartState) (p : PlicState) (addr value : ℕ)
    → IsValid u
    → (out : List ℕ) × (u' : UartState) × (q : PlicState) × (mmio_write u p addr 1 value
        ≡ some (out, u', q))
      × IsValid u'
      × Drives u' p q
unfolding mmio_write
mmio_write-Drives u p addr value v = (
  out,
  after,
  driven after p,
  ground (arith, refresh_interrupt-driven after p),
  write_reg-IsValid u (u32 (sub64 addr base_16550)) (u8 value) v,
  driven-Drives after p,
)
  where
    out : List ℕ
    out = (write_reg u (u32 (sub64 addr base_16550)) (u8 value)).0

    after : UartState
    after = (write_reg u (u32 (sub64 addr base_16550)) (u8 value)).1
