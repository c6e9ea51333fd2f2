-- ===== src/Uart.antt =====
-- vmm/emulate_uart.c: the NS16550 console. What the host terminal delivers is an argument, and what
-- the guest prints is a result.
mod Tests
pub mod Fifo
pub mod Input
pub mod Registers
use zelda_riscv_emulator.Base.{
  ℕ, zero, suc, ◌+◌, ◌-◌, ◌%◌, ◌^◌, Bool, true, false, not, ◌&&◌, ◌==◌, if◌then◌else◌, Option, none,
  some, List, [], ◌∷◌, get_or, set, replicate, bit_and, bit_or, u8, u32, sub64,
}
use zelda_riscv_emulator.Plic.{PlicState, set_pending}

abbrev pub base_16550 : ℕ
base_16550 = 0x10000000

abbrev pub plic_irq_uart0 : ℕ
plic_irq_uart0 = 10

abbrev pub rx_fifo_size : ℕ
rx_fifo_size = 256

abbrev pub escape_char : ℕ
escape_char = 0x01

abbrev pub ier_rx_avail : ℕ
ier_rx_avail = 0x01

abbrev pub ier_thr_empty : ℕ
ier_thr_empty = 0x02

abbrev pub iir_no_int : ℕ
iir_no_int = 0x01

abbrev pub iir_thr_empty : ℕ
iir_thr_empty = 0x02

abbrev pub iir_rx_avail : ℕ
iir_rx_avail = 0x04

abbrev pub iir_fifo : ℕ
iir_fifo = 0xc0

abbrev pub lcr_dlab : ℕ
lcr_dlab = 0x80

abbrev pub lsr_dr : ℕ
lsr_dr = 0x01

abbrev pub lsr_thre : ℕ
lsr_thre = 0x20

abbrev pub lsr_temt : ℕ
lsr_temt = 0x40

-- UART_MSR_CTS | UART_MSR_DSR | UART_MSR_DCD.
abbrev pub msr_value : ℕ
msr_value = bit_or (bit_or 0x10 0x20) 0x80

pub record UartState : Type 0 where
  pub ier : ℕ
  pub lcr : ℕ
  pub mcr : ℕ
  pub fcr : ℕ
  pub scr : ℕ
  pub dll : ℕ
  pub dlm : ℕ
  pub rx_fifo : List ℕ
  pub rx_head : ℕ
  pub rx_tail : ℕ
  pub console_attached : Bool
  pub escape_armed : Bool

-- `uart_init`; whether `uart_setup_terminal` attached the console is an argument.
unfoldable pub init : Bool → UartState
init attached = record {
  ier = 0;
  lcr = 0;
  mcr = 0;
  fcr = 0;
  scr = 0;
  dll = 0x03;
  dlm = 0;
  rx_fifo = replicate rx_fifo_size 0;
  rx_head = 0;
  rx_tail = 0;
  console_attached = attached;
  escape_armed = false;
}

unfoldable pub rx_empty : UartState → Bool
rx_empty u = u.rx_head == u.rx_tail

-- A full fifo drops the byte.
unfoldable pub rx_push : UartState → ℕ → UartState
rx_push u ch =
    let next = (u.rx_tail + 1) % rx_fifo_size in
    if next == u.rx_head
    then u
    else record u { rx_fifo = set u.rx_fifo u.rx_tail ch; rx_tail = next }

unfoldable pub rx_pop : UartState → ℕ × UartState
unfolding rx_empty
rx_pop u =
    if rx_empty u
    then (0, u)
    else (get_or u.rx_fifo u.rx_head 0, record u { rx_head = (u.rx_head + 1) % rx_fifo_size })

-- `exit(0)` on the operator's request ends the program.
pub data Polled : Type 0 where
  running : UartState → Polled
  terminated : Polled

-- The loop of `uart_poll_input` over the bytes that `read` returned.
unfoldable pub receive : UartState → List ℕ → Polled
receive u [] = running u
receive u (ch ∷ rest) =
    let quit : Polled = terminated in
    let escaped = receive (rx_push (record u { escape_armed = false }) ch) rest in
    let armed = receive (record u { escape_armed = true }) rest in
    let plain = receive (rx_push u ch) rest in
    if u.escape_armed
    then (if ch == b'x' then quit else escaped)
    else if ch == escape_char
    then armed
    else plain

-- `uart_poll_input`; no bytes stand for a `poll` or a `read` that gives none.
unfoldable pub poll_input : UartState → List ℕ → Polled
poll_input u bytes = if u.console_attached then receive u bytes else running u

unfoldable pub interrupt_pending : UartState → Bool
interrupt_pending u =
    if not (bit_and u.ier ier_rx_avail == 0) && not (rx_empty u)
    then true
    else if not (bit_and u.ier ier_thr_empty == 0)
    then true
    else false

unfoldable pub refresh_interrupt : UartState → PlicState → Option PlicState
refresh_interrupt u p = set_pending p plic_irq_uart0 (interrupt_pending u)

-- UART_REG_IIR.
unfoldable pub read_iir : UartState → ℕ
read_iir u =
    bit_or
      (if not (bit_and u.ier ier_rx_avail == 0) && not (rx_empty u)
        then iir_rx_avail
        else if not (bit_and u.ier ier_thr_empty == 0)
        then iir_thr_empty
        else iir_no_int)
      iir_fifo

-- The `switch` of `uart_mmio_read`.
unfoldable pub read_reg : UartState → ℕ → ℕ × UartState
read_reg u reg =
    let dlab = not (bit_and u.lcr lcr_dlab == 0) in
    if reg == 0
    then (if dlab then (u.dll, u) else rx_pop u)
    else if reg == 1
    then (if dlab then u.dlm else u.ier, u)
    else if reg == 2
    then (read_iir u, u)
    else if reg == 3
    then (u.lcr, u)
    else if reg == 4
    then (u.mcr, u)
    else if reg == 5
    then (let idle = bit_or lsr_temt lsr_thre in
        (if not (rx_empty u) then bit_or idle lsr_dr else idle, u))
    else if reg == 6
    then (msr_value, u)
    else if reg == 7
    then (u.scr, u)
    else (0, u)

unfoldable pub mmio_read : UartState → PlicState → ℕ → ℕ → Option (ℕ × UartState × PlicState)
mmio_read u p addr access_size =
    let (ret, u') = read_reg u (u32 (sub64 addr base_16550)) in
    elim (refresh_interrupt u' p) [ none ↦ none | some p' ↦ some (ret, u', p') ]

-- The `switch` of `uart_mmio_write`, with the bytes that go to the standard output.
unfoldable pub write_reg : UartState → ℕ → ℕ → List ℕ × UartState
write_reg u reg val =
    let dlab = not (bit_and u.lcr lcr_dlab == 0) in
    if reg == 0
    then (if dlab then ([], record u { dll = val }) else (val ∷ [], u))
    else if reg == 1
    then (if dlab then ([], record u { dlm = val }) else ([], record u { ier = bit_and val 0x0f }))
    else if reg == 2
    then (let stored = record u { fcr = val } in
        if not (bit_and val 0x2 == 0)
        then ([], record stored { rx_head = 0; rx_tail = 0 })
        else ([], stored))
    else if reg == 3
    then ([], record u { lcr = val })
    else if reg == 4
    then ([], record u { mcr = val })
    else if reg == 7
    then ([], record u { scr = val })
    else ([], u)

unfoldable pub mmio_write :
    UartState → PlicState → ℕ → ℕ → ℕ → Option (List ℕ × UartState × PlicState)
mmio_write u p addr access_size value =
    if access_size == 1
    then (let (out, u') = write_reg u (u32 (sub64 addr base_16550)) (u8 value) in
        elim (refresh_interrupt u' p) [ none ↦ none | some p' ↦ some (out, u', p') ])
    else some ([], u, p)
