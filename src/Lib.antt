-- ===== src/Lib.antt =====
-- Zelda.RISCV.Emulator: an RV32IMA virtual machine monitor. It translates guest instructions to
-- host code and emulates a timer (CLINT), an interrupt controller (PLIC) and a console (NS16550).
--
-- The parts modelled here and how they meet. The translators (vmm/translate_*.c) write a block of
-- host code per guest instruction into the cache of the hart. A hart (vmm/hart.h) runs that code;
-- at the end of each translation unit `pump_devices_and_deliver_interrupts` moves the virtual clock
-- of the CLINT, lets the UART drive its line into the PLIC, copies the lines of the CLINT and the
-- PLIC into the hart's `ipending`, and takes the first deliverable interrupt as a trap. A guest
-- that executes wfi runs `hart_idle`, which skips the clock to the next deadline. Traps enter
-- machine or supervisor mode; mret and sret leave it. The guest reaches the devices by loads and
-- stores, and the state of the hart by the CSR instructions.
--
--   Base       words of 8, 32 and 64 bits as naturals, single bits, lists by index, Boolean tests
--   Region     vmm/pm_region.h and vmm/pm_region.c: the record of a physical memory region and the
--              compare function; Region.Search is vmm/search.h and the lookup by address
--   Hart       vmm/hart.h; Hart.Trap is vmm/hart_trap.c, vmm/hart_exception.c and the tag functions
--              of vmm/hart_util.h; Hart.Return is the callbacks of vmm/translate_privileged_instr.c
--              and vmm/mmu_tlb.c; Hart.Interrupt is the delivery half of vmm/hart_interrupt.c
--   Clint      vmm/emulate_clint.c
--   Plic       vmm/emulate_plic.c
--   Uart       vmm/emulate_uart.c
--   Machine    vmm/hart_interrupt.c: the pump and hart_idle, over one hart and the devices
--   Mmu        vmm/mmu_tlb.h, vmm/mmu_pagewalker.c, vmm/mmu.h, vmm/mmu.c: Mmu.Calls is the loads,
--              stores and fetches, Mmu.Sv32 the scheme of the architecture, Mmu.Install the install
--              of an entry, Mmu.Walk the walk against Sv32, Mmu.Total its assertions, Mmu.Flush
--              what a write of satp does, Mmu.Faults what a miss comes to
--   Decode     vmm/translation.c: instruction_decoding_per_type
--   Host       the host instructions that the blocks are written in: Host.State is the registers
--              and the memory, Host.Word signed words, Host.Compare the flags, Host.Product and
--              Host.Divide the pair rdx:rax, Host.Guest the registers and the pc of the guest in
--              the host's memory, as vmresume of vmm/translation.c sets them up
--   Translation  the macros of vmm/translation.h around a block; Translation.Cache is the mapping
--              array of vmm/hart.c and INSERTION_SORT of vmm/sort.h, Translation.Progress what one
--              translator adds
--   Emit       the translators: Emit.Arith, ArithImmediate, MulDiv, Branch, Jump, Load, Store, Amo,
--              Fence and Privileged are the files vmm/translate_*.c, Emit.Upper and Emit.Op are in
--              vmm/translation.c, Emit.SignExtend is in vmm/util.h. Emit.Rv32 is the definitions of
--              the architecture, and the modules called Executes, Computes, Divides and Quotients
--              compare the blocks with them; Load.Calls and Store.Writes are the calls of the
--              emulator, Amo.Search the reservations. Emit.Translators is the table of the
--              translators and Emit.Prefetch the loop over it, with Terminates for its end
--   Csr        vmm/csr_machine_level.c, csr_supervisor_level.c, csr_misc.c,
--              csr_machine_level_pmp.c; Csr.Table is the register table, Csr.Callback is
--              vmm/csr_representation.c
--
-- Conventions. The static state of a device is a record, and each function takes and returns it. A
-- definition has the name of the C function without the prefix of its file (`claim` for
-- `plic_claim`). A word of w bits is a natural below 2 ^ w, with the wrap-around written out. A
-- failing assertion is `none` or the step `aborts`. A translator is modelled as the block that it
-- writes, a list of host instructions and the words of its parameters, between the check for room
-- and the commit that all translators share; how many bytes the assembler makes of a block is an
-- argument, and so are the C functions that a block calls, which return a state of the host or
-- raise an exception. Of the flags only those that `cmpl` sets are modelled, since no block reads
-- others. A trap jumps to the translation loop, so the functions that trap return the state the
-- loop enters with. Loops are recursion on the number of rounds that the loop bound gives (harts,
-- sources, the 64 rounds of hart_idle) or on the bytes read, so no fuel is chosen, but for the
-- binary searches, whose fuel is the length of the array, and for the loop that translates a unit,
-- whose fuel of 4098 is the capacity of the cache and two more: each round but the first adds a
-- block to a cache that is not flushed again. The words of main memory that a page walk reads are
-- an argument. The bytes that the host terminal gives to a poll are arguments, and the program's
-- exit on the operator's request is a value.
--
-- Not modelled: host pointers, and the bytes that the assembler makes of a block; the jump into the
-- cache and out of it; the tracing and debugging variants of the macros; pa_to_va; registration and
-- sorting of regions; the dispatch of an access to its device; memory and power devices; the
-- firmware; the device tree; configuration, logging and the debugger. A CSR access is not checked
-- against the privilege level, as in the code.
pub mod Base
pub mod Region
pub mod Hart
pub mod Clint
pub mod Plic
pub mod Uart
pub mod Machine
pub mod Decode
pub mod Csr
pub mod Emit
pub mod Host
pub mod Mmu
pub mod Translation
