-- ===== src/Emit.antt =====
-- The translators of vmm/translate_*.c and vmm/translation.c: for each guest instruction, the block of
-- host code that it becomes.
pub mod Rv32
pub mod Block
pub mod Operands
pub mod SignExtend
pub mod Arith
pub mod ArithImmediate
pub mod MulDiv
pub mod Op
pub mod Branch
pub mod Jump
pub mod Load
pub mod Store
pub mod Upper
pub mod Amo
pub mod Fence
pub mod Privileged
pub mod Translators
pub mod Prefetch
mod Tests
use zelda_riscv_emulator.Base.{List}
