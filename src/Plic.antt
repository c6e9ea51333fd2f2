-- ===== src/Plic.antt =====
-- vmm/emulate_plic.c: the platform-level interrupt controller.
mod Tests
pub mod Best
pub mod Claim
pub mod Invariant
use zelda_riscv_emulator.Base.{
  ℕ, zero, suc, ◌+◌, ◌-◌, ◌*◌, ◌/◌, ◌%◌, ◌^◌, Bool, true, false, not, ◌&&◌, ◌||◌, ◌==◌, ltb, leb,
  if◌then◌else◌, Option, none, some, List, get_or, set, replicate, bit_and, u32, sub64, not32,
  test_bit, set_bit, clear_bit, assign_bit,
}
use zelda_riscv_emulator.Hart.{Hart}

abbrev pub nr_sources : ℕ
nr_sources = 32

abbrev pub contexts_per_hart : ℕ
contexts_per_hart = 2

abbrev pub max_contexts : ℕ
max_contexts = 64 * contexts_per_hart

abbrev pub reg_pending_base : ℕ
reg_pending_base = 0x001000

abbrev pub reg_enable_base : ℕ
reg_enable_base = 0x002000

abbrev pub reg_enable_stride : ℕ
reg_enable_stride = 0x80

abbrev pub reg_context_base : ℕ
reg_context_base = 0x200000

abbrev pub reg_context_stride : ℕ
reg_context_stride = 0x1000

abbrev pub reg_context_threshold : ℕ
reg_context_threshold = 0x0

abbrev pub reg_context_claim : ℕ
reg_context_claim = 0x4

pub record PlicState : Type 0 where
  pub base : ℕ
  pub size : ℕ
  pub nr_contexts : ℕ
  pub phandle : ℕ
  pub priority : List ℕ
  pub asserted : ℕ
  pub pending : ℕ
  pub claimed : ℕ
  pub enable : List ℕ
  pub threshold : List ℕ

-- `plic_init`, for the configured addresses.
unfoldable pub init : ℕ → ℕ → ℕ → PlicState
init base size nr_harts = record {
  base = base;
  size = size;
  nr_contexts = nr_harts * contexts_per_hart;
  phandle = 0;
  priority = replicate nr_sources 0;
  asserted = 0;
  pending = 0;
  claimed = 0;
  enable = replicate max_contexts 0;
  threshold = replicate max_contexts 0;
}

-- `plic_set_pending`; `none` is its assertion failing.
unfoldable pub set_pending : PlicState → ℕ → Bool → Option PlicState
set_pending p source line =
    if ltb 0 source && ltb source nr_sources
    then (if line
        then some
            (record p { asserted = set_bit p.asserted source; pending = set_bit p.pending source })
        else some (record p {
          asserted = clear_bit p.asserted source;
          pending = clear_bit p.pending source;
        }))
    else none

-- `plic.pending & ~plic.claimed & plic.enable[context]`.
unfoldable pub candidates : PlicState → ℕ → ℕ
candidates p context = bit_and (bit_and p.pending (not32 p.claimed)) (get_or p.enable context 0)

-- The loop of `plic_best_source` from `source` on, with `PLIC_NR_SOURCES - source` rounds left.
pub best_from : List ℕ → ℕ → ℕ → ℕ → ℕ → ℕ → ℕ → ℕ
best_from priority threshold cands zero source best best_priority = best
best_from priority threshold cands (suc left) source best best_priority =
    let level = get_or priority source 0 in
    let takes = test_bit cands source && not (leb level threshold) && ltb best_priority level in
    best_from priority threshold cands left (source + 1) (if takes then source else best)
      (if takes then level else best_priority)

unfoldable pub best_source : PlicState → ℕ → ℕ
best_source p context =
    best_from p.priority (get_or p.threshold context 0) (candidates p context) (nr_sources - 1) 1 0
      0

-- `plic_reserve_phandle`, for the handle that the device tree builder gives.
unfoldable pub reserve_phandle : PlicState → ℕ → PlicState
reserve_phandle p handle = record p { phandle = handle }

-- PLIC_CONTEXT_MACHINE and PLIC_CONTEXT_SUPERVISOR.
abbrev pub context_machine : ℕ → ℕ
context_machine hart_id = hart_id * contexts_per_hart + 0

abbrev pub context_supervisor : ℕ → ℕ
context_supervisor hart_id = hart_id * contexts_per_hart + 1

unfoldable pub refresh_pending : PlicState → Hart → Hart
refresh_pending p h =
    let mei = not (best_source p (context_machine h.hart_id) == 0) in
    let sei = not (best_source p (context_supervisor h.hart_id) == 0) in
    record h { ipending = assign_bit (assign_bit h.ipending 11 mei) 9 sei }

unfoldable pub claim : PlicState → ℕ → ℕ × PlicState
claim p context =
    let source = best_source p context in
    if source == 0 then (source, p) else (source, record p { claimed = set_bit p.claimed source })

-- The context is not used by `plic_complete`.
unfoldable pub complete : PlicState → ℕ → ℕ → PlicState
complete p context source = if source == 0 || leb nr_sources source then p else record p {
  claimed = clear_bit p.claimed source;
  pending =
      if test_bit p.asserted source then set_bit p.pending source else clear_bit p.pending source;
}

-- A load by the guest; a load of the claim register changes the state.
unfoldable pub mmio_read : PlicState → ℕ → ℕ → ℕ × PlicState
mmio_read p addr access_size =
    let offset = u32 (sub64 addr p.base) in
    if ltb offset (4 * nr_sources)
    then (get_or p.priority (offset / 4) 0, p)
    else if leb reg_pending_base offset && ltb offset reg_enable_base
    then (if offset == reg_pending_base then p.pending else 0, p)
    else if leb reg_enable_base offset && ltb offset reg_context_base
    then (let context = (offset - reg_enable_base) / reg_enable_stride in
        let word = (offset - reg_enable_base) % reg_enable_stride / 4 in
        (if ltb context p.nr_contexts && word == 0 then get_or p.enable context 0 else 0, p))
    else if leb reg_context_base offset
    then (let context = (offset - reg_context_base) / reg_context_stride in
        let reg = (offset - reg_context_base) % reg_context_stride in
        if ltb context p.nr_contexts
        then (if reg == reg_context_threshold
            then (get_or p.threshold context 0, p)
            else if reg == reg_context_claim
            then claim p context
            else (0, p))
        else (0, p))
    else (0, p)

-- A store by the guest: the fields hold 32 bits of the value.
unfoldable pub mmio_write : PlicState → ℕ → ℕ → ℕ → PlicState
mmio_write p addr access_size value =
    let offset = u32 (sub64 addr p.base) in
    if ltb offset (4 * nr_sources)
    then (if offset / 4 == 0
        then p
        else record p { priority = set p.priority (offset / 4) (u32 value) })
    else if leb reg_pending_base offset && ltb offset reg_enable_base
    then p
    else if leb reg_enable_base offset && ltb offset reg_context_base
    then (let context = (offset - reg_enable_base) / reg_enable_stride in
        let word = (offset - reg_enable_base) % reg_enable_stride / 4 in
        if ltb context p.nr_contexts && word == 0
        then record p { enable = set p.enable context (u32 value) }
        else p)
    else if leb reg_context_base offset
    then (let context = (offset - reg_context_base) / reg_context_stride in
        let reg = (offset - reg_context_base) % reg_context_stride in
        if ltb context p.nr_contexts
        then (if reg == reg_context_threshold
            then record p { threshold = set p.threshold context (u32 value) }
            else if reg == reg_context_claim
            then complete p context (u32 value)
            else p)
        else p)
    else p
