-- ===== src/Emit/Amo.antt =====
-- vmm/translate_amo.c: the slow paths of the AMO instructions, and the block that calls them.
pub mod ReadModifyWrite
pub mod Search
pub mod Reservations
mod Tests
use zelda_riscv_emulator.Base.{
  ℕ, ◌+◌, ◌/◌, ◌%◌, ◌^◌, ◌==◌, ◌&&◌, ◌||◌, Bool, true, false, if◌then◌else◌, Option, none, some,
  List, [], ◌∷◌, get_or, set, u32, bit_and, bit_or, bit_xor,
}
use zelda_riscv_emulator.Host.{Callback, movq_r12, movl_param, call_saved, proceed}
use zelda_riscv_emulator.Host.State.{rcx, rdx, rsi, rdi, r8}
use zelda_riscv_emulator.Decode.{Decoding, instruction_decoding_per_type, type_r}
use zelda_riscv_emulator.Translation.{PrefetchBlob, translate, advance}
use zelda_riscv_emulator.Translation.Cache.{Block, Layout}
use zelda_riscv_emulator.Emit.Block.{Translator}

-- What a memory access or a slow path does: it returns, or it raises an exception in some state.
pub data Accessed (S A : Type 0) : Type 0 where
  returned : A → Accessed S A
  excepted : S → Accessed S A

-- The accesses of mmu.c, over the state that they work on.
pub record Accesses (M : Type 0) : Type 0 where
  pub mmu_read32_aligned : ℕ → M → Accessed M (ℕ × M)
  pub mmu_write32_aligned : ℕ → ℕ → M → Accessed M M

-- `struct address_reservation_item`.
pub record Reservation : Type 0 where
  pub addr : ℕ
  pub valid : Bool
  pub hartid : ℕ

abbrev pub max_reservation_items : ℕ
max_reservation_items = 16

-- The registers and `hart_id` of the hart, and the static data of the file.
pub record AmoState (M : Type 0) : Type 0 where
  pub registers : List ℕ
  pub hart_id : ℕ
  pub memory : M
  pub reservations : List Reservation
  pub next_pointer : ℕ

abbrev pub Slow : Type 0 → Type 0
Slow M = Accessed (AmoState M) (AmoState M)

-- `memset(reservations, 0x0, sizeof(reservations))`.
abbrev pub no_reservation : Reservation
no_reservation = record { addr = 0; valid = false; hartid = 0 }

abbrev pub reg : {M : Type 0} → AmoState M → ℕ → ℕ
reg s index = get_or s.registers index 0

abbrev pub set_register : {M : Type 0} → ℕ → ℕ → AmoState M → AmoState M
set_register index v s = record s { registers = set s.registers index v }

-- The first item without a valid reservation; `next_pointer` keeps its value when there is none.
pub first_invalid : ℕ → ℕ → List Reservation → ℕ
first_invalid next_pointer idx [] = next_pointer
first_invalid next_pointer idx (item ∷ rest) =
    if item.valid then first_invalid next_pointer (1 + idx) rest else idx

-- Whether an item is a valid reservation of the hart for an address.
abbrev pub holds_for : ℕ → ℕ → Reservation → Bool
holds_for hart_id rs1 item = item.valid && item.addr == rs1 && item.hartid == hart_id

-- The index of the first such item.
pub find_reservation : ℕ → ℕ → ℕ → List Reservation → Option ℕ
find_reservation hart_id rs1 idx [] = none
find_reservation hart_id rs1 idx (item ∷ rest) =
    if holds_for hart_id rs1 item then some idx else find_reservation hart_id rs1 (1 + idx) rest

abbrev pub invalidate : ℕ → List Reservation → List Reservation
invalidate idx items = set items idx (record (get_or items idx no_reservation) { valid = false })

module _ {M : Type 0} (mmu : Accesses M) where
  -- `regs[rd_index] = mmu_read32_aligned(hartptr, rs1)`, and what follows. An exception leaves the
  -- slow path, with the state as it is.
  read_register : ℕ → ℕ → (AmoState M → Slow M) → AmoState M → Slow M
  read_register rd_index rs1 rest s = elim (mmu.mmu_read32_aligned rs1 s.memory) [
    | excepted m ↦ excepted (record s { memory = m })
    | returned (v, m) ↦ rest (set_register rd_index v (record s { memory = m }))
  ]

  write_memory : ℕ → ℕ → AmoState M → Slow M
  write_memory rs1 v s = elim (mmu.mmu_write32_aligned rs1 v s.memory) [
    | excepted m ↦ excepted (record s { memory = m })
    | returned m ↦ returned (record s { memory = m })
  ]

  unfoldable pub amoadd_slowpath : ℕ → ℕ → ℕ → AmoState M → Slow M
  unfolding read_register write_memory
  amoadd_slowpath rs1_index rs2_index rd_index s =
      let rs1 = reg s rs1_index in
      let rs2 = reg s rs2_index in
      read_register rd_index rs1 (λ t. write_memory rs1 (u32 (reg t rd_index + rs2)) t) s

  unfoldable pub amoswap_slowpath : ℕ → ℕ → ℕ → AmoState M → Slow M
  unfolding read_register write_memory
  amoswap_slowpath rs1_index rs2_index rd_index s =
      let rs1 = reg s rs1_index in
      let rs2 = reg s rs2_index in read_register rd_index rs1 (λ t. write_memory rs1 rs2 t) s

  unfoldable pub amoxor_slowpath : ℕ → ℕ → ℕ → AmoState M → Slow M
  unfolding read_register write_memory
  amoxor_slowpath rs1_index rs2_index rd_index s =
      let rs1 = reg s rs1_index in
      let rs2 = reg s rs2_index in
      read_register rd_index rs1 (λ t. write_memory rs1 (bit_xor (reg t rd_index) rs2) t) s

  unfoldable pub amoor_slowpath : ℕ → ℕ → ℕ → AmoState M → Slow M
  unfolding read_register write_memory
  amoor_slowpath rs1_index rs2_index rd_index s =
      let rs1 = reg s rs1_index in
      let rs2 = reg s rs2_index in
      read_register rd_index rs1 (λ t. write_memory rs1 (bit_or (reg t rd_index) rs2) t) s

  unfoldable pub amoand_slowpath : ℕ → ℕ → ℕ → AmoState M → Slow M
  unfolding read_register write_memory
  amoand_slowpath rs1_index rs2_index rd_index s =
      let rs1 = reg s rs1_index in
      let rs2 = reg s rs2_index in
      read_register rd_index rs1 (λ t. write_memory rs1 (bit_and (reg t rd_index) rs2) t) s

  -- A reservation of the address `rs1`.
  reserve : ℕ → AmoState M → AmoState M
  unfolding first_invalid
  reserve rs1 s =
      let at = first_invalid s.next_pointer 0 s.reservations in
      record s {
        reservations =
            set s.reservations at (record { addr = rs1; valid = true; hartid = s.hart_id % 2 ^ 8 });
        next_pointer = (at + 1) % max_reservation_items;
      }

  unfoldable pub lr_slowpath : ℕ → ℕ → ℕ → AmoState M → Slow M
  unfolding read_register reserve
  lr_slowpath rs1_index rs2_index rd_index s =
      let rs1 = reg s rs1_index in read_register rd_index rs1 (λ t. returned (reserve rs1 t)) s

  clear_reservation : ℕ → Slow M → Slow M
  clear_reservation idx (excepted s) = excepted s
  clear_reservation idx (returned s) =
      returned (record s { reservations = invalidate idx s.reservations })

  unfoldable pub sc_slowpath : ℕ → ℕ → ℕ → AmoState M → Slow M
  unfolding write_memory find_reservation clear_reservation
  sc_slowpath rs1_index rs2_index rd_index s =
      let rs1 = reg s rs1_index in
      let rs2 = reg s rs2_index in
      elim (find_reservation s.hart_id rs1 0 s.reservations) [
        | none ↦ returned (set_register rd_index 0x1 s)
        | some idx ↦ clear_reservation idx (write_memory rs1 rs2 (set_register rd_index 0x0 s))
      ]

  -- `none` is `__not_reach()`.
  unfoldable pub amo_instruction_slowpath : ℕ → ℕ → ℕ → ℕ → AmoState M → Option (Slow M)
  unfolding amoadd_slowpath amoswap_slowpath lr_slowpath sc_slowpath amoxor_slowpath amoor_slowpath
      amoand_slowpath
  amo_instruction_slowpath rs1_index rs2_index rd_index funct5 s =
      if funct5 == 0x0
      then some (amoadd_slowpath rs1_index rs2_index rd_index s)
      else if funct5 == 0x1
      then some (amoswap_slowpath rs1_index rs2_index rd_index s)
      else if funct5 == 0x2
      then some (lr_slowpath rs1_index rs2_index rd_index s)
      else if funct5 == 0x3
      then some (sc_slowpath rs1_index rs2_index rd_index s)
      else if funct5 == 0x4
      then some (amoxor_slowpath rs1_index rs2_index rd_index s)
      else if funct5 == 0x8
      then some (amoor_slowpath rs1_index rs2_index rd_index s)
      else if funct5 == 0xc
      then some (amoand_slowpath rs1_index rs2_index rd_index s)
      else none

-- The parameters: the indices of rs1, rs2 and rd, and `funct5`.
unfoldable pub amo_block : Decoding → Block
amo_block dec = record {
  code =
      movq_r12 rdi
      ∷ movl_param 0 rsi
      ∷ movl_param 1 rdx
      ∷ movl_param 2 rcx
      ∷ movl_param 3 r8
      ∷ call_saved Callback.amo_instruction_slowpath
      ∷ proceed;
  params = dec.rs1_index ∷ dec.rs2_index ∷ dec.rd_index ∷ dec.funct7 / 2 ^ 2 ∷ [];
}

-- `per_funct5_handlers`, which has the translator at seven indices.
unfoldable pub is_amo : ℕ → Bool
is_amo funct5 =
    funct5 == 0x0
    || funct5 == 0x1
    || funct5 == 0x2
    || funct5 == 0x3
    || funct5 == 0x4
    || funct5 == 0x8
    || funct5 == 0xc

module _ (layout : Layout) where
  unfoldable pub riscv_amo_translator : Translator
  riscv_amo_translator dec = translate layout (amo_block dec) advance

  unfoldable pub riscv_amo_instructions_translation_entry : PrefetchBlob → ℕ → Option PrefetchBlob
  unfolding riscv_amo_translator is_amo
  riscv_amo_instructions_translation_entry blob instruction =
      elim (instruction_decoding_per_type instruction type_r) [
        | none ↦ none
        | some dec ↦ if is_amo (dec.funct7 / 2 ^ 2) then riscv_amo_translator dec blob else none
      ]
