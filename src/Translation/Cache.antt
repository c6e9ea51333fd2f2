-- ===== src/Translation/Cache.antt =====
-- vmm/hart.h, vmm/hart.c and vmm/sort.h: the translation cache of a hart, its mapping array, and the
-- insertion that keeps the array in order. What lies behind the entries in use is written before it is
-- read, so the array is cut there.
use zelda_riscv_emulator.Base.{
  ℕ, zero, suc, ◌+◌, ◌-◌, ◌*◌, ◌/◌, ◌^◌, Bool, true, false, ◌||◌, ◌==◌, ltb, leb, if◌then◌else◌,
  Option, none, some, List, [], ◌∷◌, ◌++◌, length, get_or, set, sub32, update,
}
use zelda_riscv_emulator.Region.{Comparison, below, within, above}
use zelda_riscv_emulator.Region.Search.{search}
use zelda_riscv_emulator.Host.{Instr}

-- The code of a block and the words that its parameters hold.
pub record Block : Type 0 where
  pub code : List Instr
  pub params : List ℕ

-- `struct program_counter_mapping_item`.
pub record Item : Type 0 where
  pub guest_pc : ℕ
  pub tc_offset : ℕ

-- The fields of `struct hart` that concern the cache, with the memory that they point to.
pub record TranslationCache : Type 0 where
  pub nr_translated_instructions : ℕ
  pub translation_cache_ptr : ℕ
  pub pc_mappings : List Item
  pub blocks : ℕ → Option Block

-- The bytes of a block (TRANSLATION_SIZE), and those of the jumper behind a translation unit.
pub record Layout : Type 0 where
  pub block_size : Block → ℕ
  pub jumper_size : ℕ

abbrev pub translation_cache_size : ℕ
translation_cache_size = 1024 * 512

abbrev pub max_instructions_totranslate : ℕ
max_instructions_totranslate = 4096

-- `flush_translation_cache`.
unfoldable pub flush : TranslationCache → TranslationCache
flush cache = record cache {
  nr_translated_instructions = 0;
  translation_cache_ptr = 0;
  pc_mappings = [];
}

-- `unoccupied_cache_size(hart) < size`, where the left side can be negative.
unfoldable pub unoccupied_cache_size_lt : Layout → TranslationCache → ℕ → Bool
unoccupied_cache_size_lt layout cache size =
    if ltb cache.nr_translated_instructions max_instructions_totranslate
    then ltb translation_cache_size (cache.translation_cache_ptr + layout.jumper_size + size)
    else ltb 0 size

-- `comparing_mapping_item`: the sign of a difference of 32 bits.
unfoldable pub comparing_mapping_item : Item → Item → Comparison
comparing_mapping_item a b =
    let difference = sub32 a.guest_pc b.guest_pc in
    if difference == 0 then within else if leb (2 ^ 31) difference then below else above

abbrev pub le_zero : Comparison → Bool
le_zero below = true
le_zero within = true
le_zero above = false

abbrev pub lt_zero : Comparison → Bool
lt_zero below = true
lt_zero within = false
lt_zero above = false

-- The search of INSERTION_SORT for `__idx_move`, among the elements before the last one.
unfoldable pub insertion_loop : ℕ → List Item → Item → ℕ → ℕ → ℕ
insertion_loop zero base target idx_low idx_high = 0
insertion_loop (suc fuel) base target idx_low idx_high =
    let idx_mid = (idx_low + idx_high) / 2 in
    let before = lt_zero (comparing_mapping_item target (get_or base idx_mid target)) in
    let next =
      insertion_loop fuel base target (if before then idx_low else idx_mid)
        (if before then idx_mid else idx_high) in
    if le_zero (comparing_mapping_item target (get_or base idx_low target))
    then idx_low
    else if le_zero (comparing_mapping_item (get_or base idx_high target) target)
    then idx_high + 1
    else if idx_mid == idx_low || idx_mid == idx_high
    then idx_mid + 1
    else next

unfoldable pub insertion_index : List Item → Item → ℕ
insertion_index base target =
    if length base == 0 then 0 else insertion_loop (length base) base target 0 (length base - 1)

-- The elements from `__idx_move` on move up by one, from the last one down: `left` of them.
unfoldable pub move_up : ℕ → ℕ → Item → List Item → List Item
move_up zero idx d base = base
move_up (suc left) idx d base = move_up left (idx - 1) d (set base idx (get_or base (idx - 1) d))

-- INSERTION_SORT of an array whose last element is the one to insert.
unfoldable pub insertion_sort : List Item → Item → List Item
insertion_sort base target =
    let move = insertion_index base target in
    set (move_up (length base - move) (length base) target (base ++ target ∷ [])) move target

-- The results 0, -1 and -2.
pub data Added : Type 0 where
  added : TranslationCache → Added
  no_room no_slot : Added

unfoldable pub add_translation_item : Layout → TranslationCache → ℕ → Block → Added
unfolding unoccupied_cache_size_lt insertion_sort
add_translation_item layout cache address block =
    if unoccupied_cache_size_lt layout cache (layout.block_size block)
    then no_room
    else if leb max_instructions_totranslate cache.nr_translated_instructions
    then no_slot
    else let item : Item = record { guest_pc = address; tc_offset = cache.translation_cache_ptr } in
      added (record {
        nr_translated_instructions = cache.nr_translated_instructions + 1;
        translation_cache_ptr = cache.translation_cache_ptr + layout.block_size block;
        pc_mappings = insertion_sort cache.pc_mappings item;
        blocks = update cache.blocks cache.translation_cache_ptr (some block);
      })

unfoldable pub search_translation_item : TranslationCache → ℕ → Option (Option Item)
search_translation_item cache address =
    search (λ a b. some (comparing_mapping_item a b)) cache.pc_mappings
      (record { guest_pc = address; tc_offset = 0 })

-- The parameters are written at the end of the block at an offset.
unfoldable pub set_params : ℕ → List ℕ → TranslationCache → TranslationCache
set_params offset params cache = record cache {
  blocks = update cache.blocks offset (elim (cache.blocks offset) [
    | none ↦ none
    | some block ↦ some (record block { params = params })
  ]);
}
