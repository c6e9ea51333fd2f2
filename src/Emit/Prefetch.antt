-- ===== src/Emit/Prefetch.antt =====
-- vmm/translation.c: the loop that translates a unit.
pub mod OneBlock
pub mod Terminates
use zelda_riscv_emulator.Base.{
  ℕ, zero, suc, ◌+◌, ◌==◌, Bool, true, false, if◌then◌else◌, Option, none, some,
}
use zelda_riscv_emulator.Translation.{PrefetchBlob}
use zelda_riscv_emulator.Translation.Cache.{
  Layout, Item, TranslationCache, search_translation_item, max_instructions_totranslate,
}
use zelda_riscv_emulator.Emit.Translators.{prefetch_one_instruction}

-- How the loop ends: it stops, the fetch or a translator does not return, or there is no fuel.
pub data Prefetched : Type 0 where
  finished leaves : PrefetchBlob → Prefetched
  out_of_fuel : Prefetched

unfoldable pub prefetch_loop : ℕ → Layout → (ℕ → Option ℕ) → PrefetchBlob → Prefetched
unfolding prefetch_one_instruction
prefetch_loop zero layout fetch blob = out_of_fuel
prefetch_loop (suc fuel) layout fetch blob =
    elim (search_translation_item blob.opaque blob.next_instruction_to_fetch) [
      | none ↦ leaves blob
      | some (some item) ↦ finished blob
      | some none ↦ elim (prefetch_one_instruction layout fetch blob) [
        | none ↦ leaves blob
        | some next ↦ elim next.is_to_stop [
          | true ↦ finished next
          | false ↦ prefetch_loop fuel layout fetch next
        ]
      ]
    ]

-- The jumper behind the unit, when the cache has changed; it only leads to the emulator.
abbrev with_jumper : Layout → ℕ → TranslationCache → TranslationCache
with_jumper layout old_trans_ptr cache =
    if old_trans_ptr == cache.translation_cache_ptr
    then cache
    else record cache { translation_cache_ptr = cache.translation_cache_ptr + layout.jumper_size }

abbrev pub initial_blob : ℕ → TranslationCache → PrefetchBlob
initial_blob pc cache = record {
  next_instruction_to_fetch = pc;
  is_to_stop = false;
  is_flushable = true;
  opaque = cache;
}

-- The cache behind the loop. The jumper is only written when the loop has stopped.
abbrev pub settle : Layout → TranslationCache → Prefetched → Option TranslationCache
settle layout cache out_of_fuel = none
settle layout cache (leaves blob) = some blob.opaque
settle layout cache (finished blob) =
    some (with_jumper layout cache.translation_cache_ptr blob.opaque)

-- The fuel is the number of the instructions that the cache can hold, and two more.
unfoldable pub prefetch_instructions :
    Layout → (ℕ → Option ℕ) → ℕ → TranslationCache → Option TranslationCache
unfolding prefetch_loop
prefetch_instructions layout fetch pc cache =
    settle layout cache
      (prefetch_loop (max_instructions_totranslate + 2) layout fetch (initial_blob pc cache))
