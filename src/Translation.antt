-- ===== src/Translation.antt =====
-- vmm/translation.h, vmm/hart.h and vmm/hart.c: the translation cache of a hart, and what every
-- translator does around its block. The blocks of the cache are kept as code and parameters by the
-- offset at which they begin; how many bytes the assembler makes of a block is an argument.
pub mod Cache
pub mod Progress
use zelda_riscv_emulator.Base.{
  ℕ, ◌+◌, ◌^◌, ◌*◌, Bool, true, false, ◌==◌, ltb, if◌then◌else◌, Option, none, some, List, u32,
  length,
}
use zelda_riscv_emulator.Host.{Instr}
use zelda_riscv_emulator.Hart.{Hart}
use zelda_riscv_emulator.Translation.Cache.{
  Block, TranslationCache, Layout, add_translation_item, search_translation_item, flush,
  unoccupied_cache_size_lt, set_params, added, no_room, no_slot, Added,
}

pub record PrefetchBlob : Type 0 where
  pub next_instruction_to_fetch : ℕ
  pub is_to_stop : Bool
  pub is_flushable : Bool
  pub opaque : TranslationCache

pub data Precheck : Type 0 where
  proceeds returns : PrefetchBlob → Precheck

-- PRECHECK_TRANSLATION_CACHE: the translator goes on, or returns at once.
unfoldable pub precheck_translation_cache : Layout → Block → PrefetchBlob → Precheck
unfolding unoccupied_cache_size_lt
precheck_translation_cache layout block blob =
    if unoccupied_cache_size_lt layout blob.opaque (layout.block_size block)
    then if blob.is_flushable
      then proceeds (record blob { opaque = flush blob.opaque; is_flushable = false })
      else returns (record blob { is_to_stop = true })
    else proceeds (record blob { is_flushable = false })

committed : ℕ → Block → Added → Option TranslationCache
committed address block no_room = none
committed address block no_slot = none
committed address block (added cache) = elim (search_translation_item cache address) [
  | none ↦ none
  | some none ↦ none
  | some (some item) ↦
      if item.guest_pc == address then some (set_params item.tc_offset block.params cache) else none
]

-- COMMIT_TRANSLATION: `none` is one of its assertions failing.
unfoldable pub commit_translation : Layout → Block → ℕ → TranslationCache → Option TranslationCache
unfolding committed
commit_translation layout block address cache =
    committed address block (add_translation_item layout cache address block)

-- What follows the commit: the next instruction, or the end of the translation unit.
pub data Follow : Type 0 where
  advance stop : Follow

abbrev pub follow : Follow → PrefetchBlob → PrefetchBlob
follow advance blob = record blob {
  next_instruction_to_fetch = u32 (blob.next_instruction_to_fetch + 4);
}
follow stop blob = record blob { is_to_stop = true }

after_commit : Follow → PrefetchBlob → Option TranslationCache → Option PrefetchBlob
after_commit then_do blob none = none
after_commit then_do blob (some cache) = some (follow then_do (record blob { opaque = cache }))

after_precheck : Layout → Block → Follow → Precheck → Option PrefetchBlob
unfolding after_commit
after_precheck layout block then_do (returns blob) = some blob
after_precheck layout block then_do (proceeds blob) =
    after_commit then_do blob
      (commit_translation layout block blob.next_instruction_to_fetch blob.opaque)

-- The body that all translators share.
unfoldable pub translate : Layout → Block → Follow → PrefetchBlob → Option PrefetchBlob
unfolding after_precheck
translate layout block then_do blob =
    after_precheck layout block then_do (precheck_translation_cache layout block blob)
