-- ===== src/Emit/Prefetch/Terminates.antt =====
-- The loop that translates a unit ends.
use zelda_riscv_emulator.Base.{
  ℕ, zero, suc, ◌+◌, ◌<◌, ◌≡◌, ◌≢◌, inl, inr, Bool, true, false, Option, none, some, arith, refl,
  ◌∙◌, sym,
}
use zelda_riscv_emulator.Translation.{PrefetchBlob}
use zelda_riscv_emulator.Translation.Progress.{remaining, Progresses, translate-Progresses}
use zelda_riscv_emulator.Translation.Cache.{
  Layout, Item, TranslationCache, search_translation_item, max_instructions_totranslate,
}
use zelda_riscv_emulator.Emit.Translators.{prefetch_one_instruction}
use zelda_riscv_emulator.Emit.Prefetch.{
  Prefetched, finished, leaves, out_of_fuel, prefetch_loop, initial_blob, settle,
  prefetch_instructions,
}
use zelda_riscv_emulator.Emit.Prefetch.OneBlock.{WritesBlock, prefetch_one_instruction-WritesBlock}

step-Progresses :
    (layout : Layout) (fetch : ℕ → Option ℕ) (blob next : PrefetchBlob)
    → prefetch_one_instruction layout fetch blob ≡ some next
    → Progresses blob next
unfolding WritesBlock
step-Progresses layout fetch blob next e =
    elim (prefetch_one_instruction-WritesBlock layout blob fetch) [
      | inl refused ↦ absurd (ground (arith, e, refused))
      | inr (block, then_do, writes) ↦
          translate-Progresses layout block then_do blob next (sym writes ∙ e)
    ]

-- How a run of the loop ends, when it does.
unfoldable pub Ends : Prefetched → Type 0
Ends result = result ≢ out_of_fuel

prefetch_loop-Ends :
    (fuel : ℕ) (layout : Layout) (fetch : ℕ → Option ℕ) (blob : PrefetchBlob)
    → remaining blob < fuel
    → Ends (prefetch_loop fuel layout fetch blob)
unfolding prefetch_loop Ends
prefetch_loop-Ends zero layout fetch blob enough = absurd (omega (arith, enough))
prefetch_loop-Ends (suc fuel) layout fetch blob enough =
    by_search (search_translation_item blob.opaque blob.next_instruction_to_fetch) refl
      (λ next less. prefetch_loop-Ends fuel layout fetch next less)
  where
    Again : Type 0
    Again =
        (next : PrefetchBlob) → remaining next < fuel → Ends (prefetch_loop fuel layout fetch next)

    by_stop :
        (next : PrefetchBlob) (stop : Bool)
        → search_translation_item blob.opaque blob.next_instruction_to_fetch ≡ some none
        → prefetch_one_instruction layout fetch blob ≡ some next
        → next.is_to_stop ≡ stop
        → Again
        → Ends (prefetch_loop (suc fuel) layout fetch blob)
    by_stop next true e f s again = λ g. ground (arith, e, f, s, g)
    by_stop next false e f s again = elim (step-Progresses layout fetch blob next f) [
      | inl stops ↦ absurd (ground (arith, s, stops))
      | inr less ↦ rw (prefetch_loop, e, f, s) (again next (omega (arith, less, enough)))
    ]

    by_step :
        (o : Option PrefetchBlob)
        → search_translation_item blob.opaque blob.next_instruction_to_fetch ≡ some none
        → prefetch_one_instruction layout fetch blob ≡ o
        → Again
        → Ends (prefetch_loop (suc fuel) layout fetch blob)
    by_step none e f again = λ g. ground (arith, e, f, g)
    by_step (some next) e f again = by_stop next next.is_to_stop e f refl again

    by_search :
        (found : Option (Option Item))
        → search_translation_item blob.opaque blob.next_instruction_to_fetch ≡ found
        → Again
        → Ends (prefetch_loop (suc fuel) layout fetch blob)
    by_search none e again = λ g. ground (arith, e, g)
    by_search (some none) e again =
        by_step (prefetch_one_instruction layout fetch blob) e refl again
    by_search (some (some item)) e again = λ g. ground (arith, e, g)

-- Whatever the instructions are, the translation of a unit returns: with a cache, after a jump, an
-- instruction that is there already, a full cache, or an exception or assertion. The loop runs at most
-- 4098 times.
pub prefetch_instructions-Terminates :
    (layout : Layout) (fetch : ℕ → Option ℕ) (pc : ℕ) (cache : TranslationCache)
    → (after : TranslationCache) × (prefetch_instructions layout fetch pc cache ≡ some after)
unfolding prefetch_instructions Ends remaining
prefetch_instructions-Terminates layout fetch pc cache =
    by_result
      (prefetch_loop (max_instructions_totranslate + 2) layout fetch (initial_blob pc cache))
      (prefetch_loop-Ends (max_instructions_totranslate + 2) layout fetch (initial_blob pc cache)
        (omega arith))
  where
    by_result :
        (result : Prefetched)
        → Ends result
        → (after : TranslationCache) × (settle layout cache result ≡ some after)
    by_result (finished blob) ends = (_, refl)
    by_result (leaves blob) ends = (_, refl)
    by_result out_of_fuel ends = absurd (ends refl)
