-- ===== src/Translation/Progress.antt =====
-- How far a translator brings the translation of a unit.
use zelda_riscv_emulator.Base.{
  ℕ, ◌+◌, ◌-◌, ◌<◌, ◌≡◌, ◌⊎◌, inl, inr, true, false, if◌then◌else◌, Option, none, some, arith, refl,
  Bool-cases, ◌∙◌,
}
use zelda_riscv_emulator.Translation.{
  PrefetchBlob, Precheck, proceeds, returns, precheck_translation_cache, committed,
  commit_translation, Follow, advance, stop, after_commit, after_precheck, translate,
}
use zelda_riscv_emulator.Translation.Cache.{
  Block, Layout, Item, TranslationCache, Added, added, no_room, no_slot, flush,
  add_translation_item, search_translation_item, set_params, max_instructions_totranslate,
}

-- A bound on the blocks that the unit can still get.
unfoldable pub remaining : PrefetchBlob → ℕ
remaining blob =
    if blob.is_flushable
    then max_instructions_totranslate + 1
    else max_instructions_totranslate - blob.opaque.nr_translated_instructions

-- The translation stops, or less is left to do.
abbrev pub Progresses : PrefetchBlob → PrefetchBlob → Type 0
Progresses blob next = (next.is_to_stop ≡ true) ⊎ (remaining next < remaining blob)

-- A block was committed: the array had a slot, and has an entry more.
abbrev Commits : TranslationCache → TranslationCache → Type 0
Commits cache after =
    (cache.nr_translated_instructions < max_instructions_totranslate)
    × (after.nr_translated_instructions ≡ cache.nr_translated_instructions + 1)

added-Commits :
    (layout : Layout) (cache after : TranslationCache) (address : ℕ) (block : Block)
    → add_translation_item layout cache address block ≡ added after
    → Commits cache after
unfolding add_translation_item
added-Commits layout cache after address block e = (ground (arith, e), ground (arith, e))

committed-lem :
    (address : ℕ) (block : Block) (result : Added) (after : TranslationCache)
    → committed address block result ≡ some after
    → (c : TranslationCache) × (result ≡ added c)
      × (after.nr_translated_instructions ≡ c.nr_translated_instructions)
unfolding committed set_params
committed-lem address block no_room after e = absurd (ground (arith, e))
committed-lem address block no_slot after e = absurd (ground (arith, e))
committed-lem address block (added cache) after e =
    (cache, refl, by_item (search_translation_item cache address) refl)
  where
    by_item :
        (found : Option (Option Item))
        → search_translation_item cache address ≡ found
        → after.nr_translated_instructions ≡ cache.nr_translated_instructions
    by_item none f = absurd (ground (arith, e, f))
    by_item (some none) f = absurd (ground (arith, e, f))
    by_item (some (some item)) f = ground (arith, e, f)

commit_translation-Commits :
    (layout : Layout) (block : Block) (address : ℕ) (cache after : TranslationCache)
    → commit_translation layout block address cache ≡ some after
    → Commits cache after
unfolding commit_translation
commit_translation-Commits layout block address cache after e =
    let (c, adds, same) =
      committed-lem address block (add_translation_item layout cache address block) after e in
    let (slot, more) = added-Commits layout cache c address block adds in (slot, same ∙ more)

after_commit-lem :
    (then_do : Follow) (blob next : PrefetchBlob) (cache : TranslationCache)
    → after_commit then_do blob (some cache) ≡ some next
    → (next.is_flushable ≡ blob.is_flushable)
      × (next.opaque.nr_translated_instructions ≡ cache.nr_translated_instructions)
unfolding after_commit
after_commit-lem advance blob next cache e = (ground (arith, e), ground (arith, e))
after_commit-lem stop blob next cache e = (ground (arith, e), ground (arith, e))

commit-Progresses :
    (layout : Layout) (block : Block) (then_do : Follow) (blob next : PrefetchBlob)
    → blob.is_flushable ≡ false
    → after_commit then_do blob
        (commit_translation layout block blob.next_instruction_to_fetch blob.opaque)
      ≡ some next
    → (blob.opaque.nr_translated_instructions < max_instructions_totranslate)
      × (next.is_flushable ≡ false)
      × (next.opaque.nr_translated_instructions ≡ blob.opaque.nr_translated_instructions + 1)
unfolding after_commit
commit-Progresses layout block then_do blob next off e =
    by_cache (commit_translation layout block blob.next_instruction_to_fetch blob.opaque) refl
  where
    by_cache :
        (o : Option TranslationCache)
        → commit_translation layout block blob.next_instruction_to_fetch blob.opaque ≡ o
        → (blob.opaque.nr_translated_instructions < max_instructions_totranslate)
          × (next.is_flushable ≡ false)
          × (next.opaque.nr_translated_instructions ≡ blob.opaque.nr_translated_instructions + 1)
    by_cache none f = absurd (ground (arith, e, f))
    by_cache (some cache) f =
        let (slot, more) =
          commit_translation-Commits layout block blob.next_instruction_to_fetch blob.opaque cache
            f in
        let (same, count) = after_commit-lem then_do blob next cache (rw f at e) in
        (slot, same ∙ off, count ∙ more)

precheck-returns :
    (layout : Layout) (block : Block) (blob b : PrefetchBlob)
    → precheck_translation_cache layout block blob ≡ returns b
    → b.is_to_stop ≡ true
unfolding precheck_translation_cache
precheck-returns layout block blob b e = ground (arith, e)

precheck-proceeds :
    (layout : Layout) (block : Block) (blob b : PrefetchBlob)
    → precheck_translation_cache layout block blob ≡ proceeds b
    → (b.is_flushable ≡ false)
      × ((blob.is_flushable ≡ true)
          ⊎ (b.opaque.nr_translated_instructions ≡ blob.opaque.nr_translated_instructions))
unfolding precheck_translation_cache flush
precheck-proceeds layout block blob b e = elim (Bool-cases blob.is_flushable) [
  | inl on ↦ (ground (arith, e), inl on)
  | inr off ↦ (ground (arith, e), inr (ground (arith, e, off)))
]

-- Each translator that does not stop the unit leaves less to do.
pub translate-Progresses :
    (layout : Layout) (block : Block) (then_do : Follow) (blob next : PrefetchBlob)
    → translate layout block then_do blob ≡ some next
    → Progresses blob next
unfolding translate after_precheck remaining
translate-Progresses layout block then_do blob next e =
    by_precheck (precheck_translation_cache layout block blob) refl
  where
    less :
        (b : PrefetchBlob)
        → b.opaque.nr_translated_instructions < max_instructions_totranslate
        → next.is_flushable ≡ false
        → next.opaque.nr_translated_instructions ≡ b.opaque.nr_translated_instructions + 1
        → (blob.is_flushable ≡ true)
          ⊎ (b.opaque.nr_translated_instructions ≡ blob.opaque.nr_translated_instructions)
        → remaining next < remaining blob
    less b slot still more (inl on) = rw (remaining, still, on) (omega (arith, slot, more))
    less b slot still more (inr same) = elim (Bool-cases blob.is_flushable) [
      | inl on ↦ rw (remaining, still, on) (omega (arith, slot, more))
      | inr off ↦ rw (remaining, still, off) (omega (arith, slot, more, same))
    ]

    by_precheck :
        (p : Precheck) → precheck_translation_cache layout block blob ≡ p → Progresses blob next
    by_precheck (returns b) f =
        inl ground (arith, precheck-returns layout block blob b f, rw f at e)
    by_precheck (proceeds b) f =
        let (off, count) = precheck-proceeds layout block blob b f in
        let (slot, still, more) = commit-Progresses layout block then_do b next off (rw f at e) in
        inr (less b slot still more count)
