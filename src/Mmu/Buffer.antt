-- ===== src/Mmu/Buffer.antt =====
-- The translation lookaside buffer: its slots, and looking up what has just been put in.
use zelda_riscv_emulator.Base.{
  ℕ, ◌-◌, ◌/◌, ◌^◌, ◌<◌, ◌≡◌, true, false, none, some, List, length, get_or, set, arith,
  bit_and_mask, pow-lt, get_or-set_self, get_or-set_ne, bit_and, ap, sub32,
}
use native.Mathlib.Decide.{ℕ_discrete}
use native.Mathlib.Nat.{mod-lt, one-le-pow}
use zelda_riscv_emulator.Hart.{TlbEntry}
use zelda_riscv_emulator.Mmu.{no_entry, slot_4k, slot_4m, va_to_tlb_entry}

-- The buffer has as many entries as its capacity, which is a power of two.
pub record IsBuffer (tlb : List TlbEntry) (tlb_cap : ℕ) : Type 0 where
  pub bits : ℕ
  pub word : bits < 32
  pub capacity : tlb_cap ≡ 2 ^ bits
  pub full : length tlb ≡ tlb_cap

pub slot-lt :
    (tlb : List TlbEntry) (tlb_cap x : ℕ)
    → IsBuffer tlb tlb_cap
    → bit_and x (sub32 tlb_cap 1) < length tlb
slot-lt tlb tlb_cap x b =
    rw (b.full, b.capacity) (rw (mask, bit_and_mask b.bits x) (mod-lt x positive))
  where
    positive : 0 < 2 ^ b.bits
    positive = omega (arith, one-le-pow b.bits 2 (omega arith))

    mask : sub32 (2 ^ b.bits) 1 ≡ 2 ^ b.bits - 1
    mask = ground (arith, pow-lt b.bits b.word, one-le-pow b.bits 2)

-- Both slots of an address are free: the lookup misses.
miss_4k :
    (tlb : List TlbEntry) (tlb_cap va : ℕ)
    → va_to_tlb_entry tlb tlb_cap va ≡ none
    → (get_or tlb (slot_4k tlb_cap va) no_entry).entry_valid ≡ false
unfolding va_to_tlb_entry
miss_4k tlb tlb_cap va miss = ground arith

pub lookup-set_4k :
    (tlb : List TlbEntry) (tlb_cap va : ℕ) (entry : TlbEntry)
    → IsBuffer tlb tlb_cap
    → entry.entry_valid ≡ true
    → va_to_tlb_entry (set tlb (slot_4k tlb_cap va) entry) tlb_cap va ≡ some entry
unfolding va_to_tlb_entry slot_4k
lookup-set_4k tlb tlb_cap va entry b valid = ground (
  arith,
  valid,
  get_or-set_self tlb (slot_4k tlb_cap va) entry no_entry (slot-lt tlb tlb_cap (va / 2 ^ 12) b),
)

pub lookup-set_4m :
    (tlb : List TlbEntry) (tlb_cap va : ℕ) (entry : TlbEntry)
    → IsBuffer tlb tlb_cap
    → entry.entry_valid ≡ true
    → va_to_tlb_entry tlb tlb_cap va ≡ none
    → va_to_tlb_entry (set tlb (slot_4m tlb_cap va) entry) tlb_cap va ≡ some entry
unfolding va_to_tlb_entry
lookup-set_4m tlb tlb_cap va entry b valid miss =
    elim (ℕ_discrete (slot_4m tlb_cap va) (slot_4k tlb_cap va)) [
      | yes same ↦ ground (
        arith,
        valid,
        here,
        ap (λ i. get_or (set tlb (slot_4m tlb_cap va) entry) i no_entry) same,
      )
      | no other ↦ ground (
        arith,
        valid,
        here,
        miss_4k tlb tlb_cap va miss,
        get_or-set_ne tlb (slot_4m tlb_cap va) (slot_4k tlb_cap va) entry no_entry other,
      )
    ]
  where
    fits : slot_4m tlb_cap va < length tlb
    fits = unfold slot_4m in slot-lt tlb tlb_cap (va / 2 ^ 22) b

    here : get_or (set tlb (slot_4m tlb_cap va) entry) (slot_4m tlb_cap va) no_entry ≡ entry
    here = get_or-set_self tlb (slot_4m tlb_cap va) entry no_entry fits
