-- ===== src/Emit/Amo/Reservations.antt =====
-- The reservations of LR and SC.
use zelda_riscv_emulator.Base.{
  ℕ, ◌+◌, ◌^◌, ◌<◌, ◌≡◌, ◌==◌, true, Option, none, some, set, get_or, length, length-set,
  get_or-set_self, u32, bit_and, bit_or, bit_xor, refl, ap, ◌∙◌, arith, if_ind, subst, sym,
}
use zelda_riscv_emulator.Emit.Amo.{
  Accesses, AmoState, Slow, Accessed, no_reservation, holds_for, find_reservation, first_invalid,
  invalidate, returned, excepted, reg, set_register, read_register, write_memory, reserve,
  clear_reservation, lr_slowpath, sc_slowpath, amo_instruction_slowpath, amoadd_slowpath,
  amoswap_slowpath, amoxor_slowpath, amoor_slowpath, amoand_slowpath,
}
use zelda_riscv_emulator.Emit.Amo.Search.{
  IsValid, Reserved, Unreserved, find_first, find_none, first_invalid-lt, left,
}

module _ {M : Type 0} (mmu : Accesses M) where
  reserve-IsValid : (rs1 : ℕ) (s : AmoState M) → IsValid s → IsValid (reserve mmu rs1 s)
  unfolding reserve
  reserve-IsValid rs1 s h = record {
    items = length-set s.reservations _ _ ∙ h.items;
    pointer = omega arith;
  }

  reserve-Reserved :
      (rs1 : ℕ) (s : AmoState M)
      → IsValid s
      → s.hart_id < 2 ^ 8
      → Reserved s.hart_id rs1 (reserve mmu rs1 s).reservations
  unfolding reserve
  reserve-Reserved rs1 s h byte =
      let at : ℕ = first_invalid s.next_pointer 0 s.reservations in
      let small : at < length s.reservations = omega (
        arith,
        first_invalid-lt s.next_pointer 0 s.reservations (omega (arith, h.items, h.pointer)),
      ) in
      (at, rw (get_or-set_self s.reservations at _ no_reservation small) (ground (arith, byte)))

  read_register-IsValid :
      (rd rs1 : ℕ) (rest : AmoState M → Slow M) (s : AmoState M)
      → ((t : AmoState M) → IsValid t → IsValid (left (rest t)))
      → IsValid s
      → IsValid (left (read_register mmu rd rs1 rest s))
  unfolding read_register
  read_register-IsValid rd rs1 rest s keeps h = by_access (mmu.mmu_read32_aligned rs1 s.memory) refl
    where
      by_access :
          (o : Accessed M (ℕ × M))
          → mmu.mmu_read32_aligned rs1 s.memory ≡ o
          → IsValid (left (read_register mmu rd rs1 rest s))
      by_access (excepted m) e =
          rw (read_register, e) (record { items = h.items; pointer = h.pointer })
      by_access (returned (v, m)) e =
          rw (read_register, e) (keeps _ (record { items = h.items; pointer = h.pointer }))

  write_memory-IsValid :
      (rs1 v : ℕ) (s : AmoState M) → IsValid s → IsValid (left (write_memory mmu rs1 v s))
  unfolding write_memory
  write_memory-IsValid rs1 v s h = by_access (mmu.mmu_write32_aligned rs1 v s.memory) refl
    where
      by_access :
          (o : Accessed M M)
          → mmu.mmu_write32_aligned rs1 v s.memory ≡ o
          → IsValid (left (write_memory mmu rs1 v s))
      by_access (excepted m) e =
          rw (write_memory, e) (record { items = h.items; pointer = h.pointer })
      by_access (returned m) e =
          rw (write_memory, e) (record { items = h.items; pointer = h.pointer })

  clear_reservation-IsValid :
      (idx : ℕ) (o : Slow M) → IsValid (left o) → IsValid (left (clear_reservation mmu idx o))
  unfolding clear_reservation
  clear_reservation-IsValid idx (excepted s) h = h
  clear_reservation-IsValid idx (returned s) h = record {
    items = length-set s.reservations idx _ ∙ h.items;
    pointer = h.pointer;
  }

  sc_slowpath-Conditional :
      (rs1_index rs2_index rd_index : ℕ) (s : AmoState M)
      → (Reserved s.hart_id (reg s rs1_index) s.reservations
          → (m : M)
          → mmu.mmu_write32_aligned (reg s rs1_index) (reg s rs2_index) s.memory ≡ returned m
          → (idx : ℕ) × (holds_for s.hart_id
                (reg s rs1_index)
                (get_or s.reservations idx no_reservation)
              ≡ true)
            × (sc_slowpath mmu rs1_index rs2_index rd_index s
                ≡ returned (record s {
                  registers = set s.registers rd_index 0;
                  memory = m;
                  reservations = invalidate idx s.reservations;
                })))
        × (Unreserved s.hart_id (reg s rs1_index) s.reservations
            → sc_slowpath mmu rs1_index rs2_index rd_index s ≡ returned (set_register rd_index 1 s))
  unfolding sc_slowpath
  sc_slowpath-Conditional rs1_index rs2_index rd_index s = (
    λ reserved m e.
        let (idx, found, holds) = find_first s.hart_id (reg s rs1_index) s.reservations reserved in
        (idx, holds, rw (sc_slowpath, found, clear_reservation, write_memory, e) refl),
    λ unreserved.
        rw (sc_slowpath, find_none s.hart_id (reg s rs1_index) 0 s.reservations unreserved) refl,
  )

  sc_slowpath-IsValid :
      (rs1_index rs2_index rd_index : ℕ) (s : AmoState M)
      → IsValid s
      → IsValid (left (sc_slowpath mmu rs1_index rs2_index rd_index s))
  unfolding sc_slowpath
  sc_slowpath-IsValid rs1_index rs2_index rd_index s h =
      by_item (find_reservation s.hart_id (reg s rs1_index) 0 s.reservations) refl
    where
      by_item :
          (o : Option ℕ)
          → find_reservation s.hart_id (reg s rs1_index) 0 s.reservations ≡ o
          → IsValid (left (sc_slowpath mmu rs1_index rs2_index rd_index s))
      by_item none e = rw (sc_slowpath, e) (record { items = h.items; pointer = h.pointer })
      by_item (some idx) e =
          rw (sc_slowpath, e)
            (clear_reservation-IsValid idx
              (write_memory mmu (reg s rs1_index) (reg s rs2_index) (set_register rd_index 0 s))
              (write_memory-IsValid (reg s rs1_index) (reg s rs2_index) (set_register rd_index 0 s)
                (record { items = h.items; pointer = h.pointer })))

  abbrev value_or : Slow M → Option (Slow M) → Slow M
  value_or o none = o
  value_or o (some p) = p

  -- Every slow path, whether it returns or raises an exception, leaves the sixteen reservations and a
  -- pointer to one of them.
  pub amo_instruction_slowpath-IsValid :
      (rs1_index rs2_index rd_index funct5 : ℕ) (s : AmoState M) (outcome : Slow M)
      → IsValid s
      → amo_instruction_slowpath mmu rs1_index rs2_index rd_index funct5 s ≡ some outcome
      → IsValid (left outcome)
  unfolding amo_instruction_slowpath amoadd_slowpath amoswap_slowpath amoxor_slowpath amoor_slowpath
      amoand_slowpath lr_slowpath sc_slowpath
  amo_instruction_slowpath-IsValid rs1_index rs2_index rd_index funct5 s outcome h =
      if_ind P (funct5 == 0x0)
        (λ e. settles _ (amo-IsValid (λ t. u32 (reg t rd_index + reg s rs2_index))))
        (λ e.
          if_ind P (funct5 == 0x1) (λ e. settles _ (amo-IsValid (λ t. reg s rs2_index)))
            (λ e.
              if_ind P (funct5 == 0x2) (λ e. settles _ lr-IsValid)
                (λ e.
                  if_ind P (funct5 == 0x3)
                    (λ e. settles _ (sc_slowpath-IsValid rs1_index rs2_index rd_index s h))
                    (λ e.
                      if_ind P (funct5 == 0x4)
                        (λ e.
                          settles _ (amo-IsValid (λ t. bit_xor (reg t rd_index) (reg s rs2_index))))
                        (λ e.
                          if_ind P (funct5 == 0x8)
                            (λ e.
                              settles _
                                (amo-IsValid (λ t. bit_or (reg t rd_index) (reg s rs2_index))))
                            (λ e.
                              if_ind P (funct5 == 0xc)
                                (λ e.
                                  settles _
                                    (amo-IsValid (λ t. bit_and (reg t rd_index) (reg s rs2_index))))
                                (λ e f. absurd (ground (arith, f)))))))))
    where
      P : Option (Slow M) → Type 0
      P result = result ≡ some outcome → IsValid (left outcome)

      settles : (o : Slow M) → IsValid (left o) → P (some o)
      settles o v e = subst (λ result. IsValid (left (value_or o result))) e v

      amo-IsValid :
          (f : AmoState M → ℕ)
          → IsValid (
              left (
                read_register mmu rd_index
                  (reg s rs1_index)
                  (λ t. write_memory mmu (reg s rs1_index) (f t) t)
                  s))
      amo-IsValid f =
          read_register-IsValid rd_index (reg s rs1_index)
            (λ t. write_memory mmu (reg s rs1_index) (f t) t) s
            (λ t v. write_memory-IsValid (reg s rs1_index) (f t) t v) h

      lr-IsValid : IsValid (left (lr_slowpath mmu rs1_index rs2_index rd_index s))
      lr-IsValid =
          read_register-IsValid rd_index (reg s rs1_index)
            (λ t. returned (reserve mmu (reg s rs1_index) t)) s
            (λ t v. reserve-IsValid (reg s rs1_index) t v) h

  -- After a load-reserved that returns, a store-conditional of the same hart to the same address, with
  -- the reservations as they were left, stores the register, writes zero to its rd and gives up one
  -- reservation of the hart for the address, when the write returns.
  pub sc_slowpath-lr_slowpath :
      (rs1_index rs2_index rd_index address value result : ℕ) (s t u : AmoState M) (old : ℕ)
      (m n : M)
      → IsValid s
      → s.hart_id < 2 ^ 8
      → mmu.mmu_read32_aligned (reg s rs1_index) s.memory ≡ returned (old, m)
      → lr_slowpath mmu rs1_index rs2_index rd_index s ≡ returned t
      → u.reservations ≡ t.reservations
      → u.hart_id ≡ s.hart_id
      → reg u address ≡ reg s rs1_index
      → mmu.mmu_write32_aligned (reg u address) (reg u value) u.memory ≡ returned n
      → (idx : ℕ) × (holds_for u.hart_id (reg u address) (get_or u.reservations idx no_reservation)
          ≡ true)
        × (sc_slowpath mmu address value result u
            ≡ returned (record u {
              registers = set u.registers result 0;
              memory = n;
              reservations = invalidate idx u.reservations;
            }))
  unfolding lr_slowpath read_register
  sc_slowpath-lr_slowpath rs1_index rs2_index rd_index address value result s t u old m n h byte
        reads loads same hart at writes =
      let before : AmoState M = set_register rd_index old (record s { memory = m }) in
      let after : AmoState M = reserve mmu (reg s rs1_index) before in
      let runs : lr_slowpath mmu rs1_index rs2_index rd_index s ≡ returned after =
        rw (lr_slowpath, read_register, reads) refl in
      let is_after : after ≡ t = ap left (sym runs ∙ loads) in
      (sc_slowpath-Conditional address value result u).0
        (rw (same ∙ sym (ap (λ x. x.reservations) is_after), hart, at)
          (reserve-Reserved (reg s rs1_index) before
            (record { items = h.items; pointer = h.pointer }) byte))
        n writes

  -- Without a reservation of the hart for the address, a store-conditional writes one to its rd and
  -- changes neither the memory nor the reservations.
  pub sc_slowpath-Unreserved :
      (rs1_index rs2_index rd_index : ℕ) (s : AmoState M)
      → Unreserved s.hart_id (reg s rs1_index) s.reservations
      → sc_slowpath mmu rs1_index rs2_index rd_index s ≡ returned (set_register rd_index 1 s)
  sc_slowpath-Unreserved rs1_index rs2_index rd_index s =
      (sc_slowpath-Conditional rs1_index rs2_index rd_index s).1
