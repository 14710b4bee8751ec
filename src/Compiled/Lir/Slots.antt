-- ===== src/Compiled/Lir/Slots.antt =====
-- The slot of a store: in a register, or as an address that is still to be patched.
use mmtk_openjdk.Base.{
  ℕ, suc, ◌<◌, ◌≤◌, ◌^◌, ◌≡◌, refl, sym, subst, Bool, none, some, Bool-cases, inl, inr, arith,
}
use mmtk_openjdk.Barriers.Runtime.{Settings}
use mmtk_openjdk.X86.Cpu.{Address, Cpu, set, effective}
use mmtk_openjdk.Compiled.Lir.{Operand, register, constant, address, value_of, lir_step, run}
use mmtk_openjdk.Compiled.Lir.Emit.{has_base_only, slot_in_register, slot_as_address}
use mmtk_openjdk.Compiled.Lir.Perform.{perform}
use mmtk_openjdk.Compiled.Lir.Operands.{
  IsAddressBelow, IsBelow, IsKept, IsKept-refl, IsKept-set, IsBelow-le, value_of-kept,
  effective-same, Loads,
}

-- The slot is in a register or in memory, not a constant, and its register or base holds a word.
abbrev pub IsSlot : Cpu → Operand → Type 0
IsSlot c (register r) = c.registers r < 2 ^ 64
IsSlot c (constant v) = ⊥
IsSlot c (address a) = c.registers a.base < 2 ^ 64

IsSlot-kept :
    {n : ℕ} {c c₁ : Cpu} (o : Operand) → IsBelow n o → IsKept n c c₁ → IsSlot c o → IsSlot c₁ o
IsSlot-kept (register r) b kept h = subst (λ v. v < 2 ^ 64) (sym (kept.registers r b)) h
IsSlot-kept (constant v) b kept h = h
IsSlot-kept (address a) b kept h = subst (λ v. v < 2 ^ 64) (sym (kept.registers a.base b.0)) h

module _ (clobber : (ℕ → ℕ) → ℕ → ℕ) (s : Settings) (is_referent : Bool) where
  slot_in_register_lem :
      (n : ℕ) (c : Cpu) (o : Operand)
      → IsBelow n o
      → IsSlot c o
      → Loads clobber s is_referent (slot_in_register o) n c (value_of o c.registers)
  unfolding slot_in_register perform run lir_step
  slot_in_register_lem n c (register r) h k = (r, n, c, refl, omega arith, h, refl, IsKept-refl n c)
  slot_in_register_lem n c (constant v) h k = absurd k
  slot_in_register_lem n c (address a) h k = elim (Bool-cases (has_base_only a)) [
    | inl plain ↦
        (let v = c.registers a.base in
          (
            n,
            suc n,
            set n v c,
            simp plain refl,
            omega arith,
            omega arith,
            ground arith,
            IsKept-set n v c,
          ))
    | inr other ↦
        (let v = effective a c.registers in
          (
            n,
            suc n,
            set n v c,
            simp other refl,
            omega arith,
            omega arith,
            ground arith,
            IsKept-set n v c,
          ))
  ]

  pub slot_in_register-Loads :
      (n : ℕ) (c : Cpu) (slot : Operand)
      → IsBelow n slot
      → IsSlot c slot
      → (m : ℕ) (c₁ : Cpu) → n ≤ m
      → IsKept n c c₁
      → Loads clobber s is_referent (slot_in_register slot) m c₁ (value_of slot c.registers)
  slot_in_register-Loads n c slot b k m c₁ le kept =
      subst (λ v. Loads clobber s is_referent (slot_in_register slot) m c₁ v)
        (value_of-kept slot b kept)
        (slot_in_register_lem m c₁ slot (IsBelow-le slot b le) (IsSlot-kept slot b kept k))

  -- The address of the slot, as the value that it has in `c`.
  pub slot_as_address_lem :
      (n : ℕ) (c : Cpu) (slot : Operand)
      → IsBelow n slot
      → IsSlot c slot
      → (m : ℕ) (c₁ : Cpu) → n ≤ m
      → IsKept n c c₁
      → (from : Address) × (perform clobber s is_referent (slot_as_address slot) m (none, c₁)
          ≡ some (from, m, (none, c₁)))
        × IsAddressBelow n from
        × (effective from c₁.registers ≡ value_of slot c.registers)
  unfolding slot_as_address perform run
  slot_as_address_lem n c (register r) b k m c₁ le kept = (
    record { base = r; index = none; scale = 1; disp = 0 },
    refl,
    (b, tt),
    ground (arith, kept.registers r b),
  )
  slot_as_address_lem n c (constant v) b k m c₁ le kept = absurd k
  slot_as_address_lem n c (address a) b k m c₁ le kept =
      (a, refl, b, effective-same a b kept.registers)
