-- ===== src/Compiled/Lir/PreStores.antt =====
-- The SATB barrier in front of a store of the client compiler, with a resolved slot and with one that is
-- still to be patched.
use mmtk_openjdk.Base.{
  ℕ, suc, ◌^◌, ◌<◌, ◌≤◌, ◌≡◌, refl, ap, ◌∙◌, subst, Bool, true, false, [], ◌∷◌, List, none, some,
  if◌then◌else◌, arith,
}
use mmtk_openjdk.Barriers.Runtime.{
  CoreCall, write_pre, write_slow, Settings, satb_barrier,
  object_reference_write_pre as runtime_write_pre,
}
use mmtk_openjdk.X86.Cpu.{Address, Cpu, effective}
use mmtk_openjdk.Compiled.Lir.{Operand, pre_barrier, value_of}
use mmtk_openjdk.Compiled.Lir.Emit.{
  in_register, slot_in_register, slot_as_address, write_pre_resolved, write_pre_patched,
  jump_patched, object_reference_write_pre,
}
use mmtk_openjdk.Compiled.Lir.Perform.{perform, perform-then}
use mmtk_openjdk.Compiled.Lir.Operands.{
  IsAddressBelow, IsBelow, IsKept-trans, IsBelow-le, IsAddressBelow-le, effective-same,
  value_of-kept, three_loaded, in_register_lem,
}
use mmtk_openjdk.Compiled.Lir.Slots.{IsSlot, slot_in_register-Loads, slot_as_address_lem}
use mmtk_openjdk.Compiled.Lir.Stubs.{pre_barrier-Makes, patched-Makes}
use mmtk_openjdk.Compiled.Lir.Slow.{Calls, jump_run}
use mmtk_openjdk.Compiled.Lir.Stores.{after_operands, pre_calls, barrier_behind}

-- The call of the slow path, which the code takes without a test.
abbrev slow_call : Settings → (src slot new_val : ℕ) → List CoreCall
slow_call s src slot new_val =
    (if s.barrier_fastpath then write_slow src slot new_val else write_pre src slot new_val) ∷ []

jump_patched-Calls :
    (clobber : (ℕ → ℕ) → ℕ → ℕ) (s : Settings) (is_referent : Bool) (n : ℕ) (c : Cpu)
    (from : Address) (src new_val : ℕ)
    → src < n
    → new_val < n
    → IsAddressBelow n from
    → Calls clobber s is_referent n c
        (jump_patched src from new_val)
        (slow_call s (c.registers src) (effective from c.registers) (c.registers new_val))
unfolding jump_patched perform
jump_patched-Calls clobber s is_referent n c from src new_val l₁ l₃ below =
    let makes = patched-Makes clobber s n c n from src n new_val (omega arith) l₁ l₃ below in
    let (c', e, called, r, b, w) =
      jump_run clobber s is_referent n c (pre_barrier (some (n, from)) src n new_val) _ makes in
    (suc n, c', ap (λ z. some (tt, suc n, z)) e, called, r, b, w)

module _ (clobber : (ℕ → ℕ) → ℕ → ℕ) (s : Settings) (is_referent : Bool) (n : ℕ) (c : Cpu)
    (src slot new_val : Operand) (b₁ : IsBelow n src) (b₂ : IsBelow n slot) (b₃ : IsBelow n new_val)
    (k : IsSlot c slot) where
  -- Whatever a C call leaves in the registers: for operands that read no register that is still free, a
  -- slot in a register or in memory with a word in it, and a source below 2 ^ 63, the code of the SATB
  -- barrier in front of a store that needs no patching runs to its end, its stubs included, makes the
  -- calls of the runtime pre-barrier for the values of the operands, and leaves the registers in use and
  -- the memory as they are, in both settings of the fast path.
  pub object_reference_write_pre-Calls :
      value_of src c.registers < 2 ^ 63
      → Calls clobber s is_referent n c (object_reference_write_pre s true false src slot new_val) (
          runtime_write_pre s c.bytes satb_barrier
            (value_of src c.registers)
            (value_of slot c.registers)
            (value_of new_val c.registers))
  unfolding object_reference_write_pre write_pre_resolved
  object_reference_write_pre-Calls small =
      let v = value_of slot c.registers in
      let t =
        three_loaded clobber s is_referent n c src new_val (slot_in_register slot) v b₁ b₃
          (slot_in_register-Loads clobber s is_referent n c slot b₂ k) in
      after_operands clobber s is_referent n t.next c t.state _ _ _ t.le t.kept (t.performed _) (
        barrier_behind clobber s is_referent n c src new_val (slot_in_register slot) v t
          (pre_barrier none t.src' t.slot' t.new_val') write_slow write_pre
          (pre_barrier-Makes clobber s t.next t.state t.src' t.slot' t.new_val' t.src_below
            t.slot_below t.new_val_below)
          _ (pre_calls s c.bytes _ _ _ small))

  -- Whatever a C call leaves in the registers: for operands that read no register that is still free, and
  -- a slot in a register or in memory with a word in it, the code of the SATB barrier in front of a store
  -- that needs patching runs to its end, its stub included. Without a test of the unlog bit it makes the
  -- one call of the slow path, or of the full pre-barrier where the fast path is off, for the values of
  -- the operands, and leaves the registers in use and the memory as they are.
  patched-Calls :
      let v = value_of src c.registers in
      let a = value_of slot c.registers in
      let w = value_of new_val c.registers in
      Calls clobber s is_referent n c
        (object_reference_write_pre s true true src slot new_val)
        (slow_call s v a w)
  unfolding object_reference_write_pre write_pre_patched
  patched-Calls =
      let (r₁, n₁, c₁, e₁, le₁, lt₁, v₁, k₁) = in_register_lem clobber s is_referent n c src b₁ in
      let (from, e₂, below, v₂) =
        slot_as_address_lem clobber s is_referent n c slot b₂ k n₁ c₁ le₁ k₁ in
      let (r₃, n₃, c₃, e₃, le₃, lt₃, v₃, k₃) =
        in_register_lem clobber s is_referent n₁ c₁ new_val (IsBelow-le new_val b₃ le₁) in
      let le : n ≤ n₃ = omega arith in
      let at : effective from c₃.registers ≡ value_of slot c.registers =
        effective-same from (IsAddressBelow-le from below le₁) k₃.registers ∙ v₂ in
      let v : c₃.registers r₁ ≡ value_of src c.registers = k₃.registers r₁ lt₁ ∙ v₁ in
      let w : c₃.registers r₃ ≡ value_of new_val c.registers = v₃ ∙ value_of-kept new_val b₃ k₁ in
      let calls = slow_call s (c₃.registers r₁) (effective from c₃.registers) (c₃.registers r₃) in
      let same : calls
          ≡ slow_call s (value_of src c.registers) (value_of slot c.registers)
              (value_of new_val c.registers) =
        rw (v, at, w) refl in
      after_operands clobber s is_referent n n₃ c c₃ _ _ _ le (IsKept-trans le₁ k₁ k₃)
        (perform-then clobber s is_referent (in_register src) n c e₁ _
          ∙ perform-then clobber s is_referent (slot_as_address slot) n₁ c₁ e₂ _
          ∙ perform-then clobber s is_referent (in_register new_val) n₁ c₁ e₃ _)
        (subst (λ l. Calls clobber s is_referent n₃ c₃ (jump_patched r₁ from r₃) l) same
          (jump_patched-Calls clobber s is_referent n₃ c₃ from r₁ r₃ (omega arith) lt₃
            (IsAddressBelow-le from below le)))
