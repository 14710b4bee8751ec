-- ===== src/Compiled/Lir/Stores.antt =====
-- The stores of the client compiler: what the code around them calls.
use mmtk_openjdk.Base.{
  ℕ, ◌^◌, ◌<◌, ◌≤◌, ◌≡◌, ◌∙◌, subst, Bool, true, List, [], ◌∷◌, ◌++◌, none, ◌==◌, if◌then◌else◌,
  Bool-cases, inl, inr, arith,
}
use mmtk_openjdk.Barriers.Runtime.{
  CoreCall, write_pre, write_post, write_slow, Settings, object_barrier, satb_barrier,
  object_reference_write_pre as runtime_write_pre,
  object_reference_write_post as runtime_write_post,
}
use mmtk_openjdk.Compiled.Bits.{compiled_bit, compiled_bit_lem}
use mmtk_openjdk.X86.Cpu.{Cpu}
use mmtk_openjdk.Compiled.Lir.{
  Operand, Stub, post_barrier, jump, branch_destination, continuation, value_of,
}
use mmtk_openjdk.Compiled.Lir.Emit.{
  Gen, ◌>>◌, emit, in_register, branch_if_unlogged, object_reference_write_post,
}
use mmtk_openjdk.Compiled.Lir.Perform.{perform}
use mmtk_openjdk.Compiled.Lir.Operands.{
  Loads, IsBelow, IsKept, value_of-kept, IsBelow-le, ThreeLoaded, three_loaded, in_register_lem,
}
use mmtk_openjdk.Compiled.Lir.Stubs.{Makes, post_barrier-Makes}
use mmtk_openjdk.Compiled.Lir.Slow.{Calls, jump-Calls, branch-Calls}

abbrev barrier : Settings → (src : ℕ) → Stub → Gen (Unit {0})
barrier s src slow =
    (if s.barrier_fastpath then branch_if_unlogged s src slow else emit (jump slow ∷ []))
    >> emit (branch_destination continuation ∷ [])

barrier-Calls :
    (clobber : (ℕ → ℕ) → ℕ → ℕ) (s : Settings) (is_referent : Bool) (n : ℕ) (c : Cpu) (src : ℕ)
    (slow : Stub) (calls : List CoreCall)
    → Makes clobber s n c slow calls
    → src < n
    → Calls clobber s is_referent n c (barrier s src slow) (
        if s.barrier_fastpath
        then (if compiled_bit s.metadata_base c.bytes (c.registers src) == 1 then calls else [])
        else calls)
barrier-Calls clobber s is_referent n c src slow calls makes lt =
    elim (Bool-cases s.barrier_fastpath) [
      | inl fast ↦ simp fast (branch-Calls clobber s is_referent n c slow calls makes src lt)
      | inr full ↦ simp full (jump-Calls clobber s is_referent n c slow calls makes)
    ]

-- The calls from the state behind the operands are calls from the state in front of them.
pub after_operands :
    (clobber : (ℕ → ℕ) → ℕ → ℕ) (s : Settings) (is_referent : Bool) (n m : ℕ) (c c₁ : Cpu)
    (g g₁ : Gen (Unit {0})) (calls : List CoreCall)
    → n ≤ m
    → IsKept n c c₁
    → perform clobber s is_referent g n (none, c) ≡ perform clobber s is_referent g₁ m (none, c₁)
    → Calls clobber s is_referent m c₁ g₁ calls
    → Calls clobber s is_referent n c g calls
after_operands clobber s is_referent n m c c₁ g g₁ calls le kept e (n', c', e', called, r, b, w) = (
  n',
  c',
  e ∙ e',
  subst (λ l. c'.calls ≡ l ++ calls) kept.calls called,
  λ a lt. r a (omega arith) ∙ kept.registers a lt,
  b ∙ kept.bytes,
  w ∙ kept.words,
)

-- What the code in front of the stubs calls.
abbrev tested_calls : Settings → (ℕ → ℕ) → (src : ℕ) → (slow full : CoreCall) → List CoreCall
tested_calls s bytes src slow full =
    let calls = (if s.barrier_fastpath then slow else full) ∷ [] in
    if s.barrier_fastpath
    then (if compiled_bit s.metadata_base bytes src == 1 then calls else [])
    else calls

post_calls :
    (s : Settings) (bytes : ℕ → ℕ) (src slot new_val : ℕ)
    → src < 2 ^ 63
    → tested_calls s bytes src (write_slow src slot new_val) (write_post src slot new_val)
      ≡ runtime_write_post s bytes object_barrier src slot new_val
unfolding runtime_write_post
post_calls s bytes src slot new_val small =
    ground (arith, compiled_bit_lem s.metadata_base bytes src small)

pub pre_calls :
    (s : Settings) (bytes : ℕ → ℕ) (src slot new_val : ℕ)
    → src < 2 ^ 63
    → tested_calls s bytes src (write_slow src slot new_val) (write_pre src slot new_val)
      ≡ runtime_write_pre s bytes satb_barrier src slot new_val
unfolding runtime_write_pre
pre_calls s bytes src slot new_val small =
    ground (arith, compiled_bit_lem s.metadata_base bytes src small)

module _ (clobber : (ℕ → ℕ) → ℕ → ℕ) (s : Settings) (is_referent : Bool) (n : ℕ) (c : Cpu)
    (src new_val : Operand) (slot_gen : Gen ℕ) (slot : ℕ)
    (t : ThreeLoaded clobber s is_referent n c src new_val slot_gen slot) (slow : Stub)
    (of : (src slot new_val : ℕ) → CoreCall) (full : (src slot new_val : ℕ) → CoreCall) where
  -- The barrier behind the operands.
  pub barrier_behind :
      (let r = t.state.registers in
        Makes clobber s t.next t.state slow (
          (if s.barrier_fastpath
            then of (r t.src') (r t.slot') (r t.new_val')
            else full (r t.src') (r t.slot') (r t.new_val'))
          ∷ []))
      → (calls : List CoreCall)
      → (let v = value_of src c.registers in
          let w = value_of new_val c.registers in
          tested_calls s c.bytes v (of v slot w) (full v slot w) ≡ calls)
      → Calls clobber s is_referent t.next t.state (barrier s t.src' slow) calls
  barrier_behind makes calls e =
      let same : tested_calls s t.state.bytes (t.state.registers t.src')
            (of (t.state.registers t.src') (t.state.registers t.slot')
              (t.state.registers t.new_val'))
            (full (t.state.registers t.src') (t.state.registers t.slot')
              (t.state.registers t.new_val'))
          ≡ calls =
        rw (t.kept.bytes, t.src_value, t.slot_value, t.new_val_value) e in
      subst (λ l. Calls clobber s is_referent t.next t.state (barrier s t.src' slow) l) same
        (barrier-Calls clobber s is_referent t.next t.state t.src' slow _ makes t.src_below)

slot-Loads :
    (clobber : (ℕ → ℕ) → ℕ → ℕ) (s : Settings) (is_referent : Bool) (n : ℕ) (c : Cpu)
    (slot : Operand)
    → IsBelow n slot
    → (m : ℕ) (c₁ : Cpu) → n ≤ m
    → IsKept n c c₁
    → Loads clobber s is_referent (in_register slot) m c₁ (value_of slot c.registers)
slot-Loads clobber s is_referent n c slot b m c₁ le kept =
    subst (λ v. Loads clobber s is_referent (in_register slot) m c₁ v) (value_of-kept slot b kept)
      (in_register_lem clobber s is_referent m c₁ slot (IsBelow-le slot b le))

module _ (clobber : (ℕ → ℕ) → ℕ → ℕ) (s : Settings) (is_referent : Bool) (n : ℕ) (c : Cpu)
    (src slot new_val : Operand) where
  -- Whatever a C call leaves in the registers: for operands of any kind that read no register that is
  -- still free, and a source below 2 ^ 63, the code of the object barrier behind a store runs to its end,
  -- its stubs included, makes the calls of the runtime post-barrier for the values of the operands, and
  -- leaves the registers in use and the memory as they are, in both settings of the fast path.
  pub object_reference_write_post-Calls :
      IsBelow n src
      → IsBelow n slot
      → IsBelow n new_val
      → value_of src c.registers < 2 ^ 63
      → Calls clobber s is_referent n c (object_reference_write_post s true src slot new_val) (
          runtime_write_post s c.bytes object_barrier
            (value_of src c.registers)
            (value_of slot c.registers)
            (value_of new_val c.registers))
  unfolding object_reference_write_post
  object_reference_write_post-Calls b₁ b₂ b₃ small =
      let t =
        three_loaded clobber s is_referent n c src new_val (in_register slot)
          (value_of slot c.registers) b₁ b₃ (slot-Loads clobber s is_referent n c slot b₂) in
      after_operands clobber s is_referent n t.next c t.state _ _ _ t.le t.kept (t.performed _) (
        barrier_behind clobber s is_referent n c src new_val (in_register slot)
          (value_of slot c.registers) t (post_barrier t.src' t.slot' t.new_val') write_slow
          write_post
          (post_barrier-Makes clobber s t.next t.state t.src' t.slot' t.new_val' t.src_below
            t.slot_below t.new_val_below)
          _ (post_calls s c.bytes _ _ _ small))
