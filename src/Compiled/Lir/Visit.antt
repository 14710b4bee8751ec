-- ===== src/Compiled/Lir/Visit.antt =====
-- What the stubs of the client compiler tell the register allocator (`visit` of openjdk/mmtkBarrierSetC1.hpp).
use mathlib.Core.List.{append-nil}
use mmtk_openjdk.Base.{
  ℕ, ◌≡◌, ◌≢◌, refl, sym, ap, ◌∙◌, List, [], ◌∷◌, ◌++◌, none, some, if◌then◌else◌, arith,
}
use mmtk_openjdk.Barriers.Runtime.{
  CoreCall, write_pre, write_post, write_slow, Settings, satb_barrier, load_reference_barrier,
}
use mmtk_openjdk.X86.Cpu.{Cpu, effective, exec, runtime_call}
use mmtk_openjdk.X86.Object.{
  generate_c1_post_write_barrier_stub, generate_c1_post_write_barrier_runtime_stub,
}
use mmtk_openjdk.X86.Satb.{
  generate_c1_pre_write_barrier_stub, generate_c1_pre_write_barrier_runtime_stub,
  generate_c1_ref_load_barrier_runtime_stub, generate_c1_ref_load_barrier_stub_call,
}
use mmtk_openjdk.Compiled.Lir.{
  Operand, register, address, value_of, Stub, post_barrier, pre_barrier, ref_load_barrier,
  generate_c1_runtime_stubs, emit_code, continuation,
}

-- `do_input` and `do_temp`
pub record Visited : Type 0 where
  pub inputs : List Operand
  pub temps : List ℕ

abbrev visit_post_barrier : (src slot new_val : ℕ) → Visited
visit_post_barrier src slot new_val = record {
  inputs = register src ∷ register slot ∷ register new_val ∷ [];
  temps = [];
}

abbrev visit_ref_load_barrier : (val : ℕ) → Visited
visit_ref_load_barrier val = record { inputs = register val ∷ []; temps = [] }

unfoldable pub visit : Stub → Visited
visit (post_barrier src slot new_val) = visit_post_barrier src slot new_val
visit (pre_barrier none src slot new_val) = record {
  inputs = register src ∷ register slot ∷ register new_val ∷ [];
  temps = [];
}
visit (pre_barrier (some (scratch, slot_address)) src slot new_val) = record {
  inputs = register src ∷ address slot_address ∷ register new_val ∷ [];
  temps = scratch ∷ [];
}
visit (ref_load_barrier val) = visit_ref_load_barrier val

-- The inputs have the same values in both states.
abbrev pub Agree : List Operand → Cpu → Cpu → Type 0
Agree [] c₁ c₂ = Unit
Agree (o ∷ rest) c₁ c₂ = (value_of o c₁.registers ≡ value_of o c₂.registers) × Agree rest c₁ c₂

abbrev pub NoneOf : ℕ → List ℕ → Type 0
NoneOf r [] = Unit
NoneOf r (t ∷ rest) = (r ≢ t) × NoneOf r rest

-- No input in a register is a temporary, as the allocator sees to.
abbrev pub Apart : List Operand → List ℕ → Type 0
Apart [] temps = Unit
Apart (register r ∷ rest) temps = NoneOf r temps × Apart rest temps
Apart (_ ∷ rest) temps = Apart rest temps

module _ (clobber : (ℕ → ℕ) → ℕ → ℕ) (s : Settings) where
  -- From `c` the stub goes back to the continuation with these calls, and changes its temporaries only.
  abbrev Covered : Stub → Cpu → List CoreCall → Type 0
  Covered st c made =
      let (to, c') = exec clobber (emit_code s st) none c in
      (to ≡ some continuation)
      × (c'.calls ≡ c.calls ++ made)
      × ((a : ℕ) → NoneOf a (visit st).temps → c'.registers a ≡ c.registers a)

  -- The calls of a stub, from the values of its inputs.
  abbrev made : Stub → Cpu → List CoreCall
  made (post_barrier src slot new_val) c =
      let r = c.registers in
      (if s.barrier_fastpath
        then write_slow (r src) (r slot) (r new_val)
        else write_post (r src) (r slot) (r new_val))
      ∷ []
  made (pre_barrier none src slot new_val) c =
      let r = c.registers in
      (if s.barrier_fastpath
        then write_slow (r src) (r slot) (r new_val)
        else write_pre (r src) (r slot) (r new_val))
      ∷ []
  made (pre_barrier (some (scratch, from)) src slot new_val) c =
      let r = c.registers in
      (if s.barrier_fastpath
        then write_slow (r src) (effective from r) (r new_val)
        else write_pre (r src) (effective from r) (r new_val))
      ∷ []
  made (ref_load_barrier val) c = load_reference_barrier satb_barrier 1 (c.registers val)

  made-Agree : (st : Stub) (c₁ c₂ : Cpu) → Agree (visit st).inputs c₁ c₂ → made st c₁ ≡ made st c₂
  unfolding visit
  made-Agree (post_barrier src slot new_val) c₁ c₂ h = rw (h.0, h.1.0, h.1.1.0) refl
  made-Agree (pre_barrier none src slot new_val) c₁ c₂ h = rw (h.0, h.1.0, h.1.1.0) refl
  made-Agree (pre_barrier (some (scratch, from)) src slot new_val) c₁ c₂ h =
      rw (h.0, h.1.0, h.1.1.0) refl
  made-Agree (ref_load_barrier val) c₁ c₂ h = rw h.0 refl

  covered :
      (st : Stub) (c : Cpu) → Apart (visit st).inputs (visit st).temps → Covered st c (made st c)
  unfolding visit emit_code generate_c1_runtime_stubs exec runtime_call load_reference_barrier
      generate_c1_post_write_barrier_stub generate_c1_post_write_barrier_runtime_stub
      generate_c1_pre_write_barrier_stub generate_c1_pre_write_barrier_runtime_stub
      generate_c1_ref_load_barrier_runtime_stub generate_c1_ref_load_barrier_stub_call
  covered (post_barrier src slot new_val) c apart = ground arith
  covered (pre_barrier none src slot new_val) c apart = ground arith
  covered (pre_barrier (some (scratch, from)) src slot new_val) c apart = ground arith
  covered (ref_load_barrier val) c apart = ground (arith, append-nil c.calls)

-- Whatever a C call leaves in the registers: what a stub does hangs on its declared inputs alone, and it
-- changes no register but its declared temporaries. Where no input in a register is a temporary, the
-- stub, run in two states that agree on the values of the inputs, makes the same further calls in both and goes
-- back to the continuation, and each register that is no temporary keeps its value.
pub visit-covers :
    (clobber : (ℕ → ℕ) → ℕ → ℕ) (s : Settings) (st : Stub) (c₁ c₂ : Cpu)
    → Apart (visit st).inputs (visit st).temps
    → Agree (visit st).inputs c₁ c₂
    → let (to₁, c₁') = exec clobber (emit_code s st) none c₁ in
      let (to₂, c₂') = exec clobber (emit_code s st) none c₂ in
      (made : List CoreCall) × (to₁ ≡ some continuation)
      × (to₂ ≡ some continuation)
      × (c₁'.calls ≡ c₁.calls ++ made)
      × (c₂'.calls ≡ c₂.calls ++ made)
      × ((a : ℕ) → NoneOf a (visit st).temps → c₁'.registers a ≡ c₁.registers a)
visit-covers clobber s st c₁ c₂ apart agree =
    let (at₁, called₁, kept) = covered clobber s st c₁ apart in
    let (at₂, called₂, _) = covered clobber s st c₂ apart in
    (
      made clobber s st c₁,
      at₁,
      at₂,
      called₁,
      called₂ ∙ ap (λ l. c₂.calls ++ l) (sym (made-Agree clobber s st c₁ c₂ agree)),
      kept,
    )
