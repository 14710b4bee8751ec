-- ===== src/Compiled/Lir/Stubs.antt =====
-- The stubs that the code branches to: what each calls and leaves.
use mathlib.Core.List.{append-nil}
use mmtk_openjdk.Base.{ℕ, ◌<◌, ◌≤◌, ◌≡◌, List, [], ◌∷◌, ◌++◌, none, some, if◌then◌else◌, arith}
use mmtk_openjdk.Barriers.Runtime.{
  CoreCall, write_pre, write_post, write_slow, Settings, satb_barrier, load_reference_barrier,
}
use mmtk_openjdk.X86.Cpu.{Address, Cpu, effective, exec, runtime_call}
use mmtk_openjdk.X86.Object.{
  generate_c1_post_write_barrier_stub, generate_c1_post_write_barrier_runtime_stub,
}
use mmtk_openjdk.X86.Satb.{
  generate_c1_pre_write_barrier_stub, generate_c1_pre_write_barrier_runtime_stub,
  generate_c1_ref_load_barrier_runtime_stub, generate_c1_ref_load_barrier_stub_call,
}
use mmtk_openjdk.Compiled.Lir.{
  Stub, post_barrier, pre_barrier, ref_load_barrier, generate_c1_runtime_stubs, emit_code,
  continuation,
}
use mmtk_openjdk.Compiled.Lir.Operands.{IsAddressBelow, effective-same}

module _ (clobber : (ℕ → ℕ) → ℕ → ℕ) (s : Settings) where
  -- In each state with the registers of `c` below `n`, the stub makes these calls, leaves the memory and the
  -- registers below `n` as they are, and goes back to the continuation.
  abbrev pub Makes : ℕ → Cpu → Stub → List CoreCall → Type 0
  Makes n c st calls =
      (c₁ : Cpu)
      → ((a : ℕ) → a < n → c₁.registers a ≡ c.registers a)
      → let (to, c') = exec clobber (emit_code s st) none c₁ in
        (to ≡ some continuation)
        × (c'.calls ≡ c₁.calls ++ calls)
        × ((a : ℕ) → a < n → c'.registers a ≡ c₁.registers a)
        × (c'.bytes ≡ c₁.bytes)
        × (c'.words ≡ c₁.words)

  pub post_barrier-Makes :
      (n : ℕ) (c : Cpu) (src slot new_val : ℕ)
      → src < n
      → slot < n
      → new_val < n
      → let r = c.registers in
        Makes n c (post_barrier src slot new_val) (
          (if s.barrier_fastpath
            then write_slow (r src) (r slot) (r new_val)
            else write_post (r src) (r slot) (r new_val))
          ∷ [])
  unfolding emit_code generate_c1_runtime_stubs generate_c1_post_write_barrier_stub
      generate_c1_post_write_barrier_runtime_stub exec runtime_call
  post_barrier-Makes n c src slot new_val l₁ l₂ l₃ c₁ same =
      ground (arith, same src l₁, same slot l₂, same new_val l₃)

  pub pre_barrier-Makes :
      (n : ℕ) (c : Cpu) (src slot new_val : ℕ)
      → src < n
      → slot < n
      → new_val < n
      → let r = c.registers in
        Makes n c (pre_barrier none src slot new_val) (
          (if s.barrier_fastpath
            then write_slow (r src) (r slot) (r new_val)
            else write_pre (r src) (r slot) (r new_val))
          ∷ [])
  unfolding emit_code generate_c1_runtime_stubs generate_c1_pre_write_barrier_stub
      generate_c1_pre_write_barrier_runtime_stub exec runtime_call
  pre_barrier-Makes n c src slot new_val l₁ l₂ l₃ c₁ same =
      ground (arith, same src l₁, same slot l₂, same new_val l₃)

  pub ref_load_barrier-Makes :
      (n : ℕ) (c : Cpu) (val : ℕ)
      → val < n
      → Makes n c (ref_load_barrier val) (load_reference_barrier satb_barrier 1 (c.registers val))
  unfolding emit_code generate_c1_runtime_stubs generate_c1_ref_load_barrier_stub_call
      generate_c1_ref_load_barrier_runtime_stub load_reference_barrier exec runtime_call
  ref_load_barrier-Makes n c val lt c₁ same = ground (arith, append-nil c₁.calls, same val lt)

  pub patched-Makes :
      (n : ℕ) (c : Cpu) (scratch : ℕ) (from : Address) (src slot new_val : ℕ)
      → n ≤ scratch
      → src < n
      → new_val < n
      → IsAddressBelow n from
      → let r = c.registers in
        Makes n c (pre_barrier (some (scratch, from)) src slot new_val) (
          (if s.barrier_fastpath
            then write_slow (r src) (effective from r) (r new_val)
            else write_pre (r src) (effective from r) (r new_val))
          ∷ [])
  unfolding emit_code generate_c1_runtime_stubs generate_c1_pre_write_barrier_stub
      generate_c1_pre_write_barrier_runtime_stub exec runtime_call
  patched-Makes n c scratch from src slot new_val le l₁ l₂ below c₁ same =
      let at : effective from c₁.registers ≡ effective from c.registers =
        effective-same from below same in
      ground (arith, same src l₁, same new_val l₂, at)
