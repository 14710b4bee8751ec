-- ===== src/X86/Object/Calls.antt =====
-- The emitted object barrier makes the calls of the runtime barrier.
use mathlib.Core.List.{append-nil}
use mmtk_openjdk.Base.{
  ℕ, ◌^◌, ◌<◌, ◌≡◌, ◌≢◌, refl, sym, ap, ◌∙◌, true, false, [], ◌∷◌, ◌++◌, none, some, inl, inr, ◌==◌,
  if◌then◌else◌, Bool-cases, ==_refl, arith,
}
use mmtk_openjdk.Barriers.Metadata.{is_unlogged}
use mmtk_openjdk.Barriers.Runtime.{
  write_post, write_slow, array_copy_post, Settings, object_barrier,
  object_reference_write_post as runtime_write_post,
}
use mmtk_openjdk.X86.Cpu.{
  rcx, c_rarg0, c_rarg1, c_rarg2, rscratch1, rscratch2, Address, Cpu, exec, runtime_call,
}
use mmtk_openjdk.X86.Bits.{==-≢, low_byte-unlog_bit}
use mmtk_openjdk.X86.Elision.{BasicType, is_oop}
use mmtk_openjdk.X86.Object.{
  object_reference_write_post, Copy, arraycopy_prologue, arraycopy_epilogue, count_after, dst_after,
  generate_c1_post_write_barrier_stub, generate_c1_post_write_barrier_runtime_stub,
}

-- Whatever a C call leaves in the registers: for an object below 2 ^ 63 in a register other than the
-- code's scratch registers and `rcx`, and a stored register value, the emitted post-barrier of a heap
-- access runs to its end, and makes the calls of the runtime post-barrier for the object with a null
-- slot and target, in both settings of the fast path.
pub object_reference_write_post-runtime :
    (clobber : (ℕ → ℕ) → ℕ → ℕ) (s : Settings) (c : Cpu) (dst : Address) (val tmp2 : ℕ)
    → dst.base ≢ rcx
    → dst.base ≢ rscratch1
    → dst.base ≢ rscratch2
    → dst.base ≢ tmp2
    → tmp2 ≢ rcx
    → tmp2 ≢ rscratch1
    → tmp2 ≢ rscratch2
    → c.registers dst.base < 2 ^ 63
    → let (to, c') = exec clobber (object_reference_write_post s true dst (some val) tmp2) none c in
      (to ≡ none)
      × (c'.calls
          ≡ c.calls ++ runtime_write_post s c.bytes object_barrier (c.registers dst.base) 0 0)
unfolding object_reference_write_post runtime_write_post exec runtime_call
object_reference_write_post-runtime clobber s c dst val tmp2 n0 n1 n2 n3 n4 n5 n6 small =
    let obj = dst.base in
    let e0 = ==-≢ obj rcx n0 in
    let e1 = ==-≢ obj rscratch1 n1 in
    let e2 = ==-≢ obj rscratch2 n2 in
    let e3 = ==-≢ obj tmp2 n3 in
    let e4 = ==-≢ tmp2 rcx n4 in
    let e5 = ==-≢ tmp2 rscratch1 n5 in
    let e6 = ==-≢ tmp2 rscratch2 n6 in
    let e7 = ==-≢ rcx tmp2 (λ e. n4 (sym e)) in
    let e8 = ==-≢ rscratch1 tmp2 (λ e. n5 (sym e)) in
    let e9 = ==-≢ rscratch2 tmp2 (λ e. n6 (sym e)) in
    let v = c.registers obj in
    let found = ap (λ b. b == 1) (low_byte-unlog_bit s.metadata_base v c.bytes small) in
    elim (Bool-cases s.barrier_fastpath) [
      | inr full ↦ simp full (refl, refl)
      | inl fast ↦ elim (Bool-cases (is_unlogged s.metadata_base c.bytes v)) [
        | inl u ↦
            (let f = found ∙ u in
              simp (fast, ==_refl, e0, e1, e2, e3, e4, e5, e6, e7, e8, e9, f, u) (refl, refl))
        | inr l ↦
            (let f = found ∙ l in
              simp (fast, ==_refl, e0, e1, e2, e3, e4, e5, e6, e7, e8, e9, f, l)
                (refl, sym (append-nil c.calls)))
      ]
    ]

-- For a copy of oops into initialized memory, with the source, the destination and the count in the
-- registers of the first three arguments: whatever the copying code does to the count and, where the
-- prologue saves it, to the destination, if it leaves r11 and the other registers that the epilogue
-- reads as they are, the epilogue's one call passes the values that the registers had at the prologue.
pub arraycopy_epilogue-saved :
    (clobber : (ℕ → ℕ) → ℕ → ℕ) (k : Copy) (type : BasicType) (c : Cpu) (copied : Cpu)
    → is_oop type ≡ true
    → k.dest_uninitialized ≡ false
    → let before = (exec clobber (arraycopy_prologue k type c_rarg0 c_rarg1 c_rarg2) none c).1 in
      copied.registers c_rarg0 ≡ before.registers c_rarg0
      → copied.registers (dst_after k type c_rarg1) ≡ before.registers (dst_after k type c_rarg1)
      → copied.registers (count_after k type c_rarg2)
        ≡ before.registers (count_after k type c_rarg2)
      → (exec clobber (arraycopy_epilogue k type c_rarg0 c_rarg1 c_rarg2) none copied).1.calls
        ≡ copied.calls
          ++ array_copy_post (c.registers c_rarg0) (c.registers c_rarg1) (c.registers c_rarg2) ∷ []
unfolding arraycopy_prologue arraycopy_epilogue count_after dst_after exec runtime_call
arraycopy_epilogue-saved clobber k type c copied oop init h0 h1 h2 = ground arith

-- The client compiler's stub and the runtime stub behind it: the one call passes the source, the slot
-- and the new value, and the four registers that the runtime stub uses, like those that it saves, are
-- restored.
pub generate_c1_post_write_barrier_stub-calls :
    (clobber : (ℕ → ℕ) → ℕ → ℕ) (s : Settings) (c : Cpu) (src slot new_val : ℕ)
    → let code =
        generate_c1_post_write_barrier_stub src slot new_val
        ++ generate_c1_post_write_barrier_runtime_stub s in
      let (to, c') = exec clobber code none c in
      let r = c.registers in
      (to ≡ none)
      × (c'.calls
          ≡ c.calls
            ++ (if s.barrier_fastpath
                then write_slow (r src) (r slot) (r new_val)
                else write_post (r src) (r slot) (r new_val))
              ∷ [])
      × ((a : ℕ) → c'.registers a ≡ r a)
      × (c'.stack ≡ c.stack)
unfolding generate_c1_post_write_barrier_stub generate_c1_post_write_barrier_runtime_stub exec
    runtime_call
generate_c1_post_write_barrier_stub-calls clobber s c src slot new_val = ground arith
