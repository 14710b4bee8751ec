-- ===== src/X86/Satb/Calls.antt =====
-- The emitted SATB barrier makes the calls of the runtime barrier.
use mathlib.Core.List.{append-nil}
use mmtk_openjdk.Base.{
  ℕ, ◌^◌, ◌<◌, ◌≡◌, ◌≢◌, refl, sym, ap, ◌∙◌, true, [], ◌∷◌, ◌++◌, none, some, inl, inr, ◌==◌,
  if◌then◌else◌, Bool-cases, ==_refl, arith,
}
use mmtk_openjdk.Barriers.Metadata.{load_byte, is_unlogged}
use mmtk_openjdk.Barriers.Runtime.{
  write_pre, write_slow, Settings, satb_barrier, object_reference_write_pre as runtime_write_pre,
  object_reference_array_copy_pre, load_reference_barrier,
}
use mmtk_openjdk.X86.Cpu.{
  rcx, c_rarg0, c_rarg1, c_rarg2, rscratch1, rscratch2, Address, effective, Cpu, exec, runtime_call,
}
use mmtk_openjdk.X86.Bits.{==-≢, byte-unlog_bit}
use mmtk_openjdk.X86.Elision.{BasicType, is_oop}
use mmtk_openjdk.X86.Satb.{
  load_at_barrier, choose_tmp, object_reference_write_pre, arraycopy_prologue,
  generate_c1_pre_write_barrier_stub, generate_c1_pre_write_barrier_runtime_stub,
  generate_c1_ref_load_barrier_runtime_stub, generate_c1_ref_load_barrier_stub_call,
}

-- For a weak or phantom load into a register other than r10 and r11: the emitted barrier runs to its
-- end, makes the calls of the runtime load barrier for the loaded value, and changes no register but
-- those two.
pub load_at_barrier-runtime :
    (clobber : (ℕ → ℕ) → ℕ → ℕ) (c : Cpu) (flag : ℕ) (type : BasicType) (dst : ℕ)
    → is_oop type ≡ true
    → dst ≢ rscratch1
    → dst ≢ rscratch2
    → let (to, c') = exec clobber (load_at_barrier flag type true dst) none c in
      (to ≡ none)
      × (c'.calls
          ≡ c.calls
            ++ load_reference_barrier satb_barrier (load_byte c.bytes flag) (c.registers dst))
      × ((a : ℕ) → a ≢ rscratch1 → a ≢ rscratch2 → c'.registers a ≡ c.registers a)
unfolding load_at_barrier load_reference_barrier exec runtime_call
load_at_barrier-runtime clobber c flag type dst oop n1 n2 = ground (arith, append-nil c.calls)

-- For a copy of oops with the source, the destination and the count in the registers of the first
-- three arguments: the prologue makes the calls of the runtime barrier, and changes no register.
pub arraycopy_prologue-runtime :
    (clobber : (ℕ → ℕ) → ℕ → ℕ) (c : Cpu) (type : BasicType)
    → is_oop type ≡ true
    → let (to, c') = exec clobber (arraycopy_prologue type c_rarg0 c_rarg1 c_rarg2) none c in
      let r = c.registers in
      (to ≡ none)
      × (c'.calls
          ≡ c.calls
            ++ object_reference_array_copy_pre satb_barrier (r c_rarg0) (r c_rarg1) (r c_rarg2))
      × ((a : ℕ) → c'.registers a ≡ r a)
unfolding arraycopy_prologue object_reference_array_copy_pre exec runtime_call
arraycopy_prologue-runtime clobber c type oop = ground (arith, append-nil c.calls)

-- The client compiler's stub and the runtime stub behind it, for a slot in a register or at a patched
-- address: the one call passes the source, the slot's address and the new value, where the scratch
-- register holds neither source nor new value; and all registers but the scratch register are restored.
pub generate_c1_pre_write_barrier_stub-calls :
    (clobber : (ℕ → ℕ) → ℕ → ℕ) (s : Settings) (c : Cpu) (scratch : ℕ) (from : Address)
    (src slot new_val : ℕ)
    → src ≢ scratch
    → new_val ≢ scratch
    → let code =
        generate_c1_pre_write_barrier_stub (some (scratch, from)) src slot new_val
        ++ generate_c1_pre_write_barrier_runtime_stub s in
      let (to, c') = exec clobber code none c in
      let r = c.registers in
      (to ≡ none)
      × (c'.calls
          ≡ c.calls
            ++ (if s.barrier_fastpath
                then write_slow (r src) (effective from r) (r new_val)
                else write_pre (r src) (effective from r) (r new_val))
              ∷ [])
      × ((a : ℕ) → a ≢ scratch → c'.registers a ≡ r a)
      × (c'.stack ≡ c.stack)
unfolding generate_c1_pre_write_barrier_stub generate_c1_pre_write_barrier_runtime_stub exec
    runtime_call
generate_c1_pre_write_barrier_stub-calls clobber s c scratch from src slot new_val n1 n2 =
    ground (arith, append-nil c.calls)

-- The client compiler's stub of the reference load barrier, which the client compiler enters when
-- marking is active: it makes the calls of the runtime load barrier, and restores all registers.
pub generate_c1_ref_load_barrier_stub_call-runtime :
    (clobber : (ℕ → ℕ) → ℕ → ℕ) (c : Cpu) (val_reg : ℕ)
    → let code =
        generate_c1_ref_load_barrier_stub_call generate_c1_ref_load_barrier_runtime_stub val_reg in
      let (to, c') = exec clobber code none c in
      (to ≡ none)
      × (c'.calls ≡ c.calls ++ load_reference_barrier satb_barrier 1 (c.registers val_reg))
      × ((a : ℕ) → c'.registers a ≡ c.registers a)
      × (c'.stack ≡ c.stack)
unfolding generate_c1_ref_load_barrier_stub_call generate_c1_ref_load_barrier_runtime_stub
    load_reference_barrier exec runtime_call
generate_c1_ref_load_barrier_stub_call-runtime clobber c val_reg =
    ground (arith, append-nil c.calls)

-- A register that the fast path of the pre-barrier leaves alone; `tmp` is its third scratch register.
abbrev pub IsOutside : (tmp r : ℕ) → Type 0
IsOutside tmp r = (r ≢ rcx) × (r ≢ rscratch1) × (r ≢ rscratch2) × (r ≢ tmp)

-- For an object below 2 ^ 63 whose register, like that of the value, is none of the fast path's scratch
-- registers, an address without an index, and a value outside the first two arguments' registers: the
-- emitted pre-barrier of a heap access runs to its end, and makes the calls of the runtime pre-barrier
-- for the object, the slot's address and the value, in both settings of the fast path.
pub object_reference_write_pre-runtime :
    (clobber : (ℕ → ℕ) → ℕ → ℕ) (s : Settings) (c : Cpu) (base scale disp val tmp1 tmp2 : ℕ)
    → let dst : Address = record { base = base; index = none; scale = scale; disp = disp } in
      let tmp = choose_tmp dst tmp1 tmp2 in
      IsOutside tmp base
      → IsOutside tmp val
      → val ≢ c_rarg0
      → val ≢ c_rarg1
      → tmp ≢ rcx
      → tmp ≢ rscratch1
      → tmp ≢ rscratch2
      → c.registers base < 2 ^ 63
      → let (to, c') =
          exec clobber (object_reference_write_pre s true dst (some val) tmp1 tmp2) none c in
        (to ≡ none)
        × (c'.calls
            ≡ c.calls
              ++ runtime_write_pre s c.bytes satb_barrier
                  (c.registers base)
                  (effective dst c.registers)
                  (c.registers val))
unfolding object_reference_write_pre runtime_write_pre exec runtime_call
object_reference_write_pre-runtime clobber s c base scale disp val tmp1 tmp2 ob ov va vb n4 n5 n6
      small =
    let dst : Address = record { base = base; index = none; scale = scale; disp = disp } in
    let tmp = choose_tmp dst tmp1 tmp2 in
    let e0 = ==-≢ base rcx ob.0 in
    let e1 = ==-≢ base rscratch1 ob.1 in
    let e2 = ==-≢ base rscratch2 ob.2 in
    let e3 = ==-≢ base tmp ob.3 in
    let v0 = ==-≢ val rcx ov.0 in
    let v1 = ==-≢ val rscratch1 ov.1 in
    let v2 = ==-≢ val rscratch2 ov.2 in
    let v3 = ==-≢ val tmp ov.3 in
    let v4 = ==-≢ val c_rarg0 va in
    let v5 = ==-≢ val c_rarg1 vb in
    let e4 = ==-≢ tmp rcx n4 in
    let e5 = ==-≢ tmp rscratch1 n5 in
    let e6 = ==-≢ tmp rscratch2 n6 in
    let e7 = ==-≢ rcx tmp (λ e. n4 (sym e)) in
    let e8 = ==-≢ rscratch1 tmp (λ e. n5 (sym e)) in
    let e9 = ==-≢ rscratch2 tmp (λ e. n6 (sym e)) in
    let v = c.registers base in
    let found = ap (λ b. b == 1) (byte-unlog_bit s.metadata_base v c.bytes small) in
    elim (Bool-cases s.barrier_fastpath) [
      | inr full ↦ elim (Bool-cases (base == c_rarg0)) [
        | inl same ↦ simp (full, v4, v5, same) (refl, refl)
        | inr other ↦ simp (full, v4, v5, other) (refl, refl)
      ]
      | inl fast ↦ elim (Bool-cases (is_unlogged s.metadata_base c.bytes v)) [
        | inr l ↦
            (let f = found ∙ l in
              simp (fast, ==_refl, e0, e1, e2, e3, e4, e5, e6, e7, e8, e9, f, l)
                (refl, sym (append-nil c.calls)))
        | inl u ↦
            (let f = found ∙ u in
              elim (Bool-cases (base == c_rarg0)) [
                | inl same ↦
                    simp
                      (
                        fast, ==_refl, e0, e1, e2, e3, e4, e5, e6, e7, e8, e9, v0, v1, v2, v3, v4,
                        v5, f, u, same,
                      )
                      (refl, refl)
                | inr other ↦
                    simp
                      (
                        fast, ==_refl, e0, e1, e2, e3, e4, e5, e6, e7, e8, e9, v0, v1, v2, v3, v4,
                        v5, f, u, other,
                      )
                      (refl, refl)
              ])
      ]
    ]
