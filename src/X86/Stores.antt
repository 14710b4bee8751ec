-- ===== src/X86/Stores.antt =====
-- `MMTkBarrierSetAssembler::store_at` (openjdk/mmtkBarrierSetAssembler_x86.hpp): a store with the barriers of the
-- selected barrier round it.
use mathlib.Core.List.{append-nil}
use mmtk_openjdk.Base.{
  ℕ, ◌^◌, ◌<◌, ◌≡◌, ◌≢◌, refl, sym, ap, subst, ◌∙◌, Bool, true, List, [], ◌∷◌, ◌++◌, Option, none,
  some, if◌then◌else◌, Bool-cases, inl, inr,
}
use mmtk_openjdk.Barriers.Runtime.{
  Barrier, no_barrier, object_barrier, satb_barrier, Settings, CoreCall,
  object_reference_write_pre as runtime_write_pre,
  object_reference_write_post as runtime_write_post,
}
use mmtk_openjdk.X86.Cpu.{
  rcx, rscratch1, rscratch2, c_rarg0, c_rarg1, Address, effective, Instruction, jcc, jmp, bind,
  holds, Cpu, exec,
}
use mmtk_openjdk.X86.Elision.{BasicType, is_oop}
use mmtk_openjdk.X86.Object as object
use mmtk_openjdk.X86.Satb as satb
use mmtk_openjdk.X86.Satb.{choose_tmp}
use mmtk_openjdk.X86.Object.Calls.{object_reference_write_post-runtime}
use mmtk_openjdk.X86.Satb.Calls.{IsOutside, object_reference_write_pre-runtime}

unfoldable pub write_pre_of :
    Barrier
    → Settings
    → (in_heap : Bool) → Address
    → (val : Option ℕ) → (tmp1 tmp2 : ℕ) → List Instruction
write_pre_of satb_barrier s in_heap dst val tmp1 tmp2 =
    satb.object_reference_write_pre s in_heap dst val tmp1 tmp2
write_pre_of _ s in_heap dst val tmp1 tmp2 = []

unfoldable pub write_post_of :
    Barrier
    → Settings
    → (in_heap : Bool) → Address
    → (val : Option ℕ) → (tmp2 : ℕ) → List Instruction
write_post_of object_barrier s in_heap dst val tmp2 =
    object.object_reference_write_post s in_heap dst val tmp2
write_post_of _ s in_heap dst val tmp2 = []

-- `raw` is what `BarrierSetAssembler::store_at` of OpenJDK emits.
unfoldable pub store_at :
    (raw : List Instruction)
    → Barrier
    → Settings
    → (in_heap : Bool) → BasicType
    → Address
    → (val : Option ℕ) → (tmp1 tmp2 : ℕ) → List Instruction
unfolding write_pre_of write_post_of
store_at raw b s in_heap type dst val tmp1 tmp2 =
    (if is_oop type then write_pre_of b s in_heap dst val tmp1 tmp2 else [])
    ++ raw
    ++ (if is_oop type then write_post_of b s in_heap dst val tmp2 else [])

module _ (clobber : (ℕ → ℕ) → ℕ → ℕ) where
  pub exec-append :
      (a b : List Instruction) (to : Option ℕ) (c : Cpu)
      → exec clobber (a ++ b) to c ≡ (let (to', c') = exec clobber a to c in exec clobber b to' c')
  unfolding exec
  exec-append [] b to c = refl
  exec-append (bind l ∷ a) b (some k) c = exec-append a b _ c
  exec-append (bind l ∷ a) b none c = exec-append a b none _
  exec-append (jmp l ∷ a) b none c = exec-append a b _ c
  exec-append (jcc cond l ∷ a) b none c = elim (Bool-cases (holds cond c.compared)) [
    | inl h ↦ simp h (exec-append a b (some l) c)
    | inr h ↦ simp h (exec-append a b none c)
  ]
  exec-append (i ∷ a) b (some k) c = exec-append a b (some k) c
  exec-append (i ∷ a) b none c = exec-append a b none _

  pub exec-then :
      (a b : List Instruction) (c : Cpu)
      → (exec clobber a none c).0 ≡ none
      → exec clobber (a ++ b) none c ≡ exec clobber b none (exec clobber a none c).1
  exec-then a b c ends =
      exec-append a b none c ∙ ap (λ to. exec clobber b to (exec clobber a none c).1) ends

-- The store itself makes no call, comes to its end, and leaves the object's register and the metadata.
abbrev pub IsRawStore : ((ℕ → ℕ) → ℕ → ℕ) → List Instruction → (base : ℕ) → Type 0
IsRawStore clobber raw base =
    (c : Cpu)
    → let (to, c') = exec clobber raw none c in
      (to ≡ none)
      × (c'.calls ≡ c.calls)
      × (c'.registers base ≡ c.registers base)
      × (c'.bytes ≡ c.bytes)

-- The registers of the object and of the value are no scratch registers of the barriers, nor `tmp2` and the
-- temporary `tmp` of the pre-barrier, and the value is in none of the first two arguments' registers.
pub record AreApart (base val tmp tmp2 : ℕ) : Type 0 where
  pub base_outside : IsOutside tmp base
  pub val_outside : IsOutside tmp val
  pub val_arg0 : val ≢ c_rarg0
  pub val_arg1 : val ≢ c_rarg1
  pub tmp_outside : (tmp ≢ rcx) × (tmp ≢ rscratch1) × (tmp ≢ rscratch2)
  pub base_tmp2 : base ≢ tmp2
  pub tmp2_outside : (tmp2 ≢ rcx) × (tmp2 ≢ rscratch1) × (tmp2 ≢ rscratch2)

-- What the runtime's barriers call before and after a store; the emitted post-barrier passes a null slot
-- and a null target.
abbrev pub runtime_calls : Settings → (ℕ → ℕ) → Barrier → (src slot val : ℕ) → List CoreCall
runtime_calls s bytes b src slot val =
    runtime_write_pre s bytes b src slot val ++ runtime_write_post s bytes b src 0 0

module _ (clobber : (ℕ → ℕ) → ℕ → ℕ) (raw : List Instruction) (s : Settings) (c : Cpu)
    (type : BasicType) (base scale disp val tmp1 tmp2 : ℕ) where
  abbrev pub dst : Address
  dst = record { base = base; index = none; scale = scale; disp = disp }

  -- The code runs to its end with these calls.
  abbrev Ends : Barrier → List CoreCall → Type 0
  Ends b calls =
      let (to, c') = exec clobber (store_at raw b s true type dst (some val) tmp1 tmp2) none c in
      (to ≡ none) × (c'.calls ≡ c.calls ++ calls)

  bare : is_oop type ≡ true → IsRawStore clobber raw base → Ends no_barrier []
  unfolding store_at write_pre_of write_post_of exec
  bare oop stores =
      let (ends, called, kept, same) = stores c in
      simp (oop, exec-then clobber raw [] c ends) (refl, called ∙ sym (append-nil c.calls))

  posted :
      is_oop type ≡ true
      → IsRawStore clobber raw base
      → AreApart base val (choose_tmp dst tmp1 tmp2) tmp2
      → c.registers base < 2 ^ 63
      → Ends object_barrier (
          runtime_calls s c.bytes object_barrier
            (c.registers base)
            (effective dst c.registers)
            (c.registers val))
  unfolding store_at write_pre_of write_post_of runtime_write_pre
  posted oop stores apart small =
      let (ends, called, kept, same) = stores c in
      let c₁ = (exec clobber raw none c).1 in
      let calls : (ℕ → ℕ) → ℕ → List CoreCall =
        λ bytes v. runtime_write_post s bytes object_barrier v 0 0 in
      let o = apart.base_outside in
      let t = apart.tmp2_outside in
      let (ends', called') =
        object_reference_write_post-runtime clobber s c₁ dst val tmp2 o.0 o.1 o.2 apart.base_tmp2
          t.0 t.1 t.2 (rw kept small) in
      simp
        (
          oop,
          exec-then clobber raw (object.object_reference_write_post s true dst (some val) tmp2) c
              ends,
        )
        (
          ends',
          called'
              ∙ ap (λ l. l ++ calls c₁.bytes (c₁.registers base)) called
              ∙ ap (λ m. c.calls ++ calls m (c₁.registers base)) same
              ∙ ap (λ v. c.calls ++ calls c.bytes v) kept,
        )

  preceded :
      is_oop type ≡ true
      → IsRawStore clobber raw base
      → AreApart base val (choose_tmp dst tmp1 tmp2) tmp2
      → c.registers base < 2 ^ 63
      → Ends satb_barrier (
          runtime_calls s c.bytes satb_barrier
            (c.registers base)
            (effective dst c.registers)
            (c.registers val))
  unfolding store_at write_pre_of write_post_of runtime_write_post exec
  preceded oop stores apart small =
      let t = apart.tmp_outside in
      let (ends, called) =
        object_reference_write_pre-runtime clobber s c base scale disp val tmp1 tmp2
          apart.base_outside apart.val_outside apart.val_arg0 apart.val_arg1 t.0 t.1 t.2 small in
      let pre = satb.object_reference_write_pre s true dst (some val) tmp1 tmp2 in
      let c₁ = (exec clobber pre none c).1 in
      let (ends', called', _, _) = stores c₁ in
      let e = exec-append clobber (pre ++ raw) [] none c ∙ exec-then clobber pre raw c ends in
      let calls =
        runtime_calls s c.bytes satb_barrier (c.registers base) (effective dst c.registers)
          (c.registers val) in
      simp oop (
        subst (λ r. (r.0 ≡ none) × (r.1.calls ≡ c.calls ++ calls)) (sym e)
          (ends', called' ∙ called ∙ ap (λ l. c.calls ++ l) (sym (append-nil _))))

  -- Whatever a C call leaves in the registers, whichever barrier is selected, and whatever OpenJDK emits
  -- for the store itself: for a store of an oop in a register to a heap object below 2 ^ 63 at an address
  -- without an index, with registers apart from those of the barriers, where the store itself makes no
  -- call and leaves the object's register and the metadata, the emitted code runs to its end, and makes the calls of
  -- the runtime pre-barrier for the object, the slot and the value, and then those of the runtime
  -- post-barrier for the object with a null slot and target, in both settings of the fast path.
  pub store_at-runtime :
      (b : Barrier)
      → is_oop type ≡ true
      → IsRawStore clobber raw base
      → AreApart base val (choose_tmp dst tmp1 tmp2) tmp2
      → c.registers base < 2 ^ 63
      → let (to, c') = exec clobber (store_at raw b s true type dst (some val) tmp1 tmp2) none c in
        (to ≡ none)
        × (c'.calls
            ≡ c.calls
              ++ runtime_calls s c.bytes b
                  (c.registers base)
                  (effective dst c.registers)
                  (c.registers val))
  unfolding runtime_write_pre runtime_write_post
  store_at-runtime no_barrier oop stores apart small = bare oop stores
  store_at-runtime object_barrier oop stores apart small = posted oop stores apart small
  store_at-runtime satb_barrier oop stores apart small = preceded oop stores apart small
