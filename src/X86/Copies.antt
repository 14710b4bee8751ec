-- ===== src/X86/Copies.antt =====
-- An array copy by a stub: the code that `arraycopy_prologue` emits, the copy itself, which is OpenJDK's, and the code
-- that `arraycopy_epilogue` emits (openjdk/barriers/mmtkObjectBarrier.cpp, openjdk/barriers/mmtkSATBBarrier.cpp), with
-- the source, the destination and the count in the registers of the first three arguments.
use mmtk_openjdk.Base.{ℕ, ◌≡◌, refl, Bool, true, false, List, [], none, arith}
use mmtk_openjdk.Barriers.Runtime.{
  Barrier, object_barrier, satb_barrier, Settings, CoreCall, object_reference_array_copy_pre,
  object_reference_array_copy_post,
}
use mmtk_openjdk.Barriers.Access.{Core, Machine, perform_all, oop_arraycopy_in_heap, clone_in_heap}
use mmtk_openjdk.X86.Cpu.{c_rarg0, c_rarg1, c_rarg2, Instruction, Cpu, exec}
use mmtk_openjdk.X86.Elision.{BasicType, is_oop}
use mmtk_openjdk.X86.Object as object
use mmtk_openjdk.X86.Object.{Copy, count_after, dst_after}
use mmtk_openjdk.X86.Object.Calls.{arraycopy_epilogue-saved}
use mmtk_openjdk.X86.Satb as satb
use mmtk_openjdk.X86.Satb.Calls.{arraycopy_prologue-runtime}

unfoldable pub prologue_of : Barrier → Copy → BasicType → List Instruction
prologue_of satb_barrier k type = satb.arraycopy_prologue type c_rarg0 c_rarg1 c_rarg2
prologue_of object_barrier k type = object.arraycopy_prologue k type c_rarg0 c_rarg1 c_rarg2
prologue_of _ k type = []

unfoldable pub epilogue_of : Barrier → Copy → BasicType → List Instruction
epilogue_of object_barrier k type = object.arraycopy_epilogue k type c_rarg0 c_rarg1 c_rarg2
epilogue_of _ k type = []

-- A run of the stub: what a C call leaves in the registers, and the states of the processor in front of the prologue
-- and behind the copy itself.
pub record Stub : Type 0 where
  pub clobber : (ℕ → ℕ) → ℕ → ℕ
  pub kind : Copy
  pub type : BasicType
  pub start : Cpu
  pub copied : Cpu

abbrev pub src_of : Stub → ℕ
src_of t = t.start.registers c_rarg0

abbrev pub dst_of : Stub → ℕ
dst_of t = t.start.registers c_rarg1

abbrev pub count_of : Stub → ℕ
count_of t = t.start.registers c_rarg2

-- The calls that the code makes.
abbrev calls_of : ((ℕ → ℕ) → ℕ → ℕ) → List Instruction → Cpu → List CoreCall
calls_of clobber code c = (exec clobber code none (record c { calls = [] })).1.calls

unfoldable pub prologue_calls : Barrier → Stub → List CoreCall
unfolding prologue_of exec
prologue_calls b t = calls_of t.clobber (prologue_of b t.kind t.type) t.start

unfoldable pub epilogue_calls : Barrier → Stub → List CoreCall
unfolding epilogue_of exec
epilogue_calls b t = calls_of t.clobber (epilogue_of b t.kind t.type) t.copied

-- The copying code leaves the registers that the epilogue reads as they are behind the prologue.
pub record IsSaved (t : Stub) : Type 0 where
  pub src_saved :
      t.copied.registers c_rarg0
      ≡ (exec t.clobber
            (prologue_of object_barrier t.kind t.type)
            none
            (record t.start { calls = [] })).1.registers
          c_rarg0
  pub dst_saved :
      let r = dst_after t.kind t.type c_rarg1 in
      t.copied.registers r
      ≡ (exec t.clobber
            (prologue_of object_barrier t.kind t.type)
            none
            (record t.start { calls = [] })).1.registers
          r
  pub count_saved :
      let r = count_after t.kind t.type c_rarg2 in
      t.copied.registers r
      ≡ (exec t.clobber
            (prologue_of object_barrier t.kind t.type)
            none
            (record t.start { calls = [] })).1.registers
          r

satb-prologue :
    (t : Stub)
    → is_oop t.type ≡ true
    → prologue_calls satb_barrier t
      ≡ object_reference_array_copy_pre satb_barrier (src_of t) (dst_of t) (count_of t)
unfolding prologue_calls prologue_of
satb-prologue t oop =
    (arraycopy_prologue-runtime t.clobber (record t.start { calls = [] }) t.type oop).1

object-prologue : (t : Stub) → prologue_calls object_barrier t ≡ []
unfolding prologue_calls prologue_of object.arraycopy_prologue exec
object-prologue t = ground arith

object-epilogue :
    (t : Stub)
    → is_oop t.type ≡ true
    → t.kind.dest_uninitialized ≡ false
    → IsSaved t
    → epilogue_calls object_barrier t
      ≡ object_reference_array_copy_post object_barrier (src_of t) (dst_of t) (count_of t)
unfolding epilogue_calls epilogue_of prologue_of object_reference_array_copy_post
object-epilogue t oop init saved =
    arraycopy_epilogue-saved t.clobber t.kind t.type (record t.start { calls = [] })
      (record t.copied { calls = [] }) oop init saved.src_saved saved.dst_saved saved.count_saved

no-epilogue : (t : Stub) → t.kind.dest_uninitialized ≡ true → epilogue_calls object_barrier t ≡ []
unfolding epilogue_calls epilogue_of object.arraycopy_epilogue exec
no-epilogue t uninit = ground arith

module _ (core : Core) (s : Settings) where
  -- What the copy itself does to the fields is a parameter.
  unfoldable pub copy_by_stub :
      Barrier → Stub → ((ℕ → ℕ) → (ℕ → ℕ) × Bool) → Machine core → Machine core
  unfolding prologue_calls epilogue_calls perform_all
  copy_by_stub b t raw_copy m =
      let m' = perform_all core (prologue_calls b t) m in
      perform_all core (epilogue_calls b t) (record m' { fields = (raw_copy m'.fields).0 })

  -- The stub does what the access barrier does.
  pub copy_by_stub-satb :
      (t : Stub) (raw_copy : (ℕ → ℕ) → (ℕ → ℕ) × Bool) (m : Machine core)
      → is_oop t.type ≡ true
      → copy_by_stub satb_barrier t raw_copy m
        ≡ (oop_arraycopy_in_heap core s satb_barrier raw_copy
            (src_of t)
            (dst_of t)
            (count_of t)
            m).1
  unfolding copy_by_stub oop_arraycopy_in_heap epilogue_calls epilogue_of
      object_reference_array_copy_post exec
  copy_by_stub-satb t raw_copy m oop = rw (satb-prologue t oop) refl

  pub copy_by_stub-object :
      (t : Stub) (raw_copy : (ℕ → ℕ) → (ℕ → ℕ) × Bool) (m : Machine core)
      → is_oop t.type ≡ true
      → t.kind.dest_uninitialized ≡ false
      → IsSaved t
      → copy_by_stub object_barrier t raw_copy m
        ≡ (oop_arraycopy_in_heap core s object_barrier raw_copy
            (src_of t)
            (dst_of t)
            (count_of t)
            m).1
  unfolding copy_by_stub oop_arraycopy_in_heap object_reference_array_copy_pre perform_all
  copy_by_stub-object t raw_copy m oop init saved =
      rw (object-prologue t) (rw (object-epilogue t oop init saved) refl)

  -- Into memory that is not initialized the object barrier is dropped, as for a clone.
  pub copy_by_stub-uninitialized :
      (t : Stub) (raw_copy : (ℕ → ℕ) → (ℕ → ℕ) × Bool) (m : Machine core) (src dst size : ℕ)
      → t.kind.dest_uninitialized ≡ true
      → copy_by_stub object_barrier t raw_copy m
        ≡ clone_in_heap core s object_barrier (λ f. (raw_copy f).0) src dst size m
  unfolding copy_by_stub clone_in_heap perform_all
  copy_by_stub-uninitialized t raw_copy m src dst size uninit =
      rw (object-prologue t) (rw (no-epilogue t uninit) refl)
