-- ===== src/Compiled/Remembered.antt =====
-- The object barrier where the VM and the code of both compilers write, the VM and stubs copy arrays, and the server compiler
-- drops barriers: openjdk/barriers/mmtkObjectBarrier.cpp with openjdk/mmtkBarrierSetC2.cpp and the accesses of
-- openjdk/mmtkBarrierSet.hpp.
pub mod Writers
pub mod Runs
use mmtk_openjdk.Base.{
  ℕ, ◌^◌, ◌<◌, ◌≡◌, ◌≢◌, refl, sym, subst, ◌⊎◌, inl, inr, Bool, true, false, List, [], ◌∷◌, ◌==◌,
  has, add64, arith, Bool-cases, ==_iff,
}
use mmtk_openjdk.Barriers.Metadata.{is_unlogged, IsAddress}
use mmtk_openjdk.Barriers.Runtime.{
  write_slow, array_copy_post, object_barrier, Settings, object_reference_write_post,
  object_reference_array_copy_pre, object_reference_array_copy_post,
}
use mmtk_openjdk.Barriers.Access.{
  Core, Machine, put, before, after, perform, perform_all, oop_arraycopy_in_heap,
}
use mmtk_openjdk.Barriers.Writes.{Write, store, cmpxchg, xchg, object_of, slot_of, do_write}
use mmtk_openjdk.Barriers.Remembered.{ObjectCore}
use mmtk_openjdk.Compiled.Accesses.{
  Writer, runtime, compiled, Access, write, copy, write_by, access_all, SeesNew, is_in_range,
  StaysInRange,
}
use mmtk_openjdk.Compiled.C2
use mmtk_openjdk.Compiled.C2.{Store, can_remove_barrier}
use mmtk_openjdk.Compiled.Calls.{c1_write_post-runtime, c2_write_post-runtime}
use mmtk_openjdk.Compiled.Stores.{Compiler, c1, c2, pre_of, post_of, pre, post, compiled_write}

-- What the barrier relies on in mmtk-core beside `ObjectCore`: objects do not share slots; the call behind a copy
-- notes all slots that were copied to, and leaves the metadata alone; and no call forgets.
pub record RegionCore (core : Core) (remembered : core.State → ℕ → Bool) : Type 0 where
  pub slots_of : ℕ → List ℕ
  pub noted : core.State → ℕ → Bool
  pub slots_apart :
      (a b slot : ℕ) → has slot (slots_of a) ≡ true → has slot (slots_of b) ≡ true → a ≡ b
  pub slow_keeps_noted :
      (src slot target a : ℕ) (f u : ℕ → ℕ) (st : core.State)
      → noted st a ≡ true
      → noted (core.handle (write_slow src slot target) f u st).0 a ≡ true
  pub copy_notes :
      (src dst count a : ℕ) (f u : ℕ → ℕ) (st : core.State)
      → is_in_range a dst count ≡ true
      → noted (core.handle (array_copy_post src dst count) f u st).0 a ≡ true
  pub copy_keeps_noted :
      (src dst count a : ℕ) (f u : ℕ → ℕ) (st : core.State)
      → noted st a ≡ true
      → noted (core.handle (array_copy_post src dst count) f u st).0 a ≡ true
  pub copy_keeps :
      (src dst count obj : ℕ) (f u : ℕ → ℕ) (st : core.State)
      → remembered st obj ≡ true
      → remembered (core.handle (array_copy_post src dst count) f u st).0 obj ≡ true
  pub copy_logs_nothing :
      (src dst count : ℕ) (f u : ℕ → ℕ) (st : core.State)
      → (core.handle (array_copy_post src dst count) f u st).1 ≡ u

module _ (s : Settings) (core : Core) (object : ObjectCore s.metadata_base core)
    (region : RegionCore core object.remembered) (f₀ u₀ : ℕ → ℕ) where
  open object use {
    remembered, slow_remembers, slow_keeps, slow_logs_only, post_unlogged, post_logged,
  }
  open region use {
    slots_of, noted, slots_apart, slow_keeps_noted, copy_notes, copy_keeps_noted, copy_keeps,
    copy_logs_nothing,
  }

  abbrev pub IsKnown : Machine core → ℕ → ℕ → Type 0
  IsKnown m obj slot = (remembered m.state obj ≡ true) ⊎ (noted m.state slot ≡ true)

  -- The object or the slot is known to the collector; or the object is unlogged, and the slot holds what it held
  -- at the start, or null.
  abbrev pub Held : Machine core → ℕ → ℕ → Type 0
  Held m obj slot =
      ((is_unlogged s.metadata_base m.metadata obj ≡ true)
        × ((m.fields slot ≡ f₀ slot) ⊎ (m.fields slot ≡ 0)))
      ⊎ IsKnown m obj slot

  abbrev pub AllHeld : Machine core → Type 0
  AllHeld m =
      (obj slot : ℕ)
      → IsAddress obj
      → has slot (slots_of obj) ≡ true
      → is_unlogged s.metadata_base u₀ obj ≡ true
      → Held m obj slot

  abbrev pub IsNew : ℕ → Type 0
  IsNew obj = is_unlogged s.metadata_base u₀ obj ≡ false

  -- The fields `f` are those of `m` but at the slot.
  abbrev pub DiffersAt : ℕ → Machine core → (ℕ → ℕ) → Type 0
  DiffersAt slot m f = (a : ℕ) → a ≢ slot → f a ≡ m.fields a

  -- A raw store of null, or into a new object, needs no barrier.
  pub put-Held :
      (src slot value : ℕ) (m : Machine core)
      → has slot (slots_of src) ≡ true
      → (value ≡ 0) ⊎ IsNew src
      → AllHeld m
      → AllHeld (put core slot value m)
  put-Held src slot value m field harmless held obj a al i u =
      ground (arith, held obj a al i u, slots_apart obj src a)

  -- Behind a change of one slot the slow call for its object, if it is unlogged, makes up for it.
  slow-Held :
      (src slot target : ℕ) (m : Machine core) (f : ℕ → ℕ)
      → IsAddress src
      → has slot (slots_of src) ≡ true
      → DiffersAt slot m f
      → is_unlogged s.metadata_base m.metadata src ≡ true
      → AllHeld m
      → AllHeld (perform core (write_slow src slot target) (record m { fields = f }))
  unfolding perform
  slow-Held src slot target m f al field differs unlogged held obj a al' i u = ground (
    arith,
    held obj a al' i u,
    differs a,
    slots_apart obj src a,
    slow_remembers src slot target f m.metadata m.state,
    slow_keeps src slot target obj f m.metadata m.state,
    slow_keeps_noted src slot target a f m.metadata m.state,
    slow_logs_only src slot target obj f m.metadata m.state,
  )

  -- A logged object needs no call.
  logged-Held :
      (src slot : ℕ) (m : Machine core) (f : ℕ → ℕ)
      → has slot (slots_of src) ≡ true
      → DiffersAt slot m f
      → is_unlogged s.metadata_base m.metadata src ≡ false
      → AllHeld m
      → AllHeld (record m { fields = f })
  logged-Held src slot m f field differs logged held obj a al' i u =
      ground (arith, held obj a al' i u, differs a, slots_apart obj src a)

  pub after-Held :
      (src slot target : ℕ) (m : Machine core) (f : ℕ → ℕ)
      → IsAddress src
      → has slot (slots_of src) ≡ true
      → DiffersAt slot m f
      → AllHeld m
      → AllHeld (after core s object_barrier src slot target (record m { fields = f }))
  unfolding after
  after-Held src slot target m f al field differs held =
      elim (Bool-cases (is_unlogged s.metadata_base m.metadata src)) [
        | inl u ↦
            let slow = slow-Held src slot target m f al field differs u held in
            elim (Bool-cases s.barrier_fastpath) [
              | inl fast ↦ simp (fast, u) slow
              | inr full ↦
                  simp full (rw (post_unlogged src slot target f m.metadata m.state u) slow)
            ]
        | inr l ↦
            let same = logged-Held src slot m f field differs l held in
            elim (Bool-cases s.barrier_fastpath) [
              | inl fast ↦ simp (fast, l) same
              | inr full ↦ simp full (rw (post_logged src slot target f m.metadata m.state l) same)
            ]
      ]

  pub put-differs :
      (slot value : ℕ) (m : Machine core) → DiffersAt slot m (put core slot value m).fields
  put-differs slot value m a ne = ground arith

  -- The pre-barrier is none.
  before-none :
      (src slot target : ℕ) (m : Machine core) → before core s object_barrier src slot target m ≡ m
  unfolding before perform_all
  before-none src slot target m = refl

  abbrev pub IsField : Write → Type 0
  IsField w = IsAddress (object_of w) × (has (slot_of w) (slots_of (object_of w)) ≡ true)

  pub do_write-Held :
      (w : Write) (m : Machine core)
      → IsField w
      → AllHeld m
      → AllHeld (do_write core s object_barrier w m)
  unfolding do_write before-none
  do_write-Held (store base offset value) m (al, field) held =
      let slot = add64 base offset in
      after-Held base slot value m _ al field (put-differs slot value m) held
  do_write-Held (cmpxchg base offset new_value compare_value) m (al, field) held =
      let slot = add64 base offset in
      elim (Bool-cases (m.fields slot == compare_value)) [
        | inl e ↦
            simp e (after-Held base slot new_value m _ al field (put-differs slot new_value m) held)
        | inr e ↦ simp e (after-Held base slot new_value m m.fields al field (λ a ne. refl) held)
      ]
  do_write-Held (xchg base offset new_value) m (al, field) held =
      let slot = add64 base offset in
      after-Held base slot new_value m _ al field (put-differs slot new_value m) held
