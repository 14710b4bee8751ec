-- ===== src/Compiled/Remembered/Runs.antt =====
-- Runs of writes and array copies under the object barrier, whoever makes them.
use mmtk_openjdk.Base.{
  ℕ, ◌≡◌, refl, ◌⊎◌, inl, inr, Bool, true, false, Bool-cases, List, [], ◌∷◌, has, arith,
}
use mmtk_openjdk.Barriers.Metadata.{is_unlogged, IsAddress}
use mmtk_openjdk.Barriers.Runtime.{
  object_barrier, Settings, object_reference_array_copy_pre, object_reference_array_copy_post,
}
use mmtk_openjdk.Barriers.Access.{
  Core, Machine, perform, perform_all, oop_arraycopy_in_heap, clone_in_heap,
}
use mmtk_openjdk.Barriers.Remembered.{ObjectCore}
use mmtk_openjdk.Compiled.Accesses.{
  Access, write, copy, stub_copy, clone, write_by, access_all, StaysInRange, ChangesOnly,
}
use mmtk_openjdk.X86.Elision.{is_oop}
use mmtk_openjdk.X86.Copies.{
  Stub, src_of, dst_of, count_of, IsSaved, copy_by_stub, copy_by_stub-object,
  copy_by_stub-uninitialized,
}
use mmtk_openjdk.Compiled.Remembered.{RegionCore, AllHeld, IsNew}
use mmtk_openjdk.Compiled.Remembered.Writers.{IsSound, write_by-Held}

module _ (s : Settings) (core : Core) (object : ObjectCore s.metadata_base core)
    (region : RegionCore core object.remembered) (f₀ u₀ : ℕ → ℕ) where
  open region use {copy_notes, copy_keeps_noted, copy_keeps, copy_logs_nothing}

  copy-Held :
      (raw_copy : (ℕ → ℕ) → (ℕ → ℕ) × Bool) (src dst length : ℕ) (m : Machine core)
      → StaysInRange raw_copy dst length
      → AllHeld s core object region f₀ u₀ m
      → AllHeld s core object region f₀ u₀
          (oop_arraycopy_in_heap core s object_barrier raw_copy src dst length m).1
  unfolding oop_arraycopy_in_heap perform_all perform object_reference_array_copy_pre
      object_reference_array_copy_post
  copy-Held raw_copy src dst length m stays held obj a al i u =
      let f = (raw_copy m.fields).0 in
      rw (copy_logs_nothing src dst length f m.metadata m.state) (
        ground (
          arith,
          held obj a al i u,
          stays m.fields a,
          copy_notes src dst length a f m.metadata m.state,
          copy_keeps_noted src dst length a f m.metadata m.state,
          copy_keeps src dst length obj f m.metadata m.state,
        ))

  clone-Held :
      (raw_clone : (ℕ → ℕ) → (ℕ → ℕ)) (src dst size : ℕ) (m : Machine core)
      → ChangesOnly raw_clone (region.slots_of dst)
      → IsNew s core object region f₀ u₀ dst
      → AllHeld s core object region f₀ u₀ m
      → AllHeld s core object region f₀ u₀
          (clone_in_heap core s object_barrier raw_clone src dst size m)
  unfolding clone_in_heap
  clone-Held raw_clone src dst size m only new held obj a al i u =
      elim (Bool-cases (has a (region.slots_of dst))) [
        | inl shared ↦ ground (arith, region.slots_apart obj dst a i shared)
        | inr other ↦ ground (arith, held obj a al i u, only m.fields a other)
      ]

  -- The stub copies oops; and it keeps its registers and stays in its range, or it copies into a new object that is not
  -- initialized.
  abbrev pub IsSoundStub : Stub → ((ℕ → ℕ) → (ℕ → ℕ) × Bool) → Type 0
  IsSoundStub t raw_copy =
      (is_oop t.type ≡ true)
      × (((t.kind.dest_uninitialized ≡ false)
            × IsSaved t
            × StaysInRange raw_copy (dst_of t) (count_of t))
          ⊎ ((t.kind.dest_uninitialized ≡ true)
              × ((new : ℕ) × ChangesOnly (λ f. (raw_copy f).0) (region.slots_of new)
                  × IsNew s core object region f₀ u₀ new)))

  stub_copy-Held :
      (t : Stub) (raw_copy : (ℕ → ℕ) → (ℕ → ℕ) × Bool) (m : Machine core)
      → IsSoundStub t raw_copy
      → AllHeld s core object region f₀ u₀ m
      → AllHeld s core object region f₀ u₀ (copy_by_stub core s object_barrier t raw_copy m)
  stub_copy-Held t raw_copy m (oop, inl (init, saved, stays)) held =
      rw (copy_by_stub-object core s t raw_copy m oop init saved)
        (copy-Held raw_copy (src_of t) (dst_of t) (count_of t) m stays held)
  stub_copy-Held t raw_copy m (oop, inr (uninit, (new, only, fresh))) held =
      rw (copy_by_stub-uninitialized core s t raw_copy m 0 new 0 uninit)
        (clone-Held (λ f. (raw_copy f).0) 0 new 0 m only fresh held)

  -- Each write is sound, each raw copy stays in its range, and each clone is a new object.
  abbrev pub AreSound : List Access → Type 0
  AreSound [] = Unit
  AreSound (write by w ∷ rest) = IsSound s core object region f₀ u₀ by w × AreSound rest
  AreSound (copy raw_copy src dst length ∷ rest) = StaysInRange raw_copy dst length × AreSound rest
  AreSound (stub_copy t raw_copy ∷ rest) = IsSoundStub t raw_copy × AreSound rest
  AreSound (clone raw_clone src dst size ∷ rest) =
      (ChangesOnly raw_clone (region.slots_of dst) × IsNew s core object region f₀ u₀ dst)
      × AreSound rest

  access_all-Held :
      (accesses : List Access) (m : Machine core)
      → AreSound accesses
      → AllHeld s core object region f₀ u₀ m
      → AllHeld s core object region f₀ u₀ (access_all core s object_barrier accesses m)
  unfolding access_all
  access_all-Held [] m sound held = held
  access_all-Held (write by w ∷ rest) m sound held =
      access_all-Held rest (write_by core s object_barrier by w m) sound.1
        (write_by-Held s core object region f₀ u₀ by w m sound.0 held)
  access_all-Held (copy raw_copy src dst length ∷ rest) m sound held =
      access_all-Held rest _ sound.1 (copy-Held raw_copy src dst length m sound.0 held)
  access_all-Held (stub_copy t raw_copy ∷ rest) m sound held =
      access_all-Held rest _ sound.1 (stub_copy-Held t raw_copy m sound.0 held)
  access_all-Held (clone raw_clone src dst size ∷ rest) m sound held =
      access_all-Held rest _ sound.1 (clone-Held raw_clone src dst size m sound.0.0 sound.0.1 held)

-- With an mmtk-core whose object barrier keeps its contract for writes and for copies, the fast paths on or off:
-- after any stores, compare-exchanges, exchanges and array copies of oops and clones of objects, a slot of an object
-- that was unlogged at the start holds what it held then, or null, and the object is unlogged still; or the object
-- is remembered; or the slot is noted as one that was copied to. Each write is made by the VM through the access
-- barrier or by the code of either compiler, into a slot of an aligned object (below 2 ^ 63 for compiled code),
-- patched by the client compiler or not; the server compiler may drop the post-barrier where it takes the value for
-- null or the object for the one just allocated, if such a value is null and such an object was not unlogged at the
-- start. Each copy is made by the VM, or by a stub with the emitted prologue and epilogue round OpenJDK's copying
-- code, which leaves the registers that the epilogue reads, and changes no slot but those that are copied to. The
-- clones are made by the VM; a clone, and a stub's copy into memory that is not initialized, which have no barrier,
-- change no slot but those of a new object, which was not unlogged at the start.
pub no_oop_enters_unseen :
    (s : Settings) (core : Core) (object : ObjectCore s.metadata_base core)
    (region : RegionCore core object.remembered) (accesses : List Access) (m : Machine core)
    (obj slot : ℕ)
    → AreSound s core object region m.fields m.metadata accesses
    → IsAddress obj
    → has slot (region.slots_of obj) ≡ true
    → is_unlogged s.metadata_base m.metadata obj ≡ true
    → let m' = access_all core s object_barrier accesses m in
      ((is_unlogged s.metadata_base m'.metadata obj ≡ true)
        × ((m'.fields slot ≡ m.fields slot) ⊎ (m'.fields slot ≡ 0)))
      ⊎ ((object.remembered m'.state obj ≡ true) ⊎ (region.noted m'.state slot ≡ true))
no_oop_enters_unseen s core object region accesses m obj slot sound al i u =
    access_all-Held s core object region m.fields m.metadata accesses m sound
      (λ obj' slot' al' i' u'. inl (u', inl refl)) obj slot al i u
