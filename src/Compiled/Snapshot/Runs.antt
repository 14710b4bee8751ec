-- ===== src/Compiled/Snapshot/Runs.antt =====
-- Runs of writes and array copies under the SATB barrier, whoever makes them.
use mmtk_openjdk.Base.{
  ℕ, ◌≡◌, refl, ◌⊎◌, inl, inr, Bool, true, List, [], ◌∷◌, ◌==◌, has, arith, Bool-cases,
}
use mmtk_openjdk.Barriers.Metadata.{is_unlogged, IsAddress}
use mmtk_openjdk.Barriers.Runtime.{
  array_copy_pre, satb_barrier, Settings, object_reference_array_copy_pre,
  object_reference_array_copy_post,
}
use mmtk_openjdk.Barriers.Access.{
  Core, Machine, perform, perform_all, oop_arraycopy_in_heap, clone_in_heap,
}
use mmtk_openjdk.Barriers.Snapshot.{SatbCore, AllKept}
use mmtk_openjdk.Compiled.Accesses.{
  Access, write, copy, stub_copy, clone, write_by, access_all, is_in_range, StaysInRange,
  ChangesOnly,
}
use mmtk_openjdk.X86.Elision.{is_oop}
use mmtk_openjdk.X86.Copies.{Stub, src_of, dst_of, count_of, copy_by_stub, copy_by_stub-satb}
use mmtk_openjdk.Compiled.Snapshot.{IsNew, IsSound, write_by-Kept}

-- What the barrier relies on in mmtk-core for copies: the call in front of a copy records the oops in all slots
-- that are copied to, keeps what is recorded, and leaves the metadata alone.
pub record CopyCore (core : Core) (recorded : core.State → ℕ → Bool) : Type 0 where
  pub copy_records :
      (src dst count a : ℕ) (f u : ℕ → ℕ) (st : core.State)
      → is_in_range a dst count ≡ true
      → recorded (core.handle (array_copy_pre src dst count) f u st).0 (f a) ≡ true
  pub copy_keeps :
      (src dst count v : ℕ) (f u : ℕ → ℕ) (st : core.State)
      → recorded st v ≡ true
      → recorded (core.handle (array_copy_pre src dst count) f u st).0 v ≡ true
  pub copy_logs_nothing :
      (src dst count : ℕ) (f u : ℕ → ℕ) (st : core.State)
      → (core.handle (array_copy_pre src dst count) f u st).1 ≡ u

module _ (s : Settings) (core : Core) (satb : SatbCore s.metadata_base core)
    (copies : CopyCore core satb.recorded) (f₀ u₀ : ℕ → ℕ) where
  open copies use {copy_records, copy_keeps, copy_logs_nothing}

  copy-Kept :
      (raw_copy : (ℕ → ℕ) → (ℕ → ℕ) × Bool) (src dst length : ℕ) (m : Machine core)
      → StaysInRange raw_copy dst length
      → AllKept s core satb f₀ u₀ m
      → AllKept s core satb f₀ u₀
          (oop_arraycopy_in_heap core s satb_barrier raw_copy src dst length m).1
  unfolding oop_arraycopy_in_heap perform_all perform object_reference_array_copy_pre
      object_reference_array_copy_post
  copy-Kept raw_copy src dst length m stays kept obj a al i u = elim (Bool-cases (length == 0)) [
    | inl e ↦ simp e (ground (arith, kept obj a al i u, stays m.fields a))
    | inr e ↦ simp e (
        rw (copy_logs_nothing src dst length m.fields m.metadata m.state) (
          ground (
            arith,
            kept obj a al i u,
            stays m.fields a,
            copy_records src dst length a m.fields m.metadata m.state,
            copy_keeps src dst length (f₀ a) m.fields m.metadata m.state,
          )))
  ]

  stub_copy-Kept :
      (t : Stub) (raw_copy : (ℕ → ℕ) → (ℕ → ℕ) × Bool) (m : Machine core)
      → is_oop t.type ≡ true
      → StaysInRange raw_copy (dst_of t) (count_of t)
      → AllKept s core satb f₀ u₀ m
      → AllKept s core satb f₀ u₀ (copy_by_stub core s satb_barrier t raw_copy m)
  stub_copy-Kept t raw_copy m oop stays kept =
      rw (copy_by_stub-satb core s t raw_copy m oop)
        (copy-Kept raw_copy (src_of t) (dst_of t) (count_of t) m stays kept)

  clone-Kept :
      (raw_clone : (ℕ → ℕ) → (ℕ → ℕ)) (src dst size : ℕ) (m : Machine core)
      → ChangesOnly raw_clone (satb.slots_of dst)
      → IsNew s core satb f₀ u₀ dst
      → AllKept s core satb f₀ u₀ m
      → AllKept s core satb f₀ u₀ (clone_in_heap core s satb_barrier raw_clone src dst size m)
  unfolding clone_in_heap
  clone-Kept raw_clone src dst size m only new kept obj a al i u =
      elim (Bool-cases (has a (satb.slots_of dst))) [
        | inl shared ↦ ground (arith, satb.slots_apart obj dst a i shared)
        | inr other ↦ ground (arith, kept obj a al i u, only m.fields a other)
      ]

  -- Each write is sound, each raw copy stays in its range, and each clone is a new object.
  abbrev pub AreSound : List Access → Type 0
  AreSound [] = Unit
  AreSound (write by w ∷ rest) = IsSound s core satb f₀ u₀ by w × AreSound rest
  AreSound (copy raw_copy src dst length ∷ rest) = StaysInRange raw_copy dst length × AreSound rest
  AreSound (stub_copy t raw_copy ∷ rest) =
      ((is_oop t.type ≡ true) × StaysInRange raw_copy (dst_of t) (count_of t)) × AreSound rest
  AreSound (clone raw_clone src dst size ∷ rest) =
      (ChangesOnly raw_clone (satb.slots_of dst) × IsNew s core satb f₀ u₀ dst) × AreSound rest

  access_all-Kept :
      (accesses : List Access) (m : Machine core)
      → AreSound accesses
      → AllKept s core satb f₀ u₀ m
      → AllKept s core satb f₀ u₀ (access_all core s satb_barrier accesses m)
  unfolding access_all
  access_all-Kept [] m sound kept = kept
  access_all-Kept (write by w ∷ rest) m sound kept =
      access_all-Kept rest (write_by core s satb_barrier by w m) sound.1
        (write_by-Kept s core satb f₀ u₀ by w m sound.0 kept)
  access_all-Kept (copy raw_copy src dst length ∷ rest) m sound kept =
      access_all-Kept rest _ sound.1 (copy-Kept raw_copy src dst length m sound.0 kept)
  access_all-Kept (stub_copy t raw_copy ∷ rest) m sound kept =
      access_all-Kept rest _ sound.1 (stub_copy-Kept t raw_copy m sound.0.0 sound.0.1 kept)
  access_all-Kept (clone raw_clone src dst size ∷ rest) m sound kept =
      access_all-Kept rest _ sound.1 (clone-Kept raw_clone src dst size m sound.0.0 sound.0.1 kept)

-- With an mmtk-core whose SATB barrier keeps its contract for writes and for copies, the fast paths on or off: after
-- any stores, compare-exchanges, exchanges and array copies of oops and clones of objects, the oop that a slot of an
-- object unlogged at the start held then is either recorded, or still in the slot and its object unlogged. Each
-- write is made by the VM through the access barrier or by the code of either compiler, into a slot of an aligned
-- object (below 2 ^ 63 for compiled code), patched by the client compiler or not; the server compiler may drop the
-- pre-barrier where it takes the object for the one just allocated, if such an object was not unlogged at the start.
-- Each copy is made by the VM, or by a stub with the emitted prologue and epilogue round OpenJDK's copying code, and
-- changes no slot but those that are copied to. The clones are made by the VM; a clone, which has no barrier,
-- changes no slot but those of the new object, which was not unlogged at the start.
pub snapshot_outlives :
    (s : Settings) (core : Core) (satb : SatbCore s.metadata_base core)
    (copies : CopyCore core satb.recorded) (accesses : List Access) (m : Machine core)
    (obj slot : ℕ)
    → AreSound s core satb copies m.fields m.metadata accesses
    → IsAddress obj
    → has slot (satb.slots_of obj) ≡ true
    → is_unlogged s.metadata_base m.metadata obj ≡ true
    → let m' = access_all core s satb_barrier accesses m in
      ((is_unlogged s.metadata_base m'.metadata obj ≡ true) × (m'.fields slot ≡ m.fields slot))
      ⊎ (satb.recorded m'.state (m.fields slot) ≡ true)
snapshot_outlives s core satb copies accesses m obj slot sound al i u =
    access_all-Kept s core satb copies m.fields m.metadata accesses m sound
      (λ obj' slot' al' i' u'. inl (u', refl)) obj slot al i u
