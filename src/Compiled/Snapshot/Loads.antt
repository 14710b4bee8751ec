-- ===== src/Compiled/Snapshot/Loads.antt =====
-- Weak loads while the collector marks: the referent that the VM or compiled code gets stays recorded
-- (openjdk/barriers/mmtkSATBBarrier.cpp, `oop_load_in_heap_at` of openjdk/mmtkBarrierSet.hpp).
use mmtk_openjdk.Base.{
  ℕ, ◌≡◌, ◌≢◌, refl, sym, subst, ◌∙◌, inl, inr, Bool, true, List, [], ◌∷◌, arith,
}
use mmtk_openjdk.Barriers.Runtime.{load_reference, Settings, load_reference_barrier}
use mmtk_openjdk.Barriers.Access.{Core, Machine, perform}
use mmtk_openjdk.Barriers.Snapshot.{SatbCore}
use mmtk_openjdk.Compiled.C1
use mmtk_openjdk.Compiled.C2
use mmtk_openjdk.Compiled.C2.{Store, UnknownLoad, can_remove_barrier}
use mmtk_openjdk.Compiled.Snapshot.Runs.{CopyCore}
use mmtk_openjdk.Compiled.Loads.{
  Reader, vm, c1_load, c2_load, load_by, IsOfReferent, Step, change, load, run,
}
use mmtk_openjdk.Compiled.Snapshot.Recorded.{IsSmall, access-keeps}

-- What the barrier relies on in mmtk-core for loads: the call records the oop, keeps what is recorded, and leaves the
-- metadata alone.
pub record LoadCore (core : Core) (recorded : core.State → ℕ → Bool) : Type 0 where
  pub load_records :
      (value : ℕ) (f u : ℕ → ℕ) (st : core.State)
      → recorded (core.handle (load_reference value) f u st).0 value ≡ true
  pub load_keeps :
      (value v : ℕ) (f u : ℕ → ℕ) (st : core.State)
      → recorded st v ≡ true
      → recorded (core.handle (load_reference value) f u st).0 v ≡ true

module _ (core : Core) (s : Settings) (satb : SatbCore s.metadata_base core)
    (copies : CopyCore core satb.recorded) (loads : LoadCore core satb.recorded) where
  open satb use {recorded}
  open loads use {load_records, load_keeps}

  abbrev Holds : ℕ → Machine core → Type 0
  Holds v m = recorded m.state v ≡ true

  load_by-value :
      (r : Reader) (slot : ℕ) (m : Machine core) → (load_by core s r 1 slot m).0 ≡ m.fields slot
  unfolding load_by
  load_by-value (vm on_strong_oop_ref peek) slot m = refl
  load_by-value (c1_load is_oop is_weak is_phantom is_anonymous referent_check) slot m = refl
  load_by-value
        (c2_load referent_offset u is_oop in_heap on_weak unknown known_address offset is_instance)
        slot m =
      refl

  load_by-records :
      (r : Reader) (slot : ℕ) (m : Machine core)
      → IsOfReferent r
      → m.fields slot ≢ 0
      → Holds (m.fields slot) (load_by core s r 1 slot m).1
  unfolding load_by perform C1.load_at_resolved C2.load_at_resolved load_reference_barrier
  load_by-records (vm on_strong_oop_ref peek) slot m weak ne =
      ground (arith, load_records (m.fields slot) m.fields m.metadata m.state)
  load_by-records (c1_load is_oop is_weak is_phantom is_anonymous referent_check) slot m weak ne =
      ground (arith, load_records (m.fields slot) m.fields m.metadata m.state)
  load_by-records
        (c2_load referent_offset u is_oop in_heap on_weak unknown known_address offset is_instance)
        slot m (o, h, k) ne =
      elim k [
        | inl w ↦ ground (arith, load_records (m.fields slot) m.fields m.metadata m.state)
        | inr (un, kn, facts, at, inst) ↦ ground (
          arith,
          facts.array,
          facts.other,
          facts.constant,
          load_records (m.fields slot) m.fields m.metadata m.state,
        )
      ]

  load_by-loaded :
      (r : Reader) (slot : ℕ) (m : Machine core)
      → IsOfReferent r
      → (load_by core s r 1 slot m).0 ≢ 0
      → Holds (load_by core s r 1 slot m).0 (load_by core s r 1 slot m).1
  load_by-loaded r slot m weak ne =
      let same = load_by-value r slot m in
      subst (λ v. Holds v (load_by core s r 1 slot m).1) (sym same)
        (load_by-records r slot m weak (λ e. ne (same ∙ e)))

  load_by-keeps :
      (r : Reader) (active slot v : ℕ) (m : Machine core)
      → Holds v m
      → Holds v (load_by core s r active slot m).1
  unfolding load_by perform C1.load_at_resolved C2.load_at_resolved load_reference_barrier
  load_by-keeps (vm on_strong_oop_ref peek) active slot v m h =
      ground (arith, load_keeps (m.fields slot) v m.fields m.metadata m.state)
  load_by-keeps (c1_load is_oop is_weak is_phantom is_anonymous referent_check) active slot v m h =
      ground (arith, load_keeps (m.fields slot) v m.fields m.metadata m.state)
  load_by-keeps
        (c2_load referent_offset u is_oop in_heap on_weak unknown known_address offset is_instance)
        active slot v m h =
      ground (arith, load_keeps (m.fields slot) v m.fields m.metadata m.state)

  -- Compiled code writes to objects below 2 ^ 63, and stubs copy oops.
  abbrev pub AreSmall : List Step → Type 0
  AreSmall [] = Unit
  AreSmall (change a ∷ rest) = IsSmall core s satb copies a × AreSmall rest
  AreSmall (load r active slot ∷ rest) = AreSmall rest

  run-keeps :
      (steps : List Step) (v : ℕ) (m : Machine core)
      → AreSmall steps
      → Holds v m
      → Holds v (run core s steps m)
  unfolding run
  run-keeps [] v m small h = h
  run-keeps (change a ∷ rest) v m small h =
      run-keeps rest v _ small.1 (access-keeps core s satb copies a v m small.0 h)
  run-keeps (load r active slot ∷ rest) v m small h =
      run-keeps rest v _ small (load_by-keeps r active slot v m h)

-- With an mmtk-core whose SATB barrier keeps its contracts for writes, copies and loads: whenever, while the
-- collector marks, the VM loads the referent of a weak or phantom reference from the heap other than to peek, the
-- code of the client compiler that of a weak or phantom one, or the code of the server compiler that of a weak one
-- in the heap (in compiled code also by a load of unknown strength that turns out to be of the referent, for the
-- server compiler one in the heap with a base and an offset that are not dead, where what it knows is true), and
-- gets an oop that is not null: this oop is recorded, and is so still after any writes, array copies, clones and
-- loads that follow, in which compiled code writes to objects below 2 ^ 63, and stubs copy oops.
pub referent_stays :
    (core : Core) (s : Settings) (satb : SatbCore s.metadata_base core)
    (copies : CopyCore core satb.recorded) (loads : LoadCore core satb.recorded) (r : Reader)
    (slot : ℕ) (steps : List Step) (m : Machine core)
    → IsOfReferent r
    → (load_by core s r 1 slot m).0 ≢ 0
    → AreSmall core s satb copies loads steps
    → satb.recorded
        (run core s steps (load_by core s r 1 slot m).1).state
        (load_by core s r 1 slot m).0
      ≡ true
referent_stays core s satb copies loads r slot steps m weak ne small =
    run-keeps core s satb copies loads steps _ _ small
      (load_by-loaded core s satb copies loads r slot m weak ne)
