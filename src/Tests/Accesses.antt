-- ===== src/Tests/Accesses.antt =====
-- Writes by the VM and by both compilers, and a copy, on two old objects and a new one.
use mmtk_openjdk.Base.{
  ℕ, ◌-◌, ◌≡◌, refl, inl, inr, ◌⊎◌, Bool, true, false, List, [], ◌∷◌, has, none, some, ◌==◌,
  if◌then◌else◌, arith,
}
use mmtk_openjdk.Barriers.Metadata.{is_unlogged, unlog_bit}
use mmtk_openjdk.Barriers.Runtime.{satb_barrier, object_barrier, Settings}
use mmtk_openjdk.Barriers.Access.{Machine}
use mmtk_openjdk.Barriers.Writes.{store, cmpxchg, xchg}
use mmtk_openjdk.Compiled.C2.{Store, UnknownLoad}
use mmtk_openjdk.Compiled.Calls.{IsTrue}
use mmtk_openjdk.Compiled.Loads.{Reader, vm, c2_load, load_by, Step, change, load, run}
use mmtk_openjdk.Compiled.Snapshot.Loads.{referent_stays}
use mmtk_openjdk.Compiled.Stores.{c1, c2}
use mmtk_openjdk.Compiled.Accesses.{
  runtime, compiled, Access, write, copy, stub_copy, clone, access_all, is_in_range,
}
use mmtk_openjdk.Compiled.Snapshot.Runs as SnapshotRuns
use mmtk_openjdk.Compiled.Snapshot.Runs.{snapshot_outlives}
use mmtk_openjdk.Compiled.Remembered.Runs as RememberedRuns
use mmtk_openjdk.Compiled.Remembered.Runs.{no_oop_enters_unseen}
use mmtk_openjdk.X86.Cpu.{c_rarg0, c_rarg1, c_rarg2, rscratch2, Cpu, exec}
use mmtk_openjdk.X86.Elision.{BasicType}
use mmtk_openjdk.X86.Object as object
use mmtk_openjdk.X86.Object.{count_after, dst_after}
use mmtk_openjdk.X86.Copies.{Stub, IsSaved, prologue_of}
use mmtk_openjdk.Tests.Cores.{
  small_core, small_core-SatbCore, small_core-ObjectCore, small_core-CopyCore,
  small_core-RegionCore, small_core-LoadCore,
}

abbrev settings : Settings
settings = record { metadata_base = 0; barrier_fastpath = true }

-- The object at 128 is logged, all others are not.
abbrev machine : Machine small_core
machine = record {
  fields = λ a. if a == 72 then 640 else 0;
  metadata = λ a. if a == 2 then 254 else 255;
  state = ((λ v. false), (λ obj. false), (λ a. false));
}

-- A store to the object just allocated, a store of null, and one of which nothing is known.
abbrev into_new : Store
into_new = record {
  is_null = false;
  just_allocated = false;
  precise_offset = true;
  allocation = some 7;
  initializes = some 7;
}

abbrev of_null : Store
of_null = record {
  is_null = true;
  just_allocated = false;
  precise_offset = false;
  allocation = none;
  initializes = none;
}

abbrev unknown : Store
unknown = record {
  is_null = false;
  just_allocated = false;
  precise_offset = true;
  allocation = some 7;
  initializes = none;
}

abbrev raw_copy : (ℕ → ℕ) → (ℕ → ℕ) × Bool
raw_copy f = ((λ a. if is_in_range a 104 1 then f (a - 32) else f a), true)

abbrev raw_stub_copy : (ℕ → ℕ) → (ℕ → ℕ) × Bool
raw_stub_copy f = ((λ a. if is_in_range a 112 1 then f (a - 32) else f a), true)

-- The copying code counts the third register down to 0.
abbrev registers : ℕ → ℕ
registers r =
    if r == c_rarg0 then 80 else if r == c_rarg1 then 112 else if r == c_rarg2 then 1 else 7

abbrev start : Cpu
start = record {
  registers = registers;
  bytes = λ a. 255;
  words = λ a. 0;
  compared = (0, 0);
  saved = λ r. 0;
  live = λ r. 0;
  stack = [];
  parameters = λ k. 0;
  calls = [];
}

abbrev stub : Stub
stub = record {
  clobber = λ r a. 9;
  kind = record {
    checkcast = false;
    disjoint = true;
    dest_uninitialized = false;
    use_compressed_oops = false;
  };
  type = BasicType.t_object;
  start = start;
  copied = record start {
    registers = λ r. if r == rscratch2 then 1 else if r == c_rarg2 then 0 else registers r;
  };
}

stub-IsSaved : IsSaved stub
unfolding prologue_of object.arraycopy_prologue count_after dst_after exec
stub-IsSaved = record { src_saved = refl; dst_saved = refl; count_saved = refl }

abbrev raw_clone : (ℕ → ℕ) → (ℕ → ℕ)
raw_clone f a = if has a (136 ∷ 144 ∷ []) then f (a - 32) else f a

abbrev accesses : List Access
accesses =
    write runtime (store 64 8 320)
    ∷ write (compiled (c1 true)) (cmpxchg 96 16 64 0)
    ∷ write (compiled (c2 true into_new)) (store 128 8 64)
    ∷ write (compiled (c2 true of_null)) (store 64 16 0)
    ∷ write (compiled (c2 true unknown)) (xchg 64 8 96)
    ∷ copy raw_copy 72 104 1
    ∷ stub_copy stub raw_stub_copy
    ∷ clone raw_clone 96 128 4
    ∷ []

snapshot_sound :
    SnapshotRuns.AreSound settings small_core small_core-SatbCore small_core-CopyCore machine.fields
      machine.metadata accesses
unfolding unlog_bit
snapshot_sound = (
  ground arith,
  (
    (ground arith, ground arith),
    (
      (ground arith, ground arith, λ new. refl),
      (
        (ground arith, ground arith, λ new. ground arith),
        (
          (ground arith, ground arith, λ new. ground arith),
          (
            λ f a h. ground arith,
            ((refl, λ f a h. ground arith), ((λ f a h. ground arith, refl), tt)),
          ),
        ),
      ),
    ),
  ),
)

remembered_sound :
    RememberedRuns.AreSound settings small_core small_core-ObjectCore small_core-RegionCore
      machine.fields machine.metadata accesses
unfolding unlog_bit
remembered_sound = (
  ground arith,
  (
    (ground arith, ground arith),
    (
      (ground arith, ground arith, λ null. cc, λ new. refl),
      (
        (ground arith, ground arith, λ null. refl, λ new. ground arith),
        (
          (ground arith, ground arith, λ null. cc, λ new. ground arith),
          (
            λ f a h. ground arith,
            (
              (refl, inl (refl, stub-IsSaved, λ f a h. ground arith)),
              ((λ f a h. ground arith, refl), tt),
            ),
          ),
        ),
      ),
    ),
  ),
)

snapshot_outlives_example :
    let m' = access_all small_core settings satb_barrier accesses machine in
    ((is_unlogged 0 m'.metadata 64 ≡ true) × (m'.fields 72 ≡ 640)) ⊎ (m'.state.0 640 ≡ true)
unfolding unlog_bit
snapshot_outlives_example =
    snapshot_outlives settings small_core small_core-SatbCore small_core-CopyCore accesses machine
      64 72 snapshot_sound (ground arith) refl refl

no_oop_enters_unseen_example :
    let m' = access_all small_core settings object_barrier accesses machine in
    ((is_unlogged 0 m'.metadata 64 ≡ true) × ((m'.fields 72 ≡ 640) ⊎ (m'.fields 72 ≡ 0)))
    ⊎ ((m'.state.1 64 ≡ true) ⊎ (m'.state.2 72 ≡ true))
unfolding unlog_bit
no_oop_enters_unseen_example =
    no_oop_enters_unseen settings small_core small_core-ObjectCore small_core-RegionCore accesses
      machine 64 72 remembered_sound (ground arith) refl refl

-- A load of unknown strength of which the server compiler knows nothing, then writes and a load by the VM.
abbrev anything : UnknownLoad
anything = record { constant_offset = none; is_array = false; is_no_reference = false }

anything-IsTrue : IsTrue anything 12 true
anything-IsTrue = record {
  constant = inl refl;
  array = λ h. ground arith;
  other = λ h. ground arith;
}

abbrev reader : Reader
reader = c2_load 12 anything true true false true true 12 true

abbrev steps : List Step
steps =
    change (write runtime (store 64 8 320))
    ∷ change (write (compiled (c2 true of_null)) (store 96 16 0))
    ∷ change (stub_copy stub raw_stub_copy)
    ∷ load (vm false false) 1 104
    ∷ []

referent_stays_example :
    (run small_core settings steps (load_by small_core settings reader 1 72 machine).1).state.0 640
    ≡ true
unfolding load_by
referent_stays_example =
    referent_stays small_core settings small_core-SatbCore small_core-CopyCore small_core-LoadCore
      reader 72 steps machine (refl, refl, inr (refl, refl, anything-IsTrue, refl, refl))
      (omega arith) (tt, (ground arith, (refl, tt)))
