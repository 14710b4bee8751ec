-- ===== src/Compiled/Snapshot.antt =====
-- The SATB barrier where the VM's own code and the code of both compilers write, and the server compiler drops
-- barriers: openjdk/mmtkBarrierSetC2.cpp and openjdk/barriers/mmtkSATBBarrier.cpp with the accesses of
-- openjdk/mmtkBarrierSet.hpp.
pub mod Runs
pub mod Recorded
pub mod Loads
use mmtk_openjdk.Base.{
  ℕ, ◌^◌, ◌<◌, ◌≡◌, refl, sym, subst, ◌⊎◌, inl, inr, Bool, true, false, ◌==◌, has, add64, arith,
  Bool-cases,
}
use mmtk_openjdk.Barriers.Metadata.{is_unlogged, IsAddress}
use mmtk_openjdk.Barriers.Runtime.{write_slow, satb_barrier, Settings, object_reference_write_pre}
use mmtk_openjdk.Barriers.Access.{Core, Machine, put, before, perform, perform_all}
use mmtk_openjdk.Barriers.Writes.{Write, store, cmpxchg, xchg, object_of, do_write}
use mmtk_openjdk.Barriers.Snapshot.{SatbCore, IsProper, AllKept, Ready, before-Ready, do_write-Kept}
use mmtk_openjdk.Compiled.Accesses.{Writer, runtime, compiled, write_by, SeesNew}
use mmtk_openjdk.Compiled.C1
use mmtk_openjdk.Compiled.C2
use mmtk_openjdk.Compiled.C2.{Store, can_remove_barrier}
use mmtk_openjdk.Compiled.Calls.{c1_write_pre-runtime, c1_write_pre-patched, c2_write_pre-runtime}
use mmtk_openjdk.Compiled.Stores.{Compiler, c1, c2, pre_of, post_of, pre, post, compiled_write}

can_remove_barrier-SeesNew :
    (fastpath : Bool) (st : Store) → can_remove_barrier fastpath false st ≡ true → SeesNew st
unfolding can_remove_barrier
can_remove_barrier-SeesNew fastpath st e = ground arith

pub removed_pre :
    (core : Core) (s : Settings) (fastpath : Bool) (st : Store) (src slot value : ℕ)
    (m : Machine core)
    → can_remove_barrier fastpath false st ≡ true
    → pre core (c2 fastpath st) s satb_barrier src slot value m ≡ m
unfolding pre pre_of C2.object_reference_write_pre perform_all
removed_pre core s fastpath st src slot value m gone = rw gone

-- There is no post-barrier.
pub post-none :
    (core : Core) (s : Settings) (k : Compiler) (src slot value : ℕ) (m : Machine core)
    → post core k s satb_barrier src slot value m ≡ m
unfolding post post_of perform_all
post-none core s k src slot value m = ground arith

module _ (s : Settings) (core : Core) (satb : SatbCore s.metadata_base core) (f₀ u₀ : ℕ → ℕ) where
  open satb use {slots_of, recorded, slots_apart, slow_records, slow_keeps, slow_logs_only}

  abbrev pub IsNew : ℕ → Type 0
  IsNew obj = is_unlogged s.metadata_base u₀ obj ≡ false

  -- The compiled pre-barrier leaves the snapshot kept, and the object logged, or new.
  record Safe (src : ℕ) (m' : Machine core) : Type 0 where
    kept : AllKept s core satb f₀ u₀ m'
    logged_or_new : (is_unlogged s.metadata_base m'.metadata src ≡ false) ⊎ IsNew src

  put-Kept :
      (src slot value : ℕ) (m : Machine core)
      → has slot (slots_of src) ≡ true
      → Safe src m
      → AllKept s core satb f₀ u₀ (put core slot value m)
  put-Kept src slot value m field safe obj a al i u =
      ground (arith, safe.kept obj a al i u, slots_apart obj src a)

  -- A compiler that keeps the pre-barrier makes the runtime's calls.
  kept-Safe :
      (k : Compiler) (src slot value : ℕ) (m : Machine core)
      → pre_of k s satb_barrier m.metadata src slot value
        ≡ object_reference_write_pre s m.metadata satb_barrier src slot value
      → IsAddress src
      → AllKept s core satb f₀ u₀ m
      → Safe src (pre core k s satb_barrier src slot value m)
  unfolding pre before
  kept-Safe k src slot value m same al kept =
      let r = before-Ready s core satb f₀ u₀ src slot value m al kept in
      rw same (record { kept = r.kept; logged_or_new = inl r.logged })

  -- The slow call, whether the object is unlogged or not.
  slow-Safe :
      (src slot target : ℕ) (m : Machine core)
      → IsAddress src
      → AllKept s core satb f₀ u₀ m
      → Safe src (perform core (write_slow src slot target) m)
  unfolding perform
  slow-Safe src slot target m al kept = record {
    kept = λ obj a al' i u'. ground (
      arith,
      kept obj a al' i u',
      slow_records src slot target a m.fields m.metadata m.state,
      slow_keeps src slot target (f₀ a) m.fields m.metadata m.state,
      slow_logs_only src slot target obj m.fields m.metadata m.state,
    );
    logged_or_new =
        inl (ground (arith, slow_logs_only src slot target src m.fields m.metadata m.state));
  }

  -- Where the client compiler patches the slot, the slow call is made in any case with the fast path on.
  patched-Safe :
      (src slot value : ℕ) (m : Machine core)
      → IsAddress src
      → AllKept s core satb f₀ u₀ m
      → Safe src (pre core (c1 true) s satb_barrier src slot value m)
  unfolding pre pre_of C1.object_reference_write_pre perform_all
  patched-Safe src slot value m al kept = elim (Bool-cases s.barrier_fastpath) [
    | inl fast ↦ simp fast (slow-Safe src slot value m al kept)
    | inr full ↦
        kept-Safe (c1 true) src slot value m
          (c1_write_pre-patched s m.metadata src slot value (inl full)) al kept
  ]

  -- What a write relies on: a proper slot, for compiled code an object below 2 ^ 63, and that the object which
  -- the server compiler takes for new was not unlogged when the snapshot was taken.
  abbrev pub IsSound : Writer → Write → Type 0
  IsSound runtime w = IsProper s core satb w
  IsSound (compiled (c1 p)) w = IsProper s core satb w × (object_of w < 2 ^ 63)
  IsSound (compiled (c2 fastpath st)) w =
      IsProper s core satb w × (object_of w < 2 ^ 63) × (SeesNew st → IsNew (object_of w))

  IsSound-IsProper : (k : Compiler) (w : Write) → IsSound (compiled k) w → IsProper s core satb w
  IsSound-IsProper (c1 p) w sound = sound.0
  IsSound-IsProper (c2 fastpath st) w sound = sound.0

  pre-Safe :
      (k : Compiler) (w : Write) (slot value : ℕ) (m : Machine core)
      → IsSound (compiled k) w
      → AllKept s core satb f₀ u₀ m
      → Safe (object_of w) (pre core k s satb_barrier (object_of w) slot value m)
  unfolding pre_of
  pre-Safe (c1 true) w slot value m (proper, small) kept =
      patched-Safe (object_of w) slot value m proper.0 kept
  pre-Safe (c1 false) w slot value m (proper, small) kept =
      kept-Safe (c1 false) (object_of w) slot value m
        (c1_write_pre-runtime s m.metadata (object_of w) slot value small) proper.0 kept
  pre-Safe (c2 fastpath st) w slot value m (proper, small, new) kept =
      elim (Bool-cases (can_remove_barrier fastpath false st)) [
        | inl gone ↦
            subst (Safe (object_of w))
              (sym (removed_pre core s fastpath st (object_of w) slot value m gone))
              (record {
                kept = kept;
                logged_or_new = inr (new (can_remove_barrier-SeesNew fastpath st gone));
              })
        | inr there ↦
            kept-Safe (c2 fastpath st) (object_of w) slot value m
              (c2_write_pre-runtime s fastpath st m.metadata (object_of w) slot value there small)
              proper.0 kept
      ]

  compiled_write-Kept :
      (k : Compiler) (w : Write) (m : Machine core)
      → IsSound (compiled k) w
      → AllKept s core satb f₀ u₀ m
      → AllKept s core satb f₀ u₀ (compiled_write core k s satb_barrier w m)
  unfolding compiled_write
  compiled_write-Kept k (store base offset value) m sound kept =
      let slot = add64 base offset in
      let safe = pre-Safe k (store base offset value) slot value m sound kept in
      rw (post-none core s k base slot value _)
        (put-Kept base slot value _ (IsSound-IsProper k _ sound).1 safe)
  compiled_write-Kept k (cmpxchg base offset new_value compare_value) m sound kept =
      let slot = add64 base offset in
      let safe =
        pre-Safe k (cmpxchg base offset new_value compare_value) slot new_value m sound kept in
      let m' = pre core k s satb_barrier base slot new_value m in
      elim (Bool-cases (m'.fields slot == compare_value)) [
        | inl e ↦
            rw (post-none core s k base slot new_value _)
              (simp e (put-Kept base slot new_value m' (IsSound-IsProper k _ sound).1 safe))
        | inr e ↦ rw (post-none core s k base slot new_value _) (simp e safe.kept)
      ]
  compiled_write-Kept k (xchg base offset new_value) m sound kept =
      let slot = add64 base offset in
      let safe = pre-Safe k (xchg base offset new_value) slot new_value m sound kept in
      rw (post-none core s k base slot new_value _)
        (put-Kept base slot new_value _ (IsSound-IsProper k _ sound).1 safe)

  pub write_by-Kept :
      (by : Writer) (w : Write) (m : Machine core)
      → IsSound by w
      → AllKept s core satb f₀ u₀ m
      → AllKept s core satb f₀ u₀ (write_by core s satb_barrier by w m)
  unfolding write_by
  write_by-Kept runtime w m sound kept = do_write-Kept s core satb f₀ u₀ w m sound kept
  write_by-Kept (compiled k) w m sound kept = compiled_write-Kept k w m sound kept
