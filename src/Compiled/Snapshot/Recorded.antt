-- ===== src/Compiled/Snapshot/Recorded.antt =====
-- What the SATB barrier has recorded stays recorded, whoever writes, copies or clones.
use mmtk_openjdk.Base.{
  ℕ, ◌^◌, ◌<◌, ◌≡◌, sym, subst, inl, inr, Bool, true, false, ◌==◌, add64, arith, Bool-cases,
}
use mmtk_openjdk.Barriers.Metadata.{is_unlogged}
use mmtk_openjdk.Barriers.Runtime.{
  satb_barrier, Settings, object_reference_array_copy_pre, object_reference_array_copy_post,
}
use mmtk_openjdk.Barriers.Access.{
  Core, Machine, perform, perform_all, before, oop_arraycopy_in_heap, clone_in_heap,
}
use mmtk_openjdk.Barriers.Writes.{Write, store, cmpxchg, xchg, object_of, do_write}
use mmtk_openjdk.Barriers.Snapshot.{SatbCore}
use mmtk_openjdk.Compiled.C1
use mmtk_openjdk.Compiled.C2.{Store, can_remove_barrier}
use mmtk_openjdk.Compiled.Calls.{c1_write_pre-runtime, c1_write_pre-patched, c2_write_pre-runtime}
use mmtk_openjdk.Compiled.Stores.{Compiler, c1, c2, pre_of, pre, compiled_write}
use mmtk_openjdk.Compiled.Accesses.{
  Access, runtime, compiled, write, copy, stub_copy, clone, access, write_by,
}
use mmtk_openjdk.X86.Elision.{is_oop}
use mmtk_openjdk.X86.Copies.{Stub, src_of, dst_of, count_of, copy_by_stub, copy_by_stub-satb}
use mmtk_openjdk.Compiled.Snapshot.{removed_pre, post-none}
use mmtk_openjdk.Compiled.Snapshot.Runs.{CopyCore}

c1_pre :
    (core : Core) (s : Settings) (src slot value : ℕ) (m : Machine core)
    → src < 2 ^ 63
    → pre core (c1 false) s satb_barrier src slot value m
      ≡ before core s satb_barrier src slot value m
unfolding pre pre_of before
c1_pre core s src slot value m small = rw (c1_write_pre-runtime s m.metadata src slot value small)

kept_pre :
    (core : Core) (s : Settings) (fastpath : Bool) (st : Store) (src slot value : ℕ)
    (m : Machine core)
    → can_remove_barrier fastpath false st ≡ false
    → src < 2 ^ 63
    → pre core (c2 fastpath st) s satb_barrier src slot value m
      ≡ before core s satb_barrier src slot value m
unfolding pre pre_of before
kept_pre core s fastpath st src slot value m there small =
    rw (c2_write_pre-runtime s fastpath st m.metadata src slot value there small)

module _ (core : Core) (s : Settings) (satb : SatbCore s.metadata_base core)
    (copies : CopyCore core satb.recorded) where
  open satb use {recorded, slow_keeps, pre_unlogged, pre_logged}

  abbrev Holds : ℕ → Machine core → Type 0
  Holds v m = recorded m.state v ≡ true

  before-keeps :
      (src slot target v : ℕ) (m : Machine core)
      → Holds v m
      → Holds v (before core s satb_barrier src slot target m)
  unfolding before perform
  before-keeps src slot target v m h =
      let kept = slow_keeps src slot target v m.fields m.metadata m.state h in
      elim (Bool-cases (is_unlogged s.metadata_base m.metadata src)) [
        | inl u ↦ elim (Bool-cases s.barrier_fastpath) [
          | inl fast ↦ simp (fast, u) kept
          | inr full ↦
              simp full (rw (pre_unlogged src slot target m.fields m.metadata m.state u) kept)
        ]
        | inr l ↦ elim (Bool-cases s.barrier_fastpath) [
          | inl fast ↦ simp (fast, l) h
          | inr full ↦ simp full (rw (pre_logged src slot target m.fields m.metadata m.state l) h)
        ]
      ]

  do_write-keeps :
      (w : Write) (v : ℕ) (m : Machine core)
      → Holds v m
      → Holds v (do_write core s satb_barrier w m)
  unfolding do_write
  do_write-keeps (store base offset value) v m h = before-keeps base (add64 base offset) value v m h
  do_write-keeps (cmpxchg base offset new_value compare_value) v m h =
      let slot = add64 base offset in
      let kept = before-keeps base slot new_value v m h in
      elim (Bool-cases
        ((before core s satb_barrier base slot new_value m).fields slot == compare_value)) [
          | inl e ↦ simp e kept
          | inr e ↦ simp e kept
        ]
  do_write-keeps (xchg base offset new_value) v m h =
      before-keeps base (add64 base offset) new_value v m h

  patched_pre-keeps :
      (src slot value v : ℕ) (m : Machine core)
      → Holds v m
      → Holds v (pre core (c1 true) s satb_barrier src slot value m)
  unfolding pre pre_of C1.object_reference_write_pre perform_all perform before
  patched_pre-keeps src slot value v m h = elim (Bool-cases s.barrier_fastpath) [
    | inl fast ↦ simp fast (slow_keeps src slot value v m.fields m.metadata m.state h)
    | inr full ↦
        rw (c1_write_pre-patched s m.metadata src slot value (inl full))
          (before-keeps src slot value v m h)
  ]

  pre-keeps :
      (k : Compiler) (src slot value v : ℕ) (m : Machine core)
      → src < 2 ^ 63
      → Holds v m
      → Holds v (pre core k s satb_barrier src slot value m)
  pre-keeps (c1 true) src slot value v m small h = patched_pre-keeps src slot value v m h
  pre-keeps (c1 false) src slot value v m small h =
      subst (Holds v) (sym (c1_pre core s src slot value m small))
        (before-keeps src slot value v m h)
  pre-keeps (c2 fastpath st) src slot value v m small h =
      elim (Bool-cases (can_remove_barrier fastpath false st)) [
        | inl gone ↦ subst (Holds v) (sym (removed_pre core s fastpath st src slot value m gone)) h
        | inr there ↦
            subst (Holds v) (sym (kept_pre core s fastpath st src slot value m there small))
              (before-keeps src slot value v m h)
      ]

  compiled_write-keeps :
      (k : Compiler) (w : Write) (v : ℕ) (m : Machine core)
      → object_of w < 2 ^ 63
      → Holds v m
      → Holds v (compiled_write core k s satb_barrier w m)
  unfolding compiled_write
  compiled_write-keeps k (store base offset value) v m small h =
      rw (post-none core s k base (add64 base offset) value _)
        (pre-keeps k base (add64 base offset) value v m small h)
  compiled_write-keeps k (cmpxchg base offset new_value compare_value) v m small h =
      let slot = add64 base offset in
      let kept = pre-keeps k base slot new_value v m small h in
      elim (Bool-cases
        ((pre core k s satb_barrier base slot new_value m).fields slot == compare_value)) [
          | inl e ↦ rw (post-none core s k base slot new_value _) (simp e kept)
          | inr e ↦ rw (post-none core s k base slot new_value _) (simp e kept)
        ]
  compiled_write-keeps k (xchg base offset new_value) v m small h =
      rw (post-none core s k base (add64 base offset) new_value _)
        (pre-keeps k base (add64 base offset) new_value v m small h)

  copy-keeps :
      (raw_copy : (ℕ → ℕ) → (ℕ → ℕ) × Bool) (src dst length v : ℕ) (m : Machine core)
      → Holds v m
      → Holds v (oop_arraycopy_in_heap core s satb_barrier raw_copy src dst length m).1
  unfolding oop_arraycopy_in_heap perform_all perform object_reference_array_copy_pre
      object_reference_array_copy_post
  copy-keeps raw_copy src dst length v m h =
      ground (arith, copies.copy_keeps src dst length v m.fields m.metadata m.state)

  stub_copy-keeps :
      (t : Stub) (raw_copy : (ℕ → ℕ) → (ℕ → ℕ) × Bool) (v : ℕ) (m : Machine core)
      → is_oop t.type ≡ true
      → Holds v m
      → Holds v (copy_by_stub core s satb_barrier t raw_copy m)
  stub_copy-keeps t raw_copy v m oop h =
      rw (copy_by_stub-satb core s t raw_copy m oop)
        (copy-keeps raw_copy (src_of t) (dst_of t) (count_of t) v m h)

  -- Compiled code writes to objects below 2 ^ 63, and stubs copy oops.
  abbrev pub IsSmall : Access → Type 0
  IsSmall (write (compiled k) w) = object_of w < 2 ^ 63
  IsSmall (stub_copy t raw_copy) = is_oop t.type ≡ true
  IsSmall _ = Unit

  pub access-keeps :
      (a : Access) (v : ℕ) (m : Machine core)
      → IsSmall a
      → Holds v m
      → Holds v (access core s satb_barrier a m)
  unfolding access write_by clone_in_heap
  access-keeps (write runtime w) v m small h = do_write-keeps w v m h
  access-keeps (write (compiled k) w) v m small h = compiled_write-keeps k w v m small h
  access-keeps (copy raw_copy src dst length) v m small h = copy-keeps raw_copy src dst length v m h
  access-keeps (stub_copy t raw_copy) v m oop h = stub_copy-keeps t raw_copy v m oop h
  access-keeps (clone raw_clone src dst size) v m small h = h
