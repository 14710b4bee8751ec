-- ===== src/Compiled/Stores.antt =====
-- The accesses that the compilers expand: `store_at_resolved`, `atomic_cmpxchg_val_at_resolved` and
-- `atomic_xchg_at_resolved` of `MMTkBarrierSetC1` (openjdk/mmtkBarrierSetC1.hpp) and `MMTkBarrierSetC2`
-- (openjdk/mmtkBarrierSetC2.hpp), on oops.
use mmtk_openjdk.Base.{
  ℕ, ◌^◌, ◌<◌, ◌≡◌, ◌⊎◌, refl, Bool, true, false, List, [], ◌==◌, if◌then◌else◌, add64,
}
use mmtk_openjdk.Barriers.Metadata.{is_unlogged}
use mmtk_openjdk.Barriers.Runtime.{
  CoreCall, Barrier, no_barrier, object_barrier, satb_barrier, Settings, object_reference_write_pre,
  object_reference_write_post,
}
use mmtk_openjdk.Barriers.Access.{Core, Machine, perform_all, put, before, after}
use mmtk_openjdk.Barriers.Writes.{Write, store, cmpxchg, xchg, object_of, do_write}
use mmtk_openjdk.Compiled.C1
use mmtk_openjdk.Compiled.C2
use mmtk_openjdk.Compiled.C2.{Store, can_remove_barrier}
use mmtk_openjdk.Compiled.Calls.{
  c1_write_pre-runtime, c1_write_pre-patched, c1_write_post-runtime, c2_write_pre-runtime,
  c2_write_post-runtime,
}

-- The compiler, for an access in the heap: the client compiler may have to patch the address of the slot
-- (`C1_NEEDS_PATCHING`); the server compiler knows something of the store.
pub data Compiler : Type 0 where
  c1 : (needs_patching : Bool) → Compiler
  c2 : (allocation_fastpath : Bool) → Store → Compiler

-- The barriers of the class that the selected barrier gives the compiler.
unfoldable pub pre_of : Compiler → Settings → Barrier → (ℕ → ℕ) → (src slot val : ℕ) → List CoreCall
pre_of (c1 needs_patching) s satb_barrier bytes src slot val =
    C1.object_reference_write_pre s bytes true needs_patching src slot val
pre_of (c2 fastpath st) s satb_barrier bytes src slot val =
    C2.object_reference_write_pre s fastpath st bytes src slot val
pre_of k s _ bytes src slot val = []

unfoldable pub post_of :
    Compiler → Settings → Barrier → (ℕ → ℕ) → (src slot val : ℕ) → List CoreCall
post_of (c1 needs_patching) s object_barrier bytes src slot val =
    C1.object_reference_write_post s bytes true src slot val
post_of (c2 fastpath st) s object_barrier bytes src slot val =
    C2.object_reference_write_post s fastpath st bytes src slot val
post_of k s _ bytes src slot val = []

module _ (core : Core) (k : Compiler) (s : Settings) (b : Barrier) where
  unfoldable pub pre : (src slot val : ℕ) → Machine core → Machine core
  unfolding pre_of
  pre src slot val m = perform_all core (pre_of k s b m.metadata src slot val) m

  unfoldable pub post : (src slot val : ℕ) → Machine core → Machine core
  unfolding post_of
  post src slot val m = perform_all core (post_of k s b m.metadata src slot val) m

  unfoldable pub store_at_resolved : (src slot val : ℕ) → Machine core → Machine core
  store_at_resolved src slot val m = post src slot val (put core slot val (pre src slot val m))

  unfoldable pub atomic_cmpxchg_at_resolved :
      (src slot expected new_val : ℕ) → Machine core → Machine core
  atomic_cmpxchg_at_resolved src slot expected new_val m =
      let m' = pre src slot new_val m in
      post src slot new_val (if m'.fields slot == expected then put core slot new_val m' else m')

  unfoldable pub atomic_xchg_at_resolved : (src slot new_val : ℕ) → Machine core → Machine core
  atomic_xchg_at_resolved src slot new_val m =
      post src slot new_val (put core slot new_val (pre src slot new_val m))

  unfoldable pub compiled_write : Write → Machine core → Machine core
  unfolding store_at_resolved atomic_cmpxchg_at_resolved atomic_xchg_at_resolved
  compiled_write (store base offset value) m = store_at_resolved base (add64 base offset) value m
  compiled_write (cmpxchg base offset new_value compare_value) m =
      atomic_cmpxchg_at_resolved base (add64 base offset) compare_value new_value m
  compiled_write (xchg base offset new_value) m =
      atomic_xchg_at_resolved base (add64 base offset) new_value m

-- The compiler does not drop the barriers; and where the client compiler patches a store under the SATB barrier, with
-- the fast path on, the object is unlogged.
abbrev pub KeepsBarriers : Compiler → Settings → Barrier → (bytes : ℕ → ℕ) → (src : ℕ) → Type 0
KeepsBarriers (c1 true) s satb_barrier bytes src =
    (s.barrier_fastpath ≡ false) ⊎ (is_unlogged s.metadata_base bytes src ≡ true)
KeepsBarriers (c1 needs_patching) s b bytes src = Unit
KeepsBarriers (c2 fastpath st) s b bytes src =
    (can_remove_barrier fastpath true st ≡ false) × (can_remove_barrier fastpath false st ≡ false)

pre_of_lem :
    (k : Compiler) (s : Settings) (b : Barrier) (bytes : ℕ → ℕ) (src slot val : ℕ)
    → KeepsBarriers k s b bytes src
    → src < 2 ^ 63
    → pre_of k s b bytes src slot val ≡ object_reference_write_pre s bytes b src slot val
unfolding pre_of object_reference_write_pre
pre_of_lem (c1 true) s satb_barrier bytes src slot val kept small =
    c1_write_pre-patched s bytes src slot val kept
pre_of_lem (c1 false) s satb_barrier bytes src slot val kept small =
    c1_write_pre-runtime s bytes src slot val small
pre_of_lem (c2 fastpath st) s satb_barrier bytes src slot val kept small =
    c2_write_pre-runtime s fastpath st bytes src slot val kept.1 small
pre_of_lem (c1 p) s no_barrier bytes src slot val kept small = refl
pre_of_lem (c1 p) s object_barrier bytes src slot val kept small = refl
pre_of_lem (c2 fastpath st) s no_barrier bytes src slot val kept small = refl
pre_of_lem (c2 fastpath st) s object_barrier bytes src slot val kept small = refl

post_of_lem :
    (k : Compiler) (s : Settings) (b : Barrier) (found bytes : ℕ → ℕ) (src slot val : ℕ)
    → KeepsBarriers k s b found src
    → src < 2 ^ 63
    → post_of k s b bytes src slot val ≡ object_reference_write_post s bytes b src slot val
unfolding post_of object_reference_write_post
post_of_lem (c1 p) s object_barrier found bytes src slot val kept small =
    c1_write_post-runtime s bytes src slot val small
post_of_lem (c2 fastpath st) s object_barrier found bytes src slot val kept small =
    c2_write_post-runtime s fastpath st bytes src slot val kept.0 small
post_of_lem (c1 p) s no_barrier found bytes src slot val kept small = refl
post_of_lem (c1 p) s satb_barrier found bytes src slot val kept small = refl
post_of_lem (c2 fastpath st) s no_barrier found bytes src slot val kept small = refl
post_of_lem (c2 fastpath st) s satb_barrier found bytes src slot val kept small = refl

module _ (core : Core) (k : Compiler) (s : Settings) (b : Barrier) (src : ℕ) (small : src < 2 ^ 63)
    (slot val : ℕ) (m : Machine core) where
  pre-before :
      KeepsBarriers k s b m.metadata src
      → pre core k s b src slot val m ≡ before core s b src slot val m
  unfolding pre before
  pre-before kept = rw (pre_of_lem k s b m.metadata src slot val kept small)

  post-after :
      (found : ℕ → ℕ)
      → KeepsBarriers k s b found src
      → post core k s b src slot val m ≡ after core s b src slot val m
  unfolding post after
  post-after found kept = rw (post_of_lem k s b found m.metadata src slot val kept small)

-- Whatever mmtk-core is and whichever barrier is selected: a store, compare-exchange or exchange of an oop that a
-- compiler expands, to an object below 2 ^ 63 and with its barriers kept (and where it is patched, under the SATB
-- barrier with the fast path on, to an unlogged object), does what the access through the runtime's access barrier
-- does.
pub compiled_write-do_write :
    (core : Core) (k : Compiler) (s : Settings) (b : Barrier) (w : Write) (m : Machine core)
    → KeepsBarriers k s b m.metadata (object_of w)
    → object_of w < 2 ^ 63
    → compiled_write core k s b w m ≡ do_write core s b w m
unfolding compiled_write do_write
compiled_write-do_write core k s b (store base offset value) m kept small =
    rw (pre-before core k s b base small (add64 base offset) value m kept)
      (post-after core k s b base small (add64 base offset) value _ m.metadata kept)
compiled_write-do_write core k s b (cmpxchg base offset new_value compare_value) m kept small =
    rw (pre-before core k s b base small (add64 base offset) new_value m kept)
      (post-after core k s b base small (add64 base offset) new_value _ m.metadata kept)
compiled_write-do_write core k s b (xchg base offset new_value) m kept small =
    rw (pre-before core k s b base small (add64 base offset) new_value m kept)
      (post-after core k s b base small (add64 base offset) new_value _ m.metadata kept)
