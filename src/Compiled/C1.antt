-- ===== src/Compiled/C1.antt =====
-- The barriers that the client compiler compiles: `object_reference_write_post` of `MMTkObjectBarrierSetC1`
-- (openjdk/barriers/mmtkObjectBarrier.cpp), and `object_reference_write_pre` and `load_at_resolved` of
-- `MMTkSATBBarrierSetC1` (openjdk/barriers/mmtkSATBBarrier.cpp). The calls are those of the stubs that
-- the code branches to.
use mmtk_openjdk.Base.{ℕ, Bool, not, ◌&&◌, ◌||◌, List, [], ◌∷◌, ◌==◌, if◌then◌else◌}
use mmtk_openjdk.Barriers.Runtime.{
  CoreCall, write_pre, write_post, write_slow, load_reference, Settings,
}
use mmtk_openjdk.Compiled.Bits.{compiled_bit}

-- `cmp(equal, result, 1); branch(slow)`
abbrev pub branch_if_unlogged : Settings → (ℕ → ℕ) → ℕ → CoreCall → List CoreCall
branch_if_unlogged s bytes src slow =
    if compiled_bit s.metadata_base bytes src == 1 then slow ∷ [] else []

unfoldable pub object_reference_write_post :
    Settings → (bytes : ℕ → ℕ) → (in_heap : Bool) → (src slot new_val : ℕ) → List CoreCall
object_reference_write_post s bytes in_heap src slot new_val =
    if not in_heap
    then []
    else if s.barrier_fastpath
    then branch_if_unlogged s bytes src (write_slow src slot new_val)
    else write_post src slot new_val ∷ []

-- With `needs_patching` the address of the slot is not known before the slow path.
unfoldable pub object_reference_write_pre :
    Settings
    → (bytes : ℕ → ℕ) → (in_heap needs_patching : Bool) → (src slot new_val : ℕ) → List CoreCall
object_reference_write_pre s bytes in_heap needs_patching src slot new_val =
    if not in_heap
    then []
    else if s.barrier_fastpath
    then (if needs_patching
        then write_slow src slot new_val ∷ []
        else branch_if_unlogged s bytes src (write_slow src slot new_val))
    else write_pre src slot new_val ∷ []

-- The barrier of `load_at_resolved`; `active` is the byte `CONCURRENT_MARKING_ACTIVE`, and
-- `referent_check` says whether the code of `generate_referent_check` goes on to the barrier.
unfoldable pub load_at_resolved :
    (is_oop is_weak is_phantom is_anonymous referent_check : Bool)
    → (active result : ℕ) → List CoreCall
load_at_resolved is_oop is_weak is_phantom is_anonymous referent_check active result =
    if is_oop && (is_weak || is_phantom || is_anonymous)
    then (if is_anonymous && not referent_check
        then []
        else if active == 1
        then (if result == 0 then [] else load_reference result ∷ [])
        else [])
    else []

-- `resolve_address_in_register` of `MMTkBarrierSetC1`: is the address resolved in a register?
unfoldable pub resolve_address_in_register :
    (needs_patching is_write is_oop is_array on_anonymous resolve_in_register : Bool) → Bool
resolve_address_in_register needs_patching is_write is_oop is_array on_anonymous
      resolve_in_register =
    resolve_in_register || (not needs_patching && is_write && is_oop && (is_array || on_anonymous))
