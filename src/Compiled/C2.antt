-- ===== src/Compiled/C2.antt =====
-- The barriers that the server compiler compiles: `MMTkBarrierSetC2::can_remove_barrier`
-- (openjdk/mmtkBarrierSetC2.cpp), `object_reference_write_post` of `MMTkObjectBarrierSetC2`
-- (openjdk/barriers/mmtkObjectBarrier.cpp), and `object_reference_write_pre` and the load barriers of
-- `MMTkSATBBarrierSetC2` (openjdk/barriers/mmtkSATBBarrier.cpp).
use mmtk_openjdk.Base.{
  ℕ, Bool, true, false, not, ◌&&◌, ◌||◌, List, [], ◌∷◌, Option, none, some, ◌==◌, if◌then◌else◌,
}
use mmtk_openjdk.Barriers.Runtime.{
  CoreCall, write_pre, write_post, write_slow, load_reference, Settings, Barrier, satb_barrier,
}
use mmtk_openjdk.Compiled.Bits.{compiled_bit}

-- What the compiler knows of a store: is the value the null constant, is the object the one just
-- allocated, is the offset precise, and the allocations of the base and of the initialization that the
-- control comes from.
pub record Store : Type 0 where
  pub is_null : Bool
  pub just_allocated : Bool
  pub precise_offset : Bool
  pub allocation : Option ℕ
  pub initializes : Option ℕ

abbrev pub same_allocation : Option ℕ → Option ℕ → Bool
same_allocation (some a) (some b) = a == b
same_allocation _ _ = false

unfoldable pub can_remove_barrier : (allocation_fastpath skip_const_null : Bool) → Store → Bool
can_remove_barrier allocation_fastpath skip_const_null st =
    if skip_const_null && st.is_null
    then true
    else if not allocation_fastpath
    then false
    else if st.just_allocated
    then true
    else if not st.precise_offset
    then false
    else same_allocation st.allocation st.initializes

-- Does the compiler ask for barriers where it copies an array into an object that it has just allocated?
unfoldable array_copy_requires_gc_barriers : Barrier → Bool
array_copy_requires_gc_barriers satb_barrier = false
array_copy_requires_gc_barriers _ = true

-- `if_then(result, ne, zero)`
abbrev pub call_if_unlogged : Settings → (ℕ → ℕ) → ℕ → CoreCall → List CoreCall
call_if_unlogged s bytes src slow =
    if compiled_bit s.metadata_base bytes src == 0 then [] else slow ∷ []

unfoldable pub object_reference_write_post :
    Settings
    → (allocation_fastpath : Bool) → Store
    → (bytes : ℕ → ℕ) → (src slot val : ℕ) → List CoreCall
unfolding can_remove_barrier
object_reference_write_post s allocation_fastpath st bytes src slot val =
    if can_remove_barrier allocation_fastpath true st
    then []
    else if s.barrier_fastpath
    then call_if_unlogged s bytes src (write_slow src slot val)
    else write_post src slot val ∷ []

unfoldable pub object_reference_write_pre :
    Settings
    → (allocation_fastpath : Bool) → Store
    → (bytes : ℕ → ℕ) → (src slot val : ℕ) → List CoreCall
unfolding can_remove_barrier
object_reference_write_pre s allocation_fastpath st bytes src slot val =
    if can_remove_barrier allocation_fastpath false st
    then []
    else if s.barrier_fastpath
    then call_if_unlogged s bytes src (write_slow src slot val)
    else write_pre src slot val ∷ []

-- `cm_flag` is the byte `CONCURRENT_MARKING_ACTIVE`.
unfoldable pub reference_load_barrier : (cm_flag val : ℕ) → List CoreCall
reference_load_barrier cm_flag val =
    if cm_flag == 0 then [] else if val == 0 then [] else load_reference val ∷ []

-- What the compiler knows of a load at an unknown strength: the offset if it is constant, whether the
-- base is an array, and whether its class is known to be neither a reference nor a super-class of one.
pub record UnknownLoad : Type 0 where
  pub constant_offset : Option ℕ
  pub is_array : Bool
  pub is_no_reference : Bool

abbrev pub is_other_than : ℕ → Option ℕ → Bool
is_other_than referent_offset none = false
is_other_than referent_offset (some o) = not (o == referent_offset)

-- `offset` and `is_instance` (of `java.lang.ref.Reference`) are values at run time.
unfoldable pub reference_load_barrier_for_unknown_load :
    (referent_offset : ℕ)
    → UnknownLoad
    → (offset : ℕ) → (is_instance : Bool) → (cm_flag val : ℕ) → List CoreCall
unfolding reference_load_barrier
reference_load_barrier_for_unknown_load referent_offset u offset is_instance cm_flag val =
    if is_other_than referent_offset u.constant_offset || u.is_array || u.is_no_reference
    then []
    else if (offset == referent_offset) && is_instance
    then reference_load_barrier cm_flag val
    else []

-- `known_address`: neither the offset nor the base is `top`.
unfoldable pub load_at_resolved :
    (referent_offset : ℕ)
    → UnknownLoad
    → (is_oop in_heap on_weak unknown known_address : Bool) → (offset : ℕ) → (is_instance : Bool)
    → (cm_flag val : ℕ) → List CoreCall
unfolding reference_load_barrier reference_load_barrier_for_unknown_load
load_at_resolved referent_offset u is_oop in_heap on_weak unknown known_address offset is_instance
      cm_flag val =
    let need_read_barrier = in_heap && (on_weak || (unknown && known_address)) in
    if not is_oop || not need_read_barrier
    then []
    else if on_weak
    then reference_load_barrier cm_flag val
    else if unknown
    then reference_load_barrier_for_unknown_load referent_offset u offset is_instance cm_flag val
    else []
