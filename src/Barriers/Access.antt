-- ===== src/Barriers/Access.antt =====
-- `MMTkBarrierSet::AccessBarrier` (openjdk/mmtkBarrierSet.hpp): the heap accesses of the VM with the
-- barriers round them. mmtk-core is a parameter.
use mmtk_openjdk.Base.{ℕ, Bool, not, ◌&&◌, List, [], ◌∷◌, ◌==◌, if◌then◌else◌, add64}
use mmtk_openjdk.Barriers.Runtime.{
  CoreCall, Barrier, Settings, object_reference_write_pre, object_reference_write_post,
  object_reference_array_copy_pre, object_reference_array_copy_post, load_reference_barrier,
}

-- mmtk-core behind its calls: a call sees the oop fields and the metadata, and changes its own state
-- and the metadata.
pub record Core : Type 1 where
  pub State : Type 0
  pub handle : CoreCall → (fields metadata : ℕ → ℕ) → State → State × (ℕ → ℕ)

module _ (core : Core) where
  open core use {State, handle}

  pub record Machine : Type 0 where
    pub fields : ℕ → ℕ  -- the oop at each slot
    pub metadata : ℕ → ℕ  -- the bytes of the side metadata
    pub state : State

  unfoldable pub perform : CoreCall → Machine → Machine
  perform c m =
      let (state, metadata) = handle c m.fields m.metadata m.state in
      record m { state = state; metadata = metadata }

  unfoldable pub perform_all : List CoreCall → Machine → Machine
  unfolding perform
  perform_all [] m = m
  perform_all (c ∷ rest) m = perform_all rest (perform c m)

  -- The raw store.
  abbrev pub put : ℕ → ℕ → Machine → Machine
  put slot value m = record m { fields = λ a. if a == slot then value else m.fields a }

  module _ (s : Settings) (b : Barrier) where
    unfoldable pub before : (src slot target : ℕ) → Machine → Machine
    unfolding perform_all object_reference_write_pre
    before src slot target m =
        perform_all (object_reference_write_pre s m.metadata b src slot target) m

    unfoldable pub after : (src slot target : ℕ) → Machine → Machine
    unfolding perform_all object_reference_write_post
    after src slot target m =
        perform_all (object_reference_write_post s m.metadata b src slot target) m

    unfoldable pub oop_store_in_heap_at : (base offset value : ℕ) → Machine → Machine
    unfolding before after
    oop_store_in_heap_at base offset value m =
        let slot = add64 base offset in
        after base slot value (put slot value (before base slot value m))

    -- The result is the old value at the slot.
    unfoldable pub oop_atomic_cmpxchg_in_heap_at :
        (new_value base offset compare_value : ℕ) → Machine → ℕ × Machine
    unfolding before after
    oop_atomic_cmpxchg_in_heap_at new_value base offset compare_value m =
        let slot = add64 base offset in
        let m' = before base slot new_value m in
        let result = m'.fields slot in
        let m'' = if result == compare_value then put slot new_value m' else m' in
        (result, after base slot new_value m'')

    unfoldable pub oop_atomic_xchg_in_heap_at : (new_value base offset : ℕ) → Machine → ℕ × Machine
    unfolding before after
    oop_atomic_xchg_in_heap_at new_value base offset m =
        let slot = add64 base offset in
        let m' = before base slot new_value m in
        (m'.fields slot, after base slot new_value (put slot new_value m'))

    -- The raw copy is OpenJDK's: it gives the fields after the copy, and the result.
    unfoldable pub oop_arraycopy_in_heap :
        ((ℕ → ℕ) → (ℕ → ℕ) × Bool) → (src dst length : ℕ) → Machine → Bool × Machine
    unfolding perform_all object_reference_array_copy_pre object_reference_array_copy_post
    oop_arraycopy_in_heap raw_copy src dst length m =
        let m' = perform_all (object_reference_array_copy_pre b src dst length) m in
        let (fields, result) = raw_copy m'.fields in
        (
          result,
          perform_all (object_reference_array_copy_post b src dst length)
              (record m' { fields = fields }),
        )

    -- The raw clone is OpenJDK's: it gives the fields after it. There are no barriers.
    unfoldable pub clone_in_heap : ((ℕ → ℕ) → (ℕ → ℕ)) → (src dst size : ℕ) → Machine → Machine
    clone_in_heap raw_clone src dst size m = record m { fields = raw_clone m.fields }

    -- A load with its decorators `ON_STRONG_OOP_REF` and `AS_NO_KEEPALIVE`.
    unfoldable pub oop_load :
        (on_strong_oop_ref peek : Bool) → (active slot : ℕ) → Machine → ℕ × Machine
    unfolding perform_all load_reference_barrier
    oop_load on_strong_oop_ref peek active slot m =
        let value = m.fields slot in
        let needs_enqueue = not peek && not on_strong_oop_ref in
        (
          value,
          if needs_enqueue && not (value == 0)
              then perform_all (load_reference_barrier b active value) m
              else m,
        )
