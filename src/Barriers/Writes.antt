-- ===== src/Barriers/Writes.antt =====
-- Sequences of oop writes through the access barrier.
use mmtk_openjdk.Base.{ℕ, List, [], ◌∷◌, add64}
use mmtk_openjdk.Barriers.Runtime.{Barrier, Settings}
use mmtk_openjdk.Barriers.Access.{
  Core, Machine, oop_store_in_heap_at, oop_atomic_cmpxchg_in_heap_at, oop_atomic_xchg_in_heap_at,
}

-- A write of an oop into a field of an object.
pub data Write : Type 0 where
  store : (base offset value : ℕ) → Write
  cmpxchg : (base offset new_value compare_value : ℕ) → Write
  xchg : (base offset new_value : ℕ) → Write

-- The object written.
abbrev pub object_of : Write → ℕ
object_of (store base offset value) = base
object_of (cmpxchg base offset new_value compare_value) = base
object_of (xchg base offset new_value) = base

-- The slot written.
abbrev pub slot_of : Write → ℕ
slot_of (store base offset value) = add64 base offset
slot_of (cmpxchg base offset new_value compare_value) = add64 base offset
slot_of (xchg base offset new_value) = add64 base offset

module _ (core : Core) (s : Settings) (b : Barrier) where
  unfoldable pub do_write : Write → Machine core → Machine core
  unfolding oop_store_in_heap_at oop_atomic_cmpxchg_in_heap_at oop_atomic_xchg_in_heap_at
  do_write (store base offset value) m = oop_store_in_heap_at core s b base offset value m
  do_write (cmpxchg base offset new_value compare_value) m =
      (oop_atomic_cmpxchg_in_heap_at core s b new_value base offset compare_value m).1
  do_write (xchg base offset new_value) m =
      (oop_atomic_xchg_in_heap_at core s b new_value base offset m).1

  unfoldable pub do_writes : List Write → Machine core → Machine core
  unfolding do_write
  do_writes [] m = m
  do_writes (w ∷ rest) m = do_writes rest (do_write w m)
