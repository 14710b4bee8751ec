-- ===== src/Compiled/Accesses.antt =====
-- Accesses under one barrier, whoever makes them: the VM through `AccessBarrier` (openjdk/mmtkBarrierSet.hpp), or the
-- code of a compiler (openjdk/mmtkBarrierSetC1.hpp, openjdk/mmtkBarrierSetC2.hpp).
use mmtk_openjdk.Base.{ℕ, ◌+◌, ◌*◌, ◌≡◌, ◌⊎◌, Bool, true, false, ◌&&◌, List, [], ◌∷◌, has, ltb, leb}
use mmtk_openjdk.Barriers.Runtime.{Barrier, Settings}
use mmtk_openjdk.Barriers.Access.{Core, Machine, oop_arraycopy_in_heap, clone_in_heap}
use mmtk_openjdk.Barriers.Writes.{Write, do_write}
use mmtk_openjdk.Compiled.C2.{Store, same_allocation}
use mmtk_openjdk.Compiled.Stores.{Compiler, compiled_write}
use mmtk_openjdk.X86.Copies.{Stub, copy_by_stub}

-- Who writes: the VM through the access barrier, or the code of a compiler.
pub data Writer : Type 0 where
  runtime : Writer
  compiled : Compiler → Writer

-- A write; or a copy of oops, or the clone of an object, by the VM, or a copy of oops by an emitted stub, with what
-- OpenJDK's raw copy or clone does to the fields.
pub data Access : Type 0 where
  write : Writer → Write → Access
  copy : (raw_copy : (ℕ → ℕ) → (ℕ → ℕ) × Bool) → (src dst length : ℕ) → Access
  stub_copy : Stub → (raw_copy : (ℕ → ℕ) → (ℕ → ℕ) × Bool) → Access
  clone : (raw_clone : (ℕ → ℕ) → (ℕ → ℕ)) → (src dst size : ℕ) → Access

module _ (core : Core) (s : Settings) (b : Barrier) where
  unfoldable pub write_by : Writer → Write → Machine core → Machine core
  unfolding do_write compiled_write
  write_by runtime w m = do_write core s b w m
  write_by (compiled k) w m = compiled_write core k s b w m

  unfoldable pub access : Access → Machine core → Machine core
  unfolding write_by oop_arraycopy_in_heap copy_by_stub clone_in_heap
  access (write by w) m = write_by by w m
  access (copy raw_copy src dst length) m =
      (oop_arraycopy_in_heap core s b raw_copy src dst length m).1
  access (stub_copy t raw_copy) m = copy_by_stub core s b t raw_copy m
  access (clone raw_clone src dst size) m = clone_in_heap core s b raw_clone src dst size m

  unfoldable pub access_all : List Access → Machine core → Machine core
  unfolding access
  access_all [] m = m
  access_all (a ∷ rest) m = access_all rest (access a m)

-- The server compiler takes the object for the one just allocated.
abbrev pub SeesNew : Store → Type 0
SeesNew st =
    (st.just_allocated ≡ true)
    ⊎ ((st.precise_offset ≡ true) × (same_allocation st.allocation st.initializes ≡ true))

-- The slot, of 8 bytes, is one of the `count` slots from `dst` on.
abbrev pub is_in_range : (slot dst count : ℕ) → Bool
is_in_range slot dst count = leb dst slot && ltb slot (dst + 8 * count)

-- The raw copy changes the slots that are copied to, and no other.
abbrev pub StaysInRange : ((ℕ → ℕ) → (ℕ → ℕ) × Bool) → (dst length : ℕ) → Type 0
StaysInRange raw_copy dst length =
    (f : ℕ → ℕ) (a : ℕ) → is_in_range a dst length ≡ false → (raw_copy f).0 a ≡ f a

-- The raw clone changes only these slots.
abbrev pub ChangesOnly : ((ℕ → ℕ) → (ℕ → ℕ)) → List ℕ → Type 0
ChangesOnly raw_clone slots = (f : ℕ → ℕ) (a : ℕ) → has a slots ≡ false → raw_clone f a ≡ f a
