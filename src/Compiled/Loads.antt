-- ===== src/Compiled/Loads.antt =====
-- Loads under the SATB barrier, whoever makes them: the VM through `AccessBarrier` (openjdk/mmtkBarrierSet.hpp), or the
-- code of a compiler (openjdk/barriers/mmtkSATBBarrier.cpp).
use mmtk_openjdk.Base.{ℕ, ◌≡◌, ◌⊎◌, Bool, true, false, List, [], ◌∷◌}
use mmtk_openjdk.Barriers.Runtime.{CoreCall, satb_barrier, Settings}
use mmtk_openjdk.Barriers.Access.{Core, Machine, perform_all, oop_load}
use mmtk_openjdk.Compiled.C1
use mmtk_openjdk.Compiled.C2
use mmtk_openjdk.Compiled.C2.{Store, UnknownLoad, can_remove_barrier}
use mmtk_openjdk.Compiled.Calls.{IsTrue}
use mmtk_openjdk.Compiled.Accesses.{Access, access}

-- Who loads, with what decides about the barrier: the decorators, and for compiled code what the compiler knows, and
-- what its checks find at run time.
pub data Reader : Type 0 where
  vm : (on_strong_oop_ref peek : Bool) → Reader
  c1_load : (is_oop is_weak is_phantom is_anonymous referent_check : Bool) → Reader
  c2_load :
      (referent_offset : ℕ)
      → UnknownLoad
      → (is_oop in_heap on_weak unknown known_address : Bool) → (offset : ℕ) → (is_instance : Bool)
      → Reader

-- The calls of the compiled load barriers.
unfoldable pub load_calls : Reader → (active value : ℕ) → List CoreCall
load_calls (vm on_strong_oop_ref peek) active value = []
load_calls (c1_load is_oop is_weak is_phantom is_anonymous referent_check) active value =
    C1.load_at_resolved is_oop is_weak is_phantom is_anonymous referent_check active value
load_calls
      (c2_load referent_offset u is_oop in_heap on_weak unknown known_address offset is_instance)
      active value =
    C2.load_at_resolved referent_offset u is_oop in_heap on_weak unknown known_address offset
      is_instance active value

module _ (core : Core) (s : Settings) where
  -- The oop, and the machine behind the barrier.
  unfoldable pub load_by : Reader → (active slot : ℕ) → Machine core → ℕ × Machine core
  unfolding load_calls oop_load perform_all
  load_by (vm on_strong_oop_ref peek) active slot m =
      oop_load core s satb_barrier on_strong_oop_ref peek active slot m
  load_by r active slot m =
      (m.fields slot, perform_all core (load_calls r active (m.fields slot)) m)

-- The load is of a weak or phantom referent, and not to be hidden from the collector; of unknown strength, it turns out
-- to be of the referent, and what the compiler knows is true.
abbrev pub IsOfReferent : Reader → Type 0
IsOfReferent (vm on_strong_oop_ref peek) = (on_strong_oop_ref ≡ false) × (peek ≡ false)
IsOfReferent (c1_load is_oop is_weak is_phantom is_anonymous referent_check) =
    (is_oop ≡ true)
    × (((is_anonymous ≡ false) × ((is_weak ≡ true) ⊎ (is_phantom ≡ true)))
        ⊎ ((is_anonymous ≡ true) × (referent_check ≡ true)))
IsOfReferent
      (c2_load referent_offset u is_oop in_heap on_weak unknown known_address offset is_instance) =
    (is_oop ≡ true)
    × (in_heap ≡ true)
    × ((on_weak ≡ true)
        ⊎ ((unknown ≡ true)
            × (known_address ≡ true)
            × IsTrue u offset is_instance
            × (offset ≡ referent_offset)
            × (is_instance ≡ true)))

-- A step: an access, or a load, with the byte `CONCURRENT_MARKING_ACTIVE` at that time.
pub data Step : Type 0 where
  change : Access → Step
  load : Reader → (active slot : ℕ) → Step

module _ (core : Core) (s : Settings) where
  unfoldable pub run : List Step → Machine core → Machine core
  unfolding load_by access
  run [] m = m
  run (change a ∷ rest) m = run rest (access core s satb_barrier a m)
  run (load r active slot ∷ rest) m = run rest (load_by core s r active slot m).1
