-- ===== src/Tests/RootUpcalls.antt =====
-- The roots of a VM with one mutator and two registered nmethods.
use mmtk_openjdk.Base.{
  ℕ, ◌*◌, ◌+◌, ◌≡◌, ◌⊎◌, inl, inr, refl, true, false, none, some, List, [], ◌∷◌, arith,
}
use mmtk_openjdk.Slots.{Place}
use mmtk_openjdk.Roots.{NewBuffer}
use mmtk_openjdk.Roots.Upcalls.{
  Source, universe, vm_thread, threads, threads_and_code, code_cache, marking_code_cache, mutator,
  scan_roots_sources, Contract, roots_of, Found, gc_scans_roots,
}
use mmtk_openjdk.CodeCache.{CodeRoots, Event, register, collect, no_code, run}
use mmtk_openjdk.CodeCache.Scan.{Among}
use mmtk_openjdk.CodeCache.Registered.{registered}

abbrev new_buffer : Source → ℕ → NewBuffer
new_buffer s k = record { buf = 1000 * (k + 1); cap = 2 }

abbrev oop_at : Place → ℕ
oop_at p = 64

abbrev at : ℕ → Place
at a = record { address = a; narrow = true }

abbrev code_places : List Place
code_places = record { address = 4096; narrow = false } ∷ at 4104 ∷ []

abbrev oops_do : Source → List Place
oops_do universe = at 8 ∷ at 12 ∷ []
oops_do vm_thread = at 16 ∷ []
oops_do (mutator tls) = at 20 ∷ at 24 ∷ []
oops_do threads = at 16 ∷ at 20 ∷ at 24 ∷ []
oops_do threads_and_code = at 16 ∷ at 20 ∷ at 24 ∷ at 4104 ∷ []
oops_do marking_code_cache = code_places
oops_do code_cache = code_places
oops_do _ = []

abbrev history : List Event
history = register 1 code_places ∷ collect true ∷ register 2 (at 4 ∷ []) ∷ []

abbrev mutators : List ℕ
mutators = 7 ∷ []

in_code :
    (p : Place)
    → Among p (roots_of new_buffer true oop_at oops_do code_cache)
    → (nm : ℕ) × (places : List Place) × (registered nm history none ≡ some places) × Among p places
in_code p m = (1, code_places, refl, m)

in_threads :
    (p : Place)
    → Among p (roots_of new_buffer true oop_at oops_do threads_and_code)
    → Among p (roots_of new_buffer true oop_at oops_do vm_thread)
      ⊎ (((tls : ℕ) × Among tls mutators
            × Among p (roots_of new_buffer true oop_at oops_do (mutator tls)))
          ⊎ Among p (roots_of new_buffer true oop_at oops_do code_cache))
in_threads p (inl e) = inl (inl e)
in_threads p (inr (inl e)) = inr (inl (7, inl refl, inl e))
in_threads p (inr (inr (inl e))) = inr (inl (7, inl refl, inr (inl e)))
in_threads p (inr (inr (inr (inl e)))) = inr (inr (inr (inl e)))
in_threads p (inr (inr (inr (inr e)))) = absurd e

contract : Contract new_buffer true oop_at oops_do false mutators history
contract = record {
  positive = λ s k. omega arith;
  buffers = λ s k. ground arith;
  proper = λ s. ground arith;
  threads = in_threads;
  code = in_code;
  events_proper = ground arith;
}

gc_scans_roots_example :
    (r : CodeRoots) × (run true 4096 history no_code ≡ some r)
    × ((s : Source) (p : Place)
        → Among s (scan_roots_sources false)
        → Among p (roots_of new_buffer true oop_at oops_do s)
        → Found new_buffer true oop_at oops_do 4096 mutators r p)
gc_scans_roots_example =
    gc_scans_roots new_buffer true oop_at oops_do false 4096 mutators history contract
