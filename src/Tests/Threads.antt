-- ===== src/Tests/Threads.antt =====
-- Two Java threads, of which one leaves, and a collector thread.
use mmtk_openjdk.Base.{ℕ, ◌≡◌, refl, true, List, [], ◌∷◌, has, length, arith}
use mmtk_openjdk.Threads.{
  Threads, Outcome, goes_on, guarantee_failed, out_of_system_memory, get_mmtk_mutator, get_mutators,
  number_of_mutators, Event, enter, leave, spawn, oom, heap_out_of_memory, step, run, no_threads,
}
use mmtk_openjdk.Threads.Kinds.{KnowsKinds, AreAllowed, run-KnowsKinds}

abbrev history : List Event
history = enter 4096 ∷ spawn 1 77 8192 true ∷ enter 12288 ∷ oom heap_out_of_memory ∷ leave 4096 ∷ []

abbrev threads_of : Outcome → Threads
threads_of (goes_on s) = s
threads_of guarantee_failed = no_threads
threads_of out_of_system_memory = no_threads

abbrev at_end : Threads
unfolding run
at_end = threads_of (run 56 history no_threads)

history-AreAllowed : AreAllowed 56 history no_threads
unfolding step
history-AreAllowed = ground arith

history_ends : run 56 history no_threads ≡ goes_on at_end
unfolding run at_end
history_ends = refl

run-KnowsKinds_example :
    KnowsKinds at_end
    × ((t : ℕ) → has (get_mmtk_mutator 800 t) (get_mutators 800 at_end) ≡ has t at_end.java_threads)
    × (length (get_mutators 800 at_end) ≡ number_of_mutators at_end)
run-KnowsKinds_example = run-KnowsKinds 56 800 history at_end history-AreAllowed history_ends
