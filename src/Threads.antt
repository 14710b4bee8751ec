-- ===== src/Threads.antt =====
-- The VM's threads as mmtk-core sees them: the upcalls `mmtk_spawn_gc_thread`, `mmtk_is_mutator`,
-- `mmtk_get_mutators`, `mmtk_number_of_mutators`, the enumeration in `mmtk_stop_all_mutators` and
-- `mmtk_out_of_memory` (openjdk/mmtkUpcalls.cpp), the collector threads
-- (openjdk/mmtkCollectorThread.cpp), and the life of a mutator (openjdk/mmtkMutator.cpp and the thread
-- hooks of openjdk/mmtkBarrierSet.cpp). The list of Java threads is OpenJDK's.
pub mod Kinds
use mmtk_openjdk.Base.{
  ℕ, ◌+◌, Bool, true, false, not, ◌&&◌, Option, none, some, List, [], ◌∷◌, ◌++◌, map, length, has,
  ◌==◌, if◌then◌else◌,
}
use mmtk_openjdk.Alloc.Layout.{free_list_allocator, size_of}

-- What mmtk-core is called for.
pub data CoreCall : Type 0 where
  bind_mutator flush_mutator destroy_mutator : (thread : ℕ) → CoreCall
  start_worker : (thread context : ℕ) → CoreCall

pub record Threads : Type 0 where
  pub collector_of : ℕ → ℕ  -- `third_party_heap_collector` of a thread, 0 for NULL
  pub java_threads : List ℕ
  pub collector_threads : List ℕ  -- those that were started
  pub n_workers : ℕ
  pub calls : List CoreCall

pub data Outcome : Type 0 where
  goes_on : Threads → Outcome
  guarantee_failed : Outcome
  out_of_system_memory : Outcome  -- `vm_exit_out_of_memory`

abbrev put : (ℕ → ℕ) → ℕ → ℕ → ℕ → ℕ
put f a v b = if a == b then v else f b

abbrev pub remove : ℕ → List ℕ → List ℕ
remove a [] = []
remove a (x ∷ xs) = let rest = remove a xs in if a == x then rest else x ∷ rest

-- `GC_THREAD_KIND_WORKER`
abbrev pub gc_thread_kind_worker : ℕ
gc_thread_kind_worker = 1

-- `MMTkCollectorThread(context)` at a new address, and `run` once it is started
unfoldable new_collector : (thread context : ℕ) → Threads → Threads
new_collector thread context s = record s {
  collector_of = put s.collector_of thread context;
  collector_threads = s.collector_threads ++ thread ∷ [];
  calls = s.calls ++ start_worker thread context ∷ [];
}

-- `MMTkHeap::new_collector_thread`
unfoldable new_collector_thread : Threads → Threads
new_collector_thread s = record s { n_workers = s.n_workers + 1 }

-- `mmtk_spawn_gc_thread`; `creates` is `os::create_thread`.
unfoldable pub spawn_gc_thread : (kind context thread : ℕ) (creates : Bool) → Threads → Outcome
unfolding new_collector new_collector_thread
spawn_gc_thread kind context thread creates s =
    let s' : Threads = new_collector_thread s in
    if kind == gc_thread_kind_worker
    then (if creates then goes_on (new_collector thread context s') else guarantee_failed)
    else guarantee_failed

-- `mmtk_is_mutator`
unfoldable pub is_mutator : (tls : ℕ) → Threads → Bool
is_mutator tls s = if tls == 0 then false else s.collector_of tls == 0

-- `mmtk_get_mmtk_mutator`; `offset` is that of `third_party_heap_mutator` in a thread.
unfoldable pub get_mmtk_mutator : (offset tls : ℕ) → ℕ
get_mmtk_mutator offset tls = tls + offset

-- `mmtk_get_mutators`, and the loop of `mmtk_stop_all_mutators`: the mutators that the closure is
-- invoked with, in order
unfoldable pub get_mutators : (offset : ℕ) → Threads → List ℕ
unfolding get_mmtk_mutator
get_mutators offset s = map (get_mmtk_mutator offset) s.java_threads

-- `mmtk_number_of_mutators`
unfoldable pub number_of_mutators : Threads → ℕ
number_of_mutators s = length s.java_threads

-- `MMTkAllocationError`
pub data AllocationError : Type 0 where
  heap_out_of_memory mmap_out_of_memory : AllocationError

-- `mmtk_out_of_memory`
unfoldable pub out_of_memory : AllocationError → Threads → Outcome
out_of_memory heap_out_of_memory s = goes_on s
out_of_memory mmap_out_of_memory s = out_of_system_memory

abbrev pub call : CoreCall → Threads → Threads
call c s = record s { calls = s.calls ++ c ∷ [] }

-- `MMTkMutatorContext::bind`; `free_list_allocator_size` is the size that the Rust side has.
unfoldable pub bind : (free_list_allocator_size thread : ℕ) → Threads → Outcome
bind free_list_allocator_size thread s =
    if free_list_allocator_size == size_of free_list_allocator
    then goes_on (call (bind_mutator thread) s)
    else guarantee_failed

-- `MMTkMutatorContext::flush`
unfoldable pub flush : (thread : ℕ) → Threads → Threads
flush thread s = call (flush_mutator thread) s

-- `MMTkMutatorContext::destroy`
unfoldable pub destroy : (thread : ℕ) → Threads → Threads
destroy thread s = call (destroy_mutator thread) s

-- `MMTkBarrierSet::on_thread_attach`
unfoldable pub on_thread_attach : (thread : ℕ) → Threads → Threads
unfolding flush
on_thread_attach thread s = flush thread s

-- `MMTkBarrierSet::on_thread_detach`
unfoldable pub on_thread_detach : (thread : ℕ) → Threads → Threads
unfolding flush
on_thread_detach thread s = flush thread s

-- `MMTkBarrierSet::on_thread_destroy`
unfoldable pub on_thread_destroy : (thread : ℕ) → Threads → Threads
unfolding flush destroy
on_thread_destroy thread s = destroy thread (flush thread s)

-- What happens to threads. A Java thread is bound and attached, and later detached and destroyed, by
-- OpenJDK; its `third_party_heap_collector` is NULL.
pub data Event : Type 0 where
  enter leave : (thread : ℕ) → Event
  spawn : (kind context thread : ℕ) (creates : Bool) → Event
  oom : AllocationError → Event

abbrev pub and_then : Outcome → (Threads → Outcome) → Outcome
and_then (goes_on s) k = k s
and_then guarantee_failed k = guarantee_failed
and_then out_of_system_memory k = out_of_system_memory

abbrev add_java : ℕ → Threads → Threads
add_java thread s = record s {
  collector_of = put s.collector_of thread 0;
  java_threads = s.java_threads ++ thread ∷ [];
}

abbrev drop_java : ℕ → Threads → Threads
drop_java thread s = record s { java_threads = remove thread s.java_threads }

unfoldable pub step : (free_list_allocator_size : ℕ) → Event → Threads → Outcome
unfolding bind on_thread_attach on_thread_detach on_thread_destroy spawn_gc_thread out_of_memory
step size (enter thread) s =
    and_then (bind size thread s) (λ s'. goes_on (on_thread_attach thread (add_java thread s')))
step size (leave thread) s =
    goes_on (on_thread_destroy thread (drop_java thread (on_thread_detach thread s)))
step size (spawn kind context thread creates) s = spawn_gc_thread kind context thread creates s
step size (oom e) s = out_of_memory e s

unfoldable pub run : (free_list_allocator_size : ℕ) → List Event → Threads → Outcome
unfolding step
run size [] s = goes_on s
run size (e ∷ rest) s = and_then (step size e s) (run size rest)

abbrev pub no_threads : Threads
no_threads = record {
  collector_of = λ t. 0;
  java_threads = [];
  collector_threads = [];
  n_workers = 0;
  calls = [];
}
