-- ===== src/Tests/Heap.antt =====
-- The start of a heap with threads from the command line, and what follows.
use mmtk_openjdk.Base.{
  ℕ, ◌≡◌, ◌≢◌, refl, true, false, none, some, List, [], ◌∷◌, arith, if◌then◌else◌,
}
use mmtk_openjdk.Options.{Flag, Builder}
use mmtk_openjdk.Options.Priority.{EnvSettings, by_priority}
use mmtk_openjdk.Heap.Startup.{tlab_in_use, VmFlags, Environment, Heap, initialize, launch}
use mmtk_openjdk.Heap.Startup.Outcomes.{failure_of, Leaves, initialize-Leaves, launch-threads}
use mmtk_openjdk.Heap.Enable.{Actor, starter, gc, before, null_dereference, run, run-no_null}

abbrev flags : VmFlags
flags = record {
  options = record {
    parallel_gc_threads = record { value = 6; is_default = false };
    use_transparent_huge_pages = record { value = false; is_default = true };
  };
  use_tlab = true;
  use_compressed_oops = true;
  use_compressed_class_pointers = false;
}

abbrev read : Builder → Builder
read b = record b { threads = 4 }

abbrev read-EnvSettings : EnvSettings read
read-EnvSettings = record {
  threads = some 4;
  transparent_hugepages = none;
  threads_set = λ b v e. ground arith;
  threads_unset = λ b e. ground arith;
  hugepages_set = λ b v e. ground arith;
  hugepages_unset = λ b e. refl;
}

abbrev environment : Environment
environment = record {
  flags = flags;
  allocation_fastpath_var = some "no";
  barrier_fastpath_var = none;
  min_heap_size = 1048576;
  max_heap_size = 4194304;
  read_env_var_settings = read;
  third_party_heap_options = none;
  accepts_heap_size = λ min max. true;
  layouts_agree = true;
  max_non_los_bytes = 16384;
  starting_heap_address = 4096;
  last_heap_address = 8192;
  narrow_oop_base = 0;
  narrow_oop_shift = 3;
  creates_thread = true;
}

abbrev nothing_yet : Heap
nothing_yet = record {
  allocation_fastpath = true;
  barrier_fastpath = true;
  config = record {
    builder = record { threads = 1; transparent_hugepages = false };
    heap_size = none;
    compressed_oops = false;
  };
  gc_initialized = none;
  max_non_los_default_alloc_bytes = 0;
  bounds = (0, 0);
  narrow_oop = none;
  reserved_region = none;
  barrier_set = none;
  companion_runs = false;
}

initialize-Leaves_example :
    ((initialize environment nothing_yet).0 ≡ failure_of environment nothing_yet)
    × Leaves environment nothing_yet (initialize environment nothing_yet)
initialize-Leaves_example = initialize-Leaves environment nothing_yet

-- A flag that was set, or as many threads as there are processors.
abbrev parallel_worker_threads : Flag ℕ → ℕ
parallel_worker_threads f = if f.is_default then 8 else f.value

launch-threads_example :
    let (failure, h') = launch parallel_worker_threads environment nothing_yet in
    (failure ≢ some tlab_in_use)
    × (failure ≡ none
        → (h'.gc_initialized ≡ some h'.config)
          × (h'.config.builder.threads
              ≡ by_priority (record { value = 6; is_default = false }) (some 4))
          × (false ≡ false
              → (h'.config.builder.threads ≡ 6) × (flags.options.parallel_gc_threads.value ≢ 0)))
launch-threads_example =
    launch-threads parallel_worker_threads (λ f e. ground arith) environment read-EnvSettings
      nothing_yet refl

abbrev early_gc : List Actor
early_gc = gc ∷ starter true ∷ gc ∷ starter true ∷ gc ∷ []

run-no_null_example : run early_gc before ≢ null_dereference
run-no_null_example = run-no_null early_gc
