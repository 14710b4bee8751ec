-- ===== src/Heap/Startup/Outcomes.antt =====
-- How the start of the heap ends, and what it leaves behind.
use mmtk_openjdk.Base.{
  ℕ, ◌≡◌, ◌≢◌, ◌*◌, ◌^◌, leb, Bool, true, false, not, ◌&&◌, ◌||◌, Option, none, some, arith,
}
use mmtk_openjdk.Options.{Flag, set_bool_option_from_env_var, initialize_options}
use mmtk_openjdk.Heap.Startup.{
  VmFlags, Failure, tlab_in_use, bad_env_var, compressed_oops_twice, bad_bulk_options,
  bad_heap_size, layouts_differ, initialized_twice, heap_above_32_gb, no_companion, is_none,
  set_arguments, Environment, Heap, initialize, launch,
}
use mmtk_openjdk.Options.Priority.{EnvSettings, by_priority, initialize_options-by_priority}

abbrev pub is_some {ℓ} : {A : Type ℓ} → Option A → Bool
is_some none = false
is_some (some a) = true

-- The first failure whose check does not pass.
abbrev pub first_failure : Bool → Failure → Option Failure → Option Failure
first_failure true f rest = rest
first_failure false f rest = some f

-- The checks that the start makes, in their order: with compressed oops, that they are not enabled yet and that the
-- heap has 32 GB at most.
abbrev pub failure_of : Environment → Heap → Option Failure
failure_of e h =
    let options =
      initialize_options e.flags.options e.read_env_var_settings e.third_party_heap_options
        h.config.builder in
    first_failure (not e.flags.use_tlab) tlab_in_use (
      first_failure
        (is_some (set_bool_option_from_env_var e.allocation_fastpath_var h.allocation_fastpath))
        bad_env_var
        (first_failure
          (is_some (set_bool_option_from_env_var e.barrier_fastpath_var h.barrier_fastpath))
          bad_env_var
          (first_failure (not e.flags.use_compressed_oops || not h.config.compressed_oops)
            compressed_oops_twice
            (first_failure (is_some options) bad_bulk_options (
              first_failure (e.accepts_heap_size e.min_heap_size e.max_heap_size) bad_heap_size (
                first_failure e.layouts_agree layouts_differ (
                  first_failure (is_none h.gc_initialized) initialized_twice (
                    first_failure
                      ((not e.flags.use_compressed_oops && not h.config.compressed_oops)
                        || leb e.max_heap_size (32 * 2 ^ 30))
                      heap_above_32_gb (first_failure e.creates_thread no_companion none)))))))))

-- mmtk-core was initialized with all of its settings, and the VM has taken over its answers.
abbrev pub Initialized : Environment → Heap → Heap → Type 0
Initialized e h h' =
    (h'.gc_initialized ≡ some h'.config)
    × (initialize_options e.flags.options e.read_env_var_settings e.third_party_heap_options
          h.config.builder
        ≡ some h'.config.builder)
    × (h'.config.heap_size ≡ some (e.min_heap_size, e.max_heap_size))
    × (e.flags.use_compressed_oops ≡ true → h'.config.compressed_oops ≡ true)
    × (h'.max_non_los_default_alloc_bytes ≡ e.max_non_los_bytes)
    × (h'.barrier_set ≡ some (e.starting_heap_address, e.last_heap_address))
    × (h'.reserved_region ≡ h'.barrier_set)

-- By how the start ended: what holds behind it.
abbrev pub Leaves : Environment → Heap → Option Failure × Heap → Type 0
Leaves e h (none, h') = Initialized e h h' × (h'.companion_runs ≡ true)
Leaves e h (some no_companion, h') = Initialized e h h' × (h'.companion_runs ≡ h.companion_runs)
Leaves e h (some f, h') =
    (h'.gc_initialized ≡ h.gc_initialized)
    × (h'.barrier_set ≡ h.barrier_set)
    × (h'.companion_runs ≡ h.companion_runs)

initialize_lem : (e : Environment) (h : Heap) → Leaves e h (initialize e h)
unfolding initialize
initialize_lem e h = ground arith

initialize-failure_of : (e : Environment) (h : Heap) → (initialize e h).0 ≡ failure_of e h
unfolding initialize
initialize-failure_of e h = ground arith

-- The start of the heap ends by the first of its checks that does not pass: no use of TLABs, a known value in each
-- of the two variables, compressed oops not enabled before, valid bulk options, a valid heap size, class layouts on
-- which both sides agree, mmtk-core not initialized before, at most 32 GB with compressed oops, a companion thread.
-- If all pass, mmtk-core was initialized with the options, heap size and compressed oops that had been settled by
-- then, the barrier set covers the heap that mmtk-core answered with, and the companion thread runs. If only the
-- thread cannot be created, all but the last holds; on every other failure mmtk-core is not initialized and neither
-- the barrier set nor the companion thread has changed.
pub initialize-Leaves :
    (e : Environment) (h : Heap)
    → ((initialize e h).0 ≡ failure_of e h) × Leaves e h (initialize e h)
initialize-Leaves e h = (initialize-failure_of e h, initialize_lem e h)

-- Where `parallel_worker_threads` answers with a flag that was set, mmtk-core's reading of the
-- environment sets the options that have a variable and no other, and no bulk options are given: the
-- start never fails on the use of TLABs, whatever the flags said; and if it ends well, mmtk-core was
-- initialized with a number of threads that comes from the flag if it was set, and is then not zero,
-- else from the environment, else from `parallel_worker_threads`.
pub launch-threads :
    (parallel_worker_threads : Flag ℕ → ℕ)
    → ((f : Flag ℕ) → f.is_default ≡ false → parallel_worker_threads f ≡ f.value)
    → (e : Environment) (env : EnvSettings e.read_env_var_settings) (h : Heap)
    → e.third_party_heap_options ≡ none
    → let (failure, h') = launch parallel_worker_threads e h in
      let threads = e.flags.options.parallel_gc_threads in
      (failure ≢ some tlab_in_use)
      × (failure ≡ none
          → (h'.gc_initialized ≡ some h'.config)
            × (h'.config.builder.threads
                ≡ by_priority
                    (record {
                      value = parallel_worker_threads threads;
                      is_default = threads.is_default;
                    })
                    env.threads)
            × (threads.is_default ≡ false
                → (h'.config.builder.threads ≡ threads.value) × (threads.value ≢ 0)))
unfolding launch set_arguments
launch-threads ppw respects e env h no_bulk =
    let flags : VmFlags = (set_arguments ppw e.flags).1 in
    let e' : Environment = record e { flags = flags } in
    let (b, set, threads, _) =
      initialize_options-by_priority flags.options e.read_env_var_settings env h.config.builder in
    let leaves = initialize_lem e' h in
    let fails = initialize-failure_of e' h in
    ground (arith, respects e.flags.options.parallel_gc_threads)
