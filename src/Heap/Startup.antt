-- ===== src/Heap/Startup.antt =====
-- The start of the VM with MMTk: `ThirdPartyHeapArguments::initialize`
-- (openjdk/thirdPartyHeapArguments.cpp), then `MMTkHeap::initialize` (openjdk/mmtkHeap.cpp). What
-- OpenJDK and mmtk-core answer is an environment; a failed guarantee or assertion, `abort` and
-- `vm_exit_during_initialization` end the start with a failure.
pub mod Outcomes
use Prim.Native.String.{String}
use mmtk_openjdk.Base.{
  ℕ, ◌*◌, ◌^◌, Bool, true, false, not, ◌&&◌, ◌||◌, Option, none, some, leb, ◌==◌, if◌then◌else◌,
}
use mmtk_openjdk.Options.{Flag, Flags, Builder, set_bool_option_from_env_var, initialize_options}

-- The flags of the VM that the start reads or sets.
pub record VmFlags : Type 0 where
  pub options : Flags
  pub use_tlab : Bool
  pub use_compressed_oops : Bool
  pub use_compressed_class_pointers : Bool

pub data Failure : Type 0 where
  no_gc_threads default_gc_threads_zero : Failure
  tlab_in_use bad_env_var compressed_oops_twice bad_bulk_options bad_heap_size : Failure
  layouts_differ initialized_twice heap_above_32_gb no_companion : Failure

-- `ThirdPartyHeapArguments::initialize`, behind `GCArguments::initialize`;
-- `Abstract_VM_Version::parallel_worker_threads` may read the flag.
unfoldable pub set_arguments :
    (parallel_worker_threads : Flag ℕ → ℕ) → VmFlags → Option Failure × VmFlags
set_arguments parallel_worker_threads f =
    let threads = parallel_worker_threads f.options.parallel_gc_threads in
    let f' : VmFlags = record f {
      use_tlab = false;
      use_compressed_class_pointers = f.use_compressed_oops;
      options = record {
        parallel_gc_threads = record {
          value = threads;
          is_default = f.options.parallel_gc_threads.is_default;
        };
        use_transparent_huge_pages = f.options.use_transparent_huge_pages;
      };
    } in
    (
      if threads == 0
          then some (
              if f.options.parallel_gc_threads.is_default
              then default_gc_threads_zero
              else no_gc_threads)
          else none,
      f',
    )

-- What the heap finds when it starts.
pub record Environment : Type 0 where
  pub flags : VmFlags
  pub allocation_fastpath_var : Option String  -- `MMTK_ENABLE_ALLOCATION_FASTPATH`
  pub barrier_fastpath_var : Option String  -- `MMTK_ENABLE_BARRIER_FASTPATH`
  pub min_heap_size : ℕ
  pub max_heap_size : ℕ
  pub read_env_var_settings : Builder → Builder
  pub third_party_heap_options : Option (Builder → Option Builder)
  pub accepts_heap_size : (min max : ℕ) → Bool  -- `mmtk_set_heap_size`
  pub layouts_agree : Bool  -- `validate_memory_layouts`
  pub max_non_los_bytes : ℕ  -- `get_max_non_los_default_alloc_bytes`
  pub starting_heap_address : ℕ
  pub last_heap_address : ℕ
  pub narrow_oop_base : ℕ
  pub narrow_oop_shift : ℕ
  pub creates_thread : Bool  -- `os::create_thread`

-- What mmtk-core has been told.
pub record CoreConfig : Type 0 where
  pub builder : Builder
  pub heap_size : Option (ℕ × ℕ)
  pub compressed_oops : Bool

pub record Heap : Type 0 where
  pub allocation_fastpath : Bool  -- `mmtk_enable_allocation_fastpath`
  pub barrier_fastpath : Bool  -- `mmtk_enable_barrier_fastpath`
  pub config : CoreConfig
  pub gc_initialized : Option CoreConfig  -- what `openjdk_gc_init` found
  pub max_non_los_default_alloc_bytes : ℕ
  pub bounds : ℕ × ℕ  -- `_start`, `_end`
  pub narrow_oop : Option (ℕ × ℕ)  -- base and shift in `Universe`
  pub reserved_region : Option (ℕ × ℕ)
  pub barrier_set : Option (ℕ × ℕ)  -- the region of the barrier set in place
  pub companion_runs : Bool

abbrev pub Action : Type 0
Action = Heap → Option Failure × Heap

infixl 5 ◌>>◌
abbrev ◌>>◌ : Action → Action → Action
(m >> k) h = let (r, h') = m h in elim r [ none ↦ k h' | some f ↦ (some f, h') ]

abbrev modify : (Heap → Heap) → Action
modify f h = (none, f h)

abbrev fail_unless : Bool → Failure → Action
fail_unless b f h = ((if b then none else some f), h)

abbrev or_fail : {A : Type 0} → Option A → Failure → (A → Heap → Heap) → Action
or_fail none f set h = (some f, h)
or_fail (some a) f set h = (none, set a h)

-- The two calls of `set_bool_option_from_env_var`
unfoldable read_fastpath_vars : Environment → Action
read_fastpath_vars e =
    (λ h.
      or_fail (set_bool_option_from_env_var e.allocation_fastpath_var h.allocation_fastpath)
        bad_env_var (λ b h'. record h' { allocation_fastpath = b }) h)
    >> (λ h.
        or_fail (set_bool_option_from_env_var e.barrier_fastpath_var h.barrier_fastpath) bad_env_var
          (λ b h'. record h' { barrier_fastpath = b }) h)

unfoldable set_options : Environment → Action
set_options e =
    (λ h.
      fail_unless (not (e.flags.use_compressed_oops && h.config.compressed_oops))
        compressed_oops_twice h)
    >> modify (λ h. record h {
      config = record h.config {
        compressed_oops = if e.flags.use_compressed_oops then true else h.config.compressed_oops;
      };
    })
    >> (λ h.
        or_fail
          (initialize_options e.flags.options e.read_env_var_settings e.third_party_heap_options
            h.config.builder)
          bad_bulk_options (λ b h'. record h' { config = record h'.config { builder = b } }) h)

unfoldable set_heap_size : Environment → Action
set_heap_size e =
    fail_unless (e.accepts_heap_size e.min_heap_size e.max_heap_size) bad_heap_size
    >> modify (λ h. record h {
      config = record h.config { heap_size = some (e.min_heap_size, e.max_heap_size) };
    })

abbrev pub is_none {ℓ} : {A : Type ℓ} → Option A → Bool
is_none none = true
is_none (some a) = false

-- The assertion on the heap size that comes with compressed oops; `mmtk_set_heap_size` has set the option.
abbrev pub fits_32_gb : Environment → CoreConfig → Bool
fits_32_gb e c = not c.compressed_oops || leb e.max_heap_size (32 * 2 ^ 30)

-- `openjdk_gc_init`, whose assertions are those of mmtk/src/api.rs, mmtk/src/abi.rs and mmtk/src/lib.rs, and what is
-- read from mmtk-core then
unfoldable gc_init : Environment → Action
gc_init e =
    fail_unless e.layouts_agree layouts_differ
    >> (λ h. fail_unless (is_none h.gc_initialized) initialized_twice h)
    >> (λ h. fail_unless (fits_32_gb e h.config) heap_above_32_gb h)
    >> modify (λ h. record h {
      gc_initialized = some h.config;
      max_non_los_default_alloc_bytes = e.max_non_los_bytes;
      bounds = (e.starting_heap_address, e.last_heap_address);
      narrow_oop =
          if e.flags.use_compressed_oops
          then some (e.narrow_oop_base, e.narrow_oop_shift)
          else h.narrow_oop;
    })

unfoldable set_barrier_set : Action
set_barrier_set h =
    (none, record h { reserved_region = some h.bounds; barrier_set = some h.bounds })

unfoldable start_companion : Environment → Action
start_companion e =
    fail_unless e.creates_thread no_companion >> modify (λ h. record h { companion_runs = true })

-- `MMTkHeap::initialize`
unfoldable pub initialize : Environment → Action
unfolding read_fastpath_vars set_options set_heap_size gc_init set_barrier_set start_companion
initialize e =
    fail_unless (not e.flags.use_tlab) tlab_in_use
    >> read_fastpath_vars e
    >> set_options e
    >> set_heap_size e
    >> gc_init e
    >> set_barrier_set
    >> start_companion e

-- Arguments, then the heap.
unfoldable pub launch : (parallel_worker_threads : Flag ℕ → ℕ) → Environment → Action
unfolding set_arguments
launch parallel_worker_threads e h =
    let (failure, flags) = set_arguments parallel_worker_threads e.flags in
    elim failure [ none ↦ initialize (record e { flags = flags }) h | some f ↦ (some f, h) ]
