-- ===== src/Heap/Queries.antt =====
-- What the VM asks of `MMTkHeap` and tells it (openjdk/mmtkHeap.cpp, openjdk/mmtkHeap.hpp), apart from allocation
-- and time.
use mmtk_openjdk.Base.{ℕ, ◌≡◌, Bool, true, false, if◌then◌else◌, arith, ◌↔◌}

-- What mmtk-core and OpenJDK answer.
pub record Environment : Type 0 where
  pub openjdk_max_capacity : ℕ
  pub used_bytes : ℕ
  pub is_in_mmtk_spaces : ℕ → Bool
  pub use_compressed_oops : Bool
  pub allocation_fastpath : Bool

-- The calls of the VM that go through the heap's objects and blocks.
pub data Walk : Type 0 where
  object_iterate safe_object_iterate : Walk
  block_start block_size block_is_obj : (addr : ℕ) → Walk

-- Those for output and verification.
pub data Report : Type 0 where
  prepare_for_verify print_on print_gc_threads_on gc_threads_do print_tracing_info : Report

pub data Query : Type 0 where
  capacity max_capacity used is_maximal_no_gc supports_tlab_allocation : Query
  is_in is_in_reserved : (p : ℕ) → Query
  can_elide_tlab_store_barriers can_elide_initializing_store_barrier : Query
  card_mark_must_follow_store supports_inline_contig_alloc is_scavengable : Query
  tlab_capacity tlab_used do_full_collection : Query
  collect : (mutator : ℕ) → Query
  walk : Walk → Query
  report : Report → Query
  post_initialize : (narrow_klass_base narrow_klass_shift : ℕ) → Query

-- An answer, with the call into mmtk-core where that is what the heap does.
pub data Answer : Type 0 where
  number : ℕ → Answer
  truth : Bool → Answer
  nothing warning guarantee_failed : Answer
  handle_user_collection_request : (mutator : ℕ) → Answer
  set_compressed_klass_base_and_shift : (base shift : ℕ) → Answer

unfoldable pub ask_walk : Walk → Answer
ask_walk object_iterate = warning
ask_walk safe_object_iterate = warning
ask_walk (block_start addr) = guarantee_failed
ask_walk (block_size addr) = guarantee_failed
ask_walk (block_is_obj addr) = guarantee_failed

unfoldable pub ask_report : Report → Answer
ask_report prepare_for_verify = nothing
ask_report print_on = guarantee_failed
ask_report print_gc_threads_on = guarantee_failed
ask_report gc_threads_do = nothing
ask_report print_tracing_info = nothing

unfoldable pub ask_post_initialize : Environment → (base shift : ℕ) → Answer
ask_post_initialize e base shift =
    if e.use_compressed_oops then set_compressed_klass_base_and_shift base shift else nothing

unfoldable pub ask : Environment → Query → Answer
unfolding ask_walk ask_report ask_post_initialize
ask e capacity = number e.openjdk_max_capacity
ask e max_capacity = number e.openjdk_max_capacity
ask e used = number e.used_bytes
ask e is_maximal_no_gc = truth false
ask e (is_in p) = truth (e.is_in_mmtk_spaces p)
ask e (is_in_reserved p) = truth (e.is_in_mmtk_spaces p)
ask e supports_tlab_allocation = truth false
ask e tlab_capacity = guarantee_failed
ask e tlab_used = guarantee_failed
ask e can_elide_tlab_store_barriers = truth true
ask e can_elide_initializing_store_barrier = truth false
ask e card_mark_must_follow_store = truth false
ask e (collect mutator) = handle_user_collection_request mutator
ask e do_full_collection = nothing
ask e supports_inline_contig_alloc = truth e.allocation_fastpath
ask e is_scavengable = truth true
ask e (walk w) = ask_walk w
ask e (report r) = ask_report r
ask e (post_initialize base shift) = ask_post_initialize e base shift

-- A VM that asks about buffers only where the heap supports them, and neither parses nor prints the heap.
abbrev IsAllowed : Environment → Query → Type 0
IsAllowed e tlab_capacity = ask e supports_tlab_allocation ≡ truth true
IsAllowed e tlab_used = ask e supports_tlab_allocation ≡ truth true
IsAllowed e (walk (block_start addr)) = ⊥
IsAllowed e (walk (block_size addr)) = ⊥
IsAllowed e (walk (block_is_obj addr)) = ⊥
IsAllowed e (report print_on) = ⊥
IsAllowed e (report print_gc_threads_on) = ⊥
IsAllowed e q = Unit

-- The guarantees that fail are those of calls that such a VM does not make.
ask-fails : (e : Environment) (q : Query) → (ask e q ≡ guarantee_failed) ↔ (¬ (IsAllowed e q))
unfolding ask ask_walk ask_report ask_post_initialize
ask-fails e q = ground arith
