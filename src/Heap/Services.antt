-- ===== src/Heap/Services.antt =====
-- What `MMTkHeap` answers to the VM (openjdk/mmtkHeap.cpp), and its memory pool
-- (openjdk/mmtkMemoryPool.cpp).
use mmtk_openjdk.Base.{ℕ, ◌-◌, ◌*◌, ◌/◌, Bool, List, ltb, if◌then◌else◌, u64, sub64}
use mmtk_openjdk.Alloc.Mutator.{Allocator, allocator_default, allocator_los, PostAlloc, alloc}
use mmtk_openjdk.Stw.State.{World}

-- `millis_since_last_gc`, at a time in nanoseconds; a negative difference is answered with 0.
unfoldable pub millis_since_last_gc : (now : ℕ) → World → ℕ
millis_since_last_gc now w =
    if ltb (now / 1000000) w.last_gc_time then 0 else now / 1000000 - w.last_gc_time

-- `mem_allocate`, with a size in words; `size << LogHeapWordSize` wraps round.
unfoldable pub mem_allocate :
    (core_alloc : ℕ → Allocator → ℕ) (max_non_los_bytes size : ℕ) → ℕ × List PostAlloc
mem_allocate core_alloc max_non_los_bytes size =
    alloc core_alloc max_non_los_bytes (u64 (size * 8)) allocator_default

-- `mem_allocate_nonmove`
unfoldable pub mem_allocate_nonmove :
    (core_alloc : ℕ → Allocator → ℕ) (max_non_los_bytes size : ℕ) → ℕ × List PostAlloc
mem_allocate_nonmove core_alloc max_non_los_bytes size =
    alloc core_alloc max_non_los_bytes (u64 (size * 8)) allocator_los

-- `MMTkMemoryPool`
pub record MemoryPool : Type 0 where
  pub initial_size : ℕ
  pub start : ℕ
  pub end_ : ℕ
  pub used_in_bytes : ℕ

-- `MemoryUsage`
pub record MemoryUsage : Type 0 where
  pub init_size : ℕ
  pub used : ℕ
  pub committed : ℕ
  pub max_size : ℕ

-- `pointer_delta(start, end) * HeapWordSize`
unfoldable pub pool_size : MemoryPool → ℕ
pool_size p = u64 (sub64 p.end_ p.start / 8 * 8)

unfoldable pub get_memory_usage : (available_for_allocation : Bool) → MemoryPool → MemoryUsage
unfolding pool_size
get_memory_usage available_for_allocation p = record {
  init_size = p.initial_size;
  used = p.used_in_bytes;
  committed = pool_size p;
  max_size = if available_for_allocation then pool_size p else 0;
}

-- `initialize_serviceability`
unfoldable pub initialize_serviceability : (bounds : ℕ × ℕ) (min_heap_size : ℕ) → MemoryPool
initialize_serviceability (start, end_) min_heap_size = record {
  initial_size = min_heap_size;
  start = start;
  end_ = end_;
  used_in_bytes = 0;
}
