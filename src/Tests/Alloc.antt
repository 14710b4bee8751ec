-- ===== src/Tests/Alloc.antt =====
-- Allocators and allocations of a small setting.
use mmtk_openjdk.Base.{List, ◌==◌, if◌then◌else◌, ℕ, ◌+◌, ◌<◌, ◌≡◌, refl, true, false, some, arith}
use mmtk_openjdk.Alloc.Layout.{
  immix, bump_pointer, Selector, Offsets, Points, IsInside, allocators_of,
  get_tlab_top_and_end_offsets, get_tlab_top_and_end_offsets-apart,
}
use mmtk_openjdk.Alloc.Mutator.{Allocator, allocator_los}
use mmtk_openjdk.Alloc.Expand.{tested, constant, Buffer, expand_allocate}
use mmtk_openjdk.Alloc.Expand.Bounds.{Takes, expand_allocate-Takes}
use mmtk_openjdk.Alloc.Publish.{
  Allocation, Effect, fast, effects, IsExposed, unordered, bars, effects-ordered,
}
use mmtk_openjdk.Alloc.Projections.{
  Projections, Graph, i_o, ioproj_fallthrough, memproj_catchall, top, rewire, rewire-target,
}
use mmtk_openjdk.X86.Eden.{Setup, extra_header}

abbrev second_immix : Selector
second_immix = record { tag = immix; index = 1 }

get_tlab_top_and_end_offsets-apart_example :
    (o : Offsets) × (get_tlab_top_and_end_offsets 1000 second_immix ≡ some o)
    × Points 1000 second_immix o
    × IsInside 1000 o
    × ((t : Selector) (p : Offsets)
        → t.index < allocators_of t.tag
        → get_tlab_top_and_end_offsets 1000 t ≡ some p
        → p.tlab_top_offset < o.tlab_end_offset + 8
        → o.tlab_top_offset < p.tlab_end_offset + 8
        → t ≡ second_immix)
get_tlab_top_and_end_offsets-apart_example =
    get_tlab_top_and_end_offsets-apart 1000 second_immix (omega arith)

-- mmtk-core finds room for small objects only.
abbrev core_alloc : ℕ → Allocator → ℕ
core_alloc bytes allocator_los = 0
core_alloc bytes _ = 4096 + bytes

abbrev setup : Setup
setup = record {
  allocation_fastpath = true;
  max_non_los_bytes = 1024;
  header_reserved = 8;
  tag = bump_pointer;
  offsets = record { tlab_top_offset = 8; tlab_end_offset = 16 };
  enable_vo_bit = true;
  vo_bit_base = 4096;
  allocated_bytes_offset = 48;
}

abbrev buffer : Buffer
buffer = record { top = 64; end = 128; bytes = λ a. 0 }

expand_allocate-Takes_example :
    Takes setup false
      (tested false)
      (constant 32)
      buffer
      (expand_allocate setup false (tested false) (constant 32) buffer)
unfolding extra_header
expand_allocate-Takes_example =
    expand_allocate-Takes setup false (tested false) (constant 32) buffer (omega arith)
      (omega arith) (omega arith) (omega arith)

-- A call with two memory projections and a result.
abbrev projections : Projections
projections = record {
  has_memproj_fallthrough = true;
  has_memproj_catchall = true;
  has_ioproj_fallthrough = true;
  has_ioproj_catchall = false;
  has_fallthroughcatchproj = true;
  has_resproj = true;
}

-- The call's edge, a reader behind the call, and one of memory on the way of an exception.
abbrev graph : Graph
graph e = if e == 0 then i_o else if e == 1 then ioproj_fallthrough else memproj_catchall

rewire-target_example : (rewire 3 0 true projections graph).0 0 ≡ top
rewire-target_example = rewire-target 3 0 true projections graph 0 (omega arith) refl

-- An array that escapes, with stores that the initialization has captured.
abbrev escaping : Allocation
escaping = record {
  does_not_escape_thread = false;
  is_allocation_mem_bar_redundant = false;
  init = some (record { is_complete_with_arraycopy = false; captured = true });
  dtrace_extended_probes = true;
  is_array = true;
}

effects-ordered_example :
    (path : List Effect) × (effects false escaping fast ≡ some path)
    × (IsExposed escaping → unordered 0 path ≡ 0)
    × (IsExposed escaping → fast ≡ fast → bars path ≡ 1)
    × (¬ IsExposed escaping → bars path ≡ 0)
effects-ordered_example = effects-ordered escaping fast
