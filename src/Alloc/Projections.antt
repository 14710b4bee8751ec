-- ===== src/Alloc/Projections.antt =====
-- The end of `MMTkBarrierSetC2::expand_allocate` (openjdk/mmtkBarrierSetC2.cpp): the allocation node has
-- become a call, and whoever read one of its projections reads the merge of the fast and the slow path
-- from now on. An edge of the graph is a number; a graph says which node each edge reads.
use mmtk_openjdk.Base.{
  ℕ, zero, suc, ◌+◌, ◌<◌, ◌≡◌, fun_ext, Bool, true, false, not, ◌&&◌, Option, none, some, ltb, ◌==◌,
  if◌then◌else◌, arith,
}

pub data Node : Type 0 where
  memproj_fallthrough memproj_catchall ioproj_fallthrough ioproj_catchall : Node
  fallthroughcatchproj resproj : Node
  result_region result_phi_rawmem result_phi_rawoop result_phi_i_o i_o : Node
  cloned_catchproj cloned_resproj top : Node
  other : (k : ℕ) → Node

-- A number for each node.
abbrev number : Node → ℕ
number memproj_fallthrough = 0
number memproj_catchall = 1
number ioproj_fallthrough = 2
number ioproj_catchall = 3
number fallthroughcatchproj = 4
number resproj = 5
number result_region = 6
number result_phi_rawmem = 7
number result_phi_rawoop = 8
number result_phi_i_o = 9
number i_o = 10
number cloned_catchproj = 11
number cloned_resproj = 12
number top = 13
number (other k) = 14 + k

abbrev pub Graph : Type 0
Graph = ℕ → Node

-- Every edge that reads `old` reads `new`, if the code gets there: the loops over `fast_outs`, and
-- `replace_node`.
abbrev pub replace_if : Bool → (old new : Node) → Graph → Graph
replace_if b old new g e = if b && (number (g e) == number old) then new else g e

-- The projections that `extract_call_projections` finds.
pub record Projections : Type 0 where
  pub has_memproj_fallthrough : Bool
  pub has_memproj_catchall : Bool
  pub has_ioproj_fallthrough : Bool
  pub has_ioproj_catchall : Bool
  pub has_fallthroughcatchproj : Bool
  pub has_resproj : Bool

-- The memory projections; a missing fall-through projection is made where the other one needs it.
unfoldable pub rewire_memory : (always_slow : Bool) → Projections → Graph → Graph
rewire_memory always_slow p g =
    replace_if p.has_memproj_catchall memproj_catchall memproj_fallthrough (
      replace_if (not always_slow && p.has_memproj_fallthrough) memproj_fallthrough
        result_phi_rawmem g)

-- The projections of `i_o`; in a slow call alone, `result_phi_i_o` is another name of `i_o`.
unfoldable pub rewire_i_o : (always_slow : Bool) → Projections → Graph → Graph
rewire_i_o always_slow p g = replace_if p.has_ioproj_catchall ioproj_catchall ioproj_fallthrough (
    replace_if p.has_ioproj_fallthrough ioproj_fallthrough
      (if always_slow then i_o else result_phi_i_o) g)

-- Control and result, where there is a fast path.
unfoldable pub rewire_result : Projections → Graph → Graph
rewire_result p g =
    replace_if p.has_resproj resproj result_phi_rawoop
      (replace_if p.has_fallthroughcatchproj fallthroughcatchproj result_region g)

-- The inputs of the merge from the slow path; `none` is `NULL`.
pub record Merge : Type 0 where
  pub region : Node
  pub rawoop : Node
  pub rawmem : Option Node

unfoldable pub slow_inputs : Projections → Merge
slow_inputs p = record {
  region = if p.has_fallthroughcatchproj then cloned_catchproj else top;
  rawoop = if p.has_resproj then cloned_resproj else top;
  rawmem =
      if p.has_memproj_fallthrough
      then some memproj_fallthrough
      else if p.has_memproj_catchall
      then some memproj_fallthrough
      else none;
}

-- How many of the first `edges` edges pass the test.
abbrev pub count : (ℕ → Bool) → (edges : ℕ) → ℕ
count test zero = 0
count test (suc k) = if test k then count test k + 1 else count test k

abbrev pub reads : Node → Graph → ℕ → Bool
reads n g e = number (g e) == number n

-- `outcnt`, in a graph of so many edges.
abbrev outcnt : (edges : ℕ) → Node → Graph → ℕ
outcnt edges n g = count (reads n g) edges

-- A slow call alone lets go of `i_o` if it is not the only reader; `call_i_o` is the edge by which the call reads it.
unfoldable pub unhook : (edges call_i_o : ℕ) → Graph → Graph
unhook edges call_i_o g e = if (e == call_i_o) && ltb 1 (outcnt edges i_o g) then top else g e

unfoldable pub rewire :
    (edges call_i_o : ℕ) → (always_slow : Bool) → Projections → Graph → Graph × Option Merge
unfolding rewire_memory rewire_i_o rewire_result slow_inputs unhook
rewire edges call_i_o always_slow p g =
    let g' : Graph = rewire_i_o always_slow p (rewire_memory always_slow p g) in
    (
      (λ e. if always_slow then unhook edges call_i_o g' e else rewire_result p g' e),
      if always_slow then none else some (slow_inputs p),
    )

-- What a reader of a node reads afterwards: the merge where both paths meet, and the call's own
-- projection where an exception leaves it.
abbrev pub target : (always_slow : Bool) → Projections → Node → Node
target slow p memproj_fallthrough =
    if not slow && p.has_memproj_fallthrough then result_phi_rawmem else memproj_fallthrough
target slow p memproj_catchall =
    if p.has_memproj_catchall then memproj_fallthrough else memproj_catchall
target slow p ioproj_fallthrough =
    if p.has_ioproj_fallthrough then (if slow then i_o else result_phi_i_o) else ioproj_fallthrough
target slow p ioproj_catchall =
    if p.has_ioproj_catchall then ioproj_fallthrough else ioproj_catchall
target slow p fallthroughcatchproj =
    if not slow && p.has_fallthroughcatchproj then result_region else fallthroughcatchproj
target slow p resproj = if not slow && p.has_resproj then result_phi_rawoop else resproj
target slow p n = n

count-less :
    (test : ℕ → Bool) (k edges : ℕ)
    → count test edges
      ≡ (if ltb k edges && test k then 1 else 0) + count (λ e. test e && not (e == k)) edges
count-less test k zero = ground arith
count-less test k (suc edges) = ground (arith, count-less test k edges)

-- Another edge among the first `edges`, with the call's left out, comes to read `i_o`.
abbrev pub is_kept : (edges call_i_o : ℕ) → Projections → Graph → Bool
is_kept edges call_i_o p g =
    ltb 0 (count (λ e. (number (target true p (g e)) == number i_o) && not (e == call_i_o)) edges)

module _ (p : Projections) (g : Graph) where
  slow_graph : (e : ℕ) → rewire_i_o true p (rewire_memory true p g) e ≡ target true p (g e)
  unfolding rewire_i_o rewire_memory
  slow_graph e = ground arith

  outcnt-is_kept :
      (edges call_i_o : ℕ)
      → call_i_o < edges
      → g call_i_o ≡ i_o
      → ltb 1 (outcnt edges i_o (rewire_i_o true p (rewire_memory true p g)))
        ≡ is_kept edges call_i_o p g
  outcnt-is_kept edges call_i_o lt e =
      rw (fun_ext slow_graph)
        (ground (arith, count-less (reads i_o (λ k. target true p (g k))) call_i_o edges))

-- For a graph in which the call reads `i_o` by one edge. The replacements, one after the other, come to one
-- replacement of every node at once: whoever read the memory, the control or the result behind the
-- allocation reads the merge of both paths, with a slow call alone the call itself; who read memory or `i_o`
-- on the way of an exception reads the call's projection and never the merge; and all else stays, but that a
-- slow call alone reads `top` and no more `i_o` if any other edge comes to read `i_o`.
pub rewire-target :
    (edges call_i_o : ℕ) (always_slow : Bool) (p : Projections) (g : Graph) (e : ℕ)
    → call_i_o < edges
    → g call_i_o ≡ i_o
    → (rewire edges call_i_o always_slow p g).0 e ≡ (
        if always_slow && (e == call_i_o) && is_kept edges call_i_o p g
        then top
        else target always_slow p (g e))
unfolding rewire unhook
rewire-target edges call_i_o true p g e lt reads_i_o =
    rw (outcnt-is_kept p g edges call_i_o lt reads_i_o, slow_graph p g e) (ground arith)
rewire-target edges call_i_o false p g e lt reads_i_o = ground arith
