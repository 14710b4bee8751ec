-- ===== src/Alloc/Publish.antt =====
-- The order of the effects that `MMTkBarrierSetC2::expand_allocate` (openjdk/mmtkBarrierSetC2.cpp)
-- builds for an allocation: initialization, memory barrier, probe and slow call, along the memory and
-- control edges from the allocation to the first reader behind it.
use mmtk_openjdk.Base.{
  ℕ, ◌+◌, ◌≡◌, refl, Bool, true, false, not, ◌&&◌, List, [], ◌∷◌, ◌++◌, Option, none, some,
  if◌then◌else◌, arith,
}

-- `InitializeNode`; `captured` says whether it has inputs from `RawStores` on.
pub record Initialization : Type 0 where
  pub is_complete_with_arraycopy : Bool
  pub captured : Bool

-- What the compiler knows of the allocation.
pub record Allocation : Type 0 where
  pub does_not_escape_thread : Bool
  pub is_allocation_mem_bar_redundant : Bool
  pub init : Option Initialization
  pub dtrace_extended_probes : Bool
  pub is_array : Bool  -- `length != NULL`

pub data Parameter : Type 0 where
  klass_node length : Parameter

pub data Effect : Type 0 where
  take_memory initialize_object captured_stores mem_bar_store_store dtrace_object_alloc : Effect
  slow_call : List Parameter → Effect

abbrev pub complete_with_arraycopy : Option Initialization → Bool
complete_with_arraycopy none = false
complete_with_arraycopy (some i) = i.is_complete_with_arraycopy

abbrev pub has_captured : Option Initialization → Bool
has_captured none = false
has_captured (some i) = i.captured

unfoldable pub needs_mem_bar : Allocation → Bool
needs_mem_bar a =
    not a.does_not_escape_thread
    && not a.is_allocation_mem_bar_redundant
    && not (complete_with_arraycopy a.init)

abbrev when : Bool → Effect → List Effect
when b e = if b then e ∷ [] else []

-- The fast path, up to the merge with the slow path.
unfoldable pub fast_path : Allocation → List Effect
unfolding needs_mem_bar
fast_path a =
    take_memory
      ∷ initialize_object
      ∷ when (needs_mem_bar a && not (has_captured a.init)) mem_bar_store_store
    ++ when a.dtrace_extended_probes dtrace_object_alloc

unfoldable pub slow_path : Allocation → List Effect
slow_path a = slow_call (if a.is_array then klass_node ∷ length ∷ [] else klass_node ∷ []) ∷ []

-- Behind the merge: the stores of the `InitializeNode`, and the barrier that its readers read in its
-- place. With a slow call alone the readers stay as they are.
unfoldable pub behind : (always_slow : Bool) → Allocation → List Effect
unfolding needs_mem_bar
behind always_slow a =
    when (has_captured a.init) captured_stores
    ++ when (not always_slow && needs_mem_bar a && has_captured a.init) mem_bar_store_store

-- The effects along each way from the allocation to its readers.
pub data Way : Type 0 where
  fast slow : Way

unfoldable pub effects : (always_slow : Bool) → Allocation → Way → Option (List Effect)
unfolding fast_path slow_path behind
effects true a fast = none
effects false a fast = some (fast_path a ++ behind false a)
effects always_slow a slow = some (slow_path a ++ behind always_slow a)

-- The stores into the object on the way that no barrier has ordered yet, at its end.
abbrev pub unordered : ℕ → List Effect → ℕ
unordered n [] = n
unordered n (initialize_object ∷ rest) = unordered (n + 1) rest
unordered n (captured_stores ∷ rest) = unordered (n + 1) rest
unordered n (mem_bar_store_store ∷ rest) = unordered 0 rest
unordered n (_ ∷ rest) = unordered n rest

abbrev pub bars : List Effect → ℕ
bars [] = 0
bars (mem_bar_store_store ∷ rest) = bars rest + 1
bars (_ ∷ rest) = bars rest

-- The initialization is missing, or not completed by an array copy that orders the stores.
abbrev pub LeavesOrder : Option Initialization → Type 0
LeavesOrder none = Unit
LeavesOrder (some i) = i.is_complete_with_arraycopy ≡ false

-- Another thread may get the object, and nothing else orders its stores.
abbrev pub IsExposed : Allocation → Type 0
IsExposed a =
    (a.does_not_escape_thread ≡ false)
    × (a.is_allocation_mem_bar_redundant ≡ false)
    × LeavesOrder a.init

-- Where a fast path is built: if the object may escape its thread, and neither another barrier nor the array
-- copy that completes its initialization orders its stores, then on both ways, whether the stores stay on
-- the fast path or were captured behind the merge, a store barrier orders all of the compiled stores
-- into the object before the readers behind, and one barrier in all on the fast way; in the other cases
-- there is no barrier on either way.
pub effects-ordered :
    (a : Allocation) (w : Way)
    → (path : List Effect) × (effects false a w ≡ some path)
      × (IsExposed a → unordered 0 path ≡ 0)
      × (IsExposed a → w ≡ fast → bars path ≡ 1)
      × (¬ IsExposed a → bars path ≡ 0)
unfolding effects fast_path slow_path behind needs_mem_bar
effects-ordered a fast =
    (fast_path a ++ behind false a, refl, ground arith, ground arith, ground arith)
effects-ordered a slow =
    (slow_path a ++ behind false a, refl, ground arith, ground arith, ground arith)
