-- ===== src/Alloc/Mutator.antt =====
-- `MMTkMutatorContext::alloc` (openjdk/mmtkMutator.cpp), the slow path of every allocation; mmtk-core's
-- `alloc` is a parameter, whose answer 0 is a null pointer.
use mmtk_openjdk.Base.{ℕ, ◌≤◌, ◌<◌, ◌≡◌, ◌≢◌, refl, List, [], ◌∷◌, leb, ◌==◌, if◌then◌else◌, arith}

pub data Allocator : Type 0 where
  allocator_default allocator_immortal allocator_los allocator_code allocator_read_only : Allocator

-- `::post_alloc`
pub data PostAlloc : Type 0 where
  post_alloc : (o bytes : ℕ) (allocator : Allocator) → PostAlloc

unfoldable pub alloc :
    (core_alloc : ℕ → Allocator → ℕ) (max_non_los_bytes bytes : ℕ) (allocator : Allocator)
    → ℕ × List PostAlloc
alloc core_alloc max_non_los_bytes bytes allocator =
    let chosen = if leb max_non_los_bytes bytes then allocator_los else allocator in
    let o = core_alloc bytes chosen in (o, if o == 0 then [] else post_alloc o bytes chosen ∷ [])

-- The allocation goes to the space that the size asks for: at the limit and above to the large object
-- space, below it where the caller wants; the hook runs once with the same size and allocator if there
-- is an object, and not at all if there is none.
pub alloc-hook :
    (core_alloc : ℕ → Allocator → ℕ) (max_non_los_bytes bytes : ℕ) (allocator : Allocator)
    → (chosen : Allocator) × (max_non_los_bytes ≤ bytes → chosen ≡ allocator_los)
      × (bytes < max_non_los_bytes → chosen ≡ allocator)
      × let (o, hooks) = alloc core_alloc max_non_los_bytes bytes allocator in
        (o ≡ core_alloc bytes chosen)
        × (o ≡ 0 → hooks ≡ [])
        × (o ≢ 0 → hooks ≡ post_alloc o bytes chosen ∷ [])
unfolding alloc
alloc-hook core_alloc max_non_los_bytes bytes allocator = (
  (if leb max_non_los_bytes bytes then allocator_los else allocator),
  λ h. ground arith,
  λ h. ground arith,
  (refl, λ h. ground arith, λ h. ground arith),
)
