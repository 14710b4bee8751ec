-- ===== src/Compiled/Leaf.antt =====
-- The leaf calls that the server compiler puts into its graph for a barrier: their nodes and types, and the tests
-- by which OpenJDK knows them: `MMTkIdealKit::func_type` and `is_gc_barrier_node` (openjdk/mmtkBarrierSetC2.hpp) and
-- `is_slow_path_call` (openjdk/mmtkBarrierSet.hpp). The calls are in openjdk/barriers/.
use text.Mathlib.Text.{◌==◌ as str_eq}
use Prim.Native.String.{String}
use mmtk_openjdk.Base.{
  ℕ, suc, ◌+◌, ◌<◌, ◌≡◌, refl, ◌∙◌, Bool, true, false, Option, none, some, List, [], ◌∷◌, All,
  length, ◌==◌, if◌then◌else◌, arith,
}
use mmtk_openjdk.Barriers.Runtime.{
  CoreCall, write_pre, write_post, write_slow, load_reference, Settings,
}
use mmtk_openjdk.Compiled.C2
use mmtk_openjdk.Compiled.C2.{Store}
use mmtk_openjdk.X86.Cpu.{
  Function, object_reference_write_pre_call, object_reference_write_post_call,
  object_reference_write_slow_call, object_reference_array_copy_pre_call,
  object_reference_array_copy_post_call, load_reference_call, runtime_call,
}

-- `TypeFunc`: the number of fields of the domain, and their types; the range is empty.
pub record TypeFunc {ℓ} (T : Type ℓ) : Type ℓ where
  pub cnt : ℕ
  pub fields : ℕ → T

module _ {ℓ} {T : Type ℓ} where
  unfoldable pub build_type_func_helper : (fields : ℕ → T) → ℕ → List T → ℕ → T
  build_type_func_helper fields at [] = fields
  build_type_func_helper fields at (t ∷ ts) =
      build_type_func_helper (λ i. if i == at then t else fields i) (suc at) ts

  -- `tuple` is what `TypeTuple::fields` returns, and `parms` is `TypeFunc::Parms`.
  unfoldable pub func_type : (tuple : ℕ → T) → (parms : ℕ) → List T → TypeFunc T
  unfolding build_type_func_helper
  func_type tuple parms types = record {
    cnt = parms + length types;
    fields = build_type_func_helper tuple parms types;
  }

  abbrev Laid : (ℕ → T) → ℕ → List T → Type ℓ
  Laid fields at [] = Unit
  Laid fields at (t ∷ ts) = (fields at ≡ t) × Laid fields (suc at) ts

  -- The helper writes nothing below where it starts.
  build_type_func_helper_below :
      (fields : ℕ → T) (at : ℕ) (ts : List T) (i : ℕ)
      → i < at
      → build_type_func_helper fields at ts i ≡ fields i
  unfolding build_type_func_helper
  build_type_func_helper_below fields at [] i h = refl
  build_type_func_helper_below fields at (t ∷ ts) i h =
      build_type_func_helper_below (λ j. if j == at then t else fields j) (suc at) ts i
        (omega arith)
      ∙ ground arith

  build_type_func_helper-Laid :
      (fields : ℕ → T) (at : ℕ) (ts : List T) → Laid (build_type_func_helper fields at ts) at ts
  unfolding build_type_func_helper
  build_type_func_helper-Laid fields at [] = tt
  build_type_func_helper-Laid fields at (t ∷ ts) = (
    build_type_func_helper_below (λ j. if j == at then t else fields j) (suc at) ts at (omega arith)
        ∙ ground arith,
    build_type_func_helper-Laid (λ j. if j == at then t else fields j) (suc at) ts,
  )

  -- The types follow one another behind the fields that every call has, and these stay.
  func_type-Laid :
      (tuple : ℕ → T) (parms : ℕ) (types : List T)
      → Laid (func_type tuple parms types).fields parms types
        × ((i : ℕ) → i < parms → (func_type tuple parms types).fields i ≡ tuple i)
  unfolding func_type
  func_type-Laid tuple parms types = (
    build_type_func_helper-Laid tuple parms types,
    λ i. λ h. build_type_func_helper_below tuple parms types i h,
  )

-- A node as far as `is_gc_barrier_node` looks, with what a leaf call calls and passes; the name may be null.
pub data Node : Type 0 where
  call_leaf : (name : Option String) → (entry : Function) → (arguments : List ℕ) → Node
  other_node : Node

unfoldable pub is_gc_barrier_node : Node → Bool
is_gc_barrier_node (call_leaf (some name) entry arguments) = str_eq name "mmtk_barrier_call"
is_gc_barrier_node (call_leaf none entry arguments) = false
is_gc_barrier_node other_node = false

-- An address is that of a function of the barrier set, or `none`.
unfoldable pub is_slow_path_call : Option Function → Bool
is_slow_path_call (some object_reference_write_pre_call) = true
is_slow_path_call (some object_reference_write_post_call) = true
is_slow_path_call (some object_reference_write_slow_call) = true
is_slow_path_call (some object_reference_array_copy_pre_call) = true
is_slow_path_call (some object_reference_array_copy_post_call) = true
is_slow_path_call (some load_reference_call) = true
is_slow_path_call none = false

-- The node that the compiled barriers make for a call; they make no other calls.
unfoldable pub make_leaf_call : CoreCall → Node
make_leaf_call (write_slow src slot val) =
    call_leaf (some "mmtk_barrier_call") object_reference_write_slow_call (src ∷ slot ∷ val ∷ [])
make_leaf_call (write_post src slot val) =
    call_leaf (some "mmtk_barrier_call") object_reference_write_post_call (src ∷ slot ∷ val ∷ [])
make_leaf_call (write_pre src slot val) =
    call_leaf (some "mmtk_barrier_call") object_reference_write_pre_call (src ∷ slot ∷ val ∷ [])
make_leaf_call (load_reference val) =
    call_leaf (some "mmtk_barrier_call") load_reference_call (val ∷ [])
make_leaf_call _ = other_node

-- OpenJDK knows the node by its name and by what it calls, and the node makes the call.
IsBarrierLeaf : CoreCall → Node → Type 0
IsBarrierLeaf c (call_leaf name entry (a ∷ b ∷ d ∷ [])) =
    (is_gc_barrier_node (call_leaf name entry (a ∷ b ∷ d ∷ [])) ≡ true)
    × (is_slow_path_call (some entry) ≡ true)
    × (runtime_call entry a b d ≡ c)
IsBarrierLeaf c (call_leaf name entry (a ∷ [])) =
    (is_gc_barrier_node (call_leaf name entry (a ∷ [])) ≡ true)
    × (is_slow_path_call (some entry) ≡ true)
    × ((b d : ℕ) → runtime_call entry a b d ≡ c)
IsBarrierLeaf c _ = ⊥

abbrev IsMade : CoreCall → Type 0
IsMade c = IsBarrierLeaf c (make_leaf_call c)

write_slow-IsMade : (src slot val : ℕ) → IsMade (write_slow src slot val)
unfolding IsBarrierLeaf make_leaf_call is_gc_barrier_node is_slow_path_call runtime_call
write_slow-IsMade src slot val = (refl, refl, refl)

All-if :
    (b : Bool) (xs ys : List CoreCall)
    → All IsMade xs
    → All IsMade ys
    → All IsMade (if b then xs else ys)
All-if true xs ys h k = h
All-if false xs ys h k = k

-- The two forms of a write barrier: the slow call under a test, and the full call.
either-IsMade :
    (removed fastpath logged : Bool) (src slot val : ℕ) (full : CoreCall)
    → IsMade full
    → All IsMade (
        if removed
        then []
        else if fastpath
        then if logged then [] else write_slow src slot val ∷ []
        else full ∷ [])
either-IsMade removed fastpath logged src slot val full h =
    All-if removed _ _ tt
      (All-if fastpath _ _ (All-if logged _ _ tt (write_slow-IsMade src slot val, tt)) (h, tt))

module _ (s : Settings) (allocation_fastpath : Bool) (st : Store) (bytes : ℕ → ℕ)
    (src slot val : ℕ) where
  object_reference_write_post-IsMade :
      All IsMade (C2.object_reference_write_post s allocation_fastpath st bytes src slot val)
  unfolding C2.object_reference_write_post IsBarrierLeaf make_leaf_call is_gc_barrier_node
      is_slow_path_call runtime_call
  object_reference_write_post-IsMade =
      either-IsMade _ s.barrier_fastpath _ src slot val _ (refl, refl, refl)

  object_reference_write_pre-IsMade :
      All IsMade (C2.object_reference_write_pre s allocation_fastpath st bytes src slot val)
  unfolding C2.object_reference_write_pre IsBarrierLeaf make_leaf_call is_gc_barrier_node
      is_slow_path_call runtime_call
  object_reference_write_pre-IsMade =
      either-IsMade _ s.barrier_fastpath _ src slot val _ (refl, refl, refl)

reference_load_barrier-IsMade :
    (cm_flag val : ℕ) → All IsMade (C2.reference_load_barrier cm_flag val)
unfolding C2.reference_load_barrier IsBarrierLeaf make_leaf_call is_gc_barrier_node
    is_slow_path_call runtime_call
reference_load_barrier-IsMade cm_flag val =
    All-if (cm_flag == 0) [] _ tt
      (All-if (val == 0) [] (load_reference val ∷ []) tt ((refl, refl, λ b. λ d. refl), tt))
