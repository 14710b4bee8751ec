-- ===== src/Barriers/Runtime.antt =====
-- The runtime half of the barriers: `MMTkBarrierSetRuntime` (openjdk/mmtkBarrierSet.hpp, .cpp) and its
-- three implementations in openjdk/barriers/. Each method calls into mmtk-core, or does not.
use text.Mathlib.Text.{◌==◌ as str_eq}
use Prim.Native.String.{String}
use mmtk_openjdk.Base.{ℕ, Bool, not, ◌&&◌, Option, none, some, List, [], ◌∷◌, ◌==◌, if◌then◌else◌}
use mmtk_openjdk.Barriers.Metadata.{is_unlogged}

-- The calls into mmtk-core, with the oops and addresses that they pass.
pub data CoreCall : Type 0 where
  write_pre write_post write_slow : (src slot target : ℕ) → CoreCall
  array_copy_pre array_copy_post : (src dst count : ℕ) → CoreCall
  load_reference : (value : ℕ) → CoreCall
  probable_write : (obj : ℕ) → CoreCall

-- The classes derived from `MMTkBarrierSetRuntime`.
pub data Barrier : Type 0 where
  no_barrier object_barrier satb_barrier : Barrier

-- `get_selected_barrier`; `none` is its `guarantee(false, "Unimplemented")`.
unfoldable pub get_selected_barrier : String → Option Barrier
get_selected_barrier barrier =
    if str_eq barrier "NoBarrier"
    then some no_barrier
    else if str_eq barrier "ObjectBarrier"
    then some object_barrier
    else if str_eq barrier "SATBBarrier"
    then some satb_barrier
    else none

-- What the methods read beside their arguments.
pub record Settings : Type 0 where
  pub metadata_base : ℕ  -- `GLOBAL_SIDE_METADATA_VM_BASE_ADDRESS`
  pub barrier_fastpath : Bool  -- `mmtk_enable_barrier_fastpath`

-- The check of the fast paths: the slow call for an unlogged object.
abbrev pub if_unlogged : Settings → (ℕ → ℕ) → ℕ → CoreCall → List CoreCall
if_unlogged s memory obj call = if is_unlogged s.metadata_base memory obj then call ∷ [] else []

module _ (s : Settings) (memory : ℕ → ℕ) where
  unfoldable pub object_reference_write_pre : Barrier → (src slot target : ℕ) → List CoreCall
  object_reference_write_pre satb_barrier src slot target =
      if s.barrier_fastpath
      then if_unlogged s memory src (write_slow src slot target)
      else write_pre src slot target ∷ []
  object_reference_write_pre _ src slot target = []

  unfoldable pub object_reference_write_post : Barrier → (src slot target : ℕ) → List CoreCall
  object_reference_write_post object_barrier src slot target =
      if s.barrier_fastpath
      then if_unlogged s memory src (write_slow src slot target)
      else write_post src slot target ∷ []
  object_reference_write_post _ src slot target = []

  unfoldable pub object_probable_write : Barrier → (new_obj : ℕ) → List CoreCall
  object_probable_write object_barrier new_obj =
      if s.barrier_fastpath
      then if_unlogged s memory new_obj (probable_write new_obj)
      else probable_write new_obj ∷ []
  object_probable_write _ new_obj = []

unfoldable pub object_reference_array_copy_pre : Barrier → (src dst count : ℕ) → List CoreCall
object_reference_array_copy_pre satb_barrier src dst count =
    if count == 0 then [] else array_copy_pre src dst count ∷ []
object_reference_array_copy_pre _ src dst count = []

unfoldable pub object_reference_array_copy_post : Barrier → (src dst count : ℕ) → List CoreCall
object_reference_array_copy_post object_barrier src dst count = array_copy_post src dst count ∷ []
object_reference_array_copy_post _ src dst count = []

-- `load_reference` with the byte `CONCURRENT_MARKING_ACTIVE`.
unfoldable pub load_reference_barrier : Barrier → (active value : ℕ) → List CoreCall
load_reference_barrier satb_barrier active value =
    if (active == 1) && not (value == 0) then load_reference value ∷ [] else []
load_reference_barrier _ active value = []
