-- ===== src/Options.antt =====
-- The options of the heap: what `MMTkHeap::initialize` (openjdk/mmtkHeap.cpp) sets before mmtk-core
-- starts, from OpenJDK's defaults, the environment and the command line. What mmtk-core reads from the
-- environment and from `ThirdPartyHeapOptions` are parameters.
pub mod Priority
use text.Mathlib.Text.{◌==◌ as str_eq}
use Prim.Native.String.{String}
use mmtk_openjdk.Base.{ℕ, Bool, true, false, not, ◌||◌, Option, none, some, if◌then◌else◌}

-- `set_bool_option_from_env_var`, from the variable's value, if it is set, and the value of `*var`;
-- `none` is `abort`.
unfoldable pub set_bool_option_from_env_var : Option String → Bool → Option Bool
set_bool_option_from_env_var none var = some var
set_bool_option_from_env_var (some v) var =
    if str_eq v "true" || str_eq v "yes" || str_eq v "on" || str_eq v "1"
    then some true
    else if str_eq v "false" || str_eq v "no" || str_eq v "off" || str_eq v "0"
    then some false
    else none

-- A flag of the VM: its value, and `FLAG_IS_DEFAULT`.
pub record Flag {ℓ} (A : Type ℓ) : Type ℓ where
  pub value : A
  pub is_default : Bool

pub record Flags : Type 0 where
  pub parallel_gc_threads : Flag ℕ
  pub use_transparent_huge_pages : Flag Bool

-- The options in the MMTKBuilder that the VM sets.
pub record Builder : Type 0 where
  pub threads : ℕ
  pub transparent_hugepages : Bool

abbrev pub same : Bool → Bool → Bool
same true b = b
same false b = not b

-- `set_mmtk_options`
unfoldable pub set_mmtk_options : (set_defaults : Bool) → Flags → Builder → Builder
set_mmtk_options set_defaults f b = record {
  threads =
      if same f.parallel_gc_threads.is_default set_defaults
      then f.parallel_gc_threads.value
      else b.threads;
  transparent_hugepages =
      if same f.use_transparent_huge_pages.is_default set_defaults
      then f.use_transparent_huge_pages.value
      else b.transparent_hugepages;
}

-- `process_bulk` on `ThirdPartyHeapOptions`, if these are given; `none` is a failed guarantee.
abbrev pub set_bulk : Option (Builder → Option Builder) → Builder → Option Builder
set_bulk none b = some b
set_bulk (some process_bulk) b = process_bulk b

-- The part of `initialize` that sets the options.
unfoldable pub initialize_options :
    Flags
    → (read_env_var_settings : Builder → Builder)
    → (third_party_heap_options : Option (Builder → Option Builder)) → Builder
    → Option Builder
unfolding set_mmtk_options
initialize_options f read_env_var_settings third_party_heap_options b =
    set_bulk third_party_heap_options
      (set_mmtk_options false f (read_env_var_settings (set_mmtk_options true f b)))
