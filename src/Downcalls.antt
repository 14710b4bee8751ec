-- ===== src/Downcalls.antt =====
-- The functions of the Rust side that the C++ side calls, as openjdk/mmtk.h declares them. Downcalls/Link has those
-- that mmtk/src/api.rs defines; the linker matches them by name alone.
pub mod Link
use Prim.Native.String.{String}
use mmtk_openjdk.Base.{List, [], ◌∷◌, ◌++◌}
use mmtk_openjdk.Upcalls.{
  CType, void, pointer, pointers, chars, int, size, bool, allocator_selector,
}

-- What the code under openjdk/ does with a function: it calls it and looks at the result, or calls it and does not
-- (or there is none), or does not call it.
pub data Use : Type 0 where
  called_for_result called unused : Use

-- The declaration of a function, with its use.
pub record Extern : Type 0 where
  pub purpose : Use
  pub name : String
  pub parameters : List CType
  pub result : CType

abbrev extern : Use → String → List CType → CType → Extern
extern purpose name parameters result = record {
  purpose = purpose;
  name = name;
  parameters = parameters;
  result = result;
}

-- Mutators, allocation and barriers
unfoldable pub allocation_declarations : List Extern
allocation_declarations =
    extern called_for_result "get_mmtk_version" [] chars
    ∷ extern called_for_result "bind_mutator" (pointer ∷ []) pointer
    ∷ extern called "destroy_mutator" (pointer ∷ []) void
    ∷ extern called "flush_mutator" (pointer ∷ []) void
    ∷ extern called_for_result "alloc" (pointer ∷ size ∷ size ∷ size ∷ int ∷ []) pointer
    ∷ extern unused "alloc_slow_bump_monotone_immortal" (pointer ∷ size ∷ size ∷ size ∷ []) pointer
    ∷ extern unused "alloc_slow_bump_monotone_copy" (pointer ∷ size ∷ size ∷ size ∷ []) pointer
    ∷ extern unused "alloc_slow_largeobject" (pointer ∷ size ∷ size ∷ size ∷ []) pointer
    ∷ extern called "post_alloc" (pointer ∷ pointer ∷ size ∷ int ∷ []) void
    ∷ extern called "mmtk_load_reference" (pointer ∷ pointer ∷ []) void
    ∷ extern called "mmtk_object_reference_write_pre" (pointer ∷ pointer ∷ pointer ∷ pointer ∷ [])
        void
    ∷ extern called "mmtk_object_reference_write_post" (pointer ∷ pointer ∷ pointer ∷ pointer ∷ [])
        void
    ∷ extern called "mmtk_object_reference_write_slow" (pointer ∷ pointer ∷ pointer ∷ pointer ∷ [])
        void
    ∷ extern called "mmtk_array_copy_pre" (pointer ∷ pointer ∷ pointer ∷ size ∷ []) void
    ∷ extern called "mmtk_array_copy_post" (pointer ∷ pointer ∷ pointer ∷ size ∷ []) void
    ∷ extern called "mmtk_object_probable_write" (pointer ∷ pointer ∷ []) void
    ∷ extern called "release_buffer" (pointers ∷ size ∷ size ∷ []) void
    ∷ extern called_for_result "is_in_mmtk_spaces" (pointer ∷ []) bool
    ∷ extern unused "is_mapped_address" (pointer ∷ []) bool
    ∷ []

-- Allocators
unfoldable pub selector_declarations : List Extern
selector_declarations =
    extern called_for_result "get_allocator_mapping" (int ∷ []) allocator_selector
    ∷ extern called_for_result "get_max_non_los_default_alloc_bytes" [] size
    ∷ []

-- Finalization
unfoldable pub finalization_declarations : List Extern
finalization_declarations =
    extern called "add_finalizer" (pointer ∷ []) void
    ∷ extern called_for_result "get_finalized_object" [] pointer
    ∷ []

-- Start, collection, roots in compiled code, and accounting
unfoldable pub misc_declarations : List Extern
misc_declarations =
    extern called_for_result "mmtk_active_barrier" [] chars
    ∷ extern called "initialize_collection" (pointer ∷ []) void
    ∷ extern unused "gc_init" (size ∷ []) void
    ∷ extern unused "will_never_move" (pointer ∷ []) bool
    ∷ extern unused "process" (chars ∷ chars ∷ []) bool
    ∷ extern called_for_result "process_bulk" (chars ∷ []) bool
    ∷ extern unused "scan_region" [] void
    ∷ extern called "handle_user_collection_request" (pointer ∷ []) void
    ∷ extern unused "start_control_collector" (pointer ∷ pointer ∷ []) void
    ∷ extern called "start_worker" (pointer ∷ pointer ∷ []) void
    ∷ extern called "mmtk_add_nmethod_oop" (pointer ∷ []) size
    ∷ extern called "mmtk_register_nmethod" (pointer ∷ []) size
    ∷ extern called "mmtk_unregister_nmethod" (pointer ∷ []) size
    ∷ extern unused "free_bytes" [] size
    ∷ extern unused "total_bytes" [] size
    ∷ []

-- Start of the binding, and the heap
unfoldable pub openjdk_declarations : List Extern
openjdk_declarations =
    extern called "openjdk_gc_init" (pointer ∷ []) void
    ∷ extern called_for_result "openjdk_is_gc_initialized" [] bool
    ∷ extern called_for_result "mmtk_set_heap_size" (size ∷ size ∷ []) bool
    ∷ extern called "mmtk_enable_compressed_oops" [] bool
    ∷ extern called_for_result "mmtk_narrow_oop_base" [] pointer
    ∷ extern called_for_result "mmtk_narrow_oop_shift" [] size
    ∷ extern called "mmtk_set_compressed_klass_base_and_shift" (pointer ∷ size ∷ []) size
    ∷ extern called_for_result "used_bytes" [] size
    ∷ extern called_for_result "starting_heap_address" [] pointer
    ∷ extern called_for_result "last_heap_address" [] pointer
    ∷ extern unused "iterator" [] void
    ∷ extern called_for_result "openjdk_max_capacity" [] size
    ∷ extern unused "_noaccess_prefix" [] size
    ∷ extern unused "_alignment" [] size
    ∷ extern unused "executable" [] bool
    ∷ []

-- References, harness and options
unfoldable pub harness_declarations : List Extern
harness_declarations =
    extern unused "add_weak_candidate" (pointer ∷ pointer ∷ []) void
    ∷ extern unused "add_soft_candidate" (pointer ∷ pointer ∷ []) void
    ∷ extern unused "add_phantom_candidate" (pointer ∷ pointer ∷ []) void
    ∷ extern called "mmtk_harness_begin_impl" [] void
    ∷ extern called "mmtk_harness_end_impl" [] void
    ∷ extern called "mmtk_builder_read_env_var_settings" [] void
    ∷ extern called "mmtk_builder_set_threads" (size ∷ []) void
    ∷ extern called "mmtk_builder_set_transparent_hugepages" (bool ∷ []) void
    ∷ []

-- The header
unfoldable pub declarations : List Extern
unfolding allocation_declarations selector_declarations finalization_declarations misc_declarations
    openjdk_declarations harness_declarations
declarations =
    allocation_declarations
    ++ (selector_declarations
        ++ (finalization_declarations
            ++ (misc_declarations ++ (openjdk_declarations ++ (harness_declarations)))))
