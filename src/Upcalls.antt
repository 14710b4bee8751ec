-- ===== src/Upcalls.antt =====
-- The table of upcalls: the structure `OpenJDK_Upcalls` (openjdk/mmtk.h), whose fields the Rust side calls through, and
-- the value `mmtk_upcalls` (openjdk/mmtkUpcalls.cpp), which fills the fields by position.
pub mod Rust
use Prim.Native.String.{String, ◌++◌}
use mmtk_openjdk.Base.{
  ℕ, zero, suc, ◌≡◌, refl, subst, ◌⊎◌, inl, inr, List, [], ◌∷◌, Option, none, some,
}
use mathlib.Core.Option.{some-injective, none-ne-some}

-- The types that a pointer to an upcall names; `chars` is `char*`, and `pointers` is `void**`.
pub data CType : Type 0 where
  void pointer pointers chars int size bool mutator_closure slots_closure allocation_error
        allocator_selector :
      CType

-- A field, or the head of a function.
pub record Declaration : Type 0 where
  pub name : String
  pub parameters : List CType
  pub result : CType

abbrev function : String → List CType → CType → Declaration
function name parameters result = record { name = name; parameters = parameters; result = result }

abbrev procedure : String → List CType → Declaration
procedure name parameters = record { name = name; parameters = parameters; result = void }

-- The fields of `OpenJDK_Upcalls`, in their order.
unfoldable pub open_jdk_upcalls : List Declaration
open_jdk_upcalls =
    procedure "stop_all_mutators" (pointer ∷ mutator_closure ∷ [])
    ∷ procedure "resume_mutators" (pointer ∷ [])
    ∷ procedure "spawn_gc_thread" (pointer ∷ int ∷ pointer ∷ [])
    ∷ procedure "block_for_gc" []
    ∷ procedure "out_of_memory" (pointer ∷ allocation_error ∷ [])
    ∷ procedure "get_mutators" (mutator_closure ∷ [])
    ∷ procedure "scan_object" (pointer ∷ pointer ∷ pointer ∷ [])
    ∷ procedure "dump_object" (pointer ∷ [])
    ∷ function "get_object_size" (pointer ∷ []) size
    ∷ function "get_mmtk_mutator" (pointer ∷ []) pointer
    ∷ function "is_mutator" (pointer ∷ []) bool
    ∷ procedure "harness_begin" []
    ∷ procedure "harness_end" []
    ∷ function "compute_klass_mem_layout_checksum" [] size
    ∷ function "offset_of_static_fields" [] int
    ∷ function "static_oop_field_count_offset" [] int
    ∷ function "referent_offset" [] int
    ∷ function "discovered_offset" [] int
    ∷ function "dump_object_string" (pointer ∷ []) chars
    ∷ procedure "scan_roots_in_all_mutator_threads" (slots_closure ∷ [])
    ∷ procedure "scan_roots_in_mutator_thread" (slots_closure ∷ pointer ∷ [])
    ∷ procedure "scan_universe_roots" (slots_closure ∷ [])
    ∷ procedure "scan_jni_handle_roots" (slots_closure ∷ [])
    ∷ procedure "scan_object_synchronizer_roots" (slots_closure ∷ [])
    ∷ procedure "scan_management_roots" (slots_closure ∷ [])
    ∷ procedure "scan_jvmti_export_roots" (slots_closure ∷ [])
    ∷ procedure "scan_aot_loader_roots" (slots_closure ∷ [])
    ∷ procedure "scan_system_dictionary_roots" (slots_closure ∷ [])
    ∷ procedure "scan_code_cache_roots" (slots_closure ∷ [])
    ∷ procedure "scan_string_table_roots" (slots_closure ∷ [])
    ∷ procedure "scan_class_loader_data_graph_roots" (slots_closure ∷ [])
    ∷ procedure "scan_weak_processor_roots" (slots_closure ∷ [])
    ∷ procedure "scan_vm_thread_roots" (slots_closure ∷ [])
    ∷ function "number_of_mutators" [] size
    ∷ procedure "schedule_finalizer" []
    ∷ procedure "prepare_for_roots_re_scanning" []
    ∷ procedure "enqueue_references" (pointers ∷ size ∷ [])
    ∷ []

-- `mmtk_upcalls`, each function with the head that it is defined with.
unfoldable pub mmtk_upcalls : List Declaration
mmtk_upcalls =
    procedure "mmtk_stop_all_mutators" (pointer ∷ mutator_closure ∷ [])
    ∷ procedure "mmtk_resume_mutators" (pointer ∷ [])
    ∷ procedure "mmtk_spawn_gc_thread" (pointer ∷ int ∷ pointer ∷ [])
    ∷ procedure "mmtk_block_for_gc" []
    ∷ procedure "mmtk_out_of_memory" (pointer ∷ allocation_error ∷ [])
    ∷ procedure "mmtk_get_mutators" (mutator_closure ∷ [])
    ∷ procedure "mmtk_scan_object" (pointer ∷ pointer ∷ pointer ∷ [])
    ∷ procedure "mmtk_dump_object" (pointer ∷ [])
    ∷ function "mmtk_get_object_size" (pointer ∷ []) size
    ∷ function "mmtk_get_mmtk_mutator" (pointer ∷ []) pointer
    ∷ function "mmtk_is_mutator" (pointer ∷ []) bool
    ∷ procedure "mmtk_harness_begin" []
    ∷ procedure "mmtk_harness_end" []
    ∷ function "compute_klass_mem_layout_checksum" [] size
    ∷ function "offset_of_static_fields" [] int
    ∷ function "static_oop_field_count_offset" [] int
    ∷ function "referent_offset" [] int
    ∷ function "discovered_offset" [] int
    ∷ function "dump_object_string" (pointer ∷ []) chars
    ∷ procedure "mmtk_scan_roots_in_all_mutator_threads" (slots_closure ∷ [])
    ∷ procedure "mmtk_scan_roots_in_mutator_thread" (slots_closure ∷ pointer ∷ [])
    ∷ procedure "mmtk_scan_universe_roots" (slots_closure ∷ [])
    ∷ procedure "mmtk_scan_jni_handle_roots" (slots_closure ∷ [])
    ∷ procedure "mmtk_scan_object_synchronizer_roots" (slots_closure ∷ [])
    ∷ procedure "mmtk_scan_management_roots" (slots_closure ∷ [])
    ∷ procedure "mmtk_scan_jvmti_export_roots" (slots_closure ∷ [])
    ∷ procedure "mmtk_scan_aot_loader_roots" (slots_closure ∷ [])
    ∷ procedure "mmtk_scan_system_dictionary_roots" (slots_closure ∷ [])
    ∷ procedure "mmtk_scan_code_cache_roots" (slots_closure ∷ [])
    ∷ procedure "mmtk_scan_string_table_roots" (slots_closure ∷ [])
    ∷ procedure "mmtk_scan_class_loader_data_graph_roots" (slots_closure ∷ [])
    ∷ procedure "mmtk_scan_weak_processor_roots" (slots_closure ∷ [])
    ∷ procedure "mmtk_scan_vm_thread_roots" (slots_closure ∷ [])
    ∷ function "mmtk_number_of_mutators" [] size
    ∷ procedure "mmtk_schedule_finalizer" []
    ∷ procedure "mmtk_prepare_for_roots_re_scanning" []
    ∷ procedure "mmtk_enqueue_references" (pointers ∷ size ∷ [])
    ∷ []

-- The initializer at a position, and `none` where a pointer is left null.
abbrev pub get_elem? {ℓ} : {A : Type ℓ} → List A → ℕ → Option A
get_elem? [] i = none
get_elem? (d ∷ ds) zero = some d
get_elem? (d ∷ ds) (suc i) = get_elem? ds i

-- The function is called as the field, with `mmtk_` in front or not, and has its type.
abbrev pub Implements : Declaration → Declaration → Type 0
Implements f member =
    ((f.name ≡ member.name) ⊎ (f.name ≡ "mmtk_" ++ member.name))
    × (f.parameters ≡ member.parameters)
    × (f.result ≡ member.result)

-- What the pointer of a field is, field by field.
abbrev Implement : List Declaration → List Declaration → Type 0
Implement fs [] = Unit
Implement [] (m ∷ ms) = ⊥
Implement (f ∷ fs) (m ∷ ms) = Implements f m × Implement fs ms

abbrev Filled : Option Declaration → Declaration → Type 0
Filled o member = (f : Declaration) × (o ≡ some f) × Implements f member

Implement-Filled :
    (fs ms : List Declaration) (i : ℕ) (member : Declaration)
    → Implement fs ms
    → get_elem? ms i ≡ some member
    → Filled (get_elem? fs i) member
Implement-Filled fs [] i member w e = absurd (none-ne-some member e)
Implement-Filled [] (m ∷ ms) i member w e = absurd w
Implement-Filled (f ∷ fs) (m ∷ ms) zero member (w, ws) e =
    (f, refl, subst (Implements f) (some-injective _ _ e) w)
Implement-Filled (f ∷ fs) (m ∷ ms) (suc i) member (w, ws) e = Implement-Filled fs ms i member ws e

mmtk_upcalls-Implement : Implement mmtk_upcalls open_jdk_upcalls
unfolding open_jdk_upcalls mmtk_upcalls
mmtk_upcalls-Implement = search (inl, inr)

-- The table puts a function at the position of every field, and not a null pointer.
pub mmtk_upcalls-fills :
    (i : ℕ) (member : Declaration)
    → get_elem? open_jdk_upcalls i ≡ some member
    → (f : Declaration) × (get_elem? mmtk_upcalls i ≡ some f) × Implements f member
mmtk_upcalls-fills i member e =
    Implement-Filled mmtk_upcalls open_jdk_upcalls i member mmtk_upcalls-Implement e
