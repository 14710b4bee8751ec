-- ===== src/Downcalls/Link.antt =====
-- The functions that the Rust side exports (mmtk/src/api.rs), and what a linker makes of the declarations of
-- openjdk/mmtk.h.
use text.Mathlib.Text.{◌==◌ as str_eq}
use mathlib.Core.Option.{none-ne-some, some-injective}
use Prim.Native.String.{String}
use mmtk_openjdk.Base.{
  ℕ, zero, suc, ◌≡◌, refl, sym, subst, All, ◌⊎◌, inl, inr, ◌≢◌, if◌then◌else◌, List, [], ◌∷◌, map,
  Option, none, some,
}
use mmtk_openjdk.Upcalls.{void, get_elem?}
use mmtk_openjdk.Upcalls.Rust.{
  vm_worker_thread, vm_thread, vm_mutator_thread, object_reference, mut_c_void, c_chars, usize,
  rust_bool, address, nullable_object_reference, mut_addresses, const_upcalls, allocation_semantics,
  rust_allocator_selector, RustField, field, c_type, c_result,
}
use mmtk_openjdk.Downcalls.{Use, called_for_result, called, unused, Extern, declarations}

-- The `extern "C"` functions, in their order.
unfoldable pub rust_functions : List RustField
rust_functions =
    field "get_mmtk_version" [] (some c_chars)
    ∷ field "mmtk_active_barrier" [] (some c_chars)
    ∷ field "release_buffer" (mut_addresses ∷ usize ∷ usize ∷ []) none
    ∷ field "openjdk_gc_init" (const_upcalls ∷ []) none
    ∷ field "openjdk_is_gc_initialized" [] (some rust_bool)
    ∷ field "mmtk_set_heap_size" (usize ∷ usize ∷ []) (some rust_bool)
    ∷ field "bind_mutator" (vm_mutator_thread ∷ []) (some mut_c_void)
    ∷ field "destroy_mutator" (mut_c_void ∷ []) none
    ∷ field "flush_mutator" (mut_c_void ∷ []) none
    ∷ field "alloc" (mut_c_void ∷ usize ∷ usize ∷ usize ∷ allocation_semantics ∷ []) (some address)
    ∷ field "get_allocator_mapping" (allocation_semantics ∷ []) (some rust_allocator_selector)
    ∷ field "get_max_non_los_default_alloc_bytes" [] (some usize)
    ∷ field "post_alloc" (mut_c_void ∷ object_reference ∷ usize ∷ allocation_semantics ∷ []) none
    ∷ field "will_never_move" (object_reference ∷ []) (some rust_bool)
    ∷ field "start_worker" (vm_worker_thread ∷ mut_c_void ∷ []) none
    ∷ field "initialize_collection" (vm_thread ∷ []) none
    ∷ field "used_bytes" [] (some usize)
    ∷ field "free_bytes" [] (some usize)
    ∷ field "total_bytes" [] (some usize)
    ∷ field "handle_user_collection_request" (vm_mutator_thread ∷ []) none
    ∷ field "mmtk_enable_compressed_oops" [] none
    ∷ field "mmtk_set_compressed_klass_base_and_shift" (address ∷ usize ∷ []) none
    ∷ field "is_in_mmtk_spaces" (object_reference ∷ []) (some rust_bool)
    ∷ field "is_mapped_address" (address ∷ []) (some rust_bool)
    ∷ field "add_weak_candidate" (object_reference ∷ []) none
    ∷ field "add_soft_candidate" (object_reference ∷ []) none
    ∷ field "add_phantom_candidate" (object_reference ∷ []) none
    ∷ field "harness_begin" (usize ∷ []) none
    ∷ field "mmtk_harness_begin_impl" [] none
    ∷ field "harness_end" (usize ∷ []) none
    ∷ field "mmtk_harness_end_impl" [] none
    ∷ field "process" (c_chars ∷ c_chars ∷ []) (some rust_bool)
    ∷ field "mmtk_builder_read_env_var_settings" [] none
    ∷ field "mmtk_builder_set_threads" (usize ∷ []) none
    ∷ field "mmtk_builder_set_transparent_hugepages" (rust_bool ∷ []) none
    ∷ field "process_bulk" (c_chars ∷ []) (some rust_bool)
    ∷ field "mmtk_narrow_oop_base" [] (some address)
    ∷ field "mmtk_narrow_oop_shift" [] (some usize)
    ∷ field "starting_heap_address" [] (some address)
    ∷ field "last_heap_address" [] (some address)
    ∷ field "openjdk_max_capacity" [] (some usize)
    ∷ field "executable" [] (some rust_bool)
    ∷ field "mmtk_load_reference" (mut_c_void ∷ object_reference ∷ []) none
    ∷ field "mmtk_object_reference_write_pre"
        (mut_c_void ∷ object_reference ∷ address ∷ nullable_object_reference ∷ []) none
    ∷ field "mmtk_object_reference_write_post"
        (mut_c_void ∷ object_reference ∷ address ∷ nullable_object_reference ∷ []) none
    ∷ field "mmtk_object_reference_write_slow"
        (mut_c_void ∷ object_reference ∷ address ∷ nullable_object_reference ∷ []) none
    ∷ field "mmtk_array_copy_pre" (mut_c_void ∷ address ∷ address ∷ usize ∷ []) none
    ∷ field "mmtk_array_copy_post" (mut_c_void ∷ address ∷ address ∷ usize ∷ []) none
    ∷ field "mmtk_object_probable_write" (mut_c_void ∷ object_reference ∷ []) none
    ∷ field "add_finalizer" (object_reference ∷ []) none
    ∷ field "get_finalized_object" [] (some nullable_object_reference)
    ∷ field "mmtk_add_nmethod_oop" (address ∷ []) none
    ∷ field "mmtk_register_nmethod" (address ∷ []) none
    ∷ field "mmtk_unregister_nmethod" (address ∷ []) none
    ∷ []

-- The function that a name is linked to.
unfoldable pub link : String → List RustField → Option RustField
link name [] = none
link name (f ∷ fs) = if str_eq f.name name then some f else link name fs

-- The result is as declared; where the caller does not look at it, there may be none.
abbrev pub ResultFits : Use → Extern → RustField → Type 0
ResultFits called_for_result d f = c_result f.result ≡ d.result
ResultFits called d f = (c_result f.result ≡ d.result) ⊎ (c_result f.result ≡ void)
ResultFits unused d f = Unit

abbrev IsLinked : Use → Extern → Option RustField → Type 0
IsLinked unused d o = Unit
IsLinked u d none = ⊥
IsLinked u d (some f) = (map c_type f.parameters ≡ d.parameters) × ResultFits u d f

abbrev Found : Extern → Option RustField → Type 0
Found d o =
    (f : RustField) × (o ≡ some f)
    × (map c_type f.parameters ≡ d.parameters)
    × ResultFits d.purpose d f

IsLinked-Found :
    (u : Use) (d : Extern) (o : Option RustField)
    → d.purpose ≡ u
    → u ≢ unused
    → IsLinked u d o
    → Found d o
IsLinked-Found unused d o e used l = absurd (used refl)
IsLinked-Found called d (some f) e used (p, r) =
    (f, refl, p, subst (λ u. ResultFits u d f) (sym e) r)
IsLinked-Found called_for_result d (some f) e used (p, r) =
    (f, refl, p, subst (λ u. ResultFits u d f) (sym e) r)
IsLinked-Found called d none e used l = absurd l
IsLinked-Found called_for_result d none e used l = absurd l

declarations-IsLinked : All (λ d. IsLinked d.purpose d (link d.name rust_functions)) declarations
unfolding declarations link rust_functions c_type
declarations-IsLinked = search (inl, inr)

All-get_elem? {ℓ} :
    {A : Type ℓ} (P : A → Type 0) (xs : List A) (i : ℕ) (x : A)
    → All P xs
    → get_elem? xs i ≡ some x
    → P x
All-get_elem? P [] i x h e = absurd (none-ne-some x e)
All-get_elem? P (y ∷ ys) zero x (h, hs) e = subst P (some-injective _ _ e) h
All-get_elem? P (y ∷ ys) (suc i) x (h, hs) e = All-get_elem? P ys i x hs e

-- Whatever the declaration in the header, at the position i, of a function that the code under openjdk/ calls: the
-- Rust side exports a function of this name; its parameters are passed as the declared ones; and its result is
-- returned as the declared one where the caller looks at it, and else in this way or not at all.
pub declarations-agree :
    (i : ℕ) (d : Extern)
    → get_elem? declarations i ≡ some d
    → d.purpose ≢ unused
    → (f : RustField) × (link d.name rust_functions ≡ some f)
      × (map c_type f.parameters ≡ d.parameters)
      × ResultFits d.purpose d f
declarations-agree i d e used =
    IsLinked-Found d.purpose d (link d.name rust_functions) refl used
      (All-get_elem? _ declarations i d declarations-IsLinked e)
