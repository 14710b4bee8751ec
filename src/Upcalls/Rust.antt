-- ===== src/Upcalls/Rust.antt =====
-- The Rust side's view of the table of upcalls: the structure `OpenJDK_Upcalls` with `#[repr(C)]` (mmtk/src/lib.rs),
-- through which it reads what openjdk/mmtkUpcalls.cpp fills.
use Prim.Native.String.{String}
use mathlib.Core.Option
use mathlib.Core.Option.{none-ne-some}
use mmtk_openjdk.Base.{ℕ, zero, suc, ◌≡◌, refl, subst, ap, List, [], ◌∷◌, map, Option, none, some}
use mmtk_openjdk.Upcalls.{
  CType, void, pointer, pointers, chars, int, size, bool, mutator_closure, slots_closure,
  allocator_selector, allocation_error, Declaration, open_jdk_upcalls, mmtk_upcalls, get_elem?,
  Implements, mmtk_upcalls-fills,
}

-- The types in the fields; `object_references` is `*const ObjectReference`, and `c_chars` is `*const c_char`.
pub data RustType : Type 0 where
  vm_worker_thread vm_thread vm_mutator_thread opaque_pointer object_reference mut_c_void : RustType
  object_references c_chars c_int i32 usize rust_bool : RustType
  rust_mutator_closure rust_slots_closure rust_allocation_error rust_allocator_selector : RustType
  address nullable_object_reference const_upcalls mut_addresses allocation_semantics : RustType

-- The C type that the calling convention passes each as: the threads, `OpaquePointer` and `ObjectReference` are
-- transparent around an address.
unfoldable pub c_type : RustType → CType
c_type vm_worker_thread = pointer
c_type vm_thread = pointer
c_type vm_mutator_thread = pointer
c_type opaque_pointer = pointer
c_type object_reference = pointer
c_type mut_c_void = pointer
c_type object_references = pointers
c_type c_chars = chars
c_type c_int = int
c_type i32 = int
c_type usize = size
c_type rust_bool = bool
c_type rust_mutator_closure = mutator_closure
c_type rust_slots_closure = slots_closure
c_type rust_allocation_error = allocation_error
c_type rust_allocator_selector = allocator_selector
c_type address = pointer
c_type nullable_object_reference = pointer
c_type const_upcalls = pointer
c_type mut_addresses = pointers
c_type allocation_semantics = int

-- A field, an `extern "C" fn` with its parameters and its result, if it has one.
pub record RustField : Type 0 where
  pub name : String
  pub parameters : List RustType
  pub result : Option RustType

abbrev pub field : String → List RustType → Option RustType → RustField
field name parameters result = record { name = name; parameters = parameters; result = result }

-- The fields, in their order.
unfoldable pub rust_upcalls : List RustField
rust_upcalls =
    field "stop_all_mutators" (vm_worker_thread ∷ rust_mutator_closure ∷ []) none
    ∷ field "resume_mutators" (vm_worker_thread ∷ []) none
    ∷ field "spawn_gc_thread" (vm_thread ∷ c_int ∷ mut_c_void ∷ []) none
    ∷ field "block_for_gc" [] none
    ∷ field "out_of_memory" (vm_thread ∷ rust_allocation_error ∷ []) none
    ∷ field "get_mutators" (rust_mutator_closure ∷ []) none
    ∷ field "scan_object" (mut_c_void ∷ object_reference ∷ opaque_pointer ∷ []) none
    ∷ field "dump_object" (object_reference ∷ []) none
    ∷ field "get_object_size" (object_reference ∷ []) (some usize)
    ∷ field "get_mmtk_mutator" (vm_mutator_thread ∷ []) (some mut_c_void)
    ∷ field "is_mutator" (vm_thread ∷ []) (some rust_bool)
    ∷ field "harness_begin" [] none
    ∷ field "harness_end" [] none
    ∷ field "compute_klass_mem_layout_checksum" [] (some usize)
    ∷ field "offset_of_static_fields" [] (some i32)
    ∷ field "static_oop_field_count_offset" [] (some i32)
    ∷ field "referent_offset" [] (some i32)
    ∷ field "discovered_offset" [] (some i32)
    ∷ field "dump_object_string" (object_reference ∷ []) (some c_chars)
    ∷ field "scan_roots_in_all_mutator_threads" (rust_slots_closure ∷ []) none
    ∷ field "scan_roots_in_mutator_thread" (rust_slots_closure ∷ vm_mutator_thread ∷ []) none
    ∷ field "scan_universe_roots" (rust_slots_closure ∷ []) none
    ∷ field "scan_jni_handle_roots" (rust_slots_closure ∷ []) none
    ∷ field "scan_object_synchronizer_roots" (rust_slots_closure ∷ []) none
    ∷ field "scan_management_roots" (rust_slots_closure ∷ []) none
    ∷ field "scan_jvmti_export_roots" (rust_slots_closure ∷ []) none
    ∷ field "scan_aot_loader_roots" (rust_slots_closure ∷ []) none
    ∷ field "scan_system_dictionary_roots" (rust_slots_closure ∷ []) none
    ∷ field "scan_code_cache_roots" (rust_slots_closure ∷ []) none
    ∷ field "scan_string_table_roots" (rust_slots_closure ∷ []) none
    ∷ field "scan_class_loader_data_graph_roots" (rust_slots_closure ∷ []) none
    ∷ field "scan_weak_processor_roots" (rust_slots_closure ∷ []) none
    ∷ field "scan_vm_thread_roots" (rust_slots_closure ∷ []) none
    ∷ field "number_of_mutators" [] (some usize)
    ∷ field "schedule_finalizer" [] none
    ∷ field "prepare_for_roots_re_scanning" [] none
    ∷ field "enqueue_references" (object_references ∷ usize ∷ []) none
    ∷ []

abbrev pub c_result : Option RustType → CType
c_result none = void
c_result (some t) = c_type t

-- The field as a C compiler lays it out.
unfoldable pub c_field : RustField → Declaration
unfolding c_type
c_field r = record {
  name = r.name;
  parameters = map c_type r.parameters;
  result = c_result r.result;
}

same_structure : map c_field rust_upcalls ≡ open_jdk_upcalls
unfolding rust_upcalls open_jdk_upcalls c_field c_type
same_structure = refl

get_elem?-map {ℓ κ} :
    {A : Type ℓ} {B : Type κ} (f : A → B) (xs : List A) (i : ℕ) (x : A)
    → get_elem? xs i ≡ some x
    → get_elem? (map f xs) i ≡ some (f x)
get_elem?-map f [] i x e = absurd (none-ne-some x e)
get_elem?-map f (y ∷ ys) zero x e = ap (Option.map f) e
get_elem?-map f (y ∷ ys) (suc i) x e = get_elem?-map f ys i x e

-- Whatever the field of the Rust structure, at the position i: the C structure has at this position a field of the
-- same name, with the C types of its parameters and its result; and `mmtk_upcalls` puts a function there, not a null
-- pointer, which is called like the field, with or without `mmtk_` in front, and is defined with these types.
pub upcalls-agree :
    (i : ℕ) (r : RustField)
    → get_elem? rust_upcalls i ≡ some r
    → (get_elem? open_jdk_upcalls i ≡ some (c_field r))
      × (f : Declaration) × (get_elem? mmtk_upcalls i ≡ some f)
      × Implements f (c_field r)
upcalls-agree i r e =
    let in_c =
      subst (λ ms. get_elem? ms i ≡ some (c_field r)) same_structure
        (get_elem?-map c_field rust_upcalls i r e) in
    let (f, at_i, implements) = mmtk_upcalls-fills i (c_field r) in_c in (in_c, f, at_i, implements)
