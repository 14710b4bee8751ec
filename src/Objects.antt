-- ===== src/Objects.antt =====
-- What mmtk-core asks of objects and classes: `mmtk_get_object_size` and `compute_klass_mem_layout_checksum`
-- (openjdk/mmtkUpcalls.cpp), with `Oop::size` and `validate_memory_layouts` of the Rust side (mmtk/src/abi.rs).
pub mod Size
pub mod Checksum
use Prim.Native.Nat.{bit_xor}
use mmtk_openjdk.Base.{
  ℕ, ◌+◌, ◌*◌, ◌/◌, ◌%◌, ◌^◌, Bool, ltb, ◌==◌, if◌then◌else◌, List, [], ◌∷◌, Option, none, some,
  u64,
}

-- `klass->oop_size(o) << LogHeapWordSize`
unfoldable pub get_object_size : (oop_size : ℕ → ℕ) → ℕ → ℕ
get_object_size oop_size o = u64 (oop_size o * 8)

-- The layout helper is the bit pattern of an `i32`.
abbrev pub is_positive : ℕ → Bool
is_positive lh = if lh == 0 then Bool.false else ltb lh (2 ^ 31)

unfoldable pub layout_helper_needs_slow_path : ℕ → Bool
layout_helper_needs_slow_path lh = if lh % 2 == 0 then Bool.false else Bool.true

unfoldable pub layout_helper_log2_element_size : ℕ → ℕ
layout_helper_log2_element_size lh = lh % 64

unfoldable pub layout_helper_header_size : ℕ → ℕ
layout_helper_header_size lh = lh / 2 ^ 16 % 256

unfoldable pub size_array : (lh length : ℕ) → ℕ
unfolding layout_helper_log2_element_size layout_helper_header_size
size_array lh length =
    let elements = u64 (length * 2 ^ layout_helper_log2_element_size lh) in
    let size_in_bytes = u64 (elements + layout_helper_header_size lh) in
    u64 (size_in_bytes + 7) / 8 * 8

-- `lh` is the layout helper of the object's class, and `length` its length if it is an array.
unfoldable pub size : (oop_size : ℕ → ℕ) → (o lh length : ℕ) → ℕ
unfolding get_object_size layout_helper_needs_slow_path size_array
size oop_size o lh length =
    if is_positive lh
    then if layout_helper_needs_slow_path lh then get_object_size oop_size o else lh
    else if lh == 0
    then get_object_size oop_size o
    else size_array lh length

-- The classes whose sizes are compared.
pub data KlassType : Type 0 where
  klass instance_klass instance_ref_klass instance_mirror_klass : KlassType
  instance_class_loader_klass type_array_klass obj_array_klass : KlassType

unfoldable pub compute_klass_mem_layout_checksum : (size_of : KlassType → ℕ) → ℕ
compute_klass_mem_layout_checksum size_of =
    bit_xor
      (bit_xor
        (bit_xor
          (bit_xor
            (bit_xor (bit_xor (size_of klass) (size_of instance_klass))
              (size_of instance_ref_klass))
            (size_of instance_mirror_klass))
          (size_of instance_class_loader_klass))
        (size_of type_array_klass))
      (size_of obj_array_klass)

-- `validate_memory_layouts`, with the sizes on either side; `false` is a failed assertion.
unfoldable pub validate_memory_layouts : (vm binding : KlassType → ℕ) → Bool
unfolding compute_klass_mem_layout_checksum
validate_memory_layouts vm binding =
    compute_klass_mem_layout_checksum vm == compute_klass_mem_layout_checksum binding
