-- ===== src/Tests/Upcalls.antt =====
-- A field of the table of upcalls.
use mmtk_openjdk.Base.{◌≡◌, refl, [], ◌∷◌, some, none}
use mmtk_openjdk.Upcalls.{Declaration, mmtk_upcalls, open_jdk_upcalls, get_elem?, Implements}
use mmtk_openjdk.Upcalls.Rust.{
  RustField, mut_c_void, object_reference, opaque_pointer, rust_upcalls, c_field, upcalls-agree,
}

abbrev scan_object : RustField
scan_object = record {
  name = "scan_object";
  parameters = mut_c_void ∷ object_reference ∷ opaque_pointer ∷ [];
  result = none;
}

upcalls-agree_example :
    (get_elem? open_jdk_upcalls 6 ≡ some (c_field scan_object))
    × (f : Declaration) × (get_elem? mmtk_upcalls 6 ≡ some f)
    × Implements f (c_field scan_object)
unfolding rust_upcalls
upcalls-agree_example = upcalls-agree 6 scan_object refl
