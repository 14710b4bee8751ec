-- ===== src/Tests/Objects.antt =====
-- The size of an array, and two checks of memory layouts.
use mmtk_openjdk.Base.{ℕ, ◌≡◌, refl, inr, false, arith}
use mmtk_openjdk.Objects.{
  get_object_size, size, KlassType, klass, instance_klass, instance_ref_klass,
  instance_mirror_klass, instance_class_loader_klass, type_array_klass, obj_array_klass,
  validate_memory_layouts,
}
use mmtk_openjdk.Objects.Size.{IsArray, size-get_object_size}

-- An array of three integers: 0xC0 100A02 is its layout helper, and it takes four words.
abbrev oop_size : ℕ → ℕ
oop_size o = 4

ints-IsArray : IsArray oop_size 64 0xC0100A02 3
ints-IsArray = record {
  tag = 0xC0;
  header_size = 16;
  element_type = 10;
  log2_element_size = 2;
  tag_high = ground arith;
  header_size_small = ground arith;
  element_type_small = ground arith;
  log2_element_size_small = ground arith;
  length_small = ground arith;
  layout = refl;
  aligned = refl;
}

size-get_object_size_example : size oop_size 64 0xC0100A02 3 ≡ get_object_size oop_size 64
size-get_object_size_example = size-get_object_size oop_size 64 0xC0100A02 3 (inr ints-IsArray)

sizes : ℕ → KlassType → ℕ
sizes n klass = 200
sizes n instance_klass = n
sizes n instance_ref_klass = 472
sizes n instance_mirror_klass = 472
sizes n instance_class_loader_klass = 472
sizes n type_array_klass = 232
sizes n obj_array_klass = 232

other_layout : validate_memory_layouts (sizes 472) (sizes 464) ≡ false
unfolding validate_memory_layouts sizes
other_layout = refl
