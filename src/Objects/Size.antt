-- ===== src/Objects/Size.antt =====
-- The size of an object by the fast path of the Rust side (mmtk/src/abi.rs) is the one that `mmtk_get_object_size`
-- (openjdk/mmtkUpcalls.cpp) returns.
use mmtk_openjdk.Base.{ℕ, zero, suc, ◌+◌, ◌*◌, ◌/◌, ◌%◌, ◌^◌, ◌≤◌, ◌<◌, ◌≡◌, ◌⊎◌, inl, inr, arith}
use mmtk_openjdk.Objects.{
  get_object_size, layout_helper_needs_slow_path, layout_helper_log2_element_size,
  layout_helper_header_size, size_array, size,
}

-- What OpenJDK documents of the layout helper of an array class: a tag, the size of the header in bytes, the type of
-- the elements and the logarithm of their size, a byte each from the top; and the size of an array in words.
pub record IsArray (oop_size : ℕ → ℕ) (o lh length : ℕ) : Type 0 where
  pub tag : ℕ
  pub header_size : ℕ
  pub element_type : ℕ
  pub log2_element_size : ℕ
  pub tag_high : (128 ≤ tag) × (tag < 256)
  pub header_size_small : header_size < 256
  pub element_type_small : element_type < 256
  pub log2_element_size_small : log2_element_size ≤ 3
  pub length_small : length < 2 ^ 31
  pub layout : lh ≡ tag * 2 ^ 24 + header_size * 2 ^ 16 + element_type * 2 ^ 8 + log2_element_size
  pub aligned : oop_size o * 8 ≡ (header_size + length * 2 ^ log2_element_size + 7) / 8 * 8

-- That of an instance class is the size in bytes; with its lowest bit it says that the size is not that simple, and
-- so says zero.
abbrev pub IsInstance : (oop_size : ℕ → ℕ) → (o lh : ℕ) → Type 0
IsInstance oop_size o lh = (lh < 2 ^ 31) × ((lh ≡ 0) ⊎ (lh % 2 ≡ 1) ⊎ (oop_size o * 8 ≡ lh))

elements_small : (k n : ℕ) → k ≤ 3 → n < 2 ^ 31 → n * 2 ^ k < 2 ^ 34
elements_small zero n h small = omega arith
elements_small (suc zero) n h small = omega arith
elements_small (suc (suc zero)) n h small = omega arith
elements_small (suc (suc (suc zero))) n h small = omega arith
elements_small (suc (suc (suc (suc k)))) n h small = absurd (omega arith)

size_array-agrees :
    (oop_size : ℕ → ℕ) (o lh length : ℕ)
    → IsArray oop_size o lh length
    → size oop_size o lh length ≡ get_object_size oop_size o
unfolding size get_object_size size_array layout_helper_log2_element_size layout_helper_header_size
size_array-agrees oop_size o lh length a =
    let log2 : lh % 64 ≡ a.log2_element_size = omega arith in
    let header : lh / 2 ^ 16 % 256 ≡ a.header_size = omega arith in
    let small =
      elements_small a.log2_element_size length a.log2_element_size_small a.length_small in
    let negative : 2 ^ 31 ≤ lh = omega arith in rw (log2, header) (ground arith)

-- For an object that OpenJDK describes by its layout helper, as an instance or as an array: the Rust side computes
-- the size that the upcall returns, whether it makes the upcall or not.
pub size-get_object_size :
    (oop_size : ℕ → ℕ) (o lh length : ℕ)
    → IsInstance oop_size o lh ⊎ IsArray oop_size o lh length
    → size oop_size o lh length ≡ get_object_size oop_size o
unfolding size get_object_size layout_helper_needs_slow_path
size-get_object_size oop_size o lh length (inl (small, i)) = ground arith
size-get_object_size oop_size o lh length (inr a) = size_array-agrees oop_size o lh length a
