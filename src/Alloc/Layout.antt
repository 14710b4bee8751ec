-- ===== src/Alloc/Layout.antt =====
-- The layout of `MMTkMutatorContext` (openjdk/mmtkMutator.hpp), and where in it the fast paths find the
-- cursor and the limit of an allocator (`get_tlab_top_and_end_offsets`, openjdk/mmtkBarrierSet.cpp).
use mmtk_openjdk.Base.{
  ℕ, zero, suc, ◌+◌, ◌-◌, ◌*◌, ◌/◌, ◌%◌, ◌≤◌, ◌<◌, ◌≡◌, Option, none, some, List, [], ◌∷◌, ◌++◌,
  refl, ◌==◌, if◌then◌else◌, arith, inl, inr, Option-cases,
}

-- A member of a struct: its size and its alignment in bytes.
pub record Field : Type 0 where
  pub size : ℕ
  pub align : ℕ

abbrev pub align_up : ℕ → ℕ → ℕ
align_up offset align = (offset + align - 1) / align * align

-- Where the member behind `offset` and `skipped` others begins.
abbrev pub offset_from : ℕ → ℕ → List Field → ℕ
offset_from offset k [] = offset
offset_from offset zero (f ∷ rest) = align_up offset f.align
offset_from offset (suc k) (f ∷ rest) = offset_from (align_up offset f.align + f.size) k rest

abbrev pub end_from : ℕ → List Field → ℕ
end_from offset [] = align_up offset 8
end_from offset (f ∷ rest) = end_from (align_up offset f.align + f.size) rest

-- `byte_offset_of`, by the position of the member.
abbrev pub byte_offset_of : List Field → ℕ → ℕ
byte_offset_of fields k = offset_from 0 k fields

-- `sizeof`, of a struct with the alignment of a pointer.
abbrev pub size_of : List Field → ℕ
size_of fields = end_from 0 fields

abbrev pointer : Field
pointer = record { size = 8; align = 8 }

abbrev byte : Field
byte = record { size = 1; align = 1 }

-- `RustDynPtr`
abbrev rust_dyn_ptr : Field
rust_dyn_ptr = record { size = 16; align = 8 }

abbrev array : ℕ → List Field → Field
array n fields = record { size = n * size_of fields; align = 8 }

-- tls, cursor, limit, space, context
abbrev pub bump_allocator : List Field
bump_allocator = pointer ∷ pointer ∷ pointer ∷ rust_dyn_ptr ∷ pointer ∷ []

-- tls, space, context
abbrev pub large_object_allocator : List Field
large_object_allocator = pointer ∷ pointer ∷ pointer ∷ []

-- tls, cursor, limit, immix_space, context, hot, copy, large_cursor, large_limit, request_for_large,
-- _align, line_opt_tag, line_opt
abbrev pub immix_allocator : List Field
immix_allocator =
    pointer
    ∷ pointer
    ∷ pointer
    ∷ pointer
    ∷ pointer
    ∷ byte
    ∷ byte
    ∷ pointer
    ∷ pointer
    ∷ byte
    ∷ record { size = 7; align = 1 }
    ∷ byte
    ∷ pointer
    ∷ []

-- tls, space, context, and four lists of blocks
abbrev pub free_list_allocator : List Field
free_list_allocator = pointer ∷ pointer ∷ pointer ∷ pointer ∷ pointer ∷ pointer ∷ pointer ∷ []

-- tls, space, context
abbrev pub malloc_allocator : List Field
malloc_allocator = pointer ∷ pointer ∷ pointer ∷ []

-- bump_allocator
abbrev pub mark_compact_allocator : List Field
mark_compact_allocator = record { size = size_of bump_allocator; align = 8 } ∷ []

abbrev pub max_bump_allocators : ℕ
max_bump_allocators = 6

abbrev max_large_object_allocators : ℕ
max_large_object_allocators = 2

abbrev max_malloc_allocators : ℕ
max_malloc_allocators = 1

abbrev pub max_immix_allocators : ℕ
max_immix_allocators = 2

abbrev max_free_list_allocators : ℕ
max_free_list_allocators = 2

abbrev pub max_mark_compact_allocators : ℕ
max_mark_compact_allocators = 1

-- bump_pointer, large_object, malloc, immix, free_list, markcompact
abbrev pub allocators : List Field
allocators =
    array max_bump_allocators bump_allocator
    ∷ array max_large_object_allocators large_object_allocator
    ∷ array max_malloc_allocators malloc_allocator
    ∷ array max_immix_allocators immix_allocator
    ∷ array max_free_list_allocators free_list_allocator
    ∷ array max_mark_compact_allocators mark_compact_allocator
    ∷ []

-- The tags of `AllocatorSelector`.
pub data Tag : Type 0 where
  bump_pointer large_object malloc immix mark_compact free_list : Tag

pub record Selector : Type 0 where
  pub tag : Tag
  pub index : ℕ

pub record Offsets : Type 0 where
  pub tlab_top_offset : ℕ
  pub tlab_end_offset : ℕ

-- `get_tlab_top_and_end_offsets`; `base` is the offset of the mutator's `allocators` in the thread, and
-- `none` is the call of `fatal`.
unfoldable pub get_tlab_top_and_end_offsets : (base : ℕ) → Selector → Option Offsets
get_tlab_top_and_end_offsets base s = elim s.tag [
  | immix ↦
      (let a = base + byte_offset_of allocators 3 + s.index * size_of immix_allocator in
        some (record {
          tlab_top_offset = a + byte_offset_of immix_allocator 1;
          tlab_end_offset = a + byte_offset_of immix_allocator 2;
        }))
  | bump_pointer ↦
      (let a = base + byte_offset_of allocators 0 + s.index * size_of bump_allocator in
        some (record {
          tlab_top_offset = a + byte_offset_of bump_allocator 1;
          tlab_end_offset = a + byte_offset_of bump_allocator 2;
        }))
  | mark_compact ↦
      (let a =
          base
          + byte_offset_of allocators 5
          + s.index * size_of mark_compact_allocator
          + byte_offset_of mark_compact_allocator 0 in
        some (record {
          tlab_top_offset = a + byte_offset_of bump_allocator 1;
          tlab_end_offset = a + byte_offset_of bump_allocator 2;
        }))
  | large_object ↦ none
  | malloc ↦ none
  | free_list ↦ none
]

-- How many allocators of the tag there are with a fast path.
abbrev pub allocators_of : Tag → ℕ
allocators_of immix = max_immix_allocators
allocators_of bump_pointer = max_bump_allocators
allocators_of mark_compact = max_mark_compact_allocators
allocators_of _ = 0

has_offsets :
    (base : ℕ) (s : Selector)
    → s.index < allocators_of s.tag
    → (o : Offsets) × (get_tlab_top_and_end_offsets base s ≡ some o)
unfolding get_tlab_top_and_end_offsets
has_offsets base s lt = elim (Option-cases (get_tlab_top_and_end_offsets base s)) [
  | inl e ↦ absurd (ground arith)
  | inr found ↦ found
]

-- The two words lie inside the allocators.
abbrev pub IsInside : ℕ → Offsets → Type 0
IsInside base o =
    (base ≤ o.tlab_top_offset)
    × (o.tlab_end_offset ≡ o.tlab_top_offset + 8)
    × (o.tlab_end_offset + 8 ≤ base + size_of allocators)
    × (o.tlab_top_offset % 8 ≡ base % 8)

offsets-IsInside :
    (base : ℕ) (s : Selector) (o : Offsets)
    → s.index < allocators_of s.tag
    → get_tlab_top_and_end_offsets base s ≡ some o
    → IsInside base o
unfolding get_tlab_top_and_end_offsets
offsets-IsInside base s o lt e = ground arith

offsets_apart :
    (base : ℕ) (s t : Selector) (o p : Offsets)
    → s.index < allocators_of s.tag
    → t.index < allocators_of t.tag
    → get_tlab_top_and_end_offsets base s ≡ some o
    → get_tlab_top_and_end_offsets base t ≡ some p
    → p.tlab_top_offset < o.tlab_end_offset + 8
    → o.tlab_top_offset < p.tlab_end_offset + 8
    → t ≡ s
unfolding get_tlab_top_and_end_offsets
offsets_apart base s t o p ls lt e f a b = ground arith

-- The members of the allocators one after the other, as the compiler lays them out: a cursor or a limit, with the
-- tag and the index of its allocator, or another member.
pub data Member : Type 0 where
  cursor limit : Selector → Member
  other : Member

abbrev member : Member → Field → Member × Field
member name f = (name, f)

abbrev pointers : ℕ → List (Member × Field)
pointers zero = []
pointers (suc k) = member other pointer ∷ pointers k

abbrev bump_members : Selector → List (Member × Field)
bump_members s =
    member other pointer
    ∷ member (cursor s) pointer
    ∷ member (limit s) pointer
    ∷ member other rust_dyn_ptr
    ∷ member other pointer
    ∷ []

abbrev immix_members : Selector → List (Member × Field)
immix_members s =
    member other pointer ∷ member (cursor s) pointer ∷ member (limit s) pointer ∷ pointers 2
    ++ member other byte ∷ member other byte ∷ pointers 2
    ++ member other byte
      ∷ member other (record { size = 7; align = 1 })
      ∷ member other byte
      ∷ member other pointer
      ∷ []

-- Six bump allocators; two large-object, one malloc; two Immix; two free-list; one mark-compact.
abbrev members : List (Member × Field)
members =
    bump_members (record { tag = bump_pointer; index = 0 })
    ++ bump_members (record { tag = bump_pointer; index = 1 })
    ++ bump_members (record { tag = bump_pointer; index = 2 })
    ++ bump_members (record { tag = bump_pointer; index = 3 })
    ++ bump_members (record { tag = bump_pointer; index = 4 })
    ++ bump_members (record { tag = bump_pointer; index = 5 })
    ++ pointers 9
    ++ immix_members (record { tag = immix; index = 0 })
    ++ immix_members (record { tag = immix; index = 1 })
    ++ pointers 14
    ++ bump_members (record { tag = mark_compact; index = 0 })

-- The member that begins at `k`, where the list begins at `offset`.
abbrev member_from : ℕ → List (Member × Field) → ℕ → Option Member
member_from offset [] k = none
member_from offset (m ∷ rest) k =
    let begin = align_up offset m.1.align in
    if begin == k then some m.0 else member_from (begin + m.1.size) rest k

abbrev pub member_at : ℕ → Option Member
member_at k = member_from 0 members k

-- The offsets are those of the cursor and the limit of the allocator.
abbrev pub Points : ℕ → Selector → Offsets → Type 0
Points base s o =
    (k : ℕ) × (o.tlab_top_offset ≡ base + k)
    × (member_at k ≡ some (cursor s))
    × (o.tlab_end_offset ≡ base + (k + 8))
    × (member_at (k + 8) ≡ some (limit s))

offsets-Points :
    (base : ℕ) (tag : Tag) (index : ℕ)
    → index < allocators_of tag
    → (o : Offsets)
    → get_tlab_top_and_end_offsets base (record { tag = tag; index = index }) ≡ some o
    → Points base (record { tag = tag; index = index }) o
unfolding get_tlab_top_and_end_offsets
offsets-Points base bump_pointer zero lt o e = (8, ground arith, refl, ground arith, refl)
offsets-Points base bump_pointer (suc zero) lt o e = (56, ground arith, refl, ground arith, refl)
offsets-Points base bump_pointer (suc (suc zero)) lt o e =
    (104, ground arith, refl, ground arith, refl)
offsets-Points base bump_pointer (suc (suc (suc zero))) lt o e =
    (152, ground arith, refl, ground arith, refl)
offsets-Points base bump_pointer (suc (suc (suc (suc zero)))) lt o e =
    (200, ground arith, refl, ground arith, refl)
offsets-Points base bump_pointer (suc (suc (suc (suc (suc zero))))) lt o e =
    (248, ground arith, refl, ground arith, refl)
offsets-Points base bump_pointer (suc (suc (suc (suc (suc (suc index)))))) lt o e =
    absurd (omega arith)
offsets-Points base immix zero lt o e = (368, ground arith, refl, ground arith, refl)
offsets-Points base immix (suc zero) lt o e = (456, ground arith, refl, ground arith, refl)
offsets-Points base immix (suc (suc index)) lt o e = absurd (omega arith)
offsets-Points base mark_compact zero lt o e = (656, ground arith, refl, ground arith, refl)
offsets-Points base mark_compact (suc index) lt o e = absurd (omega arith)
offsets-Points base large_object index lt o e = absurd (omega arith)
offsets-Points base malloc index lt o e = absurd (omega arith)
offsets-Points base free_list index lt o e = absurd (omega arith)

-- For an allocator with a fast path and an index below the number of its kind, there are offsets; they are
-- where the members of all allocators, laid out one after the other, have the cursor and the limit of this
-- allocator; these are adjacent words inside the mutator's allocators, aligned where the allocators are, and no
-- other such allocator's words overlap them.
pub get_tlab_top_and_end_offsets-apart :
    (base : ℕ) (s : Selector)
    → s.index < allocators_of s.tag
    → (o : Offsets) × (get_tlab_top_and_end_offsets base s ≡ some o)
      × Points base s o
      × IsInside base o
      × ((t : Selector) (p : Offsets)
          → t.index < allocators_of t.tag
          → get_tlab_top_and_end_offsets base t ≡ some p
          → p.tlab_top_offset < o.tlab_end_offset + 8
          → o.tlab_top_offset < p.tlab_end_offset + 8
          → t ≡ s)
get_tlab_top_and_end_offsets-apart base s lt =
    let (o, e) = has_offsets base s lt in
    (
      o,
      e,
      offsets-Points base s.tag s.index lt o e,
      offsets-IsInside base s o lt e,
      λ t p lt' f a b. offsets_apart base s t o p lt lt' e f a b,
    )
