-- ===== src/Tests/References.antt =====
-- An array with a repetition, before a pending list of two.
use mmtk_openjdk.Base.{ℕ, ◌≡◌, refl, false, List, [], ◌∷◌, ◌++◌, arith, has, ◌==◌, if◌then◌else◌}
use mmtk_openjdk.References.{null, Pending, enqueue_references}
use mmtk_openjdk.References.Link.{Chain}
use mmtk_openjdk.References.Enqueue.{
  distinct, IsUnlinked, IsDistinct, enqueue_references-append, enqueue_references-distinct,
}

abbrev found : List ℕ
found = 8 ∷ 16 ∷ 8 ∷ 24 ∷ 24 ∷ []

-- The pending list 32, 40.
abbrev before : Pending
before = record { discovered = λ a. if a == 32 then 40 else 0; pending_list = 32 }

found-IsUnlinked : IsUnlinked before found
found-IsUnlinked = record { proper = λ a h. ground arith; unlinked = λ a h. ground arith }

enqueue_references-append_example :
    let p' = enqueue_references found before in
    Chain p'.discovered p'.pending_list (distinct found ++ 32 ∷ 40 ∷ []) null
enqueue_references-append_example =
    enqueue_references-append before found (32 ∷ 40 ∷ []) found-IsUnlinked (refl, (refl, refl))
      (λ a h. ground arith)

enqueue_references-distinct_example :
    let p' = enqueue_references found before in
    Chain p'.discovered p'.pending_list (distinct found) 32
    × IsDistinct (distinct found)
    × ((a : ℕ) → has a (distinct found) ≡ has a found)
    × ((a : ℕ) → has a found ≡ false → p'.discovered a ≡ before.discovered a)
enqueue_references-distinct_example = enqueue_references-distinct before found found-IsUnlinked
