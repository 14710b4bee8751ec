-- ===== src/Tests/Downcalls.antt =====
-- A declaration of the header.
use mmtk_openjdk.Base.{◌≡◌, refl, [], ◌∷◌, some, map}
use mmtk_openjdk.Upcalls.{pointer}
use mmtk_openjdk.Upcalls.Rust.{RustField, c_type}
use mmtk_openjdk.Downcalls.{Extern, called_for_result, declarations}
use mmtk_openjdk.Downcalls.Link.{link, rust_functions, ResultFits, declarations-agree}

-- `bind_mutator`
abbrev bind_mutator : Extern
bind_mutator = record {
  purpose = called_for_result;
  name = "bind_mutator";
  parameters = pointer ∷ [];
  result = pointer;
}

declarations-agree_example :
    (f : RustField) × (link "bind_mutator" rust_functions ≡ some f)
    × (map c_type f.parameters ≡ pointer ∷ [])
    × ResultFits called_for_result bind_mutator f
unfolding declarations
declarations-agree_example = declarations-agree 1 bind_mutator refl (λ e. cc)
